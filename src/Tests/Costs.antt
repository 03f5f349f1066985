-- ===== src/Tests/Costs.antt =====
-- Witnesses for the theorems on Infracost's output, on the reconciliation and on the report.
use finops_cost_engine_poc.Prelude.Int.{◌+ℤ◌, ◌-ℤ◌}
use finops_cost_engine_poc.Plan.Normalizer.{shown}
use finops_cost_engine_poc.Prelude.{
  inl, ◌*◌, ◌^◌, ℕ, pos, pos_part, ap, ◌+ℤ◌, ◌-ℤ◌, String, ◌≡◌, ◌≢◌, refl, [], ◌∷◌, none, some,
  arith,
}
use mathlib.Core.List.{Perm, Mem, Memᴰ}
use finops_cost_engine_poc.Prelude.Dict.{IsDict, update, put}
use finops_cost_engine_poc.Prelude.Dict.Totals.{values_total}
use finops_cost_engine_poc.Json.{
  Json, num, text, arr, obj, nil, cons, Fields, end, field, as_dict, truthy, get, has_key, as_list,
}
use finops_cost_engine_poc.Errors.{Result, ok, raise}
use finops_cost_engine_poc.Models.{
  pass, PolicyDecision, CostEstimate, ResourceCost, authoritative, priced, no_price, noop, aws,
}
use finops_cost_engine_poc.Infracost.Parsed.{
  Numbers, ParsedBreakdown, v010, count_or_default, detect_schema, dec, join, labelled, parts_of,
  subs,
}
use finops_cost_engine_poc.Infracost.V2.{components_v2}
use finops_cost_engine_poc.Infracost.V010.{
  components_v010, parse_document, parse_v010, projects_v010, breakdown_node, free_resources,
  priced_resources, component_v010, cost_v010, own_v010, resource_v010,
}
use finops_cost_engine_poc.Infracost.Estimate.{
  Note, baseline_resources, build_estimate, previous_total, proposed_total,
}
use finops_cost_engine_poc.Infracost.Keys.{parse_document-IsDict}
use finops_cost_engine_poc.Infracost.Parts.{
  Adds, all_of, below, held_v2, held_v010, priced_cost, any_cost, components-Adds,
}
use finops_cost_engine_poc.Infracost.Totals.{cost, sum_of, build_estimate-sums}
use finops_cost_engine_poc.Plan.Normalizer.{missing}
use finops_cost_engine_poc.Policy.{evaluate}
use finops_cost_engine_poc.Gate.{EstimationRequest}
use finops_cost_engine_poc.Estimators.{mock_estimate}
use finops_cost_engine_poc.Estimators.Mock.{mock_estimate-refused}
use finops_cost_engine_poc.Reconcile.{
  default_tolerance, reconcile_estimate, reconciliation_problems,
}
use finops_cost_engine_poc.Reconcile.Sums.{build_estimate-reconcile}
use finops_cost_engine_poc.Report.{coverage_breakdown, pr_changed_resources, change_label}
use finops_cost_engine_poc.Report.Groups.{listed, every_group, coverage_breakdown-exact}
use finops_cost_engine_poc.Report.Changes.{pr_changed_resources-moved}
use finops_cost_engine_poc.Tests.{units, plan, estimate, shown_as, policy}

abbrev numbers : Numbers
numbers = record { decimal = λ s. none; whole = λ s. none }

abbrev said : Note → String
said note = "note"

abbrev component : ℕ → Fields
component monthly = field "name" (text "hours") (field "monthlyCost" (num (units monthly)) end)

-- a resource with one component, and one subresource with another
abbrev node : String → ℕ → ℕ → Fields
node name own inner = field "name" (text name) (
    field "resourceType" (text "aws_instance") (
      field "costComponents" (arr (cons (obj (component own)) nil)) (
        field "subresources"
          (arr (
            cons
              (obj (
                field "name" (text "disk")
                  (field "costComponents" (arr (cons (obj (component inner)) nil)) end)))
              nil))
          end)))

abbrev output : ℕ → ℕ → Json
output own inner = obj (
    field "totalMonthlyCost" (num (units (Prim.Native.Nat.◌+◌ own inner))) (
      field "projects"
        (arr (
          cons
            (obj (
              field "breakdown"
                (obj (
                  field "resources" (arr (cons (obj (node "aws_instance.web" own inner)) nil)) end))
                end))
            nil))
        end))

abbrev parsed_or : Result ParsedBreakdown → ParsedBreakdown
parsed_or (ok b) = b
parsed_or (raise e) = record {
  currency = "";
  total_monthly_cost = none;
  resources = [];
  coverage = estimate.coverage;
  schema = v010;
  warnings = [];
}

abbrev proposed : ParsedBreakdown
proposed = parsed_or (parse_document shown_as numbers (output 20 5))

abbrev baseline : ParsedBreakdown
baseline = parsed_or (parse_document shown_as numbers (output 10 5))

proposed_is : parse_document shown_as numbers (output 20 5) ≡ ok proposed
unfolding parse_document detect_schema has_key parse_v010 count_or_default truthy get as_dict
proposed_is = refl

baseline_is : parse_document shown_as numbers (output 10 5) ≡ ok baseline
unfolding parse_document detect_schema has_key parse_v010 count_or_default truthy get as_dict
baseline_is = refl

abbrev built_or : Result CostEstimate → CostEstimate
built_or (ok e) = e
built_or (raise e) = estimate

abbrev built : CostEstimate
built =
    built_or
      (build_estimate said proposed (some baseline) "infracost" "0.10" authoritative (some plan))

built_is :
    build_estimate said proposed (some baseline) "infracost" "0.10" authoritative (some plan)
    ≡ ok built
unfolding build_estimate proposed_total parse_document detect_schema has_key parse_v010
    count_or_default truthy get as_dict dec previous_total shown
built_is = refl

proposed-agrees : proposed.total_monthly_cost ≡ some (values_total cost proposed.resources)
unfolding parse_document parse_v010 projects_v010 breakdown_node free_resources priced_resources
    component_v010 components_v010 cost_v010 own_v010 resource_v010 detect_schema count_or_default
    dec join labelled parts_of subs has_key truthy get as_dict as_list update put values_total shown
    ◌+ℤ◌
proposed-agrees = refl

baseline-agrees : baseline.total_monthly_cost ≡ some (values_total cost baseline.resources)
unfolding parse_document parse_v010 projects_v010 breakdown_node free_resources priced_resources
    component_v010 components_v010 cost_v010 own_v010 resource_v010 detect_schema count_or_default
    dec join labelled parts_of subs has_key truthy get as_dict as_list update put values_total shown
    ◌+ℤ◌
baseline-agrees = refl

build_estimate-reconcile_example :
    reconciliation_problems (reconcile_estimate built default_tolerance) ≡ []
build_estimate-reconcile_example =
    build_estimate-reconcile shown_as numbers said (output 20 5) (some (output 10 5)) proposed
      (some baseline) "infracost" "0.10" authoritative (some plan) built default_tolerance
      proposed_is baseline_is built_is proposed-agrees baseline-agrees (omega arith)

proposed-IsDict : IsDict proposed.resources
proposed-IsDict = parse_document-IsDict shown_as numbers (output 20 5) proposed proposed_is

baseline-IsDict : IsDict (baseline_resources (some baseline))
baseline-IsDict = parse_document-IsDict shown_as numbers (output 10 5) baseline baseline_is

build_estimate-sums_example :
    (sum_of (λ r. r.new_monthly_cost) built.resources ≡ values_total cost proposed.resources)
    × (sum_of (λ r. r.previous_monthly_cost) built.resources ≡ values_total cost baseline.resources)
    × (sum_of (λ r. r.delta_monthly_cost) built.resources
        ≡ values_total cost proposed.resources -ℤ values_total cost baseline.resources)
build_estimate-sums_example =
    build_estimate-sums said proposed (some baseline) "infracost" "0.10" authoritative (some plan)
      built proposed-IsDict baseline-IsDict built_is

components-Adds_example :
    Adds priced_cost
      (all_of
        (held_v2 shown_as numbers)
        (node "aws_instance.web" 20 5 ∷ below (node "aws_instance.web" 20 5)))
      (components_v2 shown_as numbers (node "aws_instance.web" 20 5))
    × Adds any_cost
        (all_of
          (held_v010 shown_as numbers)
          (node "aws_instance.web" 20 5 ∷ below (node "aws_instance.web" 20 5)))
        (components_v010 shown_as numbers (node "aws_instance.web" 20 5))
components-Adds_example = components-Adds shown_as numbers (node "aws_instance.web" 20 5)

abbrev row : ResourceCost
row = record {
  address = "aws_instance.web";
  resource_type = "aws_instance";
  cloud = aws;
  previous_monthly_cost = units 15;
  new_monthly_cost = units 25;
  delta_monthly_cost = units 10;
  confidence = priced;
  action = some noop;
  components = [];
}

abbrev unpriced_row : ResourceCost
unpriced_row = record row {
  address = "aws_eip.web";
  resource_type = "aws_eip";
  delta_monthly_cost = pos 0;
  confidence = no_price;
}

abbrev listed_estimate : CostEstimate
listed_estimate = record estimate { resources = unpriced_row ∷ row ∷ [] }

coverage_breakdown-exact_example :
    (coverage_breakdown listed_estimate ≡ every_group (unpriced_row ∷ row ∷ []))
    × Perm (listed (coverage_breakdown listed_estimate)) (unpriced_row ∷ row ∷ [])
coverage_breakdown-exact_example = coverage_breakdown-exact listed_estimate

row_moved : row.delta_monthly_cost ≢ pos 0
row_moved h = omega (arith, ap pos_part h)

pr_changed_resources-moved_example :
    Mem row (pr_changed_resources listed_estimate) × (change_label row ≢ "unchanged")
pr_changed_resources-moved_example =
    pr_changed_resources-moved listed_estimate row ∣ Memᴰ.tail (Memᴰ.head refl) ∣₁ row_moved

abbrev request : EstimationRequest
request = record {
  proposed_plan_json = missing;
  baseline_plan_json = none;
  normalized_plan = plan;
  action_plan = none;
  currency = "USD";
}

mock_estimate-refused_example :
    ((d : PolicyDecision) × (evaluate (mock_estimate request) policy [] ≡ ok d) × (d.status ≢ pass))
    × (sum_of (λ r. r.new_monthly_cost) (mock_estimate request).resources
        ≡ (mock_estimate request).new_monthly_cost)
    × (sum_of (λ r. r.delta_monthly_cost) (mock_estimate request).resources
        ≡ (mock_estimate request).incremental_monthly_cost)
mock_estimate-refused_example = mock_estimate-refused request policy (inl refl) refl

mock_prices : (mock_estimate request).incremental_monthly_cost ≡ pos (10400 * 10 ^ 34 * 730)
unfolding mock_estimate ◌-ℤ◌ ◌+ℤ◌ get
mock_prices = refl
