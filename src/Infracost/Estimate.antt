-- ===== src/Infracost/Estimate.antt =====
-- cost/infracost/parser.py: `build_estimate`, the difference of two runs as one cost estimate.
-- `say` writes a warning out; `raw_reference` is not kept.
use finops_cost_engine_poc.Prelude.{
  ℕ, ℤ, pos, ◌-ℤ◌, eqb_ℤ, String, Bool, true, false, not, ◌&&◌, List, [], ◌∷◌, ◌++◌, map, Option,
  none, some, str_eq, ◌==◌, note_if,
}
use finops_cost_engine_poc.Prelude.Dict.{Dict, keys, lookup, put, union}
use finops_cost_engine_poc.Prelude.Order.{sort_by}
use finops_cost_engine_poc.Json.{text, Fields}
use finops_cost_engine_poc.Errors.{
  Message, Result, ok, raise, finops, raise_if, ◌>>=◌, ◌>>◌, cost_estimation_error,
}
use finops_cost_engine_poc.Models.{
  Action, CostCoverage, CostEstimate, EstimatorTrust, NormalizedPlan, ResourceChange, ResourceCost,
  le_text,
}
use finops_cost_engine_poc.Infracost.Parsed.{
  ParsedBreakdown, ParsedResource, cloud_of, confidence, or_zero,
}

-- the warnings of an estimate
pub data Note : Type 0 where
  no_baseline_plan : Note
  not_supported no_price_available : ℕ → Fields → Note
  usage_assumed : ℕ → Note

-- `{c.address: c.action for c in plan.changes}`
unfoldable pub actions_of : List ResourceChange → Dict Action → Dict Action
actions_of [] d = d
actions_of (c ∷ rest) d = actions_of rest (put c.address c.action d)

unfoldable pub plan_actions : Option NormalizedPlan → Dict Action
plan_actions none = []
plan_actions (some plan) = actions_of plan.changes []

-- `(res.monthly_cost or ZERO) if res else ZERO`
abbrev pub cost_of : Option ParsedResource → ℤ
cost_of none = pos 0
cost_of (some r) = or_zero r.monthly_cost

-- `new_res or old_res`
abbrev pub source_of : Option ParsedResource → Option ParsedResource → Option ParsedResource
source_of none old = old
source_of (some new) old = some new

-- `delta == ZERO and new_cost == ZERO and old_cost == ZERO`
abbrev pub is_nothing : ℤ → ℤ → Bool
is_nothing new_cost old_cost =
    eqb_ℤ (new_cost -ℤ old_cost) (pos 0) && (eqb_ℤ new_cost (pos 0) && eqb_ℤ old_cost (pos 0))

unfoldable pub resource_cost : String → ParsedResource → ℤ → ℤ → Option Action → ResourceCost
resource_cost address source new_cost old_cost action = record {
  address = address;
  resource_type = source.resource_type;
  cloud = cloud_of source;
  previous_monthly_cost = old_cost;
  new_monthly_cost = new_cost;
  delta_monthly_cost = new_cost -ℤ old_cost;
  confidence = confidence source;
  action = action;
  components = source.components;
}

-- the body of the loop over the addresses: nothing or one item
unfoldable pub cost_at :
    String → Option ParsedResource → Option ParsedResource → Option Action → List ResourceCost
cost_at address none none action = []
cost_at address (some new) old action =
    note_if (not (is_nothing (cost_of (some new)) (cost_of old)))
      (resource_cost address new (cost_of (some new)) (cost_of old) action) []
cost_at address none (some old) action =
    note_if (not (is_nothing (pos 0) (cost_of (some old))))
      (resource_cost address old (pos 0) (cost_of (some old)) action) []

unfoldable pub costs_at :
    Dict ParsedResource → Dict ParsedResource → Dict Action → List String → List ResourceCost
costs_at proposed baseline actions [] = []
costs_at proposed baseline actions (a ∷ rest) =
    cost_at a (lookup a proposed) (lookup a baseline) (lookup a actions)
    ++ costs_at proposed baseline actions rest

-- `sorted(set(proposed) | set(baseline))`
unfoldable pub addresses : Dict ParsedResource → Dict ParsedResource → List String
addresses proposed baseline = sort_by le_text (union (keys proposed) (keys baseline))

abbrev pub baseline_resources : Option ParsedBreakdown → Dict ParsedResource
baseline_resources none = []
baseline_resources (some b) = b.resources

-- the proposed total, which must be there
unfoldable pub proposed_total : Option ℤ → Result ℤ
proposed_total none = raise (finops (cost_estimation_error Message.no_proposed_total))
proposed_total (some total) = ok total

-- the total of a baseline in a currency
abbrev baseline_in : String → String → Option ℤ → Result ℤ
baseline_in currency proposed none =
    raise (finops (cost_estimation_error Message.no_baseline_total))
baseline_in currency proposed (some total) = do
  raise_if (not (str_eq currency proposed)) (cost_estimation_error Message.different_currencies)
  ok total

-- the previous total: nothing where there is no baseline
unfoldable pub previous_total : String → Option ParsedBreakdown → Result ℤ
previous_total currency none = ok (pos 0)
previous_total currency (some b) = baseline_in b.currency currency b.total_monthly_cost

abbrev is_absent : Option ParsedBreakdown → Bool
is_absent none = true
is_absent (some b) = false

unfoldable pub coverage_notes : CostCoverage → List Note
coverage_notes c =
    note_if (not (c.unsupported_resources == 0))
      (not_supported c.unsupported_resources c.unsupported_resource_counts)
      (note_if (not (c.no_price_resources == 0))
        (no_price_available c.no_price_resources c.no_price_resource_counts)
        (note_if (not (c.usage_based_resources == 0)) (usage_assumed c.usage_based_resources) []))

module _ (say : Note → String) where
  unfoldable pub estimate_warnings : ParsedBreakdown → Option ParsedBreakdown → List String
  unfolding coverage_notes
  estimate_warnings proposed baseline =
      proposed.warnings
      ++ (note_if (is_absent baseline) (say no_baseline_plan) []
          ++ map say (coverage_notes proposed.coverage))

  unfoldable pub build_estimate :
      ParsedBreakdown
      → Option ParsedBreakdown
      → (estimator estimator_version : String) → EstimatorTrust
      → Option NormalizedPlan
      → Result CostEstimate
  build_estimate proposed baseline estimator estimator_version trust plan = do
    new_total ← proposed_total proposed.total_monthly_cost
    previous ← previous_total proposed.currency baseline
    let old = baseline_resources baseline
    ok (record {
      currency = proposed.currency;
      estimator = estimator;
      trust = trust;
      previous_monthly_cost = previous;
      new_monthly_cost = new_total;
      incremental_monthly_cost = new_total -ℤ previous;
      resources =
          costs_at proposed.resources old (plan_actions plan) (addresses proposed.resources old);
      coverage = proposed.coverage;
      warnings = estimate_warnings proposed baseline;
      estimator_version = text estimator_version;
    })
