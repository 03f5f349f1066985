-- ===== src/Estimators.antt =====
-- cost/: the estimators behind the interface of the gate, and the choice of one.
-- `say` writes a warning of `build_estimate` out. The runs of Infracost are a `Runner`: its check, its
-- version, and the document that it prints for a plan. The files that `_persist` writes, the notes of
-- a resource and `raw_reference` are not kept.
pub mod Mock
use finops_cost_engine_poc.Prelude.{
  ℕ, ◌*◌, ◌^◌, ℤ, pos, ◌+ℤ◌, ◌-ℤ◌, eqb_ℤ, String, ◌<>◌, Bool, true, false, ◌&&◌, List, [], ◌∷◌,
  Option, none, some, length, str_eq, if◌then◌else◌,
}
use finops_cost_engine_poc.Json.{Json, text, Fields, get}
use finops_cost_engine_poc.Errors.{
  Message, Result, ok, raise, finops, ◌>>=◌, ◌>>◌, configuration_error, cost_estimation_error,
}
use finops_cost_engine_poc.Models.{
  authoritative, non_authoritative, priced, ResourceChange, ResourceCost, CostEstimate,
  NormalizedPlan, cost_relevant_changes,
}
use finops_cost_engine_poc.Config.{Config}
use finops_cost_engine_poc.Plan.Normalizer.{FileContent, missing, invalid, document}
use finops_cost_engine_poc.Infracost.Parsed.{Numbers, Schema, v2, v010, ParsedBreakdown}
use finops_cost_engine_poc.Infracost.V010.{parse_document}
use finops_cost_engine_poc.Infracost.Estimate.{Note, build_estimate}
use finops_cost_engine_poc.Gate.{CostEstimator, EstimationRequest}

-- `_HOURLY`, in millionths
abbrev pub hourly : List (String × ℕ)
hourly =
    ("t3.micro", 10400)
    ∷ ("t3.medium", 41600)
    ∷ ("m5.large", 96000)
    ∷ ("m5.xlarge", 192000)
    ∷ ("m5.2xlarge", 384000)
    ∷ ("Standard_B2s", 41600)
    ∷ ("Standard_D2s_v5", 96000)
    ∷ ("Standard_D8s_v5", 384000)
    ∷ ("e2-medium", 33503)
    ∷ ("n2-standard-2", 97118)
    ∷ ("n2-standard-8", 388472)
    ∷ []

abbrev pub size_keys : List String
size_keys = "instance_type" ∷ "vm_size" ∷ "machine_type" ∷ "size" ∷ "sku_name" ∷ []

-- a month of 730 hours, in units of 10^-40
abbrev pub month_of : ℕ → ℤ
month_of millionths = pos (millionths * 10 ^ 34 * 730)

unfoldable pub price_of : String → List (String × ℕ) → Option ℤ
price_of size [] = none
price_of size ((name, millionths) ∷ rest) =
    let others = price_of size rest in
    if str_eq name size then some (month_of millionths) else others

-- what a value under a size key costs, if it is a known size
unfoldable pub price_at : Json → Option ℤ
unfolding price_of
price_at (text size) = price_of size hourly
price_at _ = none

abbrev first_price : Option ℤ → ℤ → ℤ
first_price none rest = rest
first_price (some v) rest = v

-- the loop of `_monthly_cost`
unfoldable pub monthly_cost_under : List String → Fields → ℤ
unfolding price_at
monthly_cost_under [] attributes = pos 0
monthly_cost_under (key ∷ keys) attributes =
    first_price (price_at (get key attributes)) (monthly_cost_under keys attributes)

unfoldable pub monthly_cost_of : Fields → ℤ
unfolding monthly_cost_under
monthly_cost_of attributes = monthly_cost_under size_keys attributes

-- `previous`, `new` and `resources` of the loop
pub record MockTotals : Type 0 where
  pub previous : ℤ
  pub new : ℤ
  pub resources : List ResourceCost

unfoldable pub mock_resource : ResourceChange → ResourceCost
unfolding monthly_cost_of
mock_resource change = record {
  address = change.address;
  resource_type = change.resource_type;
  cloud = change.cloud;
  previous_monthly_cost = monthly_cost_of change.before;
  new_monthly_cost = monthly_cost_of change.after;
  delta_monthly_cost = monthly_cost_of change.after -ℤ monthly_cost_of change.before;
  confidence = priced;
  action = some change.action;
  components = [];
}

abbrev is_free_change : ResourceChange → Bool
unfolding monthly_cost_of
is_free_change change =
    eqb_ℤ (monthly_cost_of change.before) (pos 0) && eqb_ℤ (monthly_cost_of change.after) (pos 0)

unfoldable pub mock_totals : List ResourceChange → MockTotals
unfolding monthly_cost_of mock_resource
mock_totals [] = record { previous = pos 0; new = pos 0; resources = [] }
mock_totals (change ∷ rest) =
    let t = mock_totals rest in
    record {
      previous = monthly_cost_of change.before +ℤ t.previous;
      new = monthly_cost_of change.after +ℤ t.new;
      resources = if is_free_change change then t.resources else mock_resource change ∷ t.resources;
    }

abbrev pub mock_warning : String
mock_warning = "Mock estimator - not valid for cost approval"

-- `MockEstimator.estimate`
unfoldable pub mock_estimate : EstimationRequest → CostEstimate
unfolding mock_totals cost_relevant_changes
mock_estimate request =
    let changes = cost_relevant_changes request.normalized_plan in
    let t = mock_totals changes in
    record {
      currency = request.currency;
      estimator = "mock";
      trust = non_authoritative;
      previous_monthly_cost = t.previous;
      new_monthly_cost = t.new;
      incremental_monthly_cost = t.new -ℤ t.previous;
      resources = t.resources;
      coverage = record {
        detected_resources = length changes;
        supported_resources = length t.resources;
        unsupported_resources = 0;
        no_price_resources = 0;
        usage_based_resources = 0;
        unsupported_resource_counts = Fields.end;
        no_price_resource_counts = Fields.end;
      };
      warnings = mock_warning ∷ [];
      estimator_version = text "test-double";
    }

abbrev pub mock_estimator : CostEstimator
mock_estimator = record { preflight = ok tt; estimate = λ request. ok (mock_estimate request) }

abbrev schema_name : Schema → String
schema_name v2 = "v2"
schema_name v010 = "v0.10"

-- `request.action_plan or request.normalized_plan`
abbrev plan_of : EstimationRequest → NormalizedPlan
plan_of request = first_plan request.action_plan request.normalized_plan
  where
    first_plan : Option NormalizedPlan → NormalizedPlan → NormalizedPlan
    first_plan none plan = plan
    first_plan (some plan) other = plan

-- `InfracostRunner`, and what `scan_plan` returns for the plan at a path
pub record Runner : Type 0 where
  pub preflight : Result (Unit {0})
  pub version : Result String
  pub scan_plan : FileContent → Result Json

module _ (show : Json → String) (numbers : Numbers) (say : Note → String) where
  -- `parse_document` of a document that is there
  unfoldable pub parse_baseline : Option (Result Json) → Result (Option ParsedBreakdown)
  parse_baseline none = ok none
  parse_baseline (some loaded) = do
    found ← loaded
    baseline ← parse_document show numbers found
    ok (some baseline)

  -- `_load` of the fixture estimator
  unfoldable pub load_fixture : FileContent → Result Json
  load_fixture (document found) = ok found
  load_fixture file = raise (finops (cost_estimation_error Message.other))

  unfoldable pub fixture_preflight : FileContent → Result (Unit {0})
  fixture_preflight missing = raise (finops (cost_estimation_error Message.fixture_missing))
  fixture_preflight file = ok tt

  abbrev baseline_fixture_of : Option FileContent → Option (Result Json)
  baseline_fixture_of none = none
  baseline_fixture_of (some file) = some (load_fixture file)

  -- `InfracostFixtureEstimator.estimate`
  unfoldable pub fixture_estimate :
      FileContent → Option FileContent → EstimationRequest → Result CostEstimate
  fixture_estimate proposed_fixture baseline_fixture request = do
    fixture_preflight proposed_fixture
    found ← load_fixture proposed_fixture
    proposed ← parse_document show numbers found
    baseline ← parse_baseline (baseline_fixture_of baseline_fixture)
    build_estimate say proposed baseline
        ("infracost_fixture (" <> schema_name proposed.schema <> " schema)") "recorded"
        authoritative (some (plan_of request))

  abbrev scanned : Runner → Option FileContent → Option (Result Json)
  scanned runner none = none
  scanned runner (some plan) = some (runner.scan_plan plan)

  -- `InfracostEstimator.estimate`
  unfoldable pub infracost_estimate : Runner → EstimationRequest → Result CostEstimate
  infracost_estimate runner request = do
    version ← runner.version
    found ← runner.scan_plan request.proposed_plan_json
    proposed ← parse_document show numbers found
    baseline ← parse_baseline (scanned runner request.baseline_plan_json)
    build_estimate say proposed baseline
        ("infracost (" <> schema_name proposed.schema <> " schema)") version authoritative
        (some (plan_of request))

  abbrev fixture_estimator : Option FileContent → Option FileContent → Result CostEstimator
  fixture_estimator none baseline = raise (finops (configuration_error Message.fixture_missing))
  fixture_estimator (some proposed) baseline = ok (record {
    preflight = fixture_preflight proposed;
    estimate = fixture_estimate proposed baseline;
  })

  -- `build_estimator`; the runner is the one that the settings configure.
  unfoldable pub build_estimator :
      Config → Runner → (proposed baseline : Option FileContent) → Result CostEstimator
  build_estimator config runner proposed_fixture baseline_fixture =
      let selected = config.cost_estimation.estimator in
      if str_eq selected "infracost"
      then ok (record { preflight = runner.preflight; estimate = infracost_estimate runner })
      else if str_eq selected "infracost_fixture"
      then fixture_estimator proposed_fixture baseline_fixture
      else if str_eq selected "mock"
      then ok mock_estimator
      else raise (finops (configuration_error Message.unknown_estimator))
