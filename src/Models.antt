-- ===== src/Models.antt =====
-- models.py: the domain types that every layer shares, and their properties.
-- Times are texts, as in the source, and an absent `source_path` or `raw_reference` is not kept.
use finops_cost_engine_poc.Prelude.{
  ℕ, ◌*◌, ℤ, pos, negsuc, ltb_ℤ, eqb_ℤ, abs_ℕ, neg_of, String, Bool, true, false, ◌&&◌, ◌==◌, leb,
  Option, none, some, List, map, filterb, take, if◌then◌else◌, ◌<>◌,
}
use Prim.Native.String.{compare}
use Prim.Native.Nat.{Ordering}
use finops_cost_engine_poc.Prelude.Order.{sort_by}
use finops_cost_engine_poc.Json.{Json, text, arr, obj, Fields, end, field, of_list, optional}
use finops_cost_engine_poc.Decimal.{Decimal, finite, infinity, minus_decimal, percentage_of}
use finops_cost_engine_poc.Errors.{FinOpsError}

pub data Cloud : Type 0 where
  aws azure gcp unknown : Cloud

pub data Action : Type 0 where
  create update delete replace noop read : Action

pub data Status : Type 0 where
  pass fail error : Status

pub data EstimatorTrust : Type 0 where
  authoritative non_authoritative : EstimatorTrust

pub data CostConfidence : Type 0 where
  priced free usage_based no_price unsupported : CostConfidence

-- the `value` of each enumeration
unfoldable pub cloud_value : Cloud → String
cloud_value aws = "aws"
cloud_value azure = "azure"
cloud_value gcp = "gcp"
cloud_value unknown = "unknown"

unfoldable pub action_value : Action → String
action_value create = "create"
action_value update = "update"
action_value delete = "delete"
action_value replace = "replace"
action_value noop = "no-op"
action_value read = "read"

unfoldable pub status_value : Status → String
status_value pass = "PASS"
status_value fail = "FAIL"
status_value error = "ERROR"

unfoldable pub trust_value : EstimatorTrust → String
trust_value authoritative = "AUTHORITATIVE"
trust_value non_authoritative = "NON_AUTHORITATIVE"

pub record ResourceChange : Type 0 where
  pub address : String
  pub resource_type : String
  pub name : String
  pub cloud : Cloud
  pub action : Action
  pub provider_name : String
  pub module_address : Json
  pub index : Json
  pub region : Option String
  pub before : Fields
  pub after : Fields

abbrev pub changes_cost : Action → Bool
changes_cost noop = false
changes_cost read = false
changes_cost _ = true

unfoldable pub is_cost_relevant : ResourceChange → Bool
is_cost_relevant c = changes_cost c.action

pub record NormalizedPlan : Type 0 where
  pub terraform_version : String
  pub format_version : String
  pub changes : List ResourceChange
  pub clouds : List Cloud

unfoldable pub cost_relevant_changes : NormalizedPlan → List ResourceChange
unfolding is_cost_relevant
cost_relevant_changes plan = filterb is_cost_relevant plan.changes

-- the order of texts by code points
abbrev pub le_text : String → String → Bool
le_text s t = elim (compare s t) [ Ordering.gt ↦ false | _ ↦ true ]

abbrev pub by_address : ResourceChange → ResourceChange → Bool
by_address c d = le_text c.address d.address

-- what `fingerprint` hashes of one change
unfoldable pub fingerprint_entry : ResourceChange → Json
unfolding cloud_value action_value
fingerprint_entry c = obj (
    field "address" (text c.address) (
      field "type" (text c.resource_type) (
        field "cloud" (text (cloud_value c.cloud)) (
          field "action" (text (action_value c.action)) (
            field "region" (optional c.region)
              (field "before" (obj c.before) (field "after" (obj c.after) end)))))))

unfoldable pub fingerprint_payload : NormalizedPlan → Json
unfolding fingerprint_entry cost_relevant_changes sort_by
fingerprint_payload plan =
    arr (of_list (map fingerprint_entry (sort_by by_address (cost_relevant_changes plan))))

-- `sha256` is the hexadecimal SHA-256 of the canonical dump of a JSON value.
module _ (sha256 : Json → String) where
  unfoldable pub canonical_hash : Json → String
  canonical_hash payload = "sha256:" <> sha256 payload

  unfoldable pub fingerprint : NormalizedPlan → String
  unfolding canonical_hash
  fingerprint plan = canonical_hash (fingerprint_payload plan)

pub record CostComponent : Type 0 where
  pub name : String
  pub unit : String
  pub monthly_quantity : Option ℤ
  pub price_per_unit : Option ℤ
  pub monthly_cost : Option ℤ
  pub usage_based : Bool
  pub price_not_found : Bool

pub record ResourceCost : Type 0 where
  pub address : String
  pub resource_type : String
  pub cloud : Cloud
  pub previous_monthly_cost : ℤ
  pub new_monthly_cost : ℤ
  pub delta_monthly_cost : ℤ
  pub confidence : CostConfidence
  pub action : Option Action
  pub components : List CostComponent

-- The counts by resource type are a dict of numbers.
pub record CostCoverage : Type 0 where
  pub detected_resources : ℕ
  pub supported_resources : ℕ
  pub unsupported_resources : ℕ
  pub no_price_resources : ℕ
  pub usage_based_resources : ℕ
  pub unsupported_resource_counts : Fields
  pub no_price_resource_counts : Fields

unfoldable pub is_complete : CostCoverage → Bool
is_complete c = (c.unsupported_resources == 0) && (c.no_price_resources == 0)

abbrev pub empty_coverage : CostCoverage
empty_coverage = record {
  detected_resources = 0;
  supported_resources = 0;
  unsupported_resources = 0;
  no_price_resources = 0;
  usage_based_resources = 0;
  unsupported_resource_counts = end;
  no_price_resource_counts = end;
}

pub record CostEstimate : Type 0 where
  pub currency : String
  pub estimator : String
  pub trust : EstimatorTrust
  pub previous_monthly_cost : ℤ
  pub new_monthly_cost : ℤ
  pub incremental_monthly_cost : ℤ
  pub resources : List ResourceCost
  pub coverage : CostCoverage
  pub warnings : List String
  pub estimator_version : Json

abbrev pub is_trusted : EstimatorTrust → Bool
is_trusted authoritative = true
is_trusted non_authoritative = false

unfoldable pub is_authoritative : CostEstimate → Bool
is_authoritative e = is_trusted e.trust

-- `12 * n`
abbrev pub times_12 : ℤ → ℤ
times_12 (pos n) = pos (12 * n)
times_12 (negsuc n) = neg_of (12 * Prim.Native.Nat.suc n)

unfoldable pub incremental_annual_cost : CostEstimate → ℤ
incremental_annual_cost e = times_12 e.incremental_monthly_cost

-- `None` where there is no baseline to compare against
unfoldable pub incremental_percentage : CostEstimate → Option ℤ
unfolding percentage_of
incremental_percentage e =
    if eqb_ℤ e.previous_monthly_cost (pos 0)
    then none
    else some (percentage_of e.incremental_monthly_cost e.previous_monthly_cost)

abbrev by_delta : ResourceCost → ResourceCost → Bool
by_delta r s = leb (abs_ℕ s.delta_monthly_cost) (abs_ℕ r.delta_monthly_cost)

unfoldable pub top_cost_drivers : ℕ → CostEstimate → List ResourceCost
unfolding sort_by
top_cost_drivers limit e = take limit (sort_by by_delta e.resources)

-- why a decision reads as it does; each is one message of policy/engine.py
pub data Reason : Type 0 where
  failing_safe refusing_non_authoritative peer_review_required : Reason
  reduces_cost : Decimal → Reason
  within_threshold : Decimal → ℤ → Bool → Reason
  exceeds_threshold : Decimal → ℤ → Decimal → Reason

pub record PolicyDecision : Type 0 where
  pub status : Status
  pub metric : String
  pub observed_value : Decimal
  pub threshold_value : ℤ
  pub currency : String
  pub comparison : String
  pub unit : String
  pub reasons : List Reason
  pub blocking_errors : List FinOpsError
  pub warnings : List String

abbrev pub positive_part : Decimal → Decimal
positive_part (finite d) = if ltb_ℤ (pos 0) d then finite d else finite (pos 0)
positive_part infinity = infinity

unfoldable pub exceeded_by : PolicyDecision → Decimal
exceeded_by d = positive_part (minus_decimal d.observed_value d.threshold_value)

-- the `reason` and the `cost_drivers` of an analysis: told by the model, or put together by the engine
pub data AiReason : Type 0 where
  told_reason : String → AiReason
  policy_reasons : List Reason → AiReason

pub data CostDriver : Type 0 where
  told_driver : String → CostDriver
  moved_driver : String → ℤ → CostDriver

pub record AiAnalysis : Type 0 where
  pub summary : String
  pub cost_impact : ℤ
  pub currency : String
  pub threshold : ℤ
  pub decision : String
  pub reason : AiReason
  pub cost_drivers : List CostDriver
  pub recommendation : String
  pub provider : String
  pub available : Bool
  pub error : Option FinOpsError

pub record GateResult : Type 0 where
  pub status : Status
  pub decision : Option PolicyDecision
  pub estimate : Option CostEstimate
  pub plan : Option NormalizedPlan
  pub ai : Option AiAnalysis
  pub cost_lock : Option Fields
  pub errors : List FinOpsError
  pub execution_id : String
  pub commit : String

abbrev pub exit_code_of : Status → ℕ
exit_code_of pass = 0
exit_code_of fail = 1
exit_code_of error = 2

unfoldable pub exit_code : GateResult → ℕ
exit_code r = exit_code_of r.status
