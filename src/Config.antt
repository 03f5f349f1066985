-- ===== src/Config.antt =====
-- config.py: the policy configuration that the engine reads. Times and sizes are whole numbers.
-- What the source takes from the document without a look at its type is a JSON value.
pub mod Read
pub mod Load
pub mod Valid
use finops_cost_engine_poc.Prelude.{
  ℕ, ℤ, String, Bool, true, false, List, str_eq, if◌then◌else◌, ◌<>◌,
}
use finops_cost_engine_poc.Json.{Json}
use finops_cost_engine_poc.Errors.{Result, ok, raise, key_error}

-- The threshold as the engine reads it, which is finite here; `LoadedThreshold` of Config.Load is
-- what loads, where it may be infinite.
pub record ThresholdConfig : Type 0 where
  pub metric : String
  pub value : ℤ
  pub currency : String
  pub equality_is_pass : Bool
  pub allow_cost_reductions : Bool

-- `METRIC_UNITS[metric].format(currency=...)`
unfoldable pub threshold_unit : ThresholdConfig → Result String
threshold_unit t =
    if str_eq t.metric "incremental_monthly_cost"
    then ok (t.currency <> "/month")
    else if str_eq t.metric "incremental_annual_cost"
    then ok (t.currency <> "/year")
    else if str_eq t.metric "incremental_percentage"
    then ok "% of baseline"
    else if str_eq t.metric "total_monthly_cost"
    then ok (t.currency <> "/month")
    else raise key_error

unfoldable pub comparison : ThresholdConfig → String
comparison t = if t.equality_is_pass then "<=" else "<"

pub record InfracostConfig : Type 0 where
  pub binary : Json
  pub command_style : String
  pub config_file : Json
  pub usage_file : Json

pub record CostEstimationConfig : Type 0 where
  pub estimator : String
  pub allow_non_authoritative_lock : Bool
  pub timeout_seconds : ℤ
  pub infracost : InfracostConfig

pub data FailSafeAction : Type 0 where
  block warn : FailSafeAction

pub record FailSafeConfig : Type 0 where
  pub on_plan_failure : FailSafeAction
  pub on_estimation_failure : FailSafeAction
  pub on_unsupported_provider : FailSafeAction
  pub on_unsupported_resource : FailSafeAction
  pub on_unknown_cost_resource : FailSafeAction
  pub on_ai_failure : FailSafeAction

-- `FailSafeConfig.blocks` of the action under a key
abbrev pub blocks : FailSafeAction → Bool
blocks block = true
blocks warn = false

pub record AiConfig : Type 0 where
  pub provider : String
  pub enabled : Bool
  pub required : Bool
  pub timeout_seconds : ℤ
  pub max_resources_in_prompt : ℕ

pub record ChangeDetectionConfig : Type 0 where
  pub infrastructure_globs : List Json
  pub ignore_globs : List Json

pub record CostLockConfig : Type 0 where
  pub output_dir : Json
  pub bind_to_plan_fingerprint : Bool

-- `max_ceiling_ratio` is a float, in units of 10^-40 like every number here.
pub record ExceptionConfig : Type 0 where
  pub enabled : Bool
  pub approvers : List String
  pub max_ttl_days : ℕ
  pub max_ceiling_ratio : ℤ
  pub require_non_author_approval : Bool
  pub require_review_approval : Bool

pub record Config : Type 0 where
  pub threshold : ThresholdConfig
  pub cost_estimation : CostEstimationConfig
  pub fail_safe : FailSafeConfig
  pub ai : AiConfig
  pub change_detection : ChangeDetectionConfig
  pub cost_lock : CostLockConfig
  pub exceptions : ExceptionConfig
