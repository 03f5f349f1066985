-- ===== src/Config/Load.antt =====
-- config.py: `_build`, one function for each of its sections, and `load_config`.
use finops_cost_engine_poc.Prelude.{
  ◌*◌, ◌/◌, ℤ, pos, String, Bool, true, false, List, Option, none, some, str_eq, if◌then◌else◌,
}
use finops_cost_engine_poc.Prelude.Paths.{split_on}
use finops_cost_engine_poc.Json.{Json, null, num, text, arr, obj, nil, cons, Fields, end, truthy}
use finops_cost_engine_poc.Decimal.{Decimal, one_unit}
use finops_cost_engine_poc.Errors.{Message, Result, ok, ◌>>=◌}
use finops_cost_engine_poc.Config.{
  Config, CostEstimationConfig, FailSafeConfig, AiConfig, ChangeDetectionConfig, CostLockConfig,
  ExceptionConfig,
}
use finops_cost_engine_poc.Stacks.{items_of}
use finops_cost_engine_poc.Config.Read.{
  Reader, bad, valid_metrics, estimators, command_styles, env, section, get_default, flag, env_or,
  lowered, uppered, int_of, float_of, count_from, decimal_of, member, member_text, not_negative,
  fail_safe_action, or_default, listed_of, stripped,
}

unfoldable pub fail_safe_of : Fields → Result FailSafeConfig
fail_safe_of raw = do
  let fs_raw = section "fail_safe" raw
  plan ← get_default fs_raw "on_plan_failure" (text "BLOCK")
  estimation ← get_default fs_raw "on_estimation_failure" (text "BLOCK")
  provider ← get_default fs_raw "on_unsupported_provider" (text "BLOCK")
  resource ← get_default fs_raw "on_unsupported_resource" (text "WARN")
  cost_resource ← get_default fs_raw "on_unknown_cost_resource" (text "WARN")
  ai ← get_default fs_raw "on_ai_failure" (text "WARN")
  on_plan_failure ← fail_safe_action plan
  on_estimation_failure ← fail_safe_action estimation
  on_unsupported_provider ← fail_safe_action provider
  on_unsupported_resource ← fail_safe_action resource
  on_unknown_cost_resource ← fail_safe_action cost_resource
  on_ai_failure ← fail_safe_action ai
  ok (record {
    on_plan_failure = on_plan_failure;
    on_estimation_failure = on_estimation_failure;
    on_unsupported_provider = on_unsupported_provider;
    on_unsupported_resource = on_unsupported_resource;
    on_unknown_cost_resource = on_unknown_cost_resource;
    on_ai_failure = on_ai_failure;
  })

unfoldable pub change_detection_of : Fields → Result ChangeDetectionConfig
change_detection_of raw = do
  let cd_raw = section "change_detection" raw
  infrastructure ← get_default cd_raw "infrastructure_globs" null
  infrastructure_globs ← listed_of (or_default infrastructure (arr (cons (text "**/*.tf") nil)))
  ignored ← get_default cd_raw "ignore_globs" null
  ignore_globs ← listed_of (or_default ignored (arr nil))
  ok (record { infrastructure_globs = infrastructure_globs; ignore_globs = ignore_globs })

abbrev non_empty : Option String → Option String
non_empty none = none
non_empty (some s) = if str_eq s "" then none else some s

abbrev first_of : Option String → Option String → String
first_of (some path) other = path
first_of none (some path) = path
first_of none none = "config/finops-policy.yaml"

-- What stands at the path of the configuration.
pub data ConfigFile : Type 0 where
  absent no_yaml : ConfigFile
  parsed : Json → ConfigFile

-- A configuration as it loads, with a threshold that may be infinite.
pub record LoadedThreshold : Type 0 where
  pub metric : String
  pub value : Decimal
  pub currency : String
  pub equality_is_pass : Bool
  pub allow_cost_reductions : Bool

pub record LoadedConfig : Type 0 where
  pub threshold : LoadedThreshold
  pub cost_estimation : CostEstimationConfig
  pub fail_safe : FailSafeConfig
  pub ai : AiConfig
  pub change_detection : ChangeDetectionConfig
  pub cost_lock : CostLockConfig
  pub exceptions : ExceptionConfig

-- The configuration with the finite threshold `value`, as the engine reads it.
unfoldable pub with_value : LoadedConfig → ℤ → Config
with_value c value = record {
  threshold = record {
    metric = c.threshold.metric;
    value = value;
    currency = c.threshold.currency;
    equality_is_pass = c.threshold.equality_is_pass;
    allow_cost_reductions = c.threshold.allow_cost_reductions;
  };
  cost_estimation = c.cost_estimation;
  fail_safe = c.fail_safe;
  ai = c.ai;
  change_detection = c.change_detection;
  cost_lock = c.cost_lock;
  exceptions = c.exceptions;
}

module _ (reader : Reader) where
  unfoldable pub threshold_of : Fields → Result LoadedThreshold
  threshold_of raw = do
    let threshold_raw = section "threshold" raw
    let evaluation_raw = section "evaluation" raw
    named ←
        env_or (env reader "FINOPS_THRESHOLD_METRIC")
          (get_default threshold_raw "metric" (text "incremental_monthly_cost"))
    metric ← member valid_metrics Message.unknown_metric named
    raw_value ←
        env_or (env reader "FINOPS_THRESHOLD_VALUE") (get_default threshold_raw "value" null)
    number ← decimal_of reader raw_value
    value ← not_negative number
    money_in ←
        env_or (env reader "FINOPS_THRESHOLD_CURRENCY")
          (get_default threshold_raw "currency" (text "USD"))
    currency ← uppered money_in
    equality_is_pass ← flag evaluation_raw "equality_is_pass" true
    allow_cost_reductions ← flag evaluation_raw "allow_cost_reductions" true
    ok (record {
      metric = metric;
      value = value;
      currency = currency;
      equality_is_pass = equality_is_pass;
      allow_cost_reductions = allow_cost_reductions;
    })

  unfoldable pub cost_estimation_of : Fields → Result CostEstimationConfig
  cost_estimation_of raw = do
    let cost_raw = section "cost_estimation" raw
    nested ← get_default cost_raw "infracost" null
    let infracost_raw = or_default nested (obj end)
    named ←
        env_or (env reader "FINOPS_COST_ESTIMATOR")
          (get_default cost_raw "estimator" (text "infracost"))
    lower_named ← lowered named
    estimator ← member_text estimators Message.unknown_estimator lower_named
    style ← get_default infracost_raw "command_style" null
    lower_style ← lowered (or_default style (text "auto"))
    command_style ← member_text command_styles Message.unknown_command_style lower_style
    allow_non_authoritative_lock ← flag cost_raw "allow_non_authoritative_lock" false
    seconds ← get_default cost_raw "timeout_seconds" (num (pos (300 * one_unit)))
    timeout_seconds ← int_of reader seconds
    binary ← env_or (env reader "INFRACOST_BINARY") (get_default infracost_raw "binary" null)
    config_file ← get_default infracost_raw "config_file" null
    usage_file ←
        env_or (env reader "FINOPS_INFRACOST_USAGE_FILE")
          (get_default infracost_raw "usage_file" null)
    ok (record {
      estimator = estimator;
      allow_non_authoritative_lock = allow_non_authoritative_lock;
      timeout_seconds = timeout_seconds;
      infracost = record {
        binary = or_default binary (text "infracost");
        command_style = command_style;
        config_file = config_file;
        usage_file = usage_file;
      };
    })

  unfoldable pub ai_of : Fields → Result AiConfig
  ai_of raw = do
    let ai_raw = section "ai" raw
    named ← env_or (env reader "FINOPS_AI_PROVIDER") (get_default ai_raw "provider" (text "mock"))
    provider ← lowered named
    enabled ← flag ai_raw "enabled" true
    required ← flag ai_raw "required" false
    seconds ← get_default ai_raw "timeout_seconds" (num (pos (30 * one_unit)))
    timeout_seconds ← int_of reader seconds
    resources ← get_default ai_raw "max_resources_in_prompt" (num (pos (40 * one_unit)))
    max_resources ← int_of reader resources
    ok (record {
      provider = provider;
      enabled = enabled;
      required = required;
      timeout_seconds = timeout_seconds;
      max_resources_in_prompt = count_from max_resources;
    })

  unfoldable pub cost_lock_of : Fields → Result CostLockConfig
  cost_lock_of raw = do
    let lock_raw = section "cost_lock" raw
    output_dir ←
        env_or (env reader "FINOPS_OUTPUT_DIR") (get_default lock_raw "output_dir" (text ".finops"))
    bind_to_plan_fingerprint ← flag lock_raw "bind_to_plan_fingerprint" true
    ok (record { output_dir = output_dir; bind_to_plan_fingerprint = bind_to_plan_fingerprint })

  -- the approvers: those of the environment, where it lists any, else those of the document
  unfoldable pub approvers_of : Option String → Json → Result (List String)
  approvers_of (some listed) exc_raw = ok (stripped (split_on b',' listed))
  approvers_of none exc_raw = do
    listed ← get_default exc_raw "approvers" null
    names ← items_of reader.show (or_default listed (arr nil))
    ok (stripped names)

  unfoldable pub exceptions_of : Fields → Result ExceptionConfig
  exceptions_of raw = do
    let exc_raw = section "exceptions" raw
    approvers ← approvers_of (env reader "FINOPS_APPROVERS") exc_raw
    enabled ← flag exc_raw "enabled" true
    days ← get_default exc_raw "max_ttl_days" (num (pos (7 * one_unit)))
    max_ttl_days ← int_of reader days
    ratio ← get_default exc_raw "max_ceiling_ratio" (num (pos (11 * (one_unit / 10))))
    max_ceiling_ratio ← float_of reader ratio
    require_non_author_approval ← flag exc_raw "require_non_author_approval" true
    require_review_approval ← flag exc_raw "require_review_approval" true
    ok (record {
      enabled = enabled;
      approvers = approvers;
      max_ttl_days = count_from max_ttl_days;
      max_ceiling_ratio = max_ceiling_ratio;
      require_non_author_approval = require_non_author_approval;
      require_review_approval = require_review_approval;
    })

  -- `_build`
  unfoldable pub build : Fields → Result LoadedConfig
  build raw = do
    threshold ← threshold_of raw
    cost_estimation ← cost_estimation_of raw
    fail_safe ← fail_safe_of raw
    ai ← ai_of raw
    change_detection ← change_detection_of raw
    cost_lock ← cost_lock_of raw
    exceptions ← exceptions_of raw
    ok (record {
      threshold = threshold;
      cost_estimation = cost_estimation;
      fail_safe = fail_safe;
      ai = ai;
      change_detection = change_detection;
      cost_lock = cost_lock;
      exceptions = exceptions;
    })

  -- `path or _env("FINOPS_CONFIG") or DEFAULT_CONFIG_PATH`
  unfoldable pub config_path : Option String → String
  config_path path = first_of (non_empty path) (env reader "FINOPS_CONFIG")

  -- `yaml.safe_load(...) or {}`, of which only a dict is a configuration
  unfoldable pub document_of : Json → Result Fields
  document_of (obj raw) = ok raw
  document_of v = if truthy v then bad Message.config_not_mapping else ok end

  unfoldable pub load_from : ConfigFile → Result LoadedConfig
  load_from absent = bad Message.config_not_found
  load_from no_yaml = bad Message.config_not_yaml
  load_from (parsed document) = do raw ← document_of document; build raw

  unfoldable pub load_config : (String → ConfigFile) → Option String → Result LoadedConfig
  load_config files path = load_from (files (config_path path))
