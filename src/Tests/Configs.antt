-- ===== src/Tests/Configs.antt =====
-- Witnesses for the theorems on the configuration.
use finops_cost_engine_poc.Prelude.Text.{lower, strip, upper}
use finops_cost_engine_poc.Prelude.Paths.{letters, split_on}
use finops_cost_engine_poc.Prelude.{
  ℤ, String, true, ◌≡◌, refl, [], ◌∷◌, none, some, str_eq, if◌then◌else◌,
}
use finops_cost_engine_poc.Json.{text, arr, obj, nil, cons, end, field, truthy, get, has_key}
use finops_cost_engine_poc.Errors.{Result, ok, raise, ◌>>=◌}
use finops_cost_engine_poc.Models.{PolicyDecision}
use finops_cost_engine_poc.Decimal.{finite, infinity}
use finops_cost_engine_poc.Config.Read.{
  Reader, number, plus_infinity, env, env_or, get_default, section, member, decimal_of,
  not_negative, uppered, fail_safe_action, flag, float_of, int_of, listed_of, lowered, member_text,
  stripped,
}
use finops_cost_engine_poc.Config.Load.{
  LoadedConfig, with_value, ConfigFile, absent, parsed, load_config, load_from, config_path,
  document_of, build, threshold_of, ai_of, approvers_of, change_detection_of, cost_estimation_of,
  cost_lock_of, exceptions_of, fail_safe_of,
}
use finops_cost_engine_poc.Config.Valid.{IsValid, load_config-IsValid}
use finops_cost_engine_poc.Policy.{evaluate}
use finops_cost_engine_poc.Tests.{units, policy, estimate, shown_as}

abbrev reader : Reader
reader = record {
  environ = λ name. if str_eq name "FINOPS_APPROVERS" then some "Ann, Bob" else none;
  decimal = λ s. some (number (units 200));
  whole = λ s. none;
  float = λ s. none;
  show = shown_as;
}

abbrev files : String → ConfigFile
files path =
    if str_eq path "config/finops-policy.yaml"
    then parsed (
        obj (
          field "threshold"
            (obj (field "value" (text "200.00") (field "currency" (text "usd") end)))
            (field "exceptions" (obj (field "approvers" (arr (cons (text "Eve") nil)) end)) end)))
    else absent

abbrev limitless : LoadedConfig
limitless = record {
  threshold = record {
    metric = "";
    value = infinity;
    currency = "";
    equality_is_pass = true;
    allow_cost_reductions = true;
  };
  cost_estimation = policy.cost_estimation;
  fail_safe = policy.fail_safe;
  ai = policy.ai;
  change_detection = policy.change_detection;
  cost_lock = policy.cost_lock;
  exceptions = policy.exceptions;
}

abbrev config_or : Result LoadedConfig → LoadedConfig
config_or (ok c) = c
config_or (raise e) = limitless

abbrev config : LoadedConfig
config = config_or (load_config reader files none)

config_is : load_config reader files none ≡ ok config
unfolding load_config load_from config_path document_of build threshold_of ai_of approvers_of
    change_detection_of cost_estimation_of cost_lock_of exceptions_of fail_safe_of env env_or
    get_default section member decimal_of not_negative uppered fail_safe_action flag float_of int_of
    listed_of lowered member_text stripped truthy get has_key letters split_on lower strip upper
config_is = refl

approvers_are : config.exceptions.approvers ≡ "Ann" ∷ "Bob" ∷ []
unfolding load_config load_from config_path document_of build threshold_of ai_of approvers_of
    change_detection_of cost_estimation_of cost_lock_of exceptions_of fail_safe_of env env_or
    get_default section member decimal_of not_negative uppered fail_safe_action flag float_of int_of
    listed_of lowered member_text stripped truthy get has_key letters split_on lower strip upper
approvers_are = refl

-- a threshold that reads as an infinity loads
abbrev infinite_reader : Reader
infinite_reader = record reader { decimal = λ s. some plus_infinity }

infinite_is : decimal_of infinite_reader (text "Infinity") >>= not_negative ≡ ok infinity
unfolding decimal_of not_negative
infinite_is = refl

load_config-IsValid_example :
    IsValid reader config
    × ((value : ℤ)
        → config.threshold.value ≡ finite value
        → (d : PolicyDecision) × (evaluate estimate (with_value config value) [] ≡ ok d))
load_config-IsValid_example = load_config-IsValid reader files none config estimate [] config_is
