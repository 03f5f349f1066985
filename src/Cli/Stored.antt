-- ===== src/Cli/Stored.antt =====
-- cli.py, lock/cost_lock.py and lock/exception.py: what the commands load, and what they rebuild of
-- the documents that the gate wrote. Those hold texts for names; another value there counts as a
-- failed lookup.
use finops_cost_engine_poc.Prelude.{
  ℕ, ℤ, pos, String, [], Option, none, some, str_eq, if◌then◌else◌,
}
use finops_cost_engine_poc.Json.{Json, null, num, text, obj, Fields, end, get, has_key, truthy}
use finops_cost_engine_poc.Decimal.{finite, money}
use finops_cost_engine_poc.Errors.{
  Message, Result, ok, raise, finops, key_error, invalid_operation, ◌>>=◌, policy_error,
}
use finops_cost_engine_poc.Models.{
  fail, EstimatorTrust, authoritative, non_authoritative, CostEstimate, PolicyDecision,
  empty_coverage,
}
use finops_cost_engine_poc.Config.{Config, threshold_unit, comparison}
use finops_cost_engine_poc.Plan.Normalizer.{FileContent, missing, invalid, document}

abbrev pub exit_pass : ℕ
exit_pass = 0

abbrev pub exit_fail : ℕ
exit_fail = 1

abbrev pub exit_error : ℕ
exit_error = 2

-- `load_cost_lock`, of which only a dict has the `get` that follows
unfoldable pub load_cost_lock : FileContent → Result Json
load_cost_lock missing = raise (finops (policy_error Message.lock_not_found))
load_cost_lock invalid = raise (finops (policy_error Message.lock_not_json))
load_cost_lock (document lock) = ok lock

unfoldable pub load_exception : FileContent → Result Fields
load_exception missing = raise (finops (policy_error Message.exception_not_found))
load_exception invalid = raise (finops (policy_error Message.exception_not_parsed))
load_exception (document (obj record_)) = ok record_
load_exception (document v) = raise (finops (policy_error Message.exception_not_mapping))

-- what stands behind `.get`
unfoldable pub fields_of : Json → Result Fields
fields_of (obj d) = ok d
fields_of v = raise key_error

-- `json.loads(Path(path).read_text())`, whose errors are no `FinOpsError`
unfoldable pub read_json : FileContent → Result Json
read_json (document v) = ok v
read_json file = raise key_error

decimal_or_raise : Option ℤ → Result ℤ
unfolding money
decimal_or_raise none = raise invalid_operation
decimal_or_raise (some v) = ok (money (some v))

-- `raw.get(key, default)` for a text; a stored null or other value, which Python keeps, raises here.
unfoldable pub text_at : String → Fields → String → Result String
text_at key raw default = if has_key key raw then as_text (get key raw) else ok default
  where
    as_text : Json → Result String
    as_text (text s) = ok s
    as_text v = raise key_error

-- `EstimatorTrust(value)`
unfoldable pub trust_of : String → Result EstimatorTrust
trust_of s =
    if str_eq s "AUTHORITATIVE"
    then ok authoritative
    else if str_eq s "NON_AUTHORITATIVE"
    then ok non_authoritative
    else raise key_error

-- what a command prints that later steps of the pipeline read, and its exit code
pub record Ended {ℓ} (A : Type ℓ) : Type ℓ where
  pub exit : ℕ
  pub printed : A

-- `decimal` is the finite `Decimal` that Python reads from a text.
module _ (decimal : String → Option ℤ) where
  -- `money(value)` of a JSON value
  unfoldable pub money_of : Json → Result ℤ
  unfolding decimal_or_raise money
  money_of null = ok (pos 0)
  money_of (num n) = ok (money (some n))
  money_of (text s) = decimal_or_raise (decimal s)
  money_of v = raise invalid_operation

  -- `_rebuild_estimate_from_dict`
  unfoldable pub rebuild_estimate_from_dict : Fields → Result CostEstimate
  rebuild_estimate_from_dict raw = do
    currency ← text_at "currency" raw "USD"
    estimator ← text_at "estimator" raw "unknown"
    named ← text_at "trust" raw "NON_AUTHORITATIVE"
    trust ← trust_of named
    previous ← money_of (get "previous_monthly_cost" raw)
    new ← money_of (get "new_monthly_cost" raw)
    incremental ← money_of (get "incremental_monthly_cost" raw)
    ok (record {
      currency = currency;
      estimator = estimator;
      trust = trust;
      previous_monthly_cost = previous;
      new_monthly_cost = new;
      incremental_monthly_cost = incremental;
      resources = [];
      coverage = empty_coverage;
      warnings = [];
      estimator_version = get "estimator_version" raw;
    })

  -- `_rebuild_estimate`
  unfoldable pub rebuild_estimate : FileContent → Result CostEstimate
  rebuild_estimate file = do raw ← read_json file; d ← fields_of raw; rebuild_estimate_from_dict d

  -- `result_raw.get(key) or {}`
  unfoldable pub block_of : String → Fields → Result Fields
  block_of key raw = let v = get key raw in if truthy v then fields_of v else ok end

  -- `_rebuild_decision_from_result`; the default of `unit` is computed in any case.
  unfoldable pub rebuild_decision_from_result : Fields → Config → Result PolicyDecision
  rebuild_decision_from_result result_raw config = do
    policy_raw ← block_of "policy" result_raw
    metric ← text_at "metric" policy_raw config.threshold.metric
    default_unit ← threshold_unit config.threshold
    unit ← text_at "unit" policy_raw default_unit
    observed ← money_of (get "observed_value" policy_raw)
    threshold ← money_of (get "threshold_value" policy_raw)
    currency ← text_at "currency" policy_raw config.threshold.currency
    symbol ← text_at "comparison" policy_raw (comparison config.threshold)
    ok (record {
      status = fail;
      metric = metric;
      observed_value = finite observed;
      threshold_value = threshold;
      currency = currency;
      comparison = symbol;
      unit = unit;
      reasons = [];
      blocking_errors = [];
      warnings = [];
    })

  -- the decision and the estimate of a stored result
  unfoldable pub rebuilt : Config → Fields → Result (PolicyDecision × CostEstimate)
  rebuilt c result_raw = do
    decision ← rebuild_decision_from_result result_raw c
    cost_raw ← block_of "cost" result_raw
    estimate ← rebuild_estimate_from_dict cost_raw
    ok (decision, estimate)
