-- ===== src/CostLock.antt =====
-- lock/cost_lock.py: the lock that freezes an approved estimate, and its verification against a
-- plan. The lock is the dict that the source writes as JSON; `sha256` is the hexadecimal SHA-256 of
-- the canonical dump, and `lock_id` and `timestamp` are what `uuid4` and the clock return.
pub mod Binding
pub mod Issue
use finops_cost_engine_poc.Prelude.{
  ℕ, ◌*◌, ℤ, pos, String, Bool, true, false, not, ◌&&◌, ◌||◌, List, [], ◌∷◌, Option, none, some,
  map, length, str_eq, eqb_ℤ, note_if, if◌then◌else◌, ◌++◌,
}
use finops_cost_engine_poc.Json.{
  Json, null, bool, num, text, arr, obj, Fields, end, field, get, without, push, truthy,
  equals_text, equals_number, equals_optional, of_list, optional,
}
use finops_cost_engine_poc.Decimal.{one_unit, money, as_float_decimal}
use finops_cost_engine_poc.Errors.{Message, Result, ok, raise_if, ◌>>=◌, ◌>>◌, policy_error}
use finops_cost_engine_poc.Models.{
  Status, pass, CostEstimate, CostCoverage, NormalizedPlan, PolicyDecision, is_complete,
  is_authoritative, trust_value, cloud_value, cost_relevant_changes, canonical_hash, fingerprint,
}
use finops_cost_engine_poc.Config.{Config}

-- `SCHEMA_VERSION` and `LOCK_FILENAME`
abbrev pub schema_version : String
schema_version = "1.0"

abbrev pub lock_filename : String
lock_filename = "cost-lock.json"

-- an `int` as a JSON number
abbrev pub count_of : ℕ → Json
count_of n = num (pos (n * one_unit))

-- `as_float` of a finite amount as a JSON number
abbrev pub amount : ℤ → Json
amount v = num (money (some v))

-- `CostCoverage.to_dict`
coverage_dict : CostCoverage → Fields
unfolding is_complete
coverage_dict c = field "detected_resources" (count_of c.detected_resources) (
    field "supported_resources" (count_of c.supported_resources) (
      field "unsupported_resources" (count_of c.unsupported_resources) (
        field "no_price_resources" (count_of c.no_price_resources) (
          field "usage_based_resources" (count_of c.usage_based_resources) (
            field "unsupported_resource_counts" (obj c.unsupported_resource_counts) (
              field "no_price_resource_counts" (obj c.no_price_resource_counts)
                (field "is_complete" (bool (is_complete c)) end)))))))

pub data LockProblem : Type 0 where
  other_stack bad_schema_version no_integrity bad_integrity not_approved : LockProblem
  untrusted_estimator plan_modified threshold_changed metric_changed : LockProblem

-- `status is not Status.PASS`
abbrev pub is_pass : Status → Bool
is_pass pass = true
is_pass _ = false

-- `stack is not None and lock.get("stack") != stack`
abbrev pub wrong_stack : Json → Option String → Bool
wrong_stack recorded none = false
wrong_stack recorded (some s) = not (equals_text recorded s)

module _ (sha256 : Json → String) where
  -- `_integrity`: the hash of all but the key that holds it
  unfoldable pub integrity : Fields → String
  unfolding canonical_hash
  integrity body = canonical_hash sha256 (obj (without "integrity" body))

  -- the body of the lock, before its integrity hash
  unfoldable pub lock_body :
      PolicyDecision
      → CostEstimate
      → NormalizedPlan
      → (commit execution_id : String) → Option String
      → (lock_id timestamp : String) → ℤ
      → Fields
  unfolding coverage_dict trust_value cloud_value cost_relevant_changes fingerprint
  lock_body decision estimate plan commit execution_id stack lock_id timestamp observed =
      field "schema_version" (text schema_version) (
        field "lock_id" (text lock_id) (
          field "status" (text "APPROVED") (
            field "stack" (optional stack) (
              field "commit" (text commit) (
                field "execution_id" (text execution_id) (
                  field "timestamp" (text timestamp) (
                    field "plan_fingerprint" (text (fingerprint sha256 plan)) (
                      field "currency" (text estimate.currency) (
                        field "estimated_previous_monthly_cost"
                          (amount estimate.previous_monthly_cost)
                          (field "estimated_new_monthly_cost" (amount estimate.new_monthly_cost) (
                            field "estimated_incremental_monthly_cost"
                              (amount estimate.incremental_monthly_cost)
                              (field "threshold" (amount decision.threshold_value) (
                                field "threshold_metric" (text decision.metric) (
                                  field "threshold_unit" (text decision.unit) (
                                    field "comparison" (text decision.comparison) (
                                      field "observed_value" (num observed) (
                                        field "estimator" (text estimate.estimator) (
                                          field "estimator_version" estimate.estimator_version (
                                            field "estimator_trust"
                                              (text (trust_value estimate.trust))
                                              (field "coverage"
                                                (obj (coverage_dict estimate.coverage))
                                                (field "clouds"
                                                  (arr (
                                                    of_list (
                                                      map (λ c. text (cloud_value c)) plan.clouds)))
                                                  (field "resource_count"
                                                    (count_of (length (cost_relevant_changes plan)))
                                                    (field "warnings"
                                                      (arr (of_list (map text decision.warnings)))
                                                      end)))))))))))))))))))))))

  unfoldable pub create_cost_lock :
      PolicyDecision
      → CostEstimate
      → NormalizedPlan
      → Config
      → (commit execution_id : String) → Option String
      → (lock_id timestamp : String) → Result Fields
  create_cost_lock decision estimate plan config commit execution_id stack lock_id timestamp = do
    raise_if (not (is_pass decision.status)) (policy_error Message.lock_not_pass)
    raise_if
        (not (is_authoritative estimate) && not config.cost_estimation.allow_non_authoritative_lock)
        (policy_error Message.lock_non_authoritative)
    observed ← as_float_decimal decision.observed_value
    let body = lock_body decision estimate plan commit execution_id stack lock_id timestamp observed
    ok (push "integrity" (text (integrity body)) body)

  -- the tests on the recorded hash
  integrity_problems : Fields → List LockProblem
  integrity_problems lock =
      if not (truthy (get "integrity" lock))
      then no_integrity ∷ []
      else note_if (not (equals_text (get "integrity" lock) (integrity lock))) bad_integrity []

  -- the tests behind the one on the integrity hash
  binding_problems : Fields → NormalizedPlan → Config → List LockProblem
  binding_problems lock plan config =
      note_if (not (equals_text (get "status" lock) "APPROVED")) not_approved (
        note_if
          (not (equals_text (get "estimator_trust" lock) "AUTHORITATIVE")
            && not config.cost_estimation.allow_non_authoritative_lock)
          untrusted_estimator
          (note_if
            (config.cost_lock.bind_to_plan_fingerprint
              && not (equals_text (get "plan_fingerprint" lock) (fingerprint sha256 plan)))
            plan_modified
            (note_if
              (not (
                equals_number (get "threshold" lock) (pos one_unit)
                  (money (some config.threshold.value))))
              threshold_changed
              (note_if (not (equals_text (get "threshold_metric" lock) config.threshold.metric))
                metric_changed []))))

  -- An empty list means that the lock is valid for this plan.
  unfoldable pub verify_cost_lock :
      Fields → NormalizedPlan → Config → Option String → List LockProblem
  unfolding integrity_problems binding_problems
  verify_cost_lock lock plan config stack =
      note_if (wrong_stack (get "stack" lock) stack) other_stack (
        note_if (not (equals_text (get "schema_version" lock) schema_version)) bad_schema_version
          (integrity_problems lock ++ binding_problems lock plan config))
