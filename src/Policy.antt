-- ===== src/Policy.antt =====
-- policy/engine.py: the deterministic gate over a cost estimate and the configuration.
pub mod Verdict
pub mod Failures
pub mod Carried
use finops_cost_engine_poc.Prelude.{
  ℕ, ℤ, pos, String, Bool, true, false, not, ◌&&◌, ◌||◌, ◌==◌, List, [], ◌∷◌, Option, none, some,
  str_eq, ltb_ℤ, leb_ℤ, is_empty, if◌then◌else◌,
}
use finops_cost_engine_poc.Decimal.{Decimal, finite, infinity, le_decimal, lt_decimal, eq_decimal}
use finops_cost_engine_poc.Errors.{
  FinOpsError, Message, Result, ok, raise, finops, ◌>>=◌, policy_error, cost_estimation_error,
  configuration_error,
}
use finops_cost_engine_poc.Models.{
  Status, pass, fail, error, CostEstimate, PolicyDecision, is_authoritative,
  incremental_annual_cost, incremental_percentage, exceeded_by, failing_safe,
  refusing_non_authoritative, peer_review_required, reduces_cost, within_threshold,
  exceeds_threshold,
}
use finops_cost_engine_poc.Config.{Config, ThresholdConfig, threshold_unit, comparison, blocks}

-- With no baseline any added cost is an infinite relative increase.
percentage_or_infinity : Option ℤ → ℤ → Decimal
percentage_or_infinity (some p) incremental = finite p
percentage_or_infinity none incremental =
    if leb_ℤ incremental (pos 0) then finite (pos 0) else infinity

-- `_observed_value`
unfoldable pub observed_value : CostEstimate → String → Result Decimal
unfolding percentage_or_infinity
observed_value e metric =
    if str_eq metric "incremental_monthly_cost"
    then ok (finite e.incremental_monthly_cost)
    else if str_eq metric "incremental_annual_cost"
    then ok (finite (incremental_annual_cost e))
    else if str_eq metric "total_monthly_cost"
    then ok (finite e.new_monthly_cost)
    else if str_eq metric "incremental_percentage"
    then ok (percentage_or_infinity (incremental_percentage e) e.incremental_monthly_cost)
    else raise (finops (policy_error Message.unsupported_metric))

-- the decision before any check
abbrev pub start : ThresholdConfig → String → PolicyDecision
start t unit = record {
  status = pass;
  metric = t.metric;
  observed_value = finite (pos 0);
  threshold_value = t.value;
  currency = t.currency;
  comparison = comparison t;
  unit = unit;
  reasons = [];
  blocking_errors = [];
  warnings = [];
}

-- `decision.status = Status.ERROR` with one blocking error
abbrev blocked : PolicyDecision → FinOpsError → PolicyDecision
blocked d e = record d { status = error; blocking_errors = e ∷ [] }

unfoldable pub is_within : ThresholdConfig → Decimal → Bool
is_within t observed =
    if t.equality_is_pass then le_decimal observed t.value else lt_decimal observed t.value

-- the comparison with the threshold, the last part of `evaluate`
unfoldable pub compare_threshold : ThresholdConfig → PolicyDecision → Decimal → PolicyDecision
unfolding is_within
compare_threshold t d observed =
    let d' = record d { observed_value = observed } in
    if t.allow_cost_reductions && lt_decimal observed (pos 0)
    then record d' { status = pass; reasons = reduces_cost observed ∷ [] }
    else if is_within t observed
    then record d' {
      status = pass;
      reasons = within_threshold observed t.value (eq_decimal observed t.value) ∷ [];
    }
    else record d' {
      status = fail;
      reasons = exceeds_threshold observed t.value (exceeded_by d') ∷ peer_review_required ∷ [];
    }

-- `evaluate` after the upstream errors
unfoldable pub evaluate_estimate : CostEstimate → Config → PolicyDecision → Result PolicyDecision
unfolding is_authoritative
evaluate_estimate e c d =
    if not (is_authoritative e) && not c.cost_estimation.allow_non_authoritative_lock
    then ok (record (blocked d (cost_estimation_error Message.non_authoritative)) {
      reasons = refusing_non_authoritative ∷ [];
    })
    else if not (str_eq e.currency c.threshold.currency)
    then ok (blocked d (configuration_error Message.currency_mismatch))
    else if not (e.coverage.unsupported_resources == 0)
        && blocks c.fail_safe.on_unsupported_resource
    then ok (blocked d (cost_estimation_error Message.unsupported_resources))
    else if not (e.coverage.no_price_resources == 0) && blocks c.fail_safe.on_unknown_cost_resource
    then ok (blocked d (cost_estimation_error Message.no_price_resources))
    else do
      observed ← observed_value e c.threshold.metric
      ok (compare_threshold c.threshold (record d { warnings = e.warnings }) observed)

unfoldable pub evaluate : CostEstimate → Config → List FinOpsError → Result PolicyDecision
evaluate e c upstream_errors = do
  unit ← threshold_unit c.threshold
  let d = start c.threshold unit
  (if is_empty upstream_errors
      then evaluate_estimate e c d
      else ok (record d {
        status = error;
        blocking_errors = upstream_errors;
        reasons = failing_safe ∷ [];
      }))
