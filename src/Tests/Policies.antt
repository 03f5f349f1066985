-- ===== src/Tests/Policies.antt =====
-- Witnesses for the theorems on the policy engine.
use finops_cost_engine_poc.Prelude.{
  ℕ, ℤ, pos, false, List, [], ◌∷◌, ◌≡◌, ◌↔◌, inl, inr, refl, arith,
}
use finops_cost_engine_poc.Prelude.Int.{◌-ℤ◌}
use finops_cost_engine_poc.Decimal.{finite}
use finops_cost_engine_poc.Errors.{FinOpsError, ok, baseline_unavailable_error}
use finops_cost_engine_poc.Models.{
  Status, pass, fail, error, PolicyDecision, Reason, within_threshold, exceeds_threshold,
  peer_review_required, failing_safe, exceeded_by,
}
use finops_cost_engine_poc.Config.{threshold_unit, comparison}
use finops_cost_engine_poc.Policy.{evaluate, evaluate_estimate, observed_value, compare_threshold}
use finops_cost_engine_poc.Policy.Verdict.{IsUsable, Meets, evaluate_total, evaluate-pass_iff}
use finops_cost_engine_poc.Policy.Failures.{
  IsConsistent, with_threshold, evaluate-IsConsistent, reductions_redundant, evaluate_mono,
}
use finops_cost_engine_poc.Tests.{units, policy, policy_of, estimate, estimate_of}

abbrev pub decided : Status → ℤ → List Reason → List FinOpsError → PolicyDecision
decided status threshold reasons errors = record {
  status = status;
  metric = "incremental_monthly_cost";
  observed_value = finite (units 150);
  threshold_value = threshold;
  currency = "USD";
  comparison = "<=";
  unit = "USD/month";
  reasons = reasons;
  blocking_errors = errors;
  warnings = [];
}

-- under 200, and under 300
abbrev pub passed : ℕ → PolicyDecision
passed n = decided pass (units n) (within_threshold (finite (units 150)) (units n) false ∷ []) []

abbrev stopped : PolicyDecision
stopped = record (decided error (units 200) (failing_safe ∷ []) (baseline_unavailable_error ∷ [])) {
  observed_value = finite (pos 0);
}

-- over 100
abbrev pub exceeded : PolicyDecision
exceeded =
    decided fail (units 100)
      (exceeds_threshold (finite (units 150)) (units 100) (finite (units 50))
        ∷ peer_review_required
        ∷ [])
      []

passed_is : evaluate estimate policy [] ≡ ok (passed 200)
unfolding evaluate threshold_unit evaluate_estimate observed_value compare_threshold comparison
passed_is = refl

passed_higher : evaluate estimate (with_threshold policy (units 300)) [] ≡ ok (passed 300)
unfolding evaluate threshold_unit evaluate_estimate observed_value compare_threshold comparison
passed_higher = refl

exceeded_is : evaluate estimate (policy_of "incremental_monthly_cost" (units 100)) [] ≡ ok exceeded
unfolding evaluate threshold_unit evaluate_estimate observed_value compare_threshold comparison
    exceeded_by ◌-ℤ◌
exceeded_is = refl

stopped_is : evaluate estimate policy (baseline_unavailable_error ∷ []) ≡ ok stopped
unfolding evaluate threshold_unit evaluate_estimate observed_value compare_threshold comparison
stopped_is = refl

observed_is : observed_value estimate "incremental_monthly_cost" ≡ ok (finite (units 150))
unfolding observed_value
observed_is = refl

evaluate_total_example : (d : PolicyDecision) × (evaluate estimate policy [] ≡ ok d)
evaluate_total_example = evaluate_total estimate policy [] (inl refl)

evaluate-pass_iff_example :
    ((passed 200).status ≡ pass)
    ↔ (IsUsable estimate policy × Meets policy.threshold (finite (units 150)))
evaluate-pass_iff_example =
    evaluate-pass_iff estimate policy (passed 200) (finite (units 150)) passed_is observed_is

evaluate-IsConsistent_example : IsConsistent stopped
evaluate-IsConsistent_example =
    evaluate-IsConsistent estimate policy (baseline_unavailable_error ∷ []) stopped stopped_is

fails_at_100 :
    (compare_threshold
      (policy_of "incremental_monthly_cost" (units 100)).threshold
      exceeded
      (finite (units 150))).status
    ≡ fail
unfolding compare_threshold
fails_at_100 = refl

reductions_redundant_example :
    (compare_threshold policy.threshold exceeded (finite (units 150))).status
    ≡ (compare_threshold
        (record policy.threshold { allow_cost_reductions = false })
        exceeded
        (finite (units 150))).status
reductions_redundant_example =
    reductions_redundant policy.threshold exceeded (finite (units 150)) false (omega arith)

evaluate_mono_example : (passed 300).status ≡ pass
evaluate_mono_example =
    evaluate_mono estimate policy (units 300) (passed 200) (passed 300) (inl refl) (omega arith)
      passed_is passed_higher refl

greenfield_is :
    (d : PolicyDecision) × (evaluate
        (estimate_of 0 150)
        (policy_of "incremental_percentage" (units 10))
        []
      ≡ ok d)
greenfield_is =
    evaluate_total (estimate_of 0 150) (policy_of "incremental_percentage" (units 10)) []
      (inr (inr (inl refl)))
