-- ===== src/Policy/Verdict.antt =====
-- When `evaluate` passes an estimate, and how the verdict moves with the threshold.
use finops_cost_engine_poc.Prelude.{
  pos, ◌≤ℤ◌, ◌<ℤ◌, String, true, false, ◌≡◌, ◌∙◌, sym, ◌⊎◌, ◌↔◌, inl, inr, refl, List, [], ◌∷◌,
  eq_iff, arith, is_empty,
}
use finops_cost_engine_poc.Decimal.{Decimal, finite, infinity}
use finops_cost_engine_poc.Errors.{FinOpsError, ok, ◌>>=◌, ok-injective, >>=-eq-ok}
use finops_cost_engine_poc.Models.{pass, error, CostEstimate, PolicyDecision, authoritative}
use finops_cost_engine_poc.Config.{Config, ThresholdConfig, warn, threshold_unit}
use finops_cost_engine_poc.Policy.{
  observed_value, compare_threshold, evaluate_estimate, evaluate, start,
}

-- A value is acceptable: at or below the threshold, or below it where equality does not pass, or a
-- cost reduction where reductions pass.
abbrev pub Meets : ThresholdConfig → Decimal → Type 0
Meets t infinity = ⊥
Meets t (finite v) =
    ((t.allow_cost_reductions ≡ true) × (v <ℤ pos 0))
    ⊎ (((t.equality_is_pass ≡ true) × (v ≤ℤ t.value)) ⊎ (v <ℤ t.value))

-- The estimate may be gated on: its estimator is trusted, its currency is the threshold's, and no
-- coverage gap that the configuration blocks on is there.
pub record IsUsable (e : CostEstimate) (c : Config) : Type 0 where
  pub trusted : (e.trust ≡ authoritative) ⊎ (c.cost_estimation.allow_non_authoritative_lock ≡ true)
  pub same_currency : e.currency ≡ c.threshold.currency
  pub supported :
      (e.coverage.unsupported_resources ≡ 0) ⊎ (c.fail_safe.on_unsupported_resource ≡ warn)
  pub has_prices :
      (e.coverage.no_price_resources ≡ 0) ⊎ (c.fail_safe.on_unknown_cost_resource ≡ warn)

compare_threshold-pass :
    (t : ThresholdConfig) (d : PolicyDecision) (v : Decimal)
    → ((compare_threshold t d v).status ≡ pass) ↔ Meets t v
unfolding compare_threshold
compare_threshold-pass t d infinity = ground arith
compare_threshold-pass t d (finite v) = (λ h. ground arith, λ m. ground arith)

-- `b` is `d` with a blocking error.
pub record IsBlocked (d b : PolicyDecision) : Type 0 where
  pub failed : b.status ≡ error
  pub blocking : is_empty b.blocking_errors ≡ false
  pub same_value : b.threshold_value ≡ d.threshold_value
  pub same_metric : b.metric ≡ d.metric
  pub same_observed : b.observed_value ≡ d.observed_value

-- The checks in front of the comparison let through exactly the usable estimates, and block the
-- others with one error.
pub gate_checks :
    (e : CostEstimate) (c : Config) (d : PolicyDecision)
    → (IsUsable e c
        × (evaluate_estimate e c d ≡ (
            observed_value e c.threshold.metric >>= λ v.
            ok (compare_threshold c.threshold (record d { warnings = e.warnings }) v))))
      ⊎ ((¬ IsUsable e c)
          × ((b : PolicyDecision) × (evaluate_estimate e c d ≡ ok b) × IsBlocked d b))
unfolding evaluate_estimate
gate_checks e c d = grind (arith, eq_iff e.currency c.threshold.currency)

-- One of `VALID_METRICS`
abbrev pub IsMetric : String → Type 0
IsMetric m =
    (m ≡ "incremental_monthly_cost")
    ⊎ ((m ≡ "incremental_annual_cost")
        ⊎ ((m ≡ "incremental_percentage") ⊎ (m ≡ "total_monthly_cost")))

pub observed_value_total :
    (e : CostEstimate) (m : String) → IsMetric m → (v : Decimal) × (observed_value e m ≡ ok v)
unfolding observed_value
observed_value_total e m (inl p) = rw p (finite e.incremental_monthly_cost, refl)
observed_value_total e m (inr (inl p)) = rw p (_, refl)
observed_value_total e m (inr (inr (inl p))) = rw p (_, refl)
observed_value_total e m (inr (inr (inr p))) = rw p (_, refl)

pub threshold_unit_total :
    (t : ThresholdConfig) → IsMetric t.metric → (u : String) × (threshold_unit t ≡ ok u)
unfolding threshold_unit
threshold_unit_total t (inl p) = rw p (_, refl)
threshold_unit_total t (inr (inl p)) = rw p (_, refl)
threshold_unit_total t (inr (inr (inl p))) = rw p (_, refl)
threshold_unit_total t (inr (inr (inr p))) = rw p (_, refl)

-- For each valid metric and each finite threshold the evaluation of an estimate of finite amounts
-- returns a decision, whatever the upstream errors.
pub evaluate_total :
    (e : CostEstimate) (c : Config) (upstream : List FinOpsError)
    → IsMetric c.threshold.metric
    → (d : PolicyDecision) × (evaluate e c upstream ≡ ok d)
unfolding evaluate
evaluate_total e c (x ∷ upstream) valid =
    let (u, eu) = threshold_unit_total c.threshold valid in rw eu (_, refl)
evaluate_total e c [] valid =
    let (u, eu) = threshold_unit_total c.threshold valid in
    let (v, ev) = observed_value_total e c.threshold.metric valid in
    rw eu (elim (gate_checks e c (start c.threshold u)) [
      | inl (_, p) ↦ (_, rw ev at p)
      | inr (_, (b, p, _)) ↦ (b, p)
    ])

-- For a valid metric whose observed value is `v`, an estimate with no upstream error passes exactly
-- when it is usable and `v` meets the threshold.
pub evaluate-pass_iff :
    (e : CostEstimate) (c : Config) (d : PolicyDecision) (v : Decimal)
    → evaluate e c [] ≡ ok d
    → observed_value e c.threshold.metric ≡ ok v
    → (d.status ≡ pass) ↔ (IsUsable e c × Meets c.threshold v)
unfolding evaluate
evaluate-pass_iff e c d v returned observed =
    let (u, _, p) = >>=-eq-ok (threshold_unit c.threshold) _ returned in
    elim (gate_checks e c (start c.threshold u)) [
      | inl (usable, q) ↦
          let made : compare_threshold c.threshold _ v ≡ d =
            ok-injective (sym (q ∙ rw observed refl) ∙ p) in
          let same =
            compare_threshold-pass c.threshold
              (record (start c.threshold u) { warnings = e.warnings }) v in
          (λ h. (usable, same.0 (rw made h)), λ h. rw (← made) (same.1 h.1))
      | inr (unusable, (b, q, k)) ↦
          let made : b ≡ d = ok-injective (sym q ∙ p) in
          (λ h. absurd (cc (made, k.failed, h)), λ h. absurd (unusable h.0))
    ]
