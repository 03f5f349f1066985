-- ===== src/Policy/Carried.antt =====
-- What a decision carries over from the configuration, and when its observed value is finite.
use finops_cost_engine_poc.Prelude.{ℤ, String, ◌≡◌, inl, inr, refl, sym, ◌∙◌, [], arith}
use finops_cost_engine_poc.Decimal.{Decimal, finite, infinity}
use finops_cost_engine_poc.Errors.{ok, >>=-eq-ok, ok-injective}
use finops_cost_engine_poc.Models.{pass, CostEstimate, PolicyDecision}
use finops_cost_engine_poc.Config.{Config, ThresholdConfig, threshold_unit}
use finops_cost_engine_poc.Policy.Verdict.{gate_checks}
use finops_cost_engine_poc.Policy.{
  observed_value, compare_threshold, evaluate_estimate, evaluate, start,
}

pub record Carries (c : Config) (d : PolicyDecision) : Type 0 where
  pub value : d.threshold_value ≡ c.threshold.value
  pub metric : d.metric ≡ c.threshold.metric
  pub observed : d.status ≡ pass → (v : ℤ) × (d.observed_value ≡ finite v)

compare_threshold-observed :
    (t : ThresholdConfig) (d : PolicyDecision) (v : Decimal)
    → (compare_threshold t d v).status ≡ pass
    → (w : ℤ) × ((compare_threshold t d v).observed_value ≡ finite w)
unfolding compare_threshold
compare_threshold-observed t d (finite w) h = (w, ground arith)
compare_threshold-observed t d infinity h = absurd (ground arith)

compare_threshold-Carries :
    (c : Config) (d : PolicyDecision) (v : Decimal)
    → d.threshold_value ≡ c.threshold.value
    → d.metric ≡ c.threshold.metric
    → Carries c (compare_threshold c.threshold d v)
unfolding compare_threshold
compare_threshold-Carries c d v value metric = record {
  value = ground arith;
  metric = ground arith;
  observed = compare_threshold-observed c.threshold d v;
}

estimate-Carries :
    (e : CostEstimate) (c : Config) (u : String) (d : PolicyDecision)
    → evaluate_estimate e c (start c.threshold u) ≡ ok d
    → Carries c d
estimate-Carries e c u d h = elim (gate_checks e c (start c.threshold u)) [
  | inl (_, q) ↦
      let d' = record (start c.threshold u) { warnings = e.warnings } in
      let (v, _, r) = >>=-eq-ok (observed_value e c.threshold.metric) _ (sym q ∙ h) in
      rw (ok-injective r) at (compare_threshold-Carries c d' v refl refl)
  | inr (_, (b, q, k)) ↦
      let carried : Carries c b = record {
        value = k.same_value;
        metric = k.same_metric;
        observed = λ passed. absurd (cc (passed, k.failed));
      } in
      rw (ok-injective (sym q ∙ h)) at carried
]

-- A decision on an estimate carries the threshold and the metric of its configuration, and its
-- observed value is finite if it passes.
pub evaluate-Carries :
    (e : CostEstimate) (c : Config) (d : PolicyDecision) → evaluate e c [] ≡ ok d → Carries c d
unfolding evaluate
evaluate-Carries e c d h =
    let (u, _, p) = >>=-eq-ok (threshold_unit c.threshold) _ h in estimate-Carries e c u d p
