-- ===== src/Policy/Failures.antt =====
-- What `evaluate` reports when it does not pass: errors block, and a failure states by how much.
use finops_cost_engine_poc.Prelude.{
  ℤ, pos, String, ◌≤ℤ◌, ◌<ℤ◌, ◌-ℤ◌, -ℤ_parts, Bool, true, false, ◌≡◌, ◌≢◌, ◌⊎◌, inl, inr, refl, sym,
  ◌∙◌, List, [], ◌∷◌, arith, is_empty,
}
use finops_cost_engine_poc.Decimal.{Decimal, finite, infinity}
use finops_cost_engine_poc.Errors.{FinOpsError, ok, ok-injective, >>=-eq-ok}
use finops_cost_engine_poc.Models.{
  pass, fail, error, CostEstimate, PolicyDecision, exceeded_by, incremental_percentage,
}
use finops_cost_engine_poc.Config.{Config, ThresholdConfig, threshold_unit}
use finops_cost_engine_poc.Policy.{
  observed_value, compare_threshold, evaluate_estimate, evaluate, start,
}
use finops_cost_engine_poc.Policy.Verdict.{
  Meets, IsUsable, IsMetric, gate_checks, evaluate-pass_iff, observed_value_total,
}

-- The status says whether something blocks, and a decision that is no error has a reason.
abbrev pub IsConsistent : PolicyDecision → Type 0
IsConsistent d =
    ((d.status ≡ error) × (is_empty d.blocking_errors ≡ false))
    ⊎ ((d.status ≢ error) × (d.blocking_errors ≡ []) × (is_empty d.reasons ≡ false))

compare_threshold-IsConsistent :
    (t : ThresholdConfig) (d : PolicyDecision) (v : Decimal)
    → d.blocking_errors ≡ []
    → IsConsistent (compare_threshold t d v)
unfolding compare_threshold
compare_threshold-IsConsistent t d v h = grind arith

estimate-IsConsistent :
    (e : CostEstimate) (c : Config) (u : String) (d : PolicyDecision)
    → evaluate_estimate e c (start c.threshold u) ≡ ok d
    → IsConsistent d
unfolding evaluate_estimate
estimate-IsConsistent e c u d h = elim (gate_checks e c (start c.threshold u)) [
  | inl (_, q) ↦
      let d' = record (start c.threshold u) { warnings = e.warnings } in
      let (v, _, r) = >>=-eq-ok (observed_value e c.threshold.metric) _ (sym q ∙ h) in
      rw (ok-injective r) at (compare_threshold-IsConsistent c.threshold d' v refl)
  | inr (_, (b, q, k)) ↦
      let consistent : IsConsistent b = inl (k.failed, k.blocking) in
      rw (ok-injective (sym q ∙ h)) at consistent
]

-- Whatever the estimate, the configuration and the upstream errors: a returned decision is an ERROR
-- exactly when it lists a blocking error, and any other decision lists a reason.
pub evaluate-IsConsistent :
    (e : CostEstimate) (c : Config) (upstream : List FinOpsError) (d : PolicyDecision)
    → evaluate e c upstream ≡ ok d
    → IsConsistent d
unfolding evaluate
evaluate-IsConsistent e c [] d h =
    let (u, _, p) = >>=-eq-ok (threshold_unit c.threshold) _ h in estimate-IsConsistent e c u d p
evaluate-IsConsistent e c (x ∷ upstream) d h =
    let (u, _, p) = >>=-eq-ok (threshold_unit c.threshold) _ h in ground (arith, p)

-- An upstream error fails closed: the decision is an ERROR that lists all upstream errors, whatever
-- the estimate says.
pub evaluate_upstream :
    (e : CostEstimate) (c : Config) (x : FinOpsError) (upstream : List FinOpsError)
    (d : PolicyDecision)
    → evaluate e c (x ∷ upstream) ≡ ok d
    → (d.status ≡ error) × (d.blocking_errors ≡ x ∷ upstream)
unfolding evaluate
evaluate_upstream e c x upstream d h =
    let (u, _, p) = >>=-eq-ok (threshold_unit c.threshold) _ h in ground (arith, p)

-- A failed decision over a finite value exceeds its threshold by the difference, which is positive
-- where equality passes.
pub exceeded_by-compare :
    (t : ThresholdConfig) (d : PolicyDecision) (v : ℤ)
    → (compare_threshold t d (finite v)).status ≡ fail
    → (d.threshold_value ≡ t.value)
    → (t.value ≤ℤ v)
      × (exceeded_by (compare_threshold t d (finite v)) ≡ finite (v -ℤ t.value))
      × (t.equality_is_pass ≡ true → t.value <ℤ v)
unfolding compare_threshold exceeded_by
exceeded_by-compare t d v failed same = ground (arith, -ℤ_parts v t.value, same)

observed_greenfield :
    (e : CostEstimate)
    → e.previous_monthly_cost ≡ pos 0
    → pos 0 <ℤ e.incremental_monthly_cost
    → observed_value e "incremental_percentage" ≡ ok infinity
unfolding observed_value incremental_percentage
observed_greenfield e nothing added = ground arith

-- With a threshold that is not negative, letting cost reductions pass changes no verdict: a
-- negative value is under the threshold anyway.
pub reductions_redundant :
    (t : ThresholdConfig) (d : PolicyDecision) (v : Decimal) (b : Bool)
    → pos 0 ≤ℤ t.value
    → (compare_threshold t d v).status
      ≡ (compare_threshold (record t { allow_cost_reductions = b }) d v).status
unfolding compare_threshold
reductions_redundant t d infinity b h = ground arith
reductions_redundant t d (finite v) b h = ground arith

Meets-mono :
    (t : ThresholdConfig) (v : Decimal) (higher : ℤ)
    → t.value ≤ℤ higher
    → Meets t v
    → Meets (record t { value = higher }) v
Meets-mono t infinity higher h m = m
Meets-mono t (finite v) higher h m = ground arith

abbrev pub with_threshold : Config → ℤ → Config
with_threshold c v = record c { threshold = record c.threshold { value = v } }

-- A higher threshold never turns a pass into something else: where an estimate passes under a valid
-- metric, it passes under every configuration that differs only by a higher threshold.
pub evaluate_mono :
    (e : CostEstimate) (c : Config) (higher : ℤ) (d d' : PolicyDecision)
    → IsMetric c.threshold.metric
    → c.threshold.value ≤ℤ higher
    → evaluate e c [] ≡ ok d
    → evaluate e (with_threshold c higher) [] ≡ ok d'
    → d.status ≡ pass
    → d'.status ≡ pass
evaluate_mono e c higher d d' valid h p p' passed =
    let (v, ev) = observed_value_total e c.threshold.metric valid in
    let (u, m) = (evaluate-pass_iff e c d v p ev).0 passed in
    let usable : IsUsable e (with_threshold c higher) = record {
      trusted = u.trusted;
      same_currency = u.same_currency;
      supported = u.supported;
      has_prices = u.has_prices;
    } in
    (evaluate-pass_iff e (with_threshold c higher) d' v p' ev).1
      (usable, Meets-mono c.threshold v higher h m)

-- Under the percentage metric a cost that is added where nothing was deployed has no finite
-- percentage, and never passes, whatever the threshold.
pub percentage_greenfield :
    (e : CostEstimate) (c : Config) (d : PolicyDecision)
    → c.threshold.metric ≡ "incremental_percentage"
    → e.previous_monthly_cost ≡ pos 0
    → pos 0 <ℤ e.incremental_monthly_cost
    → evaluate e c [] ≡ ok d
    → d.status ≢ pass
percentage_greenfield e c d metric nothing added p passed =
    ((evaluate-pass_iff e c d infinity p (rw metric (observed_greenfield e nothing added))).0
      passed).1
