-- ===== src/Gate/Returns.antt =====
-- A run of the gate returns a result: nothing that is raised inside leaves it.
use finops_cost_engine_poc.Prelude.{
  ℤ, String, ◌≡◌, ◌⊎◌, inl, inr, refl, List, [], ◌∷◌, arith, Bool-cases,
}
use finops_cost_engine_poc.Decimal.{Decimal, finite, infinity, as_float_decimal}
use finops_cost_engine_poc.Errors.{
  FinOpsError, Message, finops, invalid_operation, key_error, Result, ok, raise, ◌>>=◌, ai_error,
}
use finops_cost_engine_poc.Models.{CostEstimate, NormalizedPlan, PolicyDecision, AiAnalysis}
use finops_cost_engine_poc.Config.{Config, ThresholdConfig, AiConfig}
use finops_cost_engine_poc.Policy.{
  observed_value, compare_threshold, evaluate_estimate, evaluate, start,
}
use finops_cost_engine_poc.Policy.Verdict.{IsMetric, gate_checks, threshold_unit_total}
use finops_cost_engine_poc.Ai.{Provider, unavailable, recover, analyze}

-- What a call gives is a value, or an error that `except FinOpsError` catches.
abbrev pub IsCaught {ℓ} : {A : Type ℓ} → Result A → Type 0
IsCaught (ok a) = Unit
IsCaught (raise (finops e)) = Unit
IsCaught (raise other) = ⊥

pub IsCaught->>= {ℓ κ} :
    {A : Type ℓ} {B : Type κ} (m : Result A) (f : A → Result B)
    → IsCaught m
    → ((a : A) → IsCaught (f a))
    → IsCaught (m >>= f)
IsCaught->>= (ok a) f h k = k a
IsCaught->>= (raise (finops e)) f h k = tt
IsCaught->>= (raise invalid_operation) f h k = absurd h
IsCaught->>= (raise key_error) f h k = absurd h

-- the call returns
abbrev pub Returns {ℓ} : {A : Type ℓ} → Result A → Type 0
Returns (ok a) = Unit
Returns (raise e) = ⊥

pub Returns->>= {ℓ κ} :
    {A : Type ℓ} {B : Type κ} (m : Result A) (f : A → Result B)
    → Returns m
    → ((a : A) → Returns (f a))
    → Returns (m >>= f)
Returns->>= (ok a) f h k = k a
Returns->>= (raise e) f h k = absurd h

-- a metric that is an amount of money, and not a percentage
abbrev pub IsAmount : String → Type 0
IsAmount m =
    (m ≡ "incremental_monthly_cost")
    ⊎ ((m ≡ "incremental_annual_cost") ⊎ (m ≡ "total_monthly_cost"))

pub IsAmount-IsMetric : {m : String} → IsAmount m → IsMetric m
IsAmount-IsMetric (inl e) = inl e
IsAmount-IsMetric (inr (inl e)) = inr (inl e)
IsAmount-IsMetric (inr (inr e)) = inr (inr (inr e))

abbrev pub IsFinite : Decimal → Type 0
IsFinite (finite v) = Unit
IsFinite infinity = ⊥

-- a decision was made, on a finite value
abbrev pub Decided : Result PolicyDecision → Type 0
Decided (ok d) = IsFinite d.observed_value
Decided (raise e) = ⊥

pub observed_amount :
    (e : CostEstimate) (m : String) → IsAmount m → (v : ℤ) × (observed_value e m ≡ ok (finite v))
unfolding observed_value
observed_amount e m (inl h) = rw h (_, refl)
observed_amount e m (inr (inl h)) = rw h (_, refl)
observed_amount e m (inr (inr h)) = rw h (_, refl)

compare_threshold-observed :
    (t : ThresholdConfig) (d : PolicyDecision) (v : Decimal)
    → (compare_threshold t d v).observed_value ≡ v
unfolding compare_threshold
compare_threshold-observed t d v = ground arith

evaluate_estimate-Decided :
    (e : CostEstimate) (c : Config) (d : PolicyDecision)
    → IsAmount c.threshold.metric
    → IsFinite d.observed_value
    → Decided (evaluate_estimate e c d)
evaluate_estimate-Decided e c d metric known = elim (gate_checks e c d) [
  | inl (_, q) ↦
      let (v, observed) = observed_amount e c.threshold.metric metric in
      rw
        (
          q,
          observed,
          compare_threshold-observed c.threshold (record d { warnings = e.warnings }) (finite v),
        )
        tt
  | inr (_, (b, q, k)) ↦ rw (q, k.same_observed) known
]

pub evaluate-Decided :
    (e : CostEstimate) (c : Config) (upstream : List FinOpsError)
    → IsAmount c.threshold.metric
    → Decided (evaluate e c upstream)
unfolding evaluate
evaluate-Decided e c [] metric =
    let (u, unit) = threshold_unit_total c.threshold (IsAmount-IsMetric metric) in
    rw unit (evaluate_estimate-Decided e c (start c.threshold u) metric tt)
evaluate-Decided e c (x ∷ upstream) metric =
    let (u, unit) = threshold_unit_total c.threshold (IsAmount-IsMetric metric) in rw unit tt

-- the values that the analysis rounds
pub rounds : (d : Decimal) → IsFinite d → Returns (as_float_decimal d)
unfolding as_float_decimal
rounds (finite v) h = tt
rounds infinity h = absurd h

unavailable-Returns :
    (d : PolicyDecision) (e : CostEstimate) (x : FinOpsError)
    → IsFinite d.observed_value
    → Returns (unavailable d e x)
unfolding unavailable as_float_decimal
unavailable-Returns d e x h =
    Returns->>= (as_float_decimal d.observed_value) _ (rounds d.observed_value h) (λ v. tt)

recover-Returns :
    (d : PolicyDecision) (e : CostEstimate) (m : Result AiAnalysis)
    → IsFinite d.observed_value
    → Returns (recover d e m)
unfolding recover
recover-Returns d e (ok a) h = tt
recover-Returns d e (raise (finops x)) h =
    Returns->>= (unavailable d e x) _ (unavailable-Returns d e x h) (λ a. tt)
recover-Returns d e (raise invalid_operation) h =
    let x = ai_error Message.unexpected_ai_failure in
    Returns->>= (unavailable d e x) _ (unavailable-Returns d e x h) (λ a. tt)
recover-Returns d e (raise key_error) h =
    let x = ai_error Message.unexpected_ai_failure in
    Returns->>= (unavailable d e x) _ (unavailable-Returns d e x h) (λ a. tt)

-- Whatever the AI provider does, the analysis of a decision on a finite value returns.
pub analyze-Returns :
    (ask : Provider) (plan : NormalizedPlan) (e : CostEstimate) (d : PolicyDecision) (c : AiConfig)
    → IsFinite d.observed_value
    → Returns (analyze ask plan e d c)
unfolding analyze
analyze-Returns ask plan e d c h = elim (Bool-cases c.enabled) [
  | inl on ↦ rw on (recover-Returns d e _ h)
  | inr off ↦
      let x = ai_error Message.ai_disabled in
      rw off (Returns->>= (unavailable d e x) _ (unavailable-Returns d e x h) (λ a. tt))
]
