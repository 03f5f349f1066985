-- ===== src/Ai/Raises.antt =====
-- Where the wrapper round the AI explanation raises after all.
use finops_cost_engine_poc.Prelude.{ℕ, String, ◌≡◌, inl, inr, refl, Bool-cases}
use finops_cost_engine_poc.Decimal.{Decimal, infinity, as_float_decimal}
use finops_cost_engine_poc.Errors.{
  FinOpsError, Message, Raised, finops, invalid_operation, key_error, Result, ok, raise, ◌>>=◌,
  ai_error,
}
use finops_cost_engine_poc.Models.{CostEstimate, NormalizedPlan, PolicyDecision}
use finops_cost_engine_poc.Config.{AiConfig}
use finops_cost_engine_poc.Ai.{
  Provider, build_provider, unavailable, provider_analyze, recover, analyze,
}

no_float : (v : Decimal) → v ≡ infinity → as_float_decimal v ≡ raise invalid_operation
unfolding as_float_decimal
no_float v h = rw h refl

module _ (e : CostEstimate) (d : PolicyDecision) (boundless : d.observed_value ≡ infinity) where
  unavailable-raises : (x : FinOpsError) → unavailable d e x ≡ raise invalid_operation
  unfolding unavailable
  unavailable-raises x = rw (no_float d.observed_value boundless) refl

  recover-raises : (r : Raised) → recover d e (raise r) ≡ raise invalid_operation
  unfolding recover
  recover-raises (finops x) = rw (unavailable-raises x) refl
  recover-raises invalid_operation =
      rw (unavailable-raises (ai_error Message.unexpected_ai_failure)) refl
  recover-raises key_error = rw (unavailable-raises (ai_error Message.unexpected_ai_failure)) refl

  asked-raises :
      (ask : Provider) (plan : NormalizedPlan) (limit : ℕ) (name : Result String)
      → recover d e (name >>= λ n. provider_analyze ask n plan e d limit) ≡ raise invalid_operation
  unfolding provider_analyze
  asked-raises ask plan limit (ok n) =
      rw (no_float d.observed_value boundless) (recover-raises invalid_operation)
  asked-raises ask plan limit (raise r) = recover-raises r

  -- The analysis of a decision whose observed value is infinite raises Python's own invalid
  -- operation, whatever the provider answers and whether the AI is enabled or not.
  pub analyze-raises :
      (ask : Provider) (plan : NormalizedPlan) (c : AiConfig)
      → analyze ask plan e d c ≡ raise invalid_operation
  unfolding analyze
  analyze-raises ask plan c = elim (Bool-cases c.enabled) [
    | inl on ↦ rw on (asked-raises ask plan c.max_resources_in_prompt (build_provider c.provider))
    | inr off ↦ rw off (rw (unavailable-raises (ai_error Message.ai_disabled)) refl)
  ]
