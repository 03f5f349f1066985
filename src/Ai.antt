-- ===== src/Ai.antt =====
-- ai/factory.py and `AIProvider.analyze` of ai/base.py: the wrapper round the AI explanation.
-- `ask` is the provider at work: `analyze_raw` over the network or offline, then the schema check.
pub mod Raises
use finops_cost_engine_poc.Prelude.{
  ℕ, ℤ, String, true, false, ◌||◌, List, map, Option, none, some, str_eq, if◌then◌else◌,
}
use finops_cost_engine_poc.Decimal.{money, as_float_decimal}
use finops_cost_engine_poc.Errors.{
  FinOpsError, Message, finops, key_error, Result, ok, raise, ◌>>=◌, ai_error,
}
use finops_cost_engine_poc.Models.{
  Status, fail, CostEstimate, NormalizedPlan, PolicyDecision, AiAnalysis, told_reason,
  policy_reasons, CostDriver, told_driver, moved_driver, ResourceCost, exceeded_by,
  top_cost_drivers,
}
use finops_cost_engine_poc.Config.{AiConfig}

-- the validated JSON object of a provider
pub record Payload : Type 0 where
  pub summary : String
  pub reason : String
  pub cost_drivers : List String
  pub recommendation : String

-- what the provider does: it answers, raises an `AIError`, or fails in another way
pub data Answer : Type 0 where
  answered : Payload → Answer
  refused : FinOpsError → Answer
  broke : Answer

abbrev pub Provider : Type 0
Provider = String → NormalizedPlan → CostEstimate → PolicyDecision → ℕ → Answer

-- `"BLOCK" if decision.status.value == "FAIL" else "ALLOW"`
abbrev pub verdict_label : Status → String
verdict_label fail = "BLOCK"
verdict_label _ = "ALLOW"

-- `build_provider`: the name of the provider that is built
unfoldable pub build_provider : String → Result String
build_provider name =
    if str_eq name "mock"
      || (str_eq name "azure_openai" || (str_eq name "openai" || str_eq name "bedrock"))
    then ok name
    else raise (finops (ai_error Message.unknown_ai_provider))

driver_of : ResourceCost → CostDriver
driver_of r = moved_driver r.address (money (some r.delta_monthly_cost))

unfoldable pub unavailable : PolicyDecision → CostEstimate → FinOpsError → Result AiAnalysis
unfolding driver_of
unavailable decision estimate e = do
  observed ← as_float_decimal decision.observed_value
  ok (record {
    summary = "AI explanation unavailable. The deterministic cost result below is unaffected.";
    cost_impact = observed;
    currency = estimate.currency;
    threshold = money (some decision.threshold_value);
    decision = verdict_label decision.status;
    reason = policy_reasons decision.reasons;
    cost_drivers = map driver_of (top_cost_drivers 3 estimate);
    recommendation = "";
    provider = "none";
    available = false;
    error = some e;
  })

-- `AIProvider.analyze`: the money fields come from the decision, never from the model.
pub accept : String → PolicyDecision → CostEstimate → ℤ → Answer → Result AiAnalysis
accept name decision estimate observed (answered p) = ok (record {
  summary = p.summary;
  cost_impact = observed;
  currency = estimate.currency;
  threshold = money (some decision.threshold_value);
  decision = verdict_label decision.status;
  reason = told_reason p.reason;
  cost_drivers = map told_driver p.cost_drivers;
  recommendation = p.recommendation;
  provider = name;
  available = true;
  error = none;
})
accept name decision estimate observed (refused e) = raise (finops e)
accept name decision estimate observed broke = raise key_error

-- `build_prompt_context` takes `as_float` of the observed value and of the excess first.
unfoldable pub provider_analyze :
    Provider → String → NormalizedPlan → CostEstimate → PolicyDecision → ℕ → Result AiAnalysis
unfolding accept
provider_analyze ask name plan estimate decision limit = do
  observed ← as_float_decimal decision.observed_value
  excess ← as_float_decimal (exceeded_by decision)
  accept name decision estimate observed (ask name plan estimate decision limit)

-- The two handlers: `except AIError` keeps the error, `except Exception` wraps what else is raised.
unfoldable pub recover :
    PolicyDecision → CostEstimate → Result AiAnalysis → Result (AiAnalysis × Option FinOpsError)
recover decision estimate (ok analysis) = ok (analysis, none)
recover decision estimate (raise (finops e)) = do
  analysis ← unavailable decision estimate e
  ok (analysis, some e)
recover decision estimate (raise other) = do
  analysis ← unavailable decision estimate (ai_error Message.unexpected_ai_failure)
  ok (analysis, some (ai_error Message.unexpected_ai_failure))

unfoldable pub analyze :
    Provider
    → NormalizedPlan
    → CostEstimate
    → PolicyDecision
    → AiConfig
    → Result (AiAnalysis × Option FinOpsError)
unfolding provider_analyze recover
analyze ask plan estimate decision config =
    if config.enabled
    then recover decision estimate (do
      name ← build_provider config.provider
      provider_analyze ask name plan estimate decision config.max_resources_in_prompt)
    else do
      analysis ← unavailable decision estimate (ai_error Message.ai_disabled)
      ok (analysis, none)
