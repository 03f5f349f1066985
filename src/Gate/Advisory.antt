-- ===== src/Gate/Advisory.antt =====
-- The AI explanation is advisory: it decides nothing, unless the configuration says that its
-- failure blocks, and then it can only turn a run into an ERROR.
use finops_cost_engine_poc.Prelude.{
  String, false, ◌&&◌, ◌≡◌, inl, inr, refl, sym, ◌∙◌, ap, [], Option, none, some, Bool-cases,
}
use finops_cost_engine_poc.Json.{Json}
use finops_cost_engine_poc.Errors.{
  FinOpsError, finops, invalid_operation, key_error, Result, ok, raise, ok-injective, >>=-eq-ok,
}
use finops_cost_engine_poc.Models.{
  CostEstimate, NormalizedPlan, PolicyDecision, AiAnalysis, GateResult,
}
use finops_cost_engine_poc.Config.{Config, blocks}
use finops_cost_engine_poc.Policy.{evaluate}
use finops_cost_engine_poc.CostLock.{create_cost_lock}
use finops_cost_engine_poc.Plan.Normalizer.{normalize_plan_file}
use finops_cost_engine_poc.Ai.{Provider, analyze}
use finops_cost_engine_poc.Gate.{
  CostEstimator, GateRequest, Environment, Outcome, no_baseline, passes, started, unpriced,
  lock_if_passed, finish, priced, with_plan, run_gate, load_action_plan,
}

abbrev pub without_ai : Outcome → Outcome
without_ai o = (record o.0 { ai = none }, o.1)

module _ (sha256 show : Json → String) (ask ask' : Provider) (env : Environment)
    (request : GateRequest) (config : Config)
    (advisory : (config.ai.required && blocks config.fail_safe.on_ai_failure) ≡ false) where
  lock_same :
      (plan : NormalizedPlan) (estimate : CostEstimate) (decision : PolicyDecision) (r : GateResult)
      (a a' : Option AiAnalysis) (o o' : Outcome)
      → lock_if_passed sha256 show ask env request config plan estimate decision
          (record r { ai = a })
        ≡ ok o
      → lock_if_passed sha256 show ask' env request config plan estimate decision
          (record r { ai = a' })
        ≡ ok o'
      → without_ai o ≡ without_ai o'
  unfolding lock_if_passed
  lock_same plan estimate decision r a a' o o' h h' =
      elim (Bool-cases (passes r.status && request.allow_cost_lock)) [
        | inl go ↦
            let issued =
              create_cost_lock sha256 decision estimate plan config r.commit r.execution_id
                request.stack env.lock_uuid env.now in
            let (lock, made, q) = >>=-eq-ok issued _ (rw go at h) in
            let (lock', made', q') = >>=-eq-ok issued _ (rw go at h') in
            rw (← ok-injective q, ← ok-injective q', ok-injective (sym made ∙ made')) refl
        | inr stop ↦ rw (← ok-injective (rw stop at h), ← ok-injective (rw stop at h')) refl
      ]

  finish_plain :
      (p : Provider) (plan : NormalizedPlan) (estimate : CostEstimate) (decision : PolicyDecision)
      (r : GateResult) (e : Option FinOpsError)
      → finish sha256 show p env request config plan estimate decision r e
        ≡ lock_if_passed sha256 show p env request config plan estimate decision r
  unfolding finish
  finish_plain p plan estimate decision r none = refl
  finish_plain p plan estimate decision r (some e) = rw advisory refl

  decided_same :
      (plan : NormalizedPlan) (estimate : CostEstimate) (d : PolicyDecision) (r : GateResult)
      (x x' : AiAnalysis × Option FinOpsError) (o o' : Outcome)
      → finish sha256 show ask env request config plan estimate d (record r { ai = some x.0 }) x.1
        ≡ ok o
      → finish sha256 show ask' env request config plan estimate d
          (record r { ai = some x'.0 })
          x'.1
        ≡ ok o'
      → without_ai o ≡ without_ai o'
  decided_same plan estimate d r x x' o o' h h' =
      lock_same plan estimate d r (some x.0) (some x'.0) o o'
        (sym (finish_plain ask plan estimate d (record r { ai = some x.0 }) x.1) ∙ h)
        (sym (finish_plain ask' plan estimate d (record r { ai = some x'.0 }) x'.1) ∙ h')

  -- what the policy's decision alone puts into the result
  abbrev decided : NormalizedPlan → CostEstimate → PolicyDecision → GateResult
  decided plan estimate d = record (started sha256 show ask env request config) {
    status = d.status;
    decision = some d;
    estimate = some estimate;
    plan = some plan;
    errors = d.blocking_errors;
  }

  priced_same :
      (plan : NormalizedPlan) (estimated : Result CostEstimate) (o o' : Outcome)
      → priced sha256 show ask env request config plan estimated ≡ ok o
      → priced sha256 show ask' env request config plan estimated ≡ ok o'
      → without_ai o ≡ without_ai o'
  unfolding priced unpriced
  priced_same plan (raise (finops e)) o o' h h' = ap without_ai (ok-injective (sym h ∙ h'))
  priced_same plan (raise invalid_operation) o o' h h' = cc
  priced_same plan (raise key_error) o o' h h' = cc
  priced_same plan (ok estimate) o o' h h' =
      let (d, evaluated, p) = >>=-eq-ok (evaluate estimate config []) _ h in
      let (x, _, q) = >>=-eq-ok (analyze ask plan estimate d config.ai) _ p in
      let (x', _, q') = >>=-eq-ok (analyze ask' plan estimate d config.ai) _ (rw evaluated at h') in
      decided_same plan estimate d (decided plan estimate d) x x' o o' q q'

  with_plan_same :
      (estimator : CostEstimator) (p : Result NormalizedPlan) (o o' : Outcome)
      → with_plan sha256 show ask env request config estimator p ≡ ok o
      → with_plan sha256 show ask' env request config estimator p ≡ ok o'
      → without_ai o ≡ without_ai o'
  unfolding with_plan unpriced
  with_plan_same estimator (raise (finops e)) o o' h h' = ap without_ai (ok-injective (sym h ∙ h'))
  with_plan_same estimator (raise invalid_operation) o o' h h' = cc
  with_plan_same estimator (raise key_error) o o' h h' = cc
  with_plan_same estimator (ok plan) o o' h h' =
      let (a, loaded, p) = >>=-eq-ok (load_action_plan show request.action_plan) _ h in
      let p' = rw loaded at h' in
      elim (Bool-cases (request.require_baseline && no_baseline request.baseline_plan)) [
        | inl stop ↦ ap without_ai (ok-injective (sym (rw stop at p) ∙ (rw stop at p')))
        | inr go ↦ priced_same plan _ o o' (rw go at p) (rw go at p')
      ]

  -- Unless the configuration makes the AI required and its failure blocking, two runs that differ
  -- only in what the AI provider answers, and both return, agree in everything but the analysis:
  -- the status, the decision, the estimate, the errors and the lock that is written.
  pub run_gate-advisory :
      (estimator : CostEstimator) (o o' : Outcome)
      → run_gate sha256 show ask env request config estimator ≡ ok o
      → run_gate sha256 show ask' env request config estimator ≡ ok o'
      → without_ai o ≡ without_ai o'
  unfolding run_gate
  run_gate-advisory estimator =
      with_plan_same estimator (normalize_plan_file show request.proposed_plan)
