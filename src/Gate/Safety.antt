-- ===== src/Gate/Safety.antt =====
-- What a run of the gate guarantees: a pass rests on an evaluated estimate, a lock is written only
-- then and verifies, and a missing baseline fails closed.
use finops_cost_engine_poc.Prelude.{
  String, true, ◌&&◌, ◌≡◌, inl, inr, refl, sym, ◌∙◌, [], ◌∷◌, Option, none, some, arith, Bool-cases,
}
use mathlib.Core.Option.{some-injective}
use finops_cost_engine_poc.Json.{Json, Fields}
use finops_cost_engine_poc.Errors.{
  FinOpsError, finops, invalid_operation, key_error, Result, ok, raise, ok-injective, >>=-eq-ok,
  baseline_unavailable_error,
}
use finops_cost_engine_poc.Models.{
  pass, error, CostEstimate, NormalizedPlan, PolicyDecision, GateResult, exit_code,
}
use finops_cost_engine_poc.Config.{Config, blocks}
use finops_cost_engine_poc.Policy.{evaluate}
use finops_cost_engine_poc.Policy.Carried.{evaluate-Carries}
use finops_cost_engine_poc.CostLock.{create_cost_lock, verify_cost_lock}
use finops_cost_engine_poc.CostLock.Issue.{issue-verify}
use finops_cost_engine_poc.Plan.Normalizer.{normalize_plan_file}
use finops_cost_engine_poc.Ai.{Provider, analyze}
use finops_cost_engine_poc.Gate.{
  CostEstimator, GateRequest, Environment, Outcome, no_baseline, passes, unpriced, lock_if_passed,
  finish, priced, with_plan, run_gate, load_action_plan, empty_estimate,
}

-- The result records a plan, an estimate and a decision, and the decision is the policy's.
pub record RestsOn (config : Config) (r : GateResult) (plan : NormalizedPlan)
    (estimate : CostEstimate) (decision : PolicyDecision) : Type 0 where
  pub has_plan : r.plan ≡ some plan
  pub has_estimate : r.estimate ≡ some estimate
  pub has_decision : r.decision ≡ some decision
  pub evaluated : evaluate estimate config [] ≡ ok decision

recorded :
    {config : Config} (r r' : GateResult) {plan : NormalizedPlan} {estimate : CostEstimate}
    {decision : PolicyDecision}
    → r.plan ≡ r'.plan
    → r.estimate ≡ r'.estimate
    → r.decision ≡ r'.decision
    → RestsOn config r plan estimate decision
    → RestsOn config r' plan estimate decision
recorded r r' p e d h = record {
  has_plan = sym p ∙ h.has_plan;
  has_estimate = sym e ∙ h.has_estimate;
  has_decision = sym d ∙ h.has_decision;
  evaluated = h.evaluated;
}

module _ (sha256 show : Json → String) (ask : Provider) (env : Environment) (request : GateRequest)
    (config : Config) where
  abbrev Evidence : Outcome → Type 0
  Evidence o =
      (plan : NormalizedPlan) × (estimate : CostEstimate) × (decision : PolicyDecision) × RestsOn
        config o.0 plan estimate decision
      × (decision.status ≡ pass)

  -- what is known of a written lock
  abbrev Minted : Outcome → Fields → Type 0
  Minted o lock =
      (plan : NormalizedPlan) × (o.0.plan ≡ some plan)
      × (o.0.status ≡ pass)
      × (o.0.cost_lock ≡ some lock)
      × (request.allow_cost_lock ≡ true)
      × (verify_cost_lock sha256 lock plan config request.stack ≡ [])

  abbrev IsGoverned : Outcome → Type 0
  IsGoverned o =
      (o.0.status ≡ pass → Evidence o) × ((lock : Fields) → o.1 ≡ some lock → Minted o lock)

  no_lock-IsGoverned :
      (r : GateResult) → (r.status ≡ pass → Evidence (r, none)) → IsGoverned (r, none)
  no_lock-IsGoverned r h = (h, λ lock e. cc)

  unpriced-IsGoverned :
      (plan : NormalizedPlan) (e : FinOpsError) (o : Outcome)
      → unpriced sha256 show ask env request config plan e ≡ ok o
      → IsGoverned o
  unfolding unpriced
  unpriced-IsGoverned plan e o h =
      let (d, _, p) = >>=-eq-ok (evaluate (empty_estimate config) config (e ∷ [])) _ h in
      rw (← ok-injective p) (no_lock-IsGoverned _ (λ passed. cc))

  lock_if_passed-IsGoverned :
      (plan : NormalizedPlan) (estimate : CostEstimate) (decision : PolicyDecision) (r : GateResult)
      (o : Outcome)
      → RestsOn config r plan estimate decision
      → r.status ≡ decision.status
      → lock_if_passed sha256 show ask env request config plan estimate decision r ≡ ok o
      → IsGoverned o
  unfolding lock_if_passed
  lock_if_passed-IsGoverned plan estimate decision r o rests same h =
      elim (Bool-cases (passes r.status && request.allow_cost_lock)) [
        | inl go ↦
            let issued =
              create_cost_lock sha256 decision estimate plan config r.commit r.execution_id
                request.stack env.lock_uuid env.now in
            let (lock, made, q) = >>=-eq-ok issued _ (rw go at h) in
            let carried = evaluate-Carries estimate config decision rests.evaluated in
            let valid =
              issue-verify sha256 decision estimate plan config r.commit r.execution_id
                request.stack env.lock_uuid env.now request.stack made carried.value carried.metric
                (inr refl) in
            rw (← ok-injective q) (
              λ passed. (
                plan,
                estimate,
                decision,
                recorded r (record r { cost_lock = some lock }) refl refl refl rests,
                sym same ∙ passed,
              ),
              λ l e. (
                plan,
                rests.has_plan,
                ground (arith, go),
                e,
                ground (arith, go),
                rw (some-injective _ _ e) at valid,
              ),
            )
        | inr stop ↦
            rw (← ok-injective (rw stop at h))
              (no_lock-IsGoverned r λ passed. (plan, estimate, decision, rests, sym same ∙ passed))
      ]

  finish-IsGoverned :
      (plan : NormalizedPlan) (estimate : CostEstimate) (decision : PolicyDecision) (r : GateResult)
      (e : Option FinOpsError) (o : Outcome)
      → RestsOn config r plan estimate decision
      → r.status ≡ decision.status
      → finish sha256 show ask env request config plan estimate decision r e ≡ ok o
      → IsGoverned o
  unfolding finish
  finish-IsGoverned plan estimate decision r none o rests same h =
      lock_if_passed-IsGoverned plan estimate decision r o rests same h
  finish-IsGoverned plan estimate decision r (some e) o rests same h =
      elim (Bool-cases (config.ai.required && blocks config.fail_safe.on_ai_failure)) [
        | inl stop ↦ rw (← ok-injective (rw stop at h)) (no_lock-IsGoverned _ (λ passed. cc))
        | inr go ↦ lock_if_passed-IsGoverned plan estimate decision r o rests same (rw go at h)
      ]

  priced-IsGoverned :
      (plan : NormalizedPlan) (estimated : Result CostEstimate) (o : Outcome)
      → priced sha256 show ask env request config plan estimated ≡ ok o
      → IsGoverned o
  unfolding priced
  priced-IsGoverned plan (raise (finops e)) o h = unpriced-IsGoverned plan e o h
  priced-IsGoverned plan (raise invalid_operation) o h = cc
  priced-IsGoverned plan (raise key_error) o h = cc
  priced-IsGoverned plan (ok estimate) o h =
      let (d, evaluated, p) = >>=-eq-ok (evaluate estimate config []) _ h in
      let (x, _, q) = >>=-eq-ok (analyze ask plan estimate d config.ai) _ p in
      finish-IsGoverned plan estimate d _ x.1 o
        (record {
          has_plan = refl;
          has_estimate = refl;
          has_decision = refl;
          evaluated = evaluated;
        })
        refl q

  with_plan-IsGoverned :
      (estimator : CostEstimator) (p : Result NormalizedPlan) (o : Outcome)
      → with_plan sha256 show ask env request config estimator p ≡ ok o
      → IsGoverned o
  unfolding with_plan
  with_plan-IsGoverned estimator (raise (finops e)) o h =
      rw (← ok-injective h) (no_lock-IsGoverned _ (λ passed. cc))
  with_plan-IsGoverned estimator (raise invalid_operation) o h = cc
  with_plan-IsGoverned estimator (raise key_error) o h = cc
  with_plan-IsGoverned estimator (ok plan) o h =
      let (a, _, p) = >>=-eq-ok (load_action_plan show request.action_plan) _ h in
      elim (Bool-cases (request.require_baseline && no_baseline request.baseline_plan)) [
        | inl stop ↦ unpriced-IsGoverned plan baseline_unavailable_error o (rw stop at p)
        | inr go ↦ priced-IsGoverned plan _ o (rw go at p)
      ]

  -- A run passes, and exits with 0, only if it holds a plan, an estimate and a decision, the
  -- decision is what the policy says of that estimate with no upstream error, and it is a pass.
  pub run_gate-pass :
      (estimator : CostEstimator) (o : Outcome)
      → run_gate sha256 show ask env request config estimator ≡ ok o
      → exit_code o.0 ≡ 0
      → (plan : NormalizedPlan) × (estimate : CostEstimate) × (decision : PolicyDecision) × RestsOn
          config o.0 plan estimate decision
        × (decision.status ≡ pass)
  unfolding run_gate exit_code
  run_gate-pass estimator o h passed =
      (with_plan-IsGoverned estimator (normalize_plan_file show request.proposed_plan) o h).0
        (ground (arith, passed))

  -- A run writes a cost lock only if it passes and locks are allowed; the lock that is written is
  -- the one in the result, and it verifies for the plan, the stack and the configuration of the run.
  pub run_gate-lock :
      (estimator : CostEstimator) (o : Outcome) (lock : Fields)
      → run_gate sha256 show ask env request config estimator ≡ ok o
      → o.1 ≡ some lock
      → (plan : NormalizedPlan) × (o.0.plan ≡ some plan)
        × (o.0.status ≡ pass)
        × (o.0.cost_lock ≡ some lock)
        × (request.allow_cost_lock ≡ true)
        × (verify_cost_lock sha256 lock plan config request.stack ≡ [])
  unfolding run_gate
  run_gate-lock estimator o lock h =
      (with_plan-IsGoverned estimator (normalize_plan_file show request.proposed_plan) o h).1 lock

  blind :
      (estimator other : CostEstimator) (p : Result NormalizedPlan)
      → request.require_baseline ≡ true
      → no_baseline request.baseline_plan ≡ true
      → with_plan sha256 show ask env request config estimator p
        ≡ with_plan sha256 show ask env request config other p
  unfolding with_plan
  blind estimator other (raise (finops e)) required absent = refl
  blind estimator other (raise invalid_operation) required absent = refl
  blind estimator other (raise key_error) required absent = refl
  blind estimator other (ok plan) required absent = rw (required, absent) refl

  closed :
      (estimator : CostEstimator) (p : Result NormalizedPlan) (o : Outcome)
      → request.require_baseline ≡ true
      → no_baseline request.baseline_plan ≡ true
      → with_plan sha256 show ask env request config estimator p ≡ ok o
      → (o.0.status ≡ error) × (exit_code o.0 ≡ 2) × (o.1 ≡ none)
  unfolding with_plan unpriced exit_code
  closed estimator (raise (finops e)) o required absent h = rw (← ok-injective h) (refl, refl, refl)
  closed estimator (raise invalid_operation) o required absent h = cc
  closed estimator (raise key_error) o required absent h = cc
  closed estimator (ok plan) o required absent h =
      let (a, _, p) = >>=-eq-ok (load_action_plan show request.action_plan) _ h in
      let (d, _, q) =
        >>=-eq-ok (evaluate (empty_estimate config) config (baseline_unavailable_error ∷ [])) _
          (rw (required, absent) at p) in
      rw (← ok-injective q) (refl, refl, refl)

  -- Where a baseline is required and there is none, a run does not depend on the estimator, and a
  -- run that returns is an ERROR that exits with 2 and writes no lock.
  pub run_gate-no_baseline :
      (estimator other : CostEstimator)
      → request.require_baseline ≡ true
      → no_baseline request.baseline_plan ≡ true
      → (run_gate sha256 show ask env request config estimator
          ≡ run_gate sha256 show ask env request config other)
        × ((o : Outcome)
            → run_gate sha256 show ask env request config estimator ≡ ok o
            → (o.0.status ≡ error) × (exit_code o.0 ≡ 2) × (o.1 ≡ none))
  unfolding run_gate exit_code
  run_gate-no_baseline estimator other required absent =
      let p = normalize_plan_file show request.proposed_plan in
      (blind estimator other p required absent, λ o. closed estimator p o required absent)
