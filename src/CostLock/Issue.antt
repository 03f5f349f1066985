-- ===== src/CostLock/Issue.antt =====
-- What `create_cost_lock` issues: the lock verifies for the change it was issued for, and for no
-- change with another fingerprint.
use finops_cost_engine_poc.Prelude.{
  ℤ, String, Bool, true, false, not, ◌&&◌, ◌≡◌, ◌⊎◌, refl, sym, ◌∙◌, ap, [], Option, none, some,
  arith, eqb_ℤ_refl,
}
use finops_cost_engine_poc.Json.{Json, text, Fields, get, without, push, equals_number, optional}
use finops_cost_engine_poc.Decimal.{money, as_float_decimal}
use finops_cost_engine_poc.Errors.{
  Message, Result, ok, raise_if, ok-injective, >>=-eq-ok, policy_error,
}
use finops_cost_engine_poc.Models.{
  pass, authoritative, CostEstimate, NormalizedPlan, PolicyDecision, is_authoritative, trust_value,
  fingerprint, fingerprint_payload,
}
use finops_cost_engine_poc.Config.{Config}
use finops_cost_engine_poc.CostLock.{
  schema_version, integrity, lock_body, create_cost_lock, verify_cost_lock, is_pass,
}
use finops_cost_engine_poc.CostLock.Binding.{verify_cost_lock_iff}

abbrev text_or : String → Json → String
text_or d (text s) = s
text_or d _ = d

text-injective : {s t : String} → text s ≡ text t → s ≡ t
text-injective {s} h = ap (text_or s) h

optional-eq_text : (o : Option String) (s : String) → optional o ≡ text s → o ≡ some s
optional-eq_text none s h = cc
optional-eq_text (some t) s h = ap some (text-injective h)

raise_if-ok :
    (b : Bool) (m : Message) {u : Unit {0}} → raise_if b (policy_error m) ≡ ok u → b ≡ false
raise_if-ok true m h = cc
raise_if-ok false m h = refl

abbrev pub sealed : (Json → String) → Fields → Fields
sealed sha256 body = push "integrity" (text (integrity sha256 body)) body

module _ (sha256 : Json → String) (decision : PolicyDecision) (estimate : CostEstimate)
    (plan : NormalizedPlan) (config : Config) (commit execution_id : String) (stack : Option String)
    (lock_id timestamp : String) where
  abbrev issue : Result Fields
  issue =
      create_cost_lock sha256 decision estimate plan config commit execution_id stack lock_id
        timestamp

  abbrev body : ℤ → Fields
  body = lock_body sha256 decision estimate plan commit execution_id stack lock_id timestamp

  -- A lock is issued only for a decision that passes, from an estimator that is trusted or that
  -- the configuration lets through; it is the body with its integrity hash.
  pub issued :
      {lock : Fields}
      → issue ≡ ok lock
      → (decision.status ≡ pass)
        × ((estimate.trust ≡ authoritative)
            ⊎ (config.cost_estimation.allow_non_authoritative_lock ≡ true))
        × ((observed : ℤ) × (as_float_decimal decision.observed_value ≡ ok observed)
            × (sealed sha256 (body observed) ≡ lock))
  unfolding create_cost_lock is_authoritative
  issued made =
      let (_, passes, r1) =
        >>=-eq-ok (raise_if (not (is_pass decision.status)) (policy_error Message.lock_not_pass)) _
          made in
      let (_, trusts, r2) =
        >>=-eq-ok
          (raise_if
            (not (is_authoritative estimate)
              && not config.cost_estimation.allow_non_authoritative_lock)
            (policy_error Message.lock_non_authoritative))
          _ r1 in
      let (observed, finite, r3) = >>=-eq-ok (as_float_decimal decision.observed_value) _ r2 in
      let p = raise_if-ok _ Message.lock_not_pass passes in
      let t = raise_if-ok _ Message.lock_non_authoritative trusts in
      (ground (arith, p), ground (arith, t), (observed, finite, ok-injective r3))

  -- The fields of a sealed body that `verify_cost_lock` reads.
  sealed_fields :
      (observed : ℤ)
      → let lock = sealed sha256 (body observed) in
        (get "stack" lock ≡ optional stack)
        × (get "schema_version" lock ≡ text schema_version)
        × (get "integrity" lock ≡ text (integrity sha256 lock))
        × (get "status" lock ≡ text "APPROVED")
        × (get "estimator_trust" lock ≡ text (trust_value estimate.trust))
        × (get "plan_fingerprint" lock ≡ text (fingerprint sha256 plan))
        × (get "threshold" lock ≡ Json.num (money (some decision.threshold_value)))
        × (get "threshold_metric" lock ≡ text decision.metric)
  unfolding get push lock_body integrity without
  sealed_fields observed = (refl, refl, refl, refl, refl, refl, refl, refl)

  -- A lock that was just issued has no problem: it verifies for its plan and its stack, or for no
  -- stack in particular, under the threshold and the metric that it was decided by.
  pub issue-verify :
      {lock : Fields} (requested : Option String)
      → issue ≡ ok lock
      → decision.threshold_value ≡ config.threshold.value
      → decision.metric ≡ config.threshold.metric
      → (requested ≡ none) ⊎ (requested ≡ stack)
      → verify_cost_lock sha256 lock plan config requested ≡ []
  unfolding equals_number trust_value
  issue-verify {lock} requested made same_value same_metric asked =
      let (_, trusts, (observed, _, made')) = issued made in
      let (st, sc, ig, ap', tr, fp, th, me) = sealed_fields observed in
      rw (← made') (
        (verify_cost_lock_iff sha256 (sealed sha256 (body observed)) plan config requested).1
          (record {
            same_stack = λ s e. st ∙ ground (arith, asked, e);
            same_schema = sc;
            intact = ig;
            approved = ap';
            trusted = ground (arith, tr, trusts);
            same_plan = λ _. fp;
            same_threshold = rw (th, same_value) (eqb_ℤ_refl (money (some config.threshold.value)));
            same_metric = me ∙ ap text same_metric;
          }))

  -- A lock that was issued for one plan verifies for another, where locks are bound to plans, only
  -- if both plans have the same cost-relevant changes, as far as SHA-256 does not collide on them.
  pub issue-verify_plan :
      {lock : Fields} (plan' : NormalizedPlan) (config' : Config) (requested : Option String)
      → (fingerprint sha256 plan ≡ fingerprint sha256 plan'
          → fingerprint_payload plan ≡ fingerprint_payload plan')
      → issue ≡ ok lock
      → config'.cost_lock.bind_to_plan_fingerprint ≡ true
      → verify_cost_lock sha256 lock plan' config' requested ≡ []
      → fingerprint_payload plan ≡ fingerprint_payload plan'
  issue-verify_plan {lock} plan' config' requested separates made bind verified =
      let (_, _, (observed, _, made')) = issued made in
      let (_, _, _, _, _, fp, _, _) = sealed_fields observed in
      let bound = (verify_cost_lock_iff sha256 lock plan' config' requested).0 verified in
      separates (text-injective (sym fp ∙ ap (get "plan_fingerprint") made' ∙ bound.same_plan bind))

  -- A lock that was issued for one stack verifies for no other stack.
  pub issue-verify_stack :
      {lock : Fields} (plan' : NormalizedPlan) (config' : Config) (s : String)
      → issue ≡ ok lock
      → verify_cost_lock sha256 lock plan' config' (some s) ≡ []
      → stack ≡ some s
  issue-verify_stack {lock} plan' config' s made verified =
      let (_, _, (observed, _, made')) = issued made in
      let (st, _, _, _, _, _, _, _) = sealed_fields observed in
      let bound = (verify_cost_lock_iff sha256 lock plan' config' (some s)).0 verified in
      optional-eq_text stack s (sym st ∙ ap (get "stack") made' ∙ bound.same_stack s refl)
