-- ===== src/CostLock/Binding.antt =====
-- What a lock binds: a fresh lock verifies, and a lock that verifies was issued for this plan.
use finops_cost_engine_poc.Prelude.{
  pos, String, Bool, true, false, not, ◌≡◌, ◌⊎◌, ◌↔◌, inl, inr, refl, sym, ◌∙◌, ap, List, [],
  Option, none, some, arith, str_eq, eq_iff, Bool-cases, note_if, ◌<>◌,
}
use mathlib.Core.Option.{some-injective}
use package.text.Mathlib.TextLemmas.{cons-append, cons-ne-nil}
use finops_cost_engine_poc.Json.{
  Json, text, obj, Fields, get, without, truthy, equals_text, equals_number,
}
use finops_cost_engine_poc.Decimal.{one_unit, money}
use finops_cost_engine_poc.Models.{NormalizedPlan, canonical_hash, fingerprint}
use finops_cost_engine_poc.Config.{Config}
use finops_cost_engine_poc.CostLock.{
  schema_version, integrity, integrity_problems, verify_cost_lock, wrong_stack,
}

module _ (sha256 : Json → String) where
  -- The recorded bindings of a lock, read off its fields.
  pub record IsBound (lock : Fields) (plan : NormalizedPlan) (config : Config)
      (stack : Option String) : Type 0 where
    pub same_stack : (s : String) → stack ≡ some s → get "stack" lock ≡ text s
    pub same_schema : get "schema_version" lock ≡ text schema_version
    pub intact : get "integrity" lock ≡ text (integrity sha256 lock)
    pub approved : get "status" lock ≡ text "APPROVED"
    pub trusted :
        (get "estimator_trust" lock ≡ text "AUTHORITATIVE")
        ⊎ (config.cost_estimation.allow_non_authoritative_lock ≡ true)
    pub same_plan :
        config.cost_lock.bind_to_plan_fingerprint ≡ true
        → get "plan_fingerprint" lock ≡ text (fingerprint sha256 plan)
    pub same_threshold :
        equals_number (get "threshold" lock) (pos one_unit) (money (some config.threshold.value))
        ≡ true
    pub same_metric : get "threshold_metric" lock ≡ text config.threshold.metric

abbrev text_or : String → Json → String
text_or d (text s) = s
text_or d _ = d

pub equals_text_iff : (v : Json) (s : String) → (equals_text v s ≡ true) ↔ (v ≡ text s)
unfolding equals_text
equals_text_iff (text t) s =
    (λ h. ap text ((eq_iff t s).0 h), λ e. (eq_iff t s).1 (ap (text_or s) e))
equals_text_iff v s = (λ h. cc, λ e. cc)

no_note_iff :
    {A : Type 0} (b : Bool) (x : A) (rest : List A)
    → (note_if b x rest ≡ []) ↔ ((b ≡ false) × (rest ≡ []))
no_note_iff true x rest = (λ h. cc, λ h. cc)
no_note_iff false x rest = (λ h. (refl, h), λ h. h.1)

pub wrong_stack_iff :
    (v : Json) (stack : Option String)
    → (wrong_stack v stack ≡ false) ↔ ((s : String) → stack ≡ some s → v ≡ text s)
wrong_stack_iff v none = (λ _ s e. cc, λ _. refl)
wrong_stack_iff v (some s) = (
  λ h t e. (equals_text_iff v t).0 (ground (arith, h, e, some-injective s t e)),
  λ h. ground (arith, (equals_text_iff v s).1 (h s refl)),
)

hash_nonempty : (x : String) → str_eq ("sha256:" <> x) "" ≡ false
hash_nonempty x = elim (Bool-cases (str_eq ("sha256:" <> x) "")) [
  | inl e ↦
      absurd
        (cons-ne-nil "s" ("ha256:" <> x) (sym (cons-append "s" "ha256:" x) ∙ (eq_iff _ "").0 e))
  | inr e ↦ e
]

truthy_text : (s : String) → truthy (text s) ≡ not (str_eq s "")
unfolding truthy
truthy_text s = refl

pub truthy_hash :
    (sha256 : Json → String) (v : Json) → truthy (text (canonical_hash sha256 v)) ≡ true
unfolding canonical_hash
truthy_hash sha256 v = rw (truthy_text, hash_nonempty)

integrity_iff :
    (sha256 : Json → String) (lock : Fields)
    → (integrity_problems sha256 lock ≡ []) ↔ (get "integrity" lock ≡ text (integrity sha256 lock))
unfolding integrity_problems integrity
integrity_iff sha256 lock =
    let v = get "integrity" lock in
    let h = integrity sha256 lock in
    (
      λ e. (equals_text_iff v h).0 (ground (arith, e)),
      λ e. ground (
        arith,
        (equals_text_iff v h).1 e,
        e,
        truthy_hash sha256 (obj (without "integrity" lock)),
      ),
    )

-- The list of problems is empty exactly when the lock is intact and every binding holds: the stack
-- that is asked for, the schema, the approval, the trusted estimator, the plan, the threshold and
-- its metric.
pub verify_cost_lock_iff :
    (sha256 : Json → String) (lock : Fields) (plan : NormalizedPlan) (config : Config)
    (stack : Option String)
    → (verify_cost_lock sha256 lock plan config stack ≡ []) ↔ IsBound sha256 lock plan config stack
unfolding verify_cost_lock
verify_cost_lock_iff sha256 lock plan config stack =
    let i = integrity_iff sha256 lock in
    let w = wrong_stack_iff (get "stack" lock) stack in
    let a = equals_text_iff (get "schema_version" lock) schema_version in
    let b = equals_text_iff (get "status" lock) "APPROVED" in
    let t = equals_text_iff (get "estimator_trust" lock) "AUTHORITATIVE" in
    let f = equals_text_iff (get "plan_fingerprint" lock) (fingerprint sha256 plan) in
    let m = equals_text_iff (get "threshold_metric" lock) config.threshold.metric in
    (
      λ e. record {
        same_stack = w.0 (ground (arith, e));
        same_schema = a.0 (ground (arith, e));
        intact = i.0 (ground (arith, e));
        approved = b.0 (ground (arith, e));
        trusted = ground (arith, e, t.0);
        same_plan = λ bind. f.0 (ground (arith, e, bind));
        same_threshold = ground (arith, e);
        same_metric = m.0 (ground (arith, e));
      },
      λ h. ground (
        arith,
        w.1 h.same_stack,
        a.1 h.same_schema,
        i.1 h.intact,
        b.1 h.approved,
        t.1,
        h.trusted,
        m.1 h.same_metric,
        h.same_threshold,
        f.1,
        h.same_plan,
      ),
    )
