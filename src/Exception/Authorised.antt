-- ===== src/Exception/Authorised.antt =====
-- What an exception must be to authorise a deployment.
use finops_cost_engine_poc.Prelude.{
  ℕ, ◌+◌, ◌*◌, ◌≤◌, ◌<◌, ℤ, pos, ltb_ℤ, ◌≤ℤ◌, String, Bool, true, false, not, ◌&&◌, ◌||◌, ◌≡◌, ◌≢◌,
  ◌⊎◌, ◌↔◌, inl, inr, refl, sym, ◌∙◌, ap, List, [], ◌∷◌, ◌++◌, Option, none, some, arith, note_if,
  if◌then◌else◌, eq_iff,
}
use mathlib.Core.Option.{some-injective}
use finops_cost_engine_poc.Json.{
  Json, null, bool, num, text, arr, obj, Fields, get, equals_number, without,
}
use finops_cost_engine_poc.Decimal.{one_unit, money}
use finops_cost_engine_poc.Errors.{
  finops, invalid_operation, key_error, Result, ok, raise, ◌>>=◌, ok-injective, >>=-eq-ok,
}
use finops_cost_engine_poc.Models.{
  CostEstimate, NormalizedPlan, authoritative, is_authoritative, fingerprint,
}
use finops_cost_engine_poc.Config.{Config}
use finops_cost_engine_poc.CostLock.{integrity}
use finops_cost_engine_poc.CostLock.Binding.{equals_text_iff, wrong_stack_iff, truthy_hash}
use finops_cost_engine_poc.Exception.{
  Clock, Target, Problem, day, exception_schema_version, parse_ts, wrong_number, ceiling_problems,
  freshness_problems, resolved_variables_hash, variables_problems, exception_integrity_problems,
  record_problems, policy_problems, exception_binding_problems, verify_environment_approval,
  is_gated_event,
}

-- A run is bound to its record: the estimator is trusted, the record is intact and approved with
-- its decision kept, and the change, its variables, its cost, the policy, the time, the pull
-- request and the place are those that were approved.
pub record IsBoundTo (sha256 : Json → String) (clock : Clock) (r : Fields) (plan : NormalizedPlan)
    (plan_doc : Json) (estimate : CostEstimate) (config : Config) (target : Target) : Type 0 where
  pub trusted : estimate.trust ≡ authoritative
  pub same_stack : (s : String) → target.stack ≡ some s → get "stack" r ≡ text s
  pub same_terraform_dir :
      (s : String) → target.terraform_dir ≡ some s → get "terraform_dir" r ≡ text s
  pub same_schema : get "schema_version" r ≡ text exception_schema_version
  pub intact : get "integrity" r ≡ text (integrity sha256 r)
  pub approved : get "status" r ≡ text "APPROVED"
  pub decision_kept : get "finops_decision" r ≡ text "FAIL"
  pub same_plan : get "plan_fingerprint" r ≡ text (fingerprint sha256 plan)
  pub same_variables :
      (h : String) × (resolved_variables_hash sha256 plan_doc ≡ ok h)
      × (get "resolved_variables_hash" r ≡ text h)
  pub below_ceiling :
      (c : ℤ) × (get "max_incremental_cost" r ≡ num c)
      × (money (some (money (some estimate.incremental_monthly_cost))) ≤ℤ money (some c))
  pub same_currency : get "currency" r ≡ text estimate.currency
  pub same_threshold :
      equals_number (get "threshold_value" r) (pos one_unit) (money (some config.threshold.value))
      ≡ true
  pub same_metric : get "threshold_metric" r ≡ text config.threshold.metric
  pub fresh :
      (approved_at expires_at : ℕ) × (parse_ts clock (get "approved_at" r) ≡ some approved_at)
      × (parse_ts clock (get "expires_at" r) ≡ some expires_at)
      × (target.now < expires_at)
      × (expires_at ≤ approved_at + config.exceptions.max_ttl_days * day)
  pub same_pr : wrong_number (get "pr" r) target.pr_number ≡ false
  pub same_head : (s : String) → target.head_sha ≡ some s → get "head_sha" r ≡ text s

append_nil_iff : {A : Type 0} (xs ys : List A) → (xs ++ ys ≡ []) ↔ ((xs ≡ []) × (ys ≡ []))
append_nil_iff [] ys = (λ h. (refl, h), λ h. h.1)
append_nil_iff (x ∷ xs) ys = (λ h. cc, λ h. cc)

abbrev num_or : ℤ → Json → ℤ
num_or d (num n) = n
num_or d _ = d

num-injective : {m n : ℤ} → num m ≡ num n → m ≡ n
num-injective {m} h = ap (num_or m) h

no_note_iff :
    {A : Type 0} (b : Bool) (x : A) (rest : List A)
    → (note_if b x rest ≡ []) ↔ ((b ≡ false) × (rest ≡ []))
no_note_iff true x rest = (λ h. cc, λ h. cc)
no_note_iff false x rest = (λ h. (refl, h), λ h. h.1)

not_below_iff : (a b : ℤ) → (ltb_ℤ a b ≡ false) ↔ (b ≤ℤ a)
not_below_iff a b = ground arith

ceiling_iff :
    (v : Json) (observed : ℤ)
    → (ceiling_problems v observed ≡ ok [])
      ↔ ((c : ℤ) × (v ≡ num c) × (money (some (money (some observed))) ≤ℤ money (some c)))
unfolding ceiling_problems
ceiling_iff (num c) observed = (
  λ h. (
    c,
    refl,
    (not_below_iff (money (some c)) (money (some (money (some observed))))).0
        ((no_note_iff _ Problem.above_ceiling []).0 (ok-injective h)).0,
  ),
  λ (x, e, le). ap ok (
      (no_note_iff _ Problem.above_ceiling []).1 (
        (not_below_iff (money (some c)) (money (some (money (some observed))))).1
            (rw (num-injective e) le),
        refl,
      )),
)
ceiling_iff null observed = (λ h. cc, λ h. cc)
ceiling_iff (bool b) observed = (λ h. cc, λ h. cc)
ceiling_iff (text s) observed = (λ h. cc, λ h. cc)
ceiling_iff (arr l) observed = (λ h. cc, λ h. cc)
ceiling_iff (obj d) observed = (λ h. cc, λ h. cc)

freshness_iff :
    (a e : Option ℕ) (now ttl : ℕ)
    → (freshness_problems a e now ttl ≡ []) ↔ (
        (approved_at expires_at : ℕ) × (a ≡ some approved_at)
        × (e ≡ some expires_at)
        × (now < expires_at)
        × (expires_at ≤ approved_at + ttl * day))
unfolding freshness_problems
freshness_iff (some x) (some y) now ttl = (
  λ h. (x, y, refl, refl, ground (arith, h), ground (arith, h)),
  λ (a, b, p, q, lt, le). ground (arith, some-injective x a p, some-injective y b q, lt, le),
)
freshness_iff none e now ttl = (λ h. cc, λ h. cc)
freshness_iff (some x) none now ttl = (λ h. cc, λ h. cc)

variables_iff :
    (v : Json) (current : Result String)
    → (variables_problems v current ≡ ok []) ↔ ((h : String) × (current ≡ ok h) × (v ≡ text h))
unfolding variables_problems
variables_iff v (ok h) = (
  λ p. (h, refl, (equals_text_iff v h).0 (ground (arith, ok-injective p))),
  λ (x, e, w). ap ok (ground (arith, (equals_text_iff v h).1 (w ∙ ap text (sym (ok-injective e))))),
)
variables_iff v (raise (finops e)) = (λ h. cc, λ h. cc)
variables_iff v (raise invalid_operation) = (λ h. cc, λ h. cc)
variables_iff v (raise key_error) = (λ h. cc, λ h. cc)

integrity_iff :
    (sha256 : Json → String) (r : Fields)
    → (exception_integrity_problems sha256 r ≡ []) ↔ (get "integrity" r ≡ text (integrity sha256 r))
unfolding exception_integrity_problems integrity
integrity_iff sha256 r =
    let v = get "integrity" r in
    let h = integrity sha256 r in
    (
      λ e. (equals_text_iff v h).0 (ground (arith, e)),
      λ e.
          ground
            (arith, (equals_text_iff v h).1 e, e, truthy_hash sha256 (obj (without "integrity" r))),
    )

pub disabled-ne-nil : {p : Problem} {ps : List Problem} → p ∷ ps ≢ []
disabled-ne-nil h = cc

pub no_problem_iff : (p : Problem) (b : Bool) → (note_if (not b) p [] ≡ []) ↔ (b ≡ true)
no_problem_iff p true = (λ h. refl, λ h. refl)
no_problem_iff p false = (λ h. cc, λ h. cc)

pub and_iff : (a b : Bool) → ((a && b) ≡ true) ↔ ((a ≡ true) × (b ≡ true))
and_iff a b = ground arith

or_iff : (a b : Bool) → ((a || b) ≡ true) ↔ ((a ≡ true) ⊎ (b ≡ true))
or_iff a b = ground arith

pub gated_iff :
    (b : Bool) (m : Result (List Problem)) (extra : List Problem)
    → ((if b then (m >>= λ ps. ok (ps ++ extra)) else ok (Problem.disabled ∷ [])) ≡ ok [])
      ↔ ((b ≡ true) × (m ≡ ok []) × (extra ≡ []))
gated_iff true (ok ps) extra = (
  λ h. let (e, x) = (append_nil_iff ps extra).0 (ok-injective h) in (refl, ap ok e, x),
  λ (_, e, x). ap ok ((append_nil_iff ps extra).1 (ok-injective e, x)),
)
gated_iff true (raise e) extra = (λ h. cc, λ h. cc)
gated_iff false m extra = (λ h. absurd (disabled-ne-nil (ok-injective h)), λ h. cc)

pub gated_event_iff :
    (e : Option String)
    → (is_gated_event e ≡ true) ↔ ((e ≡ some "pull_request") ⊎ (e ≡ some "workflow_dispatch"))
gated_event_iff none = (λ h. cc, λ h. ground arith)
gated_event_iff (some e) =
    let (a, a') = eq_iff e "pull_request" in
    let (b, b') = eq_iff e "workflow_dispatch" in
    (
      λ h. elim ((or_iff _ _).0 h) [ inl x ↦ inl (ap some (a x)) | inr x ↦ inr (ap some (b x)) ],
      λ h. (or_iff _ _).1 (elim h [
        | inl x ↦ inl (a' (some-injective _ _ x))
        | inr x ↦ inr (b' (some-injective _ _ x))
      ]),
    )

module _ (sha256 : Json → String) (clock : Clock) (r : Fields) (plan : NormalizedPlan)
    (plan_doc : Json) (estimate : CostEstimate) (config : Config) (target : Target) where
  abbrev Bindings : Type 0
  Bindings = IsBoundTo sha256 clock r plan plan_doc estimate config target

  parts_iff :
      (exception_binding_problems sha256 clock r plan plan_doc estimate config target ≡ ok []) ↔ (
        (record_problems sha256 r plan estimate target ≡ [])
        × (variables_problems
              (get "resolved_variables_hash" r)
              (resolved_variables_hash sha256 plan_doc)
            ≡ ok [])
        × (ceiling_problems (get "max_incremental_cost" r) estimate.incremental_monthly_cost
            ≡ ok [])
        × (policy_problems clock r estimate config target ≡ []))
  unfolding exception_binding_problems
  parts_iff =
      let variables =
        variables_problems (get "resolved_variables_hash" r)
          (resolved_variables_hash sha256 plan_doc) in
      let ceiling =
        ceiling_problems (get "max_incremental_cost" r) estimate.incremental_monthly_cost in
      (
        λ h.
            let (v, hv, p) = >>=-eq-ok variables _ h in
            let (c, hc, q) = >>=-eq-ok ceiling _ p in
            let (e1, t1) = (append_nil_iff _ _).0 (ok-injective q) in
            let (e2, t2) = (append_nil_iff v _).0 t1 in
            let (e3, e4) = (append_nil_iff c _).0 t2 in (e1, hv ∙ ap ok e2, hc ∙ ap ok e3, e4),
        λ (e1, e2, e3, e4). rw (e2, e3, e1, e4) refl,
      )

  pub bindings_iff :
      (exception_binding_problems sha256 clock r plan plan_doc estimate config target ≡ ok [])
      ↔ Bindings
  unfolding record_problems policy_problems is_authoritative
  bindings_iff =
      let i = integrity_iff sha256 r in
      let st = wrong_stack_iff (get "stack" r) target.stack in
      let td = wrong_stack_iff (get "terraform_dir" r) target.terraform_dir in
      let hd = wrong_stack_iff (get "head_sha" r) target.head_sha in
      let sc = equals_text_iff (get "schema_version" r) exception_schema_version in
      let ap' = equals_text_iff (get "status" r) "APPROVED" in
      let dk = equals_text_iff (get "finops_decision" r) "FAIL" in
      let fp = equals_text_iff (get "plan_fingerprint" r) (fingerprint sha256 plan) in
      let cu = equals_text_iff (get "currency" r) estimate.currency in
      let me = equals_text_iff (get "threshold_metric" r) config.threshold.metric in
      let vs =
        variables_iff (get "resolved_variables_hash" r) (resolved_variables_hash sha256 plan_doc) in
      let ce = ceiling_iff (get "max_incremental_cost" r) estimate.incremental_monthly_cost in
      let fr =
        freshness_iff (parse_ts clock (get "approved_at" r)) (parse_ts clock (get "expires_at" r))
          target.now config.exceptions.max_ttl_days in
      (
        λ h.
            let (e1, e2, e3, e4) = parts_iff.0 h in
            record {
              trusted = ground (arith, e1);
              same_stack = st.0 (ground (arith, e1));
              same_terraform_dir = td.0 (ground (arith, e1));
              same_schema = sc.0 (ground (arith, e1));
              intact = i.0 (ground (arith, e1));
              approved = ap'.0 (ground (arith, e1));
              decision_kept = dk.0 (ground (arith, e1));
              same_plan = fp.0 (ground (arith, e1));
              same_variables = vs.0 e2;
              below_ceiling = ce.0 e3;
              same_currency = cu.0 (ground (arith, e4));
              same_threshold = ground (arith, e4);
              same_metric = me.0 (ground (arith, e4));
              fresh = fr.0 (ground (arith, e4));
              same_pr = ground (arith, e4);
              same_head = hd.0 (ground (arith, e4));
            },
        λ b. parts_iff.1 (
          ground (
            arith,
            b.trusted,
            st.1 b.same_stack,
            td.1 b.same_terraform_dir,
            sc.1 b.same_schema,
            i.1 b.intact,
            ap'.1 b.approved,
            dk.1 b.decision_kept,
            fp.1 b.same_plan,
          ),
          vs.1 b.same_variables,
          ce.1 b.below_ceiling,
          ground (
            arith,
            cu.1 b.same_currency,
            b.same_threshold,
            me.1 b.same_metric,
            fr.1 b.fresh,
            b.same_pr,
            hd.1 b.same_head,
          ),
        ),
      )

  -- The environment's approval authorises a run exactly where exceptions are enabled, the run is
  -- bound to its record, and it is a pull request's or a manually dispatched one.
  pub verify_environment_approval_iff :
      (run_event : Option String)
      → (verify_environment_approval sha256 clock r plan plan_doc estimate config target run_event
          ≡ ok [])
        ↔ ((config.exceptions.enabled ≡ true)
            × Bindings
            × ((run_event ≡ some "pull_request") ⊎ (run_event ≡ some "workflow_dispatch")))
  unfolding verify_environment_approval
  verify_environment_approval_iff run_event =
      let found = exception_binding_problems sha256 clock r plan plan_doc estimate config target in
      let (from, to) =
        gated_iff config.exceptions.enabled found
          (note_if (not (is_gated_event run_event)) Problem.wrong_run_event []) in
      let (event, no_event) = no_problem_iff Problem.wrong_run_event (is_gated_event run_event) in
      let (named, known) = gated_event_iff run_event in
      (
        λ h. let (on, f, e) = from h in (on, bindings_iff.0 f, named (event e)),
        λ (on, b, e). to (on, bindings_iff.1 b, no_event (known e)),
      )
