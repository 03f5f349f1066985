-- ===== src/Exception/Create.antt =====
-- What `create_exception` approves, and that what it writes authorises the run it was written for.
use finops_cost_engine_poc.Prelude.{
  ℕ, zero, suc, ◌+◌, ◌*◌, ◌/◌, ◌≤◌, ◌<◌, ℤ, pos, negsuc, pos_part, neg_part, neg_of, ltb_ℤ, ◌≤ℤ◌,
  ◌<ℤ◌, eqb_ℤ_refl, String, Bool, true, false, not, ◌&&◌, ◌||◌, ◌≡◌, ◌≢◌, ◌⊎◌, inl, inr, refl, ap,
  [], Option, none, some, arith, str_eq, eq_iff, ltb,
}
use mathlib.Core.Option.{some-injective}
use finops_cost_engine_poc.Prelude.Text.{strip}
use finops_cost_engine_poc.Json.{Json, text, Fields, get, push, without, equals_number, optional}
use finops_cost_engine_poc.Decimal.{one_unit, money, round_cents}
use finops_cost_engine_poc.Errors.{
  Message, Result, ok, raise_if, ok-injective, >>=-eq-ok, policy_error,
}
use finops_cost_engine_poc.Models.{
  fail, authoritative, CostEstimate, NormalizedPlan, PolicyDecision, is_authoritative,
}
use finops_cost_engine_poc.Config.{Config}
use finops_cost_engine_poc.CostLock.{integrity}
use finops_cost_engine_poc.Exception.{
  Clock, Approval, Target, day, parse_ts, is_fail, amount_or, count_or, wrong_number,
  optional_count, resolved_variables_hash, exception_body, create_exception,
  verify_environment_approval,
}
use finops_cost_engine_poc.Exception.Authorised.{verify_environment_approval_iff}

raise_if-ok :
    (b : Bool) (m : Message) {u : Unit {0}} → raise_if b (policy_error m) ≡ ok u → b ≡ false
raise_if-ok true m h = cc
raise_if-ok false m h = refl

within : (a b : ℤ) → ltb_ℤ b a ≡ false → a ≤ℤ b
within a b h = ground arith

limited : (a b c : ℤ) → pos 0 <ℤ a → (ltb_ℤ (pos 0) a && ltb_ℤ c b) ≡ false → b ≤ℤ c
limited a b c positive h = ground arith

round_cents_mono : (a b : ℕ) → a ≤ b → round_cents a ≤ round_cents b
unfolding round_cents
round_cents_mono a b h = omega arith

neg_of_parts : (n : ℕ) → (pos_part (neg_of n) ≡ 0) × (neg_part (neg_of n) ≡ n)
neg_of_parts zero = (refl, refl)
neg_of_parts (suc n) = (refl, refl)

-- `money` keeps the order.
money_mono : (a b : ℤ) → a ≤ℤ b → money (some a) ≤ℤ money (some b)
unfolding money
money_mono (pos a) (pos b) h = let r = round_cents_mono a b (omega arith) in omega arith
money_mono (pos a) (negsuc b) h = absurd (omega arith)
money_mono (negsuc a) (pos b) h = let (p, q) = neg_of_parts (round_cents (suc a)) in omega arith
money_mono (negsuc a) (negsuc b) h =
    let (p, q) = neg_of_parts (round_cents (suc a)) in
    let (p', q') = neg_of_parts (round_cents (suc b)) in
    let r = round_cents_mono (suc b) (suc a) (omega arith) in omega arith

-- a lifetime in whole days, from an instant that is cut to its second
unfoldable pub second : ℕ → ℕ
second t = (t / 1000000) * 1000000

second-day : (t n m : ℕ) → n ≤ m → second (t + n * day) ≤ second t + m * day
unfolding second
second-day t n m h = omega arith

right_number : (n : Option ℕ) → wrong_number (optional_count n) n ≡ false
unfolding equals_number
right_number none = refl
right_number (some n) = rw (eqb_ℤ_refl (pos (n * one_unit))) refl

module _ (sha256 : Json → String) (clock : Clock) (scale : ℤ → ℤ → ℤ) (decision : PolicyDecision)
    (estimate : CostEstimate) (plan : NormalizedPlan) (plan_doc : Json) (config : Config)
    (a : Approval) (exception_id : String) (created : ℕ) where
  abbrev written : Result Fields
  written =
      create_exception sha256 clock scale decision estimate plan plan_doc config a exception_id
        created

  -- the approved cost, the ceiling and the days
  abbrev approved : ℤ
  approved = money (some estimate.incremental_monthly_cost)

  abbrev ceiling : ℤ
  ceiling = amount_or approved a.max_incremental_cost

  abbrev ttl : ℕ
  ttl = count_or config.exceptions.max_ttl_days a.ttl_days

  abbrev sealed : String → Fields
  sealed variables =
      let body =
        exception_body sha256 clock decision estimate plan a exception_id variables approved ceiling
          created ttl in
      push "integrity" (text (integrity sha256 body)) body

  abbrev pub Approves : Fields → Type 0
  Approves r =
      (decision.status ≡ fail)
      × (estimate.trust ≡ authoritative)
      × (strip a.justification ≢ "")
      × (approved ≤ℤ ceiling)
      × ((pos 0 <ℤ approved) → ceiling ≤ℤ scale approved config.exceptions.max_ceiling_ratio)
      × ((1 ≤ ttl) × (ttl ≤ config.exceptions.max_ttl_days))
      × ((variables : String) × (resolved_variables_hash sha256 plan_doc ≡ ok variables)
          × (sealed variables ≡ r))

  pub create_exception-Approves : {r : Fields} → written ≡ ok r → Approves r
  unfolding create_exception is_authoritative
  create_exception-Approves h =
      let (_, h1, r1) =
        >>=-eq-ok
          (raise_if (not (is_fail decision.status)) (policy_error Message.exception_not_fail)) _
          h in
      let (_, h2, r2) =
        >>=-eq-ok
          (raise_if (not (is_authoritative estimate))
            (policy_error Message.exception_non_authoritative))
          _ r1 in
      let (_, h3, r3) =
        >>=-eq-ok
          (raise_if (str_eq (strip a.justification) "") (policy_error Message.no_justification)) _
          r2 in
      let (_, h4, r4) =
        >>=-eq-ok (raise_if (ltb_ℤ ceiling approved) (policy_error Message.ceiling_below_approved))
          _ r3 in
      let (_, h5, r5) =
        >>=-eq-ok
          (raise_if
            (ltb_ℤ (pos 0) approved
              && ltb_ℤ (scale approved config.exceptions.max_ceiling_ratio) ceiling)
            (policy_error Message.ceiling_above_headroom))
          _ r4 in
      let (_, h6, r6) =
        >>=-eq-ok
          (raise_if (ltb ttl 1 || ltb config.exceptions.max_ttl_days ttl)
            (policy_error Message.bad_ttl))
          _ r5 in
      let (variables, found, r7) = >>=-eq-ok (resolved_variables_hash sha256 plan_doc) _ r6 in
      let p1 = raise_if-ok _ Message.exception_not_fail h1 in
      let p2 = raise_if-ok _ Message.exception_non_authoritative h2 in
      let p3 = raise_if-ok _ Message.no_justification h3 in
      let p4 = raise_if-ok _ Message.ceiling_below_approved h4 in
      let p5 = raise_if-ok _ Message.ceiling_above_headroom h5 in
      let p6 = raise_if-ok _ Message.bad_ttl h6 in
      (
        ground (arith, p1),
        ground (arith, p2),
        λ e. ground (arith, p3, (eq_iff (strip a.justification) "").1 e),
        within approved ceiling p4,
        λ positive.
            limited approved ceiling (scale approved config.exceptions.max_ceiling_ratio) positive
              p5,
        (ground (arith, p6), ground (arith, p6)),
        (variables, found, ok-injective r7),
      )

  -- The run that a record was written for: the same pull request, head, stack and root, later on.
  abbrev target_at : ℕ → Target
  target_at now = record {
    pr_number = a.pr_number;
    head_sha = some a.head_sha;
    stack = a.stack;
    terraform_dir = a.terraform_dir;
    now = now;
  }

  pub create_exception-verify :
      {r : Fields} (now : ℕ) (event : String)
      → parse_ts clock (text (clock.print created)) ≡ some (second created)
      → parse_ts clock (text (clock.print (created + ttl * day)))
        ≡ some (second (created + ttl * day))
      → written ≡ ok r
      → config.exceptions.enabled ≡ true
      → decision.threshold_value ≡ config.threshold.value
      → decision.metric ≡ config.threshold.metric
      → now < second (created + ttl * day)
      → (event ≡ "pull_request") ⊎ (event ≡ "workflow_dispatch")
      → verify_environment_approval sha256 clock r plan plan_doc estimate config
          (target_at now)
          (some event)
        ≡ ok []
  unfolding exception_body get push without integrity equals_number
  create_exception-verify {r} now event reads_start reads_end made on same_value same_metric early
        gated =
      let (_, trusted, _, above, _, (_, short), (variables, found, made')) =
        create_exception-Approves made in
      rw (← made') (
        (verify_environment_approval_iff sha256 clock (sealed variables) plan plan_doc estimate
            config (target_at now) (some event)).1
          (
            on,
            record {
              trusted = trusted;
              same_stack = λ s e. ap optional e;
              same_terraform_dir = λ s e. ap optional e;
              same_schema = refl;
              intact = refl;
              approved = refl;
              decision_kept = refl;
              same_plan = refl;
              same_variables = (variables, found, refl);
              below_ceiling = (ceiling, refl, money_mono approved ceiling above);
              same_currency = refl;
              same_threshold = rw same_value (eqb_ℤ_refl (money (some config.threshold.value)));
              same_metric = ap text same_metric;
              fresh = (
                second created,
                second (created + ttl * day),
                reads_start,
                reads_end,
                early,
                second-day created ttl config.exceptions.max_ttl_days short,
              );
              same_pr = right_number a.pr_number;
              same_head = λ s e. ap text (some-injective _ _ e);
            },
            elim gated [ inl e ↦ inl (ap some e) | inr e ↦ inr (ap some e) ],
          ))
