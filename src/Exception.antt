-- ===== src/Exception.antt =====
-- lock/exception.py: the budget exception, which accepts one specific overspend, and its checks.
-- Instants are microseconds since a fixed early one. A `Clock` is what `datetime` does: it reads an
-- ISO 8601 text (a naive one as UTC) and prints an instant to the second. `scale` is the product of
-- two floats. A review is what the GitHub API returns of one.
pub mod Create
pub mod Authorised
pub mod Reviewed
use finops_cost_engine_poc.Prelude.{
  ℕ, ◌+◌, ◌*◌, ℤ, pos, ltb_ℤ, String, ◌<>◌, Bool, true, false, not, ◌&&◌, ◌||◌, List, [], ◌∷◌, ◌++◌,
  Option, none, some, map, filterb, anyb, is_empty, str_eq, ltb, leb, ◌==◌, note_if, if◌then◌else◌,
}
use finops_cost_engine_poc.Prelude.Text.{lower, strip, drop_last}
use finops_cost_engine_poc.Json.{
  Json, null, bool, num, text, arr, obj, Fields, end, field, get, without, push, truthy,
  equals_text, equals_optional, equals_number, optional,
}
use finops_cost_engine_poc.Decimal.{one_unit, money}
use finops_cost_engine_poc.Errors.{
  Message, FinOpsError, Raised, finops, invalid_operation, key_error, Result, ok, raise, raise_if,
  ◌>>=◌, ◌>>◌, policy_error,
}
use finops_cost_engine_poc.Models.{
  Status, fail, CostEstimate, NormalizedPlan, PolicyDecision, is_authoritative, trust_value,
  canonical_hash, fingerprint,
}
use finops_cost_engine_poc.Config.{Config, ExceptionConfig}
use finops_cost_engine_poc.Plan.Normalizer.{shown}
use finops_cost_engine_poc.CostLock.{integrity, amount, count_of, wrong_stack}

abbrev pub exception_schema_version : String
exception_schema_version = "1.0"

pub record Clock : Type 0 where
  pub read : String → Option ℕ
  pub print : ℕ → String

-- one day, in microseconds
abbrev pub day : ℕ
day = 86400 * 1000000

pub data Problem : Type 0 where
  disabled untrusted other_stack other_terraform_dir bad_schema_version : Problem
  no_integrity bad_integrity not_approved decision_not_kept plan_modified : Problem
  no_variables_hash variables_changed no_ceiling above_ceiling currency_changed : Problem
  threshold_changed metric_changed bad_timestamp expired lifetime_too_long : Problem
  other_pr other_head no_review_data no_allowlist no_approved_review : Problem
  no_usable_approval other_approver wrong_run_event : Problem

-- `text[:-1] + "+00:00" if text.endswith("Z") else text`
abbrev with_offset : String → String
with_offset s = if str_eq (drop_last s <> "Z") s then drop_last s <> "+00:00" else s

-- `_parse_ts`; `none` stands for its `BudgetExceptionError`.
unfoldable pub parse_ts : Clock → Json → Option ℕ
parse_ts clock (text s) =
    let t = strip s in if str_eq t "" then none else clock.read (with_offset t)
parse_ts clock _ = none

-- `item.get("value")` of every variable: an item that is no dict has no `get`.
values_of : Fields → Result Fields
values_of end = ok end
values_of (field name (obj item) rest) = do
  others ← values_of rest
  ok (field name (get "value" item) others)
values_of (field name _ rest) = raise key_error

-- the items of a truthy `variables` block: only a dict has them
block_values : Json → Result Fields
unfolding values_of
block_values (obj block) = values_of block
block_values _ = raise key_error

-- `status is not Status.FAIL`
abbrev pub is_fail : Status → Bool
is_fail fail = true
is_fail _ = false

abbrev pub amount_or : ℤ → Option ℤ → ℤ
amount_or default none = default
amount_or default (some v) = v

abbrev pub count_or : ℕ → Option ℕ → ℕ
count_or default none = default
count_or default (some n) = n

abbrev pub optional_count : Option ℕ → Json
optional_count none = null
optional_count (some n) = count_of n

-- what `pr_number is not None and record.get("pr") != int(pr_number)` tests
abbrev pub wrong_number : Json → Option ℕ → Bool
wrong_number recorded none = false
wrong_number recorded (some n) = not (equals_number recorded (pos one_unit) (pos (n * one_unit)))

-- The arguments of `create_exception` behind the configuration.
pub record Approval : Type 0 where
  pub pr_number : Option ℕ
  pub head_sha : String
  pub approver : String
  pub justification : String
  pub stack : Option String
  pub terraform_dir : Option String
  pub max_incremental_cost : Option ℤ
  pub ttl_days : Option ℕ

-- What `_binding_problems` compares the record with.
pub record Target : Type 0 where
  pub pr_number : Option ℕ
  pub head_sha : Option String
  pub stack : Option String
  pub terraform_dir : Option String
  pub now : ℕ

-- A pull request review of the GitHub API.
pub record Review : Type 0 where
  pub state : String
  pub login : String
  pub commit_id : Option String

-- The test on the ceiling: `money` of a Boolean, which passes as an `int`, is an invalid operation.
unfoldable pub ceiling_problems : Json → ℤ → Result (List Problem)
ceiling_problems (num ceiling) observed = ok (
    note_if (ltb_ℤ (money (some ceiling)) (money (some (money (some observed)))))
      Problem.above_ceiling [])
ceiling_problems (bool _) observed = raise invalid_operation
ceiling_problems _ observed = ok (Problem.no_ceiling ∷ [])

-- the tests on freshness
unfoldable pub freshness_problems : Option ℕ → Option ℕ → ℕ → ℕ → List Problem
freshness_problems (some approved_at) (some expires_at) now ttl =
    note_if (leb expires_at now) Problem.expired
      (note_if (ltb (approved_at + ttl * day) expires_at) Problem.lifetime_too_long [])
freshness_problems _ _ now ttl = Problem.bad_timestamp ∷ []

-- `{a.strip().lower() for a in approvers if a.strip()}`
unfoldable pub allowlist : List String → List String
allowlist approvers =
    map (λ a. lower (strip a)) (filterb (λ a. not (str_eq (strip a) "")) approvers)

-- `str(r.get("state", "")).upper() == "APPROVED"`, in lower case
abbrev pub is_approval : Review → Bool
is_approval r = str_eq (lower r.state) "approved"

-- The first approval that is no self-approval, from the allowlist and for the recorded head.
unfoldable pub is_usable : Json → String → Bool → List String → Review → Bool
is_usable head_sha author barred allowed r =
    let low = lower (strip r.login) in
    not (barred && (not (str_eq author "") && str_eq low author))
    && (anyb (str_eq low) allowed && equals_optional head_sha r.commit_id)

unfoldable pub first_usable : Json → String → Bool → List String → List Review → Option Review
first_usable head_sha author barred allowed [] = none
first_usable head_sha author barred allowed (r ∷ rest) =
    if is_usable head_sha author barred allowed r
    then some r
    else first_usable head_sha author barred allowed rest

unfoldable pub author_of : Option String → String
author_of none = ""
author_of (some a) = lower (strip a)

-- the test on the approver's name, once `_authorising_review` has found a review
unfoldable pub named_problems : String → Option Review → List Problem
named_problems approver none = Problem.no_usable_approval ∷ []
named_problems approver (some r) =
    note_if (not (str_eq (lower (strip approver)) (lower (strip r.login)))) Problem.other_approver
      []

module _ (show : Json → String) where
  -- `_authorising_review`, and the test on the approver that follows it
  unfoldable pub review_problems :
      Fields → List Review → Option String → ExceptionConfig → List Problem
  review_problems record_ reviews pr_author c =
      let allowed = allowlist c.approvers in
      let approvals = filterb is_approval reviews in
      if is_empty allowed
      then Problem.no_allowlist ∷ []
      else if is_empty approvals
      then Problem.no_approved_review ∷ []
      else named_problems (shown show (get "approver" record_)) (
          first_usable (get "head_sha" record_) (author_of pr_author) c.require_non_author_approval
            allowed approvals)

  -- the part of `verify_exception` on the authorisation
  unfoldable pub authorisation_problems :
      Fields → Option (List Review) → Option String → ExceptionConfig → List Problem
  authorisation_problems record_ none pr_author c =
      note_if c.require_review_approval Problem.no_review_data []
  authorisation_problems record_ (some reviews) pr_author c =
      if c.require_review_approval then review_problems record_ reviews pr_author c else []

-- `run_event not in ("pull_request", "workflow_dispatch")`
abbrev pub is_gated_event : Option String → Bool
is_gated_event none = false
is_gated_event (some e) = str_eq e "pull_request" || str_eq e "workflow_dispatch"

-- `try: current_vars = ... except ... else: if record.get(...) != current_vars`
unfoldable pub variables_problems : Json → Result String → Result (List Problem)
variables_problems recorded (ok current) =
    ok (note_if (not (equals_text recorded current)) Problem.variables_changed [])
variables_problems recorded (raise (finops _)) = ok (Problem.no_variables_hash ∷ [])
variables_problems recorded (raise other) = raise other

-- the tests behind the one on the ceiling
unfoldable pub policy_problems : Clock → Fields → CostEstimate → Config → Target → List Problem
policy_problems clock record_ estimate config target =
    note_if (not (equals_text (get "currency" record_) estimate.currency)) Problem.currency_changed
      (note_if
        (not (
          equals_number (get "threshold_value" record_) (pos one_unit)
            (money (some config.threshold.value))))
        Problem.threshold_changed
        (note_if (not (equals_text (get "threshold_metric" record_) config.threshold.metric))
          Problem.metric_changed
          (freshness_problems (parse_ts clock (get "approved_at" record_))
              (parse_ts clock (get "expires_at" record_)) target.now config.exceptions.max_ttl_days
            ++ (note_if (wrong_number (get "pr" record_) target.pr_number) Problem.other_pr (
                note_if (wrong_stack (get "head_sha" record_) target.head_sha) Problem.other_head
                  [])))))

module _ (sha256 : Json → String) where
  hashed_variables : Json → Result String
  unfolding canonical_hash block_values
  hashed_variables block =
      if truthy block
      then (do values ← block_values block; ok (canonical_hash sha256 (obj values)))
      else raise (finops (policy_error Message.no_variables))

  -- `resolved_variables_hash`
  unfoldable pub resolved_variables_hash : Json → Result String
  unfolding hashed_variables
  resolved_variables_hash (obj plan_doc) = hashed_variables (get "variables" plan_doc)
  resolved_variables_hash _ = raise (finops (policy_error Message.plan_not_object))

  unfoldable pub exception_integrity_problems : Fields → List Problem
  exception_integrity_problems record_ =
      if not (truthy (get "integrity" record_))
      then Problem.no_integrity ∷ []
      else note_if (not (equals_text (get "integrity" record_) (integrity sha256 record_)))
          Problem.bad_integrity []

  -- the tests in front of the one on the resolved variables
  unfoldable pub record_problems : Fields → NormalizedPlan → CostEstimate → Target → List Problem
  record_problems record_ plan estimate target =
      note_if (not (is_authoritative estimate)) Problem.untrusted (
        note_if (wrong_stack (get "stack" record_) target.stack) Problem.other_stack (
          note_if (wrong_stack (get "terraform_dir" record_) target.terraform_dir)
            Problem.other_terraform_dir
            (note_if (not (equals_text (get "schema_version" record_) exception_schema_version))
              Problem.bad_schema_version
              (exception_integrity_problems record_
                ++ (note_if (not (equals_text (get "status" record_) "APPROVED"))
                    Problem.not_approved
                    (note_if (not (equals_text (get "finops_decision" record_) "FAIL"))
                      Problem.decision_not_kept
                      (note_if
                        (not
                          (equals_text (get "plan_fingerprint" record_) (fingerprint sha256 plan)))
                        Problem.plan_modified [])))))))

  -- `_binding_problems`
  unfoldable pub exception_binding_problems :
      Clock
      → Fields
      → NormalizedPlan
      → Json
      → CostEstimate
      → Config
      → Target
      → Result (List Problem)
  exception_binding_problems clock record_ plan plan_doc estimate config target = do
    variables ←
        variables_problems (get "resolved_variables_hash" record_)
          (resolved_variables_hash plan_doc)
    ceiling ←
        ceiling_problems (get "max_incremental_cost" record_) estimate.incremental_monthly_cost
    ok (
        record_problems record_ plan estimate target
        ++ (variables ++ (ceiling ++ policy_problems clock record_ estimate config target)))

  unfoldable pub verify_exception :
      (Json → String)
      → Clock
      → Fields
      → NormalizedPlan
      → Json
      → CostEstimate
      → Config
      → Target
      → Option String
      → Option (List Review)
      → Result (List Problem)
  verify_exception show clock record_ plan plan_doc estimate config target pr_author reviews =
      if config.exceptions.enabled
      then (do
        problems ← exception_binding_problems clock record_ plan plan_doc estimate config target
        ok (problems ++ authorisation_problems show record_ reviews pr_author config.exceptions))
      else ok (Problem.disabled ∷ [])

  unfoldable pub verify_environment_approval :
      Clock
      → Fields
      → NormalizedPlan
      → Json
      → CostEstimate
      → Config
      → Target
      → Option String
      → Result (List Problem)
  verify_environment_approval clock record_ plan plan_doc estimate config target run_event =
      if config.exceptions.enabled
      then (do
        problems ← exception_binding_problems clock record_ plan plan_doc estimate config target
        ok (problems ++ note_if (not (is_gated_event run_event)) Problem.wrong_run_event []))
      else ok (Problem.disabled ∷ [])

  -- the body of the record, before its integrity hash
  unfoldable pub exception_body :
      Clock
      → PolicyDecision
      → CostEstimate
      → NormalizedPlan
      → Approval
      → (exception_id variables : String) → (approved ceiling : ℤ) → (created ttl : ℕ) → Fields
  exception_body clock decision estimate plan a exception_id variables approved ceiling created
        ttl =
      field "schema_version" (text exception_schema_version) (
        field "exception_id" (text exception_id) (
          field "status" (text "APPROVED") (
            field "finops_decision" (text "FAIL") (
              field "stack" (optional a.stack) (
                field "terraform_dir" (optional a.terraform_dir) (
                  field "pr" (optional_count a.pr_number) (
                    field "head_sha" (text a.head_sha) (
                      field "plan_fingerprint" (text (fingerprint sha256 plan)) (
                        field "resolved_variables_hash" (text variables) (
                          field "currency" (text estimate.currency) (
                            field "approved_incremental_cost" (num approved) (
                              field "max_incremental_cost" (num ceiling) (
                                field "threshold_value" (amount decision.threshold_value) (
                                  field "threshold_metric" (text decision.metric) (
                                    field "approver" (text a.approver) (
                                      field "justification" (text (strip a.justification)) (
                                        field "approved_at" (text (clock.print created)) (
                                          field "expires_at"
                                            (text (clock.print (created + ttl * day)))
                                            (field "estimator" (text estimate.estimator) (
                                              field "estimator_version" estimate.estimator_version (
                                                field "estimator_trust"
                                                  (text (trust_value estimate.trust))
                                                  end)))))))))))))))))))))

  unfoldable pub create_exception :
      Clock
      → (ℤ → ℤ → ℤ)
      → PolicyDecision
      → CostEstimate
      → NormalizedPlan
      → Json
      → Config
      → Approval
      → (exception_id : String) → (created : ℕ) → Result Fields
  create_exception clock scale decision estimate plan plan_doc config a exception_id created = do
    raise_if (not (is_fail decision.status)) (policy_error Message.exception_not_fail)
    raise_if (not (is_authoritative estimate)) (policy_error Message.exception_non_authoritative)
    raise_if (str_eq (strip a.justification) "") (policy_error Message.no_justification)
    let approved = money (some estimate.incremental_monthly_cost)
    let ceiling = amount_or approved a.max_incremental_cost
    raise_if (ltb_ℤ ceiling approved) (policy_error Message.ceiling_below_approved)
    raise_if
        (ltb_ℤ (pos 0) approved
          && ltb_ℤ (scale approved config.exceptions.max_ceiling_ratio) ceiling)
        (policy_error Message.ceiling_above_headroom)
    let ttl = count_or config.exceptions.max_ttl_days a.ttl_days
    raise_if (ltb ttl 1 || ltb config.exceptions.max_ttl_days ttl) (policy_error Message.bad_ttl)
    variables ← resolved_variables_hash plan_doc
    let body =
        exception_body clock decision estimate plan a exception_id variables approved ceiling
          created ttl
    ok (push "integrity" (text (integrity sha256 body)) body)
