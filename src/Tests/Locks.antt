-- ===== src/Tests/Locks.antt =====
-- Witnesses for the theorems on the cost lock and on the budget exception.
use finops_cost_engine_poc.Plan.Normalizer.{shown}
use finops_cost_engine_poc.Prelude.{
  ◌+◌, ◌*◌, ◌<◌, ℤ, String, true, List, [], ◌∷◌, Option, none, some, ◌≡◌, ◌↔◌, ◌⊎◌, inl, inr, refl,
  arith, str_eq, ◌==◌, if◌then◌else◌,
}
use finops_cost_engine_poc.Prelude.Text.{strip, drop_last, lower}
use finops_cost_engine_poc.Json.{Json, obj, Fields, end, field, push, truthy, get, equals_optional}
use finops_cost_engine_poc.Decimal.{as_float_decimal, money}
use finops_cost_engine_poc.Errors.{ok}
use finops_cost_engine_poc.Models.{fingerprint_payload, is_authoritative}
use finops_cost_engine_poc.Config.{Config}
use finops_cost_engine_poc.CostLock.{integrity, lock_body, create_cost_lock, verify_cost_lock}
use finops_cost_engine_poc.CostLock.Binding.{IsBound, verify_cost_lock_iff}
use finops_cost_engine_poc.CostLock.Issue.{issue-verify, issue-verify_plan, issue-verify_stack}
use finops_cost_engine_poc.Exception.{
  Clock, Approval, Target, Review, day, parse_ts, resolved_variables_hash, create_exception,
  exception_body, verify_exception, authorisation_problems, exception_binding_problems,
  verify_environment_approval, is_usable, review_problems, allowlist, author_of, named_problems,
  first_usable,
}
use finops_cost_engine_poc.Exception.Authorised.{
  gated_iff, bindings_iff, IsBoundTo, verify_environment_approval_iff,
}
use finops_cost_engine_poc.Exception.Reviewed.{IsAuthorisedBy, verify_exception-authorised}
use finops_cost_engine_poc.Exception.Create.{second, create_exception-verify}
use finops_cost_engine_poc.Tests.{units, policy, policy_of, estimate, plan, hash, shown_as}
use finops_cost_engine_poc.Tests.Policies.{passed, exceeded}

abbrev lock : Fields
lock =
    let body =
      lock_body hash (passed 200) estimate plan "abc" "run 1" (some "web") "lock 1" "now"
        (units 150) in
    push "integrity" (Json.text (integrity hash body)) body

lock_is :
    create_cost_lock hash
      (passed 200)
      estimate
      plan
      policy
      "abc"
      "run 1"
      (some "web")
      "lock 1"
      "now"
    ≡ ok lock
unfolding create_cost_lock is_authoritative as_float_decimal
lock_is = refl

verified_is : verify_cost_lock hash lock plan policy (some "web") ≡ []
verified_is =
    issue-verify hash (passed 200) estimate plan policy "abc" "run 1" (some "web") "lock 1" "now"
      (some "web") lock_is refl refl (inr refl)

verify_cost_lock_iff_example :
    (verify_cost_lock hash lock plan policy (some "web") ≡ [])
    ↔ IsBound hash lock plan policy (some "web")
verify_cost_lock_iff_example = verify_cost_lock_iff hash lock plan policy (some "web")

issue-verify_example : verify_cost_lock hash lock plan policy none ≡ []
issue-verify_example =
    issue-verify hash (passed 200) estimate plan policy "abc" "run 1" (some "web") "lock 1" "now"
      none lock_is refl refl (inl refl)

issue-verify_plan_example : fingerprint_payload plan ≡ fingerprint_payload plan
issue-verify_plan_example =
    issue-verify_plan hash (passed 200) estimate plan policy "abc" "run 1" (some "web") "lock 1"
      "now" plan policy (some "web") (λ _. refl) lock_is refl verified_is

issue-verify_stack_example : ◌≡◌ {A = Option String} (some "web") (some "web")
issue-verify_stack_example =
    issue-verify_stack hash (passed 200) estimate plan policy "abc" "run 1" (some "web") "lock 1"
      "now" plan policy "web" lock_is verified_is

-- a clock that knows two instants
abbrev pub clock : Clock
clock = record {
  read = λ s. if str_eq s "2026-01-01T00:00:00+00:00" then some 0 else some (30 * day);
  print = λ t. if t == 0 then "2026-01-01T00:00:00Z" else "2026-01-31T00:00:00Z";
}

abbrev pub tight : Config
tight = policy_of "incremental_monthly_cost" (units 100)

abbrev pub approval : Approval
approval = record {
  pr_number = some 7;
  head_sha = "abc";
  approver = "ann";
  justification = "launch";
  stack = some "web";
  terraform_dir = none;
  max_incremental_cost = some (units 160);
  ttl_days = none;
}

abbrev variables_document : Json
variables_document = obj (
    field "variables" (obj (field "region" (obj (field "value" (Json.text "eu-west-1") end)) end))
      end)

abbrev pub product : ℤ → ℤ → ℤ
product a b = units 300

abbrev budget_exception : Fields
budget_exception =
    let body =
      exception_body hash clock exceeded estimate plan approval "id 1" "sha256:region" (units 150)
        (units 160) 0 30 in
    push "integrity" (Json.text (integrity hash body)) body

exception_is :
    create_exception hash clock product exceeded estimate plan variables_document tight approval
      "id 1" 0
    ≡ ok budget_exception
unfolding create_exception is_authoritative strip money resolved_variables_hash truthy get
exception_is = refl

abbrev pub run_target : Target
run_target = record {
  pr_number = some 7;
  head_sha = some "abc";
  stack = some "web";
  terraform_dir = none;
  now = day;
}

reads_start : parse_ts clock (Json.text "2026-01-01T00:00:00Z") ≡ some (second 0)
unfolding parse_ts second strip drop_last
reads_start = refl

reads_end : parse_ts clock (Json.text "2026-01-31T00:00:00Z") ≡ some (second (0 + 30 * day))
unfolding parse_ts second strip drop_last
reads_end = refl

early : day < second (0 + 30 * day)
unfolding second
early = omega arith

create_exception-verify_run :
    verify_environment_approval hash clock budget_exception plan variables_document estimate tight
      run_target
      (some "pull_request")
    ≡ ok []
create_exception-verify_run =
    create_exception-verify hash clock product exceeded estimate plan variables_document tight
      approval "id 1" 0 day "pull_request" reads_start reads_end exception_is refl refl refl early
      (inl refl)

verify_environment_approval_iff_example :
    (verify_environment_approval hash clock budget_exception plan variables_document estimate tight
        run_target
        (some "schedule")
      ≡ ok [])
    ↔ ((tight.exceptions.enabled ≡ true)
        × IsBoundTo hash clock budget_exception plan variables_document estimate tight run_target
        × (◌≡◌ {A = Option String} (some "schedule") (some "pull_request")
            ⊎ ◌≡◌ {A = Option String} (some "schedule") (some "workflow_dispatch")))
verify_environment_approval_iff_example =
    verify_environment_approval_iff hash clock budget_exception plan variables_document estimate
      tight run_target (some "schedule")

abbrev review : Review
review = record { state = "APPROVED"; login = "Ann"; commit_id = some "abc" }

reviewed :
    authorisation_problems shown_as budget_exception
      (some (review ∷ []))
      (some "bob")
      tight.exceptions
    ≡ []
unfolding authorisation_problems review_problems allowlist strip lower named_problems first_usable
    is_usable author_of equals_optional get push exception_body shown
reviewed = refl

bound : IsBoundTo hash clock budget_exception plan variables_document estimate tight run_target
bound =
    let (_, b, _) =
      (verify_environment_approval_iff hash clock budget_exception plan variables_document estimate
          tight run_target (some "pull_request")).0
        create_exception-verify_run in
    b

verified_exception :
    verify_exception hash shown_as clock budget_exception plan variables_document estimate tight
      run_target
      (some "bob")
      (some (review ∷ []))
    ≡ ok []
unfolding verify_exception
verified_exception =
    (gated_iff true
        (exception_binding_problems hash clock budget_exception plan variables_document estimate
          tight run_target)
        (authorisation_problems shown_as budget_exception (some (review ∷ [])) (some "bob")
          tight.exceptions)).1
      (
        refl,
        (bindings_iff hash clock budget_exception plan variables_document estimate tight
              run_target).1
            bound,
        reviewed,
      )

verify_exception-authorised_example :
    (tight.exceptions.enabled ≡ true)
    × IsBoundTo hash clock budget_exception plan variables_document estimate tight run_target
    × (tight.exceptions.require_review_approval ≡ true
        → (rs : List Review) × (r : Review) × (some (review ∷ []) ≡ some rs)
          × IsAuthorisedBy shown_as budget_exception (some "bob") tight.exceptions rs r)
verify_exception-authorised_example =
    verify_exception-authorised hash shown_as clock budget_exception plan variables_document
      estimate tight run_target (some "bob") (some (review ∷ [])) verified_exception
