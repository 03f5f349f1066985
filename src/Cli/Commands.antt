-- ===== src/Cli/Commands.antt =====
-- cli.py: the commands that decide, and `main`; `build_approval_record` of lock/exception.py.
-- A command ends with an exit code and what it prints or writes for later steps.
use finops_cost_engine_poc.Prelude.{
  ℕ, ℤ, String, ◌<>◌, Bool, true, not, ◌||◌, List, [], Option, none, some, is_empty, map, str_eq,
  if◌then◌else◌,
}
use finops_cost_engine_poc.Json.{
  Json, text, Fields, end, get, equals_text, arr, of_list, optional, field,
}
use finops_cost_engine_poc.Errors.{Result, ok, raise, finops, ◌>>=◌}
use finops_cost_engine_poc.Models.{CostEstimate, PolicyDecision}
use finops_cost_engine_poc.Config.{Config}
use finops_cost_engine_poc.Plan.Normalizer.{FileContent, load_plan_json, normalize_plan_file}
use finops_cost_engine_poc.CostLock.{LockProblem, verify_cost_lock, count_of}
use finops_cost_engine_poc.Exception.{
  exception_schema_version, Clock, Problem, Approval, Target, Review, create_exception,
  verify_exception, verify_environment_approval,
}
use finops_cost_engine_poc.Gate.{ApprovalStates, evaluate_approval}
use finops_cost_engine_poc.Cli.Stored.{
  Ended, exit_pass, exit_fail, exit_error, load_cost_lock, load_exception, fields_of, read_json,
  rebuild_estimate, rebuilt,
}

abbrev pub is_authorized : ApprovalStates → Bool
is_authorized states = str_eq states.deployment_authorization "AUTHORIZED"

abbrev pub exit_of : Bool → ℕ
exit_of good = if good then exit_pass else exit_fail

-- `_cmd_authorize_deployment`
unfoldable pub cmd_authorize_deployment :
    ℕ → (exception_valid lock_not_verified : Bool) → Ended ApprovalStates
unfolding evaluate_approval
cmd_authorize_deployment exit_code exception_valid lock_not_verified =
    let problems : List Problem = [] in
    let states =
      evaluate_approval exit_code (if exception_valid then some "approve" else none) problems
        (not lock_not_verified) in
    record { exit = exit_of (is_authorized states); printed = states }

-- what `main` returns: a `FinOpsError` is printed and is exit code 2; another exception leaves it.
unfoldable pub main {ℓ} : {A : Type ℓ} → Result (Ended A) → Result ℕ
main (ok e) = ok e.exit
main (raise (finops e)) = ok exit_error
main (raise x) = raise x

abbrev number_or : Option ℕ → Json → Json
number_or none recorded = recorded
number_or (some n) recorded = count_of n

-- `head_sha or record.get("head_sha")`
abbrev sha_or : Option String → Json → Json
sha_or none recorded = recorded
sha_or (some s) recorded = if str_eq s "" then recorded else text s

-- the entries that are those of the record
abbrev recorded_of : Fields → Fields → Fields
recorded_of record_ rest = field "approver" (get "approver" record_) (
    field "justification" (get "justification" record_) (
      field "approved_incremental_cost" (get "approved_incremental_cost" record_) (
        field "max_incremental_cost" (get "max_incremental_cost" record_) (
          field "threshold_value" (get "threshold_value" record_) (
            field "threshold_metric" (get "threshold_metric" record_) (
              field "currency" (get "currency" record_) (
                field "plan_fingerprint" (get "plan_fingerprint" record_) (
                  field "resolved_variables_hash" (get "resolved_variables_hash" record_) (
                    field "approved_at" (get "approved_at" record_)
                      (field "expires_at" (get "expires_at" record_) rest))))))))))

-- `build_approval_record` of lock/exception.py; `problems` are the texts of the problems.
unfoldable pub build_approval_record :
    Fields
    → List Json
    → Option ℕ
    → (head_sha verified_commit : Option String) → (verified_at : String) → Fields
build_approval_record record_ problems pr_number head_sha verified_commit verified_at =
    field "schema_version" (text exception_schema_version) (
      field "finops_decision" (text "FAIL") (
        field "exception_approval" (text (if is_empty problems then "APPROVED" else "REJECTED")) (
          field "exception_id" (get "exception_id" record_) (
            field "stack" (get "stack" record_) (
              field "terraform_dir" (get "terraform_dir" record_) (
                field "pr" (number_or pr_number (get "pr" record_)) (
                  field "head_sha" (sha_or head_sha (get "head_sha" record_)) (
                    field "verified_commit" (optional verified_commit) (
                      recorded_of record_ (
                        field "verified_at" (text verified_at)
                          (field "problems" (arr (of_list problems)) end)))))))))))

-- the justification that `_cmd_approve` writes
abbrev pub by_environment : Approval → Approval
by_environment a = record a {
  justification =
      "Cost estimate explicitly approved by " <> a.approver
      <> " via the finops-cost-approval GitHub Environment on the FinOps Cost Gate workflow.";
}

-- what the message of a refusal stands for: a command that ends with exit code 2 and no record
abbrev pub refusal : Result (Ended (Option Fields))
refusal = ok (record { exit = exit_error; printed = none })

abbrev pub written : Fields → Ended (Option Fields)
written record_ = record { exit = exit_pass; printed = some record_ }

-- `config` is what `load_config` does with the path of the command line, for a finite threshold.
module _ (sha256 show : Json → String) (decimal : String → Option ℤ) (clock : Clock)
    (scale : ℤ → ℤ → ℤ) (config : Result Config) where
  -- `_cmd_verify_lock`
  unfoldable pub cmd_verify_lock :
      (lock plan : FileContent) → Option String → Result (Ended (List LockProblem))
  cmd_verify_lock lock_file plan_file stack = do
    c ← config
    lock ← load_cost_lock lock_file
    plan ← normalize_plan_file show plan_file
    fields ← fields_of lock
    let problems = verify_cost_lock sha256 fields plan c stack
    ok (record { exit = exit_of (is_empty problems); printed = problems })

  -- `_cmd_approval_verify`
  unfoldable pub cmd_approval_verify :
      (decision plan estimate : FileContent)
      → Target
      → Option String
      → Result (Ended (ApprovalStates × List Problem))
  cmd_approval_verify decision_file plan_file estimate_file target run_event = do
    c ← config
    record_ ← load_exception decision_file
    plan ← normalize_plan_file show plan_file
    plan_doc ← load_plan_json plan_file
    estimate ← rebuild_estimate decimal estimate_file
    problems ←
        verify_environment_approval sha256 clock record_ plan plan_doc estimate c target run_event
    let states = evaluate_approval 1 (some "approve") problems true
    ok (record { exit = exit_of (is_authorized states); printed = (states, problems) })

  -- the record of a budget exception, for the plan in a file
  unfoldable pub minted :
      Config
      → PolicyDecision × CostEstimate
      → FileContent
      → Approval
      → (exception_id : String) → (created : ℕ) → Result (Ended (Option Fields))
  minted c (decision, estimate) plan_file approval exception_id created = do
    plan ← normalize_plan_file show plan_file
    plan_doc ← load_plan_json plan_file
    record_ ←
        create_exception sha256 clock scale decision estimate plan plan_doc c approval exception_id
          created
    ok (written record_)

  -- `_cmd_create_exception`
  unfoldable pub cmd_create_exception :
      (result plan : FileContent)
      → Approval
      → (exception_id : String) → (created : ℕ) → Result (Ended (Option Fields))
  cmd_create_exception result_file plan_file approval exception_id created = do
    c ← config
    raw ← read_json result_file
    result_raw ← fields_of raw
    (if not (equals_text (get "status" result_raw) "FAIL") then refusal else (do
      stored ← rebuilt decimal c result_raw
      minted c stored plan_file approval exception_id created))

  -- `_cmd_approve` behind the test on the event; a rejection mints no record.
  unfoldable pub decide :
      Config
      → (action : String) → (result plan : FileContent) → Approval
      → (exception_id : String) → (created : ℕ) → Result (Ended (Option Fields))
  decide c action result_file plan_file approval exception_id created = do
    raw ← read_json result_file
    result_raw ← fields_of raw
    (if not (equals_text (get "status" result_raw) "FAIL") then refusal else (do
      stored ← rebuilt decimal c result_raw
      (if str_eq action "reject"
          then ok (record { exit = exit_pass; printed = none })
          else minted c stored plan_file (by_environment approval) exception_id created)))

  -- `_cmd_approve`
  unfoldable pub cmd_approve :
      (action run_event : String)
      → (result plan : FileContent) → Approval
      → (exception_id : String) → (created : ℕ) → Result (Ended (Option Fields))
  cmd_approve action run_event result_file plan_file approval exception_id created = do
    c ← config
    (if not (str_eq run_event "pull_request" || str_eq run_event "workflow_dispatch")
        then refusal
        else decide c action result_file plan_file approval exception_id created)

  -- `_cmd_verify_exception`, up to the comment that it appends to; `problem_text` is the message of
  -- a problem, and the reviews are those of the file.
  unfoldable pub cmd_verify_exception :
      (Problem → String)
      → (exception plan estimate : FileContent) → Target
      → Option String
      → Option (List Review)
      → (verified_commit : Option String) → (verified_at : String) → Result (Ended Fields)
  cmd_verify_exception problem_text exception_file plan_file estimate_file target pr_author reviews
        verified_commit verified_at =
      do
        c ← config
        record_ ← load_exception exception_file
        plan ← normalize_plan_file show plan_file
        plan_doc ← load_plan_json plan_file
        estimate ← rebuild_estimate decimal estimate_file
        problems ←
            verify_exception sha256 show clock record_ plan plan_doc estimate c
              (record target { terraform_dir = none }) pr_author reviews
        ok (record {
          exit = exit_of (is_empty problems);
          printed =
              build_approval_record record_ (map (λ p. text (problem_text p)) problems)
                target.pr_number target.head_sha verified_commit verified_at;
        })
