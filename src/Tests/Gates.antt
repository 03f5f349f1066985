-- ===== src/Tests/Gates.antt =====
-- Witnesses for the theorems on the runs of the gate and on what they authorise.
use finops_cost_engine_poc.Prelude.{
  ℕ, String, true, false, ◌&&◌, List, [], Option, none, some, ◌≡◌, ◌↔◌, ◌⊎◌, refl, str_eq, is_empty,
}
use finops_cost_engine_poc.Json.{Json, obj, arr, nil, Fields, end, field, get}
use finops_cost_engine_poc.Errors.{Raised, Result, ok, raise, ai_error, Message}
use finops_cost_engine_poc.Models.{
  fail, pass, error, CostEstimate, NormalizedPlan, PolicyDecision, is_authoritative, exceeded_by,
  exit_code,
}
use finops_cost_engine_poc.Prelude.Int.{◌-ℤ◌}
use finops_cost_engine_poc.Decimal.{infinity, as_float_decimal}
use finops_cost_engine_poc.Config.{threshold_unit, comparison}
use finops_cost_engine_poc.Policy.{evaluate, evaluate_estimate, observed_value, compare_threshold}
use finops_cost_engine_poc.CostLock.{create_cost_lock, verify_cost_lock}
use finops_cost_engine_poc.Plan.Normalizer.{
  document, normalize_plan_file, load_plan_json, normalize_plan, shown, is_supported_version,
  changes_of, provider_regions, note_regions, entries_in, block_or_empty,
}
use finops_cost_engine_poc.Ai.{unavailable, analyze, build_provider, Provider, answered, refused}
use finops_cost_engine_poc.Gate.{
  with_plan, load_action_plan, priced, finish, lock_if_passed, CostEstimator, GateRequest,
  Environment, Outcome, fresh_result, run_gate, authorize_deployment, evaluate_approval,
  finops_decision_label, is_valid, action_text,
}
use finops_cost_engine_poc.Gate.Returns.{Returns}
use finops_cost_engine_poc.Ai.Raises.{analyze-raises}
use finops_cost_engine_poc.Tests.Policies.{decided}
use finops_cost_engine_poc.Gate.Safety.{RestsOn, run_gate-pass, run_gate-lock, run_gate-no_baseline}
use finops_cost_engine_poc.Gate.Advisory.{without_ai, run_gate-advisory}
use finops_cost_engine_poc.Gate.Approval.{
  authorize_deployment-authorized_iff, evaluate_approval-authorized_iff,
}
use finops_cost_engine_poc.Tests.{units, plan, policy, estimate, hash, shown_as}

abbrev helpful : Provider
helpful = λ name plan estimate decision limit.
    answered (record { summary = "fine"; reason = "small"; cost_drivers = []; recommendation = "" })

abbrev unhelpful : Provider
unhelpful = λ name plan estimate decision limit. refused (ai_error Message.ai_failure)

abbrev environment : Environment
environment = record {
  github_sha = "abc";
  git_commit = "";
  github_run_id = "run 1";
  build_number = "";
  execution_uuid = "id 1";
  lock_uuid = "lock 1";
  now = "now";
}

abbrev empty_plan : Json
empty_plan = obj (field "format_version" (Json.text "1.2") (field "resource_changes" (arr nil) end))

abbrev request : GateRequest
request = record {
  proposed_plan = document empty_plan;
  baseline_plan = none;
  action_plan = none;
  require_baseline = false;
  commit = "";
  execution_id = "";
  stack = some "web";
  allow_cost_lock = true;
}

abbrev estimator : CostEstimator
estimator = record { preflight = ok tt; estimate = λ r. ok estimate }

abbrev returned : Result Outcome → Outcome
returned (ok o) = o
returned (raise e) = (fresh_result "" "", none)

abbrev outcome : Provider → Outcome
outcome ask = returned (run_gate hash shown_as ask environment request policy estimator)

outcome_is :
    run_gate hash shown_as helpful environment request policy estimator ≡ ok (outcome helpful)
unfolding run_gate with_plan normalize_plan_file load_plan_json normalize_plan shown get
    is_supported_version load_action_plan priced evaluate threshold_unit evaluate_estimate
    observed_value is_authoritative compare_threshold comparison exceeded_by ◌-ℤ◌ analyze
    build_provider as_float_decimal finish lock_if_passed create_cost_lock provider_regions
    block_or_empty note_regions entries_in changes_of
outcome_is = refl

passed_is : exit_code (outcome helpful).0 ≡ 0
unfolding run_gate with_plan normalize_plan_file load_plan_json normalize_plan shown get
    is_supported_version load_action_plan priced evaluate threshold_unit evaluate_estimate
    observed_value is_authoritative compare_threshold comparison exceeded_by ◌-ℤ◌ analyze
    build_provider as_float_decimal finish lock_if_passed create_cost_lock exit_code
    provider_regions block_or_empty note_regions entries_in changes_of
passed_is = refl

unhelpful_is :
    run_gate hash shown_as unhelpful environment request policy estimator ≡ ok (outcome unhelpful)
unfolding run_gate with_plan normalize_plan_file load_plan_json normalize_plan shown get
    is_supported_version load_action_plan priced evaluate threshold_unit evaluate_estimate
    observed_value is_authoritative compare_threshold comparison exceeded_by ◌-ℤ◌ analyze
    build_provider as_float_decimal finish lock_if_passed create_cost_lock unavailable
    provider_regions block_or_empty note_regions entries_in changes_of
unhelpful_is = refl

abbrev minted : Option Fields → Fields
minted none = end
minted (some lock) = lock

abbrev lock : Fields
lock = minted (outcome helpful).1

lock_is : (outcome helpful).1 ≡ some lock
unfolding run_gate with_plan normalize_plan_file load_plan_json normalize_plan shown get
    is_supported_version load_action_plan priced evaluate threshold_unit evaluate_estimate
    observed_value is_authoritative compare_threshold comparison exceeded_by ◌-ℤ◌ analyze
    build_provider as_float_decimal finish lock_if_passed create_cost_lock provider_regions
    block_or_empty note_regions entries_in changes_of
lock_is = refl

run_gate-pass_example :
    (plan : NormalizedPlan) × (estimate : CostEstimate) × (decision : PolicyDecision) × RestsOn
      policy
      (outcome helpful).0
      plan
      estimate
      decision
    × (decision.status ≡ pass)
run_gate-pass_example =
    run_gate-pass hash shown_as helpful environment request policy estimator (outcome helpful)
      outcome_is passed_is

run_gate-lock_example :
    (plan : NormalizedPlan) × ((outcome helpful).0.plan ≡ some plan)
    × ((outcome helpful).0.status ≡ pass)
    × ((outcome helpful).0.cost_lock ≡ some lock)
    × (request.allow_cost_lock ≡ true)
    × (verify_cost_lock hash lock plan policy request.stack ≡ [])
run_gate-lock_example =
    run_gate-lock hash shown_as helpful environment request policy estimator (outcome helpful) lock
      outcome_is lock_is

abbrev strict : GateRequest
strict = record request { require_baseline = true }

run_gate-no_baseline_example :
    (run_gate hash shown_as helpful environment strict policy estimator
      ≡ run_gate hash shown_as helpful environment strict policy
          (record estimator { preflight = raise (Raised.finops (ai_error Message.ai_failure)) }))
    × ((o : Outcome)
        → run_gate hash shown_as helpful environment strict policy estimator ≡ ok o
        → (o.0.status ≡ error) × (exit_code o.0 ≡ 2) × (o.1 ≡ none))
run_gate-no_baseline_example =
    run_gate-no_baseline hash shown_as helpful environment strict policy estimator
      (record estimator { preflight = raise (Raised.finops (ai_error Message.ai_failure)) }) refl
      refl

run_gate-advisory_example : without_ai (outcome helpful) ≡ without_ai (outcome unhelpful)
run_gate-advisory_example =
    run_gate-advisory hash shown_as helpful unhelpful environment request policy refl estimator
      (outcome helpful) (outcome unhelpful) outcome_is unhelpful_is

authorize_deployment-authorized_iff_example :
    (authorize_deployment 1 (some true) false ≡ "AUTHORIZED")
    ↔ ((◌≡◌ {A = ℕ} 1 0 × (false ≡ true)) ⊎ (◌≡◌ {A = ℕ} 1 1 × (is_valid (some true) ≡ true)))
authorize_deployment-authorized_iff_example =
    authorize_deployment-authorized_iff 1 (some true) false

abbrev no_problems : List String
no_problems = []

evaluate_approval-authorized_iff_example :
    ((evaluate_approval 1 (some "Approve") no_problems false).deployment_authorization
        ≡ "AUTHORIZED"
      ↔ ((◌≡◌ {A = ℕ} 1 0 × (false ≡ true))
          ⊎ (◌≡◌ {A = ℕ} 1 1
              × ((str_eq (action_text (some "Approve")) "approve" && is_empty no_problems)
                  ≡ true))))
    × ((evaluate_approval 1 (some "Approve") no_problems false).finops_decision
        ≡ finops_decision_label 1)
evaluate_approval-authorized_iff_example =
    evaluate_approval-authorized_iff 1 (some "Approve") no_problems false

abbrev boundless : PolicyDecision
boundless = record (decided fail (units 10) [] []) { observed_value = infinity }

analyze-raises_example :
    analyze helpful plan estimate boundless policy.ai ≡ raise Raised.invalid_operation
analyze-raises_example = analyze-raises estimate boundless refl helpful plan policy.ai
