-- ===== src/Gate.antt =====
-- gate.py: one run of the gate, and what the pipeline may deploy after it.
-- The documents at the paths of a request are given as what `load_plan_json` finds there; a written
-- lock comes back beside the result. `identity` is `_resolve_identity`'s environment.
pub mod Safety
pub mod Advisory
pub mod Approval
pub mod Returns
pub mod Total
use finops_cost_engine_poc.Prelude.{
  ℕ, ℤ, pos, String, Bool, true, false, not, ◌&&◌, ◌||◌, ◌==◌, List, [], ◌∷◌, ◌++◌, Option, none,
  some, str_eq, is_empty, if◌then◌else◌,
}
use finops_cost_engine_poc.Prelude.Text.{lower, strip}
use finops_cost_engine_poc.Json.{Json, text, Fields}
use finops_cost_engine_poc.Errors.{
  FinOpsError, Message, Raised, finops, Result, ok, raise, ◌>>=◌, ◌>>◌, baseline_unavailable_error,
}
use finops_cost_engine_poc.Models.{
  Status, pass, fail, error, authoritative, CostEstimate, NormalizedPlan, PolicyDecision,
  AiAnalysis, GateResult, empty_coverage,
}
use finops_cost_engine_poc.Config.{Config, blocks}
use finops_cost_engine_poc.Policy.{evaluate}
use finops_cost_engine_poc.CostLock.{create_cost_lock}
use finops_cost_engine_poc.Plan.Normalizer.{
  FileContent, missing, invalid, document, normalize_plan_file,
}
use finops_cost_engine_poc.Ai.{Provider, analyze}

-- cost/base.py: what an estimator is asked. The plans are the documents at the two paths.
pub record EstimationRequest : Type 0 where
  pub proposed_plan_json : FileContent
  pub baseline_plan_json : Option FileContent
  pub normalized_plan : NormalizedPlan
  pub action_plan : Option NormalizedPlan
  pub currency : String

pub record CostEstimator : Type 0 where
  pub preflight : Result (Unit {0})
  pub estimate : EstimationRequest → Result CostEstimate

pub record GateRequest : Type 0 where
  pub proposed_plan : FileContent
  pub baseline_plan : Option FileContent
  pub action_plan : Option FileContent
  pub require_baseline : Bool
  pub commit : String
  pub execution_id : String
  pub stack : Option String
  pub allow_cost_lock : Bool

-- `GITHUB_SHA`, `GIT_COMMIT`, `GITHUB_RUN_ID`, `BUILD_NUMBER`, two fresh `uuid4` and the clock
pub record Environment : Type 0 where
  pub github_sha : String
  pub git_commit : String
  pub github_run_id : String
  pub build_number : String
  pub execution_uuid : String
  pub lock_uuid : String
  pub now : String

-- Python's `a or b` on texts
abbrev pub or_text : String → String → String
or_text a b = if str_eq a "" then b else a

-- `_resolve_identity`
unfoldable pub resolve_identity : GateRequest → Environment → String × String
resolve_identity request env = (
  or_text request.commit (or_text env.github_sha (or_text env.git_commit "unknown")),
  or_text request.execution_id
      (or_text env.github_run_id (or_text env.build_number env.execution_uuid)),
)

-- `_empty_estimate`
abbrev pub empty_estimate : Config → CostEstimate
empty_estimate config = record {
  currency = config.threshold.currency;
  estimator = "none";
  trust = authoritative;
  previous_monthly_cost = pos 0;
  new_monthly_cost = pos 0;
  incremental_monthly_cost = pos 0;
  resources = [];
  coverage = empty_coverage;
  warnings = [];
  estimator_version = text "";
}

-- `request.baseline_plan is None or not Path(...).exists()`
abbrev pub no_baseline : Option FileContent → Bool
no_baseline none = true
no_baseline (some missing) = true
no_baseline (some _) = false

-- the best-effort action plan: an unusable one counts as none
abbrev pub usable : Result NormalizedPlan → Result (Option NormalizedPlan)
usable (ok p) = ok (some p)
usable (raise (finops _)) = ok none
usable (raise other) = raise other

module _ (show : Json → String) where
  unfoldable pub load_action_plan : Option FileContent → Result (Option NormalizedPlan)
  load_action_plan none = ok none
  load_action_plan (some file) = usable (normalize_plan_file show file)

-- the result, and the lock that `write_cost_lock` wrote
abbrev pub Outcome : Type 0
Outcome = GateResult × Option Fields

-- the result before anything is known
abbrev pub fresh_result : String → String → GateResult
fresh_result commit execution_id = record {
  status = error;
  decision = none;
  estimate = none;
  plan = none;
  ai = none;
  cost_lock = none;
  errors = [];
  execution_id = execution_id;
  commit = commit;
}

-- `status is Status.PASS`
abbrev pub passes : Status → Bool
passes pass = true
passes _ = false

-- The parts of one run that do not change: the outside world, the request and the configuration.
module _ (sha256 show : Json → String) (ask : Provider) (env : Environment) (request : GateRequest)
    (config : Config) where
  abbrev pub started : GateResult
  started =
      let (commit, execution_id) = resolve_identity request env in fresh_result commit execution_id

  -- A run that could not establish the cost: the policy fails safe on the error.
  unfoldable pub unpriced : NormalizedPlan → FinOpsError → Result Outcome
  unpriced plan e = do
    decision ← evaluate (empty_estimate config) config (e ∷ [])
    ok (
      record started {
        status = error;
        decision = some decision;
        plan = some plan;
        errors = e ∷ [];
      },
      none,
    )

  -- `if result.status is Status.PASS and request.allow_cost_lock`
  unfoldable pub lock_if_passed :
      NormalizedPlan → CostEstimate → PolicyDecision → GateResult → Result Outcome
  lock_if_passed plan estimate decision result =
      if passes result.status && request.allow_cost_lock
      then (do
        lock ←
            create_cost_lock sha256 decision estimate plan config result.commit result.execution_id
              request.stack env.lock_uuid env.now
        ok (record result { cost_lock = some lock }, some lock))
      else ok (result, none)

  -- `if ai_error and config.ai.required and config.fail_safe.blocks("on_ai_failure")`
  unfoldable pub finish :
      NormalizedPlan
      → CostEstimate
      → PolicyDecision
      → GateResult
      → Option FinOpsError
      → Result Outcome
  finish plan estimate decision result none = lock_if_passed plan estimate decision result
  finish plan estimate decision result (some e) =
      if config.ai.required && blocks config.fail_safe.on_ai_failure
      then ok (record result { status = error; errors = result.errors ++ (e ∷ []) }, none)
      else lock_if_passed plan estimate decision result

  -- the part behind the estimation
  unfoldable pub priced : NormalizedPlan → Result CostEstimate → Result Outcome
  priced plan (raise (finops e)) = unpriced plan e
  priced plan (raise other) = raise other
  priced plan (ok estimate) = do
    decision ← evaluate estimate config []
    explained ← analyze ask plan estimate decision config.ai
    finish plan estimate decision
        (record started {
          status = decision.status;
          decision = some decision;
          estimate = some estimate;
          plan = some plan;
          ai = some explained.0;
          errors = decision.blocking_errors;
        })
        explained.1

  -- the part behind the proposed plan
  unfoldable pub with_plan : CostEstimator → Result NormalizedPlan → Result Outcome
  with_plan estimator (raise (finops e)) = ok (record started { errors = e ∷ [] }, none)
  with_plan estimator (raise other) = raise other
  with_plan estimator (ok plan) = do
    action_plan ← load_action_plan show request.action_plan
    (if request.require_baseline && no_baseline request.baseline_plan
        then unpriced plan baseline_unavailable_error
        else priced plan (do
          estimator.preflight
          estimator.estimate (record {
            proposed_plan_json = request.proposed_plan;
            baseline_plan_json = request.baseline_plan;
            normalized_plan = plan;
            action_plan = action_plan;
            currency = config.threshold.currency;
          })))

  unfoldable pub run_gate : CostEstimator → Result Outcome
  run_gate estimator = with_plan estimator (normalize_plan_file show request.proposed_plan)

-- `finops_decision_label`
unfoldable pub finops_decision_label : ℕ → String
finops_decision_label analyze_exit_code = if analyze_exit_code == 0 then "PASS" else "BLOCK"

abbrev pub is_valid : Option Bool → Bool
is_valid none = false
is_valid (some b) = b

-- `authorize_deployment`; an exception is valid, invalid or absent, and only a valid one counts.
unfoldable pub authorize_deployment : ℕ → Option Bool → Bool → String
authorize_deployment analyze_exit_code exception_valid lock_verified =
    if analyze_exit_code == 0
    then (if lock_verified then "AUTHORIZED" else "DENIED")
    else if (analyze_exit_code == 1) && is_valid exception_valid
    then "AUTHORIZED"
    else "DENIED"

-- the three states that `evaluate_approval` reports, and the message of a rejection
pub record ApprovalStates : Type 0 where
  pub finops_decision : String
  pub approval_status : String
  pub deployment_authorization : String
  pub message : Option String

abbrev pub rejection_message : String
rejection_message = "Deployment cancelled because the cost estimate was rejected."

-- `(approval_action or "").strip().lower()`
abbrev pub action_text : Option String → String
action_text none = ""
action_text (some a) = lower (strip a)

unfoldable pub evaluate_approval {ℓ} :
    {P : Type ℓ} → ℕ → Option String → List P → Bool → ApprovalStates
evaluate_approval analyze_exit_code approval_action problems lock_verified =
    let decision = finops_decision_label analyze_exit_code in
    let action = action_text approval_action in
    if analyze_exit_code == 0
    then record {
      finops_decision = decision;
      approval_status = "NOT_REQUIRED";
      deployment_authorization = if lock_verified then "AUTHORIZED" else "DENIED";
      message = none;
    }
    else if str_eq action "reject"
    then record {
      finops_decision = decision;
      approval_status = "REJECTED";
      deployment_authorization = "DENIED";
      message = some rejection_message;
    }
    else if str_eq action "approve" && ((analyze_exit_code == 1) && is_empty problems)
    then record {
      finops_decision = decision;
      approval_status = "APPROVED";
      deployment_authorization = "AUTHORIZED";
      message = none;
    }
    else record {
      finops_decision = decision;
      approval_status = "PENDING";
      deployment_authorization = "DENIED";
      message = none;
    }
