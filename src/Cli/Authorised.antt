-- ===== src/Cli/Authorised.antt =====
-- What exit code 0 of the commands that verify guarantees.
use finops_cost_engine_poc.Prelude.{
  ℤ, String, true, ◌≡◌, refl, ◌∙◌, ap, ◌⊎◌, List, [], ◌∷◌, Option, some, arith,
}
use finops_cost_engine_poc.Prelude.Text.{lower, strip}
use finops_cost_engine_poc.Json.{Json, Fields}
use finops_cost_engine_poc.Errors.{
  Result, ok, raise, finops, invalid_operation, key_error, ok-injective, Ensures, ensures_bind,
  ensures_ok,
}
use finops_cost_engine_poc.Models.{CostEstimate, NormalizedPlan}
use finops_cost_engine_poc.Config.{Config}
use finops_cost_engine_poc.Plan.Normalizer.{FileContent, load_plan_json, normalize_plan_file}
use finops_cost_engine_poc.Exception.{Clock, Problem, Target, verify_environment_approval}
use finops_cost_engine_poc.Exception.Authorised.{IsBoundTo, verify_environment_approval_iff}
use finops_cost_engine_poc.Gate.{ApprovalStates, evaluate_approval}
use finops_cost_engine_poc.Cli.Stored.{load_exception, rebuild_estimate, Ended}
use finops_cost_engine_poc.Cli.Commands.{main, exit_of, is_authorized, cmd_approval_verify}

module _ (sha256 show : Json → String) (decimal : String → Option ℤ) (clock : Clock)
    (scale : ℤ → ℤ → ℤ) (config : Result Config)
    (decision_file plan_file estimate_file : FileContent) (target : Target)
    (run_event : Option String) where
  -- what the files have to hold, and the run to be, for an approval to be verified
  pub record Verified : Type 0 where
    pub policy : Config
    pub approval : Fields
    pub plan : NormalizedPlan
    pub plan_doc : Json
    pub estimate : CostEstimate
    pub configured : config ≡ ok policy
    pub loaded : load_exception decision_file ≡ ok approval
    pub planned : normalize_plan_file show plan_file ≡ ok plan
    pub documented : load_plan_json plan_file ≡ ok plan_doc
    pub estimated : rebuild_estimate decimal estimate_file ≡ ok estimate
    pub enabled : policy.exceptions.enabled ≡ true
    pub bound : IsBoundTo sha256 clock approval plan plan_doc estimate policy target
    pub gated : (run_event ≡ some "pull_request") ⊎ (run_event ≡ some "workflow_dispatch")

  approved-problems :
      (problems : List Problem)
      → exit_of (is_authorized (evaluate_approval 1 (some "approve") problems true)) ≡ 0
      → problems ≡ []
  unfolding evaluate_approval lower strip
  approved-problems [] h = refl
  approved-problems (p ∷ ps) h = absurd (omega (arith, h))

  -- the outcome, where exit code 0 has to stand for a verified approval
  VerifiedIf : Ended (ApprovalStates × List Problem) → Type 0
  VerifiedIf e = e.exit ≡ 0 → Verified

  verified_at :
      (policy : Config) (approval : Fields) (plan : NormalizedPlan) (plan_doc : Json)
      (estimate : CostEstimate) (problems : List Problem)
      → config ≡ ok policy
      → load_exception decision_file ≡ ok approval
      → normalize_plan_file show plan_file ≡ ok plan
      → load_plan_json plan_file ≡ ok plan_doc
      → rebuild_estimate decimal estimate_file ≡ ok estimate
      → verify_environment_approval sha256 clock approval plan plan_doc estimate policy target
          run_event
        ≡ ok problems
      → Ensures VerifiedIf (
          ok (record {
            exit = exit_of (is_authorized (evaluate_approval 1 (some "approve") problems true));
            printed = (evaluate_approval 1 (some "approve") problems true, problems);
          }))
  unfolding VerifiedIf
  verified_at policy approval plan plan_doc estimate problems a b c d e f = ensures_ok (λ h.
      let exact =
        verify_environment_approval_iff sha256 clock approval plan plan_doc estimate policy target
          run_event in
      let (on, binds, event) = exact.0 (f ∙ ap ok (approved-problems problems h)) in
      record {
        policy = policy;
        approval = approval;
        plan = plan;
        plan_doc = plan_doc;
        estimate = estimate;
        configured = a;
        loaded = b;
        planned = c;
        documented = d;
        estimated = e;
        enabled = on;
        bound = binds;
        gated = event;
      })

  cmd_approval_verify-Ensures : Ensures VerifiedIf (
      cmd_approval_verify sha256 show decimal clock scale config decision_file plan_file
        estimate_file target run_event)
  unfolding cmd_approval_verify
  cmd_approval_verify-Ensures = search (ensures_bind, verified_at) depth 16

  main-ended :
      {A : Type 0} (r : Result (Ended A))
      → main r ≡ ok 0
      → (e : Ended A) × (r ≡ ok e) × (e.exit ≡ 0)
  unfolding main
  main-ended (ok e) h = (e, refl, ok-injective h)
  main-ended (raise (finops x)) h = absurd (omega (arith, ok-injective h))
  main-ended (raise invalid_operation) h = cc
  main-ended (raise key_error) h = cc

  -- The process of `finops approval-verify` ends with exit code 0 only if each of its files could be
  -- read, exceptions are enabled, the plan, the estimate and the run are bound to the approval in
  -- them, and the run is a pull request's or a manually dispatched one.
  pub approval_verify-verified :
      main (
          cmd_approval_verify sha256 show decimal clock scale config decision_file plan_file
            estimate_file target run_event)
        ≡ ok 0
      → Verified
  unfolding VerifiedIf
  approval_verify-verified h =
      let (e, ended, passed) =
        main-ended
          (cmd_approval_verify sha256 show decimal clock scale config decision_file plan_file
            estimate_file target run_event)
          h in
      cmd_approval_verify-Ensures.holds e ended passed
