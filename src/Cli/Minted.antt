-- ===== src/Cli/Minted.antt =====
-- What a budget exception that `finops approve` writes rests on.
use finops_cost_engine_poc.Prelude.{ℕ, ℤ, String, ◌≡◌, ◌≢◌, ◌⊎◌, Option, some}
use finops_cost_engine_poc.Json.{Json, obj, Fields, get, text}
use finops_cost_engine_poc.Errors.{Result, ok, ◌>>=◌}
use finops_cost_engine_poc.Models.{CostEstimate, NormalizedPlan, PolicyDecision}
use finops_cost_engine_poc.Config.{Config}
use finops_cost_engine_poc.Plan.Normalizer.{FileContent, load_plan_json, normalize_plan_file}
use finops_cost_engine_poc.Exception.{Clock, Approval}
use finops_cost_engine_poc.Exception.Create.{Approves}
use finops_cost_engine_poc.Cli.Stored.{Ended, read_json, rebuilt}
use finops_cost_engine_poc.Cli.Commands.{by_environment}

module _ (sha256 show : Json → String) (decimal : String → Option ℤ) (clock : Clock)
    (scale : ℤ → ℤ → ℤ) (config : Result Config) (action run_event : String)
    (result_file plan_file : FileContent) (approval : Approval) (exception_id : String)
    (created : ℕ) where
  -- what stands behind a record
  pub record IsMinted (r : Fields) : Type 0 where
    pub policy : Config
    pub result : Fields
    pub decision : PolicyDecision
    pub estimate : CostEstimate
    pub plan : NormalizedPlan
    pub plan_doc : Json
    pub configured : config ≡ ok policy
    pub stored : read_json result_file ≡ ok (obj result)
    pub failed : get "status" result ≡ text "FAIL"
    pub told : rebuilt decimal policy result ≡ ok (decision, estimate)
    pub planned : normalize_plan_file show plan_file ≡ ok plan
    pub documented : load_plan_json plan_file ≡ ok plan_doc
    pub approves :
        Approves sha256 clock scale decision estimate plan plan_doc policy
          (by_environment approval)
          exception_id
          created
          r
    pub gated : (run_event ≡ "pull_request") ⊎ (run_event ≡ "workflow_dispatch")
    pub not_rejected : action ≢ "reject"

  MintedIf : Ended (Option Fields) → Type 0
  MintedIf e = (r : Fields) → e.printed ≡ some r → IsMinted r
