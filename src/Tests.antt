-- ===== src/Tests.antt =====
-- Test data: a configuration with a threshold of 200 a month, an estimate of 150 more a month, and
-- what stands for the outside world. The witnesses of the theorems are in the modules below.
pub mod Policies
pub mod Plans
pub mod Locks
pub mod Gates
pub mod Registries
pub mod Costs
pub mod Configs
pub mod Commands
use finops_cost_engine_poc.Prelude.{
  ℕ, ◌*◌, ℤ, pos, String, Bool, true, false, List, [], ◌∷◌, Option, none, some,
}
use finops_cost_engine_poc.Json.{
  Json, null, num, text, arr, obj, Items, nil, cons, Fields, end, field,
}
use finops_cost_engine_poc.Decimal.{one_unit}
use finops_cost_engine_poc.Models.{
  CostEstimate, authoritative, NormalizedPlan, ResourceChange, aws, create, empty_coverage,
}
use finops_cost_engine_poc.Config.{Config, block, warn}

-- a whole amount of money
abbrev pub units : ℕ → ℤ
units n = pos (n * one_unit)

abbrev pub policy_of : String → ℤ → Config
policy_of metric value = record {
  threshold = record {
    metric = metric;
    value = value;
    currency = "USD";
    equality_is_pass = true;
    allow_cost_reductions = true;
  };
  cost_estimation = record {
    estimator = "infracost";
    allow_non_authoritative_lock = false;
    timeout_seconds = pos 300;
    infracost = record {
      binary = text "infracost";
      command_style = "auto";
      config_file = null;
      usage_file = null;
    };
  };
  fail_safe = record {
    on_plan_failure = block;
    on_estimation_failure = block;
    on_unsupported_provider = block;
    on_unsupported_resource = block;
    on_unknown_cost_resource = block;
    on_ai_failure = warn;
  };
  ai = record {
    provider = "mock";
    enabled = true;
    required = false;
    timeout_seconds = pos 30;
    max_resources_in_prompt = 40;
  };
  change_detection = record { infrastructure_globs = []; ignore_globs = [] };
  cost_lock = record { output_dir = text ".finops"; bind_to_plan_fingerprint = true };
  exceptions = record {
    enabled = true;
    approvers = "Ann" ∷ [];
    max_ttl_days = 30;
    max_ceiling_ratio = units 2;
    require_non_author_approval = true;
    require_review_approval = true;
  };
}

abbrev pub policy : Config
policy = policy_of "incremental_monthly_cost" (units 200)

abbrev pub estimate_of : ℕ → ℕ → CostEstimate
estimate_of previous added = record {
  currency = "USD";
  estimator = "infracost";
  trust = authoritative;
  previous_monthly_cost = units previous;
  new_monthly_cost = units (Prim.Native.Nat.◌+◌ previous added);
  incremental_monthly_cost = units added;
  resources = [];
  coverage = empty_coverage;
  warnings = [];
  estimator_version = text "0.10";
}

abbrev pub estimate : CostEstimate
estimate = estimate_of 100 150

abbrev pub change : ResourceChange
change = record {
  address = "aws_instance.web";
  resource_type = "aws_instance";
  name = "web";
  cloud = aws;
  action = create;
  provider_name = "registry.terraform.io/hashicorp/aws";
  module_address = null;
  index = null;
  region = some "eu-west-1";
  before = end;
  after = field "instance_type" (text "t3.micro") end;
}

abbrev pub plan : NormalizedPlan
plan = record {
  terraform_version = "1.9.0";
  format_version = "1.2";
  changes = change ∷ [];
  clouds = aws ∷ [];
}

-- for a hash function: any function of the document will do
abbrev pub hash : Json → String
hash (obj (field k v rest)) = k
hash _ = "0"

-- for `str` of a value that is no text
abbrev pub shown_as : Json → String
shown_as _ = "1"
