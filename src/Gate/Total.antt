-- ===== src/Gate/Total.antt =====
-- A whole run returns: what an estimator can raise, and plan documents of Terraform's shapes, is caught.
use finops_cost_engine_poc.Json.{Json}
use finops_cost_engine_poc.Config.{Config}
use finops_cost_engine_poc.Gate.Returns.{Returns}
