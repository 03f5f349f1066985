-- ===== src/Report.antt =====
-- report/breakdown.py: the groups, labels and order of the breakdown of an estimate.
-- A title is given to what follows each character that is no letter, as `str.title` does on ASCII.
pub mod Groups
pub mod Changes
pub mod Services
use finops_cost_engine_poc.Prelude.{
  ℕ, ◌<◌, ℤ, pos, ltb_ℤ, eqb_ℤ, leb_ℤ, neg_part, pos_part, abs_ℕ, String, Bool, true, false, not,
  ◌&&◌, ◌||◌, ◌==◌, ltb, leb, List, [], ◌∷◌, ◌++◌, map, filterb, length, take, Option, none, some,
  str_eq, starts_with, if◌then◌else◌,
}
use finops_cost_engine_poc.Prelude.Text.{lower, before_first, title, remove_prefix}
use finops_cost_engine_poc.Prelude.Order.{sort_by}
use finops_cost_engine_poc.Decimal.{money}
use finops_cost_engine_poc.Models.{
  Action, create, update, delete, replace, noop, read, action_value, CostConfidence, priced,
  usage_based, free, no_price, unsupported, ResourceCost, CostEstimate, le_text,
}
use finops_cost_engine_poc.Reconcile.{sum_ℤ}

-- `_SERVICE_BY_PREFIX`
abbrev pub service_by_prefix : List (String × String)
service_by_prefix =
    ("aws_autoscaling_group", "EC2")
    ∷ ("aws_launch_template", "EC2")
    ∷ ("aws_launch_configuration", "EC2")
    ∷ ("aws_instance", "EC2")
    ∷ ("aws_spot_instance_request", "EC2")
    ∷ ("aws_ebs_volume", "EBS")
    ∷ ("aws_ebs_snapshot", "EBS")
    ∷ ("aws_db_instance", "RDS")
    ∷ ("aws_rds_cluster", "RDS")
    ∷ ("aws_db_", "RDS")
    ∷ ("aws_elasticache", "ElastiCache")
    ∷ ("aws_dynamodb", "DynamoDB")
    ∷ ("aws_s3_", "S3")
    ∷ ("aws_lb", "Load Balancing")
    ∷ ("aws_alb", "Load Balancing")
    ∷ ("aws_elb", "Load Balancing")
    ∷ ("aws_nat_gateway", "NAT Gateway")
    ∷ ("aws_eip", "Elastic IP")
    ∷ ("aws_vpn", "VPN")
    ∷ ("aws_vpc_endpoint", "VPC Endpoint")
    ∷ ("aws_cloudfront", "CloudFront")
    ∷ ("aws_route53", "Route 53")
    ∷ ("aws_cloudwatch", "CloudWatch")
    ∷ ("aws_lambda", "Lambda")
    ∷ ("aws_ecs", "ECS")
    ∷ ("aws_eks", "EKS")
    ∷ ("aws_sqs", "SQS")
    ∷ ("aws_sns", "SNS")
    ∷ ("aws_kms", "KMS")
    ∷ ("aws_secretsmanager", "Secrets Manager")
    ∷ ("aws_apigateway", "API Gateway")
    ∷ ("aws_api_gateway", "API Gateway")
    ∷ ("aws_efs", "EFS")
    ∷ ("aws_fsx", "FSx")
    ∷ []

-- `_ACTION_LABEL`
unfoldable pub action_label : Action → String
action_label create = "added"
action_label update = "changed"
action_label delete = "destroyed"
action_label replace = "replaced"
action_label noop = "unchanged"
action_label read = "read"

-- `_PR_CHANGE_ACTIONS`
unfoldable pub is_change_action : Action → Bool
is_change_action create = true
is_change_action update = true
is_change_action delete = true
is_change_action replace = true
is_change_action _ = false

-- `resource.action in _PR_CHANGE_ACTIONS`: `None` is not.
unfoldable pub has_change_action : Option Action → Bool
unfolding is_change_action
has_change_action none = false
has_change_action (some a) = is_change_action a

-- the loop over the prefixes, then the rest of `service_of`
unfoldable pub service_from : List (String × String) → String → String → String
service_from [] lowered resource_type =
    if starts_with lowered "azurerm_"
    then title (before_first b'_' (remove_prefix "azurerm_" lowered))
    else if starts_with lowered "google_"
    then title (before_first b'_' (remove_prefix "google_" lowered))
    else if str_eq resource_type ""
    then "unknown"
    else resource_type
service_from ((prefix, service) ∷ rest) lowered resource_type =
    let others = service_from rest lowered resource_type in
    if starts_with lowered prefix then service else others

unfoldable pub service_of : String → String
unfolding service_from
service_of resource_type = service_from service_by_prefix (lower resource_type) resource_type

unfoldable pub action_or_unchanged : Option Action → String
unfolding action_label
action_or_unchanged none = "unchanged"
action_or_unchanged (some a) = action_label a

unfoldable pub label_from : Option Action → ℤ → String
unfolding action_or_unchanged has_change_action
label_from action delta =
    if has_change_action action
    then action_or_unchanged action
    else if ltb_ℤ (pos 0) delta
    then "increased"
    else if ltb_ℤ delta (pos 0)
    then "decreased"
    else action_or_unchanged action

unfoldable pub change_label : ResourceCost → String
unfolding label_from
change_label r = label_from r.action r.delta_monthly_cost

pub record ServiceTotal : Type 0 where
  pub service : String
  pub previous_monthly_cost : ℤ
  pub new_monthly_cost : ℤ
  pub delta_monthly_cost : ℤ
  pub resource_count : ℕ

-- `d.setdefault(key, []).append(r)` on a dict of lists
unfoldable pub add_to :
    String → ResourceCost → List (String × List ResourceCost) → List (String × List ResourceCost)
add_to key r [] = (key, r ∷ []) ∷ []
add_to key r ((k, items) ∷ rest) =
    let others = add_to key r rest in
    if str_eq k key then (k, items ++ r ∷ []) ∷ rest else (k, items) ∷ others

-- the loop that groups the resources under a key
unfoldable pub grouped_from :
    (ResourceCost → String)
    → List (String × List ResourceCost)
    → List ResourceCost
    → List (String × List ResourceCost)
unfolding add_to
grouped_from key groups [] = groups
grouped_from key groups (r ∷ rs) = grouped_from key (add_to (key r) r groups) rs

unfoldable pub group_by :
    (ResourceCost → String) → List ResourceCost → List (String × List ResourceCost)
unfolding grouped_from
group_by key rs = grouped_from key [] rs

unfoldable pub service_total : String × List ResourceCost → ServiceTotal
service_total (service, items) = record {
  service = service;
  previous_monthly_cost = money (some (sum_ℤ (map (λ r. r.previous_monthly_cost) items)));
  new_monthly_cost = money (some (sum_ℤ (map (λ r. r.new_monthly_cost) items)));
  delta_monthly_cost = money (some (sum_ℤ (map (λ r. r.delta_monthly_cost) items)));
  resource_count = length items;
}

-- `(-t.new_monthly_cost, t.service)`
abbrev pub by_spend_and_name : ServiceTotal → ServiceTotal → Bool
by_spend_and_name t u =
    ltb_ℤ u.new_monthly_cost t.new_monthly_cost
    || (eqb_ℤ u.new_monthly_cost t.new_monthly_cost && le_text t.service u.service)

abbrev pub by_spend : ServiceTotal → ServiceTotal → Bool
by_spend t u = leb_ℤ u.new_monthly_cost t.new_monthly_cost

unfoldable pub service_summary : CostEstimate → List ServiceTotal
unfolding sort_by group_by service_of service_total
service_summary e =
    sort_by by_spend_and_name
      (map service_total (group_by (λ r. service_of r.resource_type) e.resources))

unfoldable pub top_service_drivers : ℕ → CostEstimate → List ServiceTotal
unfolding sort_by
top_service_drivers limit e = take limit (sort_by by_spend (service_summary e))

-- `COVERAGE_LABELS`, which has a label for every value
unfoldable pub confidence_label : CostConfidence → String
confidence_label priced = "PRICED"
confidence_label usage_based = "USAGE-BASED"
confidence_label free = "NO DIRECT CHARGE"
confidence_label no_price = "UNSUPPORTED / UNESTIMATED"
confidence_label unsupported = "UNSUPPORTED / UNESTIMATED"

unfoldable pub coverage_label : ResourceCost → String
unfolding confidence_label
coverage_label r = confidence_label r.confidence

abbrev pub coverage_order : List String
coverage_order = "PRICED" ∷ "USAGE-BASED" ∷ "NO DIRECT CHARGE" ∷ "UNSUPPORTED / UNESTIMATED" ∷ []

-- `groups[k]` under `k in groups`, for the keys in turn
unfoldable pub found_in :
    String → List (String × List ResourceCost) → List (String × List ResourceCost)
found_in key [] = []
found_in key ((k, items) ∷ rest) =
    let others = found_in key rest in if str_eq k key then (k, items) ∷ [] else others

unfoldable pub in_order :
    List String → List (String × List ResourceCost) → List (String × List ResourceCost)
unfolding found_in
in_order [] groups = []
in_order (key ∷ order) groups = found_in key groups ++ in_order order groups

unfoldable pub coverage_breakdown : CostEstimate → List (String × List ResourceCost)
unfolding in_order group_by coverage_label
coverage_breakdown e = in_order coverage_order (group_by coverage_label e.resources)

unfoldable pub changed_resources : CostEstimate → List ResourceCost
changed_resources e = filterb (λ r. not (eqb_ℤ r.delta_monthly_cost (pos 0))) e.resources

unfoldable pub is_pr_change : ResourceCost → Bool
unfolding has_change_action
is_pr_change r =
    if not (eqb_ℤ r.delta_monthly_cost (pos 0)) then true else has_change_action r.action

-- `(-abs(r.delta_monthly_cost), -r.new_monthly_cost, r.address)`
abbrev pub movers_first : ResourceCost → ResourceCost → Bool
movers_first r s =
    ltb (abs_ℕ s.delta_monthly_cost) (abs_ℕ r.delta_monthly_cost)
    || ((abs_ℕ s.delta_monthly_cost == abs_ℕ r.delta_monthly_cost)
        && (ltb_ℤ s.new_monthly_cost r.new_monthly_cost
            || (eqb_ℤ s.new_monthly_cost r.new_monthly_cost && le_text r.address s.address)))

unfoldable pub pr_changed_resources : CostEstimate → List ResourceCost
unfolding sort_by is_pr_change
pr_changed_resources e = sort_by movers_first (filterb is_pr_change e.resources)

unfoldable pub ordered_resources : CostEstimate → List ResourceCost
unfolding sort_by
ordered_resources e = sort_by movers_first e.resources
