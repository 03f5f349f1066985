-- ===== src/Plan/Sanitizer.antt =====
-- plan/sanitizer.py: what of a plan may cross to the AI provider. The sensitive patterns hold no
-- special characters, so a case-insensitive search for one is a search in the lowered name.
pub mod Boundary
use finops_cost_engine_poc.Prelude.{
  ℕ, zero, suc, ◌+◌, ◌*◌, pos, String, Bool, true, false, List, [], ◌∷◌, map, length, take, ltb,
  anyb, str_eq, if◌then◌else◌,
}
use finops_cost_engine_poc.Prelude.Text.{lower, has_infix, take_text}
use finops_cost_engine_poc.Json.{
  Json, null, bool, num, text, arr, obj, Items, nil, cons, Fields, end, field, of_list, optional,
}
use finops_cost_engine_poc.Decimal.{one_unit}
use finops_cost_engine_poc.Models.{
  ResourceChange, NormalizedPlan, cost_relevant_changes, cloud_value, action_value,
}

abbrev pub redacted : String
redacted = "[REDACTED]"

abbrev pub sensitive_patterns : List String
sensitive_patterns =
    "password" ∷ "secret" ∷ "token" ∷ "credential" ∷ "private_key" ∷ "public_key" ∷ "certificate"
    ∷ "cert_body" ∷ "api_key" ∷ "access_key" ∷ "session_key" ∷ "connection_string" ∷ "sas_" ∷ "salt"
    ∷ "passphrase" ∷ "user_data" ∷ "custom_data" ∷ "kms_key" ∷ "encryption_key" ∷ "auth" ∷ []

abbrev pub cost_relevant_keys : List String
cost_relevant_keys =
    "instance_type" ∷ "instance_class" ∷ "machine_type" ∷ "size" ∷ "sku" ∷ "sku_name" ∷ "sku_tier"
    ∷ "tier" ∷ "vm_size" ∷ "volume_type" ∷ "volume_size" ∷ "disk_size" ∷ "disk_size_gb"
    ∷ "disk_type" ∷ "storage_type" ∷ "allocated_storage" ∷ "engine" ∷ "engine_version" ∷ "multi_az"
    ∷ "replication_type" ∷ "account_replication_type" ∷ "count" ∷ "desired_capacity" ∷ "min_size"
    ∷ "max_size" ∷ "node_count" ∷ "initial_node_count" ∷ "capacity" ∷ "region" ∷ "location" ∷ "zone"
    ∷ "availability_zone" ∷ "os_type" ∷ "operating_system" ∷ "platform" ∷ "tenancy"
    ∷ "provisioned_throughput" ∷ "iops" ∷ "throughput" ∷ "root_block_device" ∷ "ebs_block_device"
    ∷ "os_disk" ∷ "boot_disk" ∷ "scratch_disk" ∷ "attached_disk" ∷ "network_interface" ∷ "enabled"
    ∷ "purchase_option" ∷ "spot_price" ∷ "billing_mode" ∷ "capacity_type" ∷ []

-- `_MAX_DEPTH`, `_MAX_LIST_ITEMS`, `_MAX_STRING_LEN`
abbrev pub max_depth : ℕ
max_depth = 4

abbrev pub max_list_items : ℕ
max_list_items = 5

abbrev pub max_string_len : ℕ
max_string_len = 200

unfoldable pub is_sensitive : String → Bool
is_sensitive key = anyb (λ pattern. has_infix pattern (lower key)) sensitive_patterns

unfoldable pub is_allowed : String → Bool
is_allowed key = anyb (str_eq key) cost_relevant_keys

-- `_sanitize_value`; `left` counts the list items that may still be kept.
unfoldable mutual
  pub sanitize_value : Json → ℕ → Json
  sanitize_value null depth = if ltb max_depth depth then text "[TRUNCATED]" else null
  sanitize_value (bool b) depth = if ltb max_depth depth then text "[TRUNCATED]" else bool b
  sanitize_value (num n) depth = if ltb max_depth depth then text "[TRUNCATED]" else num n
  sanitize_value (text s) depth =
      if ltb max_depth depth then text "[TRUNCATED]" else text (take_text max_string_len s)
  sanitize_value (arr items) depth =
      let kept = sanitize_items items max_list_items (depth + 1) in
      if ltb max_depth depth then text "[TRUNCATED]" else arr kept
  sanitize_value (obj fields) depth =
      let kept = sanitize_fields fields (depth + 1) in
      if ltb max_depth depth then text "[TRUNCATED]" else obj kept

  pub sanitize_items : Items → ℕ → ℕ → Items
  sanitize_items nil left depth = nil
  sanitize_items (cons v rest) zero depth = nil
  sanitize_items (cons v rest) (suc left) depth =
      cons (sanitize_value v depth) (sanitize_items rest left depth)

  pub sanitize_fields : Fields → ℕ → Fields
  sanitize_fields end depth = end
  sanitize_fields (field k v rest) depth =
      let clean = sanitize_value v depth in
      field k (if is_sensitive k then text redacted else clean) (sanitize_fields rest depth)

-- Only cost-relevant attributes are kept.
unfoldable pub sanitize_attributes : Fields → Fields
sanitize_attributes end = end
sanitize_attributes (field k v rest) =
    let others = sanitize_attributes rest in
    if is_allowed k
    then field k (if is_sensitive k then text redacted else sanitize_value v 1) others
    else others

-- `if d: payload[key] = d`
abbrev add_filled : String → Fields → Fields → Fields
add_filled key end rest = rest
add_filled key attributes rest = field key (obj attributes) rest

unfoldable pub sanitize_change : ResourceChange → Json
sanitize_change c = obj (
    field "address" (text c.address) (
      field "cloud" (text (cloud_value c.cloud)) (
        field "resource_type" (text c.resource_type) (
          field "action" (text (action_value c.action)) (
            field "region" (optional c.region) (
              add_filled "before" (sanitize_attributes c.before)
                (add_filled "after" (sanitize_attributes c.after) end)))))))

unfoldable pub sanitize_plan : NormalizedPlan → ℕ → Json
sanitize_plan plan max_resources =
    let relevant = cost_relevant_changes plan in
    obj (
      field "terraform_version" (text plan.terraform_version) (
        field "clouds" (arr (of_list (map (λ c. text (cloud_value c)) plan.clouds))) (
          field "total_changes" (num (pos (length relevant * one_unit))) (
            field "truncated" (bool (ltb max_resources (length relevant))) (
              field "changes" (arr (of_list (map sanitize_change (take max_resources relevant))))
                end)))))
