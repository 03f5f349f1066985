-- ===== src/Plan/Normalizer.antt =====
-- plan/normalizer.py. A document is a parsed JSON value. A value of another kind than Terraform writes
-- (a number for a type, a list for a block) raises where Python does. The records hold texts: an
-- address or a name that is neither a text nor falsy, which Python keeps, raises as well here.
-- `show` is Python's `str` of a value that is no text.
pub mod Actions
pub mod Clouds
pub mod WellFormed
pub mod Changes
use finops_cost_engine_poc.Prelude.{
  ℕ, String, Bool, true, false, not, ◌&&◌, ◌||◌, ◌==◌, leb, List, [], ◌∷◌, map, Option, none, some,
  str_eq, starts_with, anyb, filterb, if◌then◌else◌,
}
use finops_cost_engine_poc.Prelude.Text.{
  lower, has_infix, after_last, before_first, before_last, drop_last, ends_in_letter, count_char,
  len_text,
}
use finops_cost_engine_poc.Json.{
  Json, null, bool, text, arr, obj, Fields, end, field, get, truthy, equals_text, as_dict, as_list,
  to_list,
}
use finops_cost_engine_poc.Errors.{
  Message, Result, ok, raise, finops, key_error, raise_if, ◌>>=◌, ◌>>◌, plan_error,
}
use finops_cost_engine_poc.Models.{
  Cloud, aws, azure, gcp, unknown, Action, ResourceChange, NormalizedPlan, is_cost_relevant,
  changes_cost, cloud_value, le_text,
}
use finops_cost_engine_poc.Prelude.Paths.{letters}
use finops_cost_engine_poc.Prelude.Order.{sort_by}

abbrev pub in_texts : String → List String → Bool
in_texts s = anyb (str_eq s)

-- `_TYPE_PREFIX_CLOUDS`, in order
unfoldable pub cloud_of_type : String → Option Cloud
cloud_of_type t =
    if starts_with t "aws_" || starts_with t "awscc_"
    then some aws
    else if starts_with t "azurerm_" || (starts_with t "azuread_" || starts_with t "azapi_")
    then some azure
    else if starts_with t "google_"
    then some gcp
    else none

-- one row of `_PROVIDER_CLOUDS`
provider_matches : String → List String → Bool
provider_matches provider needles =
    in_texts (after_last b'/' provider) needles || anyb (λ n. has_infix n provider) needles

unfoldable pub cloud_of_provider : String → Cloud
unfolding provider_matches has_infix after_last
cloud_of_provider p =
    if provider_matches p ("/aws" ∷ "hashicorp/aws" ∷ "aws" ∷ [])
    then aws
    else if provider_matches p ("azurerm" ∷ "azuread" ∷ "azapi" ∷ "azurestack" ∷ [])
    then azure
    else if provider_matches p ("google" ∷ "google-beta" ∷ [])
    then gcp
    else unknown

-- The resource type wins.
unfoldable pub detect_cloud : String → String → Cloud
unfolding lower
detect_cloud resource_type provider_name = elim (cloud_of_type (lower resource_type)) [
  | some c ↦ c
  | none ↦ cloud_of_provider (lower provider_name)
]

single : List String → Action
single (a ∷ []) =
    if str_eq a "create"
    then Action.create
    else if str_eq a "delete"
    then Action.delete
    else if str_eq a "update"
    then Action.update
    else if str_eq a "read"
    then Action.read
    else Action.noop
single _ = Action.noop

unfoldable pub normalize_action : List String → Action
unfolding single
normalize_action actions =
    let normalized = map lower actions in
    if in_texts "delete" normalized && in_texts "create" normalized
    then Action.replace
    else single normalized

abbrev pub Regions : Type 0
Regions = List (String × String)

unfoldable pub region_at : String → Regions → Option String
region_at k [] = none
region_at k ((j, r) ∷ rest) = if str_eq j k then some r else region_at k rest

put_region : String → String → Regions → Regions
put_region k r [] = (k, r) ∷ []
put_region k r ((j, s) ∷ rest) = if str_eq j k then (j, r) ∷ rest else (j, s) ∷ put_region k r rest

-- a text that is not empty
abbrev pub filled : Json → Option String
filled (text s) = if str_eq s "" then none else some s
filled _ = none

abbrev pub or_else : Option String → Option String → Option String
or_else (some s) o = some s
or_else none o = o

-- `value or {}`, of which only a dict has `get` and `items`
unfoldable pub block_or_empty : Json → Result Fields
block_or_empty (obj d) = ok d
block_or_empty v = if truthy v then raise key_error else ok end

-- `value or ""`, of which only a text has `lower` and `rsplit`
unfoldable pub name_or_empty : Json → Result String
name_or_empty (text s) = ok s
name_or_empty v = if truthy v then raise key_error else ok ""

-- `(expressions.get(attr) or {}).get("constant_value")`, if it is a text that is not empty
unfoldable pub constant_at : String → Fields → Result (Option String)
constant_at attr expressions = do
  block ← block_or_empty (get attr expressions)
  ok (filled (get "constant_value" block))

-- the first constant of `region` and `location`; the second is read if the first has none
unfoldable pub constant_region : Json → Result (Option String)
constant_region (obj cfg) = do
  expressions ← block_or_empty (get "expressions" cfg)
  region ← constant_at "region" expressions
  (elim region [ some c ↦ ok (some c) | none ↦ constant_at "location" expressions ])
constant_region _ = raise key_error

-- `regions[cfg.get("name", key)] = constant`: a list or a dict is no key, and a key that is no text
-- is never looked up.
unfoldable pub put_named : Json → String → Regions → Result Regions
unfolding put_region
put_named (text name) constant regions = ok (put_region name constant regions)
put_named (arr l) constant regions = raise key_error
put_named (obj d) constant regions = raise key_error
put_named _ constant regions = ok regions

unfoldable pub note_constant : String → Json → Option String → Regions → Result Regions
unfolding put_region
note_constant key cfg none regions = ok regions
note_constant key cfg (some c) regions =
    put_named (get "name" (as_dict cfg)) c (put_region key c regions)

unfoldable pub note_regions : Fields → Regions → Result Regions
note_regions end regions = ok regions
note_regions (field key cfg rest) regions = do
  constant ← constant_region cfg
  noted ← note_constant key cfg constant regions
  note_regions rest noted

unfoldable pub provider_regions : Fields → Result Regions
provider_regions plan = do
  configuration ← block_or_empty (get "configuration" plan)
  provider_config ← block_or_empty (get "provider_config" configuration)
  note_regions provider_config []

-- `next(iter(regions.values()), None)`
abbrev first_region : Regions → Option String
first_region [] = none
first_region ((_, r) ∷ _) = some r

zone_region : Cloud → Fields → Option String
unfolding get ends_in_letter drop_last before_last len_text
zone_region aws values = elim (get "availability_zone" values) [
  | text az ↦ if leb 2 (len_text az) && ends_in_letter az then some (drop_last az) else none
  | _ ↦ none
]
zone_region gcp values = elim (get "zone" values) [
  | text zone ↦ if leb 2 (count_char b'-' zone) then some (before_last b'-' zone) else none
  | _ ↦ none
]
zone_region _ values = none

unfoldable pub resource_region : Fields → Cloud → Option String → Option String
unfolding zone_region get
resource_region values cloud fallback =
    or_else (filled (get "region" values))
      (or_else (filled (get "location" values)) (or_else (zone_region cloud values) fallback))

-- `after or before`
abbrev pub or_fields : Fields → Fields → Fields
or_fields end before = before
or_fields after before = after

-- `[a.lower() for a in actions]`, before the lowering: only texts have `lower`
unfoldable pub texts_of : List Json → Result (List String)
texts_of [] = ok []
texts_of (text s ∷ rest) = do others ← texts_of rest; ok (s ∷ others)
texts_of (_ ∷ rest) = raise key_error

keys_of : Fields → List String
keys_of end = []
keys_of (field k v rest) = k ∷ keys_of rest

-- what the loop over `actions or []` meets: a text gives its characters, a dict its keys
unfoldable pub actions_in : Json → Result (List String)
unfolding keys_of
actions_in (arr l) = texts_of (to_list l)
actions_in (text s) = ok (letters s)
actions_in (obj d) = ok (keys_of d)
actions_in v = if truthy v then raise key_error else ok []

-- the loop's body on a managed entry
unfoldable pub change_of : Regions → Fields → Result ResourceChange
change_of regions entry = do
  resource_type ← name_or_empty (get "type" entry)
  provider_name ← name_or_empty (get "provider_name" entry)
  let cloud = detect_cloud resource_type provider_name
  let change = as_dict (get "change" entry)
  actions ← actions_in (get "actions" change)
  let before = as_dict (get "before" change)
  let after = as_dict (get "after" change)
  let fallback = or_else (region_at (after_last b'/' provider_name) regions) (first_region regions)
  address ← name_or_empty (get "address" entry)
  name ← name_or_empty (get "name" entry)
  ok (record {
    address = address;
    resource_type = resource_type;
    name = name;
    cloud = cloud;
    action = normalize_action actions;
    provider_name = provider_name;
    module_address = get "module_address" entry;
    index = get "index" entry;
    region = resource_region (or_fields after before) cloud fallback;
    before = before;
    after = after;
  })

-- what the loop over `resource_changes or []` meets: characters and keys are no dicts
unfoldable pub entries_in : Json → Result (List Json)
entries_in (arr l) = ok (to_list l)
entries_in (text s) = ok []
entries_in (obj d) = ok []
entries_in v = if truthy v then raise key_error else ok []

-- the loop: entries that are no dict or not managed are skipped
unfoldable pub changes_of : Regions → List Json → Result (List ResourceChange)
changes_of regions [] = ok []
changes_of regions (obj entry ∷ rest) =
    let others = changes_of regions rest in
    if equals_text (get "mode" entry) "managed"
    then (do change ← change_of regions entry; changes ← others; ok (change ∷ changes))
    else others
changes_of regions (_ ∷ rest) = changes_of regions rest

abbrev pub same_cloud : Cloud → Cloud → Bool
same_cloud aws aws = true
same_cloud azure azure = true
same_cloud gcp gcp = true
same_cloud unknown unknown = true
same_cloud _ _ = false

-- `clouds.add(cloud)` on a set
unfoldable pub add_cloud : Cloud → List Cloud → List Cloud
add_cloud cloud seen = if anyb (same_cloud cloud) seen then seen else cloud ∷ seen

-- the set `clouds` at the end of the loop
unfoldable pub seen_clouds : List ResourceChange → List Cloud → List Cloud
unfolding add_cloud is_cost_relevant
seen_clouds [] seen = seen
seen_clouds (c ∷ rest) seen =
    seen_clouds rest (if is_cost_relevant c then add_cloud c.cloud seen else seen)

abbrev pub by_value : Cloud → Cloud → Bool
by_value c d = le_text (cloud_value c) (cloud_value d)

-- `sorted(clouds, key=lambda c: c.value)`
unfoldable pub clouds_of : List ResourceChange → List Cloud
unfolding seen_clouds sort_by
clouds_of changes = sort_by by_value (seen_clouds changes [])

-- what is at a path
pub data FileContent : Type 0 where
  missing invalid : FileContent
  document : Json → FileContent

unfoldable pub load_plan_json : FileContent → Result Json
load_plan_json missing = raise (finops (plan_error Message.plan_not_found))
load_plan_json invalid = raise (finops (plan_error Message.plan_not_json))
load_plan_json (document j) = ok j

unfoldable pub is_supported_version : String → Bool
unfolding before_first
is_supported_version v = in_texts (before_first b'.' v) ("0" ∷ "1" ∷ [])

abbrev pub is_true : Json → Bool
is_true (bool b) = b
is_true _ = false

module _ (show : Json → String) where
  -- `str(value or "")`
  unfoldable pub shown : Json → String
  unfolding truthy
  shown (text s) = s
  shown v = if truthy v then show v else ""

  unfoldable pub normalize_fields : Fields → Result NormalizedPlan
  normalize_fields plan = do
    let version = shown (get "format_version" plan)
    raise_if (str_eq version "") (plan_error Message.missing_format_version)
    raise_if (not (is_supported_version version)) (plan_error Message.unsupported_format_version)
    raise_if (is_true (get "errored" plan)) (plan_error Message.plan_errored)
    regions ← provider_regions plan
    entries ← entries_in (get "resource_changes" plan)
    changes ← changes_of regions entries
    ok (record {
      terraform_version = shown (get "terraform_version" plan);
      format_version = version;
      changes = changes;
      clouds = clouds_of changes;
    })

  unfoldable pub normalize_plan : Json → Result NormalizedPlan
  unfolding normalize_fields
  normalize_plan (obj plan) = normalize_fields plan
  normalize_plan _ = raise (finops (plan_error Message.plan_not_object))

  unfoldable pub normalize_plan_file : FileContent → Result NormalizedPlan
  normalize_plan_file file = do plan ← load_plan_json file; normalize_plan plan
