-- ===== src/Stacks.antt =====
-- stacks.py: the registry of the Terraform roots that the gate can price.
-- The registry is what stands at its path, as the YAML parser reads it, with texts for the keys of a
-- mapping; `show` is `str` of a value that is no text.
pub mod Registry
pub mod Selection
use finops_cost_engine_poc.Prelude.{
  ℕ, String, ◌<>◌, ◌++◌, Bool, true, false, not, ◌&&◌, ◌||◌, List, [], ◌∷◌, Option, none, some, map,
  anyb, length, filterb, str_eq, leb, if◌then◌else◌,
}
use finops_cost_engine_poc.Prelude.Text.{len_text}
use finops_cost_engine_poc.Prelude.Paths.{
  split_on, letters, lstrip_dots, rstrip_slash, with_slashes, is_key_segment,
}
use finops_cost_engine_poc.Prelude.Order.{sort_by}
use package.text.Mathlib.Text.{starts_with}
use finops_cost_engine_poc.Json.{
  Json, null, bool, num, text, arr, obj, Items, Fields, end, field, get, truthy, equals_text,
  to_list,
}
use finops_cost_engine_poc.Models.{le_text}
use finops_cost_engine_poc.Errors.{
  Message, Result, ok, raise, finops, key_error, raise_if, ◌>>=◌, ◌>>◌, configuration_error,
}

abbrev pub stacks_schema_version : String
stacks_schema_version = "1.0"

abbrev pub supported_clouds : List String
supported_clouds = "aws" ∷ "azure" ∷ "gcp" ∷ []

-- `_CLOUD_REQUIRED_FIELDS`
abbrev pub cloud_required_fields : String → List String
cloud_required_fields cloud =
    if str_eq cloud "azure"
    then "subscription_id" ∷ "location" ∷ "resource_group" ∷ "name_prefix" ∷ []
    else if str_eq cloud "gcp"
    then "project_id" ∷ "region" ∷ "name_prefix" ∷ []
    else []

-- What the registry gives as it is, a text or another value, is a JSON value; a falsy one is null.
pub record Stack : Type 0 where
  pub name : String
  pub terraform_dir : String
  pub cloud : String
  pub deployable : Bool
  pub environment : String
  pub state_key : String
  pub paths : List String
  pub var_file : Json
  pub usage_file : Json
  pub deferred_reason : Json
  pub subscription_id : Json
  pub location : Json
  pub project_id : Json
  pub region : Json
  pub zone : Json
  pub resource_group : Json
  pub name_prefix : Json

unfoldable pub expected_state_key : String → String → String → String
expected_state_key cloud environment workload =
    "finops-poc/" <> environment <> "/" <> cloud <> "/" <> workload <> "/terraform.tfstate"

-- `_require`
unfoldable pub require_field : Fields → String → Result Json
require_field raw key = required (get key raw)
  where
    required : Json → Result Json
    required null = raise (finops (configuration_error Message.missing_field))
    required (text s) =
        if str_eq s ""
        then raise (finops (configuration_error Message.missing_field))
        else ok (text s)
    required v = ok v

unfoldable pub validate_cloud : String → Result String
validate_cloud cloud =
    if anyb (str_eq cloud) supported_clouds
    then ok cloud
    else raise (finops (configuration_error Message.unsupported_cloud))

-- the groups of a match of `_MULTICLOUD_STATE_KEY_RE`: the environment and the cloud. Its `$` also
-- stands in front of a last line break.
matched : List String → Option (String × String)
matched (root ∷ environment ∷ cloud ∷ workload ∷ file ∷ []) =
    if str_eq root "finops-poc"
      && (is_key_segment environment
          && ((str_eq cloud "azure" || str_eq cloud "gcp")
              && (is_key_segment workload
                  && (str_eq file "terraform.tfstate" || str_eq file "terraform.tfstate\n"))))
    then some (environment, cloud)
    else none
matched _ = none

unfoldable pub match_state_key : String → Option (String × String)
unfolding matched
match_state_key key = matched (split_on b'/' key)

-- the tests of `_validate_state_key` on a match
pub groups_agree : Option (String × String) → String → String → Result (Unit {0})
groups_agree none cloud environment = raise (finops (configuration_error Message.bad_state_key))
groups_agree (some (e, c)) cloud environment = do
  raise_if (not (str_eq c cloud)) (configuration_error Message.state_key_cloud)
  raise_if (not (str_eq e environment)) (configuration_error Message.state_key_environment)

unfoldable pub validate_state_key : String → String → String → Result (Unit {0})
unfolding groups_agree
validate_state_key cloud environment state_key =
    if str_eq cloud "aws" then ok tt else groups_agree (match_state_key state_key) cloud environment

-- `for field in fields: _require(body, field, name)`
unfoldable pub require_all : Fields → List String → Result (Unit {0})
require_all body [] = ok tt
require_all body (key ∷ rest) = do value ← require_field body key; require_all body rest

-- `body.get(key) or None`
abbrev or_none : Json → Json
or_none v = if truthy v then v else null

pub keys_of : Fields → List String
keys_of end = []
keys_of (field k v rest) = k ∷ keys_of rest

module _ (show : Json → String) where
  -- `str(value)`
  abbrev pub str : Json → String
  str (text s) = s
  str v = show v

  -- `tuple(str(p) for p in value)` of a truthy value: a text gives its characters, a dict its keys
  pub items_of : Json → Result (List String)
  unfolding keys_of
  items_of (arr l) = ok (map str (to_list l))
  items_of (text s) = ok (letters s)
  items_of (obj d) = ok (keys_of d)
  items_of _ = raise key_error

  unfoldable pub stack_of : String → Fields → Result Stack
  unfolding items_of
  stack_of name body = do
    dir ← require_field body "terraform_dir"
    let terraform_dir = rstrip_slash (str dir)
    raise_if (starts_with terraform_dir "/" || anyb (str_eq "..") (split_on b'/' terraform_dir))
        (configuration_error Message.bad_terraform_dir)
    paths ←
        (if truthy (get "paths" body)
          then items_of (get "paths" body)
          else ok ((terraform_dir <> "/") ∷ []))
    declared ← require_field body "cloud"
    cloud ← validate_cloud (str declared)
    given ← require_field body "environment"
    let environment = str given
    key ← require_field body "state_key"
    let state_key = str key
    validate_state_key cloud environment state_key
    require_all body (cloud_required_fields cloud)
    ok (record {
      name = name;
      terraform_dir = terraform_dir;
      cloud = cloud;
      deployable = truthy (get "deployable" body);
      environment = environment;
      state_key = state_key;
      paths = paths;
      var_file = or_none (get "var_file" body);
      usage_file = or_none (get "usage_file" body);
      deferred_reason = or_none (get "deferred_reason" body);
      subscription_id = or_none (get "subscription_id" body);
      location = or_none (get "location" body);
      project_id = or_none (get "project_id" body);
      region = or_none (get "region" body);
      zone = or_none (get "zone" body);
      resource_group = or_none (get "resource_group" body);
      name_prefix = or_none (get "name_prefix" body);
    })

  -- the loop over `entries.items()`
  unfoldable pub stacks_of : Fields → Result (List Stack)
  stacks_of end = ok []
  stacks_of (field name (obj body) rest) = do
    stack ← stack_of name body
    stacks ← stacks_of rest
    ok (stack ∷ stacks)
  stacks_of (field name _ rest) = raise (finops (configuration_error Message.stack_not_mapping))

-- `len(set(keys)) != len(keys)`
unfoldable pub shares_key : List Stack → Bool
shares_key [] = false
shares_key (s ∷ rest) = anyb (λ t. str_eq s.state_key t.state_key) rest || shares_key rest

-- What stands at the path of the registry.
pub data RegistryFile : Type 0 where
  absent no_yaml : RegistryFile
  parsed : Json → RegistryFile

-- `yaml.safe_load(...) or {}`, of which only a dict has `get`
pub registry_fields : Json → Result Fields
registry_fields (obj raw) = ok raw
registry_fields v = if truthy v then raise key_error else ok end

-- `entries`, which must be a dict that is not empty
pub entries_of : Json → Result Fields
entries_of (obj end) = raise (finops (configuration_error Message.no_stacks))
entries_of (obj entries) = ok entries
entries_of _ = raise (finops (configuration_error Message.no_stacks))

module _ (show : Json → String) where
  unfoldable pub load_stacks : RegistryFile → Result (List Stack)
  unfolding registry_fields entries_of
  load_stacks absent = raise (finops (configuration_error Message.registry_not_found))
  load_stacks no_yaml = raise (finops (configuration_error Message.registry_not_yaml))
  load_stacks (parsed document) = do
    raw ← registry_fields document
    raise_if (not (equals_text (get "schema_version" raw) stacks_schema_version))
        (configuration_error Message.bad_registry_version)
    entries ← entries_of (get "stacks" raw)
    stacks ← stacks_of show entries
    raise_if (shares_key stacks) (configuration_error Message.shared_state_key)
    ok stacks

-- `stacks[name]` of a dict by names
unfoldable pub named_stack : String → List Stack → Result Stack
named_stack name [] = raise (finops (configuration_error Message.unknown_stack))
named_stack name (s ∷ rest) = if str_eq s.name name then ok s else named_stack name rest

unfoldable pub get_stack : (Json → String) → String → RegistryFile → Result Stack
get_stack show name file = do stacks ← load_stacks show file; named_stack name stacks

unfoldable pub validate_selection : Stack → String → String → Bool → Result Stack
validate_selection stack cloud environment require_deployable = do
  raise_if (not (str_eq stack.cloud cloud)) (configuration_error Message.cloud_mismatch)
  raise_if (not (str_eq stack.environment environment))
      (configuration_error Message.environment_mismatch)
  raise_if (require_deployable && not stack.deployable) (configuration_error Message.not_deployable)
  ok stack

-- the prefixes with their stacks, in the order of the registry
unfoldable pub prefixes : List Stack → List (String × Stack)
prefixes [] = []
prefixes (s ∷ rest) = map (λ p. (p, s)) s.paths ++ prefixes rest

-- longest first
abbrev pub by_length : String × Stack → String × Stack → Bool
by_length a b = leb (len_text b.0) (len_text a.0)

abbrev pub normalised : String → String
normalised changed = lstrip_dots (with_slashes changed)

-- the stack of the first prefix that the file starts with
unfoldable pub attributed : String → List (String × Stack) → Option Stack
attributed file [] = none
attributed file (p ∷ rest) = if starts_with file p.0 then some p.1 else attributed file rest

-- `cloud is None or stack.cloud == cloud`
abbrev in_cloud : Option String → Stack → Bool
in_cloud none s = true
in_cloud (some c) s = str_eq s.cloud c

-- `selected[stack.name] = stack`
abbrev put_stack : Stack → List Stack → List Stack
put_stack s selected = if anyb (λ t. str_eq s.name t.name) selected then selected else s ∷ selected

abbrev select_one : Option String → Option Stack → List Stack → List Stack
select_one cloud none selected = selected
select_one cloud (some s) selected = if in_cloud cloud s then put_stack s selected else selected

select_files : Option String → List (String × Stack) → List String → List Stack
select_files cloud ordered [] = []
select_files cloud ordered (file ∷ rest) =
    select_one cloud (attributed (normalised file) ordered) (select_files cloud ordered rest)

abbrev by_name : Stack → Stack → Bool
by_name s t = le_text s.name t.name

-- `if cloud is not None: _validate_cloud(cloud, ...)`
abbrev check_cloud : Option String → Result (Unit {0})
check_cloud none = ok tt
check_cloud (some c) = do valid ← validate_cloud c; ok tt

unfoldable pub select_stacks :
    (Json → String) → List String → RegistryFile → Option String → Result (List Stack)
unfolding select_files
select_stacks show changed_files file cloud = do
  check_cloud cloud
  stacks ← load_stacks show file
  ok (sort_by by_name (select_files cloud (sort_by by_length (prefixes stacks)) changed_files))
