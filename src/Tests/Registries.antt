-- ===== src/Tests/Registries.antt =====
-- Witnesses for the theorems on the registry of stacks.
use finops_cost_engine_poc.Prelude.Paths.{is_key_segment, rstrip_slash, split_on}
use finops_cost_engine_poc.Prelude.{String, Bool, true, List, [], ◌∷◌, some, ◌≡◌, ◌↔◌, refl, All}
use finops_cost_engine_poc.Prelude.Order.{sort_by}
use finops_cost_engine_poc.Prelude.Text.{len_text}
use finops_cost_engine_poc.Json.{Json, obj, Fields, end, field, bool, equals_text, get, truthy}
use finops_cost_engine_poc.Errors.{Result, ok, raise}
use finops_cost_engine_poc.Stacks.{
  Stack, RegistryFile, parsed, load_stacks, validate_selection, attributed, prefixes, by_length,
  stacks_of, validate_state_key, validate_cloud, shares_key, require_all, require_field,
  match_state_key, stack_of,
}
use finops_cost_engine_poc.Stacks.Registry.{IsRegistered, Isolated, load_stacks-Isolated}
use finops_cost_engine_poc.Stacks.Selection.{
  validate_selection-ok_iff, IsAttributed, attributed-Longest,
}
use finops_cost_engine_poc.Tests.{shown_as}

abbrev web_entry : Fields
web_entry = field "terraform_dir" (Json.text "infra/web") (
    field "cloud" (Json.text "aws") (
      field "environment" (Json.text "dev")
        (field "state_key" (Json.text "web.tfstate") (field "deployable" (bool true) end))))

abbrev shop_entry : Fields
shop_entry = field "terraform_dir" (Json.text "infra/web/shop") (
    field "cloud" (Json.text "azure") (
      field "environment" (Json.text "dev") (
        field "state_key" (Json.text "finops-poc/dev/azure/shop/terraform.tfstate") (
          field "subscription_id" (Json.text "1") (
            field "location" (Json.text "uk") (
              field "resource_group" (Json.text "rg")
                (field "name_prefix" (Json.text "shop") end)))))))

abbrev registry : RegistryFile
registry = parsed (
    obj (
      field "schema_version" (Json.text "1.0") (
        field "stacks" (obj (field "web" (obj web_entry) (field "shop" (obj shop_entry) end)))
          end)))

abbrev loaded : Result (List Stack) → List Stack
loaded (ok stacks) = stacks
loaded (raise e) = []

abbrev stacks : List Stack
stacks = loaded (load_stacks shown_as registry)

loaded_is : load_stacks shown_as registry ≡ ok stacks
unfolding load_stacks equals_text get stacks_of stack_of require_field rstrip_slash split_on truthy
    validate_cloud validate_state_key require_all match_state_key is_key_segment shares_key
loaded_is = refl

load_stacks-Isolated_example : All IsRegistered stacks × Isolated stacks
load_stacks-Isolated_example = load_stacks-Isolated shown_as registry stacks loaded_is

abbrev plain : String → String → List String → Stack
plain name cloud paths = record {
  name = name;
  terraform_dir = name;
  cloud = cloud;
  deployable = true;
  environment = "dev";
  state_key = name;
  paths = paths;
  var_file = Json.null;
  usage_file = Json.null;
  deferred_reason = Json.null;
  subscription_id = Json.null;
  location = Json.null;
  project_id = Json.null;
  region = Json.null;
  zone = Json.null;
  resource_group = Json.null;
  name_prefix = Json.null;
}

abbrev web : Stack
web = plain "web" "aws" ("infra/web/" ∷ [])

abbrev shop : Stack
shop = plain "shop" "azure" ("infra/web/shop/" ∷ [])

validate_selection-ok_iff_example : (validate_selection web "azure" "dev" true ≡ ok web) ↔ (
    (web.cloud ≡ "azure")
    × (web.environment ≡ "dev")
    × (◌≡◌ {A = Bool} true true → web.deployable ≡ true)
    × (web ≡ web))
validate_selection-ok_iff_example = validate_selection-ok_iff web web "azure" "dev" true

nested_is :
    attributed "infra/web/shop/main.tf" (sort_by by_length (prefixes (web ∷ shop ∷ []))) ≡ some shop
unfolding attributed sort_by prefixes len_text
nested_is = refl

attributed-Longest_example :
    IsAttributed "infra/web/shop/main.tf" (prefixes (web ∷ shop ∷ [])) (some shop)
attributed-Longest_example =
    attributed-Longest "infra/web/shop/main.tf" (web ∷ shop ∷ []) (some shop) nested_is
