-- ===== src/Infracost/Parsed.antt =====
-- The parts of the parser that both schemas of Infracost's output share.
-- `Numbers` is what Python reads from a text: a finite `Decimal` in units of 10^-40, and an `int`.
-- A count in Infracost's output is not negative; a negative one would be read as 0 here.
use finops_cost_engine_poc.Prelude.{
  ℕ, ◌/◌, ℤ, pos, negsuc, ◌+ℤ◌, eqb_ℤ, String, ◌<>◌, Bool, false, ◌||◌, List, [], ◌∷◌, ◌++◌, map,
  Option, none, some, str_eq, if◌then◌else◌,
}
use finops_cost_engine_poc.Prelude.Dict.{Dict}
use finops_cost_engine_poc.Json.{
  Json, bool, num, text, arr, obj, Items, nil, cons, Fields, end, field, get, has_key, truthy,
  as_list, to_list,
}
use finops_cost_engine_poc.Decimal.{one_unit}
use finops_cost_engine_poc.Errors.{
  Message, Result, ok, raise, finops, key_error, cost_estimation_error,
}
use finops_cost_engine_poc.Models.{
  Cloud, CostConfidence, unsupported, no_price, usage_based, free, priced, CostComponent,
  CostCoverage,
}
use finops_cost_engine_poc.Plan.Normalizer.{detect_cloud, shown}

pub record Numbers : Type 0 where
  pub decimal : String → Option ℤ
  pub whole : String → Option ℕ

-- `_dec`: what is no number, and a null, is `None`. The texts that read as an infinity or a NaN, which
-- Python returns as such, are outside the model.
unfoldable pub dec : Numbers → Json → Option ℤ
dec numbers (num n) = some n
dec numbers (text s) = if str_eq s "" then none else numbers.decimal s
dec numbers _ = none

-- `value or ZERO` of a decimal
abbrev pub or_zero : Option ℤ → ℤ
or_zero none = pos 0
or_zero (some v) = v

abbrev whole_text : Option ℕ → Result ℕ
whole_text none = raise key_error
whole_text (some n) = ok n

-- `int(value)` of a truthy value
whole_of : Numbers → Json → Result ℕ
whole_of numbers (num (pos n)) = ok (n / one_unit)
whole_of numbers (num (negsuc n)) = ok 0
whole_of numbers (bool b) = ok 1
whole_of numbers (text s) = whole_text (numbers.whole s)
whole_of numbers _ = raise key_error

-- `int(value or default)`
unfoldable pub count_or_default : Numbers → Json → ℕ → Result ℕ
unfolding whole_of
count_or_default numbers v default = if truthy v then whole_of numbers v else ok default

pub record ParsedResource : Type 0 where
  pub address : String
  pub resource_type : String
  pub monthly_cost : Option ℤ
  pub components : List CostComponent
  pub is_supported : Bool
  pub is_free : Bool
  pub has_usage_based : Bool
  pub has_missing_price : Bool

unfoldable pub cloud_of : ParsedResource → Cloud
unfolding detect_cloud
cloud_of r = detect_cloud r.resource_type ""

-- `monthly_cost is not None and monthly_cost == ZERO`
abbrev costs_nothing : Option ℤ → Bool
costs_nothing none = false
costs_nothing (some v) = eqb_ℤ v (pos 0)

unfoldable pub confidence : ParsedResource → CostConfidence
confidence r =
    if r.is_supported
    then (if r.has_missing_price
        then no_price
        else if r.has_usage_based
        then usage_based
        else if r.is_free || costs_nothing r.monthly_cost
        then free
        else priced)
    else unsupported

pub data Schema : Type 0 where
  v2 v010 : Schema

pub record ParsedBreakdown : Type 0 where
  pub currency : String
  pub total_monthly_cost : Option ℤ
  pub resources : Dict ParsedResource
  pub coverage : CostCoverage
  pub schema : Schema
  pub warnings : List String

-- `str(value or default)` of the currency
abbrev pub currency_of : String → String
currency_of s = if str_eq s "" then "USD" else s

-- `[x for x in values if isinstance(x, dict)]`
abbrev pub dicts : List Json → List Fields
dicts [] = []
dicts (obj d ∷ rest) = d ∷ dicts rest
dicts (v ∷ rest) = dicts rest

-- the entries of a list under a key that are dicts
abbrev pub dicts_at : String → Fields → List Fields
dicts_at key d = dicts (to_list (as_list (get key d)))

-- What the components of a resource come to: `components`, `total`, `usage_based`, `missing_price`.
pub record Parts : Type 0 where
  pub components : List CostComponent
  pub total : ℤ
  pub uses : Bool
  pub misses : Bool

abbrev pub no_parts : Parts
no_parts = record { components = []; total = pos 0; uses = false; misses = false }

unfoldable pub join : Parts → Parts → Parts
join p q = record {
  components = p.components ++ q.components;
  total = p.total +ℤ q.total;
  uses = p.uses || q.uses;
  misses = p.misses || q.misses;
}

-- `f"{sub_name}: {c.name}" if sub_name else c.name`
unfoldable pub labelled : String → CostComponent → CostComponent
labelled sub_name c = record c {
  name = if str_eq sub_name "" then c.name else sub_name <> ": " <> c.name;
}

abbrev pub label_parts : String → Parts → Parts
label_parts sub_name p = record p { components = map (labelled sub_name) p.components }

-- The walk over a resource and its subresources; `own` collects a node's own components.
module _ (show : Json → String) (own : Fields → Parts) where
  unfoldable mutual
    -- `_as_list(node.get("subresources"))`, under the first such key
    pub subs : Fields → Parts
    subs end = no_parts
    subs (field k v rest) =
        let here = subs_of v in
        let others = subs rest in if str_eq k "subresources" then here else others

    pub subs_of : Json → Parts
    subs_of (arr items) = each items
    subs_of _ = no_parts

    pub each : Items → Parts
    each nil = no_parts
    each (cons (obj sub) rest) =
        join (label_parts (shown show (get "name" sub)) (join (own sub) (subs sub))) (each rest)
    each (cons _ rest) = each rest

  unfoldable pub parts_of : Fields → Parts
  parts_of node = join (own node) (subs node)

-- `"resources" in project`, for the first project that says which schema it is
abbrev schema_of_projects : List Fields → Result Schema
schema_of_projects [] = raise (finops (cost_estimation_error Message.unrecognised_schema))
schema_of_projects (project ∷ rest) =
    if has_key "resources" project
    then ok v2
    else if has_key "breakdown" project
    then ok v010
    else schema_of_projects rest

-- a summary of the second schema: `isinstance` of a dict with the total
abbrev has_total : Json → Bool
has_total (obj d) = has_key "total_monthly_cost" d
has_total _ = false

unfoldable pub detect_schema : Json → Result Schema
detect_schema (obj document) =
    if has_key "diffTotalMonthlyCost" document || has_key "totalMonthlyCost" document
    then ok v010
    else if has_total (get "summary" document)
    then ok v2
    else schema_of_projects (dicts_at "projects" document)
detect_schema _ = raise (finops (cost_estimation_error Message.not_json_object))
