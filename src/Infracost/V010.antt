-- ===== src/Infracost/V010.antt =====
-- cost/infracost/parser.py: `infracost breakdown --format json`, the schema of the 0.10 line, and
-- the choice between the two.
use finops_cost_engine_poc.Prelude.{
  ℤ, pos, String, Bool, true, false, not, ◌&&◌, ◌||◌, List, [], ◌∷◌, Option, none, some, length,
  str_eq, if◌then◌else◌,
}
use finops_cost_engine_poc.Prelude.Dict.{Dict, put, update, is_in, keys}
use finops_cost_engine_poc.Json.{Json, null, Fields, get, truthy, as_dict}
use finops_cost_engine_poc.Errors.{Result, ok, ◌>>=◌}
use finops_cost_engine_poc.Models.{CostComponent}
use finops_cost_engine_poc.Plan.Normalizer.{shown}
use finops_cost_engine_poc.Infracost.Parsed.{
  Numbers, dec, or_zero, count_or_default, ParsedResource, ParsedBreakdown, Schema, v2, v010,
  currency_of, dicts_at, Parts, no_parts, join, parts_of, detect_schema,
}
use finops_cost_engine_poc.Infracost.V2.{parse_v2}

-- `monthly is None`
abbrev pub is_missing : Option ℤ → Bool
is_missing none = true
is_missing (some v) = false

module _ (show : Json → String) (numbers : Numbers) where
  -- one of the `costComponents`
  unfoldable pub component_v010 : Fields → CostComponent
  component_v010 raw =
      let monthly = dec numbers (get "monthlyCost" raw) in
      record {
        name = shown show (get "name" raw);
        unit = shown show (get "unit" raw);
        monthly_quantity = dec numbers (get "monthlyQuantity" raw);
        price_per_unit = dec numbers (get "price" raw);
        monthly_cost = monthly;
        usage_based = truthy (get "usageBased" raw);
        price_not_found = truthy (get "priceNotFound" raw) || is_missing monthly;
      }

  -- what one component adds: its cost if it has one
  abbrev pub part_v010 : CostComponent → Parts
  part_v010 c = record {
    components = c ∷ [];
    total = or_zero c.monthly_cost;
    uses = c.usage_based;
    misses = c.price_not_found;
  }

  unfoldable pub own_v010 : List Fields → Parts
  own_v010 [] = no_parts
  own_v010 (raw ∷ rest) = join (part_v010 (component_v010 raw)) (own_v010 rest)

  -- `_parse_v010_components`
  unfoldable pub components_v010 : Fields → Parts
  components_v010 = parts_of show (λ node. own_v010 (dicts_at "costComponents" node))

  -- `_dec(raw.get("monthlyCost")) if raw.get("monthlyCost") is not None else total`
  unfoldable pub cost_v010 : Json → ℤ → Option ℤ
  cost_v010 null total = some total
  cost_v010 v total = dec numbers v

  unfoldable pub resource_v010 : String → Fields → Parts → ParsedResource
  resource_v010 address raw p = record {
    address = address;
    resource_type = shown show (get "resourceType" raw);
    monthly_cost = cost_v010 (get "monthlyCost" raw) p.total;
    components = p.components;
    is_supported = true;
    is_free = false;
    has_usage_based = p.uses;
    has_missing_price = p.misses;
  }

  unfoldable pub free_v010 : String → Fields → ParsedResource
  free_v010 address raw = record {
    address = address;
    resource_type = shown show (get "resourceType" raw);
    monthly_cost = some (pos 0);
    components = [];
    is_supported = true;
    is_free = true;
    has_usage_based = false;
    has_missing_price = false;
  }

  unfoldable pub priced_resources : List Fields → Dict ParsedResource → Dict ParsedResource
  priced_resources [] d = d
  priced_resources (raw ∷ rest) d =
      let address = shown show (get "name" raw) in
      priced_resources rest (
        if str_eq address ""
        then d
        else put address (resource_v010 address raw (components_v010 raw)) d)

  unfoldable pub free_resources : List Fields → Dict ParsedResource → Dict ParsedResource
  free_resources [] d = d
  free_resources (raw ∷ rest) d =
      let address = shown show (get "name" raw) in
      free_resources rest (
        if not (str_eq address "") && not (is_in address (keys d))
        then put address (free_v010 address raw) d
        else d)

  -- `_parse_v010_breakdown_node`
  unfoldable pub breakdown_node : Fields → Dict ParsedResource
  breakdown_node node =
      free_resources (dicts_at "freeResources" node)
        (priced_resources (dicts_at "resources" node) [])

  unfoldable pub projects_v010 : List Fields → Dict ParsedResource → Dict ParsedResource
  projects_v010 [] d = d
  projects_v010 (project ∷ rest) d =
      projects_v010 rest (update d (breakdown_node (as_dict (get "breakdown" project))))

  unfoldable pub parse_v010 : Fields → Result ParsedBreakdown
  parse_v010 document = do
    let summary = as_dict (get "summary" document)
    let resources = projects_v010 (dicts_at "projects" document) []
    detected ← count_or_default numbers (get "totalDetectedResources" summary) (length resources)
    supported ← count_or_default numbers (get "totalSupportedResources" summary) 0
    unsupported ← count_or_default numbers (get "totalUnsupportedResources" summary) 0
    no_price ← count_or_default numbers (get "totalNoPriceResources" summary) 0
    usage_based ← count_or_default numbers (get "totalUsageBasedResources" summary) 0
    ok (record {
      currency = currency_of (shown show (get "currency" document));
      total_monthly_cost = dec numbers (get "totalMonthlyCost" document);
      resources = resources;
      coverage = record {
        detected_resources = detected;
        supported_resources = supported;
        unsupported_resources = unsupported;
        no_price_resources = no_price;
        usage_based_resources = usage_based;
        unsupported_resource_counts = as_dict (get "unsupportedResourceCounts" summary);
        no_price_resource_counts = as_dict (get "noPriceResourceCounts" summary);
      };
      schema = v010;
      warnings = [];
    })

  abbrev pub parse_as : Fields → Schema → Result ParsedBreakdown
  parse_as document v2 = parse_v2 show numbers document
  parse_as document v010 = parse_v010 document

  unfoldable pub parse_document : Json → Result ParsedBreakdown
  parse_document document = do schema ← detect_schema document; parse_as (as_dict document) schema
