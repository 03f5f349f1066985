-- ===== src/Infracost/V2.antt =====
-- cost/infracost/parser.py: `infracost scan --json`, the second schema.
use finops_cost_engine_poc.Prelude.{
  ℕ, ◌+◌, ◌-◌, ℤ, pos, eqb_ℤ, String, Bool, true, false, not, ◌&&◌, ◌||◌, List, [], ◌∷◌, Option,
  none, some, leb, length, is_empty, str_eq, if◌then◌else◌,
}
use finops_cost_engine_poc.Prelude.Dict.{Dict, put}
use finops_cost_engine_poc.Json.{Json, bool, Fields, end, field, get, truthy, as_dict}
use finops_cost_engine_poc.Errors.{Result, ok, ◌>>=◌}
use finops_cost_engine_poc.Models.{CostComponent}
use finops_cost_engine_poc.CostLock.{count_of}
use finops_cost_engine_poc.Plan.Normalizer.{shown}
use finops_cost_engine_poc.Plan.StateShim.{get_or}
use finops_cost_engine_poc.Infracost.Parsed.{
  Numbers, dec, or_zero, count_or_default, ParsedResource, ParsedBreakdown, v2, currency_of,
  dicts_at, Parts, no_parts, join, parts_of,
}

-- `monthly is None or price is None`
abbrev pub unpriced_component : Option ℤ → Option ℤ → Bool
unpriced_component (some monthly) (some price) = false
unpriced_component _ _ = true

module _ (show : Json → String) (numbers : Numbers) where
  -- one of the `cost_components`
  unfoldable pub component_v2 : Fields → CostComponent
  component_v2 raw =
      let price = dec numbers (get "price" raw) in
      let monthly = dec numbers (get "total_monthly_cost" raw) in
      record {
        name = shown show (get "name" raw);
        unit = shown show (get "unit" raw);
        monthly_quantity = dec numbers (get "quantity" raw);
        price_per_unit = price;
        monthly_cost = monthly;
        usage_based = not (eqb_ℤ (or_zero (dec numbers (get "usage_monthly_cost" raw))) (pos 0));
        price_not_found = unpriced_component monthly price;
      }

  -- what one component adds: its cost only if it has a price
  abbrev pub part_v2 : CostComponent → Parts
  part_v2 c = record {
    components = c ∷ [];
    total = if c.price_not_found then pos 0 else or_zero c.monthly_cost;
    uses = c.usage_based;
    misses = c.price_not_found;
  }

  unfoldable pub own_v2 : List Fields → Parts
  own_v2 [] = no_parts
  own_v2 (raw ∷ rest) = join (part_v2 (component_v2 raw)) (own_v2 rest)

  -- `_parse_v2_components`
  unfoldable pub components_v2 : Fields → Parts
  components_v2 = parts_of show (λ node. own_v2 (dicts_at "cost_components" node))

-- the counts by type, and what else the loop of `parse_v2` keeps
pub record V2State : Type 0 where
  pub resources : Dict ParsedResource
  pub unsupported_counts : Dict ℕ
  pub no_price_counts : Dict ℕ
  pub usage_based_total : ℕ

-- `counts[key] = counts.get(key, 0) + 1`
unfoldable pub tally : String → Dict ℕ → Dict ℕ
tally key [] = (key, 1) ∷ []
tally key ((k, n) ∷ rest) =
    let others = tally key rest in if str_eq k key then (k, n + 1) ∷ rest else (k, n) ∷ others

unfoldable pub sum_counts : Dict ℕ → ℕ
sum_counts [] = 0
sum_counts ((k, n) ∷ rest) = n + sum_counts rest

abbrev pub counts_dict : Dict ℕ → Fields
counts_dict [] = end
counts_dict ((k, n) ∷ rest) = field k (count_of n) (counts_dict rest)

abbrev pub start_v2 : V2State
start_v2 = record {
  resources = [];
  unsupported_counts = [];
  no_price_counts = [];
  usage_based_total = 0;
}

abbrev bigger : ℕ → ℕ → ℕ
bigger a b = if leb a b then b else a

module _ (show : Json → String) (numbers : Numbers) where
  unfoldable pub resource_v2 : String → Fields → Parts → ParsedResource
  unfolding get_or
  resource_v2 address raw p =
      let is_supported = truthy (get_or "is_supported" (bool true) raw) in
      record {
        address = address;
        resource_type = shown show (get "type" raw);
        monthly_cost = if p.misses && eqb_ℤ p.total (pos 0) then none else some p.total;
        components = p.components;
        is_supported = is_supported || not (is_empty p.components);
        is_free = truthy (get_or "is_free" (bool false) raw);
        has_usage_based = p.uses;
        has_missing_price = p.misses;
      }

  -- the body of the loop for a resource that has an address
  unfoldable pub note_v2 : String → Fields → Parts → V2State → V2State
  unfolding get_or
  note_v2 address raw p s =
      let type = shown show (get "type" raw) in
      let is_supported = truthy (get_or "is_supported" (bool true) raw) in
      record {
        resources = put address (resource_v2 address raw p) s.resources;
        unsupported_counts =
            if not is_supported && is_empty p.components
            then tally type s.unsupported_counts
            else s.unsupported_counts;
        no_price_counts = if p.misses then tally type s.no_price_counts else s.no_price_counts;
        usage_based_total = if p.uses then s.usage_based_total + 1 else s.usage_based_total;
      }

  unfoldable pub step_v2 : Fields → V2State → V2State
  step_v2 raw s =
      let address = shown show (get "name" raw) in
      if str_eq address "" then s else note_v2 address raw (components_v2 show numbers raw) s

  unfoldable pub resources_v2 : List Fields → V2State → V2State
  resources_v2 [] s = s
  resources_v2 (raw ∷ rest) s = resources_v2 rest (step_v2 raw s)

  unfoldable pub projects_v2 : List Fields → V2State → V2State
  projects_v2 [] s = s
  projects_v2 (project ∷ rest) s = projects_v2 rest (resources_v2 (dicts_at "resources" project) s)

  unfoldable pub parse_v2 : Fields → Result ParsedBreakdown
  parse_v2 document = do
    let summary = as_dict (get "summary" document)
    let s = projects_v2 (dicts_at "projects" document) start_v2
    detected ← count_or_default numbers (get "resources" summary) (length s.resources)
    costed ← count_or_default numbers (get "costed_resources" summary) 0
    free ← count_or_default numbers (get "free_resources" summary) 0
    ok (record {
      currency = currency_of (shown show (get "currency" document));
      total_monthly_cost = dec numbers (get "total_monthly_cost" summary);
      resources = s.resources;
      coverage = record {
        detected_resources = detected;
        supported_resources = costed + free;
        unsupported_resources = bigger (sum_counts s.unsupported_counts) (detected - costed - free);
        no_price_resources = sum_counts s.no_price_counts;
        usage_based_resources = s.usage_based_total;
        unsupported_resource_counts = counts_dict s.unsupported_counts;
        no_price_resource_counts = counts_dict s.no_price_counts;
      };
      schema = v2;
      warnings = [];
    })
