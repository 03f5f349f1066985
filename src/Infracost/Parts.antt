-- ===== src/Infracost/Parts.antt =====
-- What the walk over a resource and its subresources adds up: each component once, at any depth.
use finops_cost_engine_poc.Prelude.{
  ℤ, pos, ◌+ℤ◌, String, Bool, true, false, ◌||◌, ◌≡◌, refl, ap, ◌∙◌, Option, List, [], ◌∷◌, ◌++◌,
  map, arith, anyb, str_eq, if◌then◌else◌,
}
use finops_cost_engine_poc.Prelude.Int.{int_laws}
use finops_cost_engine_poc.Json.{
  Json, null, bool, num, text, arr, obj, Items, nil, cons, Fields, end, field, get,
}
use finops_cost_engine_poc.Models.{CostComponent}
use finops_cost_engine_poc.Plan.Normalizer.{shown}
use finops_cost_engine_poc.Infracost.Parsed.{
  Numbers, or_zero, Parts, no_parts, join, labelled, label_parts, subs, subs_of, each, parts_of,
  dicts_at,
}
use finops_cost_engine_poc.Infracost.V2.{part_v2, component_v2, own_v2, components_v2}
use finops_cost_engine_poc.Infracost.V010.{part_v010, component_v010, own_v010, components_v010}

-- the sum of what each component adds
unfoldable pub sum_components : (CostComponent → ℤ) → List CostComponent → ℤ
sum_components g [] = pos 0
sum_components g (c ∷ rest) = g c +ℤ sum_components g rest

abbrev pub monthly_costs : List CostComponent → List (Option ℤ)
monthly_costs = map (λ c. c.monthly_cost)

-- The parts are those of the components `cs`: the total is the sum of what each adds, they use or
-- miss something exactly if a component does, and what they list has the same monthly costs.
pub record Adds (g : CostComponent → ℤ) (cs : List CostComponent) (p : Parts) : Type 0 where
  pub adds_up : p.total ≡ sum_components g cs
  pub misses_iff : p.misses ≡ anyb (λ c. c.price_not_found) cs
  pub uses_iff : p.uses ≡ anyb (λ c. c.usage_based) cs
  pub listed : monthly_costs p.components ≡ monthly_costs cs

unfoldable mutual
  -- the subresources at any depth that are dicts, each before its own
  pub below : Fields → List Fields
  below end = []
  below (field k v rest) =
      let here = below_in v in
      let others = below rest in if str_eq k "subresources" then here else others

  pub below_in : Json → List Fields
  below_in (arr items) = below_each items
  below_in _ = []

  pub below_each : Items → List Fields
  below_each nil = []
  below_each (cons (obj sub) rest) = sub ∷ (below sub ++ below_each rest)
  below_each (cons _ rest) = below_each rest

-- what all of the dicts hold
abbrev pub all_of : (Fields → List CostComponent) → List Fields → List CostComponent
all_of held [] = []
all_of held (d ∷ rest) = held d ++ all_of held rest

sum_components-append :
    (g : CostComponent → ℤ) (xs ys : List CostComponent)
    → sum_components g (xs ++ ys) ≡ sum_components g xs +ℤ sum_components g ys
unfolding sum_components
sum_components-append g [] ys = grind int_laws
sum_components-append g (x ∷ xs) ys = grind (int_laws, sum_components-append g xs ys)

anyb-append :
    (p : CostComponent → Bool) (xs ys : List CostComponent)
    → anyb p (xs ++ ys) ≡ (anyb p xs || anyb p ys)
anyb-append p [] ys = refl
anyb-append p (x ∷ xs) ys = ground (arith, anyb-append p xs ys)

monthly_costs-append :
    (xs ys : List CostComponent) → monthly_costs (xs ++ ys) ≡ monthly_costs xs ++ monthly_costs ys
monthly_costs-append [] ys = refl
monthly_costs-append (x ∷ xs) ys = rw (monthly_costs-append xs ys) refl

append_assoc : (xs ys zs : List CostComponent) → (xs ++ ys) ++ zs ≡ xs ++ (ys ++ zs)
append_assoc [] ys zs = refl
append_assoc (x ∷ xs) ys zs = rw (append_assoc xs ys zs) refl

all_of-append :
    (held : Fields → List CostComponent) (ds es : List Fields)
    → all_of held ds ++ all_of held es ≡ all_of held (ds ++ es)
all_of-append held [] es = refl
all_of-append held (d ∷ ds) es =
    append_assoc (held d) (all_of held ds) (all_of held es)
    ∙ ap (λ rest. held d ++ rest) (all_of-append held ds es)

no_parts-Adds : (g : CostComponent → ℤ) → Adds g [] no_parts
unfolding sum_components
no_parts-Adds g = record { adds_up = refl; misses_iff = refl; uses_iff = refl; listed = refl }

join-Adds :
    (g : CostComponent → ℤ) {cs ds : List CostComponent} (p q : Parts)
    → Adds g cs p
    → Adds g ds q
    → Adds g (cs ++ ds) (join p q)
unfolding join
join-Adds g {cs} {ds} p q h k = record {
  adds_up = rw (sum_components-append g cs ds, ← h.adds_up, ← k.adds_up) refl;
  misses_iff = rw (anyb-append (λ c. c.price_not_found) cs ds, ← h.misses_iff, ← k.misses_iff) refl;
  uses_iff = rw (anyb-append (λ c. c.usage_based) cs ds, ← h.uses_iff, ← k.uses_iff) refl;
  listed =
      rw
        (
          monthly_costs-append p.components q.components,
          monthly_costs-append cs ds,
          h.listed,
          k.listed,
        )
        refl;
}

monthly_costs-labelled :
    (s : String) (cs : List CostComponent) → monthly_costs (map (labelled s) cs) ≡ monthly_costs cs
unfolding labelled
monthly_costs-labelled s [] = refl
monthly_costs-labelled s (c ∷ cs) = rw (monthly_costs-labelled s cs) refl

label_parts-Adds :
    (g : CostComponent → ℤ) (s : String) {cs : List CostComponent} (p : Parts)
    → Adds g cs p
    → Adds g cs (label_parts s p)
label_parts-Adds g s p h = record {
  adds_up = h.adds_up;
  misses_iff = h.misses_iff;
  uses_iff = h.uses_iff;
  listed = monthly_costs-labelled s p.components ∙ h.listed;
}

-- The walk over the subresources; `held` are the components of a dict.
module _ (show : Json → String) (own : Fields → Parts) (held : Fields → List CostComponent)
    (g : CostComponent → ℤ) (own-Adds : (node : Fields) → Adds g (held node) (own node)) where
  if-Adds :
      (b : Bool) (p q : Parts) (ds es : List Fields)
      → Adds g (all_of held ds) p
      → Adds g (all_of held es) q
      → Adds g (all_of held (if b then ds else es)) (if b then p else q)
  if-Adds true p q ds es h k = h
  if-Adds false p q ds es h k = k

  mutual
    unfolding subs subs_of each below below_in below_each

    subs-Adds : (d : Fields) → Adds g (all_of held (below d)) (subs show own d)
    subs-Adds end = no_parts-Adds g
    subs-Adds (field k v rest) =
        if-Adds (str_eq k "subresources") (subs_of show own v) (subs show own rest) (below_in v)
          (below rest) (subs_of-Adds v) (subs-Adds rest)

    subs_of-Adds : (v : Json) → Adds g (all_of held (below_in v)) (subs_of show own v)
    subs_of-Adds (arr items) = each-Adds items
    subs_of-Adds null = no_parts-Adds g
    subs_of-Adds (bool b) = no_parts-Adds g
    subs_of-Adds (num n) = no_parts-Adds g
    subs_of-Adds (text s) = no_parts-Adds g
    subs_of-Adds (obj d) = no_parts-Adds g

    each-Adds : (items : Items) → Adds g (all_of held (below_each items)) (each show own items)
    each-Adds nil = no_parts-Adds g
    each-Adds (cons (obj sub) rest) =
        let inner = join-Adds g (own sub) (subs show own sub) (own-Adds sub) (subs-Adds sub) in
        let s = shown show (get "name" sub) in
        let named = label_parts-Adds g s (join (own sub) (subs show own sub)) inner in
        let both =
          join-Adds g (label_parts s (join (own sub) (subs show own sub))) (each show own rest)
            named (each-Adds rest) in
        rw (← all_of-append held (sub ∷ below sub) (below_each rest)) both
    each-Adds (cons null rest) = each-Adds rest
    each-Adds (cons (bool b) rest) = each-Adds rest
    each-Adds (cons (num n) rest) = each-Adds rest
    each-Adds (cons (text s) rest) = each-Adds rest
    each-Adds (cons (arr l) rest) = each-Adds rest

  parts_of-Adds :
      (node : Fields) → Adds g (all_of held (node ∷ below node)) (parts_of show own node)
  unfolding parts_of
  parts_of-Adds node = join-Adds g (own node) (subs show own node) (own-Adds node) (subs-Adds node)

-- a component of the second schema adds its cost only if it has a price
abbrev pub priced_cost : CostComponent → ℤ
priced_cost c = if c.price_not_found then pos 0 else or_zero c.monthly_cost

-- a component of the 0.10 line adds its cost if it has one
abbrev pub any_cost : CostComponent → ℤ
any_cost c = or_zero c.monthly_cost

module _ (show : Json → String) (numbers : Numbers) where
  -- the components that a dict lists itself
  abbrev pub held_v2 : Fields → List CostComponent
  held_v2 d = map (component_v2 show numbers) (dicts_at "cost_components" d)

  abbrev pub held_v010 : Fields → List CostComponent
  held_v010 d = map (component_v010 show numbers) (dicts_at "costComponents" d)

  part_v2-Adds : (c : CostComponent) → Adds priced_cost (c ∷ []) (part_v2 show numbers c)
  unfolding sum_components
  part_v2-Adds c = record {
    adds_up = grind int_laws;
    misses_iff = ground arith;
    uses_iff = ground arith;
    listed = refl;
  }

  part_v010-Adds : (c : CostComponent) → Adds any_cost (c ∷ []) (part_v010 show numbers c)
  unfolding sum_components
  part_v010-Adds c = record {
    adds_up = grind int_laws;
    misses_iff = ground arith;
    uses_iff = ground arith;
    listed = refl;
  }

  own_v2-Adds :
      (raws : List Fields)
      → Adds priced_cost (map (component_v2 show numbers) raws) (own_v2 show numbers raws)
  unfolding own_v2
  own_v2-Adds [] = no_parts-Adds priced_cost
  own_v2-Adds (raw ∷ rest) =
      let c = component_v2 show numbers raw in
      join-Adds priced_cost (part_v2 show numbers c) (own_v2 show numbers rest) (part_v2-Adds c)
        (own_v2-Adds rest)

  own_v010-Adds :
      (raws : List Fields)
      → Adds any_cost (map (component_v010 show numbers) raws) (own_v010 show numbers raws)
  unfolding own_v010
  own_v010-Adds [] = no_parts-Adds any_cost
  own_v010-Adds (raw ∷ rest) =
      let c = component_v010 show numbers raw in
      join-Adds any_cost (part_v010 show numbers c) (own_v010 show numbers rest) (part_v010-Adds c)
        (own_v010-Adds rest)

  -- In both schemas a resource comes to the components that it and its subresources at any depth
  -- list: the total is the sum of their costs, in the second schema of those that have a price; a
  -- price is missing, or usage assumed, exactly if it is for one of them; and the components that
  -- are reported have their monthly costs, in order.
  pub components-Adds :
      (node : Fields)
      → Adds priced_cost (all_of held_v2 (node ∷ below node)) (components_v2 show numbers node)
        × Adds any_cost (all_of held_v010 (node ∷ below node)) (components_v010 show numbers node)
  unfolding components_v2 components_v010
  components-Adds node = (
    parts_of-Adds show (λ d. own_v2 show numbers (dicts_at "cost_components" d)) held_v2 priced_cost
        (λ d. own_v2-Adds (dicts_at "cost_components" d)) node,
    parts_of-Adds show (λ d. own_v010 show numbers (dicts_at "costComponents" d)) held_v010 any_cost
        (λ d. own_v010-Adds (dicts_at "costComponents" d)) node,
  )
