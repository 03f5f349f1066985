-- ===== src/Infracost/Totals.antt =====
-- The resources of an estimate carry all of the cost of both runs, and none twice.
use finops_cost_engine_poc.Prelude.{
  ◌≤◌, ℤ, pos, ◌+ℤ◌, ◌-ℤ◌, String, true, not, ◌≡◌, refl, ◌∙◌, ◌⊎◌, inl, inr, List, [], ◌∷◌, ◌++◌,
  Option, none, some, Bool-cases, note_if,
}
use finops_cost_engine_poc.Prelude.Int.{int_laws}
use finops_cost_engine_poc.Prelude.Dict.{Dict, IsDict, keys, lookup, occurrences}
use finops_cost_engine_poc.Prelude.Dict.Totals.{
  total_over, values_total, or_none, total_over-lookup, occurrences-sort_by-union,
}
use finops_cost_engine_poc.Errors.{ok, ok-injective, >>=-eq-ok}
use finops_cost_engine_poc.Models.{
  Action, CostEstimate, EstimatorTrust, NormalizedPlan, ResourceCost, le_text,
}
use finops_cost_engine_poc.Infracost.Parsed.{ParsedResource, ParsedBreakdown, or_zero}
use finops_cost_engine_poc.Infracost.Estimate.{
  Note, cost_of, is_nothing, resource_cost, cost_at, costs_at, addresses, baseline_resources,
  proposed_total, previous_total, plan_actions, build_estimate,
}

-- the cost of one resource of a run
abbrev pub cost : ParsedResource → ℤ
cost r = or_zero r.monthly_cost

-- the sum of a cost of the listed resources
unfoldable pub sum_of : (ResourceCost → ℤ) → List ResourceCost → ℤ
sum_of f [] = pos 0
sum_of f (r ∷ rest) = f r +ℤ sum_of f rest

sum_of-append :
    (f : ResourceCost → ℤ) (xs ys : List ResourceCost)
    → sum_of f (xs ++ ys) ≡ sum_of f xs +ℤ sum_of f ys
unfolding sum_of
sum_of-append f [] ys = grind int_laws
sum_of-append f (x ∷ xs) ys = grind (int_laws, sum_of-append f xs ys)

cost_of_lem : (o : Option ParsedResource) → cost_of o ≡ or_none cost o
cost_of_lem none = refl
cost_of_lem (some r) = refl

is_nothing-true : (a b : ℤ) → is_nothing a b ≡ true → (a ≡ pos 0) × (b ≡ pos 0)
is_nothing-true a b h = (grind int_laws, grind int_laws)

-- what one address contributes
abbrev Gives : List ResourceCost → ℤ → ℤ → Type 0
Gives rs new_cost old_cost =
    (sum_of (λ r. r.new_monthly_cost) rs ≡ new_cost)
    × (sum_of (λ r. r.previous_monthly_cost) rs ≡ old_cost)
    × (sum_of (λ r. r.delta_monthly_cost) rs ≡ new_cost -ℤ old_cost)

noted-Gives :
    (address : String) (source : ParsedResource) (new_cost old_cost : ℤ) (action : Option Action)
    → Gives
        (note_if
          (not (is_nothing new_cost old_cost))
          (resource_cost address source new_cost old_cost action)
          [])
        new_cost
        old_cost
unfolding sum_of resource_cost
noted-Gives address source new_cost old_cost action =
    elim (Bool-cases (is_nothing new_cost old_cost)) [
      | inl e ↦
          let (p, q) = is_nothing-true new_cost old_cost e in
          rw (e, p, q) (refl, refl, grind int_laws)
      | inr e ↦ rw e (grind int_laws, grind int_laws, grind int_laws)
    ]

cost_at-Gives :
    (address : String) (new old : Option ParsedResource) (action : Option Action)
    → Gives (cost_at address new old action) (cost_of new) (cost_of old)
unfolding cost_at sum_of
cost_at-Gives address none none action = (refl, refl, grind int_laws)
cost_at-Gives address (some new) old action =
    noted-Gives address new (cost_of (some new)) (cost_of old) action
cost_at-Gives address none (some old) action =
    noted-Gives address old (pos 0) (cost_of (some old)) action

module _ (proposed baseline : Dict ParsedResource) (actions : Dict Action) where
  abbrev new_at : String → ℤ
  new_at k = or_none cost (lookup k proposed)

  abbrev old_at : String → ℤ
  old_at k = or_none cost (lookup k baseline)

  costs_at-Gives :
      (xs : List String)
      → Gives (costs_at proposed baseline actions xs) (total_over new_at xs) (total_over old_at xs)
  unfolding costs_at total_over sum_of
  costs_at-Gives [] = (refl, refl, grind int_laws)
  costs_at-Gives (a ∷ rest) =
      let here = cost_at a (lookup a proposed) (lookup a baseline) (lookup a actions) in
      let others = costs_at proposed baseline actions rest in
      let (n, o, d) = cost_at-Gives a (lookup a proposed) (lookup a baseline) (lookup a actions) in
      let (n', o', d') = costs_at-Gives rest in
      let c = cost_of_lem (lookup a proposed) in
      let c' = cost_of_lem (lookup a baseline) in
      (
        rw (sum_of-append (λ r. r.new_monthly_cost) here others, n, n', c) refl,
        rw (sum_of-append (λ r. r.previous_monthly_cost) here others, o, o', c') refl,
        rw (sum_of-append (λ r. r.delta_monthly_cost) here others, d, d', c, c') (grind int_laws),
      )

  -- Every address of the two runs stands once among the addresses of the estimate.
  addresses-once :
      IsDict proposed
      → IsDict baseline
      → (k : String) → (1 ≤ occurrences k (keys proposed)) ⊎ (1 ≤ occurrences k (keys baseline))
      → occurrences k (addresses proposed baseline) ≡ 1
  unfolding addresses
  addresses-once p b k h =
      occurrences-sort_by-union le_text k (keys proposed) (keys baseline) (p k) (b k) h

  resources-Gives :
      IsDict proposed
      → IsDict baseline
      → Gives
          (costs_at proposed baseline actions (addresses proposed baseline))
          (values_total cost proposed)
          (values_total cost baseline)
  resources-Gives p b =
      let xs = addresses proposed baseline in
      let new =
        total_over-lookup cost proposed xs p (λ k there. addresses-once p b k (inl there)) in
      let old =
        total_over-lookup cost baseline xs b (λ k there. addresses-once p b k (inr there)) in
      let (n, o, d) = costs_at-Gives xs in (n ∙ new, o ∙ old, d ∙ rw (new, old) refl)

-- what `build_estimate` returns, in terms of the totals it checks
pub build_estimate-inverted :
    (say : Note → String) (proposed : ParsedBreakdown) (baseline : Option ParsedBreakdown)
    (estimator version : String) (trust : EstimatorTrust) (plan : Option NormalizedPlan)
    (e : CostEstimate)
    → build_estimate say proposed baseline estimator version trust plan ≡ ok e
    → (new previous : ℤ) × (proposed_total proposed.total_monthly_cost ≡ ok new)
      × (previous_total proposed.currency baseline ≡ ok previous)
      × (e.new_monthly_cost ≡ new)
      × (e.previous_monthly_cost ≡ previous)
      × (e.incremental_monthly_cost ≡ new -ℤ previous)
      × (e.resources
          ≡ costs_at proposed.resources
              (baseline_resources baseline)
              (plan_actions plan)
              (addresses proposed.resources (baseline_resources baseline)))
unfolding build_estimate
build_estimate-inverted say proposed baseline estimator version trust plan e h =
    let (new, found, r1) = >>=-eq-ok (proposed_total proposed.total_monthly_cost) _ h in
    let (previous, found', r2) = >>=-eq-ok (previous_total proposed.currency baseline) _ r1 in
    rw (← ok-injective r2) (new, previous, found, found', refl, refl, refl, refl)

-- The resources of an estimate carry the whole cost of both runs, and no cost twice: their new costs
-- add up to the costs of the proposed resources, their previous costs to those of the baseline, and
-- their differences to the difference of the two.
pub build_estimate-sums :
    (say : Note → String) (proposed : ParsedBreakdown) (baseline : Option ParsedBreakdown)
    (estimator version : String) (trust : EstimatorTrust) (plan : Option NormalizedPlan)
    (e : CostEstimate)
    → IsDict proposed.resources
    → IsDict (baseline_resources baseline)
    → build_estimate say proposed baseline estimator version trust plan ≡ ok e
    → (sum_of (λ r. r.new_monthly_cost) e.resources ≡ values_total cost proposed.resources)
      × (sum_of (λ r. r.previous_monthly_cost) e.resources
          ≡ values_total cost (baseline_resources baseline))
      × (sum_of (λ r. r.delta_monthly_cost) e.resources
          ≡ values_total cost proposed.resources -ℤ values_total cost (baseline_resources baseline))
build_estimate-sums say proposed baseline estimator version trust plan e p b h =
    let (_, _, _, _, _, _, _, found) =
      build_estimate-inverted say proposed baseline estimator version trust plan e h in
    let (n, o, d) =
      resources-Gives proposed.resources (baseline_resources baseline) (plan_actions plan) p b in
    rw found (n, o, d)
