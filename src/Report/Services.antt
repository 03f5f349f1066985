-- ===== src/Report/Services.antt =====
-- The rollup by service counts every resource once.
use finops_cost_engine_poc.Prelude.{
  ℕ, ◌+◌, String, ◌≡◌, refl, ◌∙◌, ap, inl, inr, List, [], ◌∷◌, map, length, length-append,
  Bool-cases, str_eq, arith,
}
use finops_cost_engine_poc.Prelude.Order.{insert_by, sort_by}
use finops_cost_engine_poc.Models.{ResourceCost, CostEstimate}
use finops_cost_engine_poc.Report.{
  add_to, grouped_from, group_by, service_of, service_total, service_summary, by_spend_and_name,
  ServiceTotal,
}

-- the resources that the totals count
pub resources_counted : List ServiceTotal → ℕ
resources_counted [] = 0
resources_counted (t ∷ ts) = t.resource_count + resources_counted ts

held : List (String × List ResourceCost) → ℕ
held [] = 0
held ((k, items) ∷ rest) = length items + held rest

held-add_to :
    (key : String) (r : ResourceCost) (groups : List (String × List ResourceCost))
    → held (add_to key r groups) ≡ 1 + held groups
unfolding held add_to
held-add_to key r [] = omega arith
held-add_to key r ((k, items) ∷ rest) = elim (Bool-cases (str_eq k key)) [
  | inl e ↦ rw e (omega (arith, length-append items (r ∷ [])))
  | inr e ↦ rw e (omega (arith, held-add_to key r rest))
]

held-grouped_from :
    (key : ResourceCost → String) (groups : List (String × List ResourceCost))
    (rs : List ResourceCost)
    → held (grouped_from key groups rs) ≡ held groups + length rs
unfolding grouped_from
held-grouped_from key groups [] = omega arith
held-grouped_from key groups (r ∷ rs) =
    omega (arith, held-grouped_from key (add_to (key r) r groups) rs, held-add_to (key r) r groups)

resources_counted-map :
    (groups : List (String × List ResourceCost))
    → resources_counted (map service_total groups) ≡ held groups
unfolding resources_counted held service_total
resources_counted-map [] = refl
resources_counted-map ((k, items) ∷ rest) = rw (resources_counted-map rest) refl

resources_counted-insert_by :
    (t : ServiceTotal) (ts : List ServiceTotal)
    → resources_counted (insert_by by_spend_and_name t ts) ≡ t.resource_count + resources_counted ts
unfolding insert_by resources_counted
resources_counted-insert_by t [] = refl
resources_counted-insert_by t (u ∷ ts) = elim (Bool-cases (by_spend_and_name t u)) [
  | inl e ↦ rw e refl
  | inr e ↦ rw (e, resources_counted-insert_by t ts) (omega arith)
]

resources_counted-sort_by :
    (ts : List ServiceTotal)
    → resources_counted (sort_by by_spend_and_name ts) ≡ resources_counted ts
unfolding sort_by resources_counted
resources_counted-sort_by [] = refl
resources_counted-sort_by (t ∷ ts) =
    resources_counted-insert_by t (sort_by by_spend_and_name ts)
    ∙ ap (λ n. t.resource_count + n) (resources_counted-sort_by ts)

-- The resource counts of the services add up to the number of resources of the estimate.
pub service_summary-counted :
    (e : CostEstimate) → resources_counted (service_summary e) ≡ length e.resources
unfolding service_summary group_by held
service_summary-counted e =
    let key : ResourceCost → String = λ r. service_of r.resource_type in
    let groups = grouped_from key [] e.resources in
    omega (
      arith,
      resources_counted-sort_by (map service_total groups),
      resources_counted-map groups,
      held-grouped_from key [] e.resources,
    )
