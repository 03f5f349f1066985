-- ===== src/Report/Changes.antt =====
-- The rows of the breakdown: a resource whose cost moved is listed and never called unchanged.
use finops_cost_engine_poc.Prelude.{
  ℤ, pos, eqb_ℤ, ltb_ℤ, eqb_ℤ→eq, String, Bool, true, false, ◌≡◌, ◌≢◌, inl, inr, refl, List, [],
  ◌∷◌, filterb, sym, ap, ◌∙◌, Option, none, some, Bool-cases, str_eq, eq_iff, arith, if◌then◌else◌,
}
use mathlib.Core.List.{Mem, Memᴰ}
use mathlib.Core.List.Perm
use mathlib.Core.List.Memᴰ
use mathlib.Core.Logic.{∥∥₁_map}
use finops_cost_engine_poc.Prelude.Order.{sort_by-perm}
use finops_cost_engine_poc.Models.{
  Action, create, update, delete, replace, noop, read, ResourceCost, CostEstimate,
}
use finops_cost_engine_poc.Report.{
  action_label, is_change_action, has_change_action, action_or_unchanged, label_from, change_label,
  is_pr_change, movers_first, pr_changed_resources,
}

differs : (s : String) → str_eq s "unchanged" ≡ false → s ≢ "unchanged"
differs s e h = let same = (eq_iff s "unchanged").1 h in cc

neither_way : (d : ℤ) → ltb_ℤ (pos 0) d ≡ false → ltb_ℤ d (pos 0) ≡ false → d ≡ pos 0
neither_way d e h = ground arith

direction : ℤ → String → String
direction d s = if ltb_ℤ (pos 0) d then "increased" else if ltb_ℤ d (pos 0) then "decreased" else s

direction-moved : (d : ℤ) (s : String) → d ≢ pos 0 → direction d s ≢ "unchanged"
unfolding direction
direction-moved d s moved = elim (Bool-cases (ltb_ℤ (pos 0) d)) [
  | inl e ↦ rw e (differs "increased" refl)
  | inr e ↦ elim (Bool-cases (ltb_ℤ d (pos 0))) [
    | inl h ↦ rw (e, h) (differs "decreased" refl)
    | inr h ↦ absurd (moved (neither_way d e h))
  ]
]

label_from-moved : (a : Option Action) (d : ℤ) → d ≢ pos 0 → label_from a d ≢ "unchanged"
unfolding label_from has_change_action is_change_action action_or_unchanged action_label direction
label_from-moved (some create) d moved = differs "added" refl
label_from-moved (some update) d moved = differs "changed" refl
label_from-moved (some delete) d moved = differs "destroyed" refl
label_from-moved (some replace) d moved = differs "replaced" refl
label_from-moved none d moved = direction-moved d "unchanged" moved
label_from-moved (some noop) d moved = direction-moved d "unchanged" moved
label_from-moved (some read) d moved = direction-moved d "read" moved

filterb-mem :
    (p : ResourceCost → Bool) (r : ResourceCost) (rs : List ResourceCost)
    → p r ≡ true
    → Memᴰ r rs
    → Memᴰ r (filterb p rs)
filterb-mem p r [] kept m = absurd (Memᴰ.not-nil m)
filterb-mem p r (s ∷ rs) kept (Memᴰ.head e) =
    let same = sym (ap p e) ∙ kept in rw same (Memᴰ.head e)
filterb-mem p r (s ∷ rs) kept (Memᴰ.tail m) = elim (Bool-cases (p s)) [
  | inl e ↦ rw e (Memᴰ.tail (filterb-mem p r rs kept m))
  | inr e ↦ rw e (filterb-mem p r rs kept m)
]

is_pr_change-moved : (r : ResourceCost) → r.delta_monthly_cost ≢ pos 0 → is_pr_change r ≡ true
unfolding is_pr_change
is_pr_change-moved r moved = elim (Bool-cases (eqb_ℤ r.delta_monthly_cost (pos 0))) [
  | inl e ↦ absurd (moved (eqb_ℤ→eq r.delta_monthly_cost (pos 0) e))
  | inr e ↦ rw e refl
]

-- A resource of the estimate whose cost moved is among the changes that the report lists, and its
-- row is not labelled "unchanged", whatever the plan says of it.
pub pr_changed_resources-moved :
    (e : CostEstimate) (r : ResourceCost)
    → Mem r e.resources
    → r.delta_monthly_cost ≢ pos 0
    → Mem r (pr_changed_resources e) × (change_label r ≢ "unchanged")
unfolding pr_changed_resources change_label
pr_changed_resources-moved e r listed moved = (
  (Perm.mem_iff (sort_by-perm movers_first (filterb is_pr_change e.resources))).1
      (∥∥₁_map listed (λ m. filterb-mem is_pr_change r e.resources (is_pr_change-moved r moved) m)),
  label_from-moved r.action r.delta_monthly_cost moved,
)
