-- ===== src/Report/Groups.antt =====
-- The groups of the breakdown: no resource is lost, and each is under its own label.
use finops_cost_engine_poc.Prelude.{
  String, Bool, true, false, ◌≡◌, refl, sym, ◌∙◌, ap, inl, inr, List, [], ◌∷◌, ◌++◌, filterb,
  is_empty, All, Bool-cases, str_eq, eq_iff, if◌then◌else◌,
}
use mathlib.Core.List.{Perm}
use mathlib.Core.List.Perm
use finops_cost_engine_poc.Prelude.Dict.Totals.{str_eq_sym}
use finops_cost_engine_poc.Models.{
  CostConfidence, priced, usage_based, free, no_price, unsupported, ResourceCost, CostEstimate,
}
use finops_cost_engine_poc.Report.{
  add_to, grouped_from, group_by, found_in, in_order, coverage_label, confidence_label,
  coverage_breakdown,
}

-- the resources that `key` gives the label `k`, in order
abbrev pub labelled_by : (ResourceCost → String) → String → List ResourceCost → List ResourceCost
labelled_by key k rs = filterb (λ r. str_eq (key r) k) rs

-- a group with its label, and no group where there is nothing
abbrev pub named : String → List ResourceCost → List (String × List ResourceCost)
named k [] = []
named k (r ∷ rs) = (k, r ∷ rs) ∷ []

items_at : String → List (String × List ResourceCost) → List ResourceCost
items_at k [] = []
items_at k ((k', items) ∷ rest) =
    let others = items_at k rest in if str_eq k' k then items else others

abbrev AllFull : List (String × List ResourceCost) → Type 0
AllFull groups = All (λ g. is_empty g.1 ≡ false) groups

is_empty-append : (rs : List ResourceCost) (r : ResourceCost) → is_empty (rs ++ r ∷ []) ≡ false
is_empty-append [] r = refl
is_empty-append (s ∷ rs) r = refl

add_to-AllFull :
    (key : String) (r : ResourceCost) (groups : List (String × List ResourceCost))
    → AllFull groups
    → AllFull (add_to key r groups)
unfolding add_to
add_to-AllFull key r [] full = (refl, tt)
add_to-AllFull key r ((k, items) ∷ rest) (here, there) = elim (Bool-cases (str_eq k key)) [
  | inl e ↦ rw e (is_empty-append items r, there)
  | inr e ↦ rw e (here, add_to-AllFull key r rest there)
]

grouped_from-AllFull :
    (key : ResourceCost → String) (groups : List (String × List ResourceCost))
    (rs : List ResourceCost)
    → AllFull groups
    → AllFull (grouped_from key groups rs)
unfolding grouped_from
grouped_from-AllFull key groups [] full = full
grouped_from-AllFull key groups (r ∷ rs) full =
    grouped_from-AllFull key (add_to (key r) r groups) rs (add_to-AllFull (key r) r groups full)

append_nil : (rs : List ResourceCost) → rs ++ [] ≡ rs
append_nil [] = refl
append_nil (r ∷ rs) = rw (append_nil rs) refl

append_assoc : (xs ys zs : List ResourceCost) → (xs ++ ys) ++ zs ≡ xs ++ (ys ++ zs)
append_assoc [] ys zs = refl
append_assoc (x ∷ xs) ys zs = rw (append_assoc xs ys zs) refl

items_at-add_to :
    (k key : String) (r : ResourceCost) (groups : List (String × List ResourceCost))
    → items_at k (add_to key r groups) ≡ items_at k groups ++ (if str_eq key k then r ∷ [] else [])
unfolding items_at add_to
items_at-add_to k key r [] = elim (Bool-cases (str_eq key k)) [
  | inl e ↦ rw e refl
  | inr e ↦ rw e refl
]
items_at-add_to k key r ((k', items) ∷ rest) = elim (Bool-cases (str_eq k' key)) [
  | inl e ↦
      let same = ap (λ s. str_eq s k) ((eq_iff k' key).0 e) in
      elim (Bool-cases (str_eq k' k)) [
        | inl h ↦ rw (e, h, sym same ∙ h) refl
        | inr h ↦ rw (e, h, sym same ∙ h) (sym (append_nil (items_at k rest)))
      ]
  | inr e ↦ elim (Bool-cases (str_eq k' k)) [
    | inl h ↦
        let differs = str_eq_sym key k ∙ ap (λ s. str_eq s key) (sym ((eq_iff k' k).0 h)) ∙ e in
        rw (e, h, differs) (sym (append_nil items))
    | inr h ↦ rw (e, h) (items_at-add_to k key r rest)
  ]
]

head_or_none :
    (b : Bool) (r : ResourceCost) (rs : List ResourceCost)
    → (if b then r ∷ [] else []) ++ rs ≡ (if b then r ∷ rs else rs)
head_or_none true r rs = refl
head_or_none false r rs = refl

items_at-grouped_from :
    (k : String) (key : ResourceCost → String) (groups : List (String × List ResourceCost))
    (rs : List ResourceCost)
    → items_at k (grouped_from key groups rs) ≡ items_at k groups ++ labelled_by key k rs
unfolding grouped_from
items_at-grouped_from k key groups [] = sym (append_nil (items_at k groups))
items_at-grouped_from k key groups (r ∷ rs) =
    items_at-grouped_from k key (add_to (key r) r groups) rs
    ∙ ap (λ xs. xs ++ labelled_by key k rs) (items_at-add_to k (key r) r groups)
    ∙ append_assoc (items_at k groups) (if str_eq (key r) k then r ∷ [] else [])
        (labelled_by key k rs)
    ∙ ap (λ xs. items_at k groups ++ xs) (head_or_none (str_eq (key r) k) r (labelled_by key k rs))

found_in-items_at :
    (k : String) (groups : List (String × List ResourceCost))
    → AllFull groups
    → found_in k groups ≡ named k (items_at k groups)
unfolding found_in items_at
found_in-items_at k [] full = refl
found_in-items_at k ((k', []) ∷ rest) full = cc
found_in-items_at k ((k', x ∷ items) ∷ rest) (here, there) = elim (Bool-cases (str_eq k' k)) [
  | inl e ↦ let same = (eq_iff k' k).0 e in rw (e, same) refl
  | inr e ↦ rw (e, found_in-items_at k rest there) refl
]

found_in-group_by :
    (k : String) (key : ResourceCost → String) (rs : List ResourceCost)
    → found_in k (group_by key rs) ≡ named k (labelled_by key k rs)
unfolding group_by items_at
found_in-group_by k key rs =
    found_in-items_at k (grouped_from key [] rs) (grouped_from-AllFull key [] rs tt)
    ∙ ap (named k) (items_at-grouped_from k key [] rs)

under :
    (r : ResourceCost) (xs : List ResourceCost) (ys zs : List ResourceCost)
    → Perm ys (r ∷ zs)
    → Perm (xs ++ ys) (r ∷ (xs ++ zs))
under r [] ys zs h = h
under r (x ∷ xs) ys zs h = Perm.trans (Perm.cons x (under r xs ys zs h)) (Perm.swap r x (xs ++ zs))

abbrev by_label : String → List ResourceCost → List ResourceCost
by_label = labelled_by coverage_label

abbrev every_label : List ResourceCost → List ResourceCost
every_label rs =
    by_label "PRICED" rs
    ++ (by_label "USAGE-BASED" rs
        ++ (by_label "NO DIRECT CHARGE" rs ++ by_label "UNSUPPORTED / UNESTIMATED" rs))

last_label :
    (r : ResourceCost) (rs : List ResourceCost)
    → Perm
        (by_label "PRICED" rs
          ++ (by_label "USAGE-BASED" rs
              ++ (by_label "NO DIRECT CHARGE" rs ++ (r ∷ by_label "UNSUPPORTED / UNESTIMATED" rs))))
        (r ∷ every_label rs)
last_label r rs = under r (by_label "PRICED" rs) _ _ (
    under r (by_label "USAGE-BASED" rs) _ _
      (under r (by_label "NO DIRECT CHARGE" rs) _ _ (Perm.refl _)))

every_label-cons :
    (r : ResourceCost) (c : CostConfidence) (rs : List ResourceCost)
    → coverage_label r ≡ confidence_label c
    → Perm (every_label (r ∷ rs)) (r ∷ every_label rs)
unfolding confidence_label
every_label-cons r priced rs e = rw e (Perm.refl _)
every_label-cons r usage_based rs e = rw e (under r (by_label "PRICED" rs) _ _ (Perm.refl _))
every_label-cons r free rs e =
    rw e
      (under r (by_label "PRICED" rs) _ _ (under r (by_label "USAGE-BASED" rs) _ _ (Perm.refl _)))
every_label-cons r no_price rs e = rw e (last_label r rs)
every_label-cons r unsupported rs e = rw e (last_label r rs)

every_label-perm : (rs : List ResourceCost) → Perm (every_label rs) rs
unfolding coverage_label
every_label-perm [] = Perm.refl []
every_label-perm (r ∷ rs) =
    Perm.trans (every_label-cons r r.confidence rs refl) (Perm.cons r (every_label-perm rs))

-- the resources that the groups list, one group after the other
unfoldable pub listed : List (String × List ResourceCost) → List ResourceCost
listed [] = []
listed ((k, items) ∷ rest) = items ++ listed rest

listed-named :
    (k : String) (rs : List ResourceCost) (groups : List (String × List ResourceCost))
    → listed (named k rs ++ groups) ≡ rs ++ listed groups
unfolding listed
listed-named k [] groups = refl
listed-named k (r ∷ rs) groups = refl

abbrev pub every_group : List ResourceCost → List (String × List ResourceCost)
every_group rs =
    named "PRICED" (by_label "PRICED" rs)
    ++ (named "USAGE-BASED" (by_label "USAGE-BASED" rs)
        ++ (named "NO DIRECT CHARGE" (by_label "NO DIRECT CHARGE" rs)
            ++ (named "UNSUPPORTED / UNESTIMATED" (by_label "UNSUPPORTED / UNESTIMATED" rs) ++ [])))

listed-every_group : (rs : List ResourceCost) → listed (every_group rs) ≡ every_label rs
unfolding listed
listed-every_group rs =
    rw
      (
        listed-named "PRICED" (by_label "PRICED" rs) _,
        listed-named "USAGE-BASED" (by_label "USAGE-BASED" rs) _,
        listed-named "NO DIRECT CHARGE" (by_label "NO DIRECT CHARGE" rs) _,
        listed-named "UNSUPPORTED / UNESTIMATED" (by_label "UNSUPPORTED / UNESTIMATED" rs) [],
        append_nil (by_label "UNSUPPORTED / UNESTIMATED" rs),
      )
      refl

coverage_breakdown_lem : (e : CostEstimate) → coverage_breakdown e ≡ every_group e.resources
unfolding coverage_breakdown in_order
coverage_breakdown_lem e =
    let at : (k : String)
        → found_in k (group_by coverage_label e.resources) ≡ named k (by_label k e.resources) =
      λ k. found_in-group_by k coverage_label e.resources in
    rw (at "PRICED", at "USAGE-BASED", at "NO DIRECT CHARGE", at "UNSUPPORTED / UNESTIMATED") refl

-- The coverage breakdown has a group for each label that occurs, in reporting order, of just the
-- resources with that label and in their own order; together the groups list every resource once.
pub coverage_breakdown-exact :
    (e : CostEstimate)
    → (coverage_breakdown e ≡ every_group e.resources)
      × Perm (listed (coverage_breakdown e)) e.resources
coverage_breakdown-exact e = (
  coverage_breakdown_lem e,
  rw (coverage_breakdown_lem e, listed-every_group e.resources) (every_label-perm e.resources),
)
