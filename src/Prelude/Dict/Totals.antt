-- ===== src/Prelude/Dict/Totals.antt =====
-- Sums over the values of a dict, and over texts that list its keys.
use Prim.Native.Nat.{◌+◌, ◌≤◌}
use mathlib.Core.Path.{◌≡◌, refl, sym, ◌∙◌, ap}
use mathlib.Core.Bool.{Bool, true, false, not}
use mathlib.Core.Logic.{◌⊎◌, inl, inr}
use mathlib.Core.Option.{Option, none, some}
use mathlib.Core.List.{List, [], ◌∷◌, ◌++◌}
use Prim.Native.String.{String}
use text.Mathlib.Text.{◌==◌ as str_eq}
use text.Mathlib.TextEquality.{eq_iff}
use native.Mathlib.Omega.{arith}
use finops_cost_engine_poc.Prelude.Tests.{if◌then◌else◌, Bool-cases}
use finops_cost_engine_poc.Prelude.Lists.{filterb}
use finops_cost_engine_poc.Prelude.Int.{ℤ, pos, ◌+ℤ◌, int_laws}
use finops_cost_engine_poc.Prelude.Order.{insert_by, sort_by}
use finops_cost_engine_poc.Prelude.Dict.{
  Dict, IsDict, keys, lookup, occurrences, is_in, union, occurs, is_in_iff,
}

pub str_eq_sym : (s t : String) → str_eq s t ≡ str_eq t s
str_eq_sym s t = elim (Bool-cases (str_eq s t)) [
  | inl e ↦ e ∙ sym ((eq_iff t s).1 (sym ((eq_iff s t).0 e)))
  | inr n ↦ elim (Bool-cases (str_eq t s)) [
    | inl e ↦ (eq_iff s t).1 (sym ((eq_iff t s).0 e)) ∙ sym e
    | inr m ↦ n ∙ sym m
  ]
]

-- the sum of `f` over a list of texts
unfoldable pub total_over : (String → ℤ) → List String → ℤ
total_over f [] = pos 0
total_over f (x ∷ xs) = f x +ℤ total_over f xs

-- the sum of `g` over the values of a dict
unfoldable pub values_total {ℓ} : {A : Type ℓ} → (A → ℤ) → Dict A → ℤ
values_total g [] = pos 0
values_total g ((k, v) ∷ d) = g v +ℤ values_total g d

abbrev pub or_none {ℓ} : {A : Type ℓ} → (A → ℤ) → Option A → ℤ
or_none g none = pos 0
or_none g (some v) = g v

-- `f`, but for one text
abbrev at : String → ℤ → (String → ℤ) → String → ℤ
at key v f k = if str_eq key k then v else f k

total_over_ext :
    (f g : String → ℤ) (xs : List String)
    → ((k : String) → f k ≡ g k)
    → total_over f xs ≡ total_over g xs
unfolding total_over
total_over_ext f g [] h = refl
total_over_ext f g (x ∷ xs) h = rw (h x, total_over_ext f g xs h) refl

total_over_zero : (xs : List String) → total_over (λ k. pos 0) xs ≡ pos 0
unfolding total_over
total_over_zero [] = refl
total_over_zero (x ∷ xs) = grind (int_laws, total_over_zero xs)

at_absent :
    (key : String) (v : ℤ) (f : String → ℤ) (xs : List String)
    → occurrences key xs ≡ 0
    → total_over (at key v f) xs ≡ total_over f xs
unfolding total_over occurrences
at_absent key v f [] h = refl
at_absent key v f (x ∷ xs) h = elim (Bool-cases (str_eq x key)) [
  | inl e ↦ ground (arith, h, e)
  | inr e ↦
      let none_there : occurrences key xs ≡ 0 = ground (arith, h, e) in
      rw (str_eq_sym key x, e, at_absent key v f xs none_there) refl
]

at_present :
    (key : String) (v : ℤ) (f : String → ℤ) (xs : List String)
    → occurrences key xs ≡ 1
    → f key ≡ pos 0
    → total_over (at key v f) xs ≡ v +ℤ total_over f xs
unfolding total_over occurrences
at_present key v f [] h zero_there = ground (arith, h)
at_present key v f (x ∷ xs) h zero_there = elim (Bool-cases (str_eq x key)) [
  | inl e ↦
      let once : occurrences key xs ≡ 0 = ground (arith, h, e) in
      rw (str_eq_sym key x, e, at_absent key v f xs once, (eq_iff x key).0 e, zero_there)
        (grind int_laws)
  | inr e ↦
      let once : occurrences key xs ≡ 1 = ground (arith, h, e) in
      let rest = at_present key v f xs once zero_there in
      rw (str_eq_sym key x, e, rest) (grind int_laws)
]

lookup_absent {ℓ} :
    {A : Type ℓ} (k : String) (d : Dict A) → occurrences k (keys d) ≡ 0 → lookup k d ≡ none
unfolding lookup occurrences
lookup_absent k [] h = refl
lookup_absent k ((x, v) ∷ d) h = elim (Bool-cases (str_eq x k)) [
  | inl e ↦ ground (arith, h, e)
  | inr e ↦
      let none_there : occurrences k (keys d) ≡ 0 = ground (arith, h, e) in
      rw e (lookup_absent k d none_there)
]

occurrences-append :
    (k : String) (xs ys : List String)
    → occurrences k (xs ++ ys) ≡ occurrences k xs + occurrences k ys
unfolding occurrences
occurrences-append k [] ys = omega arith
occurrences-append k (x ∷ xs) ys = omega (arith, occurrences-append k xs ys)

occurrences-filterb :
    (k : String) (p : String → Bool) (xs : List String)
    → occurrences k (filterb p xs) ≡ (if p k then occurrences k xs else 0)
unfolding occurrences
occurrences-filterb k p [] = ground arith
occurrences-filterb k p (x ∷ xs) = elim (Bool-cases (str_eq x k)) [
  | inl e ↦ rw ((eq_iff x k).0 e) (ground (arith, occurrences-filterb k p xs, (eq_iff k k).1 refl))
  | inr e ↦ ground (arith, occurrences-filterb k p xs, e)
]

module _ (le : String → String → Bool) where
  occurrences-insert_by :
      (k x : String) (xs : List String)
      → occurrences k (insert_by le x xs) ≡ (if str_eq x k then 1 else 0) + occurrences k xs
  unfolding occurrences insert_by
  occurrences-insert_by k x [] = omega arith
  occurrences-insert_by k x (y ∷ xs) = elim (Bool-cases (le x y)) [
    | inl e ↦ rw e (omega arith)
    | inr e ↦ rw e (omega (arith, occurrences-insert_by k x xs))
  ]

  occurrences-sort_by :
      (k : String) (xs : List String) → occurrences k (sort_by le xs) ≡ occurrences k xs
  unfolding occurrences sort_by
  occurrences-sort_by k [] = refl
  occurrences-sort_by k (x ∷ xs) =
      omega (arith, occurrences-insert_by k x (sort_by le xs), occurrences-sort_by k xs)

  -- Each key of the two dicts is once in their sorted union.
  pub occurrences-sort_by-union :
      (k : String) (a b : List String)
      → occurrences k a ≤ 1
      → occurrences k b ≤ 1
      → (1 ≤ occurrences k a) ⊎ (1 ≤ occurrences k b)
      → occurrences k (sort_by le (union a b)) ≡ 1
  unfolding union
  occurrences-sort_by-union k a b ha hb h =
      let p = occurrences-sort_by k (a ++ filterb (λ x. not (is_in x a)) b) in
      let q = occurrences-append k a (filterb (λ x. not (is_in x a)) b) in
      let r = occurrences-filterb k (λ x. not (is_in x a)) b in
      let (i, j) = is_in_iff k a in ground (arith, p, q, r, i, j, ha, hb, h)

or_none_if {ℓ} :
    {A : Type ℓ} (g : A → ℤ) (b : Bool) (v : A) (o : Option A)
    → or_none g (if b then some v else o) ≡ (if b then g v else or_none g o)
or_none_if g true v o = refl
or_none_if g false v o = refl

-- A sum over texts that list each key of a dict once is the sum over its values.
pub total_over-lookup {ℓ} :
    {A : Type ℓ} (g : A → ℤ) (d : Dict A) (xs : List String)
    → IsDict d
    → ((k : String) → 1 ≤ occurrences k (keys d) → occurrences k xs ≡ 1)
    → total_over (λ k. or_none g (lookup k d)) xs ≡ values_total g d
unfolding lookup values_total
total_over-lookup g [] xs unique listed = total_over_zero xs
total_over-lookup g ((key, v) ∷ d) xs unique listed =
    let here : 1 ≤ occurrences key (key ∷ keys d) =
      ground (arith, occurs key key (keys d), (eq_iff key key).1 refl) in
    let gone : occurrences key (keys d) ≡ 0 =
      ground (arith, unique key, occurs key key (keys d), (eq_iff key key).1 refl) in
    let tail_unique : IsDict d = λ k. ground (arith, unique k, occurs k key (keys d)) in
    let rest =
      total_over-lookup g d xs tail_unique
        (λ k there. listed k (ground (arith, there, occurs k key (keys d)))) in
    total_over_ext (λ k. or_none g (lookup k ((key, v) ∷ d)))
      (at key (g v) (λ k. or_none g (lookup k d))) xs
      (λ k. or_none_if g (str_eq key k) v (lookup k d))
    ∙ at_present key (g v) (λ k. or_none g (lookup k d)) xs (listed key here)
        (rw (lookup_absent key d gone) refl)
    ∙ ap (◌+ℤ◌ (g v)) rest
