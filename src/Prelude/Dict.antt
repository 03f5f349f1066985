-- ===== src/Prelude/Dict.antt =====
-- A Python dict with text keys, as the list of its items in the order of their insertion.
pub mod Totals
use Prim.Native.Nat.{ℕ, zero, suc, ◌+◌, ◌≤◌}
use mathlib.Core.Path.{◌≡◌, refl, sym, ◌∙◌, ap}
use mathlib.Core.Bool.{Bool, true, false, not}
use mathlib.Core.Logic.{◌⊎◌, inl, inr, ◌↔◌}
use mathlib.Core.Option.{Option, none, some}
use mathlib.Core.List.{List, [], ◌∷◌, ◌++◌, map}
use Prim.Native.String.{String}
use text.Mathlib.Text.{◌==◌ as str_eq}
use text.Mathlib.TextEquality.{eq_iff}
use native.Mathlib.Omega.{arith}
use finops_cost_engine_poc.Prelude.Tests.{if◌then◌else◌, Bool-cases}
use finops_cost_engine_poc.Prelude.Lists.{filterb, anyb}
use finops_cost_engine_poc.Prelude.Order.{insert_by, sort_by}

abbrev pub Dict {ℓ} : Type ℓ → Type ℓ
Dict A = List (String × A)

-- how often a text is in a list
unfoldable pub occurrences : String → List String → ℕ
occurrences k [] = 0
occurrences k (x ∷ xs) = (if str_eq x k then 1 else 0) + occurrences k xs

-- `key in keys`
abbrev pub is_in : String → List String → Bool
is_in k = anyb (λ x. str_eq x k)

-- `set(a) | set(b)`, for keys `a` and `b` of two dicts
unfoldable pub union : List String → List String → List String
union a b = a ++ filterb (λ k. not (is_in k a)) b

module _ {ℓ} {A : Type ℓ} where
  abbrev pub keys : Dict A → List String
  keys [] = []
  keys ((k, v) ∷ rest) = k ∷ keys rest

  -- `d.get(key)`
  unfoldable pub lookup : String → Dict A → Option A
  lookup key [] = none
  lookup key ((k, v) ∷ rest) = if str_eq k key then some v else lookup key rest

  -- `d[key] = value`: in place where the key is there, and else at the end
  unfoldable pub put : String → A → Dict A → Dict A
  put key value [] = (key, value) ∷ []
  put key value ((k, v) ∷ rest) =
      let others = put key value rest in if str_eq k key then (k, value) ∷ rest else (k, v) ∷ others

  -- `d.update(other)`
  unfoldable pub update : Dict A → Dict A → Dict A
  update d [] = d
  update d ((k, v) ∷ rest) = update (put k v d) rest

  -- No key is there twice.
  abbrev pub IsDict : Dict A → Type 0
  IsDict d = (k : String) → occurrences k (keys d) ≤ 1

pub occurs :
    (k x : String) (xs : List String)
    → occurrences k (x ∷ xs) ≡ (if str_eq x k then 1 else 0) + occurrences k xs
unfolding occurrences
occurs k x xs = refl

pub is_in_iff : (k : String) (xs : List String) → (is_in k xs ≡ true) ↔ (1 ≤ occurrences k xs)
unfolding occurrences
is_in_iff k [] = (λ h. cc, λ h. ground (arith, h))
is_in_iff k (x ∷ xs) =
    let (a, b) = is_in_iff k xs in (λ h. ground (arith, a, h), λ h. ground (arith, b, h))

module _ {ℓ} {A : Type ℓ} where
  occurrences-put :
      (key k : String) (v : A) (d : Dict A)
      → occurrences k (keys (put key v d)) ≡ (
          if str_eq key k
          then (if is_in key (keys d) then occurrences k (keys d) else suc (occurrences k (keys d)))
          else occurrences k (keys d))
  unfolding occurrences put
  occurrences-put key k v [] = ground arith
  occurrences-put key k v ((x, w) ∷ d) = elim (Bool-cases (str_eq x key)) [
    | inl e ↦ rw e ground (arith)
    | inr e ↦ rw e ground (arith, occurrences-put key k v d)
  ]

  pub put-IsDict : (key : String) (v : A) (d : Dict A) → IsDict d → IsDict (put key v d)
  put-IsDict key v d h k = elim (Bool-cases (str_eq key k)) [
    | inl e ↦
        rw (occurrences-put key k v d, (eq_iff key k).0 e)
          (ground (arith, h k, (is_in_iff k (keys d)).1, (eq_iff k k).1 refl))
    | inr e ↦ rw (occurrences-put key k v d, e) (h k)
  ]

  pub update-IsDict : (d other : Dict A) → IsDict d → IsDict (update d other)
  unfolding update
  update-IsDict d [] h = h
  update-IsDict d ((k, v) ∷ rest) h = update-IsDict (put k v d) rest (put-IsDict k v d h)
