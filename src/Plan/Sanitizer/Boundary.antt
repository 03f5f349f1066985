-- ===== src/Plan/Sanitizer/Boundary.antt =====
-- What can be in a sanitized value: no sensitive value, bounded depth, lists and texts.
use finops_cost_engine_poc.Prelude.{
  ℕ, zero, suc, ◌+◌, ◌-◌, ◌≤◌, String, true, ◌≡◌, inl, inr, refl, arith, ltb, Bool-cases,
  if◌then◌else◌,
}
use finops_cost_engine_poc.Prelude.Text.{take_text, len_text}
use finops_cost_engine_poc.Json.{
  Json, null, bool, num, text, arr, obj, Items, nil, cons, Fields, end, field,
}
use finops_cost_engine_poc.Plan.Sanitizer.{
  redacted, max_depth, max_list_items, max_string_len, is_sensitive, is_allowed, sanitize_value,
  sanitize_items, sanitize_fields,
}

abbrev pub count_items : Items → ℕ
count_items nil = 0
count_items (cons v rest) = suc (count_items rest)

-- A value that may be forwarded, with `levels` levels of dicts and lists at most: texts of at most
-- 200 characters, lists of at most five items, and under a sensitive name only the mark.
unfoldable mutual
  pub IsSafe : ℕ → Json → Type 0
  IsSafe levels null = Unit
  IsSafe levels (bool b) = Unit
  IsSafe levels (num n) = Unit
  IsSafe levels (text s) = len_text s ≤ max_string_len
  IsSafe levels (arr items) =
      (l : ℕ) × (levels ≡ suc l) × (count_items items ≤ max_list_items) × AreSafe l items
  IsSafe levels (obj fields) = (l : ℕ) × (levels ≡ suc l) × HasSafe l fields

  pub AreSafe : ℕ → Items → Type 0
  AreSafe levels nil = Unit
  AreSafe levels (cons v rest) = IsSafe levels v × AreSafe levels rest

  pub HasSafe : ℕ → Fields → Type 0
  HasSafe levels end = Unit
  HasSafe levels (field k v rest) =
      (is_sensitive k ≡ true → v ≡ text redacted) × IsSafe levels v × HasSafe levels rest

len-take_text : (n : ℕ) (s : String) → len_text (take_text n s) ≤ n
unfolding len_text take_text
len-take_text zero s = omega arith
len-take_text (suc n) String.[] = omega arith
len-take_text (suc n) (String.◌∷◌ c s) = omega (arith, len-take_text n s)

count-sanitize_items :
    (items : Items) (left depth : ℕ) → count_items (sanitize_items items left depth) ≤ left
unfolding sanitize_value
count-sanitize_items nil left depth = omega arith
count-sanitize_items (cons v rest) zero depth = omega arith
count-sanitize_items (cons v rest) (suc left) depth =
    omega (arith, count-sanitize_items rest left depth)

mark-IsSafe : (levels : ℕ) → IsSafe levels (text redacted)
unfolding IsSafe len_text
mark-IsSafe levels = omega arith

truncated-IsSafe :
    (v : Json) (depth levels : ℕ)
    → (depth ≤ max_depth → IsSafe levels v)
    → IsSafe levels (if ltb max_depth depth then text "[TRUNCATED]" else v)
unfolding IsSafe len_text
truncated-IsSafe v depth levels h = elim (Bool-cases (ltb max_depth depth)) [
  | inl deep ↦ rw deep (omega arith)
  | inr shallow ↦ rw shallow (h (ground arith))
]

masked :
    (k : String) (v : Json) (levels : ℕ)
    → IsSafe levels v
    → let shown = if is_sensitive k then text redacted else v in
      (is_sensitive k ≡ true → shown ≡ text redacted) × IsSafe levels shown
masked k v levels safe = elim (Bool-cases (is_sensitive k)) [
  | inl hidden ↦ rw hidden ((λ _. refl), mark-IsSafe levels)
  | inr plain ↦ rw plain ((λ h. cc), safe)
]

mutual
  unfolding sanitize_value IsSafe

  sanitize_value-levels :
      (v : Json) (depth levels : ℕ) → depth + levels ≡ 5 → IsSafe levels (sanitize_value v depth)
  sanitize_value-levels null depth levels h = truncated-IsSafe null depth levels (λ _. tt)
  sanitize_value-levels (bool b) depth levels h = truncated-IsSafe (bool b) depth levels (λ _. tt)
  sanitize_value-levels (num n) depth levels h = truncated-IsSafe (num n) depth levels (λ _. tt)
  sanitize_value-levels (text s) depth levels h =
      truncated-IsSafe (text (take_text max_string_len s)) depth levels
        (λ _. len-take_text max_string_len s)
  sanitize_value-levels (arr items) depth levels h =
      truncated-IsSafe (arr (sanitize_items items max_list_items (depth + 1))) depth levels
        λ shallow.
          let below : (depth + 1) + (4 - depth) ≡ 5 = omega arith in
          (
            4 - depth,
            omega arith,
            count-sanitize_items items max_list_items (depth + 1),
            sanitize_items-levels items max_list_items (depth + 1) (4 - depth) below,
          )
  sanitize_value-levels (obj fields) depth levels h =
      truncated-IsSafe (obj (sanitize_fields fields (depth + 1))) depth levels λ shallow.
        let below : (depth + 1) + (4 - depth) ≡ 5 = omega arith in
        (4 - depth, omega arith, sanitize_fields-levels fields (depth + 1) (4 - depth) below)

  sanitize_items-levels :
      (items : Items) (left depth levels : ℕ)
      → depth + levels ≡ 5
      → AreSafe levels (sanitize_items items left depth)
  sanitize_items-levels nil left depth levels h = tt
  sanitize_items-levels (cons v rest) zero depth levels h = tt
  sanitize_items-levels (cons v rest) (suc left) depth levels h =
      (sanitize_value-levels v depth levels h, sanitize_items-levels rest left depth levels h)

  sanitize_fields-levels :
      (fields : Fields) (depth levels : ℕ)
      → depth + levels ≡ 5
      → HasSafe levels (sanitize_fields fields depth)
  sanitize_fields-levels end depth levels h = tt
  sanitize_fields-levels (field k v rest) depth levels h =
      let (marked, safe) =
        masked k (sanitize_value v depth) levels (sanitize_value-levels v depth levels h) in
      (marked, safe, sanitize_fields-levels rest depth levels h)

-- The attributes of a set of attributes, each of which must be allowed.
abbrev pub OnlyAllowed : Fields → Type 0
OnlyAllowed end = Unit
OnlyAllowed (field k v rest) = (is_allowed k ≡ true) × OnlyAllowed rest
