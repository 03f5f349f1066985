-- ===== src/Stacks/Selection.antt =====
-- What a selection of a stack guarantees before anything runs against a cloud.
use finops_cost_engine_poc.Prelude.{
  ◌≤◌, String, Bool, true, false, not, ◌&&◌, List, [], ◌∷◌, Option, none, some, ◌≡◌, ◌⊎◌, ◌↔◌, inl,
  inr, refl, sym, ◌∙◌, ap, arith, str_eq, eq_iff, Bool-cases,
}
use mathlib.Core.Option.{some-injective}
use mathlib.Core.List.{Memᴰ}
use package.text.Mathlib.Text.{starts_with}
use finops_cost_engine_poc.Prelude.Text.{len_text}
use finops_cost_engine_poc.Prelude.Order.{insert_by, sort_by}
use finops_cost_engine_poc.Errors.{
  Message, ok, raise_if, ok-injective, >>=-eq-ok, configuration_error,
}
use finops_cost_engine_poc.Stacks.{Stack, validate_selection, by_length, attributed, prefixes}

raise_if-ok :
    (b : Bool) (m : Message) {u : Unit {0}} → raise_if b (configuration_error m) ≡ ok u → b ≡ false
raise_if-ok true m h = cc
raise_if-ok false m h = refl

not_stopped :
    (required deployable : Bool)
    → (required ≡ true → deployable ≡ true)
    → (required && not deployable) ≡ false
not_stopped required deployable h = ground arith

-- A selection is accepted exactly when it names the stack's own cloud and environment and, where
-- that is required, the stack is deployable; the stack comes back as it is.
pub validate_selection-ok_iff :
    (stack s : Stack) (cloud environment : String) (require_deployable : Bool)
    → (validate_selection stack cloud environment require_deployable ≡ ok s) ↔ (
        (stack.cloud ≡ cloud)
        × (stack.environment ≡ environment)
        × (require_deployable ≡ true → stack.deployable ≡ true)
        × (stack ≡ s))
unfolding validate_selection
validate_selection-ok_iff stack s cloud environment require_deployable =
    let (c, c') = eq_iff stack.cloud cloud in
    let (e, e') = eq_iff stack.environment environment in
    (
      λ h.
          let (_, h1, r1) =
            >>=-eq-ok
              (raise_if (not (str_eq stack.cloud cloud))
                (configuration_error Message.cloud_mismatch))
              _ h in
          let (_, h2, r2) =
            >>=-eq-ok
              (raise_if (not (str_eq stack.environment environment))
                (configuration_error Message.environment_mismatch))
              _ r1 in
          let (_, h3, r3) =
            >>=-eq-ok
              (raise_if (require_deployable && not stack.deployable)
                (configuration_error Message.not_deployable))
              _ r2 in
          let p1 = raise_if-ok _ Message.cloud_mismatch h1 in
          let p2 = raise_if-ok _ Message.environment_mismatch h2 in
          let p3 = raise_if-ok _ Message.not_deployable h3 in
          (
            c (ground (arith, p1)),
            e (ground (arith, p2)),
            λ on. ground (arith, p3, on),
            ok-injective r3,
          ),
      λ (same_cloud, same_environment, allowed, same).
          rw
            (
              c' same_cloud,
              e' same_environment,
              not_stopped require_deployable stack.deployable allowed,
            )
            (ap ok same),
    )

-- the prefixes of a list are in order, the longest first
abbrev pub Longest : List (String × Stack) → Type 0
Longest [] = Unit
Longest (p ∷ rest) =
    ((q : String × Stack) → Memᴰ q rest → len_text q.0 ≤ len_text p.0) × Longest rest

abbrev Prefix : Type 0
Prefix = String × Stack

Mem_cases : {p q : Prefix} {ps : List Prefix} → Memᴰ q (p ∷ ps) → (q ≡ p) ⊎ Memᴰ q ps
Mem_cases (Memᴰ.head e) = inl e
Mem_cases (Memᴰ.tail m) = inr m

Mem-insert_by :
    (p q : Prefix) (ps : List Prefix) → Memᴰ q (insert_by by_length p ps) → (q ≡ p) ⊎ Memᴰ q ps
unfolding insert_by
Mem-insert_by p q [] m = Mem_cases m
Mem-insert_by p q (x ∷ ps) m = elim (Bool-cases (by_length p x)) [
  | inl e ↦ Mem_cases (rw e at m)
  | inr e ↦ elim (Mem_cases (rw e at m)) [
    | inl first ↦ inr (Memᴰ.head first)
    | inr later ↦ elim (Mem-insert_by p q ps later) [
      | inl same ↦ inl same
      | inr m' ↦ inr (Memᴰ.tail m')
    ]
  ]
]

Mem-inserted :
    (p q : Prefix) (ps : List Prefix) → (q ≡ p) ⊎ Memᴰ q ps → Memᴰ q (insert_by by_length p ps)
unfolding insert_by
Mem-inserted p q [] (inl e) = Memᴰ.head e
Mem-inserted p q [] (inr m) = Memᴰ.tail m
Mem-inserted p q (x ∷ ps) m = elim (Bool-cases (by_length p x)) [
  | inl e ↦ rw e elim m [ inl same ↦ Memᴰ.head same | inr m' ↦ Memᴰ.tail m' ]
  | inr e ↦ rw e elim m [
    | inl same ↦ Memᴰ.tail (Mem-inserted p q ps (inl same))
    | inr m' ↦ elim (Mem_cases m') [
      | inl first ↦ Memᴰ.head first
      | inr later ↦ Memᴰ.tail (Mem-inserted p q ps (inr later))
    ]
  ]
]

Mem-sort_by : (q : Prefix) (ps : List Prefix) → Memᴰ q (sort_by by_length ps) ↔ Memᴰ q ps
unfolding sort_by
Mem-sort_by q [] = (λ m. m, λ m. m)
Mem-sort_by q (p ∷ ps) =
    let (from, to) = Mem-sort_by q ps in
    (
      λ m. elim (Mem-insert_by p q (sort_by by_length ps) m) [
        | inl e ↦ Memᴰ.head e
        | inr m' ↦ Memᴰ.tail (from m')
      ],
      λ m.
          Mem-inserted p q (sort_by by_length ps)
            (elim (Mem_cases m) [ inl e ↦ inl e | inr m' ↦ inr (to m') ]),
    )

-- what the test of the order says
longer : (p x : Prefix) → by_length p x ≡ true → len_text x.0 ≤ len_text p.0
longer p x h = ground arith

shorter : (p x : Prefix) → by_length p x ≡ false → len_text p.0 ≤ len_text x.0
shorter p x h = ground arith

insert_by-Longest :
    (p : Prefix) (ps : List Prefix) → Longest ps → Longest (insert_by by_length p ps)
unfolding insert_by
insert_by-Longest p [] h = (λ q m. absurd (elim m [ ]), tt)
insert_by-Longest p (x ∷ ps) (first, rest) = elim (Bool-cases (by_length p x)) [
  | inl e ↦ rw e (
    λ q m. elim (Mem_cases m) [
      | inl same ↦ rw same (longer p x e)
      | inr later ↦ let a = first q later in let b = longer p x e in omega arith
    ],
    (first, rest),
  )
  | inr e ↦ rw e (
    λ q m. elim (Mem-insert_by p q ps m) [
      | inl same ↦ rw same (shorter p x e)
      | inr later ↦ first q later
    ],
    insert_by-Longest p ps rest,
  )
]

sort_by-Longest : (ps : List Prefix) → Longest (sort_by by_length ps)
unfolding sort_by
sort_by-Longest [] = tt
sort_by-Longest (p ∷ ps) = insert_by-Longest p (sort_by by_length ps) (sort_by-Longest ps)

no_match : {b : Bool} → b ≡ true → b ≡ false → ⊥
no_match h g = ground (arith, h, g)

attributed-first :
    (file : String) (ps : List Prefix) (s : Stack)
    → Longest ps
    → attributed file ps ≡ some s
    → (p : Prefix) × Memᴰ p ps
      × (p.1 ≡ s)
      × (starts_with file p.0 ≡ true)
      × ((q : Prefix) → Memᴰ q ps → starts_with file q.0 ≡ true → len_text q.0 ≤ len_text p.0)
unfolding attributed
attributed-first file [] s ordered h = cc
attributed-first file (p ∷ ps) s (first, rest) h = elim (Bool-cases (starts_with file p.0)) [
  | inl e ↦ (
    p,
    Memᴰ.head refl,
    some-injective _ _ (rw e at h),
    e,
    λ q m matches. elim (Mem_cases m) [
      | inl same ↦ rw same (omega arith)
      | inr later ↦ first q later
    ],
  )
  | inr e ↦
      let (r, m, same, matches, longest) = attributed-first file ps s rest (rw e at h) in
      (
        r,
        Memᴰ.tail m,
        same,
        matches,
        λ q m' matches'. elim (Mem_cases m') [
          | inl is_p ↦ absurd (no_match (ap (λ x. starts_with file x.0) (sym is_p) ∙ matches') e)
          | inr later ↦ longest q later matches'
        ],
      )
]

attributed-none :
    (file : String) (ps : List Prefix) (q : Prefix)
    → attributed file ps ≡ none
    → Memᴰ q ps
    → starts_with file q.0 ≡ false
unfolding attributed
attributed-none file [] q h m = absurd (elim m [ ])
attributed-none file (p ∷ ps) q h m = elim (Bool-cases (starts_with file p.0)) [
  | inl e ↦ cc (rw e at h)
  | inr e ↦ elim (Mem_cases m) [
    | inl same ↦ ap (λ x. starts_with file x.0) same ∙ e
    | inr later ↦ attributed-none file ps q (rw e at h) later
  ]
]

-- To which stack a file goes among those with the prefixes: to the stack of a prefix that the file
-- starts with and than which no such prefix is longer; to none only if it starts with no prefix.
abbrev pub IsAttributed : String → List (String × Stack) → Option Stack → Type 0
IsAttributed file ps (some s) =
    (p : String × Stack) × Memᴰ p ps
    × (p.1 ≡ s)
    × (starts_with file p.0 ≡ true)
    × ((q : String × Stack) → Memᴰ q ps → starts_with file q.0 ≡ true → len_text q.0 ≤ len_text p.0)
IsAttributed file ps none = (q : String × Stack) → Memᴰ q ps → starts_with file q.0 ≡ false

-- A changed file goes to a stack of the registry by one of its prefixes that the file starts with,
-- and no prefix of any stack that the file starts with is longer; it goes to no stack only if it
-- starts with no prefix of any stack.
pub attributed-Longest :
    (file : String) (stacks : List Stack) (found : Option Stack)
    → attributed file (sort_by by_length (prefixes stacks)) ≡ found
    → IsAttributed file (prefixes stacks) found
attributed-Longest file stacks (some s) h =
    let (p, m, same, matches, longest) =
      attributed-first file (sort_by by_length (prefixes stacks)) s
        (sort_by-Longest (prefixes stacks)) h in
    (
      p,
      (Mem-sort_by p (prefixes stacks)).0 m,
      same,
      matches,
      λ q m'. longest q ((Mem-sort_by q (prefixes stacks)).1 m'),
    )
attributed-Longest file stacks none h = λ q m.
    attributed-none file (sort_by by_length (prefixes stacks)) q h
      ((Mem-sort_by q (prefixes stacks)).1 m)
