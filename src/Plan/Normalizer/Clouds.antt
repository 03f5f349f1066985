-- ===== src/Plan/Normalizer/Clouds.antt =====
-- The clouds of a plan, from the set that the loop adds to.
use finops_cost_engine_poc.Prelude.{
  ℕ, ◌+◌, Bool, true, false, ◌&&◌, ◌||◌, ◌≡◌, inl, inr, refl, sym, ◌∙◌, ap, List, [], ◌∷◌, anyb,
  arith, Bool-cases,
}
use finops_cost_engine_poc.Prelude.Order.{insert_by, sort_by}
use finops_cost_engine_poc.Models.{
  Cloud, aws, azure, gcp, unknown, ResourceChange, is_cost_relevant,
}
use finops_cost_engine_poc.Plan.Normalizer.{same_cloud, add_cloud, seen_clouds, by_value, clouds_of}

abbrev pub indicator : Bool → ℕ
indicator true = 1
indicator false = 0

-- how often a cloud is listed
unfoldable pub count_cloud : Cloud → List Cloud → ℕ
count_cloud cloud [] = 0
count_cloud cloud (c ∷ rest) = indicator (same_cloud cloud c) + count_cloud cloud rest

-- a change that costs something is in the cloud
unfoldable pub is_touched : Cloud → List ResourceChange → Bool
is_touched cloud changes = anyb (λ c. is_cost_relevant c && same_cloud cloud c.cloud) changes

same_cloud-eq : (c d : Cloud) → same_cloud c d ≡ true → c ≡ d
same_cloud-eq aws aws h = refl
same_cloud-eq azure azure h = refl
same_cloud-eq gcp gcp h = refl
same_cloud-eq unknown unknown h = refl
same_cloud-eq aws azure h = cc
same_cloud-eq aws gcp h = cc
same_cloud-eq aws unknown h = cc
same_cloud-eq azure aws h = cc
same_cloud-eq azure gcp h = cc
same_cloud-eq azure unknown h = cc
same_cloud-eq gcp aws h = cc
same_cloud-eq gcp azure h = cc
same_cloud-eq gcp unknown h = cc
same_cloud-eq unknown aws h = cc
same_cloud-eq unknown azure h = cc
same_cloud-eq unknown gcp h = cc

count-insert_by :
    (cloud c : Cloud) (cs : List Cloud)
    → count_cloud cloud (insert_by by_value c cs)
      ≡ indicator (same_cloud cloud c) + count_cloud cloud cs
unfolding insert_by count_cloud
count-insert_by cloud c [] = refl
count-insert_by cloud c (d ∷ cs) = elim (Bool-cases (by_value c d)) [
  | inl e ↦ rw e refl
  | inr e ↦ rw (e, count-insert_by cloud c cs) (omega arith)
]

count-sort_by :
    (cloud : Cloud) (cs : List Cloud)
    → count_cloud cloud (sort_by by_value cs) ≡ count_cloud cloud cs
unfolding sort_by count_cloud
count-sort_by cloud [] = refl
count-sort_by cloud (c ∷ cs) =
    count-insert_by cloud c (sort_by by_value cs)
    ∙ ap (λ n. indicator (same_cloud cloud c) + n) (count-sort_by cloud cs)

-- each cloud is at most once in the set
abbrev IsOnce : Cloud → List Cloud → Type 0
IsOnce cloud seen = count_cloud cloud seen ≡ indicator (anyb (same_cloud cloud) seen)

found_is :
    (cloud c : Cloud) (seen : List Cloud)
    → same_cloud cloud c ≡ true
    → anyb (same_cloud c) seen ≡ anyb (same_cloud cloud) seen
found_is cloud c seen h = ap (λ d. anyb (same_cloud d) seen) (sym (same_cloud-eq cloud c h))

add_cloud-IsOnce :
    (cloud c : Cloud) (seen : List Cloud)
    → IsOnce cloud seen
    → IsOnce cloud (add_cloud c seen)
      × (anyb (same_cloud cloud) (add_cloud c seen)
          ≡ (same_cloud cloud c || anyb (same_cloud cloud) seen))
unfolding add_cloud count_cloud
add_cloud-IsOnce cloud c seen h = elim (Bool-cases (anyb (same_cloud c) seen)) [
  | inl e ↦ elim (Bool-cases (same_cloud cloud c)) [
    | inl s ↦ rw (e, s) (h, sym (found_is cloud c seen s) ∙ e)
    | inr s ↦ rw (e, s) (h, refl)
  ]
  | inr e ↦ elim (Bool-cases (same_cloud cloud c)) [
    | inl s ↦
        let absent = sym (found_is cloud c seen s) ∙ e in
        rw (e, s) (ground (arith, h, absent), refl)
    | inr s ↦ rw (e, s) (omega (arith, h), refl)
  ]
]

or_swap : (a b t : Bool) → ((a || b) || t) ≡ (b || (a || t))
or_swap a b t = ground arith

seen_clouds-IsOnce :
    (cloud : Cloud) (changes : List ResourceChange) (seen : List Cloud)
    → IsOnce cloud seen
    → count_cloud cloud (seen_clouds changes seen)
      ≡ indicator (anyb (same_cloud cloud) seen || is_touched cloud changes)
unfolding seen_clouds is_touched
seen_clouds-IsOnce cloud [] seen h = ground (arith, h)
seen_clouds-IsOnce cloud (c ∷ rest) seen h = elim (Bool-cases (is_cost_relevant c)) [
  | inl e ↦
      let (once, there) = add_cloud-IsOnce cloud c.cloud seen h in
      let after = seen_clouds-IsOnce cloud rest (add_cloud c.cloud seen) once in
      rw e (
        after
        ∙ ap (λ b. indicator (b || is_touched cloud rest)) there
        ∙ ap indicator (
            or_swap (same_cloud cloud c.cloud) (anyb (same_cloud cloud) seen)
              (is_touched cloud rest)))
  | inr e ↦ rw e (seen_clouds-IsOnce cloud rest seen h)
]

-- The loop over the changes lists a cloud once if a cost-relevant change is in it, and else not at
-- all.
pub clouds_of_exact :
    (changes : List ResourceChange) (cloud : Cloud)
    → count_cloud cloud (clouds_of changes) ≡ indicator (is_touched cloud changes)
unfolding clouds_of count_cloud
clouds_of_exact changes cloud =
    count-sort_by cloud (seen_clouds changes []) ∙ seen_clouds-IsOnce cloud changes [] refl
