-- ===== src/Plan/Normalizer/Changes.antt =====
-- Which documents normalise, and what is in the plan then.
use finops_cost_engine_poc.Prelude.{
  String, Bool, true, false, not, ◌≡◌, ◌≢◌, refl, ap, inl, inr, List, [], ◌∷◌, map, arith,
  if◌then◌else◌, Bool-cases, str_eq,
}
use finops_cost_engine_poc.Json.{Json, null, bool, num, text, arr, obj, Fields, get, equals_text}
use finops_cost_engine_poc.Errors.{
  Message, FinOpsError, ok, raise_if, ok-injective, >>=-eq-ok, plan_error,
}
use finops_cost_engine_poc.Models.{ResourceChange, NormalizedPlan}
use finops_cost_engine_poc.Plan.Normalizer.{
  Regions, change_of, changes_of, clouds_of, provider_regions, normalize_plan, normalize_fields,
  shown, is_supported_version, is_true, entries_in,
}

-- the managed entries of a list of entries, in order
abbrev pub managed : List Json → List Fields
managed [] = []
managed (obj entry ∷ rest) =
    let others = managed rest in
    if equals_text (get "mode" entry) "managed" then entry ∷ others else others
managed (_ ∷ rest) = managed rest

-- The loop turns each managed entry into its change, in order.
changes_of-eq-map :
    (regions : Regions) (entries : List Json) (changes : List ResourceChange)
    → changes_of regions entries ≡ ok changes
    → map (change_of regions) (managed entries) ≡ map ok changes
unfolding changes_of
changes_of-eq-map regions [] changes h = ap (map ok) (ok-injective h)
changes_of-eq-map regions (obj entry ∷ rest) changes h =
    elim (Bool-cases (equals_text (get "mode" entry) "managed")) [
      | inl taken ↦
          let (change, made, after) = >>=-eq-ok (change_of regions entry) _ (rw taken at h) in
          let (others, looped, last) = >>=-eq-ok (changes_of regions rest) _ after in
          rw (taken, ← ok-injective last, made, changes_of-eq-map regions rest others looped) refl
      | inr left ↦ rw left (changes_of-eq-map regions rest changes (rw left at h))
    ]
changes_of-eq-map regions (null ∷ rest) changes h = changes_of-eq-map regions rest changes h
changes_of-eq-map regions (bool b ∷ rest) changes h = changes_of-eq-map regions rest changes h
changes_of-eq-map regions (num n ∷ rest) changes h = changes_of-eq-map regions rest changes h
changes_of-eq-map regions (text s ∷ rest) changes h = changes_of-eq-map regions rest changes h
changes_of-eq-map regions (arr l ∷ rest) changes h = changes_of-eq-map regions rest changes h

not_errored : (j : Json) → is_true j ≡ false → j ≢ bool true
not_errored (bool true) h e = cc
not_errored (bool false) h e = cc
not_errored null h e = cc
not_errored (num n) h e = cc
not_errored (text t) h e = cc
not_errored (arr l) h e = cc
not_errored (obj d) h e = cc

raised_if : (b : Bool) (e : FinOpsError) {u : Unit {0}} → raise_if b e ≡ ok u → b ≡ false
raised_if true e h = cc
raised_if false e h = refl

module _ (show : Json → String) where
  -- A document that normalises has a supported format version and is not errored; the plan has one
  -- change for each managed entry, in order, and a cloud for each that a cost-relevant change is in.
  pub normalize_fields-ok :
      (plan : Fields) (p : NormalizedPlan)
      → normalize_plan show (obj plan) ≡ ok p
      → (is_supported_version p.format_version ≡ true)
        × (get "errored" plan ≢ bool true)
        × ((regions : Regions) × (entries : List Json) × (provider_regions plan ≡ ok regions)
            × (entries_in (get "resource_changes" plan) ≡ ok entries)
            × (map (change_of regions) (managed entries) ≡ map ok p.changes))
        × (p.clouds ≡ clouds_of p.changes)
  unfolding normalize_plan normalize_fields
  normalize_fields-ok plan p h =
      let version = shown show (get "format_version" plan) in
      let (_, h1, r1) =
        >>=-eq-ok (raise_if (str_eq version "") (plan_error Message.missing_format_version)) _ h in
      let (_, h2, r2) =
        >>=-eq-ok
          (raise_if (not (is_supported_version version))
            (plan_error Message.unsupported_format_version))
          _ r1 in
      let (_, h3, r3) =
        >>=-eq-ok (raise_if (is_true (get "errored" plan)) (plan_error Message.plan_errored)) _
          r2 in
      let (regions, noted, r4) = >>=-eq-ok (provider_regions plan) _ r3 in
      let (entries, listed, r5) = >>=-eq-ok (entries_in (get "resource_changes" plan)) _ r4 in
      let (changes, made, r6) = >>=-eq-ok (changes_of regions entries) _ r5 in
      let supported = raised_if _ _ h2 in
      let sound = raised_if _ _ h3 in
      rw (← ok-injective r6) (
        ground (arith, supported),
        not_errored (get "errored" plan) sound,
        (regions, entries, noted, listed, changes_of-eq-map regions entries changes made),
        refl,
      )
