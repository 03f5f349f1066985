-- ===== src/Plan/Detector/Partition.antt =====
-- No changed file is lost: each is on the side of the gate that its globs say.
use finops_cost_engine_poc.Prelude.{
  String, Bool, true, false, not, ◌≡◌, ◌⊎◌, refl, sym, ◌∙◌, ap, inl, inr, arith, starts_with, List,
  [], ◌∷◌, ◌++◌, filterb, is_empty, All, Bool-cases, str_eq,
}
use mathlib.Core.List.{Memᴰ, Perm, perm_middle}
use mathlib.Core.List.Perm
use finops_cost_engine_poc.Prelude.Order.{insert_by, sort_by, sort_by-perm}
use finops_cost_engine_poc.Prelude.Text.{drop_text}
use finops_cost_engine_poc.Json.{Json, null, bool, num, text, arr, obj}
use finops_cost_engine_poc.Errors.{ok, >>=-eq-ok, ok-injective}
use finops_cost_engine_poc.Models.{le_text}
use finops_cost_engine_poc.Config.{ChangeDetectionConfig}
use finops_cost_engine_poc.Plan.Detector.{
  Sides, put_file, matches, matches_any, is_infrastructure, sides_of, ChangeDetectionResult,
  classify_files,
}

insert_by-All :
    (P : String → Type 0) (x : String) (ys : List String)
    → P x
    → All P ys
    → All P (insert_by le_text x ys)
unfolding insert_by
insert_by-All P x [] px pys = (px, tt)
insert_by-All P x (y ∷ ys) px (py, pys) = elim (Bool-cases (le_text x y)) [
  | inl e ↦ rw e (px, (py, pys))
  | inr e ↦ rw e (py, insert_by-All P x ys px pys)
]

insert_by-not_empty : (x : String) (ys : List String) → is_empty (insert_by le_text x ys) ≡ false
unfolding insert_by
insert_by-not_empty x [] = refl
insert_by-not_empty x (y ∷ ys) = elim (Bool-cases (le_text x y)) [
  | inl e ↦ rw e refl
  | inr e ↦ rw e refl
]

is_empty-sort_by : (xs : List String) → is_empty (sort_by le_text xs) ≡ is_empty xs
unfolding sort_by
is_empty-sort_by [] = refl
is_empty-sort_by (x ∷ xs) = insert_by-not_empty x (sort_by le_text xs)

sort_by-All : (P : String → Type 0) (xs : List String) → All P xs → All P (sort_by le_text xs)
unfolding sort_by
sort_by-All P [] h = tt
sort_by-All P (x ∷ xs) (px, h) = insert_by-All P x (sort_by le_text xs) px (sort_by-All P xs h)

Mem_cases : {x y : Json} {ys : List Json} → Memᴰ x (y ∷ ys) → (x ≡ y) ⊎ Memᴰ x ys
Mem_cases (Memᴰ.head e) = inl e
Mem_cases (Memᴰ.tail m) = inr m

text_of : Json → String
text_of (text s) = s
text_of _ = ""

differ : {b : Bool} → b ≡ true → b ≡ false → ⊥
differ h g = ground (arith, h, g)

no_result : ok true ≡ ok false → ⊥
no_result h = differ refl (ok-injective h)

module _ (fnmatch : String → String → Bool) (posix : String → String)
    (config : ChangeDetectionConfig) where
  -- the glob matches the path, or starts with "**/" and its rest does
  abbrev pub IsMatch : String → String → Type 0
  IsMatch path glob =
      (fnmatch (posix path) glob ≡ true)
      ⊎ ((starts_with glob "**/" ≡ true) × (fnmatch (posix path) (drop_text 3 glob) ≡ true))

  abbrev pub MatchesSome : String → List Json → Type 0
  MatchesSome path globs = (glob : String) × Memᴰ (text glob) globs × IsMatch path glob

  -- some glob of the infrastructure matches the path, and none that is ignored
  abbrev pub IsInfrastructure : String → Type 0
  IsInfrastructure path =
      MatchesSome path config.infrastructure_globs × ¬ MatchesSome path config.ignore_globs

  -- the files on their side, and all that have a name on one of the two
  pub record IsSplit (infra other files : List String) : Type 0 where
    pub priced : All IsInfrastructure infra
    pub skipped : All (λ path. ¬ IsInfrastructure path) other
    pub complete : Perm (infra ++ other) (filterb (λ path. not (str_eq path "")) files)

  IsMatch-matches :
      (path glob : String) → IsMatch path glob → matches fnmatch posix (posix path) glob ≡ true
  unfolding matches
  IsMatch-matches path glob (inl h) = ground (arith, h)
  IsMatch-matches path glob (inr (p, h)) = ground (arith, p, h)

  matches-IsMatch :
      (path glob : String) → matches fnmatch posix (posix path) glob ≡ true → IsMatch path glob
  unfolding matches
  matches-IsMatch path glob h = elim (Bool-cases (fnmatch (posix path) glob)) [
    | inl e ↦ inl e
    | inr e ↦ inr (ground (arith, h, e), ground (arith, h, e))
  ]

  matches_any-some :
      (path : String) (globs : List Json)
      → matches_any fnmatch posix path globs ≡ ok true
      → MatchesSome path globs
  unfolding matches_any
  matches_any-some path [] h = cc
  matches_any-some path (text g ∷ rest) h =
      elim (Bool-cases (matches fnmatch posix (posix path) g)) [
        | inl e ↦ (g, Memᴰ.head refl, matches-IsMatch path g e)
        | inr e ↦
            let (glob, m, found) = matches_any-some path rest (rw e at h) in
            (glob, Memᴰ.tail m, found)
      ]
  matches_any-some path (null ∷ rest) h = cc
  matches_any-some path (bool b ∷ rest) h = cc
  matches_any-some path (num n ∷ rest) h = cc
  matches_any-some path (arr l ∷ rest) h = cc
  matches_any-some path (obj d ∷ rest) h = cc

  matches_any-none :
      (path : String) (globs : List Json)
      → matches_any fnmatch posix path globs ≡ ok false
      → ¬ MatchesSome path globs
  unfolding matches_any text_of
  matches_any-none path [] h (glob, m, found) = absurd (elim m [ ])
  matches_any-none path (text g ∷ rest) h (glob, m, found) =
      elim (Bool-cases (matches fnmatch posix (posix path) g)) [
        | inl e ↦ absurd (no_result (rw e at h))
        | inr e ↦ elim (Mem_cases m) [
          | inl same ↦ absurd (
              differ (IsMatch-matches path glob found)
                (ap (λ x. matches fnmatch posix (posix path) (text_of x)) same ∙ e))
          | inr later ↦ matches_any-none path rest (rw e at h) (glob, later, found)
        ]
      ]
  matches_any-none path (null ∷ rest) h m = cc
  matches_any-none path (bool b ∷ rest) h m = cc
  matches_any-none path (num n ∷ rest) h m = cc
  matches_any-none path (arr l ∷ rest) h m = cc
  matches_any-none path (obj d ∷ rest) h m = cc

  side-IsInfrastructure :
      (path : String)
      → is_infrastructure fnmatch posix config path ≡ ok true
      → IsInfrastructure path
  unfolding is_infrastructure
  side-IsInfrastructure path h =
      let (ignored, here, h1) =
        >>=-eq-ok (matches_any fnmatch posix path config.ignore_globs) _ h in
      elim (Bool-cases ignored) [
        | inl e ↦ absurd (no_result (sym (rw e at h1)))
        | inr e ↦ (
          matches_any-some path config.infrastructure_globs (rw e at h1),
          matches_any-none path config.ignore_globs (rw e at here),
        )
      ]

  side-other :
      (path : String)
      → is_infrastructure fnmatch posix config path ≡ ok false
      → ¬ IsInfrastructure path
  unfolding is_infrastructure
  side-other path h (wanted, unwanted) =
      let (ignored, here, h1) =
        >>=-eq-ok (matches_any fnmatch posix path config.ignore_globs) _ h in
      elim (Bool-cases ignored) [
        | inl e ↦ unwanted (matches_any-some path config.ignore_globs (rw e at here))
        | inr e ↦ matches_any-none path config.infrastructure_globs (rw e at h1) wanted
      ]

  put_file-IsSplit :
      (path : String) (found : Bool) (s : Sides) (files : List String)
      → str_eq path "" ≡ false
      → is_infrastructure fnmatch posix config path ≡ ok found
      → IsSplit s.infra s.other files
      → IsSplit
          (put_file fnmatch posix path found s).infra
          (put_file fnmatch posix path found s).other
          (path ∷ files)
  put_file-IsSplit path true s files named here h = record {
    priced = (side-IsInfrastructure path here, h.priced);
    skipped = h.skipped;
    complete = rw named (Perm.cons path h.complete);
  }
  put_file-IsSplit path false s files named here h = record {
    priced = h.priced;
    skipped = (side-other path here, h.skipped);
    complete = rw named (Perm.trans (perm_middle s.infra s.other) (Perm.cons path h.complete));
  }

  sides_of-IsSplit :
      (files : List String) (s : Sides)
      → sides_of fnmatch posix config files ≡ ok s
      → IsSplit s.infra s.other files
  unfolding sides_of
  sides_of-IsSplit [] s h =
      rw (← ok-injective h) (record { priced = tt; skipped = tt; complete = Perm.refl [] })
  sides_of-IsSplit (path ∷ rest) s h = elim (Bool-cases (str_eq path "")) [
    | inl e ↦
        let before = sides_of-IsSplit rest s (rw e at h) in
        record { priced = before.priced; skipped = before.skipped; complete = rw e before.complete }
    | inr e ↦
        let (found, here, h1) =
          >>=-eq-ok (is_infrastructure fnmatch posix config path) _ (rw e at h) in
        let (sides, there, h2) = >>=-eq-ok (sides_of fnmatch posix config rest) _ h1 in
        rw (← ok-injective h2)
          (put_file-IsSplit path found sides rest e here (sides_of-IsSplit rest sides there))
  ]

  sorted-IsSplit :
      (infra other files : List String)
      → IsSplit infra other files
      → IsSplit (sort_by le_text infra) (sort_by le_text other) files
  sorted-IsSplit infra other files h = record {
    priced = sort_by-All _ infra h.priced;
    skipped = sort_by-All _ other h.skipped;
    complete =
        Perm.trans (Perm.append (sort_by-perm le_text infra) (sort_by-perm le_text other))
          h.complete;
  }

  -- What is classified is split: every changed file with a name is listed once, among the
  -- infrastructure exactly if some infrastructure glob matches it and no ignored one does, where a
  -- glob that starts with "**/" also matches by its rest; and the gate has
  -- to run exactly if there is infrastructure.
  pub classify_files-IsSplit :
      (files : List String) (r : ChangeDetectionResult)
      → classify_files fnmatch posix files config ≡ ok r
      → IsSplit r.infrastructure_files r.other_files files
        × (r.has_infrastructure_changes ≡ not (is_empty r.infrastructure_files))
  unfolding classify_files
  classify_files-IsSplit files r h =
      let (s, split, h1) = >>=-eq-ok (sides_of fnmatch posix config files) _ h in
      rw (← ok-injective h1) (
        sorted-IsSplit s.infra s.other files (sides_of-IsSplit files s split),
        ap not (sym (is_empty-sort_by s.infra)),
      )
