-- ===== src/Plan/Normalizer/WellFormed.antt =====
-- The shapes that Terraform writes, under which the normalizer raises nothing but its own errors.
use finops_cost_engine_poc.Prelude.{
  String, Bool, true, false, if◌then◌else◌, ◌≡◌, refl, List, [], ◌∷◌, Option, none, some, str_eq,
  not, All,
}
use finops_cost_engine_poc.Json.{
  Json, null, bool, num, text, arr, obj, Fields, end, field, get, as_dict, as_list, to_list, truthy,
  equals_text,
}
use finops_cost_engine_poc.Errors.{FinOpsError, Message, Result, ok, raise_if, ◌>>=◌, plan_error}
use finops_cost_engine_poc.Models.{ResourceChange}
use finops_cost_engine_poc.Plan.Normalizer.{
  FileContent, missing, invalid, document, Regions, shown, is_supported_version, is_true,
  block_or_empty, name_or_empty, constant_at, constant_region, put_named, note_constant,
  note_regions, provider_regions, texts_of, actions_in, change_of, entries_in, changes_of,
  load_plan_json, normalize_fields, normalize_plan, normalize_plan_file,
}
use finops_cost_engine_poc.Gate.Returns.{IsCaught, IsCaught->>=}

-- a dict or nothing
abbrev pub IsBlock : Json → Type 0
IsBlock null = Unit
IsBlock (obj d) = Unit
IsBlock other = ⊥

-- a text or nothing
abbrev pub IsName : Json → Type 0
IsName null = Unit
IsName (text s) = Unit
IsName other = ⊥

abbrev pub AreTexts : List Json → Type 0
AreTexts [] = Unit
AreTexts (text s ∷ rest) = AreTexts rest
AreTexts (other ∷ rest) = ⊥

-- a list of texts or nothing
abbrev pub AreActions : Json → Type 0
AreActions null = Unit
AreActions (arr items) = AreTexts (to_list items)
AreActions other = ⊥

-- a list or nothing
abbrev pub IsListing : Json → Type 0
IsListing null = Unit
IsListing (arr items) = Unit
IsListing other = ⊥

-- the configuration of a provider: its region and location are expressions
abbrev pub IsProvider : Json → Type 0
IsProvider (obj cfg) =
    IsName (get "name" cfg)
    × IsBlock (get "expressions" cfg)
    × IsBlock (get "region" (as_dict (get "expressions" cfg)))
    × IsBlock (get "location" (as_dict (get "expressions" cfg)))
IsProvider other = ⊥

abbrev pub AreProviders : Fields → Type 0
AreProviders end = Unit
AreProviders (field key cfg rest) = IsProvider cfg × AreProviders rest

-- an entry of `resource_changes`
abbrev pub IsEntry : Json → Type 0
IsEntry (obj entry) =
    IsName (get "type" entry)
    × IsName (get "provider_name" entry)
    × AreActions (get "actions" (as_dict (get "change" entry)))
    × IsName (get "address" entry)
    × IsName (get "name" entry)
IsEntry other = Unit

-- A document that is no dict is an error of the normalizer's own.
abbrev pub IsPlanDocument : Json → Type 0
IsPlanDocument (obj plan) =
    IsBlock (get "configuration" plan)
    × IsBlock (get "provider_config" (as_dict (get "configuration" plan)))
    × AreProviders (as_dict (get "provider_config" (as_dict (get "configuration" plan))))
    × IsListing (get "resource_changes" plan)
    × All IsEntry (to_list (as_list (get "resource_changes" plan)))
IsPlanDocument other = Unit

-- So is a file that is missing or no JSON.
abbrev pub IsPlanFile : FileContent → Type 0
IsPlanFile (document j) = IsPlanDocument j
IsPlanFile missing = Unit
IsPlanFile invalid = Unit

abbrev pub IsOptionalPlanFile : Option FileContent → Type 0
IsOptionalPlanFile none = Unit
IsOptionalPlanFile (some file) = IsPlanFile file

block_or_empty-eq : (v : Json) → IsBlock v → block_or_empty v ≡ ok (as_dict v)
unfolding block_or_empty as_dict truthy
block_or_empty-eq null h = refl
block_or_empty-eq (obj d) h = refl
block_or_empty-eq (bool b) h = absurd h
block_or_empty-eq (num n) h = absurd h
block_or_empty-eq (text s) h = absurd h
block_or_empty-eq (arr l) h = absurd h

name_or_empty-IsCaught : (v : Json) → IsName v → IsCaught (name_or_empty v)
unfolding name_or_empty truthy
name_or_empty-IsCaught null h = tt
name_or_empty-IsCaught (text s) h = tt
name_or_empty-IsCaught (bool b) h = absurd h
name_or_empty-IsCaught (num n) h = absurd h
name_or_empty-IsCaught (arr l) h = absurd h
name_or_empty-IsCaught (obj d) h = absurd h

constant_at-IsCaught :
    (attr : String) (expressions : Fields)
    → IsBlock (get attr expressions)
    → IsCaught (constant_at attr expressions)
unfolding constant_at
constant_at-IsCaught attr expressions h = rw (block_or_empty-eq (get attr expressions) h) tt

location-IsCaught :
    (found : Option String) (expressions : Fields)
    → IsBlock (get "location" expressions)
    → IsCaught (elim found as (λ x. Result (Option String)) [
      | some c ↦ ok (some c)
      | none ↦ constant_at "location" expressions
    ])
location-IsCaught (some c) expressions h = tt
location-IsCaught none expressions h = constant_at-IsCaught "location" expressions h

constant_region-IsCaught : (cfg : Json) → IsProvider cfg → IsCaught (constant_region cfg)
unfolding constant_region
constant_region-IsCaught (obj cfg) (named, block, region, location) =
    let expressions = as_dict (get "expressions" cfg) in
    rw (block_or_empty-eq (get "expressions" cfg) block) (
      IsCaught->>= (constant_at "region" expressions) _
        (constant_at-IsCaught "region" expressions region)
        λ found. location-IsCaught found expressions location)
constant_region-IsCaught null h = absurd h
constant_region-IsCaught (bool b) h = absurd h
constant_region-IsCaught (num n) h = absurd h
constant_region-IsCaught (text s) h = absurd h
constant_region-IsCaught (arr l) h = absurd h

put_named-IsCaught :
    (name : Json) (constant : String) (regions : Regions)
    → IsName name
    → IsCaught (put_named name constant regions)
unfolding put_named
put_named-IsCaught null constant regions h = tt
put_named-IsCaught (text s) constant regions h = tt
put_named-IsCaught (bool b) constant regions h = absurd h
put_named-IsCaught (num n) constant regions h = absurd h
put_named-IsCaught (arr l) constant regions h = absurd h
put_named-IsCaught (obj d) constant regions h = absurd h

provider-IsName : (cfg : Json) → IsProvider cfg → IsName (get "name" (as_dict cfg))
unfolding as_dict
provider-IsName (obj cfg) (named, block, region, location) = named
provider-IsName null h = absurd h
provider-IsName (bool b) h = absurd h
provider-IsName (num n) h = absurd h
provider-IsName (text s) h = absurd h
provider-IsName (arr l) h = absurd h

note_constant-IsCaught :
    (key : String) (cfg : Json) (constant : Option String) (regions : Regions)
    → IsProvider cfg
    → IsCaught (note_constant key cfg constant regions)
unfolding note_constant
note_constant-IsCaught key cfg none regions h = tt
note_constant-IsCaught key cfg (some c) regions h =
    put_named-IsCaught (get "name" (as_dict cfg)) c _ (provider-IsName cfg h)

note_regions-IsCaught :
    (providers : Fields) (regions : Regions)
    → AreProviders providers
    → IsCaught (note_regions providers regions)
unfolding note_regions
note_regions-IsCaught end regions h = tt
note_regions-IsCaught (field key cfg rest) regions (here, others) =
    IsCaught->>= (constant_region cfg) _ (constant_region-IsCaught cfg here) λ constant.
      IsCaught->>= (note_constant key cfg constant regions) _
        (note_constant-IsCaught key cfg constant regions here)
        λ noted. note_regions-IsCaught rest noted others

texts_of-IsCaught : (items : List Json) → AreTexts items → IsCaught (texts_of items)
unfolding texts_of
texts_of-IsCaught [] h = tt
texts_of-IsCaught (text s ∷ rest) h =
    IsCaught->>= (texts_of rest) _ (texts_of-IsCaught rest h) λ others. tt
texts_of-IsCaught (null ∷ rest) h = absurd h
texts_of-IsCaught (bool b ∷ rest) h = absurd h
texts_of-IsCaught (num n ∷ rest) h = absurd h
texts_of-IsCaught (arr l ∷ rest) h = absurd h
texts_of-IsCaught (obj d ∷ rest) h = absurd h

actions_in-IsCaught : (v : Json) → AreActions v → IsCaught (actions_in v)
unfolding actions_in truthy
actions_in-IsCaught null h = tt
actions_in-IsCaught (arr items) h = texts_of-IsCaught (to_list items) h
actions_in-IsCaught (bool b) h = absurd h
actions_in-IsCaught (num n) h = absurd h
actions_in-IsCaught (text s) h = absurd h
actions_in-IsCaught (obj d) h = absurd h

change_of-IsCaught :
    (regions : Regions) (entry : Fields) → IsEntry (obj entry) → IsCaught (change_of regions entry)
unfolding change_of
change_of-IsCaught regions entry (typed, provided, acted, addressed, named) =
    IsCaught->>= (name_or_empty (get "type" entry)) _ (name_or_empty-IsCaught _ typed)
      λ resource_type.
        IsCaught->>= (name_or_empty (get "provider_name" entry)) _
          (name_or_empty-IsCaught _ provided)
          λ provider_name.
            IsCaught->>= (actions_in (get "actions" (as_dict (get "change" entry)))) _
              (actions_in-IsCaught _ acted)
              λ actions.
                IsCaught->>= (name_or_empty (get "address" entry)) _
                  (name_or_empty-IsCaught _ addressed)
                  λ address.
                    IsCaught->>= (name_or_empty (get "name" entry)) _
                      (name_or_empty-IsCaught _ named) λ name. tt

managed-IsCaught :
    (b : Bool) (made : Result ResourceChange) (others : Result (List ResourceChange))
    → IsCaught made
    → IsCaught others
    → IsCaught (if b then (do change ← made; changes ← others; ok (change ∷ changes)) else others)
managed-IsCaught true made others h k =
    IsCaught->>= made _ h λ change. IsCaught->>= others _ k λ changes. tt
managed-IsCaught false made others h k = k

changes_of-IsCaught :
    (regions : Regions) (entries : List Json)
    → All IsEntry entries
    → IsCaught (changes_of regions entries)
unfolding changes_of
changes_of-IsCaught regions [] h = tt
changes_of-IsCaught regions (obj entry ∷ rest) (here, others) =
    managed-IsCaught (equals_text (get "mode" entry) "managed") (change_of regions entry)
      (changes_of regions rest) (change_of-IsCaught regions entry here)
      (changes_of-IsCaught regions rest others)
changes_of-IsCaught regions (null ∷ rest) (here, others) = changes_of-IsCaught regions rest others
changes_of-IsCaught regions (bool b ∷ rest) (here, others) = changes_of-IsCaught regions rest others
changes_of-IsCaught regions (num n ∷ rest) (here, others) = changes_of-IsCaught regions rest others
changes_of-IsCaught regions (text s ∷ rest) (here, others) = changes_of-IsCaught regions rest others
changes_of-IsCaught regions (arr l ∷ rest) (here, others) = changes_of-IsCaught regions rest others

entries_in-eq : (v : Json) → IsListing v → entries_in v ≡ ok (to_list (as_list v))
unfolding entries_in as_list truthy
entries_in-eq null h = refl
entries_in-eq (arr items) h = refl
entries_in-eq (bool b) h = absurd h
entries_in-eq (num n) h = absurd h
entries_in-eq (text s) h = absurd h
entries_in-eq (obj d) h = absurd h

raise_if-IsCaught : (b : Bool) (e : FinOpsError) → IsCaught (raise_if b e)
raise_if-IsCaught true e = tt
raise_if-IsCaught false e = tt

provider_regions-IsCaught :
    (plan : Fields) → IsPlanDocument (obj plan) → IsCaught (provider_regions plan)
unfolding provider_regions
provider_regions-IsCaught plan (configured, provided, providers, listing, entries) =
    let configuration = as_dict (get "configuration" plan) in
    rw
      (
        block_or_empty-eq (get "configuration" plan) configured,
        block_or_empty-eq (get "provider_config" configuration) provided,
      )
      (note_regions-IsCaught (as_dict (get "provider_config" configuration)) [] providers)

module _ (show : Json → String) where
  normalize_fields-IsCaught :
      (plan : Fields) → IsPlanDocument (obj plan) → IsCaught (normalize_fields show plan)
  unfolding normalize_fields
  normalize_fields-IsCaught plan h =
      let (_, _, _, listing, entries) = h in
      let version = shown show (get "format_version" plan) in
      IsCaught->>= (raise_if (str_eq version "") (plan_error Message.missing_format_version)) _
        (raise_if-IsCaught _ _)
        λ _.
          IsCaught->>=
            (raise_if (not (is_supported_version version))
              (plan_error Message.unsupported_format_version))
            _ (raise_if-IsCaught _ _)
            λ _.
              IsCaught->>=
                (raise_if (is_true (get "errored" plan)) (plan_error Message.plan_errored)) _
                (raise_if-IsCaught _ _)
                λ _.
                  IsCaught->>= (provider_regions plan) _ (provider_regions-IsCaught plan h)
                    λ regions. rw (entries_in-eq (get "resource_changes" plan) listing) (
                      IsCaught->>=
                        (changes_of regions (to_list (as_list (get "resource_changes" plan)))) _
                        (changes_of-IsCaught regions _ entries) λ changes. tt)

  normalize_plan-IsCaught :
      (plan : Json) → IsPlanDocument plan → IsCaught (normalize_plan show plan)
  unfolding normalize_plan
  normalize_plan-IsCaught (obj plan) h = normalize_fields-IsCaught plan h
  normalize_plan-IsCaught null h = tt
  normalize_plan-IsCaught (bool b) h = tt
  normalize_plan-IsCaught (num n) h = tt
  normalize_plan-IsCaught (text s) h = tt
  normalize_plan-IsCaught (arr l) h = tt

  -- What a file of the shapes that Terraform writes does not normalise to is an error of the
  -- normalizer's own.
  pub normalize_plan_file-IsCaught :
      (file : FileContent) → IsPlanFile file → IsCaught (normalize_plan_file show file)
  unfolding normalize_plan_file load_plan_json
  normalize_plan_file-IsCaught missing h = tt
  normalize_plan_file-IsCaught invalid h = tt
  normalize_plan_file-IsCaught (document plan) h = normalize_plan-IsCaught plan h
