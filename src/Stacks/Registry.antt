-- ===== src/Stacks/Registry.antt =====
-- What a registry guarantees once it is loaded.
use finops_cost_engine_poc.Prelude.{
  String, Bool, true, false, not, ◌||◌, List, [], ◌∷◌, Option, none, some, ◌≡◌, ◌≢◌, inl, inr, refl,
  arith, str_eq, eq_iff, anyb, All, if◌then◌else◌, Bool-cases, ◌<>◌,
}
use finops_cost_engine_poc.Prelude.Paths.{split_on, rstrip_slash}
use package.text.Mathlib.Text.{starts_with}
use finops_cost_engine_poc.Json.{
  Json, null, bool, num, text, arr, obj, Fields, end, field, get, truthy, equals_text,
}
use finops_cost_engine_poc.Errors.{
  Message, Raised, ok, raise, raise_if, ok-injective, >>=-eq-ok, configuration_error,
}
use finops_cost_engine_poc.Stacks.{
  Stack, supported_clouds, validate_cloud, match_state_key, groups_agree, validate_state_key,
  require_field, require_all, items_of, str, stack_of, stacks_of, shares_key, RegistryFile, absent,
  no_yaml, parsed, registry_fields, entries_of, stacks_schema_version, load_stacks,
  cloud_required_fields,
}

raise_if-ok :
    (b : Bool) (m : Message) {u : Unit {0}} → raise_if b (configuration_error m) ≡ ok u → b ≡ false
raise_if-ok true m h = cc
raise_if-ok false m h = refl

-- The stack is in a supported cloud, and outside AWS its state key is one of its own environment
-- and its own cloud.
pub record IsRegistered (s : Stack) : Type 0 where
  pub supported : anyb (str_eq s.cloud) supported_clouds ≡ true
  pub own_key : s.cloud ≢ "aws" → match_state_key s.state_key ≡ some (s.environment, s.cloud)

not_ok : {A : Type 0} {x : Raised} {a : A} → raise x ≢ ok a
not_ok h = cc

neither : (a b : Bool) → (a || b) ≡ false → (a ≡ false) × (b ≡ false)
neither a b h = ground arith

validate_cloud-ok :
    (c d : String) → validate_cloud c ≡ ok d → (c ≡ d) × (anyb (str_eq c) supported_clouds ≡ true)
unfolding validate_cloud
validate_cloud-ok c d h = elim (Bool-cases (anyb (str_eq c) supported_clouds)) [
  | inl e ↦ (ok-injective (rw e at h), e)
  | inr e ↦ absurd (not_ok (rw e at h))
]

groups_agree-ok :
    (groups : Option (String × String)) (cloud environment : String) (u : Unit {0})
    → groups_agree groups cloud environment ≡ ok u
    → groups ≡ some (environment, cloud)
unfolding groups_agree
groups_agree-ok none cloud environment u h = cc
groups_agree-ok (some (e, c)) cloud environment u h =
    let (_, h1, r1) =
      >>=-eq-ok (raise_if (not (str_eq c cloud)) (configuration_error Message.state_key_cloud)) _
        h in
    let p1 = raise_if-ok _ Message.state_key_cloud h1 in
    let p2 = raise_if-ok _ Message.state_key_environment r1 in
    rw ((eq_iff c cloud).0 (ground (arith, p1)), (eq_iff e environment).0 (ground (arith, p2))) refl

validate_state_key-ok :
    (cloud environment key : String) (u : Unit {0})
    → validate_state_key cloud environment key ≡ ok u
    → cloud ≢ "aws"
    → match_state_key key ≡ some (environment, cloud)
unfolding validate_state_key
validate_state_key-ok cloud environment key u h other = elim (Bool-cases (str_eq cloud "aws")) [
  | inl e ↦ absurd (other ((eq_iff cloud "aws").0 e))
  | inr e ↦ groups_agree-ok (match_state_key key) cloud environment u (rw e at h)
]

module _ (show : Json → String) where
  stack_of-IsRegistered :
      (name : String) (body : Fields) (s : Stack) → stack_of show name body ≡ ok s → IsRegistered s
  unfolding stack_of
  stack_of-IsRegistered name body s h =
      let (dir, _, r1) = >>=-eq-ok (require_field body "terraform_dir") _ h in
      let terraform_dir = rstrip_slash (str show dir) in
      let (_, _, r2) =
        >>=-eq-ok
          (raise_if
            (starts_with terraform_dir "/" || anyb (str_eq "..") (split_on b'/' terraform_dir))
            (configuration_error Message.bad_terraform_dir))
          _ r1 in
      let (paths, _, r3) =
        >>=-eq-ok
          (if truthy (get "paths" body)
            then items_of show (get "paths" body)
            else ok ((terraform_dir <> "/") ∷ []))
          _ r2 in
      let (declared, _, r4) = >>=-eq-ok (require_field body "cloud") _ r3 in
      let (cloud, valid, r5) = >>=-eq-ok (validate_cloud (str show declared)) _ r4 in
      let (given, _, r6) = >>=-eq-ok (require_field body "environment") _ r5 in
      let (key, _, r7) = >>=-eq-ok (require_field body "state_key") _ r6 in
      let (u, isolated, r8) =
        >>=-eq-ok (validate_state_key cloud (str show given) (str show key)) _ r7 in
      let (_, _, r9) = >>=-eq-ok (require_all body (cloud_required_fields cloud)) _ r8 in
      let (same, supported) = validate_cloud-ok (str show declared) cloud valid in
      rw (← ok-injective r9) record {
        supported = rw same at supported;
        own_key = validate_state_key-ok cloud (str show given) (str show key) u isolated;
      }

  stacks_of-IsRegistered :
      (entries : Fields) (stacks : List Stack)
      → stacks_of show entries ≡ ok stacks
      → All IsRegistered stacks
  unfolding stacks_of
  stacks_of-IsRegistered end stacks h = rw (← ok-injective h) tt
  stacks_of-IsRegistered (field name (obj body) rest) stacks h =
      let (s, made, r1) = >>=-eq-ok (stack_of show name body) _ h in
      let (others, found, r2) = >>=-eq-ok (stacks_of show rest) _ r1 in
      rw (← ok-injective r2)
        (stack_of-IsRegistered name body s made, stacks_of-IsRegistered rest others found)
  stacks_of-IsRegistered (field name null rest) stacks h = cc
  stacks_of-IsRegistered (field name (bool b) rest) stacks h = cc
  stacks_of-IsRegistered (field name (num n) rest) stacks h = cc
  stacks_of-IsRegistered (field name (text s) rest) stacks h = cc
  stacks_of-IsRegistered (field name (arr l) rest) stacks h = cc

-- no two stacks of a list have one state key
abbrev pub Isolated : List Stack → Type 0
Isolated [] = Unit
Isolated (s ∷ rest) = All (λ t. s.state_key ≢ t.state_key) rest × Isolated rest

differs_from :
    (s : Stack) (rest : List Stack)
    → anyb (λ t. str_eq s.state_key t.state_key) rest ≡ false
    → All (λ t. s.state_key ≢ t.state_key) rest
differs_from s [] h = tt
differs_from s (t ∷ rest) h =
    let (a, b) =
      neither (str_eq s.state_key t.state_key) (anyb (λ t. str_eq s.state_key t.state_key) rest)
        h in
    (λ e. ground (arith, a, (eq_iff s.state_key t.state_key).1 e), differs_from s rest b)

shares_key-Isolated : (stacks : List Stack) → shares_key stacks ≡ false → Isolated stacks
unfolding shares_key
shares_key-Isolated [] h = tt
shares_key-Isolated (s ∷ rest) h =
    let (a, b) = neither (anyb (λ t. str_eq s.state_key t.state_key) rest) (shares_key rest) h in
    (differs_from s rest a, shares_key-Isolated rest b)

-- In a registry that loads, each stack is in a supported cloud, a stack outside AWS has a state key
-- of its own environment and cloud, and no two stacks have the same state key.
pub load_stacks-Isolated :
    (show : Json → String) (file : RegistryFile) (stacks : List Stack)
    → load_stacks show file ≡ ok stacks
    → All IsRegistered stacks × Isolated stacks
unfolding load_stacks
load_stacks-Isolated show absent stacks h = cc
load_stacks-Isolated show no_yaml stacks h = cc
load_stacks-Isolated show (parsed document) stacks h =
    let (raw, _, r1) = >>=-eq-ok (registry_fields document) _ h in
    let (_, _, r2) =
      >>=-eq-ok
        (raise_if (not (equals_text (get "schema_version" raw) stacks_schema_version))
          (configuration_error Message.bad_registry_version))
        _ r1 in
    let (entries, _, r3) = >>=-eq-ok (entries_of (get "stacks" raw)) _ r2 in
    let (found, made, r4) = >>=-eq-ok (stacks_of show entries) _ r3 in
    let (_, apart, r5) =
      >>=-eq-ok (raise_if (shares_key found) (configuration_error Message.shared_state_key)) _ r4 in
    rw (← ok-injective r5) (
      stacks_of-IsRegistered show entries found made,
      shares_key-Isolated found (raise_if-ok _ Message.shared_state_key apart),
    )
