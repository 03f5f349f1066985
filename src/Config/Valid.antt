-- ===== src/Config/Valid.antt =====
-- What `load_config` guarantees of a configuration that it returns.
use finops_cost_engine_poc.Prelude.{
  ℤ, pos, ◌≤ℤ◌, ltb_ℤ, String, Bool, true, false, ◌≡◌, refl, inl, inr, ◌⊎◌, List, [], ◌∷◌, Option,
  none, some, Bool-cases, All, map, filterb, not, eq_iff, str_eq, sym, ◌≢◌, arith, if◌then◌else◌,
}
use finops_cost_engine_poc.Json.{Json, Fields, obj, null, bool, num, text, arr}
use finops_cost_engine_poc.Errors.{
  FinOpsError, Message, ok, raise, finops, ok-injective, Ensures, ensures_bind, ensures_ok,
  ensures_raise, ensuring,
}
use finops_cost_engine_poc.Decimal.{Decimal, finite, infinity}
use finops_cost_engine_poc.Models.{CostEstimate, PolicyDecision}
use finops_cost_engine_poc.Config.{CostEstimationConfig, ExceptionConfig}
use finops_cost_engine_poc.Config.Read.{
  Reader, Reading, number, plus_infinity, minus_infinity, not_a_number, env, member, member_text,
  not_negative, valid_metrics, estimators, command_styles, is_one_of, stripped,
}
use finops_cost_engine_poc.Config.Load.{
  LoadedThreshold, LoadedConfig, with_value, ConfigFile, absent, no_yaml, parsed, threshold_of,
  cost_estimation_of, approvers_of, exceptions_of, build, config_path, load_from, load_config,
}
use finops_cost_engine_poc.Prelude.Text.{strip}
use finops_cost_engine_poc.Prelude.Paths.{split_on}
use finops_cost_engine_poc.Policy.{evaluate}
use finops_cost_engine_poc.Policy.Verdict.{IsMetric, evaluate_total}

-- `s` is one of the names
abbrev pub OneOf : List String → String → Type 0
OneOf [] s = ⊥
OneOf (name ∷ names) s = (s ≡ name) ⊎ OneOf names s

is_one_of-OneOf : (names : List String) (s : String) → is_one_of names s ≡ true → OneOf names s
is_one_of-OneOf [] s h = cc
is_one_of-OneOf (name ∷ names) s h = elim (Bool-cases (str_eq s name)) [
  | inl e ↦ inl ((eq_iff s name).0 e)
  | inr e ↦ inr (is_one_of-OneOf names s (rw e at h))
]

accepted :
    {A : Type 0} (b : Bool) (x y : A) (e : FinOpsError)
    → (if b then ok x else raise (finops e)) ≡ ok y
    → (b ≡ true) × (x ≡ y)
accepted true x y e h = (refl, ok-injective h)
accepted false x y e h = cc

rejected :
    {A : Type 0} (b : Bool) (x y : A) (e : FinOpsError)
    → (if b then raise (finops e) else ok x) ≡ ok y
    → (b ≡ false) × (x ≡ y)
rejected true x y e h = cc
rejected false x y e h = (refl, ok-injective h)

member_text-OneOf :
    (names : List String) (m : Message) (t s : String)
    → member_text names m t ≡ ok s
    → OneOf names s
unfolding member_text
member_text-OneOf names m t s h =
    let (found, same) = accepted (is_one_of names t) t s _ h in
    rw (sym same) (is_one_of-OneOf names t found)

member-OneOf :
    (names : List String) (m : Message) (v : Json) (s : String)
    → member names m v ≡ ok s
    → OneOf names s
unfolding member member_text
member-OneOf names m (text t) s h = member_text-OneOf names m t s h
member-OneOf names m null s h = cc
member-OneOf names m (bool x) s h = cc
member-OneOf names m (num x) s h = cc
member-OneOf names m (arr x) s h = cc
member-OneOf names m (obj x) s h = cc

-- an amount that is not negative, or an infinity
abbrev pub IsNotNegative : Decimal → Type 0
IsNotNegative (finite v) = pos 0 ≤ℤ v
IsNotNegative infinity = Unit

not_negative-le : (v : Reading) (w : Decimal) → not_negative v ≡ ok w → IsNotNegative w
unfolding not_negative
not_negative-le (number v) w h =
    let (tested, same) = rejected (ltb_ℤ v (pos 0)) (finite v) w _ h in
    rw (← same) (ground (arith, tested))
not_negative-le plus_infinity w h = rw (← ok-injective h) tt
not_negative-le minus_infinity w h = cc
not_negative-le not_a_number w h = cc

OneOf-IsMetric : (s : String) → OneOf valid_metrics s → IsMetric s
OneOf-IsMetric s (inl p) = inl p
OneOf-IsMetric s (inr (inl p)) = inr (inl p)
OneOf-IsMetric s (inr (inr (inl p))) = inr (inr (inl p))
OneOf-IsMetric s (inr (inr (inr (inl p)))) = inr (inr (inr p))
OneOf-IsMetric s (inr (inr (inr (inr p)))) = absurd p

filterb-All : (names : List String) → All (λ a. a ≢ "") (filterb (λ s. not (str_eq s "")) names)
filterb-All [] = tt
filterb-All (a ∷ names) = elim (Bool-cases (str_eq a "")) [
  | inl e ↦ rw e (filterb-All names)
  | inr e ↦ rw e (λ p. ground (arith, e, (eq_iff a "").1 p), filterb-All names)
]

module _ (reader : Reader) where
  abbrev pub IsValidThreshold : LoadedThreshold → Type 0
  IsValidThreshold t = IsMetric t.metric × IsNotNegative t.value

  threshold_of-IsValid : (raw : Fields) → Ensures IsValidThreshold (threshold_of reader raw)
  unfolding threshold_of
  threshold_of-IsValid raw =
      search (ensuring, OneOf-IsMetric, member-OneOf, not_negative-le) depth 16

  abbrev pub IsValidEstimation : CostEstimationConfig → Type 0
  IsValidEstimation c =
      OneOf estimators c.estimator × OneOf command_styles c.infracost.command_style

  cost_estimation_of-IsValid :
      (raw : Fields) → Ensures IsValidEstimation (cost_estimation_of reader raw)
  unfolding cost_estimation_of
  cost_estimation_of-IsValid raw = search (ensuring, member_text-OneOf) depth 20

  abbrev pub FromEnvironment : Option String → List String → Type 0
  FromEnvironment (some listed) names = names ≡ stripped (split_on b',' listed)
  FromEnvironment none names = Unit

  -- an allowlist has no empty login, and is the environment's where that lists any
  abbrev pub IsAllowlist : List String → Type 0
  IsAllowlist names =
      All (λ a. a ≢ "") names × FromEnvironment (env reader "FINOPS_APPROVERS") names

  stripped-All : (names : List String) → All (λ a. a ≢ "") (stripped names)
  unfolding stripped
  stripped-All names = filterb-All (map strip names)

  approvers_of-IsAllowlist :
      (found : Option String) (exc_raw : Json)
      → Ensures
          (λ names. All (λ a. a ≢ "") names × FromEnvironment found names)
          (approvers_of reader found exc_raw)
  unfolding approvers_of
  approvers_of-IsAllowlist (some listed) exc_raw =
      ensures_ok (stripped-All (split_on b',' listed), refl)
  approvers_of-IsAllowlist none exc_raw = search (ensuring, stripped-All) depth 16

  exceptions_of-IsAllowlist :
      (raw : Fields) → Ensures (λ x. IsAllowlist x.approvers) (exceptions_of reader raw)
  unfolding exceptions_of
  exceptions_of-IsAllowlist raw =
      let allowed : (names : List String) (x : Json)
          → approvers_of reader (env reader "FINOPS_APPROVERS") x ≡ ok names
          → IsAllowlist names =
        λ names x h. (approvers_of-IsAllowlist (env reader "FINOPS_APPROVERS") x).holds names h in
      search (ensuring, allowed) depth 20

  -- what a configuration has to be for the gate
  abbrev pub IsValid : LoadedConfig → Type 0
  IsValid c =
      IsValidThreshold c.threshold
      × IsValidEstimation c.cost_estimation
      × IsAllowlist c.exceptions.approvers

  build-IsValid : (raw : Fields) → Ensures IsValid (build reader raw)
  unfolding build
  build-IsValid raw =
      let threshold : (t : LoadedThreshold) → threshold_of reader raw ≡ ok t → IsValidThreshold t =
        (threshold_of-IsValid raw).holds in
      let estimation : (t : CostEstimationConfig)
          → cost_estimation_of reader raw ≡ ok t
          → IsValidEstimation t =
        (cost_estimation_of-IsValid raw).holds in
      let allowed : (t : ExceptionConfig)
          → exceptions_of reader raw ≡ ok t
          → IsAllowlist t.approvers =
        (exceptions_of-IsAllowlist raw).holds in
      search (ensuring, threshold, estimation, allowed) depth 20

  load_from-IsValid : (found : ConfigFile) → Ensures IsValid (load_from reader found)
  unfolding load_from
  load_from-IsValid absent = ensures_raise
  load_from-IsValid no_yaml = ensures_raise
  load_from-IsValid (parsed document) = ensures_bind (λ raw _. build-IsValid raw)

  -- A configuration that loads has a valid metric, a threshold that is not negative but may be
  -- infinite, an estimator and a command style of those allowed, and no empty approver. Where the
  -- environment lists approvers, they are the whole allowlist, whatever the document says. Where its
  -- threshold is finite, the policy returns a decision under it for every estimate of finite amounts
  -- and all upstream errors.
  pub load_config-IsValid :
      (files : String → ConfigFile) (path : Option String) (c : LoadedConfig) (e : CostEstimate)
      (upstream : List FinOpsError)
      → load_config reader files path ≡ ok c
      → IsValid c
        × ((value : ℤ)
            → c.threshold.value ≡ finite value
            → (d : PolicyDecision) × (evaluate e (with_value c value) upstream ≡ ok d))
  unfolding load_config with_value
  load_config-IsValid files path c e upstream h =
      let valid = (load_from-IsValid (files (config_path reader path))).holds c h in
      (valid, λ value known. evaluate_total e (with_value c value) upstream valid.0.0)
