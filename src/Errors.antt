-- ===== src/Errors.antt =====
-- errors.py: the failure taxonomy, and what a call that may raise returns.
-- `Message` names the message of each `raise` in the modelled code; its formatted text and `detail`
-- carry no decision and are left out.
use finops_cost_engine_poc.Prelude.{
  if◌then◌else◌, not, ◌≡◌, refl, sym, String, Bool, true, false, Option, none, some,
}

pub data FailureCategory : Type 0 where
  infrastructure_validation cost_estimation policy ai configuration : FailureCategory

pub data Message : Type 0 where
  plan_not_found plan_not_json plan_not_object missing_format_version : Message
  unsupported_format_version plan_errored : Message
  not_a_state_document is_a_plan_document : Message
  baseline_unavailable no_proposed_total no_baseline_total different_currencies : Message
  unrecognised_schema not_json_object : Message
  unsupported_metric non_authoritative currency_mismatch : Message
  unsupported_resources no_price_resources : Message
  lock_not_pass lock_non_authoritative lock_not_found lock_not_json : Message
  exception_not_fail exception_non_authoritative no_justification : Message
  ceiling_below_approved ceiling_above_headroom bad_ttl : Message
  bad_timestamp no_variables : Message
  unknown_ai_provider unexpected_ai_failure ai_disabled ai_failure : Message
  unsupported_cloud bad_state_key state_key_cloud state_key_environment : Message
  missing_field bad_terraform_dir shared_state_key stack_not_mapping : Message
  unknown_stack cloud_mismatch environment_mismatch not_deployable : Message
  registry_not_found registry_not_yaml bad_registry_version no_stacks : Message
  unknown_estimator fixture_missing other : Message
  config_not_found config_not_yaml config_not_mapping unknown_metric : Message
  threshold_required threshold_not_numeric threshold_negative : Message
  unknown_command_style bad_fail_safe_action : Message
  exception_not_found exception_not_parsed exception_not_mapping : Message

-- `FinOpsError`: what `to_dict` writes
pub record FinOpsError : Type 0 where
  pub category : FailureCategory
  pub code : Option String
  pub message : Message

abbrev error_in : FailureCategory → Message → FinOpsError
error_in c m = record { category = c; code = none; message = m }

unfoldable pub configuration_error : Message → FinOpsError
configuration_error = error_in FailureCategory.configuration

unfoldable pub plan_error : Message → FinOpsError
plan_error = error_in FailureCategory.infrastructure_validation

unfoldable pub cost_estimation_error : Message → FinOpsError
cost_estimation_error = error_in FailureCategory.cost_estimation

unfoldable pub baseline_unavailable_error : FinOpsError
baseline_unavailable_error = record {
  category = FailureCategory.cost_estimation;
  code = some "BASELINE_UNAVAILABLE";
  message = Message.baseline_unavailable;
}

unfoldable pub policy_error : Message → FinOpsError
policy_error = error_in FailureCategory.policy

unfoldable pub ai_error : Message → FinOpsError
ai_error = error_in FailureCategory.ai

-- An exception on its way up: one that `except FinOpsError` catches, or one of Python's own, of which
-- `key_error` stands for each but `InvalidOperation`: KeyError, AttributeError, TypeError.
pub data Raised : Type 0 where
  finops : FinOpsError → Raised
  invalid_operation key_error : Raised

pub data Result {ℓ} (A : Type ℓ) : Type ℓ where
  ok : A → Result A
  raise : Raised → Result A

-- what follows a call, if it returns
infixl 5 ◌>>=◌
abbrev pub ◌>>=◌ {ℓ ℓ'} : {A : Type ℓ} {C : Type ℓ'} → Result A → (A → Result C) → Result C
raise x >>= next = raise x
ok value >>= next = next value

infixl 5 ◌>>◌
abbrev pub ◌>>◌ {ℓ} : {C : Type ℓ} → Result (Unit {0}) → Result C → Result C
call >> next = call >>= λ nothing. next

-- `if test: raise e`
abbrev pub raise_if : Bool → FinOpsError → Result (Unit {0})
raise_if true e = raise (finops e)
raise_if false e = ok tt

pub ok-injective {ℓ} : {A : Type ℓ} {a b : A} → ok a ≡ ok b → a ≡ b
ok-injective h = cc

-- A call and what follows it return only if both do.
pub >>=-eq-ok {ℓ ℓ'} :
    {A : Type ℓ} {C : Type ℓ'} (call : Result A) (next : A → Result C) {result : C}
    → (call >>= next) ≡ ok result
    → (value : A) × (call ≡ ok value) × (next value ≡ ok result)
>>=-eq-ok (raise x) next returned = cc
>>=-eq-ok (ok value) next returned = (value, refl, returned)

-- what a call returns, if it returns, is in `P`
pub record Ensures {A : Type 0} (P : A → Type 0) (call : Result A) : Type 0 where
  pub holds : (a : A) → call ≡ ok a → P a

pub ensures_bind :
    {A C : Type 0} {P : C → Type 0} {call : Result A} {next : A → Result C}
    → ((a : A) → call ≡ ok a → Ensures P (next a))
    → Ensures P (call >>= next)
ensures_bind {call} {next} step = record {
  holds = λ c h. let (a, found, rest) = >>=-eq-ok call next h in (step a found).holds c rest;
}

pub ensures_ok : {A : Type 0} {P : A → Type 0} {a : A} → P a → Ensures P (ok a)
ensures_ok p = record { holds = λ b h. rw (sym (ok-injective h)) p }

pub ensures_raise : {A : Type 0} {P : A → Type 0} {x : Raised} → Ensures P (raise x)
ensures_raise = record { holds = λ a h. cc }

pub ensures_if :
    {A : Type 0} {P : A → Type 0} (b : Bool) {x y : Result A}
    → (b ≡ true → Ensures P x)
    → (b ≡ false → Ensures P y)
    → Ensures P (if b then x else y)
ensures_if true h k = h refl
ensures_if false h k = k refl

pub ensures_unless :
    {A : Type 0} {P : A → Type 0} (b : Bool) {x y : Result A}
    → Ensures P x
    → (b ≡ true → Ensures P y)
    → Ensures P (if not b then x else y)
ensures_unless true h k = k refl
ensures_unless false h k = h

pub ruleset ensuring = (ensures_bind, ensures_ok, ensures_raise)
