-- ===== src/Config/Read.antt =====
-- config.py: how `_build` reads one value, from the environment or from the document.
-- A `Reader` is what stands outside: the environment, the texts that Python reads as a `Decimal`, an
-- `int` and a `float` (finite decimals in units of 10^-40), and `str` of a value that is no text. A negative count is read as 0. `source_path` and `raw` are not kept.
use finops_cost_engine_poc.Prelude.{
  ℕ, ◌/◌, ℤ, pos, negsuc, neg_of, ltb_ℤ, String, Bool, true, false, not, List, [], ◌∷◌, Option,
  none, some, map, filterb, anyb, str_eq, if◌then◌else◌,
}
use finops_cost_engine_poc.Prelude.Text.{lower, upper, strip}
use finops_cost_engine_poc.Prelude.Paths.{letters}
use finops_cost_engine_poc.Json.{
  Json, null, bool, num, text, arr, obj, Fields, end, get, has_key, truthy, to_list,
}
use finops_cost_engine_poc.Decimal.{Decimal, finite, infinity, one_unit}
use finops_cost_engine_poc.Errors.{
  Message, Result, ok, raise, finops, invalid_operation, key_error, ◌>>=◌, configuration_error,
}
use finops_cost_engine_poc.Config.{FailSafeAction, block, warn}
use finops_cost_engine_poc.Stacks.{keys_of}

-- what `Decimal` reads from a text: a number, an infinity or a NaN
pub data Reading : Type 0 where
  number : ℤ → Reading
  plus_infinity minus_infinity not_a_number : Reading

pub record Reader : Type 0 where
  pub environ : String → Option String
  pub decimal : String → Option Reading
  pub whole : String → Option ℤ
  pub float : String → Option ℤ
  pub show : Json → String

abbrev pub valid_metrics : List String
valid_metrics =
    "incremental_monthly_cost" ∷ "incremental_annual_cost" ∷ "incremental_percentage"
    ∷ "total_monthly_cost" ∷ []

abbrev pub estimators : List String
estimators = "infracost" ∷ "infracost_fixture" ∷ "mock" ∷ []

abbrev pub command_styles : List String
command_styles = "auto" ∷ "v2" ∷ "v0.10" ∷ []

abbrev pub is_one_of : List String → String → Bool
is_one_of names s = anyb (str_eq s) names

abbrev pub given : Option String → Option String
given none = none
given (some value) = let s = strip value in if str_eq s "" then none else some s

-- `_env`
unfoldable pub env : Reader → String → Option String
env reader name = given (reader.environ name)

abbrev pub bad : {A : Type 0} → Message → Result A
bad m = raise (finops (configuration_error m))

-- `raw.get(key) or {}`
unfoldable pub section : String → Fields → Json
section key raw = let v = get key raw in if truthy v then v else obj end

-- `d.get(key, default)`, which only a dict has
unfoldable pub get_default : Json → String → Json → Result Json
get_default (obj d) key default = ok (if has_key key d then get key d else default)
get_default _ key default = raise key_error

-- `bool(d.get(key, default))`
unfoldable pub flag : Json → String → Bool → Result Bool
unfolding get_default
flag d key default = do v ← get_default d key (bool default); ok (truthy v)

-- `_env(name) or v`, where `v` is what the document gives
unfoldable pub env_or : Option String → Result Json → Result Json
env_or none v = v
env_or (some s) v = ok (text s)

-- `value.lower()`, which only a text has
unfoldable pub lowered : Json → Result String
lowered (text s) = ok (lower s)
lowered _ = raise key_error

unfoldable pub uppered : Json → Result String
uppered (text s) = ok (upper s)
uppered _ = raise key_error

whole_or_raise : Option ℤ → Result ℤ
whole_or_raise none = raise key_error
whole_or_raise (some n) = ok n

-- `int(value)`, towards zero; `None` and containers have none
unfoldable pub int_of : Reader → Json → Result ℤ
unfolding whole_or_raise
int_of reader (num (pos n)) = ok (pos (n / one_unit))
int_of reader (num (negsuc n)) = ok (neg_of (Prim.Native.Nat.suc n / one_unit))
int_of reader (bool true) = ok (pos 1)
int_of reader (bool false) = ok (pos 0)
int_of reader (text s) = whole_or_raise (reader.whole s)
int_of reader _ = raise key_error

-- `float(value)`
unfoldable pub float_of : Reader → Json → Result ℤ
unfolding whole_or_raise
float_of reader (num n) = ok n
float_of reader (bool true) = ok (pos one_unit)
float_of reader (bool false) = ok (pos 0)
float_of reader (text s) = whole_or_raise (reader.float s)
float_of reader _ = raise key_error

-- a count that `int` gives
abbrev pub count_from : ℤ → ℕ
count_from (pos n) = n
count_from (negsuc n) = 0

numeric : Option Reading → Result Reading
numeric none = bad Message.threshold_not_numeric
numeric (some v) = ok v

-- the test on `None`, and `_decimal`
unfoldable pub decimal_of : Reader → Json → Result Reading
unfolding numeric
decimal_of reader null = bad Message.threshold_required
decimal_of reader (num n) = ok (number n)
decimal_of reader (text s) = numeric (reader.decimal s)
decimal_of reader _ = bad Message.threshold_not_numeric

-- `value not in NAMES` of a set of texts: a list and a dict have no hash.
unfoldable pub member : List String → Message → Json → Result String
member names m (text s) = if is_one_of names s then ok s else bad m
member names m (arr l) = raise key_error
member names m (obj d) = raise key_error
member names m _ = bad m

unfoldable pub member_text : List String → Message → String → Result String
member_text names m s = if is_one_of names s then ok s else bad m

-- the test of a threshold: a NaN has no order
unfoldable pub not_negative : Reading → Result Decimal
not_negative (number v) = if ltb_ℤ v (pos 0) then bad Message.threshold_negative else ok (finite v)
not_negative plus_infinity = ok infinity
not_negative minus_infinity = bad Message.threshold_negative
not_negative not_a_number = raise invalid_operation

abbrev action_named : String → FailSafeAction
action_named s = if str_eq s "BLOCK" then block else warn

-- one entry of `fail_safe_values`
unfoldable pub fail_safe_action : Json → Result FailSafeAction
unfolding member
fail_safe_action v = do
  name ← member ("BLOCK" ∷ "WARN" ∷ []) Message.bad_fail_safe_action v
  ok (action_named name)

-- `v or default`
abbrev pub or_default : Json → Json → Json
or_default v default = if truthy v then v else default

-- `list(v)` of a truthy value: a text gives its characters, a dict its keys
unfoldable pub listed_of : Json → Result (List Json)
listed_of (arr l) = ok (to_list l)
listed_of (text s) = ok (map text (letters s))
listed_of (obj d) = ok (map text (keys_of d))
listed_of _ = raise key_error

-- `[a.strip() for a in names if a.strip()]`
unfoldable pub stripped : List String → List String
stripped names = filterb (λ s. not (str_eq s "")) (map strip names)
