-- ===== src/Json.antt =====
-- JSON documents as `json.loads` returns them, and the dict methods that the source calls on them.
-- A number is counted in units of 10^-40 (Decimal.antt), be it an `int` or a `float` in Python.
use finops_cost_engine_poc.Prelude.{
  ℤ, String, Bool, true, false, Option, none, some, List, [], ◌∷◌, str_eq, eqb_ℤ, if◌then◌else◌,
  not,
}

mutual
  pub data Json : Type 0 where
    null : Json
    bool : Bool → Json
    num : ℤ → Json
    text : String → Json
    arr : Items → Json
    obj : Fields → Json

  pub data Items : Type 0 where
    nil : Items
    cons : Json → Items → Items

  pub data Fields : Type 0 where
    end : Fields
    field : String → Json → Fields → Fields

-- `d.get(key)`: a missing key and a stored null are both `None`.
unfoldable pub get : String → Fields → Json
get key end = null
get key (field k v rest) = if str_eq k key then v else get key rest

-- `key in d`
unfoldable pub has_key : String → Fields → Bool
has_key key end = false
has_key key (field k v rest) = if str_eq k key then true else has_key key rest

-- `{k: v for k, v in d.items() if k != key}`
unfoldable pub without : String → Fields → Fields
without key end = end
without key (field k v rest) =
    let others = without key rest in if str_eq k key then others else field k v others

-- `d[key] = v` for a key that is new to the dict
unfoldable pub push : String → Json → Fields → Fields
push key value end = field key value end
push key value (field k v rest) = field k v (push key value rest)

-- `bool(value)`
unfoldable pub truthy : Json → Bool
truthy null = false
truthy (bool b) = b
truthy (num n) = not (eqb_ℤ n (ℤ.pos 0))
truthy (text s) = not (str_eq s "")
truthy (arr nil) = false
truthy (arr (cons _ _)) = true
truthy (obj end) = false
truthy (obj (field _ _ _)) = true

-- `value == s` for a text
unfoldable pub equals_text : Json → String → Bool
equals_text (text t) s = str_eq t s
equals_text _ s = false

-- `value == s` for a text or `None`
unfoldable pub equals_optional : Json → Option String → Bool
unfolding equals_text
equals_optional null none = true
equals_optional _ none = false
equals_optional v (some s) = equals_text v s

-- `value == n` for a number: `True` and `False` are 1 and 0.
unfoldable pub equals_number : Json → ℤ → ℤ → Bool
equals_number (num m) one n = eqb_ℤ m n
equals_number (bool true) one n = eqb_ℤ one n
equals_number (bool false) one n = eqb_ℤ (ℤ.pos 0) n
equals_number _ one n = false

-- `value if isinstance(value, dict) else {}`
unfoldable pub as_dict : Json → Fields
as_dict (obj d) = d
as_dict _ = end

-- `value if isinstance(value, list) else []`
unfoldable pub as_list : Json → Items
as_list (arr l) = l
as_list _ = nil

abbrev pub to_list : Items → List Json
to_list nil = []
to_list (cons v rest) = v ∷ to_list rest

abbrev pub of_list : List Json → Items
of_list [] = nil
of_list (v ∷ rest) = cons v (of_list rest)

-- a text or `None` as a JSON value
abbrev pub optional : Option String → Json
optional none = null
optional (some s) = text s
