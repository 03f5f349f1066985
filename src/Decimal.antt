-- ===== src/Decimal.antt =====
-- Python's `Decimal` as the source uses it, and `money` of models.py.
-- A finite value is a whole number of units of 10^-40, so sums and comparisons are exact. Python's
-- context keeps 28 digits: sums of money below 10^26 with 2 decimals stay inside it.
use finops_cost_engine_poc.Prelude.{
  ℕ, zero, suc, ◌+◌, ◌-◌, ◌*◌, ◌/◌, ◌%◌, ◌^◌, ℤ, pos, negsuc, neg_of, ◌-ℤ◌, leb_ℤ, ltb_ℤ, eqb_ℤ,
  abs_ℕ, Bool, true, false, ltb, leb, ◌==◌, ◌&&◌, ◌||◌, not, if◌then◌else◌, Option, none, some, ◌≡◌,
  refl,
}
use mathlib.Core.Bool.{xor}
use finops_cost_engine_poc.Errors.{Result, ok, raise, invalid_operation}

-- what the gate compares: a finite number of units, or `Decimal("Infinity")`
pub data Decimal : Type 0 where
  finite : ℤ → Decimal
  infinity : Decimal

-- the value 1, half a cent and a cent, in units
abbrev pub one_unit : ℕ
one_unit = 10 ^ 40

abbrev pub half_cent : ℕ
half_cent = 5 * 10 ^ 37

abbrev pub cent : ℕ
cent = 10 ^ 38

-- `quantize(Decimal("0.01"), rounding=ROUND_HALF_UP)` on a magnitude: a tie goes away from zero.
unfoldable pub round_cents : ℕ → ℕ
round_cents n = ((n + half_cent) / cent) * cent

unfoldable pub quantize : ℤ → ℤ
unfolding round_cents
quantize (pos n) = pos (round_cents n)
quantize (negsuc n) = neg_of (round_cents (suc n))

-- `money`, on a finite value or `None`
unfoldable pub money : Option ℤ → ℤ
unfolding quantize
money none = pos 0
money (some v) = quantize v

-- `as_float`, on a finite value or `None`: a float of two decimals stands for that decimal.
unfoldable pub as_float : Option ℤ → Option ℤ
unfolding money
as_float none = none
as_float (some v) = some (money (some v))

-- `as_float` of a value that may be infinite: `quantize` raises `InvalidOperation` there.
unfoldable pub as_float_decimal : Decimal → Result ℤ
unfolding money
as_float_decimal (finite v) = ok (money (some v))
as_float_decimal infinity = raise invalid_operation

abbrev pub le_decimal : Decimal → ℤ → Bool
le_decimal (finite a) b = leb_ℤ a b
le_decimal infinity b = false

abbrev pub lt_decimal : Decimal → ℤ → Bool
lt_decimal (finite a) b = ltb_ℤ a b
lt_decimal infinity b = false

abbrev pub eq_decimal : Decimal → ℤ → Bool
eq_decimal (finite a) b = eqb_ℤ a b
eq_decimal infinity b = false

abbrev pub minus_decimal : Decimal → ℤ → Decimal
minus_decimal (finite a) b = finite (a -ℤ b)
minus_decimal infinity b = infinity

-- the number of decimal digits, with fuel above it
digits_from : ℕ → ℕ → ℕ
digits_from zero n = 1
digits_from (suc fuel) n =
    let more = suc (digits_from fuel (n / 10)) in if ltb n 10 then 1 else more

digits : ℕ → ℕ
unfolding digits_from
digits n = digits_from n n

-- to 28 digits, half to even, in the context's `_fix`
round_half_even : ℕ → ℕ → ℕ
round_half_even c d =
    let q = c / d in
    let r = c % d in if ltb d (2 * r) || ((2 * r == d) && (q % 2 == 1)) then q + 1 else q

fix_28 : ℕ → ℕ
unfolding digits round_half_even
fix_28 c =
    let drop = 10 ^ (digits c - 28) in
    if leb (digits c) 28 then c else round_half_even c drop * drop

-- CPython's `__truediv__` on magnitudes: a quotient of 29 or 30 digits whose last digit records a
-- remainder, then `_fix`; the result counts `scale` units for 1.
divide_ℕ : ℕ → ℕ → ℕ → ℕ
unfolding fix_28
divide_ℕ scale a b =
    let up = 10 ^ ((digits b + 29) - digits a) in
    let down = 10 ^ (digits a - (digits b + 29)) in
    let q = (a * up) / (b * down) in
    let sticky = not ((a * up) % (b * down) == 0) && (q % 5 == 0) in
    (fix_28 (if sticky then q + 1 else q) * down * scale) / up

with_sign : Bool → ℕ → ℤ
with_sign true n = neg_of n
with_sign false n = pos n

-- `(a / b) * 100` for `b` other than 0
unfoldable pub percentage_of : ℤ → ℤ → ℤ
unfolding divide_ℕ with_sign xor
percentage_of a b =
    with_sign (xor (ltb_ℤ a (pos 0)) (ltb_ℤ b (pos 0)))
      (divide_ℕ (100 * one_unit) (abs_ℕ a) (abs_ℕ b))

a_third :
    percentage_of (pos one_unit) (pos (3 * one_unit))
    ≡ pos 333333333333333333333333333300000000000000
unfolding percentage_of
a_third = refl

minus_half : percentage_of (neg_of one_unit) (pos (2 * one_unit)) ≡ neg_of (50 * one_unit)
unfolding percentage_of
minus_half = refl

rounds_half_up :
    (money (some (pos (5 * 10 ^ 37))) ≡ pos cent)
    × (money (some (neg_of (5 * 10 ^ 37))) ≡ neg_of cent)
    × (money (some (pos (49 * 10 ^ 36))) ≡ pos 0)
unfolding money
rounds_half_up = (refl, refl, refl)
