-- ===== src/Prelude/Text.antt =====
-- What the source does to texts with the methods of `str`. Case and white space are ASCII's.
use Prim.Native.Nat.{ℕ, zero, suc, ◌+◌, ◌-◌, compare, Ordering}
use Prim.Native.Char.{Char, char, code, nul}
use Prim.Native.String.{String, [], ◌∷◌}
use mathlib.Core.Path.{◌≡◌, refl}
use mathlib.Core.Bool.{Bool, true, false, ◌&&◌, ◌||◌}
use text.Mathlib.Text.{starts_with}
use finops_cost_engine_poc.Prelude.Tests.{leb, ◌==◌, if◌then◌else◌}

char_of : (n : ℕ) (o : Ordering) → compare n 55296 ≡ o → Char
char_of n Ordering.lt below = char n (rw below tt)
char_of n _ _ = nul

lower_char : Char → Char
unfolding char_of
lower_char c =
    let n = code c in
    if leb b'A' n && leb n b'Z' then char_of (n + 32) (compare (n + 32) 55296) refl else c

-- `s.lower()`
unfoldable pub lower : String → String
unfolding lower_char
lower [] = []
lower (c ∷ s) = lower_char c ∷ lower s

upper_char : Char → Char
unfolding char_of
upper_char c =
    let n = code c in
    if leb b'a' n && leb n b'z' then char_of (n - 32) (compare (n - 32) 55296) refl else c

-- `s.upper()`
unfoldable pub upper : String → String
unfolding upper_char
upper [] = []
upper (c ∷ s) = upper_char c ∷ upper s

is_space : Char → Bool
is_space c = let n = code c in code c == b' ' || (leb 9 n && leb n 13) || (leb 28 n && leb n 31)

pub is_blank : String → Bool
is_blank [] = true
is_blank (c ∷ s) = false

lstrip : String → String
lstrip [] = []
lstrip (c ∷ s) = let rest = lstrip s in if is_space c then rest else c ∷ s

rstrip : String → String
rstrip [] = []
rstrip (c ∷ s) = let rest = rstrip s in if is_space c && is_blank rest then [] else c ∷ rest

-- `s.strip()`
unfoldable pub strip : String → String
unfolding is_space is_blank lstrip rstrip
strip s = lstrip (rstrip s)

-- `needle in s`
unfoldable pub has_infix : String → String → Bool
has_infix needle [] = starts_with [] needle
has_infix needle (c ∷ s) = starts_with (c ∷ s) needle || has_infix needle s

-- `s.rsplit(sep, 1)[-1]`: the part behind the last separator, all of `s` where there is none
after_last_from : ℕ → String → String → String
after_last_from sep seen [] = seen
after_last_from sep seen (c ∷ s) = after_last_from sep (if code c == sep then s else seen) s

unfoldable pub after_last : ℕ → String → String
unfolding after_last_from
after_last sep s = after_last_from sep s s

-- `s.split(sep, 1)[0]`: the part before the first separator
unfoldable pub before_first : ℕ → String → String
before_first sep [] = []
before_first sep (c ∷ s) = let rest = before_first sep s in if code c == sep then [] else c ∷ rest

-- `s.count(sep)` of one character
unfoldable pub count_char : ℕ → String → ℕ
count_char sep [] = 0
count_char sep (c ∷ s) = (if code c == sep then 1 else 0) + count_char sep s

-- `s.rsplit(sep, 1)[0]`: the part in front of the last separator, all of `s` where there is none
unfoldable pub before_last : ℕ → String → String
unfolding count_char
before_last sep [] = []
before_last sep (c ∷ s) =
    let rest = before_last sep s in
    if (code c == sep) && (count_char sep s == 0) then [] else c ∷ rest

-- `s[:-1]`
unfoldable pub drop_last : String → String
unfolding is_blank
drop_last [] = []
drop_last (c ∷ s) = let rest = drop_last s in if is_blank s then [] else c ∷ rest

is_alpha : Char → Bool
is_alpha c = let n = code c in (leb b'A' n && leb n b'Z') || (leb b'a' n && leb n b'z')

-- `s[-1].isalpha()`, false for an empty text
unfoldable pub ends_in_letter : String → Bool
unfolding is_blank is_alpha
ends_in_letter [] = false
ends_in_letter (c ∷ s) = let rest = ends_in_letter s in if is_blank s then is_alpha c else rest

-- `s[:n]`
unfoldable pub take_text : ℕ → String → String
take_text zero s = []
take_text (suc n) [] = []
take_text (suc n) (c ∷ s) = c ∷ take_text n s

-- `s.title()`: a capital at the start and behind what is no letter, else small letters
title_from : Bool → String → String
unfolding upper_char lower_char is_alpha
title_from after_letter [] = []
title_from after_letter (c ∷ s) =
    (if after_letter then lower_char c else upper_char c) ∷ title_from (is_alpha c) s

unfoldable pub title : String → String
unfolding title_from
title s = title_from false s

-- `s[len(p):]`
unfoldable pub drop_text : ℕ → String → String
drop_text zero s = s
drop_text (suc n) [] = []
drop_text (suc n) (c ∷ s) = drop_text n s

-- `len(s)`
unfoldable pub len_text : String → ℕ
len_text [] = 0
len_text (c ∷ s) = suc (len_text s)

-- `s.removeprefix(p)`
unfoldable pub remove_prefix : String → String → String
unfolding drop_text
remove_prefix p s = if starts_with s p then drop_text (len_text p) s else s

zone_runs : before_last b'-' "europe-west1-b" ≡ "europe-west1"
unfolding before_last
zone_runs = refl

letter_runs : drop_last "eu-west-1a" ≡ "eu-west-1"
unfolding drop_last
letter_runs = refl

lower_runs : lower "Hashicorp/AWS" ≡ "hashicorp/aws"
unfolding lower
lower_runs = refl

strip_runs : strip "  a b " ≡ "a b"
unfolding strip
strip_runs = refl

after_last_runs : after_last b'/' "registry/hashicorp/aws" ≡ "aws"
unfolding after_last
after_last_runs = refl
