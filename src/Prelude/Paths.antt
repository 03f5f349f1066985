-- ===== src/Prelude/Paths.antt =====
-- Texts that are paths: their segments, and the characters that the source strips or replaces.
use Prim.Native.Nat.{ℕ}
use Prim.Native.Char.{Char, code}
use Prim.Native.String.{String, [], ◌∷◌}
use mathlib.Core.Path.{◌≡◌, refl}
use mathlib.Core.Bool.{Bool, true, false, ◌&&◌, ◌||◌}
use mathlib.Core.List as List
use finops_cost_engine_poc.Prelude.Tests.{leb, ◌==◌, if◌then◌else◌}

-- `s` in front of the first of the segments
abbrev onto_first : Char → List.List String → List.List String
onto_first c List.[] = List.◌∷◌ (c ∷ []) List.[]
onto_first c (List.◌∷◌ s rest) = List.◌∷◌ (c ∷ s) rest

-- `s.split(sep)` of one character
unfoldable pub split_on : ℕ → String → List.List String
split_on sep [] = List.◌∷◌ [] List.[]
split_on sep (c ∷ s) =
    let rest = split_on sep s in if code c == sep then List.◌∷◌ [] rest else onto_first c rest

-- the characters of a text, one by one
unfoldable pub letters : String → List.List String
letters [] = List.[]
letters (c ∷ s) = List.◌∷◌ (c ∷ []) (letters s)

-- `s.lstrip("./")`
unfoldable pub lstrip_dots : String → String
lstrip_dots [] = []
lstrip_dots (c ∷ s) =
    let rest = lstrip_dots s in if (code c == b'.') || (code c == b'/') then rest else c ∷ s

abbrev pub is_empty_text : String → Bool
is_empty_text [] = true
is_empty_text (c ∷ s) = false

-- `s.rstrip("/")`
unfoldable pub rstrip_slash : String → String
rstrip_slash [] = []
rstrip_slash (c ∷ s) =
    let rest = rstrip_slash s in if (code c == b'/') && is_empty_text rest then [] else c ∷ rest

slash : Char
slash = "/"

-- `s.replace("\\", "/")`
unfoldable pub with_slashes : String → String
unfolding slash
with_slashes [] = []
with_slashes (c ∷ s) = (if code c == 92 then slash else c) ∷ with_slashes s

abbrev is_key_letter : Char → Bool
is_key_letter c =
    let n = code c in (leb b'a' n && leb n b'z') || ((leb b'0' n && leb n b'9') || (n == b'-'))

all_key_letters : String → Bool
all_key_letters [] = true
all_key_letters (c ∷ s) = is_key_letter c && all_key_letters s

-- `[a-z0-9-]+` matches all of the text
unfoldable pub is_key_segment : String → Bool
unfolding all_key_letters
is_key_segment [] = false
is_key_segment (c ∷ s) = is_key_letter c && all_key_letters s

split_runs : split_on b'/' "a/b" ≡ List.◌∷◌ "a" (List.◌∷◌ "b" List.[])
unfolding split_on
split_runs = refl

strip_runs : (lstrip_dots "./a/" ≡ "a/") × (rstrip_slash "a//" ≡ "a")
unfolding lstrip_dots rstrip_slash
strip_runs = (refl, refl)
