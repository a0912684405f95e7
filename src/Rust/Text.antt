-- ===== src/Rust/Text.antt =====
-- `String` and `str` as the source uses them: push, pop, trim, rfind, and `parse::<u16>()`.
pub mod Laws
use Prim.Native.String.{[], ◌∷◌, ◌++◌}
use mathlib.Core.List.{List, [], ◌∷◌}
use zellimobile_server.Common.{
  ℕ, ◌+◌, ◌-◌, ◌*◌, Char, code, String, Bool, true, false, ◌&&◌, ◌||◌, Option, none, some, leb,
  ◌==◌, if◌then◌else◌, ◌≡◌, refl,
}

abbrev pub is_empty : String → Bool
is_empty [] = true
is_empty (_ ∷ _) = false

abbrev pub concat : String → String → String
concat = ◌++◌

-- `String::push`
unfoldable pub push : String → Char → String
push s c = s ++ (c ∷ [])

-- `String::pop`, whose result the source drops
unfoldable pub pop : String → String
pop [] = []
pop (c ∷ []) = []
pop (c ∷ d ∷ s) = c ∷ pop (d ∷ s)

-- The code points with Unicode's White_Space property, which `char::is_whitespace` tests.
abbrev pub is_whitespace : ℕ → Bool
is_whitespace n =
    (leb 9 n && leb n 13)
    || n == 32
    || n == 0x85
    || n == 0xa0
    || n == 0x1680
    || (leb 0x2000 n && leb n 0x200a)
    || n == 0x2028
    || n == 0x2029
    || n == 0x202f
    || n == 0x205f
    || n == 0x3000

unfoldable pub trim_start : String → String
trim_start [] = []
trim_start (c ∷ s) = if is_whitespace (code c) then trim_start s else c ∷ s

abbrev pub keep_unless_blank : Char → String → String
keep_unless_blank c [] = if is_whitespace (code c) then [] else c ∷ []
keep_unless_blank c (d ∷ s) = c ∷ d ∷ s

unfoldable pub trim_end : String → String
trim_end [] = []
trim_end (c ∷ s) = keep_unless_blank c (trim_end s)

unfoldable pub trim : String → String
unfolding trim_start trim_end
trim s = trim_end (trim_start s)

abbrev pub is_ascii_digit : Char → Bool
is_ascii_digit c = leb b'0' (code c) && leb (code c) b'9'

-- The code points of `to_ascii_lowercase()`.
abbrev pub lower_code : ℕ → ℕ
lower_code n = if leb b'A' n && leb n b'Z' then n + 32 else n

unfoldable pub lower_codes : String → List ℕ
lower_codes [] = []
lower_codes (c ∷ s) = lower_code (code c) ∷ lower_codes s

-- Whether code points spell a text.
unfoldable pub spells : List ℕ → String → Bool
spells [] [] = true
spells [] (_ ∷ _) = false
spells (_ ∷ _) [] = false
spells (n ∷ ns) (c ∷ s) = n == code c && spells ns s

-- `rfind(sep)` with the two slices that the source takes at its result.
abbrev pub put_before : Char → ℕ → String → Option (String × String) → Option (String × String)
put_before c sep s (some (before, after)) = some (c ∷ before, after)
put_before c sep s none = if code c == sep then some ([], s) else none

unfoldable pub rsplit_at : ℕ → String → Option (String × String)
rsplit_at sep [] = none
rsplit_at sep (c ∷ s) = put_before c sep s (rsplit_at sep s)

-- The digit loop of `from_str_radix(10)` at `u16`, with `checked_mul` and `checked_add`.
abbrev pub u16_max : ℕ
u16_max = 65535

unfoldable pub parse_digits : ℕ → String → Option ℕ
parse_digits acc [] = some acc
parse_digits acc (c ∷ s) =
    if is_ascii_digit c && leb (acc * 10 + (code c - b'0')) u16_max
    then parse_digits (acc * 10 + (code c - b'0')) s
    else none

-- One leading `+` is accepted when digits follow.
unfoldable pub parse_u16 : String → Option ℕ
unfolding parse_digits
parse_u16 [] = none
parse_u16 (c ∷ []) = parse_digits 0 (c ∷ [])
parse_u16 (c ∷ d ∷ s) =
    if code c == b'+' then parse_digits 0 (d ∷ s) else parse_digits 0 (c ∷ d ∷ s)

trim_test : trim "  a b\t" ≡ "a b"
unfolding trim
trim_test = refl

parse_test :
    (parse_u16 "+50051" ≡ some 50051) × (parse_u16 "65536" ≡ none) × (parse_u16 "0" ≡ some 0)
unfolding parse_u16
parse_test = (refl, refl, refl)

rsplit_test : rsplit_at b':' "::1:80" ≡ some ("::1", "80")
unfolding rsplit_at
rsplit_test = refl
