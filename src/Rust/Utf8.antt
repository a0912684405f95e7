-- ===== src/Rust/Utf8.antt =====
-- Rust's `String::from_utf8`: which bytes are UTF-8. A `String` that was read so is the bytes.
use zellimobile_server.Common.{
  ℕ, zero, suc, Bool, true, false, ◌&&◌, List, [], ◌∷◌, Option, none, some, leb, if◌then◌else◌, ◌≡◌,
  refl,
}

-- Where a text may end, or what the next byte must lie between and how many more follow it.
pub data Utf8 : Type 0 where
  start : Utf8
  expect : (lo hi more : ℕ) → Utf8

abbrev pub between : ℕ → ℕ → ℕ → Bool
between lo hi b = leb lo b && leb b hi

-- The first byte of a character: no overlong form, no surrogate, nothing above U+10FFFF.
unfoldable pub first_byte : ℕ → Option Utf8
first_byte b =
    if leb b 0x7F
    then some start
    else if between 0xC2 0xDF b
    then some (expect 0x80 0xBF 0)
    else if between 0xE0 0xE0 b
    then some (expect 0xA0 0xBF 1)
    else if between 0xE1 0xEC b
    then some (expect 0x80 0xBF 1)
    else if between 0xED 0xED b
    then some (expect 0x80 0x9F 1)
    else if between 0xEE 0xEF b
    then some (expect 0x80 0xBF 1)
    else if between 0xF0 0xF0 b
    then some (expect 0x90 0xBF 2)
    else if between 0xF1 0xF3 b
    then some (expect 0x80 0xBF 2)
    else if between 0xF4 0xF4 b
    then some (expect 0x80 0x8F 2)
    else none

abbrev pub next_state : ℕ → Utf8
next_state zero = start
next_state (suc more) = expect 0x80 0xBF more

unfoldable pub utf8_step : Utf8 → ℕ → Option Utf8
unfolding first_byte
utf8_step start b = first_byte b
utf8_step (expect lo hi more) b = if between lo hi b then some (next_state more) else none

unfoldable pub utf8_from : Option Utf8 → List ℕ → Bool
unfolding utf8_step
utf8_from none bs = false
utf8_from (some start) [] = true
utf8_from (some (expect _ _ _)) [] = false
utf8_from (some s) (b ∷ bs) = utf8_from (utf8_step s b) bs

unfoldable pub is_utf8 : List ℕ → Bool
unfolding utf8_from
is_utf8 bs = utf8_from (some start) bs

utf8_test :
    (is_utf8 (0x6C ∷ 0xC3 ∷ 0xA9 ∷ 0xF0 ∷ 0x9F ∷ 0x98 ∷ 0x80 ∷ []) ≡ true)
    × (is_utf8 (0x1B ∷ 0xFF ∷ []) ≡ false)
    × (is_utf8 (0xC0 ∷ 0x80 ∷ []) ≡ false)
    × (is_utf8 (0xED ∷ 0xA0 ∷ 0x80 ∷ []) ≡ false)
    × (is_utf8 (0xE2 ∷ 0x82 ∷ []) ≡ false)
unfolding is_utf8
utf8_test = (refl, refl, refl, refl, refl)
