-- ===== src/Rust/Bytes.antt =====
-- Rust's texts by their bytes: `len`, and slices up to a byte.
use Prim.Native.String.{[], ◌∷◌}
use text.Mathlib.TextLemmas.{nil-append, cons-append}
use zellimobile_server.Common.{
  ℕ, ◌+◌, ◌-◌, ◌≤◌, ◌<◌, Char, code, String, Option, none, some, ltb, leb, ◌==◌, if◌then◌else◌, ◌≡◌,
  refl, ap, ◌∙◌, arith,
}
use zellimobile_server.Rust.Text.{concat}

-- How many bytes a character takes.
unfoldable pub width : Char → ℕ
width c =
    if ltb (code c) 0x80
    then 1
    else if ltb (code c) 0x800
    then 2
    else if ltb (code c) 0x10000
    then 3
    else 4

-- `String::len`
unfoldable pub byte_len : String → ℕ
unfolding width
byte_len [] = 0
byte_len (c ∷ s) = width c + byte_len s

abbrev pub cons_some : Char → Option String → Option String
cons_some c none = none
cons_some c (some s) = some (c ∷ s)

-- `&s[..n]` for n up to the length, which panics inside a character.
unfoldable pub take_bytes : String → ℕ → Option String
unfolding width
take_bytes [] n = some []
take_bytes (c ∷ s) n =
    let rest = take_bytes s (n - width c) in
    if n == 0 then some [] else if leb (width c) n then cons_some c rest else none

slice_test : (take_bytes "zellij" 3 ≡ some "zel") × (take_bytes "é" 1 ≡ none)
unfolding take_bytes
slice_test = (refl, refl)

width-pos : (c : Char) → 1 ≤ width c
unfolding width
width-pos c = ground arith

abbrev slice_step : ℕ → ℕ → Option String → Option String
slice_step w n rest = if n == 0 then some [] else if leb w n then rest else none

step_inside : (w n : ℕ) (rest : Option String) → 0 < n → n < w → slice_step w n rest ≡ none
step_inside w n rest lo hi = ground arith

step_past : (w n : ℕ) (rest : Option String) → 1 ≤ w → w ≤ n → slice_step w n rest ≡ rest
step_past w n rest pos le = ground arith

pub take_bytes-zero : (s : String) → take_bytes s 0 ≡ some []
unfolding take_bytes
take_bytes-zero [] = refl
take_bytes-zero (c ∷ s) = refl

-- A slice at the end of a text that goes on.
pub take_bytes-concat : (s t : String) → take_bytes (concat s t) (byte_len s) ≡ some s
unfolding take_bytes byte_len
take_bytes-concat [] t = ap (λ u. take_bytes u 0) (nil-append t) ∙ take_bytes-zero t
take_bytes-concat (c ∷ s) t =
    let e : width c + byte_len s - width c ≡ byte_len s = omega arith in
    ap (λ u. take_bytes u (width c + byte_len s)) (cons-append c s t)
    ∙ step_past (width c) (width c + byte_len s) _ (width-pos c) (omega arith)
    ∙ ap (λ n. cons_some c (take_bytes (concat s t) n)) e
    ∙ ap (cons_some c) (take_bytes-concat s t)

-- One byte into a character of two bytes or more.
pub take_bytes-inside :
    (s t : String) (c : Char) (n : ℕ)
    → byte_len s < n
    → n < byte_len s + width c
    → take_bytes (concat s (c ∷ t)) n ≡ none
unfolding take_bytes byte_len
take_bytes-inside [] t c n lo hi =
    ap (λ u. take_bytes u n) (nil-append (c ∷ t))
    ∙ step_inside (width c) n _ (omega arith) (omega arith)
take_bytes-inside (d ∷ s) t c n lo hi =
    ap (λ u. take_bytes u n) (cons-append d s (c ∷ t))
    ∙ step_past (width d) n _ (width-pos d) (omega arith)
    ∙ ap (cons_some d) (take_bytes-inside s t c (n - width d) (omega arith) (omega arith))
