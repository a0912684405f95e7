-- ===== src/Rust/Text/Laws.antt =====
-- Laws of the text functions: trimming twice, splitting at the last separator, and what a text
-- that parses as a number is made of.
use Prim.Native.String.{[], ◌∷◌, ◌++◌}
use text.Mathlib.TextLemmas.{nil-append, cons-append}
use zellimobile_server.Common.{
  ℕ, ◌+◌, ◌-◌, ◌*◌, Char, code, String, ◌≡◌, refl, ap, sym, ◌≢◌, ◌⊎◌, inl, inr, Bool, true, false,
  Option, none, some, arith, Bool-cases, ◌∙◌, ◌==◌, ◌&&◌, leb,
}
use zellimobile_server.Rust.Text.{
  is_whitespace, trim_start, trim_end, trim, keep_unless_blank, rsplit_at, put_before, parse_digits,
  parse_u16, is_ascii_digit, u16_max,
}
use text.Mathlib.TextEquality.{Char-path}

-- The text does not begin with white space.
abbrev StartsSolid : String → Type 0
StartsSolid [] = Unit
StartsSolid (c ∷ s) = is_whitespace (code c) ≡ false

trim_start-StartsSolid : (s : String) → StartsSolid (trim_start s)
unfolding trim_start
trim_start-StartsSolid [] = tt
trim_start-StartsSolid (c ∷ s) = elim (Bool-cases (is_whitespace (code c))) [
  | inl blank ↦ rw blank (trim_start-StartsSolid s)
  | inr solid ↦ rw solid solid
]

trim_start_of_StartsSolid : (s : String) → StartsSolid s → trim_start s ≡ s
unfolding trim_start
trim_start_of_StartsSolid [] h = refl
trim_start_of_StartsSolid (c ∷ s) h = rw h

keep-StartsSolid :
    (c : Char) (s : String) → is_whitespace (code c) ≡ false → StartsSolid (keep_unless_blank c s)
keep-StartsSolid c [] h = rw h h
keep-StartsSolid c (d ∷ s) h = h

trim_end-StartsSolid : (s : String) → StartsSolid s → StartsSolid (trim_end s)
unfolding trim_end
trim_end-StartsSolid [] h = tt
trim_end-StartsSolid (c ∷ s) h = keep-StartsSolid c (trim_end s) h

trim_end-keep :
    (c : Char) (s : String)
    → trim_end s ≡ s
    → trim_end (keep_unless_blank c s) ≡ keep_unless_blank c s
unfolding trim_end
trim_end-keep c [] h = elim (Bool-cases (is_whitespace (code c))) [
  | inl blank ↦ rw blank
  | inr solid ↦ rw solid (rw solid)
]
trim_end-keep c (d ∷ s) h = rw h

trim_end_idem : (s : String) → trim_end (trim_end s) ≡ trim_end s
unfolding trim_end
trim_end_idem [] = refl
trim_end_idem (c ∷ s) = trim_end-keep c (trim_end s) (trim_end_idem s)

-- A trimmed text is left alone.
pub trim_idem : (s : String) → trim (trim s) ≡ trim s
unfolding trim
trim_idem s =
    ap trim_end (trim_start_of_StartsSolid _ (trim_end-StartsSolid _ (trim_start-StartsSolid s)))
    ∙ trim_end_idem (trim_start s)

-- No character of the text has this code.
abbrev pub Lacks : ℕ → String → Type 0
Lacks n [] = Unit
Lacks n (c ∷ s) = (code c ≢ n) × Lacks n s

pub rsplit_at_of_Lacks : (n : ℕ) (s : String) → Lacks n s → rsplit_at n s ≡ none
unfolding rsplit_at
rsplit_at_of_Lacks n [] h = refl
rsplit_at_of_Lacks n (c ∷ s) h = rw (rsplit_at_of_Lacks n s h.1) (ground (arith, h.0))

-- What stands before the last separator, and after it.
pub rsplit_at-append :
    (n : ℕ) (sep : Char) (before after : String)
    → code sep ≡ n
    → Lacks n after
    → rsplit_at n (before ++ (sep ∷ after)) ≡ some (before, after)
unfolding rsplit_at
rsplit_at-append n sep [] after e h =
    rw (nil-append, rsplit_at, rsplit_at_of_Lacks n after h) (ground (arith, e))
rsplit_at-append n sep (c ∷ before) after e h =
    rw (cons-append, rsplit_at, rsplit_at-append n sep before after e h)

put_before-some :
    (c sep : Char) (s before after : String) (o : Option (String × String))
    → put_before c (code sep) s o ≡ some (before, after)
    → ((o ≡ none) × (before ≡ []) × (after ≡ s) × (code c ≡ code sep))
      ⊎ ((b : String) × (o ≡ some (b, after)) × (before ≡ c ∷ b))
put_before-some c sep s before after none h = inl (ground arith)
put_before-some c sep s before after (some (b, a)) h = inr (b, ground arith, ground arith)

-- Putting the two halves together again.
pub append-rsplit_at :
    (sep : Char) (s before after : String)
    → rsplit_at (code sep) s ≡ some (before, after)
    → before ++ (sep ∷ after) ≡ s
unfolding rsplit_at
append-rsplit_at sep [] before after h = cc
append-rsplit_at sep (c ∷ s) before after h =
    elim (put_before-some c sep s before after (rsplit_at (code sep) s) h) [
      | inl (_, first, rest, same) ↦ rw (first, rest, Char-path c sep same) (nil-append (sep ∷ s))
      | inr (b, found, first) ↦
          rw first
            (cons-append c b (sep ∷ after) ∙ ap (λ t. c ∷ t) (append-rsplit_at sep s b after found))
    ]

trim_start-Lacks :
    (n : ℕ) (s : String) → is_whitespace n ≡ false → Lacks n (trim_start s) → Lacks n s
unfolding trim_start
trim_start-Lacks n [] e h = tt
trim_start-Lacks n (c ∷ s) e h = elim (Bool-cases (is_whitespace (code c))) [
  | inl blank ↦ (
    λ same. cc (sym blank ∙ ap is_whitespace same ∙ e),
    trim_start-Lacks n s e (rw (blank, trim_start) at h),
  )
  | inr solid ↦ rw (solid, trim_start) at h
]

keep-Lacks :
    (n : ℕ) (c : Char) (s : String)
    → is_whitespace n ≡ false
    → Lacks n (keep_unless_blank c s)
    → (code c ≢ n) × Lacks n s
keep-Lacks n c [] e h = elim (Bool-cases (is_whitespace (code c))) [
  | inl blank ↦ (λ same. cc (sym blank ∙ ap is_whitespace same ∙ e), tt)
  | inr solid ↦ rw (solid, keep_unless_blank) at h
]
keep-Lacks n c (d ∷ s) e h = h

trim_end-Lacks : (n : ℕ) (s : String) → is_whitespace n ≡ false → Lacks n (trim_end s) → Lacks n s
unfolding trim_end
trim_end-Lacks n [] e h = tt
trim_end-Lacks n (c ∷ s) e h =
    let (here, later) = keep-Lacks n c (trim_end s) e h in (here, trim_end-Lacks n s e later)

-- A code that is no white space stands in a text only if it stands in the trimmed text.
pub trim-Lacks : (n : ℕ) (s : String) → is_whitespace n ≡ false → Lacks n (trim s) → Lacks n s
unfolding trim
trim-Lacks n s e h = trim_start-Lacks n s e (trim_end-Lacks n (trim_start s) e h)

digit_not_colon : (c : Char) (b : Bool) → (is_ascii_digit c && b) ≡ true → code c ≢ b':'
digit_not_colon c b h = ground arith

parse_digits-Lacks : (acc : ℕ) (s : String) → parse_digits acc s ≢ none → Lacks b':' s
unfolding parse_digits
parse_digits-Lacks acc [] h = tt
parse_digits-Lacks acc (c ∷ s) h =
    elim (Bool-cases (is_ascii_digit c && leb (acc * 10 + (code c - b'0')) u16_max)) [
      | inl digit ↦ (
        digit_not_colon c _ digit,
        parse_digits-Lacks (acc * 10 + (code c - b'0')) s (rw (digit, parse_digits) at h),
      )
      | inr other ↦ absurd (h (rw (other, parse_digits)))
    ]

-- A text that parses as a `u16` holds no colon.
pub parse_u16-Lacks : (s : String) → parse_u16 s ≢ none → Lacks b':' s
unfolding parse_u16
parse_u16-Lacks [] h = tt
parse_u16-Lacks (c ∷ []) h = parse_digits-Lacks 0 (c ∷ []) h
parse_u16-Lacks (c ∷ d ∷ s) h = elim (Bool-cases (code c == b'+')) [
  | inl plus ↦ (ground arith, parse_digits-Lacks 0 (d ∷ s) (rw (plus, parse_u16) at h))
  | inr digits ↦ parse_digits-Lacks 0 (c ∷ d ∷ s) (rw (digits, parse_u16) at h)
]
