-- ===== src/Rust/Splits.antt =====
-- `str::split_once` and `str::strip_prefix` as the source uses them, and their laws.
use Prim.Native.String.{[], ◌∷◌, ◌++◌}
use text.Mathlib.TextLemmas.{nil-append, cons-append}
use text.Mathlib.TextEquality.{Char-path}
use zellimobile_server.Common.{
  ℕ, Char, code, String, Option, none, some, ◌==◌, if◌then◌else◌, ◌≡◌, refl, ap, sym, ◌∙◌, inl, inr,
  arith, Bool-cases, Option-cases, ==_iff,
}
use zellimobile_server.Rust.Text.Laws.{Lacks}

abbrev put_in_front : Char → Option (String × String) → Option (String × String)
put_in_front c (some (before, after)) = some (c ∷ before, after)
put_in_front c none = none

-- `split_once(sep)`
unfoldable pub split_once : ℕ → String → Option (String × String)
split_once sep [] = none
split_once sep (c ∷ s) =
    let rest = split_once sep s in if code c == sep then some ([], s) else put_in_front c rest

-- `strip_prefix(p)`
unfoldable pub strip_prefix : String → String → Option String
strip_prefix [] s = some s
strip_prefix (p ∷ ps) [] = none
strip_prefix (p ∷ ps) (c ∷ s) =
    let rest = strip_prefix ps s in if code c == code p then rest else none

pub split_once-append :
    (sep : Char) (before after : String)
    → Lacks (code sep) before
    → split_once (code sep) (before ++ (sep ∷ after)) ≡ some (before, after)
unfolding split_once
split_once-append sep [] after h = rw (nil-append, split_once) (ground arith)
split_once-append sep (c ∷ before) after h =
    rw (cons-append, split_once, split_once-append sep before after h.1) (ground (arith, h.0))

pub split_once-none : (n : ℕ) (s : String) → split_once n s ≡ none → Lacks n s
unfolding split_once
split_once-none n [] h = tt
split_once-none n (c ∷ s) h = elim (Option-cases (split_once n s)) [
  | inl nowhere ↦ (ground arith, split_once-none n s nowhere)
  | inr ((before, after), found) ↦ absurd (ground arith)
]

pub split_once-of_Lacks : (n : ℕ) (s : String) → Lacks n s → split_once n s ≡ none
unfolding split_once
split_once-of_Lacks n [] h = refl
split_once-of_Lacks n (c ∷ s) h = rw (split_once-of_Lacks n s h.1) (ground (arith, h.0))

put_in_front-some :
    (c : Char) (o : Option (String × String)) (before after : String)
    → put_in_front c o ≡ some (before, after)
    → (b : String) × (o ≡ some (b, after)) × (before ≡ c ∷ b)
put_in_front-some c none before after h = cc
put_in_front-some c (some (b, a)) before after h = (b, ground arith, ground arith)

pub append-split_once :
    (sep : Char) (s before after : String)
    → split_once (code sep) s ≡ some (before, after)
    → (s ≡ before ++ (sep ∷ after)) × Lacks (code sep) before
unfolding split_once
append-split_once sep [] before after h = cc
append-split_once sep (c ∷ s) before after h = elim (Bool-cases (code c == code sep)) [
  | inl same ↦
      let first : before ≡ [] = ground arith in
      let rest : after ≡ s = ground arith in
      rw (first, rest, Char-path c sep ((==_iff (code c) (code sep)).0 same))
        (sym (nil-append (sep ∷ s)), tt)
  | inr other ↦
      let (b, found, first) =
        put_in_front-some c (split_once (code sep) s) before after (rw (other, split_once) at h) in
      let (back, lacks) = append-split_once sep s b after found in
      rw first (ap (λ t. c ∷ t) back ∙ sym (cons-append c b (sep ∷ after)), (ground arith, lacks))
]

pub append-strip_prefix : (p s rest : String) → strip_prefix p s ≡ some rest → s ≡ p ++ rest
unfolding strip_prefix
append-strip_prefix [] s rest h = rw (nil-append rest) (ground arith)
append-strip_prefix (p ∷ ps) [] rest h = cc
append-strip_prefix (p ∷ ps) (c ∷ s) rest h =
    let same : code c ≡ code p = ground arith in
    let front = append-strip_prefix ps s rest (ground arith) in
    rw (Char-path c p same) (ap (λ t. p ∷ t) front ∙ sym (cons-append p ps rest))

pub strip_prefix-append : (p rest : String) → strip_prefix p (p ++ rest) ≡ some rest
unfolding strip_prefix
strip_prefix-append [] rest = rw (nil-append, strip_prefix)
strip_prefix-append (p ∷ ps) rest =
    rw (cons-append, strip_prefix, strip_prefix-append ps rest) (ground arith)
