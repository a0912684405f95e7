-- ===== src/Grpc/Control/Prefix.antt =====
-- When the prefix of a connection id (muxrd/src/grpc/helpers.rs) exists.
use zellimobile_server.Common.{
  ℕ, ◌+◌, ◌≤◌, ◌<◌, Char, String, none, some, leb, if◌then◌else◌, ◌≡◌, ap, sym, ◌∙◌, arith,
}
use Prim.Native.String.{[], ◌∷◌}
use text.Mathlib.TextLemmas.{nil-append, cons-append}
use zellimobile_server.Rust.Text.{concat}
use zellimobile_server.Rust.Bytes.{
  byte_len, width, take_bytes, take_bytes-concat, take_bytes-inside,
}
use zellimobile_server.Grpc.Control.{short_conn}

abbrev prefix_len : ℕ → ℕ
prefix_len n = if leb 8 n then 8 else n

long : (n : ℕ) → 8 ≤ n → prefix_len n ≡ 8
long n h = ground arith

byte_len-concat : (s t : String) → byte_len (concat s t) ≡ byte_len s + byte_len t
unfolding byte_len
byte_len-concat [] t = ap byte_len (nil-append t) ∙ omega arith
byte_len-concat (c ∷ s) t = ap byte_len (cons-append c s t) ∙ omega (arith, byte_len-concat s t)

-- The prefix of an id that a log line shows exists where a character ends with the eighth byte: it is
-- those eight bytes.
pub short_conn-concat : (s t : String) → byte_len s ≡ 8 → short_conn (concat s t) ≡ some s
unfolding short_conn
short_conn-concat s t e =
    ap (take_bytes (concat s t))
      (long (byte_len (concat s t)) (omega (arith, byte_len-concat s t)) ∙ sym e)
    ∙ take_bytes-concat s t

-- The prefix of an id that a log line shows does not exist, and Rust panics, where a character lies
-- across the eighth byte: after a start of at most seven bytes comes one that goes on past the eighth.
pub short_conn-inside :
    (s t : String) (c : Char)
    → byte_len s < 8
    → 8 < byte_len s + width c
    → short_conn (concat s (c ∷ t)) ≡ none
unfolding short_conn byte_len
short_conn-inside s t c lo hi =
    ap (take_bytes (concat s (c ∷ t)))
      (long (byte_len (concat s (c ∷ t))) (omega (arith, byte_len-concat s (c ∷ t))))
    ∙ take_bytes-inside s t c 8 lo hi
