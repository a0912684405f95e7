-- ===== src/Herdr/Wire.antt =====
-- muxrd/src/multiplexer/herdr/wire.rs: frames of a 32-bit little-endian length and a payload. The
-- payload's format is bincode's, a library that the source only calls: it is the parameter
-- `Bincode`. A reader is the bytes that are still to come and how they end; a writer is what has
-- been written, with the error that `write_all` or `flush` meets, if any.
pub mod Framing
use zellimobile_server.Common.{
  ℕ, ◌+◌, ◌-◌, ◌*◌, ◌/◌, ◌%◌, ◌^◌, String, Bool, List, [], ◌∷◌, ◌++◌, Option, none, some, ltb, ◌==◌,
  if◌then◌else◌, length, take, drop, not, ◌≡◌, refl, ◌⊎◌, inl, inr,
}
use zellimobile_server.Herdr.Types.{ClientMessage, ServerMessage}

abbrev pub max_frame_size : ℕ
max_frame_size = 2 * 1024 * 1024

abbrev pub u32_max : ℕ
u32_max = 2 ^ 32 - 1

-- The text of a `Bincode` error, by what it is made of: the library's own, or one of the two that
-- the source formats.
pub data BincodeText : Type 0 where
  reported : String → BincodeText
  too_large : (len : ℕ) → BincodeText
  trailing : (consumed claimed : ℕ) → BincodeText

pub data FramingError : Type 0 where
  oversized : (claimed most : ℕ) → FramingError
  io : String → FramingError
  bincode : BincodeText → FramingError
  unexpected_eof : FramingError

pub data Result {ℓ} (A : Type ℓ) : Type ℓ where
  ok : A → Result A
  err : FramingError → Result A

infixl 5 ◌>>=◌
abbrev pub ◌>>=◌ {ℓ κ} : {A : Type ℓ} {B : Type κ} → Result A → (A → Result B) → Result B
ok a >>= f = f a
err e >>= f = err e

-- To split on a result and keep the equation.
pub Result-cases {ℓ} :
    {A : Type ℓ} (r : Result A) → ((e : FramingError) × (r ≡ err e)) ⊎ ((a : A) × (r ≡ ok a))
Result-cases (err e) = inl (e, refl)
Result-cases (ok a) = inr (a, refl)

-- `encode_to_vec` and `decode_from_slice` with the standard configuration; an error is its text.
pub record Bincode : Type 0 where
  pub encode_to_vec : ClientMessage → Result (List ℕ)
  pub decode_from_slice : List ℕ → Result (ServerMessage × ℕ)

-- `to_le_bytes` and `from_le_bytes` of a `u32`
abbrev pub to_le_bytes : ℕ → List ℕ
to_le_bytes n = n % 256 ∷ n / 256 % 256 ∷ n / 65536 % 256 ∷ n / 16777216 % 256 ∷ []

abbrev pub from_le_bytes : List ℕ → ℕ
from_le_bytes [] = 0
from_le_bytes (b ∷ rest) = b + 256 * from_le_bytes rest

module _ (codec : Bincode) where
  -- `encode`
  unfoldable pub encode : ClientMessage → Result (List ℕ)
  encode msg = do
    payload ← codec.encode_to_vec msg
    if ltb u32_max (length payload)
        then err (bincode (too_large (length payload)))
        else ok (to_le_bytes (length payload) ++ payload)

pub record Writer : Type 0 where
  pub written : List ℕ
  pub write_fault : Option String
  pub flush_fault : Option String

abbrev pub write_all : Writer → List ℕ → Result Writer
write_all w bytes = elim w.write_fault [
  | some e ↦ err (io e)
  | none ↦ ok (record w { written = w.written ++ bytes })
]

abbrev pub flush : Writer → Result Writer
flush w = elim w.flush_fault [ some e ↦ err (io e) | none ↦ ok w ]

module _ (codec : Bincode) where
  -- `write_message`
  unfoldable pub write_message : Writer → ClientMessage → Result Writer
  unfolding encode
  write_message w msg = do bytes ← encode codec msg; w' ← write_all w bytes; flush w'

-- The bytes to come, and the error after them, if they do not end in a clean close.
pub record Reader : Type 0 where
  pub coming : List ℕ
  pub fault : Option String

-- `read_exact_or_eof`
unfoldable pub read_exact_or_eof : Reader → ℕ → Result (List ℕ × Reader)
read_exact_or_eof r n =
    if ltb (length r.coming) n
    then elim r.fault [ none ↦ err unexpected_eof | some e ↦ err (io e) ]
    else ok (take n r.coming, record r { coming = drop n r.coming })

module _ (codec : Bincode) where
  -- The payload is decoded, and has to be used up.
  unfoldable pub decode_payload : ℕ → List ℕ → Result ServerMessage
  decode_payload claimed payload = do
    (msg, consumed) ← codec.decode_from_slice payload
    if not (consumed == claimed) then err (bincode (trailing consumed claimed)) else ok msg

  -- What follows the length: the check of the claim, the payload, and its message.
  unfoldable pub read_claimed : Reader → ℕ → Result (ServerMessage × Reader)
  read_claimed r claimed =
      if ltb max_frame_size claimed then err (oversized claimed max_frame_size) else (do
        (payload, r') ← read_exact_or_eof r claimed
        msg ← decode_payload claimed payload
        ok (msg, r'))

  -- `read_server_message`
  unfoldable pub read_server_message : Reader → Result (ServerMessage × Reader)
  unfolding read_claimed
  read_server_message r = do
    (len_buf, r') ← read_exact_or_eof r 4
    read_claimed r' (from_le_bytes len_buf)
