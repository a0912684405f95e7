-- ===== src/Herdr/Wire/Framing.antt =====
-- What framing guarantees (muxrd/src/multiplexer/herdr/wire.rs), whatever the payload's format.
use mathlib.Core.List.{append_assoc}
use zellimobile_server.Common.{
  ℕ, suc, ◌+◌, ◌≤◌, ◌<◌, ◌≡◌, refl, sym, ap, ◌∙◌, inl, inr, String, List, [], ◌∷◌, ◌++◌, Option,
  none, length, take, drop, arith, take-append, drop-append, length-append, take-append-drop,
  length-take_of_le, zero, All, subst,
}
use zellimobile_server.Herdr.Types.{ClientMessage, ServerMessage}
use zellimobile_server.Herdr.Wire.{
  Result-cases, ◌>>=◌, max_frame_size, u32_max, oversized, unexpected_eof, Result, ok, err, Bincode,
  to_le_bytes, from_le_bytes, encode, Reader, read_exact_or_eof, decode_payload, read_claimed,
  read_server_message,
}

from_le-to_le : (n : ℕ) → n ≤ u32_max → from_le_bytes (to_le_bytes n) ≡ n
from_le-to_le n h = omega arith

-- A frame around a payload.
abbrev pub framed : List ℕ → List ℕ
framed payload = to_le_bytes (length payload) ++ payload

read_exact_append :
    (front rest : List ℕ) (fault : Option String)
    → read_exact_or_eof (record { coming = front ++ rest; fault = fault }) (length front)
      ≡ ok (front, record { coming = rest; fault = fault })
unfolding read_exact_or_eof
read_exact_append front rest fault =
    rw (length-append front rest, take-append front rest, drop-append front rest) (ground arith)

module _ (codec : Bincode) where
  read_claimed-framed :
      (payload rest : List ℕ) (fault : Option String) (msg : ServerMessage)
      → length payload ≤ max_frame_size
      → codec.decode_from_slice payload ≡ ok (msg, length payload)
      → read_claimed codec (record { coming = payload ++ rest; fault = fault }) (length payload)
        ≡ ok (msg, record { coming = rest; fault = fault })
  unfolding read_claimed decode_payload
  read_claimed-framed payload rest fault msg small decodes =
      let got = read_exact_append payload rest fault in ground arith

  -- A whole frame whose payload decodes to the last byte is read as its message, and exactly the
  -- bytes after it are left to come.
  pub read-framed :
      (payload rest : List ℕ) (fault : Option String) (msg : ServerMessage)
      → length payload ≤ max_frame_size
      → codec.decode_from_slice payload ≡ ok (msg, length payload)
      → read_server_message codec (record { coming = framed payload ++ rest; fault = fault })
        ≡ ok (msg, record { coming = rest; fault = fault })
  unfolding read_server_message
  read-framed payload rest fault msg small decodes =
      rw
        (
          read_exact_append (to_le_bytes (length payload)) (payload ++ rest) fault,
          read_server_message,
        )
        (rw (from_le-to_le (length payload) (omega arith))
          (read_claimed-framed payload rest fault msg small decodes))

-- What a successful exact read took, and what it left.
read_exact-ok :
    (r : Reader) (n : ℕ) (xs : List ℕ) (r' : Reader)
    → read_exact_or_eof r n ≡ ok (xs, r')
    → (length xs ≡ n) × (r.coming ≡ xs ++ r'.coming) × (r'.fault ≡ r.fault)
unfolding read_exact_or_eof
read_exact-ok r n xs r' h =
    ground (arith, length-take_of_le n r.coming, take-append-drop n r.coming)

-- A frame at the front of what is to come: its length, its payload, and what the payload decodes to.
pub record IsFrame (codec : Bincode) (r : Reader) (msg : ServerMessage) (r' : Reader) : Type 0 where
  pub head : List ℕ
  pub payload : List ℕ
  pub four : length head ≡ 4
  pub claim : from_le_bytes head ≡ length payload
  pub small : length payload ≤ max_frame_size
  pub front : r.coming ≡ head ++ (payload ++ r'.coming)
  pub decodes : codec.decode_from_slice payload ≡ ok (msg, length payload)
  pub same_end : r'.fault ≡ r.fault

module _ (codec : Bincode) where
  read_claimed-ok :
      (r : Reader) (claimed : ℕ) (msg : ServerMessage) (r' : Reader)
      → read_claimed codec r claimed ≡ ok (msg, r')
      → (payload : List ℕ) × (claimed ≡ length payload)
        × (length payload ≤ max_frame_size)
        × (r.coming ≡ payload ++ r'.coming)
        × (codec.decode_from_slice payload ≡ ok (msg, length payload))
        × (r'.fault ≡ r.fault)
  unfolding read_claimed decode_payload
  read_claimed-ok r claimed msg r' h = elim (Result-cases (read_exact_or_eof r claimed)) [
    | inl (e, failed) ↦ absurd (ground arith)
    | inr ((payload, r''), got) ↦
        let (len, front, same) = read_exact-ok r claimed payload r'' got in
        (payload, sym len, ground arith, ground arith, ground arith, ground arith)
  ]

  -- A message is read only from a whole frame within the size limit whose payload decodes to it and
  -- is used up; the reader then stands right behind the frame.
  pub read-IsFrame :
      (r : Reader) (msg : ServerMessage) (r' : Reader)
      → read_server_message codec r ≡ ok (msg, r')
      → IsFrame codec r msg r'
  unfolding read_server_message
  read-IsFrame r msg r' h = elim (Result-cases (read_exact_or_eof r 4)) [
    | inl (e, failed) ↦ absurd (ground arith)
    | inr ((head, r''), got) ↦
        let (four, front, same) = read_exact-ok r 4 head r'' got in
        let (payload, claim, small, front', decodes, same') =
          read_claimed-ok r'' (from_le_bytes head) msg r' (ground arith) in
        record {
          head = head;
          payload = payload;
          four = four;
          claim = claim;
          small = small;
          front = front ∙ ap (◌++◌ head) front';
          decodes = decodes;
          same_end = same' ∙ same;
        }
  ]

  -- A claim above the limit is refused as soon as the length is read: nothing after it is looked at.
  pub read-oversized :
      (claimed : ℕ) (rest : List ℕ) (fault : Option String)
      → max_frame_size < claimed
      → claimed ≤ u32_max
      → read_server_message codec (record { coming = to_le_bytes claimed ++ rest; fault = fault })
        ≡ err (oversized claimed max_frame_size)
  unfolding read_server_message read_claimed
  read-oversized claimed rest fault big fits =
      rw (read_exact_append (to_le_bytes claimed) rest fault, read_server_message)
        (rw (from_le-to_le claimed fits) (ground arith))

  -- A stream that closes inside a payload, before its last byte, ends in `UnexpectedEof`.
  pub read-cut :
      (cut missing : List ℕ)
      → 0 < length missing
      → length cut + length missing ≤ max_frame_size
      → read_server_message codec
          (record { coming = to_le_bytes (length cut + length missing) ++ cut; fault = none })
        ≡ err unexpected_eof
  unfolding read_server_message read_claimed read_exact_or_eof
  read-cut cut missing some_missing small =
      let n = length cut + length missing in
      rw (read_exact_append (to_le_bytes n) cut none, read_server_message)
        (rw (from_le-to_le n (omega arith)) (ground arith))

  -- Whatever `encode` returns is the length of its payload and the payload, and the length is read
  -- back as the number of bytes that follow it.
  pub encode-framed :
      (msg : ClientMessage) (bytes : List ℕ)
      → encode codec msg ≡ ok bytes
      → (payload : List ℕ) × (codec.encode_to_vec msg ≡ ok payload)
        × (bytes ≡ framed payload)
        × (from_le_bytes (take 4 bytes) ≡ length (drop 4 bytes))
  unfolding encode
  encode-framed msg bytes h = elim (Result-cases (codec.encode_to_vec msg)) [
    | inl (e, failed) ↦ absurd (ground arith)
    | inr (payload, got) ↦
        let fits : length payload ≤ u32_max = ground arith in
        let same : bytes ≡ framed payload = ground arith in
        (
          payload,
          got,
          same,
          subst (λ b. from_le_bytes (take 4 b) ≡ length (drop 4 b)) (sym same)
              (from_le-to_le (length payload) fits),
        )
  ]

  -- The messages of a row of frames, one read after the other.
  abbrev pub read_all : ℕ → Reader → Result (List ServerMessage × Reader)
  read_all zero r = ok ([], r)
  read_all (suc n) r = read_server_message codec r >>= λ (msg, r').
      read_all n r' >>= λ (msgs, r''). ok (msg ∷ msgs, r'')

  abbrev pub frames : List (List ℕ × ServerMessage) → List ℕ
  frames [] = []
  frames ((payload, _) ∷ rest) = framed payload ++ frames rest

  abbrev pub messages : List (List ℕ × ServerMessage) → List ServerMessage
  messages [] = []
  messages ((_, msg) ∷ rest) = msg ∷ messages rest

  abbrev pub Decodes : List ℕ × ServerMessage → Type 0
  Decodes (payload, msg) =
      (length payload ≤ max_frame_size)
      × (codec.decode_from_slice payload ≡ ok (msg, length payload))

  -- A row of frames is read as its messages in order, with nothing lost or left over between them.
  pub read_all-frames :
      (fs : List (List ℕ × ServerMessage)) (rest : List ℕ) (fault : Option String)
      → All Decodes fs
      → read_all (length fs) (record { coming = frames fs ++ rest; fault = fault })
        ≡ ok (messages fs, record { coming = rest; fault = fault })
  read_all-frames [] rest fault h = refl
  read_all-frames ((payload, msg) ∷ fs) rest fault ((small, decodes), h) =
      let one = read-framed codec payload (frames fs ++ rest) fault msg small decodes in
      let more = read_all-frames fs rest fault h in
      rw (append_assoc (framed payload) (frames fs) rest) (rw one (rw more))
