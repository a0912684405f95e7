-- ===== src/Herdr/Tests.antt =====
-- Polls of a pane registry and frames of a stream (muxrd/src/multiplexer/herdr/registry.rs and
-- wire.rs) at concrete inputs.
use zellimobile_server.Common.{
  ℕ, ◌≤◌, ◌≡◌, refl, String, List, [], ◌∷◌, ◌++◌, none, some, true, arith, ◌≢◌, eq_iff,
}
use zellimobile_server.Common.Map.{lookup, insert, string_key}
use zellimobile_server.Herdr.Types.{ServerMessage}
use zellimobile_server.Herdr.Registry.{
  PaneInner, new_panes, u32_max, assign_or_get, see_panes, herdr_pane_id,
}
use zellimobile_server.Herdr.Registry.Panes.{assign-stable, ids_distinct}
use zellimobile_server.Herdr.Registry.Resolve.{exhausted_alias}
use zellimobile_server.Herdr.Wire.{Bincode, Result, ok, err, bincode, reported}
use zellimobile_server.Herdr.Wire.Framing.{read_all, frames, messages, read_all-frames}

abbrev polls : List (String × String)
polls = ("w1:p1", "t1") ∷ ("w1:p2", "t2") ∷ ("w1:p1", "t9") ∷ []

assign-stable_example :
    (assign_or_get (see_panes (assign_or_get new_panes "w1:p2" "t0").0 polls) "w1:p2" "t5").1
    ≡ (assign_or_get new_panes "w1:p2" "t0").1
assign-stable_example = assign-stable new_panes "w1:p2" "t0" "t5" polls

abbrev second : String
second = "w1:p2"

ids_distinct_example : (second ≡ second) × (1 ≤ 2)
unfolding see_panes assign_or_get lookup insert
ids_distinct_example = ids_distinct polls second second 2 (omega arith) refl refl

abbrev full : PaneInner
full = record { next_id = u32_max; by_herdr = []; by_id = [] }

p_not_q : ◌≢◌ {A = String} "p" "q"
p_not_q e = let told = (eq_iff "p" "q").1 e in cc

exhausted_alias_example :
    ((assign_or_get (assign_or_get full "p" "s").0 "q" "t").1 ≡ (assign_or_get full "p" "s").1)
    × (herdr_pane_id
          (assign_or_get (assign_or_get full "p" "s").0 "q" "t").0
          (assign_or_get full "p" "s").1
        ≡ some "q")
unfolding lookup
exhausted_alias_example = exhausted_alias full "p" "q" "s" "t" refl refl refl p_not_q

-- A codec whose one message is a single byte: the mouse's capture.
abbrev decode_byte : List ℕ → Result (ServerMessage × ℕ)
decode_byte [] = err (bincode (reported "no byte"))
decode_byte (b ∷ rest) = ok (ServerMessage.mouse_capture true, 1)

abbrev codec : Bincode
codec = record { encode_to_vec = λ msg. ok (7 ∷ []); decode_from_slice = decode_byte }

abbrev capture : ServerMessage
capture = ServerMessage.mouse_capture true

abbrev row : List (List ℕ × ServerMessage)
row = (9 ∷ [], capture) ∷ (8 ∷ [], capture) ∷ []

read_all-frames_example :
    read_all codec 2 (record { coming = frames codec row ++ (1 ∷ []); fault = none })
    ≡ ok (messages codec row, record { coming = 1 ∷ []; fault = none })
read_all-frames_example =
    read_all-frames codec row (1 ∷ []) none ((omega arith, refl), ((omega arith, refl), tt))
