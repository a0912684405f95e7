-- ===== src/Relay/Inbound/Bounds.antt =====
-- How large the texts and sizes are that a relay (muxrd/src/relay/inbound.rs) hands to the session.
use zellimobile_server.Common.{
  Option, none, some, ℕ, ◌≤◌, Bool, false, List, [], ◌∷◌, length, ◌≡◌, sym, subst, inl, inr, All,
  All-append, Bool-cases, arith,
}
use zellimobile_server.Rust.Utf8.{is_utf8}
use zellimobile_server.Mux.{PaneRef, FullscreenHint}
use zellimobile_server.Relay.Types.{
  RelayViewState, RelayControl, switch_tab, focus_pane, switch_space, toggle_fullscreen,
  query_layout, max_input_frame_bytes,
}
use zellimobile_server.Relay.Inbound.{
  Call, go_to_tab, focus, space, fire_query, query_layout_result, send_client_exited, in_tab,
  on_pane, in_space, resolve_hint, send_input_chars, send_input_bytes, send_resize, Outside,
  FrameKind, input, resize, attach, Event, tick, command, no_senders, frame, stream_error,
  stream_end, Context, Inbound, accepted, push_call, perform, handle_query_layout, toggle,
}
use zellimobile_server.Relay.Inbound.Rules.{rounds-inv, inbound_loop-cases}
use zellimobile_server.Relay.Inbound.Loop.{
  clamp_dim, handle_command, handle_frame, handle_event, forward_input, rounds, drop_guard,
  teardown, inbound_loop,
}

-- A size of a terminal that a `u16` holds and that is not empty.
abbrev pub IsDim : ℕ → Type 0
IsDim n = (1 ≤ n) × (n ≤ 65535)

pub clamp_dim-IsDim : (v default : ℕ) → IsDim default → IsDim (clamp_dim v default)
unfolding clamp_dim
clamp_dim-IsDim v default d = ground arith

abbrev pub IsBounded : Call × Bool → Type 0
IsBounded (send_input_chars bytes, _) = length bytes ≤ max_input_frame_bytes
IsBounded (send_input_bytes bytes, _) = length bytes ≤ max_input_frame_bytes
IsBounded (send_resize rows cols, _) = IsDim rows × IsDim cols
IsBounded _ = Unit

push-IsBounded :
    (o : Outside) (call : Call) (s : Inbound)
    → IsBounded (call, accepted o)
    → All IsBounded s.calls
    → All IsBounded (push_call o call s).calls
push-IsBounded o call s b w = All-append IsBounded s.calls ((call, accepted o) ∷ []) w (b, tt)

forward-IsBounded :
    (o : Outside) (bytes : List ℕ) (s : Inbound)
    → length bytes ≤ max_input_frame_bytes
    → All IsBounded s.calls
    → All IsBounded (forward_input o bytes s).calls
unfolding forward_input
forward-IsBounded o bytes s b w = elim (Bool-cases (is_utf8 bytes)) [
  | inl text ↦ rw text (push-IsBounded o (send_input_chars bytes) s b w)
  | inr raw ↦ rw raw (push-IsBounded o (send_input_bytes bytes) s b w)
]

module _ (c : Context) where
  abbrev Bounded : Inbound → Type 0
  Bounded s = All IsBounded s.calls

  frame-Bounded :
      (kind : Option FrameKind) (o : Outside) (s : Inbound)
      → Bounded s
      → Bounded (handle_frame c o kind s)
  unfolding handle_frame
  frame-Bounded none o s w = w
  frame-Bounded (some (attach _ _ _)) o s w = w
  frame-Bounded (some (input bytes)) o s w = ground (arith, forward-IsBounded o bytes s)
  frame-Bounded (some (resize rows cols)) o s w = ground (
    arith,
    push-IsBounded o (send_resize (clamp_dim rows 24) (clamp_dim cols 80)) s
        (clamp_dim-IsDim rows 24 (omega arith), clamp_dim-IsDim cols 80 (omega arith)),
  )

  perform-Bounded :
      (o : Outside) (call : Call) (f : RelayViewState → RelayViewState) (s : Inbound)
      → IsBounded (call, accepted o)
      → Bounded s
      → Bounded (perform c o call f s)
  unfolding perform
  perform-Bounded o call f s b w = ground (arith, push-IsBounded o call s b)

  toggle-Bounded :
      (o : Outside) (p : PaneRef) (hint : Option FullscreenHint) (s : Inbound)
      → Bounded s
      → Bounded (toggle c o p hint s)
  toggle-Bounded o p none s w = w
  toggle-Bounded o p (some h) s w = perform-Bounded o _ _ s tt w

  command-Bounded :
      (cmd : RelayControl) (o : Outside) (s : Inbound)
      → Bounded s
      → Bounded (handle_command c o cmd s)
  unfolding handle_command handle_query_layout
  command-Bounded (switch_tab t) o s w =
      ground (arith, perform-Bounded o (go_to_tab t) (in_tab t) s tt)
  command-Bounded (focus_pane p) o s w =
      ground (arith, perform-Bounded o (focus p) (on_pane p) s tt)
  command-Bounded (switch_space x reply) o s w =
      ground (arith, perform-Bounded o (space x) (in_space x) s tt)
  command-Bounded (toggle_fullscreen p hint) o s w =
      ground (arith, toggle-Bounded o p (resolve_hint hint p o.float_answer) s)
  command-Bounded (query_layout reply) o s w =
      ground (arith, push-IsBounded o query_layout_result s tt, push-IsBounded o fire_query s tt)

  event-Bounded :
      (e : Event) (o : Outside) (s : Inbound) → Bounded s → Bounded (handle_event c e o s)
  unfolding handle_event
  event-Bounded (tick check) o s w = ground arith
  event-Bounded (command cmd) o s w = command-Bounded cmd o s w
  event-Bounded no_senders o s w = w
  event-Bounded (frame kind) o s w = frame-Bounded kind o s w
  event-Bounded stream_error o s w = w
  event-Bounded stream_end o s w = w

-- In all of a relay's life each input that it hands to the session has at most 1 MiB, and each size,
-- the last nudge's too, is between 1 and 65,535 in rows and columns; whatever the client sends, if the
-- size that a relay with the right to write was opened with is such a size.
pub inbound_loop-IsBounded :
    (c : Context) (last : Outside) (es : List (Event × Outside)) (s : Inbound)
    → (c.read_only ≡ false → IsDim c.rows × IsDim c.cols)
    → s.calls ≡ []
    → All IsBounded (inbound_loop c last es s).calls
unfolding teardown drop_guard
inbound_loop-IsBounded c last es s dims none_yet =
    let before : All IsBounded s.calls = subst (All IsBounded) (sym none_yet) tt in
    let w = rounds-inv (Bounded c) c (event-Bounded c) es s before in
    elim (inbound_loop-cases c last es s) [
      | inl (on, same) ↦ subst (Bounded c) (sym same) w
      | inr (off, ended) ↦ subst (Bounded c) (sym ended) (elim (Bool-cases c.read_only) [
        | inl ro ↦ ground (arith, push-IsBounded last send_client_exited (rounds c es s) tt w)
        | inr rw' ↦
            ground
              (arith, push-IsBounded last (send_resize c.rows c.cols) (rounds c es s) (dims rw') w)
      ])
    ]
