-- ===== src/Relay/Inbound/Loop.antt =====
-- muxrd/src/relay/inbound.rs: the arms of the task's loop, the loop, and what happens at its end.
use zellimobile_server.Common.{
  ℕ, ◌+◌, ◌%◌, ◌^◌, true, false, List, [], ◌∷◌, Option, none, some, length, ltb, leb, ◌==◌,
  if◌then◌else◌,
}
use zellimobile_server.Common.Map.{remove, string_key}
use zellimobile_server.Rust.Utf8.{is_utf8}
use zellimobile_server.Mux.{failed}
use zellimobile_server.Relay.Types.{
  RelayControl, switch_tab, focus_pane, switch_space, toggle_fullscreen, query_layout,
  max_input_frame_bytes,
}
use zellimobile_server.Relay.Inbound.{
  go_to_tab, focus, space, send_input_chars, send_input_bytes, send_resize, send_client_exited,
  Outside, FrameKind, input, resize, attach, Event, tick, command, no_senders, frame, stream_error,
  stream_end, ack, Context, Inbound, revalidate_token, outcome, push_call, push_reply, perform,
  in_tab, on_pane, in_space, resolve_hint, toggle, handle_query_layout,
}

-- `clamp_dim` of relay/mod.rs, from a `u32` to a `u16`.
unfoldable pub clamp_dim : ℕ → ℕ → ℕ
clamp_dim v default = if v == 0 then default else if leb v 65535 then v else 65535

-- The arms for commands.
unfoldable pub handle_command : Context → Outside → RelayControl → Inbound → Inbound
unfolding perform resolve_hint handle_query_layout
handle_command c o (switch_tab t) s =
    if c.read_only then s else perform c o (go_to_tab t) (in_tab t) s
handle_command c o (focus_pane p) s = if c.read_only then s else perform c o (focus p) (on_pane p) s
handle_command c o (switch_space w reply) s =
    if c.read_only
    then push_reply (ack reply (failed "read-only token: SwitchSpace is not allowed")) s
    else push_reply (ack reply (outcome o)) (perform c o (space w) (in_space w) s)
handle_command c o (toggle_fullscreen p hint) s =
    if c.read_only then s else toggle c o p (resolve_hint hint p o.float_answer) s
handle_command c o (query_layout reply) s =
    handle_query_layout c o reply s.next_query_seq
      (record s { next_query_seq = (s.next_query_seq + 1) % 2 ^ 64 })

-- `forward_input`
unfoldable pub forward_input : Outside → List ℕ → Inbound → Inbound
forward_input o bytes s =
    push_call o (if is_utf8 bytes then send_input_chars bytes else send_input_bytes bytes) s

-- The arms for the client's frames.
unfoldable pub handle_frame : Context → Outside → Option FrameKind → Inbound → Inbound
unfolding forward_input clamp_dim
handle_frame c o (some (input bytes)) s =
    if c.read_only
    then s
    else if ltb max_input_frame_bytes (length bytes)
    then s
    else forward_input o bytes s
handle_frame c o (some (resize rows cols)) s =
    if c.read_only then s else push_call o (send_resize (clamp_dim rows 24) (clamp_dim cols 80)) s
handle_frame c o (some (attach _ _ _)) s = s
handle_frame c o none s = s

-- One round of the `select!`.
unfoldable pub handle_event : Context → Event → Outside → Inbound → Inbound
unfolding handle_command handle_frame revalidate_token
handle_event c (tick check) o s =
    if revalidate_token c.token check then s else record s { running = false }
handle_event c (command cmd) o s = handle_command c o cmd s
handle_event c no_senders o s = s
handle_event c (frame kind) o s = handle_frame c o kind s
handle_event c stream_error o s = record s { running = false }
handle_event c stream_end o s = record s { running = false }

unfoldable pub rounds : Context → List (Event × Outside) → Inbound → Inbound
unfolding handle_event
rounds c [] s = s
rounds c ((e, o) ∷ es) s =
    let rest = rounds c es (handle_event c e o s) in if s.running then rest else s

-- `ShutdownGuard::drop`: the stop flag, and a nudge that wakes the reader; whether the nudge is taken
-- is ignored.
unfoldable pub drop_guard : Context → Outside → Inbound → Inbound
drop_guard c o s =
    push_call o (if c.read_only then send_client_exited else send_resize c.rows c.cols)
      (record s { stop = true })

-- The end of `inbound_loop`.
unfoldable pub teardown : Context → Outside → Inbound → Inbound
unfolding drop_guard
teardown c o s = drop_guard c o (record s {
  control = remove c.connection_id s.control;
  view_state = remove c.connection_id s.view_state;
})

-- `inbound_loop`; without a `break` among the events it is still in its loop.
unfoldable pub inbound_loop : Context → Outside → List (Event × Outside) → Inbound → Inbound
unfolding rounds teardown
inbound_loop c last es s = let s' = rounds c es s in if s'.running then s' else teardown c last s'
