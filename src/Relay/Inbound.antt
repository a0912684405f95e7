-- ===== src/Relay/Inbound.antt =====
-- muxrd/src/relay/inbound.rs and the guard of reader.rs: the task that reads the client and drives
-- the session. One round of its `select!` is an event with what is outside the task: whether the
-- session takes the call, what a query finds, and whether the reader thread is there.
pub mod Loop
pub mod Rules
pub mod ReadOnly
pub mod Bounds
pub mod Replay
pub mod Tracked
pub mod View
pub mod Replies
use zellimobile_server.Common.{
  ℕ, ◌+◌, ◌%◌, ◌^◌, String, Bool, true, false, ◌&&◌, not, List, [], ◌∷◌, ◌++◌, Option, none, some,
  length, ltb, leb, ◌==◌, if◌then◌else◌,
}
use zellimobile_server.Common.Map.{lookup, insert, remove, string_key}
use zellimobile_server.Rust.Text.{concat}
use zellimobile_server.Rust.Utf8.{is_utf8}
use zellimobile_server.Mux.{PaneRef, same_pane, FullscreenHint, LayoutSnapshot, Outcome, ok, failed}
use zellimobile_server.Relay.Types.{
  FloatingHint, RelayControl, switch_tab, focus_pane, switch_space, toggle_fullscreen, query_layout,
  RelayViewState, ControlEntry, ViewStateEntry, InFlightQuery, max_input_frame_bytes,
}

-- The calls of the session's sender (`MuxSender`) that the relay makes.
pub data Call : Type 0 where
  go_to_tab : (tab_id : ℕ) → Call
  focus : PaneRef → Call
  space : (workspace_id : String) → Call
  fullscreen : PaneRef → FullscreenHint → Call
  send_input_chars : List ℕ → Call
  send_input_bytes : List ℕ → Call
  send_resize : (rows cols : ℕ) → Call
  fire_query : Call
  query_layout_result : Call
  send_client_exited : Call

-- What the backend says of a pane, if it says so in time.
pub data FloatAnswer : Type 0 where
  elapsed : FloatAnswer
  panicked : FloatAnswer
  errored : FloatAnswer
  floats : (is_floating visible : Bool) (focused : Option PaneRef) → FloatAnswer

pub record Outside : Type 0 where
  pub refusal : Option String
  pub float_answer : FloatAnswer
  pub reader_alive : Bool
  pub layout_result : Option (Outcome LayoutSnapshot)

pub data TokenCheck : Type 0 where
  checked : (valid : Bool) → TokenCheck
  db_error : TokenCheck
  check_panicked : TokenCheck

-- `client_frame::Kind`
pub data FrameKind : Type 0 where
  input : List ℕ → FrameKind
  resize : (rows cols : ℕ) → FrameKind
  attach : (session : String) (rows cols : ℕ) → FrameKind

pub data Event : Type 0 where
  tick : TokenCheck → Event
  command : RelayControl → Event
  no_senders : Event
  frame : Option FrameKind → Event
  stream_error : Event
  stream_end : Event

-- What is sent on a reply's channel.
pub data Reply : Type 0 where
  ack : ℕ → Outcome (Unit {0}) → Reply
  layout : ℕ → Outcome LayoutSnapshot → Reply

-- What does not change while the relay lives; `rows` and `cols` are the guard's.
pub record Context : Type 0 where
  pub connection_id : String
  pub read_only : Bool
  pub token : Option String
  pub has_sync_layout : Bool
  pub rows : ℕ
  pub cols : ℕ

-- `calls` lists the sender's calls, with whether each was taken.
pub record Inbound : Type 0 where
  pub calls : List (Call × Bool)
  pub next_query_seq : ℕ
  pub handed : List InFlightQuery
  pub replies : List Reply
  pub view_state : List (String × ViewStateEntry)
  pub control : List (String × ControlEntry)
  pub stop : Bool
  pub running : Bool

-- `revalidate_token`
unfoldable pub revalidate_token : Option String → TokenCheck → Bool
revalidate_token none check = false
revalidate_token (some token) (checked valid) = valid
revalidate_token (some token) db_error = false
revalidate_token (some token) check_panicked = false

abbrev pub accepted : Outside → Bool
accepted o = elim o.refusal [ none ↦ true | some _ ↦ false ]

abbrev pub outcome : Outside → Outcome (Unit {0})
outcome o = elim o.refusal [ none ↦ ok tt | some e ↦ failed e ]

abbrev pub push_call : Outside → Call → Inbound → Inbound
push_call o c s = record s { calls = s.calls ++ (c, accepted o) ∷ [] }

abbrev pub push_reply : Reply → Inbound → Inbound
push_reply r s = record s { replies = s.replies ++ r ∷ [] }

-- `if let Some(mut entry) = view_state.get_mut(&connection_id)`
unfoldable pub update_view :
    String
    → (RelayViewState → RelayViewState)
    → List (String × ViewStateEntry)
    → List (String × ViewStateEntry)
update_view id f m = elim (lookup id m) [
  | none ↦ m
  | some e ↦ insert id (record e { state = f e.state }) m
]

-- A call of the sender, and what the relay's own view state becomes if the session takes it.
unfoldable pub perform :
    Context → Outside → Call → (RelayViewState → RelayViewState) → Inbound → Inbound
unfolding update_view
perform c o call f s =
    let s' = push_call o call s in
    if accepted o then record s' { view_state = update_view c.connection_id f s.view_state } else s'

-- The view states after a tab, a pane, a space and a toggle.
abbrev pub in_tab : ℕ → RelayViewState → RelayViewState
in_tab t v = record v { active_tab = some t; focused_pane = none }

abbrev pub on_pane : PaneRef → RelayViewState → RelayViewState
on_pane p v = record v { focused_pane = some p }

abbrev pub in_space : String → RelayViewState → RelayViewState
in_space w v = record v { active_tab = none; focused_pane = none; current_space = some w }

abbrev pub is_hide : FullscreenHint → Bool
is_hide h = h.is_floating && h.floating_visible && h.is_focused_floating

abbrev pub toggled : PaneRef → FullscreenHint → RelayViewState → RelayViewState
toggled p h v = record v { focused_pane = if is_hide h then none else some p }

abbrev pub same_focus : Option PaneRef → PaneRef → Bool
same_focus none p = false
same_focus (some q) p = same_pane q p

-- The floating context of a toggle: the client's hint, or a query that has to answer in time.
unfoldable pub resolve_hint : Option FloatingHint → PaneRef → FloatAnswer → Option FullscreenHint
resolve_hint (some h) p answer = some (record {
  is_floating = h.target_is_floating;
  floating_visible = h.floating_visible;
  is_focused_floating = h.target_is_focused_floating;
})
resolve_hint none p elapsed = none
resolve_hint none p (floats f v focused) =
    some
      (record { is_floating = f; floating_visible = v; is_focused_floating = same_focus focused p })
resolve_hint none p _ =
    some (record { is_floating = false; floating_visible = false; is_focused_floating = false })

abbrev pub toggle : Context → Outside → PaneRef → Option FullscreenHint → Inbound → Inbound
toggle c o p none s = s
toggle c o p (some h) s = perform c o (fullscreen p h) (toggled p h) s

-- `handle_query_layout`, for a blocking query that returns a layout or an error. (If it panicked, the
-- source would drop the reply's channel.)
unfoldable pub handle_query_layout : Context → Outside → ℕ → ℕ → Inbound → Inbound
handle_query_layout c o reply seq s =
    if c.has_sync_layout
    then push_reply
        (layout reply (elim o.layout_result [
          | none ↦ failed "query_layout_result returned None for a sync-layout backend"
          | some r ↦ r
        ]))
        (push_call o query_layout_result s)
    else if o.reader_alive
    then push_call o fire_query
        (record s { handed = s.handed ++ record { seq = seq; reply = reply; tabs = none } ∷ [] })
    else push_reply (layout reply (failed "render thread not available")) s
