-- ===== src/Grpc/Layout.antt =====
-- muxrd/src/grpc/layout.rs: the layout that a client is shown, asked of a relay or of the backend, with
-- the caller's own view put over it. The message's tabs and panes have the snapshot's fields.
pub mod Own
use zellimobile_server.Common.{
  ℕ, ◌%◌, ◌^◌, String, Bool, true, false, ◌&&◌, not, List, [], ◌∷◌, Option, none, some, ◌==◌,
  str_eq, if◌then◌else◌, map,
}
use zellimobile_server.Common.Map.{lookup, string_key}
use zellimobile_server.Rust.Text.{is_empty, concat}
use zellimobile_server.Mux.{
  PaneRef, same_bool, PaneSnapshot, TabSnapshot, LayoutSnapshot, Outcome, ok, failed,
}
use zellimobile_server.Relay.Types
use zellimobile_server.Relay.Types.{RelayControl, RelayViewState, ControlEntry, ViewStateEntry}
use zellimobile_server.Relay.Attach.{Joined, joined, panicked}
use zellimobile_server.Grpc.Control.{Checked, pass, reject, ◌>>=◌, internal, exact_relay}

-- How the wait for the relay's layout ends.
pub data LayoutWait : Type 0 where
  replied : Outcome LayoutSnapshot → LayoutWait
  cancelled : LayoutWait
  elapsed : LayoutWait

-- What is outside the handler. `waited` is the reply of the relay of a connection, where it is the one
-- that is asked: a herdr relay answers for the space that its own client is in.
pub record LayoutOutside : Type 0 where
  pub control : List (String × ControlEntry)
  pub view_state : List (String × ViewStateEntry)
  pub alive : ℕ → Bool
  pub waited : String → LayoutWait
  pub fresh_reply : ℕ
  pub ephemeral : Joined (Outcome LayoutSnapshot)

-- `should_apply_view_state_override`
unfoldable pub should_apply_view_state_override : Bool → String → String → Bool
should_apply_view_state_override via_relay request_id relay_id =
    via_relay && not (is_empty request_id) && str_eq relay_id request_id

-- `pane_is_client_visible`
abbrev pub pane_is_client_visible : Bool → Bool
pane_is_client_visible is_plugin = not is_plugin

-- The first relay of a session, with its id.
unfoldable pub session_relay :
    List (String × ControlEntry) → String → Option (String × ControlEntry)
session_relay [] session = none
session_relay ((id, e) ∷ rest) session =
    if str_eq e.session session then some (id, e) else session_relay rest session

abbrev pub own_or :
    String → Option ControlEntry → Option (String × ControlEntry) → Option (String × ControlEntry)
own_or id none other = other
own_or id (some e) other = some (id, e)

-- The relay that is asked: the caller's own, or any of the session.
unfoldable pub layout_relay :
    List (String × ControlEntry) → String → String → Option (String × ControlEntry)
unfolding exact_relay session_relay
layout_relay control session id =
    own_or id (exact_relay control session id) (session_relay control session)

-- A snapshot, whether a relay gave it, and the id of that relay.
pub record Source : Type 0 where
  pub snapshot : LayoutSnapshot
  pub via_relay : Bool
  pub relay_conn_id : String

-- `backend_query_layout`
unfoldable pub backend_query_layout : Joined (Outcome LayoutSnapshot) → Checked Source
backend_query_layout (joined (ok s)) =
    pass (record { snapshot = s; via_relay = false; relay_conn_id = "" })
backend_query_layout (joined (failed e)) = reject (internal (concat "GetLayout query failed: " e))
backend_query_layout (panicked e) = reject (internal (concat "GetLayout query task panicked: " e))

abbrev pub relay_answer : String → LayoutWait → Joined (Outcome LayoutSnapshot) → Checked Source
relay_answer id (replied (ok s)) other =
    pass (record { snapshot = s; via_relay = true; relay_conn_id = id })
relay_answer id (replied (failed _)) other = backend_query_layout other
relay_answer id cancelled other = backend_query_layout other
relay_answer id elapsed other = backend_query_layout other

-- What is sent, and where the snapshot comes from.
unfoldable pub layout_source :
    LayoutOutside → Option (String × ControlEntry) → List (ℕ × RelayControl) × Checked Source
unfolding backend_query_layout
layout_source o none = ([], backend_query_layout o.ephemeral)
layout_source o (some (id, e)) =
    if o.alive e.sender
    then (
      (e.sender, Types.query_layout o.fresh_reply) ∷ [],
      relay_answer id (o.waited id) o.ephemeral,
    )
    else ([], backend_query_layout o.ephemeral)

-- `is_some_and` and the like of the relay's view.
abbrev pub is_active_tab : Option ℕ → ℕ → Bool → Bool
is_active_tab none tab_id otherwise = otherwise
is_active_tab (some at) tab_id otherwise = tab_id == at

abbrev pub is_focus : Option PaneRef → PaneSnapshot → Bool
is_focus none p = p.is_focused
is_focus (some fp) p = same_bool fp.is_plugin p.is_plugin && fp.id == p.id

abbrev pub active_of : Option RelayViewState → Option ℕ
active_of none = none
active_of (some v) = v.active_tab

abbrev pub focus_of : Option RelayViewState → Option PaneRef
focus_of none = none
focus_of (some v) = v.focused_pane

-- The panes of a tab that the client is shown.
unfoldable pub pane_msgs : Bool → Option PaneRef → List PaneSnapshot → List PaneSnapshot
pane_msgs in_active focus [] = []
pane_msgs in_active focus (p ∷ ps) =
    let rest = pane_msgs in_active focus ps in
    if pane_is_client_visible p.is_plugin
    then record p { is_focused = if in_active then is_focus focus p else p.is_focused } ∷ rest
    else rest

-- A tab as the client is shown it; its id is cast to a `u32`.
unfoldable pub tab_msg : Option RelayViewState → TabSnapshot → TabSnapshot
unfolding pane_msgs
tab_msg vs t = record t {
  tab_id = t.tab_id % 2 ^ 32;
  active = is_active_tab (active_of vs) t.tab_id t.active;
  panes = pane_msgs (is_active_tab (active_of vs) t.tab_id false) (focus_of vs) t.panes;
}

abbrev pub state_of : Option ViewStateEntry → Option RelayViewState
state_of none = none
state_of (some e) = some e.state

-- The view that is put over the snapshot.
unfoldable pub override_view :
    List (String × ViewStateEntry) → String → Source → Option RelayViewState
unfolding should_apply_view_state_override
override_view views id source =
    if should_apply_view_state_override source.via_relay id source.relay_conn_id
    then state_of (lookup source.relay_conn_id views)
    else none

abbrev pub layout_of :
    List (String × ViewStateEntry) → String → Checked Source → Checked (List TabSnapshot)
layout_of views id (reject e) = reject e
layout_of views id (pass source) =
    pass (map (tab_msg (override_view views id source)) source.snapshot.tabs)

-- `get_layout_impl` once the session is resolved: what is sent to a relay, and the answer.
unfoldable pub get_layout :
    LayoutOutside → String → String → List (ℕ × RelayControl) × Checked (List TabSnapshot)
unfolding layout_relay layout_source override_view tab_msg
get_layout o session id =
    let (sent, source) = layout_source o (layout_relay o.control session id) in
    (sent, layout_of o.view_state id source)
