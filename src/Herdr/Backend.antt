-- ===== src/Herdr/Backend.antt =====
-- muxrd/src/multiplexer/herdr/backend.rs: the backend that is one herdr daemon, over its control client.
-- What attaches to the wire is not modelled.
pub mod Asks
pub mod Requests
mod Tests
use zellimobile_server.Common.{
  ℕ, String, Bool, true, false, ◌||◌, List, [], ◌∷◌, Option, none, some, ◌==◌, str_eq,
  if◌then◌else◌, map,
}
use zellimobile_server.Rust.Text.{concat}
use zellimobile_server.Mux.{PaneRef, SpaceSnapshot, LayoutSnapshot, Outcome, ok, failed}
use zellimobile_server.Mux.Ops
use zellimobile_server.Mux.Ops.{ActionAck, Op}
use zellimobile_server.Herdr.Api
use zellimobile_server.Herdr.Api.{
  SplitDirection, PaneZoomMode, WorkspaceInfo, PaneInfo, PaneLayoutRect, ApiRequest,
  ApiResponseBody,
}
use zellimobile_server.Herdr.Control
use zellimobile_server.Herdr.Control.{Control, Ran, and_then, ack_ok, ack_err}
use zellimobile_server.Herdr.Layout

abbrev pub herdr_session : String
herdr_session = "herdr"

abbrev pub immutable_msg : String
immutable_msg =
    "the herdr session cannot be killed or renamed — manage workspaces via CloseSpace/RenameSpace"

-- `DEFAULT_SESSION_SIZE`, in rows and columns.
abbrev pub default_session_size : ℕ × ℕ
default_session_size = (24, 80)

abbrev pub unsupported_ack : String → ActionAck
unsupported_ack op = ack_err (concat op " is unsupported on the herdr backend")

abbrev pub or_default : ℕ → ℕ → ℕ
or_default default n = if n == 0 then default else n

unfoldable pub session_size_from_area : PaneLayoutRect → ℕ × ℕ
session_size_from_area area = (or_default 24 area.height, or_default 80 area.width)

abbrev pub space_from_workspace : WorkspaceInfo → SpaceSnapshot
space_from_workspace w = record { id = w.workspace_id; name = w.label; active = w.focused }

unfoldable pub find_focused_workspace : List WorkspaceInfo → Option WorkspaceInfo
find_focused_workspace [] = none
find_focused_workspace (w ∷ ws) = if w.focused then some w else find_focused_workspace ws

abbrev pub first_of {ℓ} : {A : Type ℓ} → List A → Option A
first_of [] = none
first_of (a ∷ _) = some a

abbrev pub or_first {ℓ} : {A : Type ℓ} → Option A → Option A → Option A
or_first (some a) b = some a
or_first none b = b

unfoldable pub pick_active_or_first : List WorkspaceInfo → Option WorkspaceInfo
unfolding find_focused_workspace
pick_active_or_first ws = or_first (find_focused_workspace ws) (first_of ws)

-- `filter(|w| w.label == session)`
unfoldable pub labelled_as : String → List WorkspaceInfo → List WorkspaceInfo
labelled_as session [] = []
labelled_as session (w ∷ ws) =
    let rest = labelled_as session ws in if str_eq w.label session then w ∷ rest else rest

abbrev pub only_workspace : String → List WorkspaceInfo → Outcome String
only_workspace session [] = failed (concat "herdr: no workspace with label '" (concat session "'"))
only_workspace session (w ∷ []) = ok w.workspace_id
only_workspace session (_ ∷ _ ∷ _) =
    failed
      (concat "herdr: ambiguous session: multiple herdr workspaces labeled '" (concat session "'"))

abbrev pub picked : Option WorkspaceInfo → Outcome String
picked none = failed "herdr: daemon has no workspaces to attach"
picked (some w) = ok w.workspace_id

unfoldable pub is_labelled : String → List WorkspaceInfo → Bool
is_labelled name [] = false
is_labelled name (w ∷ ws) = str_eq w.label name || is_labelled name ws

unfoldable pub find_focused_pane : List PaneInfo → Option PaneInfo
find_focused_pane [] = none
find_focused_pane (p ∷ ps) = if p.focused then some p else find_focused_pane ps

module _ (daemon : ℕ → ApiRequest → Outcome ApiResponseBody) where
  unfoldable pub workspace_id_for : String → Control → Ran String
  unfolding Control.list_workspaces labelled_as
  workspace_id_for session s =
      and_then (Control.list_workspaces daemon s)
        (λ s' ws. (s', only_workspace session (labelled_as session ws)))

  unfoldable pub active_or_first_workspace_id : Control → Ran String
  unfolding Control.list_workspaces pick_active_or_first
  active_or_first_workspace_id s =
      and_then (Control.list_workspaces daemon s) (λ s' ws. (s', picked (pick_active_or_first ws)))

  unfoldable pub resolve_workspace : String → Control → Ran String
  unfolding workspace_id_for active_or_first_workspace_id
  resolve_workspace session s =
      if str_eq session herdr_session
      then active_or_first_workspace_id s
      else workspace_id_for session s

  -- Names, and ages in seconds.
  unfoldable pub list_sessions : Control → Ran (List (String × ℕ))
  unfolding Control.list_workspaces
  list_sessions s =
      and_then (Control.list_workspaces daemon s) (λ s' _. (s', ok ((herdr_session, 0) ∷ [])))

  unfoldable pub create_session : String → Control → Ran ActionAck
  unfolding Control.list_workspaces is_labelled Control.create_workspace
  create_session name s = and_then (Control.list_workspaces daemon s) (λ s' ws.
      if is_labelled name ws
      then (s', ok (ack_err (concat "session '" (concat name "' already exists"))))
      else Control.create_workspace daemon (some name) s')

  abbrev pub killed : Control → ActionAck → Ran (Unit {0})
  killed s ack = if ack.ok then (s, ok tt) else (
    s,
    failed (
        concat "herdr workspace.close failed: "
          (elim ack.error [ some e ↦ e | none ↦ "unknown error" ])),
  )

  unfoldable pub kill_session : String → Control → Ran (Unit {0})
  unfolding workspace_id_for Control.close_workspace
  kill_session session s =
      if str_eq session herdr_session
      then (s, failed immutable_msg)
      else and_then (workspace_id_for session s)
          (λ s' w. and_then (Control.close_workspace daemon w s') killed)

  unfoldable pub rename_session : String → String → Control → Ran ActionAck
  unfolding workspace_id_for Control.rename_workspace
  rename_session session new_name s =
      if str_eq session herdr_session
      then (s, ok (ack_err immutable_msg))
      else and_then (workspace_id_for session s)
          (λ s' w. Control.rename_workspace daemon w new_name s')

  unfoldable pub list_spaces : Control → Ran (List SpaceSnapshot)
  unfolding Control.list_workspaces
  list_spaces s =
      and_then (Control.list_workspaces daemon s) (λ s' ws. (s', ok (map space_from_workspace ws)))

  unfoldable pub new_pane : String → Control → Ran ActionAck
  unfolding resolve_workspace Control.split_pane
  new_pane session s =
      and_then (resolve_workspace session s)
        (λ s' w. Control.split_pane daemon (some w) none SplitDirection.right true s')

  unfoldable pub new_tab : String → Option String → Control → Ran ActionAck
  unfolding resolve_workspace Control.create_tab
  new_tab session name s =
      and_then (resolve_workspace session s) (λ s' w. Control.create_tab daemon (some w) name s')

  -- `query_layout` of the backend.
  unfoldable pub query_layout : String → Control → Ran LayoutSnapshot
  unfolding resolve_workspace Layout.query_layout
  query_layout session s =
      and_then (resolve_workspace session s) (λ s' w. Layout.query_layout daemon w s')

  abbrev pub size_by : Option PaneInfo → Control → Ran (ℕ × ℕ)
  unfolding session_size_from_area
  size_by none s = (s, ok default_session_size)
  size_by (some p) s =
      and_then (Control.pane_layout daemon (some p.pane_id) s)
        (λ s' l. (s', ok (session_size_from_area l.area)))

  unfoldable pub query_session_size : String → Control → Ran (ℕ × ℕ)
  unfolding resolve_workspace Control.list_panes find_focused_pane Control.pane_layout
      session_size_from_area
  query_session_size session s = and_then (resolve_workspace session s) (λ s1 w.
      and_then (Control.list_panes daemon w s1)
        (λ s2 ps. size_by (or_first (find_focused_pane ps) (first_of ps)) s2))

  -- The result of a kill and of a listing, as the other operations' acknowledgement.
  abbrev pub forget {ℓ} : {A : Type ℓ} → Control → A → Ran ActionAck
  forget s _ = (s, ok ack_ok)

  -- The operations of `MuxBackend`, as one function.
  unfoldable pub perform : Op → Control → Ran ActionAck
  unfolding new_tab new_pane create_session rename_session kill_session list_spaces
  perform (Ops.new_tab session name) s = new_tab session name s
  perform (Ops.close_tab session id) s = Control.close_tab daemon id s
  perform (Ops.go_to_tab session id) s = Control.focus_tab daemon id s
  perform (Ops.rename_tab session id name) s = Control.rename_tab daemon id name s
  perform (Ops.write_to_pane session pane bytes) s = (s, ok (unsupported_ack "write_to_pane"))
  perform (Ops.focus_pane session pane) s = (s, ok ack_ok)
  perform (Ops.close_pane session pane) s = Control.close_pane daemon pane.id s
  perform (Ops.new_pane session floating name) s = new_pane session s
  perform (Ops.rename_pane session pane name) s = Control.rename_pane daemon pane.id (some name) s
  perform (Ops.resize_pane session pane kind dir) s = (s, ok (unsupported_ack "resize_pane"))
  perform (Ops.toggle_pane_floating session pane) s = (s, ok ack_ok)
  perform (Ops.toggle_pane_fullscreen session pane) s =
      Control.zoom_pane daemon (some pane.id) PaneZoomMode.toggle s
  perform (Ops.scroll_pane session pane dir) s = (s, ok (unsupported_ack "scroll_pane"))
  perform (Ops.list_spaces session) s = and_then (list_spaces s) forget
  perform (Ops.create_space label) s = Control.create_workspace daemon label s
  perform (Ops.rename_space id label) s = Control.rename_workspace daemon id label s
  perform (Ops.close_space id) s = Control.close_workspace daemon id s
  perform (Ops.rename_session session name) s = rename_session session name s
  perform (Ops.kill_session session) s = and_then (kill_session session s) forget
  perform (Ops.create_session name layout) s = create_session name s
