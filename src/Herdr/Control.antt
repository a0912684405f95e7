-- ===== src/Herdr/Control.antt =====
-- muxrd/src/multiplexer/herdr/control.rs: the client of herdr's JSON socket, with the two registries. The
-- daemon is a parameter: what comes back for a request, given how many were sent before.
use zellimobile_server.Common.{
  ℕ, ◌+◌, ◌%◌, ◌^◌, String, Bool, true, false, List, [], ◌∷◌, ◌++◌, Option, none, some, length,
}
use zellimobile_server.Common.Map.{string_key}
use zellimobile_server.Rust.Text.{concat}
use zellimobile_server.Rust.Decimal.{u64_text}
use zellimobile_server.Mux.{Outcome, ok, failed}
use zellimobile_server.Mux.Ops.{ActionAck}
use zellimobile_server.Herdr.Registry.{PaneInner, herdr_pane_id, TabInner, herdr_tab_id}
use zellimobile_server.Herdr.Api
use zellimobile_server.Herdr.Api.{
  SplitDirection, PaneDirection, PaneZoomMode, WorkspaceInfo, TabInfo, PaneInfo, PaneLayoutPane,
  PaneLayoutSnapshot, ApiRequest, ApiResult, ApiResponseBody,
}

-- `sent` lists what was sent, and `next_req_id` numbers it.
pub record Control : Type 0 where
  pub panes : PaneInner
  pub tabs : TabInner
  pub next_req_id : ℕ
  pub sent : List ApiRequest

-- A call that may fail, and what goes on where it did not.
abbrev pub Ran {ℓ} : Type ℓ → Type ℓ
Ran A = Control × Outcome A

abbrev pub and_then {ℓ κ} : {A : Type ℓ} {B : Type κ} → Ran A → (Control → A → Ran B) → Ran B
and_then (s, ok a) k = k s a
and_then (s, failed e) k = (s, failed e)

abbrev pub ack_ok : ActionAck
ack_ok = record { ok = true; error = none; info = none }

abbrev pub ack_err : String → ActionAck
ack_err message = record { ok = false; error = some message; info = none }

abbrev pub unknown_pane : ℕ → ActionAck
unknown_pane id = ack_err (concat "unknown herdr pane id " (u64_text id))

abbrev pub unknown_tab : ℕ → ActionAck
unknown_tab id = ack_err (concat "unknown herdr tab id " (u64_text id))

-- The message also prints the result.
abbrev pub unexpected {ℓ} : {A : Type ℓ} → String → Outcome A
unexpected method = failed (concat "herdr " (concat method " returned unexpected result"))

module _ (daemon : ℕ → ApiRequest → Outcome ApiResponseBody) where
  -- `call_raw`
  unfoldable pub call_raw : ApiRequest → Control → Ran ApiResponseBody
  call_raw req s = (
    record s { next_req_id = (s.next_req_id + 1) % 2 ^ 64; sent = s.sent ++ req ∷ [] },
    daemon (length s.sent) req,
  )

  abbrev pub typed_result : String → Control → ApiResponseBody → Ran ApiResult
  typed_result method s (ApiResponseBody.ok result) = (s, result)
  typed_result method s (ApiResponseBody.err code message) = (
    s,
    failed (concat "herdr " (concat method (concat " error " (concat code (concat ": " message))))),
  )

  -- `call_typed`
  unfoldable pub call_typed : String → ApiRequest → Control → Ran ApiResult
  unfolding call_raw
  call_typed method req s = and_then (call_raw req s) (typed_result method)

  abbrev pub action_result : Control → ApiResponseBody → Ran ActionAck
  action_result s (ApiResponseBody.ok _) = (s, ok ack_ok)
  action_result s (ApiResponseBody.err code message) =
      (s, ok (ack_err (concat code (concat ": " message))))

  -- `call_action`
  unfoldable pub call_action : ApiRequest → Control → Ran ActionAck
  unfolding call_raw
  call_action req s = and_then (call_raw req s) action_result

  abbrev pub as_workspaces : Control → ApiResult → Ran (List WorkspaceInfo)
  as_workspaces s (Api.workspaces ws) = (s, ok ws)
  as_workspaces s _ = (s, unexpected "workspace.list")

  abbrev pub as_tabs : Control → ApiResult → Ran (List TabInfo)
  as_tabs s (Api.tabs ts) = (s, ok ts)
  as_tabs s _ = (s, unexpected "tab.list")

  abbrev pub as_panes : Control → ApiResult → Ran (List PaneInfo)
  as_panes s (Api.panes ps) = (s, ok ps)
  as_panes s _ = (s, unexpected "pane.list")

  abbrev pub as_layout : Control → ApiResult → Ran PaneLayoutSnapshot
  as_layout s (Api.layout l) = (s, ok l)
  as_layout s _ = (s, unexpected "pane.layout")

  unfoldable pub list_workspaces : Control → Ran (List WorkspaceInfo)
  unfolding call_typed
  list_workspaces s = and_then (call_typed "workspace.list" Api.workspace_list s) as_workspaces

  unfoldable pub list_tabs : String → Control → Ran (List TabInfo)
  unfolding call_typed
  list_tabs workspace s = and_then (call_typed "tab.list" (Api.tab_list workspace) s) as_tabs

  unfoldable pub list_panes : String → Control → Ran (List PaneInfo)
  unfolding call_typed
  list_panes workspace s = and_then (call_typed "pane.list" (Api.pane_list workspace) s) as_panes

  unfoldable pub pane_layout : Option String → Control → Ran PaneLayoutSnapshot
  unfolding call_typed
  pane_layout pane s = and_then (call_typed "pane.layout" (Api.pane_layout pane) s) as_layout

  -- An action on a tab or a pane that the registry knows.
  abbrev pub on_known : Option String → ActionAck → (String → ApiRequest) → Control → Ran ActionAck
  on_known none unknown req s = (s, ok unknown)
  on_known (some name) unknown req s = call_action (req name) s

  unfoldable pub focus_tab : ℕ → Control → Ran ActionAck
  unfolding call_action
  focus_tab id s = on_known (herdr_tab_id s.tabs id) (unknown_tab id) Api.tab_focus s

  unfoldable pub close_tab : ℕ → Control → Ran ActionAck
  unfolding call_action
  close_tab id s = on_known (herdr_tab_id s.tabs id) (unknown_tab id) Api.tab_close s

  unfoldable pub rename_tab : ℕ → String → Control → Ran ActionAck
  unfolding call_action
  rename_tab id label s =
      on_known (herdr_tab_id s.tabs id) (unknown_tab id) (λ t. Api.tab_rename t label) s

  unfoldable pub close_pane : ℕ → Control → Ran ActionAck
  unfolding call_action
  close_pane id s = on_known (herdr_pane_id s.panes id) (unknown_pane id) Api.pane_close s

  unfoldable pub rename_pane : ℕ → Option String → Control → Ran ActionAck
  unfolding call_action
  rename_pane id label s =
      on_known (herdr_pane_id s.panes id) (unknown_pane id) (λ p. Api.pane_rename p label) s

  -- A pane that may be left out; `resolve_opt_pane`.
  abbrev pub on_opt_pane : Option ℕ → (Option String → ApiRequest) → Control → Ran ActionAck
  on_opt_pane none req s = call_action (req none) s
  on_opt_pane (some id) req s =
      on_known (herdr_pane_id s.panes id) (unknown_pane id) (λ p. req (some p)) s

  unfoldable pub split_pane :
      Option String → Option ℕ → SplitDirection → Bool → Control → Ran ActionAck
  unfolding call_action
  split_pane workspace target direction focus s =
      on_opt_pane target (λ p. Api.pane_split workspace p direction focus) s

  unfoldable pub focus_pane_direction : Option ℕ → PaneDirection → Control → Ran ActionAck
  unfolding call_action
  focus_pane_direction pane direction s =
      on_opt_pane pane (λ p. Api.pane_focus_direction p direction) s

  unfoldable pub zoom_pane : Option ℕ → PaneZoomMode → Control → Ran ActionAck
  unfolding call_action
  zoom_pane pane mode s = on_opt_pane pane (λ p. Api.pane_zoom p mode) s

  unfoldable pub create_workspace : Option String → Control → Ran ActionAck
  unfolding call_action
  create_workspace label s = call_action (Api.workspace_create true label) s

  unfoldable pub rename_workspace : String → String → Control → Ran ActionAck
  unfolding call_action
  rename_workspace workspace label s = call_action (Api.workspace_rename workspace label) s

  unfoldable pub close_workspace : String → Control → Ran ActionAck
  unfolding call_action
  close_workspace workspace s = call_action (Api.workspace_close workspace) s

  unfoldable pub create_tab : Option String → Option String → Control → Ran ActionAck
  unfolding call_action
  create_tab workspace label s = call_action (Api.tab_create workspace true label) s
