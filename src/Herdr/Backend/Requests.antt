-- ===== src/Herdr/Backend/Requests.antt =====
-- What an operation of the herdr backend (muxrd/src/multiplexer/herdr/backend.rs and control.rs) asks of
-- the daemon.
use zellimobile_server.Common.{ℕ, true, none, some, str_eq, refl, sym, subst, inl, inr, Bool-cases}
use zellimobile_server.Mux.{Outcome}
use zellimobile_server.Mux.Ops
use zellimobile_server.Mux.Ops.{ActionAck, Op}
use zellimobile_server.Herdr.Registry.{herdr_pane_id, herdr_tab_id}
use zellimobile_server.Herdr.Api
use zellimobile_server.Herdr.Api.{
  SplitDirection, PaneZoomMode, WorkspaceInfo, ApiRequest, ApiResult, ApiResponseBody,
}
use zellimobile_server.Herdr.Control
use zellimobile_server.Herdr.Control.{
  Control, Ran, and_then, ack_ok, ack_err, action_result, typed_result, as_workspaces, call_raw,
  call_action, call_typed, list_workspaces, on_known, unknown_tab, unknown_pane,
}
use zellimobile_server.Herdr.Backend
use zellimobile_server.Herdr.Backend.{
  herdr_session, only_workspace, labelled_as, picked, pick_active_or_first, is_labelled, killed,
  perform, resolve_workspace, workspace_id_for, active_or_first_workspace_id,
}
use zellimobile_server.Herdr.Backend.Asks.{
  IsFor, Sends, state-then, none-Sends, action-Sends, known-Sends, listed-Sends, named-Sends,
  workspace-Sends, killed-state,
}

module _ (daemon : ℕ → ApiRequest → Outcome ApiResponseBody) where
  -- Whatever is asked of the herdr backend, it sends at most one listing of the workspaces and then at
  -- most one request that changes anything: the one that the operation is for, on the pane or the tab
  -- that the registry has for the number, on the space that was named, or on the workspace that the
  -- listing has for the session. The session that stands for all of herdr is never closed or renamed,
  -- and the registries stay as they are.
  pub perform-Sends :
      (op : Op) (s : Control) → Sends daemon (IsFor daemon s op) s (perform daemon op s).0
  unfolding perform Backend.new_tab Backend.new_pane Backend.create_session Backend.rename_session
      Backend.kill_session Backend.list_spaces Control.close_tab Control.focus_tab
      Control.rename_tab Control.close_pane Control.rename_pane Control.zoom_pane Control.split_pane
      Control.create_tab Control.create_workspace Control.rename_workspace Control.close_workspace
  perform-Sends (Ops.new_tab session name) s =
      workspace-Sends daemon (IsFor daemon s (Ops.new_tab session name)) session s
        (λ w. Api.tab_create (some w) true name) _ (λ s' w. refl) (λ w i. (i, refl))
  perform-Sends (Ops.close_tab session id) s =
      known-Sends daemon (IsFor daemon s (Ops.close_tab session id)) (herdr_tab_id s.tabs id) _ _ s
        (λ n e. e)
  perform-Sends (Ops.go_to_tab session id) s =
      known-Sends daemon (IsFor daemon s (Ops.go_to_tab session id)) (herdr_tab_id s.tabs id) _ _ s
        (λ n e. e)
  perform-Sends (Ops.rename_tab session id name) s =
      known-Sends daemon (IsFor daemon s (Ops.rename_tab session id name)) (herdr_tab_id s.tabs id)
        _ _ s (λ n e. (e, refl))
  perform-Sends (Ops.write_to_pane session pane bytes) s = none-Sends daemon _ s
  perform-Sends (Ops.focus_pane session pane) s = none-Sends daemon _ s
  perform-Sends (Ops.close_pane session pane) s =
      known-Sends daemon (IsFor daemon s (Ops.close_pane session pane))
        (herdr_pane_id s.panes pane.id) _ _ s (λ n e. e)
  perform-Sends (Ops.new_pane session floating name) s =
      workspace-Sends daemon (IsFor daemon s (Ops.new_pane session floating name)) session s
        (λ w. Api.pane_split (some w) none SplitDirection.right true) _ (λ s' w. refl)
        (λ w i. (i, refl))
  perform-Sends (Ops.rename_pane session pane name) s =
      known-Sends daemon (IsFor daemon s (Ops.rename_pane session pane name))
        (herdr_pane_id s.panes pane.id) _ _ s (λ n e. (e, refl))
  perform-Sends (Ops.resize_pane session pane kind dir) s = none-Sends daemon _ s
  perform-Sends (Ops.toggle_pane_floating session pane) s = none-Sends daemon _ s
  perform-Sends (Ops.toggle_pane_fullscreen session pane) s =
      known-Sends daemon (IsFor daemon s (Ops.toggle_pane_fullscreen session pane))
        (herdr_pane_id s.panes pane.id) _ _ s (λ n e. (e, refl))
  perform-Sends (Ops.scroll_pane session pane dir) s = none-Sends daemon _ s
  perform-Sends (Ops.list_spaces session) s =
      subst (Sends daemon (IsFor daemon s (Ops.list_spaces session)) s)
        (sym
          (state-then daemon (Backend.list_spaces daemon s) (Backend.forget daemon) (λ s' a. refl)))
        (listed-Sends daemon _ s _ (λ s' ws a. inl refl))
  perform-Sends (Ops.create_space label) s = action-Sends daemon _ _ s refl
  perform-Sends (Ops.rename_space id label) s = action-Sends daemon _ _ s (refl, refl)
  perform-Sends (Ops.close_space id) s = action-Sends daemon _ _ s refl
  perform-Sends (Ops.rename_session session name) s =
      elim (Bool-cases (str_eq session herdr_session)) [
        | inl is_herdr ↦ rw (is_herdr, perform, Backend.rename_session) (none-Sends daemon _ s)
        | inr is_name ↦
            rw (is_name, perform, Backend.rename_session)
              (named-Sends daemon (IsFor daemon s (Ops.rename_session session name)) session s
                (λ w. Api.workspace_rename w name) _ (λ s' w. refl) (λ w i. (i, is_name, refl))
                is_name)
      ]
  perform-Sends (Ops.kill_session session) s =
      subst (Sends daemon (IsFor daemon s (Ops.kill_session session)) s)
        (sym (
          state-then daemon (Backend.kill_session daemon session s) (Backend.forget daemon)
            (λ s' a. refl)))
        (elim (Bool-cases (str_eq session herdr_session)) [
          | inl is_herdr ↦ rw (is_herdr, Backend.kill_session) (none-Sends daemon _ s)
          | inr is_name ↦
              rw (is_name, Backend.kill_session)
                (named-Sends daemon (IsFor daemon s (Ops.kill_session session)) session s
                  (λ w. Api.workspace_close w) _
                  (λ s' w.
                    state-then daemon (call_action daemon (Api.workspace_close w) s')
                      (killed daemon) (killed-state daemon))
                  (λ w i. (i, is_name)) is_name)
        ])
  perform-Sends (Ops.create_session name layout) s = listed-Sends daemon _ s _ (λ s' ws a.
      elim (Bool-cases (is_labelled name ws)) [
        | inl taken ↦ rw taken (inl refl)
        | inr free ↦
            rw free (inr (Api.workspace_create true (some name), refl, (refl, (ws, a, free))))
      ])
