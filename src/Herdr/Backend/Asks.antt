-- ===== src/Herdr/Backend/Asks.antt =====
-- How an operation of the herdr backend (muxrd/src/multiplexer/herdr/backend.rs and control.rs) asks the
-- daemon: a listing, and one request by what is listed.
use zellimobile_server.Common.{
  ℕ, String, true, false, List, [], ◌∷◌, ◌++◌, Option, none, some, length, str_eq, ◌≡◌, refl, sym,
  ap, ◌∙◌, subst, ◌⊎◌, inl, inr, Bool-cases, append_nil, append_assoc,
}
use zellimobile_server.Mux.{Outcome, ok, failed}
use zellimobile_server.Mux.Ops
use zellimobile_server.Mux.Ops.{ActionAck, Op}
use zellimobile_server.Herdr.Registry.{herdr_pane_id, herdr_tab_id}
use zellimobile_server.Herdr.Api
use zellimobile_server.Herdr.Api.{
  SplitDirection, PaneZoomMode, WorkspaceInfo, ApiRequest, ApiResult, ApiResponseBody,
}
use zellimobile_server.Herdr.Control.{
  Control, Ran, and_then, action_result, typed_result, as_workspaces, call_raw, call_action,
  call_typed, list_workspaces, on_known,
}
use zellimobile_server.Herdr.Backend.{
  herdr_session, only_workspace, labelled_as, picked, pick_active_or_first, is_labelled, killed,
  resolve_workspace, workspace_id_for, active_or_first_workspace_id,
}

module _ (daemon : ℕ → ApiRequest → Outcome ApiResponseBody) where
  -- The workspace of a session, by what the daemon lists: herdr's one session is the focused or first
  -- workspace, any other name is that of exactly one.
  abbrev pub IsWorkspace : Control → String → String → Type 0
  IsWorkspace s session w =
      (ws : List WorkspaceInfo) × (daemon (length s.sent) Api.workspace_list
        ≡ ok (ApiResponseBody.ok (ok (Api.workspaces ws))))
      × (((str_eq session herdr_session ≡ true) × (picked (pick_active_or_first ws) ≡ ok w))
          ⊎ ((str_eq session herdr_session ≡ false)
              × (only_workspace session (labelled_as session ws) ≡ ok w)))

  -- The one request that an operation is for.
  abbrev pub IsFor : Control → Op → ApiRequest → Type 0
  IsFor s (Ops.new_tab session name) (Api.tab_create (some w) focus label) =
      IsWorkspace s session w × (label ≡ name)
  IsFor s (Ops.close_tab session id) (Api.tab_close t) = herdr_tab_id s.tabs id ≡ some t
  IsFor s (Ops.go_to_tab session id) (Api.tab_focus t) = herdr_tab_id s.tabs id ≡ some t
  IsFor s (Ops.rename_tab session id name) (Api.tab_rename t label) =
      (herdr_tab_id s.tabs id ≡ some t) × (label ≡ name)
  IsFor s (Ops.close_pane session pane) (Api.pane_close p) = herdr_pane_id s.panes pane.id ≡ some p
  IsFor s (Ops.new_pane session floating name) (Api.pane_split (some w) target dir focus) =
      IsWorkspace s session w × (target ≡ none)
  IsFor s (Ops.rename_pane session pane name) (Api.pane_rename p label) =
      (herdr_pane_id s.panes pane.id ≡ some p) × (label ≡ some name)
  IsFor s (Ops.toggle_pane_fullscreen session pane) (Api.pane_zoom (some p) mode) =
      (herdr_pane_id s.panes pane.id ≡ some p) × (mode ≡ PaneZoomMode.toggle)
  IsFor s (Ops.create_space label) (Api.workspace_create focus l) = l ≡ label
  IsFor s (Ops.rename_space id label) (Api.workspace_rename w l) = (w ≡ id) × (l ≡ label)
  IsFor s (Ops.close_space id) (Api.workspace_close w) = w ≡ id
  IsFor s (Ops.rename_session session name) (Api.workspace_rename w l) =
      IsWorkspace s session w × (str_eq session herdr_session ≡ false) × (l ≡ name)
  IsFor s (Ops.kill_session session) (Api.workspace_close w) =
      IsWorkspace s session w × (str_eq session herdr_session ≡ false)
  IsFor s (Ops.create_session name layout) (Api.workspace_create focus l) =
      (l ≡ some name)
      × ((ws : List WorkspaceInfo) × (daemon (length s.sent) Api.workspace_list
            ≡ ok (ApiResponseBody.ok (ok (Api.workspaces ws))))
          × (is_labelled name ws ≡ false))
  IsFor s _ _ = ⊥

  -- Nothing is sent but at most one listing of the workspaces, and then at most one request of the
  -- given sort; the registries stay as they are.
  abbrev pub Sends : (ApiRequest → Type 0) → Control → Control → Type 0
  Sends P s s' =
      ((s'.panes ≡ s.panes) × (s'.tabs ≡ s.tabs))
      × ((listing change : List ApiRequest) × (s'.sent ≡ s.sent ++ (listing ++ change))
          × ((listing ≡ []) ⊎ (listing ≡ Api.workspace_list ∷ []))
          × ((change ≡ []) ⊎ ((r : ApiRequest) × (change ≡ r ∷ []) × P r)))

  -- What follows a call leaves the state alone.
  pub state-then :
      {A B : Type 0} (m : Ran A) (k : Control → A → Ran B)
      → ((s : Control) (a : A) → (k s a).0 ≡ s)
      → (and_then m k).0 ≡ m.0
  state-then (s, ok a) k h = h s a
  state-then (s, failed e) k h = refl

  action-state :
      (req : ApiRequest) (s : Control) → (call_action daemon req s).0 ≡ (call_raw daemon req s).0
  unfolding call_action
  action-state req s =
      state-then (call_raw daemon req s) (action_result daemon) (λ s' b. silent s' b)
    where
      silent : (s' : Control) (b : ApiResponseBody) → (action_result daemon s' b).0 ≡ s'
      silent s' (ApiResponseBody.ok _) = refl
      silent s' (ApiResponseBody.err c m) = refl

  pub none-Sends : (P : ApiRequest → Type 0) (s : Control) → Sends P s s
  none-Sends P s = ((refl, refl), ([], [], sym (append_nil s.sent), inl refl, inl refl))

  pub action-Sends :
      (P : ApiRequest → Type 0) (req : ApiRequest) (s : Control)
      → P req
      → Sends P s (call_action daemon req s).0
  unfolding call_raw
  action-Sends P req s p =
      subst (Sends P s) (sym (action-state req s))
        ((refl, refl), ([], req ∷ [], refl, inl refl, inr (req, refl, p)))

  pub known-Sends :
      (P : ApiRequest → Type 0) (name : Option String) (unknown : ActionAck)
      (req : String → ApiRequest) (s : Control)
      → ((n : String) → name ≡ some n → P (req n))
      → Sends P s (on_known daemon name unknown req s).0
  known-Sends P none unknown req s h = none-Sends P s
  known-Sends P (some n) unknown req s h = action-Sends P (req n) s (h n refl)

  -- The daemon's answer to a listing.
  abbrev Lists : Control → List WorkspaceInfo → Type 0
  Lists s ws =
      daemon (length s.sent) Api.workspace_list ≡ ok (ApiResponseBody.ok (ok (Api.workspaces ws)))

  -- After a listing: nothing more, or one request of the sort.
  abbrev Follows : (ApiRequest → Type 0) → Control → Control → Type 0
  Follows P s' s'' = (s'' ≡ s') ⊎ ((r : ApiRequest) × (s'' ≡ (call_action daemon r s').0) × P r)

  Follows-Sends :
      (P : ApiRequest → Type 0) (s s'' : Control)
      → Follows P (call_raw daemon Api.workspace_list s).0 s''
      → Sends P s s''
  unfolding call_raw
  Follows-Sends P s s'' (inl same) =
      subst (Sends P s) (sym same)
        ((refl, refl), (Api.workspace_list ∷ [], [], refl, inr refl, inl refl))
  Follows-Sends P s s'' (inr (r, same, p)) =
      let listed : Control = (call_raw daemon Api.workspace_list s).0 in
      subst (Sends P s) (sym (same ∙ action-state r listed)) (
        (refl, refl),
        (
          Api.workspace_list ∷ [],
          r ∷ [],
          append_assoc s.sent (Api.workspace_list ∷ []) (r ∷ []),
          inr refl,
          inr (r, refl, p),
        ),
      )

  listed-Follows :
      {B : Type 0} (P : ApiRequest → Type 0) (s s' : Control) (answer : Outcome ApiResponseBody)
      (k : Control → List WorkspaceInfo → Ran B)
      → ((ws : List WorkspaceInfo)
          → answer ≡ ok (ApiResponseBody.ok (ok (Api.workspaces ws)))
          → Follows P s' (k s' ws).0)
      → Follows P s'
          (and_then
            (and_then
              (and_then (s', answer) (typed_result daemon "workspace.list"))
              (as_workspaces daemon))
            k).0
  listed-Follows P s s' (failed e) k h = inl refl
  listed-Follows P s s' (ok (ApiResponseBody.err c m)) k h = inl refl
  listed-Follows P s s' (ok (ApiResponseBody.ok (failed e))) k h = inl refl
  listed-Follows P s s' (ok (ApiResponseBody.ok (ok (Api.workspaces ws)))) k h = h ws refl
  listed-Follows P s s' (ok (ApiResponseBody.ok (ok (Api.tabs _)))) k h = inl refl
  listed-Follows P s s' (ok (ApiResponseBody.ok (ok (Api.panes _)))) k h = inl refl
  listed-Follows P s s' (ok (ApiResponseBody.ok (ok (Api.layout _)))) k h = inl refl
  listed-Follows P s s' (ok (ApiResponseBody.ok (ok Api.other))) k h = inl refl

  -- What sends a listing, and then something by what is listed.
  pub listed-Sends :
      {B : Type 0} (P : ApiRequest → Type 0) (s : Control)
      (k : Control → List WorkspaceInfo → Ran B)
      → ((s' : Control) (ws : List WorkspaceInfo) → Lists s ws → Follows P s' (k s' ws).0)
      → Sends P s (and_then (list_workspaces daemon s) k).0
  unfolding list_workspaces call_typed call_raw
  listed-Sends P s k h =
      let s' : Control = (call_raw daemon Api.workspace_list s).0 in
      Follows-Sends P s _
        (listed-Follows P s s' (daemon (length s.sent) Api.workspace_list) k (λ ws a. h s' ws a))

  -- The state of a longer chain is that of its first part, where the rest leaves it alone.
  and_then_assoc :
      {A B C : Type 0} (m : Ran A) (f : Control → A → Ran B) (g : Control → B → Ran C)
      → and_then (and_then m f) g ≡ and_then m (λ s a. and_then (f s a) g)
  and_then_assoc (s, ok a) f g = refl
  and_then_assoc (s, failed e) f g = refl

  -- A listing, a workspace by it, and then one request on that workspace.
  module _ {B : Type 0} (P : ApiRequest → Type 0) (session : String) (s : Control)
      (req : String → ApiRequest) (k : Control → String → Ran B)
      (same : (s' : Control) (w : String) → (k s' w).0 ≡ (call_action daemon (req w) s').0)
      (h : (w : String) → IsWorkspace s session w → P (req w)) where
    on_workspace :
        (s' : Control) (found : Outcome String)
        → ((w : String) → found ≡ ok w → P (req w))
        → Follows P s' (and_then (s', found) k).0
    on_workspace s' (ok w) p = inr (req w, same s' w, p w refl)
    on_workspace s' (failed e) p = inl refl

    pub named-Sends :
        str_eq session herdr_session ≡ false
        → Sends P s (and_then (workspace_id_for daemon session s) k).0
    unfolding workspace_id_for
    named-Sends is_name =
        subst (Sends P s)
          (sym (ap (λ (x : Ran B). x.0) (and_then_assoc (list_workspaces daemon s) _ k)))
          (listed-Sends P s _ (λ s' ws a.
            on_workspace s' (only_workspace session (labelled_as session ws))
              (λ w e. h w (ws, a, inr (is_name, e)))))

    any-Sends :
        str_eq session herdr_session ≡ true
        → Sends P s (and_then (active_or_first_workspace_id daemon s) k).0
    unfolding active_or_first_workspace_id
    any-Sends is_herdr =
        subst (Sends P s)
          (sym (ap (λ (x : Ran B). x.0) (and_then_assoc (list_workspaces daemon s) _ k)))
          (listed-Sends P s _ (λ s' ws a.
            on_workspace s' (picked (pick_active_or_first ws))
              (λ w e. h w (ws, a, inl (is_herdr, e)))))

    pub workspace-Sends : Sends P s (and_then (resolve_workspace daemon session s) k).0
    unfolding resolve_workspace
    workspace-Sends = elim (Bool-cases (str_eq session herdr_session)) [
      | inl is_herdr ↦ rw (is_herdr, resolve_workspace) (any-Sends is_herdr)
      | inr is_name ↦ rw (is_name, resolve_workspace) (named-Sends is_name)
    ]

  pub killed-state : (s : Control) (ack : ActionAck) → (killed daemon s ack).0 ≡ s
  killed-state s ack = elim (Bool-cases ack.ok) [
    | inl done ↦ rw done refl
    | inr not_done ↦ rw not_done refl
  ]
