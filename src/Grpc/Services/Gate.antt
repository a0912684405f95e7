-- ===== src/Grpc/Services/Gate.antt =====
-- The gate for read-only tokens in front of the services (muxrd/src/grpc).
use zellimobile_server.Common.{
  ℕ, String, Bool, true, false, List, [], ◌∷◌, Option, none, some, if◌then◌else◌, ◌≡◌, refl, ap,
  ◌∙◌, ◌≢◌,
}
use zellimobile_server.Server.Routing.{is_collapsed_backend_session}
use zellimobile_server.Relay.Types
use zellimobile_server.Mux.Ops
use zellimobile_server.Relay.Types.{RelayControl, ControlEntry}
use zellimobile_server.Grpc.Control.{
  success, permission_denied, pass, reject, ◌>>=◌, reject_if_read_only, exact_relay, writable_relay,
  send_to, route_open, route_fallback, route_collapsed, try_route_control, Routed,
}
use zellimobile_server.Grpc.Requests
use zellimobile_server.Grpc.Requests.{
  PaneTarget, pane_ref, Rpc, Outside, Done, act, answered, finish, resolve,
}
use zellimobile_server.Grpc.Handlers
use zellimobile_server.Grpc.Spaces
use zellimobile_server.Grpc.Sessions
use zellimobile_server.Grpc.Services.{handle, is_gated}

-- Permission is denied, and nothing else happens.
abbrev pub IsDenied : {B : Type 0} → Done B → Type 0
IsDenied d =
    (d.ops ≡ []) × (d.sent ≡ []) × ((m : String) × (d.answer ≡ reject (permission_denied m)))

falls_back :
    (alive : ℕ → Bool) (cmd : RelayControl) (control : List (String × ControlEntry))
    (session id : String) (e : ControlEntry)
    → is_collapsed_backend_session session ≡ false
    → exact_relay control session id ≡ none
    → writable_relay control session ≡ some e
    → alive e.sender ≡ true
    → try_route_control alive cmd control session id ≡ record {
      answer = some (success "routed via relay client (session fallback, writable)");
      sent = (e.sender, cmd) ∷ [];
    }
unfolding try_route_control route_open route_fallback send_to
falls_back alive cmd control session id e open_session no_own writer lives =
    ap
      (λ b.
        if b
        then route_collapsed alive cmd (exact_relay control session id)
        else route_open alive cmd (exact_relay control session id) (writable_relay control session))
      open_session
    ∙ ap (λ x. route_open alive cmd x (writable_relay control session)) no_own
    ∙ ap (route_fallback alive cmd) writer
    ∙ ap
        (λ b.
          if b
          then record {
            answer = some (success "routed via relay client (session fallback, writable)");
            sent = (e.sender, cmd) ∷ [];
          }
          else record { answer = none; sent = [] })
        lives

module _ (check : String → Option String) {B : Type 0} (o : Outside B) where
  -- A request that changes anything, from a token that may only read, or where the authentication set
  -- no flag, is denied, and does nothing: no backend is called, no relay is told. That holds for every
  -- service but to focus a pane and to scroll.
  pub handle-IsDenied :
      (ext : Option Bool) (r : Rpc)
      → is_gated r ≡ true
      → ext ≢ some false
      → IsDenied (handle check ext o r)
  unfolding handle is_gated reject_if_read_only Handlers.new_tab Handlers.close_tab
      Handlers.go_to_tab Handlers.rename_tab Handlers.write_to_pane Handlers.close_pane
      Handlers.new_pane Handlers.rename_pane Handlers.resize_pane Handlers.toggle_pane_floating
      Handlers.toggle_pane_fullscreen Spaces.switch_space Spaces.create_space Spaces.rename_space
      Spaces.close_space Sessions.rename_session Sessions.kill_session Sessions.create_session
  handle-IsDenied ext (Requests.focus_pane t) g h = cc
  handle-IsDenied ext (Requests.scroll_pane t d) g h = cc
  handle-IsDenied none r g h = (refl, refl, (_, refl))
  handle-IsDenied (some true) r g h = (refl, refl, (_, refl))
  handle-IsDenied (some false) r g h = absurd (h refl)

  -- To focus a pane is let through for every token: on a session that its clients do not share, where
  -- the caller has no relay of its own, a token that may only read moves the focus of the first relay
  -- that may write.
  pub focus_pane-writable :
      (t : PaneTarget) (target : B × String) (e : ControlEntry)
      → resolve check o t.session ≡ pass target
      → is_collapsed_backend_session t.session ≡ false
      → exact_relay o.control t.session t.connection_id ≡ none
      → writable_relay o.control t.session ≡ some e
      → o.alive e.sender ≡ true
      → (handle check (some true) o (Requests.focus_pane t)).sent
        ≡ (e.sender, Types.focus_pane (pane_ref t)) ∷ []
  unfolding handle Handlers.focus_pane
  focus_pane-writable t target e found open_session no_own writer lives =
      let cmd : RelayControl = Types.focus_pane (pane_ref t) in
      let next : B × String → Done B =
        λ x. act o "FocusPane" x.0 (Ops.focus_pane x.1 (pane_ref t)) in
      let r : Routed = try_route_control o.alive cmd o.control t.session t.connection_id in
      ap
        (λ c.
          (finish (
            c >>= λ (x : B × String).
            pass (Handlers.routed_or check (some true) o r (next x)))).sent)
        found
      ∙ ap (λ (x : Routed). (Handlers.routed_or check (some true) o x (next target)).sent)
          (falls_back o.alive cmd o.control t.session t.connection_id e open_session no_own writer
            lives)
