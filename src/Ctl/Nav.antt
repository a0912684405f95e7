-- ===== src/Ctl/Nav.antt =====
-- muxrctl/src/app/update.rs: entering a screen, and the Dashboard's keys.
use zellimobile_server.Common.{true, [], ◌∷◌, none}
use zellimobile_server.Ctl.Screen.{Screen, next, prev}
use zellimobile_server.Ctl.State.{AppState, browsing}
use zellimobile_server.Ctl.Message.{KeyEvent, up, down, left, right, UpdateAction}
use zellimobile_server.Ctl.Config.{Step, set_config}
use zellimobile_server.Ctl.Panels.{set_server}
use zellimobile_server.Ctl.Tokens.{set_tokens}

-- `on_enter_screen`
unfoldable pub on_enter_screen : AppState → Screen → Step
on_enter_screen s Screen.config = (
  set_config s (record (s.config) { loading = true; status = "" }),
  UpdateAction.load_config ∷ [],
)
on_enter_screen s Screen.server = (
  set_server s (record (s.server) { loading = true; action_msg = ""; tick_counter = 0 }),
  UpdateAction.refresh_status ∷ [],
)
on_enter_screen s Screen.tokens = (
  set_tokens s (record (s.tokens) {
    loading = true;
    status = "";
    last_minted_secret = none;
    form_phase = browsing;
    form_name = "";
  }),
  UpdateAction.load_tokens ∷ [],
)
on_enter_screen s Screen.cert =
    (set_config s (record (s.config) { loading = true }), UpdateAction.load_config ∷ [])
on_enter_screen s Screen.dashboard = (
  record s {
    server = record (s.server) { loading = true };
    config = record (s.config) { loading = true };
    tokens = record (s.tokens) { loading = true };
    cert = record (s.cert) { loading = true };
  },
  UpdateAction.refresh_status ∷ UpdateAction.load_config ∷ UpdateAction.load_tokens
      ∷ UpdateAction.load_cert_info ∷ [],
)

-- `transition_to`
unfoldable pub transition_to : AppState → Screen → Step
unfolding on_enter_screen
transition_to s to =
    let (s', actions) = on_enter_screen s to in (record s' { screen = to }, actions)

-- `handle_nav_keys`
unfoldable pub handle_nav_keys : AppState → KeyEvent → Step
unfolding transition_to
handle_nav_keys s k = elim k.code [
  | right ↦ transition_to s (next s.screen)
  | down ↦ transition_to s (next s.screen)
  | left ↦ transition_to s (prev s.screen)
  | up ↦ transition_to s (prev s.screen)
  | _ ↦ (s, [])
]
