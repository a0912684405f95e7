-- ===== src/Ctl/Keys.antt =====
-- muxrctl/src/app/update.rs: `handle_key`, from the keys that always count to each screen's own.
use zellimobile_server.Common.{Bool, true, not, ◌&&◌, [], ◌∷◌, none, some, if◌then◌else◌}
use zellimobile_server.Ctl.Screen.{Screen, next, prev}
use zellimobile_server.Ctl.State.{AppState, is_text_editing}
use zellimobile_server.Ctl.Message.{KeyEvent, KeyCode, tab, back_tab, esc, is_char, UpdateAction}
use zellimobile_server.Ctl.Config.{Step, handle_config_key}
use zellimobile_server.Ctl.Panels.{handle_cert_key, handle_server_key}
use zellimobile_server.Ctl.Tokens.{handle_tokens_key}
use zellimobile_server.Ctl.Nav.{transition_to, handle_nav_keys}

abbrev pub quit_now : AppState → Step
quit_now s = (record s { should_quit = true }, UpdateAction.quit ∷ [])

abbrev pub closes_overlay : KeyCode → Bool
closes_overlay esc = true
closes_overlay k = is_char b'q' k

-- While the overlay is up it takes every key.
unfoldable pub overlay_key : AppState → KeyCode → Step
overlay_key s k = if closes_overlay k then (record s { qr_overlay = none }, []) else (s, [])

unfoldable pub screen_key : Screen → AppState → KeyEvent → Step
unfolding handle_nav_keys handle_config_key handle_cert_key handle_server_key handle_tokens_key
screen_key Screen.config s k = handle_config_key s k
screen_key Screen.cert s k = handle_cert_key s k
screen_key Screen.server s k = handle_server_key s k
screen_key Screen.tokens s k = handle_tokens_key s k
screen_key Screen.dashboard s k = handle_nav_keys s k

-- The keys that every screen shares come first.
unfoldable pub plain_key : KeyCode → AppState → KeyEvent → Step
unfolding transition_to screen_key
plain_key tab s k = transition_to s (next s.screen)
plain_key back_tab s k = transition_to s (prev s.screen)
plain_key _ s k = screen_key s.screen s k

-- `handle_key`
unfoldable pub handle_key : AppState → KeyEvent → Step
unfolding overlay_key plain_key
handle_key s k = if k.ctrl && is_char b'c' k.code then quit_now s else elim s.qr_overlay [
  | some _ ↦ overlay_key s k.code
  | none ↦
      if is_char b'q' k.code && not (is_text_editing s) then quit_now s else plain_key k.code s k
]
