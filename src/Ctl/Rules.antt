-- ===== src/Ctl/Rules.antt =====
-- A proof rule for `handle_key` of muxrctl/src/app/update.rs: a relation that every handler below
-- it keeps, it keeps too.
use zellimobile_server.Common.{◌≡◌, refl, true, Option, none, some, arith}
use zellimobile_server.Ctl.Screen.{Screen, next, prev}
use zellimobile_server.Ctl.State.{AppState, QrOverlay}
use zellimobile_server.Ctl.Message.{KeyEvent, KeyCode}
use zellimobile_server.Ctl.Config.{handle_config_key}
use zellimobile_server.Ctl.Panels.{handle_cert_key, handle_server_key}
use zellimobile_server.Ctl.Tokens.{handle_tokens_key}
use zellimobile_server.Ctl.Nav.{transition_to, handle_nav_keys}
use zellimobile_server.Ctl.Keys.{handle_key, screen_key, plain_key}

pub record HandlerRule (R : AppState → AppState → Type 0) : Type 0 where
  pub stays : (s : AppState) → R s s
  pub enters : (s : AppState) (to : Screen) → R s (transition_to s to).0
  pub on_config : (s : AppState) (k : KeyEvent) → R s (handle_config_key s k).0
  pub on_cert : (s : AppState) (k : KeyEvent) → R s (handle_cert_key s k).0
  pub on_server : (s : AppState) (k : KeyEvent) → R s (handle_server_key s k).0
  pub on_tokens :
      (s : AppState) (k : KeyEvent) → s.qr_overlay ≡ none → R s (handle_tokens_key s k).0

module _ {R : AppState → AppState → Type 0} (r : HandlerRule R) where
  nav_rule : (s : AppState) (c : KeyCode) (k : KeyEvent) → k.code ≡ c → R s (handle_nav_keys s k).0
  unfolding handle_nav_keys transition_to
  nav_rule s KeyCode.right k e = rw (e, handle_nav_keys) (r.enters s (next s.screen))
  nav_rule s KeyCode.down k e = rw (e, handle_nav_keys) (r.enters s (next s.screen))
  nav_rule s KeyCode.left k e = rw (e, handle_nav_keys) (r.enters s (prev s.screen))
  nav_rule s KeyCode.up k e = rw (e, handle_nav_keys) (r.enters s (prev s.screen))
  nav_rule s _ k e = rw (e, handle_nav_keys) (r.stays s)

  screen_rule :
      (at : Screen) (s : AppState) (k : KeyEvent) → s.qr_overlay ≡ none → R s (screen_key at s k).0
  unfolding screen_key
  screen_rule Screen.dashboard s k e = nav_rule s k.code k refl
  screen_rule Screen.config s k e = r.on_config s k
  screen_rule Screen.cert s k e = r.on_cert s k
  screen_rule Screen.tokens s k e = r.on_tokens s k e
  screen_rule Screen.server s k e = r.on_server s k

  pub plain_rule :
      (c : KeyCode) (s : AppState) (k : KeyEvent) → s.qr_overlay ≡ none → R s (plain_key c s k).0
  unfolding plain_key
  plain_rule KeyCode.tab s k e = r.enters s (next s.screen)
  plain_rule KeyCode.back_tab s k e = r.enters s (prev s.screen)
  plain_rule _ s k e = screen_rule s.screen s k e

  module _ (quits : (s : AppState) → R s (record s { should_quit = true }))
      (closes : (s : AppState) → R s (record s { qr_overlay = none })) where
    overlay_rule :
        (o : Option QrOverlay) (s : AppState) (k : KeyEvent)
        → s.qr_overlay ≡ o
        → R s (handle_key s k).0
    unfolding handle_key
    overlay_rule none s k e = ground (arith, plain_rule k.code s k e, r.stays s, quits s, closes s)
    overlay_rule (some o) s k e = ground (arith, r.stays s, quits s, closes s)

    pub key_rule : (s : AppState) (k : KeyEvent) → R s (handle_key s k).0
    key_rule s k = overlay_rule s.qr_overlay s k refl
