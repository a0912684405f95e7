-- ===== src/Ctl/Quit.antt =====
-- When muxrctl's app layer quits (muxrctl/src/app/update.rs).
use zellimobile_server.Common.{◌≡◌, refl, ◌↔◌, ◌⊎◌, true, Option, none, some, arith}
use zellimobile_server.Ctl.Screen.{Screen}
use zellimobile_server.Ctl.State.{AppState, QrOverlay}
use zellimobile_server.Ctl.Message.{Message, KeyEvent}
use zellimobile_server.Ctl.Config.{handle_config_key}
use zellimobile_server.Ctl.Panels.{handle_cert_key, handle_server_key}
use zellimobile_server.Ctl.Tokens.{handle_tokens_key}
use zellimobile_server.Ctl.Nav.{transition_to}
use zellimobile_server.Ctl.Poll.{handle_tick}
use zellimobile_server.Ctl.Keys.{handle_key}
use zellimobile_server.Ctl.Update.{update}
use zellimobile_server.Ctl.Rules.{HandlerRule, plain_rule}
use zellimobile_server.Ctl.Permits.{AsksQuit}

abbrev SameQuit : AppState → AppState → Type 0
SameQuit s t = t.should_quit ≡ s.should_quit

config-SameQuit : (s : AppState) (k : KeyEvent) → SameQuit s (handle_config_key s k).0
unfolding handle_config_key
config-SameQuit s k = ground arith

cert-SameQuit : (s : AppState) (k : KeyEvent) → SameQuit s (handle_cert_key s k).0
unfolding handle_cert_key
cert-SameQuit s k = ground arith

server-SameQuit : (s : AppState) (k : KeyEvent) → SameQuit s (handle_server_key s k).0
unfolding handle_server_key
server-SameQuit s k = ground arith

tokens-SameQuit : (s : AppState) (k : KeyEvent) → SameQuit s (handle_tokens_key s k).0
unfolding handle_tokens_key
tokens-SameQuit s k = ground arith

enter-SameQuit : (s : AppState) (to : Screen) → SameQuit s (transition_to s to).0
unfolding transition_to
enter-SameQuit s to = ground arith

tick-SameQuit : (s : AppState) → SameQuit s (handle_tick s).0
unfolding handle_tick
tick-SameQuit s = ground arith

same_quit : HandlerRule SameQuit
same_quit = record {
  stays = λ s. refl;
  enters = enter-SameQuit;
  on_config = config-SameQuit;
  on_cert = cert-SameQuit;
  on_server = server-SameQuit;
  on_tokens = λ s k _. tokens-SameQuit s k;
}

key_quits :
    (s : AppState) (k : KeyEvent) (o : Option QrOverlay)
    → s.qr_overlay ≡ o
    → ((handle_key s k).0.should_quit ≡ true)
      ↔ ((s.should_quit ≡ true) ⊎ AsksQuit s (Message.key k))
unfolding handle_key
key_quits s k none e = ground (arith, plain_rule same_quit k.code s k e)
key_quits s k (some o) e = ground arith

-- After a message the flag is set exactly if it was set before, or the message asks to quit: the
-- `Quit` message, Ctrl-C in every state, or `q` while no overlay is up and no text is being edited.
pub should_quit-update :
    (s : AppState) (m : Message)
    → ((update s m).0.should_quit ≡ true) ↔ ((s.should_quit ≡ true) ⊎ AsksQuit s m)
unfolding update
should_quit-update s (Message.key k) = key_quits s k s.qr_overlay refl
should_quit-update s Message.tick = ground (arith, tick-SameQuit s)
should_quit-update s (Message.nav_to to) = ground (arith, enter-SameQuit s to)
should_quit-update s _ = ground arith
