-- ===== src/Ctl/Effects.antt =====
-- Which effects `update` (muxrctl/src/app/update.rs) asks for.
use zellimobile_server.Common.{inl, inr, ◌≡◌, refl, Option, none, some, arith, All}
use zellimobile_server.Ctl.Screen.{Screen, next, prev}
use zellimobile_server.Ctl.State.{AppState, QrOverlay}
use zellimobile_server.Ctl.Message.{Message, KeyEvent, KeyCode}
use zellimobile_server.Ctl.Config.{handle_config_key}
use zellimobile_server.Ctl.Panels.{handle_cert_key, handle_server_key}
use zellimobile_server.Ctl.Tokens.{handle_tokens_key}
use zellimobile_server.Ctl.Nav.{transition_to, handle_nav_keys}
use zellimobile_server.Ctl.Poll.{handle_tick}
use zellimobile_server.Ctl.Keys.{handle_key, screen_key, plain_key}
use zellimobile_server.Ctl.Update.{update}
use zellimobile_server.Ctl.Permits.{Enters, Permitted}

config-Permitted :
    (s : AppState) (k : KeyEvent)
    → s.qr_overlay ≡ none
    → s.screen ≡ Screen.config
    → All (Permitted s (Message.key k)) (handle_config_key s k).1
unfolding handle_config_key
config-Permitted s k up at_screen = ground arith

cert-Permitted :
    (s : AppState) (k : KeyEvent)
    → s.qr_overlay ≡ none
    → s.screen ≡ Screen.cert
    → All (Permitted s (Message.key k)) (handle_cert_key s k).1
unfolding handle_cert_key
cert-Permitted s k no_overlay at_screen = ground arith

server-Permitted :
    (s : AppState) (k : KeyEvent)
    → s.qr_overlay ≡ none
    → s.screen ≡ Screen.server
    → All (Permitted s (Message.key k)) (handle_server_key s k).1
unfolding handle_server_key
server-Permitted s k no_overlay at_screen = ground arith

tokens-Permitted :
    (s : AppState) (k : KeyEvent)
    → s.qr_overlay ≡ none
    → s.screen ≡ Screen.tokens
    → All (Permitted s (Message.key k)) (handle_tokens_key s k).1
unfolding handle_tokens_key
tokens-Permitted s k no_overlay at_screen = ground arith

transition-Permitted :
    (s : AppState) (m : Message) (to : Screen)
    → Enters s m to
    → All (Permitted s m) (transition_to s to).1
unfolding transition_to
transition-Permitted s m Screen.dashboard h =
    (inr (inl h), (inr (inr (inl h)), (inr (inl h), (h, tt))))
transition-Permitted s m Screen.config h = (inl h, tt)
transition-Permitted s m Screen.cert h = (inr (inl h), tt)
transition-Permitted s m Screen.tokens h = (inl h, tt)
transition-Permitted s m Screen.server h = (inl h, tt)

nav-Permitted :
    (s : AppState) (k : KeyEvent)
    → s.qr_overlay ≡ none
    → s.screen ≡ Screen.dashboard
    → All (Permitted s (Message.key k)) (handle_nav_keys s k).1
unfolding handle_nav_keys
nav-Permitted s k no_overlay at_screen = ground (
  arith,
  transition-Permitted s (Message.key k) (next s.screen),
  transition-Permitted s (Message.key k) (prev s.screen),
)

tick-Permitted : (s : AppState) → All (Permitted s Message.tick) (handle_tick s).1
unfolding handle_tick
tick-Permitted s = ground arith

screen-Permitted :
    (s : AppState) (k : KeyEvent)
    → s.qr_overlay ≡ none
    → (at : Screen) → s.screen ≡ at
    → All (Permitted s (Message.key k)) (screen_key at s k).1
unfolding screen_key
screen-Permitted s k no_overlay Screen.dashboard e = nav-Permitted s k no_overlay e
screen-Permitted s k no_overlay Screen.config e = config-Permitted s k no_overlay e
screen-Permitted s k no_overlay Screen.cert e = cert-Permitted s k no_overlay e
screen-Permitted s k no_overlay Screen.tokens e = tokens-Permitted s k no_overlay e
screen-Permitted s k no_overlay Screen.server e = server-Permitted s k no_overlay e

plain-Permitted :
    (s : AppState) (k : KeyEvent) (c : KeyCode)
    → s.qr_overlay ≡ none
    → k.code ≡ c
    → All (Permitted s (Message.key k)) (plain_key c s k).1
unfolding plain_key
plain-Permitted s k KeyCode.tab no_overlay is =
    transition-Permitted s (Message.key k) _ (no_overlay, inl (is, refl))
plain-Permitted s k KeyCode.back_tab no_overlay is =
    transition-Permitted s (Message.key k) _ (no_overlay, inr (inl (is, refl)))
plain-Permitted s k _ no_overlay is = screen-Permitted s k no_overlay s.screen refl

key-Permitted :
    (s : AppState) (k : KeyEvent) (overlay : Option QrOverlay)
    → s.qr_overlay ≡ overlay
    → All (Permitted s (Message.key k)) (handle_key s k).1
unfolding handle_key
key-Permitted s k none e = ground (arith, plain-Permitted s k k.code e refl)
key-Permitted s k (some o) e = ground arith

-- Every effect that a message asks for is permitted by that message in the state in which it arrives.
-- Quitting: only by its message, Ctrl-C, or `q` outside text fields and the overlay. The status: only
-- when Server or Dashboard is entered, by `r` with no query under way, or by a tick, with none under
-- way and a counter at its twentieth tick, that of the screen or of a code that is shown. The other
-- loads: only when a screen is entered that shows them, by `r` with no task under way, or, for the
-- tokens, when they changed. Revoking: only by `d` or `x` on the selected row. Creating: only by Enter
-- in the form, with what the form holds. A QR code: only by Enter, for the secret that is held, under
-- a new number. Saving: only an address whose host is not blank and whose port parses, by its keys. A
-- certificate: only for the names that `build_sans_from_config` gives. Starting and stopping: only by
-- their keys and with no task under way. Behind the overlay no key asks for any of these but quitting.
pub update-Permitted : (s : AppState) (m : Message) → All (Permitted s m) (update s m).1
unfolding update
update-Permitted s (Message.key k) = key-Permitted s k s.qr_overlay refl
update-Permitted s Message.tick = tick-Permitted s
update-Permitted s (Message.nav_to to) = transition-Permitted s (Message.nav_to to) to refl
update-Permitted s _ = ground arith
