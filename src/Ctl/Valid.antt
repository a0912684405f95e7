-- ===== src/Ctl/Valid.antt =====
-- The invariant of muxrctl's state (muxrctl/src/app/update.rs): cursors, numbers and counters.

use zellimobile_server.Common.{
  ℕ, true, false, ◌+◌, ◌-◌, ◌%◌, ◌≤◌, ◌<◌, ◌≡◌, refl, List, [], ◌∷◌, Option, none, some, String,
  arith, length, ◌≢◌, get_elem?-some,
}
use zellimobile_server.Ctl.Screen.{Screen}
use zellimobile_server.Ctl.State.{
  AppState, QrOverlay, TokensState, browsing, new, is_text_editing, selected_name, apply_bind_addr,
}
use zellimobile_server.Ctl.Message.{Message, KeyEvent, UpdateAction, is_char}
use zellimobile_server.Ctl.Config.{handle_config_key, cursor_down, cursor_up}
use zellimobile_server.Ctl.Panels.{handle_cert_key, handle_server_key}
use zellimobile_server.Ctl.Tokens.{handle_tokens_key, u64_mod}
use zellimobile_server.Ctl.Nav.{transition_to}
use zellimobile_server.Ctl.Poll.{u32_mod, handle_tick}
use zellimobile_server.Ctl.Keys.{handle_key, plain_key, screen_key}
use zellimobile_server.Ctl.Update.{update, run}
use zellimobile_server.Ctl.Rules.{HandlerRule, key_rule}

-- The overlay carries the number that was given out last, and its counter is a `u32`.
abbrev pub OverlayFits : Option QrOverlay → ℕ → Type 0
OverlayFits none seq = Unit
OverlayFits (some o) seq = (o.seq ≡ seq) × (o.tick_counter < u32_mod)

-- A cursor is at most the last index; on an empty list it is 0.
pub record IsValid (s : AppState) : Type 0 where
  pub row : s.tokens.cursor ≤ length s.tokens.tokens - 1
  pub ip : s.config.ip_cursor ≤ length s.config.reachable_ips - 1
  pub overlay : OverlayFits s.qr_overlay s.qr_seq
  pub seq_range : s.qr_seq < u64_mod
  pub ticks : s.server.tick_counter < u32_mod

abbrev Keeps : AppState → AppState → Type 0
Keeps s t = IsValid s → IsValid t

mod_le_last : (x n : ℕ) → 0 < n → x % n ≤ n - 1
mod_le_last x n h = grind arith

down_le : (c n : ℕ) → 0 < n → cursor_down c n ≤ n - 1
down_le c n = mod_le_last (c + 1) n

up_le : (c n : ℕ) → 0 < n → cursor_up c n ≤ n - 1
up_le c n = mod_le_last (c + n - 1) n

config-Keeps : (s : AppState) (k : KeyEvent) → Keeps s (handle_config_key s k).0
unfolding handle_config_key
config-Keeps s k v =
    let ips = s.config.reachable_ips in
    ground (arith, down_le s.config.ip_cursor (length ips), up_le s.config.ip_cursor (length ips))

cert-Keeps : (s : AppState) (k : KeyEvent) → Keeps s (handle_cert_key s k).0
unfolding handle_cert_key
cert-Keeps s k v = ground arith

server-Keeps : (s : AppState) (k : KeyEvent) → Keeps s (handle_server_key s k).0
unfolding handle_server_key
server-Keeps s k v = ground arith

tokens-Keeps :
    (s : AppState) (k : KeyEvent) → s.qr_overlay ≡ none → Keeps s (handle_tokens_key s k).0
unfolding handle_tokens_key
tokens-Keeps s k e v =
    let rows = s.tokens.tokens in
    ground (arith, down_le s.tokens.cursor (length rows), up_le s.tokens.cursor (length rows))

enter-Keeps : (s : AppState) (to : Screen) → Keeps s (transition_to s to).0
unfolding transition_to
enter-Keeps s to v = ground arith

tick-Keeps : (s : AppState) → Keeps s (handle_tick s).0
unfolding handle_tick
tick-Keeps s v = ground arith

keeps : HandlerRule Keeps
keeps = record {
  stays = λ s v. v;
  enters = enter-Keeps;
  on_config = config-Keeps;
  on_cert = cert-Keeps;
  on_server = server-Keeps;
  on_tokens = tokens-Keeps;
}

key-Keeps : (s : AppState) (k : KeyEvent) → Keeps s (handle_key s k).0
key-Keeps = key_rule keeps (λ s v. ground arith) (λ s v. ground arith)

-- Every message keeps the state valid.
pub update-IsValid : (s : AppState) (m : Message) → IsValid s → IsValid (update s m).0
unfolding update apply_bind_addr
update-IsValid s (Message.key k) v = key-Keeps s k v
update-IsValid s Message.tick v = tick-Keeps s v
update-IsValid s (Message.nav_to to) v = enter-Keeps s to v
update-IsValid s _ v = ground arith

pub run-IsValid : (s : AppState) (ms : List Message) → IsValid s → IsValid (run s ms)
unfolding run
run-IsValid s [] v = v
run-IsValid s (m ∷ ms) v = run-IsValid (update s m).0 ms (update-IsValid s m v)

new-IsValid : IsValid new
new-IsValid = omega arith

-- In every state that the app reaches from its start, by any messages: each cursor is an index
-- of its list, or 0 on an empty one, the overlay carries the number given out last, and the
-- counters are in range of their words.
pub run-new-IsValid : (ms : List Message) → IsValid (run new ms)
run-new-IsValid ms = run-IsValid new ms new-IsValid

length-pos : {A : Type 0} (xs : List A) → xs ≢ [] → 0 < length xs
length-pos [] h = absurd (h refl)
length-pos (x ∷ xs) h = omega arith

-- The highlighted row of a list that is not empty is a token: the source's `get(cursor)` finds it.
selected_name-some :
    (t : TokensState)
    → t.cursor ≤ length t.tokens - 1
    → t.tokens ≢ []
    → (name : String) × (selected_name t ≡ some name)
unfolding selected_name
selected_name-some t h some_row =
    let (r, found) =
      get_elem?-some t.tokens t.cursor (omega (arith, length-pos t.tokens some_row)) in
    (r.name, rw (found, selected_name))

revoke_key :
    (s : AppState) (k : KeyEvent) (name : String)
    → s.qr_overlay ≡ none
    → s.screen ≡ Screen.tokens
    → s.tokens.form_phase ≡ browsing
    → s.tokens.loading ≡ false
    → selected_name s.tokens ≡ some name
    → is_char b'd' k.code ≡ true
    → (update s (Message.key k)).1 ≡ UpdateAction.revoke_token name ∷ []
unfolding update handle_key plain_key screen_key handle_tokens_key is_text_editing
revoke_key s k name e₁ e₂ e₃ e₄ e₅ e₆ = ground arith

-- In every state that the app reaches: `d` on a token list that is not empty, with the list
-- shown, nothing loading and no overlay up, asks to revoke the highlighted token.
pub revoke-run-new :
    (ms : List Message) (k : KeyEvent)
    → (run new ms).qr_overlay ≡ none
    → (run new ms).screen ≡ Screen.tokens
    → (run new ms).tokens.form_phase ≡ browsing
    → (run new ms).tokens.loading ≡ false
    → (run new ms).tokens.tokens ≢ []
    → is_char b'd' k.code ≡ true
    → (name : String) × (selected_name (run new ms).tokens ≡ some name)
      × ((update (run new ms) (Message.key k)).1 ≡ UpdateAction.revoke_token name ∷ [])
revoke-run-new ms k e₁ e₂ e₃ e₄ rows pressed =
    let s = run new ms in
    let (name, found) = selected_name-some s.tokens (run-new-IsValid ms).row rows in
    (name, found, revoke_key s k name e₁ e₂ e₃ e₄ found pressed)
