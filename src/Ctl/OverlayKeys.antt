-- ===== src/Ctl/OverlayKeys.antt =====
-- What a key makes of the QR overlay (`handle_key` of muxrctl/src/app/update.rs), screen by screen.
use zellimobile_server.Common.{
  ℕ, ◌+◌, ◌%◌, ◌≡◌, ◌≢◌, refl, subst, ◌⊎◌, inl, inr, true, false, not, Option, none, some, arith,
  Bool-cases, ◌&&◌,
}
use zellimobile_server.Ctl.Screen.{Screen}
use zellimobile_server.Ctl.State.{
  AppState, is_text_editing, Minted, QrOverlay, TokensFormPhase, browsing, creating, generating,
}
use zellimobile_server.Ctl.Message.{Message, KeyEvent, KeyCode, is_char}
use zellimobile_server.Ctl.Config.{handle_config_key}
use zellimobile_server.Ctl.Panels.{handle_cert_key, handle_server_key}
use zellimobile_server.Ctl.Tokens.{handle_tokens_key, u64_mod}
use zellimobile_server.Ctl.Nav.{transition_to, handle_nav_keys}
use zellimobile_server.Ctl.Keys.{handle_key, overlay_key, screen_key, plain_key}
use zellimobile_server.Ctl.OverlaySteps.{ClosesOverlay, OverlayStep, opened, closed, idle_at}

-- What a key makes of the overlay.
abbrev After : AppState → KeyEvent → Option QrOverlay → Type 0
After s k b = OverlayStep s (Message.key k) b

pub transition-same :
    (s : AppState) (to : Screen) → (transition_to s to).0.qr_overlay ≡ s.qr_overlay
unfolding transition_to
transition-same s to = ground arith

nav-same : (s : AppState) (k : KeyEvent) → (handle_nav_keys s k).0.qr_overlay ≡ s.qr_overlay
unfolding handle_nav_keys transition_to
nav-same s k = ground arith

config-same : (s : AppState) (k : KeyEvent) → (handle_config_key s k).0.qr_overlay ≡ s.qr_overlay
unfolding handle_config_key
config-same s k = ground arith

cert-same : (s : AppState) (k : KeyEvent) → (handle_cert_key s k).0.qr_overlay ≡ s.qr_overlay
unfolding handle_cert_key
cert-same s k = ground arith

server-same : (s : AppState) (k : KeyEvent) → (handle_server_key s k).0.qr_overlay ≡ s.qr_overlay
unfolding handle_server_key
server-same s k = ground arith

creating-same :
    (s : AppState) (k : KeyEvent)
    → s.tokens.form_phase ≡ creating
    → (handle_tokens_key s k).0.qr_overlay ≡ s.qr_overlay
unfolding handle_tokens_key
creating-same s k form = ground arith

browsing-same :
    (s : AppState) (k : KeyEvent)
    → s.tokens.form_phase ≡ browsing
    → k.code ≢ KeyCode.enter
    → (handle_tokens_key s k).0.qr_overlay ≡ s.qr_overlay
unfolding handle_tokens_key
browsing-same s k list other = ground arith

no_secret-same :
    (s : AppState) (k : KeyEvent)
    → s.tokens.form_phase ≡ browsing
    → k.code ≡ KeyCode.enter
    → s.tokens.last_minted_secret ≡ none
    → (handle_tokens_key s k).0.qr_overlay ≡ s.qr_overlay
unfolding handle_tokens_key
no_secret-same s k list enter nothing = ground arith

shown-new :
    (s : AppState) (k : KeyEvent) (minted : Minted)
    → s.tokens.form_phase ≡ browsing
    → k.code ≡ KeyCode.enter
    → s.tokens.last_minted_secret ≡ some minted
    → (handle_tokens_key s k).0.qr_overlay
      ≡ some (record {
        phase = generating;
        seq = (s.qr_seq + 1) % u64_mod;
        baseline_clients = 0;
        token_name = minted.name;
        read_only = minted.read_only;
        tick_counter = 0;
      })
unfolding handle_tokens_key
shown-new s k minted list enter held = ground arith

enter_step :
    (s : AppState) (k : KeyEvent) (held : Option Minted)
    → s.qr_overlay ≡ none
    → s.screen ≡ Screen.tokens
    → s.tokens.form_phase ≡ browsing
    → k.code ≡ KeyCode.enter
    → s.tokens.last_minted_secret ≡ held
    → After s k (handle_tokens_key s k).0.qr_overlay
enter_step s k none e at list enter held =
    idle_at none e (inr (inr (inr held))) (no_secret-same s k list enter held)
enter_step s k (some minted) e at list enter held =
    opened k minted refl (at, list, enter, held) e (shown-new s k minted list enter held)

-- Where the key is another one than Enter.
other_step :
    (s : AppState) (k : KeyEvent)
    → s.qr_overlay ≡ none
    → s.tokens.form_phase ≡ browsing
    → k.code ≢ KeyCode.enter
    → After s k (handle_tokens_key s k).0.qr_overlay
other_step s k e list other = idle_at none e (inr (inr (inl other))) (browsing-same s k list other)

list_step :
    (s : AppState) (k : KeyEvent) (c : KeyCode)
    → s.qr_overlay ≡ none
    → s.screen ≡ Screen.tokens
    → s.tokens.form_phase ≡ browsing
    → k.code ≡ c
    → After s k (handle_tokens_key s k).0.qr_overlay
list_step s k KeyCode.enter e at list is =
    enter_step s k s.tokens.last_minted_secret e at list is refl
list_step s k _ e at list is = other_step s k e list (λ enter. cc)

tokens_step :
    (s : AppState) (k : KeyEvent) (form : TokensFormPhase)
    → s.qr_overlay ≡ none
    → s.screen ≡ Screen.tokens
    → s.tokens.form_phase ≡ form
    → After s k (handle_tokens_key s k).0.qr_overlay
tokens_step s k browsing e at list = list_step s k k.code e at list refl
tokens_step s k creating e at form = idle_at none e (inr (inl form)) (creating-same s k form)

screen_step :
    (s : AppState) (k : KeyEvent)
    → s.qr_overlay ≡ none
    → (at : Screen) → s.screen ≡ at
    → After s k (screen_key at s k).0.qr_overlay
unfolding screen_key
screen_step s k e Screen.dashboard at = idle_at none e (inl (λ tokens. cc)) (nav-same s k)
screen_step s k e Screen.config at = idle_at none e (inl (λ tokens. cc)) (config-same s k)
screen_step s k e Screen.cert at = idle_at none e (inl (λ tokens. cc)) (cert-same s k)
screen_step s k e Screen.server at = idle_at none e (inl (λ tokens. cc)) (server-same s k)
screen_step s k e Screen.tokens at = tokens_step s k s.tokens.form_phase e at refl

plain_step :
    (s : AppState) (k : KeyEvent) (c : KeyCode)
    → s.qr_overlay ≡ none
    → k.code ≡ c
    → After s k (plain_key c s k).0.qr_overlay
unfolding plain_key
plain_step s k KeyCode.tab e is =
    idle_at none e (inr (inr (inl (λ enter. cc)))) (transition-same s _)
plain_step s k KeyCode.back_tab e is =
    idle_at none e (inr (inr (inl (λ enter. cc)))) (transition-same s _)
plain_step s k _ e is = screen_step s k e s.screen refl

letter_not_enter : (n : ℕ) (k : KeyEvent) → is_char n k.code ≡ true → k.code ≢ KeyCode.enter
letter_not_enter n k h e = cc

plain-same :
    (s : AppState) (k : KeyEvent)
    → s.qr_overlay ≡ none
    → (k.ctrl && is_char b'c' k.code) ≡ false
    → (is_char b'q' k.code && not (is_text_editing s)) ≡ false
    → (plain_key k.code s k).0.qr_overlay ≡ (handle_key s k).0.qr_overlay
unfolding handle_key
plain-same s k e no_ctrl_c no_quit = ground arith

no_overlay_step :
    (s : AppState) (k : KeyEvent) → s.qr_overlay ≡ none → After s k (handle_key s k).0.qr_overlay
unfolding handle_key
no_overlay_step s k e = elim (Bool-cases (k.ctrl && is_char b'c' k.code)) [
  | inl ctrl_c ↦
      idle_at none e (inr (inr (inl (letter_not_enter b'c' k (ground arith))))) (ground arith)
  | inr other ↦ elim (Bool-cases (is_char b'q' k.code && not (is_text_editing s))) [
    | inl quits ↦
        idle_at none e (inr (inr (inl (letter_not_enter b'q' k (ground arith))))) (ground arith)
    | inr plain ↦ subst (After s k) (plain-same s k e other plain) (plain_step s k k.code e refl)
  ]
]

-- Whether a key closes an overlay.
closes-cases :
    (k : KeyEvent) (c : KeyCode)
    → k.code ≡ c
    → ClosesOverlay k ⊎ ((k.code ≢ KeyCode.esc) × (is_char b'q' k.code ≡ false))
closes-cases k KeyCode.esc is = inl (inl is)
closes-cases k _ is = elim (Bool-cases (is_char b'q' k.code)) [
  | inl q ↦ inl (inr q)
  | inr other ↦ inr (λ escapes. cc, other)
]

closed-none :
    (s : AppState) (k : KeyEvent) (o : QrOverlay)
    → s.qr_overlay ≡ some o
    → ClosesOverlay k
    → (handle_key s k).0.qr_overlay ≡ none
unfolding handle_key overlay_key
closed-none s k o e closes = ground arith

kept-same :
    (s : AppState) (k : KeyEvent) (o : QrOverlay)
    → s.qr_overlay ≡ some o
    → k.code ≢ KeyCode.esc
    → is_char b'q' k.code ≡ false
    → (handle_key s k).0.qr_overlay ≡ s.qr_overlay
unfolding handle_key overlay_key
kept-same s k o e no_esc no_q = ground arith

overlay_key_step :
    (s : AppState) (k : KeyEvent) (o : QrOverlay)
    → s.qr_overlay ≡ some o
    → After s k (handle_key s k).0.qr_overlay
overlay_key_step s k o e = elim (closes-cases k k.code refl) [
  | inl closes ↦ closed k o refl closes e (closed-none s k o e closes)
  | inr (no_esc, no_q) ↦ idle_at (some o) e (no_esc, no_q) (kept-same s k o e no_esc no_q)
]

pub key_step :
    (s : AppState) (k : KeyEvent) (a : Option QrOverlay)
    → s.qr_overlay ≡ a
    → After s k (handle_key s k).0.qr_overlay
key_step s k none e = no_overlay_step s k e
key_step s k (some o) e = overlay_key_step s k o e
