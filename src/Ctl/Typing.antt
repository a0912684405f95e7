-- ===== src/Ctl/Typing.antt =====
-- Typing into the text fields of muxrctl (muxrctl/src/app/update.rs): letters are letters there,
-- also those that are commands elsewhere.
use Prim.Native.String.{[], ◌∷◌}
use text.Mathlib.TextLemmas.{append-nil, append_assoc, nil-append, cons-append}
use zellimobile_server.Common.{
  String, Char, ◌≡◌, refl, ap, sym, ◌∙◌, none, false, arith, List, [], ◌∷◌, ap,
}
use zellimobile_server.Rust.Text.{concat, push}
use zellimobile_server.Ctl.Screen.{Screen}
use zellimobile_server.Ctl.State.{AppState, ConfigField, creating, is_text_editing}
use zellimobile_server.Ctl.Message.{Message, char}
use zellimobile_server.Ctl.Config.{set_config, handle_config_key}
use zellimobile_server.Ctl.Tokens.{set_tokens, handle_tokens_key}
use zellimobile_server.Ctl.Keys.{handle_key, plain_key, screen_key}
use zellimobile_server.Ctl.Update.{update, run, actions_of}

-- The keys of a text, with no Ctrl.
abbrev pub keys_of : String → List Message
keys_of [] = []
keys_of (c ∷ s) = Message.key (record { code = char c; ctrl = false }) ∷ keys_of s

abbrev pub with_host : AppState → String → AppState
with_host s text = set_config s (record (s.config) { host = text })

abbrev pub with_name : AppState → String → AppState
with_name s text = set_tokens s (record (s.tokens) { form_name = text })

push-concat : (h : String) (c : Char) (s : String) → concat (push h c) s ≡ concat h (c ∷ s)
unfolding push
push-concat h c s =
    append_assoc h (c ∷ []) s ∙ ap (concat h) (cons-append c [] s ∙ ap (λ t. c ∷ t) (nil-append s))

host_letter :
    (s : AppState) (c : Char)
    → s.qr_overlay ≡ none
    → s.screen ≡ Screen.config
    → s.config.focused ≡ ConfigField.host
    → update s (Message.key (record { code = char c; ctrl = false }))
      ≡ (with_host s (push s.config.host c), [])
unfolding update handle_key plain_key screen_key handle_config_key is_text_editing
host_letter s c e₁ e₂ e₃ = ground arith

-- Whatever is typed into the host field without Ctrl is appended to it, and nothing else changes:
-- no effect is asked for, and the app does not quit.
pub type_host :
    (text : String) (s : AppState)
    → s.qr_overlay ≡ none
    → s.screen ≡ Screen.config
    → s.config.focused ≡ ConfigField.host
    → (run s (keys_of text) ≡ with_host s (concat s.config.host text))
      × (actions_of s (keys_of text) ≡ [])
unfolding run actions_of
type_host [] s e₁ e₂ e₃ = (ap (with_host s) (sym (append-nil s.config.host)), refl)
type_host (c ∷ text) s e₁ e₂ e₃ =
    let (typed, quiet) = type_host text (with_host s (push s.config.host c)) e₁ e₂ e₃ in
    (
      rw (host_letter s c e₁ e₂ e₃, run)
          (typed ∙ ap (with_host s) (push-concat s.config.host c text)),
      rw (host_letter s c e₁ e₂ e₃, actions_of) quiet,
    )

name_letter :
    (s : AppState) (c : Char)
    → s.qr_overlay ≡ none
    → s.screen ≡ Screen.tokens
    → s.tokens.form_phase ≡ creating
    → update s (Message.key (record { code = char c; ctrl = false }))
      ≡ (with_name s (push s.tokens.form_name c), [])
unfolding update handle_key plain_key screen_key handle_tokens_key is_text_editing
name_letter s c e₁ e₂ e₃ = ground arith

-- Whatever is typed without Ctrl into the form that names a new token is appended to the name, and
-- nothing else changes: no effect is asked for, and the app does not quit.
pub type_name :
    (text : String) (s : AppState)
    → s.qr_overlay ≡ none
    → s.screen ≡ Screen.tokens
    → s.tokens.form_phase ≡ creating
    → (run s (keys_of text) ≡ with_name s (concat s.tokens.form_name text))
      × (actions_of s (keys_of text) ≡ [])
unfolding run actions_of
type_name [] s e₁ e₂ e₃ = (ap (with_name s) (sym (append-nil s.tokens.form_name)), refl)
type_name (c ∷ text) s e₁ e₂ e₃ =
    let (typed, quiet) = type_name text (with_name s (push s.tokens.form_name c)) e₁ e₂ e₃ in
    (
      rw (name_letter s c e₁ e₂ e₃, run)
          (typed ∙ ap (with_name s) (push-concat s.tokens.form_name c text)),
      rw (name_letter s c e₁ e₂ e₃, actions_of) quiet,
    )
