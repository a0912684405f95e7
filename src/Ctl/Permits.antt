-- ===== src/Ctl/Permits.antt =====
-- What each effect of muxrctl asks for (muxrctl/src/app/action.rs): the states and the messages of
-- `update` that may ask for it.
use zellimobile_server.Common.{ℕ, ◌+◌, ◌%◌, ◌^◌, true, false, ◌≡◌, ◌≢◌, ◌⊎◌, none, some}
use zellimobile_server.Rust.Text.{is_empty, trim, parse_u16}
use zellimobile_server.Ctl.Screen.{Screen, next, prev}
use zellimobile_server.Ctl.Trust.{cycle}
use zellimobile_server.Ctl.State.{
  AppState, ip_picker, QrOverlay, browsing, creating, Minted, bind_addr, is_text_editing,
  selected_name,
}
use zellimobile_server.Ctl.Message.{Message, KeyCode, is_char, UpdateAction}
use zellimobile_server.Ctl.Sans.{build_sans_from_config}
use zellimobile_server.Ctl.Tokens.{name_or_none}
use zellimobile_server.Ctl.OverlaySteps.{ShowsCode, ScreenPolls}

-- The key is the letter, with or without Ctrl.
abbrev pub Pressed : ℕ → Message → Type 0
Pressed n (Message.key k) = is_char n k.code ≡ true
Pressed n _ = ⊥

abbrev pub Entered : Message → Type 0
Entered (Message.key k) = k.code ≡ KeyCode.enter
Entered _ = ⊥

-- The letter outside the Config form's text fields, or with Ctrl in them.
abbrev pub PressedInForm : AppState → ℕ → Message → Type 0
PressedInForm s n (Message.key k) =
    (is_char n k.code ≡ true) × ((s.config.focused ≡ ip_picker) ⊎ (k.ctrl ≡ true))
PressedInForm s n _ = ⊥

abbrev pub AsksQuit : AppState → Message → Type 0
AsksQuit s Message.quit = Unit
AsksQuit s (Message.key k) =
    ((k.ctrl ≡ true) × (is_char b'c' k.code ≡ true))
    ⊎ ((s.qr_overlay ≡ none) × (is_char b'q' k.code ≡ true) × (is_text_editing s ≡ false))
AsksQuit s _ = ⊥

-- The message enters the screen: it names it, or it is a key of the navigation.
abbrev pub Enters : AppState → Message → Screen → Type 0
Enters s (Message.nav_to named) to = to ≡ named
Enters s (Message.key k) to =
    (s.qr_overlay ≡ none)
    × (((k.code ≡ KeyCode.tab) × (to ≡ next s.screen))
        ⊎ ((k.code ≡ KeyCode.back_tab) × (to ≡ prev s.screen))
        ⊎ ((s.screen ≡ Screen.dashboard)
            × ((k.code ≡ KeyCode.right) ⊎ (k.code ≡ KeyCode.down))
            × (to ≡ next s.screen))
        ⊎ ((s.screen ≡ Screen.dashboard)
            × ((k.code ≡ KeyCode.left) ⊎ (k.code ≡ KeyCode.up))
            × (to ≡ prev s.screen)))
Enters s _ to = ⊥

-- The tick of a poll, of the screen or of a code that is shown: every twentieth of its counter.
abbrev pub PollDue : AppState → Type 0
PollDue s =
    ScreenPolls s
    ⊎ ((o : QrOverlay) × (s.qr_overlay ≡ some o)
        × ShowsCode o.phase
        × ((o.tick_counter + 1) % 2 ^ 32 % 20 ≡ 0))

-- The list of tokens has changed.
abbrev pub TellsChange : Message → Type 0
TellsChange (Message.token_created token name read_only) = Unit
TellsChange Message.tokens_changed = Unit
TellsChange _ = ⊥

-- What has to hold for an effect.
abbrev pub Permitted : AppState → Message → UpdateAction → Type 0
Permitted s m UpdateAction.quit = AsksQuit s m
Permitted s m UpdateAction.refresh_status =
    Enters s m Screen.server
    ⊎ Enters s m Screen.dashboard
    ⊎ ((m ≡ Message.tick) × (s.server.loading ≡ false) × PollDue s)
    ⊎ ((s.qr_overlay ≡ none)
        × (s.screen ≡ Screen.server)
        × (s.server.loading ≡ false)
        × Pressed b'r' m)
Permitted s m UpdateAction.load_config =
    Enters s m Screen.config
    ⊎ Enters s m Screen.cert
    ⊎ Enters s m Screen.dashboard
    ⊎ ((s.qr_overlay ≡ none)
        × (s.screen ≡ Screen.config)
        × (s.config.loading ≡ false)
        × PressedInForm s b'r' m)
Permitted s m UpdateAction.load_tokens =
    Enters s m Screen.tokens
    ⊎ Enters s m Screen.dashboard
    ⊎ TellsChange m
    ⊎ ((s.qr_overlay ≡ none)
        × (s.screen ≡ Screen.tokens)
        × (s.tokens.form_phase ≡ browsing)
        × (s.tokens.loading ≡ false)
        × Pressed b'r' m)
Permitted s m UpdateAction.load_cert_info = Enters s m Screen.dashboard
Permitted s m (UpdateAction.revoke_token name) =
    (s.qr_overlay ≡ none)
    × (s.screen ≡ Screen.tokens)
    × (s.tokens.form_phase ≡ browsing)
    × (s.tokens.loading ≡ false)
    × (selected_name s.tokens ≡ some name)
    × (Pressed b'd' m ⊎ Pressed b'x' m)
Permitted s m (UpdateAction.create_token name read_only) =
    (s.qr_overlay ≡ none)
    × (s.screen ≡ Screen.tokens)
    × (s.tokens.form_phase ≡ creating)
    × (s.tokens.loading ≡ false)
    × (name ≡ name_or_none (trim s.tokens.form_name))
    × (read_only ≡ s.tokens.form_read_only)
    × Entered m
Permitted s m (UpdateAction.show_token_qr token read_only seq trust) =
    (s.qr_overlay ≡ none)
    × (s.screen ≡ Screen.tokens)
    × (s.tokens.form_phase ≡ browsing)
    × ((minted : Minted) × (s.tokens.last_minted_secret ≡ some minted)
        × (minted.secret ≡ token)
        × (minted.read_only ≡ read_only))
    × (seq ≡ (s.qr_seq + 1) % 2 ^ 64)
    × (trust ≡ s.cert.advertise_trust)
    × Entered m
Permitted s m (UpdateAction.save_bind addr) =
    (s.qr_overlay ≡ none)
    × (s.screen ≡ Screen.config)
    × (s.config.loading ≡ false)
    × (is_empty (trim s.config.host) ≡ false)
    × (parse_u16 (trim s.config.port) ≢ none)
    × (addr ≡ bind_addr s.config)
    × (PressedInForm s b's' m ⊎ (Entered m × (s.config.focused ≢ ip_picker)))
Permitted s m (UpdateAction.ensure_cert sans) =
    (s.qr_overlay ≡ none)
    × (s.screen ≡ Screen.cert)
    × (s.cert.loading ≡ false)
    × (sans ≡ build_sans_from_config s)
    × (Pressed b'g' m ⊎ Pressed b'r' m)
Permitted s m (UpdateAction.save_advertise_trust t) =
    (s.qr_overlay ≡ none)
    × (s.screen ≡ Screen.cert)
    × (t ≡ cycle s.cert.advertise_trust)
    × Pressed b't' m
Permitted s m UpdateAction.start_server =
    (s.qr_overlay ≡ none) × (s.screen ≡ Screen.server) × (s.server.loading ≡ false) × Pressed b's' m
Permitted s m UpdateAction.stop_server =
    (s.qr_overlay ≡ none) × (s.screen ≡ Screen.server) × (s.server.loading ≡ false) × Pressed b'x' m
