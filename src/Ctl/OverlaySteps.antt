-- ===== src/Ctl/OverlaySteps.antt =====
-- The QR overlay as a state machine (muxrctl/src/app/update.rs): which changes of its phase a
-- message makes, and which messages leave it as it is.
use zellimobile_server.Common.{
  ℕ, ◌<◌, ◌≤◌, ◌+◌, ◌%◌, ◌^◌, ◌≡◌, ◌≢◌, sym, subst, ◌⊎◌, true, false, Option, none, some, String,
}
use zellimobile_server.Ctl.Screen.{Screen}
use zellimobile_server.Ctl.State.{
  AppState, ServerInfo, Minted, QrOverlay, QrOverlayPhase, browsing, creating, generating, showing,
  connected, failed,
}
use zellimobile_server.Ctl.Message.{Message, KeyEvent, KeyCode, is_char}

-- Enter in the token list, while the secret of a new token is held.
abbrev pub ShowsQr : AppState → KeyEvent → Minted → Type 0
ShowsQr s k minted =
    (s.screen ≡ Screen.tokens)
    × (s.tokens.form_phase ≡ browsing)
    × (k.code ≡ KeyCode.enter)
    × (s.tokens.last_minted_secret ≡ some minted)

-- A code is shown.
abbrev pub ShowsCode : QrOverlayPhase → Type 0
ShowsCode (showing uri host port fp) = Unit
ShowsCode _ = ⊥

-- The keys that close an overlay.
abbrev pub ClosesOverlay : KeyEvent → Type 0
ClosesOverlay k = (k.code ≡ KeyCode.esc) ⊎ (is_char b'q' k.code ≡ true)

-- The tick of a poll of the screens that show the status, every twentieth of their counter.
abbrev pub ScreenPolls : AppState → Type 0
ScreenPolls s =
    ((s.screen ≡ Screen.server) ⊎ (s.screen ≡ Screen.dashboard))
    × ((s.server.tick_counter + 1) % 2 ^ 32 % 20 ≡ 0)

-- The messages that leave the overlay as it is; with no overlay, every message but the key that
-- opens one.
abbrev pub Ignored : AppState → Message → Option QrOverlay → Type 0
Ignored s (Message.key k) none =
    (s.screen ≢ Screen.tokens)
    ⊎ (s.tokens.form_phase ≡ creating)
    ⊎ (k.code ≢ KeyCode.enter)
    ⊎ (s.tokens.last_minted_secret ≡ none)
Ignored s _ none = Unit
Ignored s (Message.key k) (some o) = (k.code ≢ KeyCode.esc) × (is_char b'q' k.code ≡ false)
Ignored s Message.tick (some o) = (¬ ShowsCode o.phase) ⊎ (s.server.loading ≡ true) ⊎ ScreenPolls s
Ignored s (Message.status_loaded (some info)) (some o) =
    (¬ ShowsCode o.phase) ⊎ (info.client_count ≤ o.baseline_clients)
Ignored s (Message.token_qr_ready uri host port fp clients seq) (some o) = o.seq ≢ seq
Ignored s (Message.token_qr_failed err seq) (some o) = o.seq ≢ seq
Ignored s _ (some o) = Unit

-- The steps of the overlay of `s` at the message `m`; `b` is the overlay after it.
pub data OverlayStep (s : AppState) (m : Message) (b : Option QrOverlay) : Type 0 where
  idle : Ignored s m s.qr_overlay → b ≡ s.qr_overlay → OverlayStep s m b
  opened :
      (k : KeyEvent) (minted : Minted)
      → m ≡ Message.key k
      → ShowsQr s k minted
      → s.qr_overlay ≡ none
      → b
        ≡ some (record {
          phase = generating;
          seq = (s.qr_seq + 1) % 2 ^ 64;
          baseline_clients = 0;
          token_name = minted.name;
          read_only = minted.read_only;
          tick_counter = 0;
        })
      → OverlayStep s m b
  closed :
      (k : KeyEvent) (o : QrOverlay)
      → m ≡ Message.key k
      → ClosesOverlay k
      → s.qr_overlay ≡ some o
      → b ≡ none
      → OverlayStep s m b
  ticked :
      (o : QrOverlay)
      → m ≡ Message.tick
      → s.qr_overlay ≡ some o
      → ShowsCode o.phase
      → s.server.loading ≡ false
      → ¬ ScreenPolls s
      → b ≡ some (record o { tick_counter = (o.tick_counter + 1) % 2 ^ 32 })
      → OverlayStep s m b
  ready :
      (o : QrOverlay) (uri host : String) (port : ℕ) (fp : String) (clients : ℕ)
      → m ≡ Message.token_qr_ready uri host port fp clients o.seq
      → s.qr_overlay ≡ some o
      → b ≡ some (record o { baseline_clients = clients; phase = showing uri host port fp })
      → OverlayStep s m b
  broken :
      (o : QrOverlay) (err : String)
      → m ≡ Message.token_qr_failed err o.seq
      → s.qr_overlay ≡ some o
      → b ≡ some (record o { phase = failed err })
      → OverlayStep s m b
  joined :
      (o : QrOverlay) (info : ServerInfo)
      → m ≡ Message.status_loaded (some info)
      → s.qr_overlay ≡ some o
      → ShowsCode o.phase
      → o.baseline_clients < info.client_count
      → b ≡ some (record o { phase = connected })
      → OverlayStep s m b

-- A step from a state whose overlay is known to be `a`.
pub idle_at :
    {s : AppState} {m : Message} {b : Option QrOverlay} (a : Option QrOverlay)
    → s.qr_overlay ≡ a
    → Ignored s m a
    → b ≡ s.qr_overlay
    → OverlayStep s m b
idle_at {s} {m} a e i same = idle (subst (Ignored s m) (sym e) i) same
