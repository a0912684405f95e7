-- ===== src/Ctl/Tests.antt =====
-- Runs of muxrctl's application (muxrctl/src/app/update.rs) at concrete inputs.
use zellimobile_server.Common.{
  ◌≡◌, ◌≢◌, ◌↔◌, Char, true, false, List, [], ◌∷◌, none, some, map, All,
}
use zellimobile_server.Rust.Text.{trim, parse_u16, is_empty}
use zellimobile_server.Ctl.Screen.{Screen}
use zellimobile_server.Ctl.State.{AppState, QrOverlay, TokenRecord, showing, new, value, bind_addr}
use zellimobile_server.Ctl.Message.{Message, KeyCode, char, UpdateAction}
use zellimobile_server.Ctl.Config.{config_save}
use zellimobile_server.Ctl.Sans.{build_sans_from_config}
use zellimobile_server.Ctl.Update.{update, run, actions_of}
use zellimobile_server.Ctl.Permits.{Permitted}
use zellimobile_server.Ctl.Effects.{update-Permitted}
use zellimobile_server.Ctl.Valid.{IsValid, run-new-IsValid}
use zellimobile_server.Ctl.OverlaySteps.{OverlayStep}
use zellimobile_server.Ctl.Overlay.{update-OverlayStep}
use zellimobile_server.Ctl.Secret.{IsTraced, actions_of-new-IsTraced}
use zellimobile_server.Ctl.Address.{ReadsBack, save_bind-ReadsBack, config_save_iff}
use zellimobile_server.Ctl.Dedup.{dedup}
use zellimobile_server.Ctl.Candidates.{candidates}
use zellimobile_server.Ctl.Names.{build_sans-eq-dedup}

abbrev pressed : Char → Message
pressed c = Message.key (record { code = char c; ctrl = false })

abbrev laptop : TokenRecord
laptop = record { name = "laptop"; created_at = "2026-01-01"; read_only = false }

abbrev phone : TokenRecord
phone = record { name = "phone"; created_at = "2026-01-02"; read_only = true }

-- The token list is opened and loaded, and the cursor moved to its second row.
abbrev listing : List Message
listing =
    Message.nav_to Screen.tokens ∷ Message.tokens_loaded (laptop ∷ phone ∷ []) ∷ pressed "j" ∷ []

-- A token is minted, its QR code is asked for, and the overlay closed.
abbrev pairing : List Message
pairing =
    Message.nav_to Screen.tokens
    ∷ Message.token_created "s3cret" "phone" true
    ∷ Message.key (record { code = KeyCode.enter; ctrl = false })
    ∷ pressed "q"
    ∷ []

-- The Tokens screen with two rows.
abbrev two_rows : AppState
two_rows = record new {
  screen = Screen.tokens;
  tokens = record (new.tokens) { tokens = laptop ∷ phone ∷ []; cursor = 1 };
}

-- The overlay shows a code.
abbrev overlay : QrOverlay
overlay = record {
  phase = showing "muxr://pair" "10.0.0.2" 50051 "ab:cd";
  seq = 1;
  baseline_clients = 0;
  token_name = "phone";
  read_only = true;
  tick_counter = 19;
}

abbrev pairing_state : AppState
pairing_state = record new { qr_overlay = some overlay; qr_seq = 1 }

-- The Config form, filled in with an IPv6 host.
abbrev filled : AppState
filled = record new {
  screen = Screen.config;
  config = record (new.config) {
    host = "[::1]";
    port = "50051";
    reachable_ips =
        record { a = 10; b = 0; c = 0; d = 2 } ∷ record { a = 0; b = 0; c = 0; d = 0 } ∷ [];
    advertise_sans = " box.local" ∷ "10.0.0.2" ∷ [];
  };
}

update-Permitted_example : All (Permitted two_rows (pressed "d")) (update two_rows (pressed "d")).1
update-Permitted_example = update-Permitted two_rows (pressed "d")

update-OverlayStep_example :
    OverlayStep pairing_state
      (Message.token_qr_failed "no route" 1)
      (update pairing_state (Message.token_qr_failed "no route" 1)).0.qr_overlay
update-OverlayStep_example = update-OverlayStep pairing_state (Message.token_qr_failed "no route" 1)

run-new-IsValid_example : IsValid (run new listing)
run-new-IsValid_example = run-new-IsValid listing

actions_of-new-IsTraced_example : All (IsTraced pairing) (actions_of new pairing)
actions_of-new-IsTraced_example = actions_of-new-IsTraced pairing

save_bind-ReadsBack_example :
    All
      (ReadsBack new.config filled)
      (update filled (Message.key (record { code = KeyCode.enter; ctrl = false }))).1
save_bind-ReadsBack_example =
    save_bind-ReadsBack new.config filled
      (Message.key (record { code = KeyCode.enter; ctrl = false }))

build_sans-eq-dedup_example : map value (build_sans_from_config filled) ≡ dedup (candidates filled)
build_sans-eq-dedup_example = build_sans-eq-dedup filled

config_save_iff_example :
    ((config_save filled).1 ≡ UpdateAction.save_bind (bind_addr filled.config) ∷ []) ↔ (
      (filled.config.loading ≡ false)
      × (is_empty (trim filled.config.host) ≡ false)
      × (parse_u16 (trim filled.config.port) ≢ none))
config_save_iff_example = config_save_iff filled
