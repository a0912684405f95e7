-- ===== src/Ctl/State.antt =====
-- muxrctl/src/app/state.rs: the records of the application state.
use zellimobile_server.Common.{
  ℕ, String, Bool, true, false, List, [], Option, none, some, get_elem?,
}
use zellimobile_server.Rust.Text.{rsplit_at, trim, concat}
use zellimobile_server.Rust.Ip.{Ipv4Addr, parse_ip}
use zellimobile_server.Ctl.Screen.{Screen}
use zellimobile_server.Ctl.Trust.{AdvertiseTrust, auto}

pub data San : Type 0 where
  ip dns : String → San

-- `San::from_host`
unfoldable pub from_host : String → San
from_host host = elim (parse_ip (trim host)) [ none ↦ dns (trim host) | some _ ↦ ip (trim host) ]

unfoldable pub value : San → String
value (ip s) = s
value (dns s) = s

pub record ServerInfo : Type 0 where
  pub version : String
  pub bind_addr : String
  pub pid : ℕ
  pub uptime_secs : ℕ
  pub client_count : ℕ

pub data ConfigField : Type 0 where
  host port ip_picker : ConfigField

pub record ConfigState : Type 0 where
  pub host : String
  pub port : String
  pub reachable_ips : List Ipv4Addr
  pub ip_cursor : ℕ
  pub focused : ConfigField
  pub cert_dir : String
  pub advertise_sans : List String
  pub status : String
  pub loading : Bool

-- `ConfigState::bind_addr`
unfoldable pub bind_addr : ConfigState → String
bind_addr c = concat c.host (concat ":" c.port)

-- `ConfigState::apply_bind_addr`
unfoldable pub apply_bind_addr : ConfigState → String → ConfigState
apply_bind_addr c addr = elim (rsplit_at b':' addr) [
  | some (before, after) ↦ record c { host = before; port = after }
  | none ↦ record c { host = addr; port = "50051" }
]

pub record CertState : Type 0 where
  pub fingerprint : String
  pub sans : List String
  pub status : String
  pub loading : Bool
  pub advertise_trust : AdvertiseTrust

pub data TokensFormPhase : Type 0 where
  browsing creating : TokensFormPhase

pub record TokenRecord : Type 0 where
  pub name : String
  pub created_at : String
  pub read_only : Bool

-- The one-time secret: the token's name, its plaintext, and whether it is read-only.
pub record Minted : Type 0 where
  pub name : String
  pub secret : String
  pub read_only : Bool

pub record TokensState : Type 0 where
  pub tokens : List TokenRecord
  pub cursor : ℕ
  pub loading : Bool
  pub status : String
  pub last_minted_secret : Option Minted
  pub form_phase : TokensFormPhase
  pub form_name : String
  pub form_read_only : Bool

unfoldable pub selected_name : TokensState → Option String
selected_name t = elim (get_elem? t.tokens t.cursor) [ none ↦ none | some r ↦ some r.name ]

pub data QrOverlayPhase : Type 0 where
  generating : QrOverlayPhase
  showing : (uri qr_host : String) (qr_port : ℕ) (fingerprint_short : String) → QrOverlayPhase
  connected : QrOverlayPhase
  failed : (err : String) → QrOverlayPhase

pub record QrOverlay : Type 0 where
  pub phase : QrOverlayPhase
  pub seq : ℕ
  pub baseline_clients : ℕ
  pub token_name : String
  pub read_only : Bool
  pub tick_counter : ℕ

pub record ServerPanelState : Type 0 where
  pub status : Option ServerInfo
  pub stopped : Bool
  pub loading : Bool
  pub action_msg : String
  pub tick_counter : ℕ

pub record AppState : Type 0 where
  pub screen : Screen
  pub should_quit : Bool
  pub config : ConfigState
  pub cert : CertState
  pub server : ServerPanelState
  pub tokens : TokensState
  pub qr_overlay : Option QrOverlay
  pub qr_seq : ℕ

-- `AppState::new`
abbrev pub new : AppState
new = record {
  screen = Screen.dashboard;
  should_quit = false;
  config = record {
    host = "";
    port = "";
    reachable_ips = [];
    ip_cursor = 0;
    focused = ConfigField.host;
    cert_dir = "";
    advertise_sans = [];
    status = "";
    loading = false;
  };
  cert = record {
    fingerprint = "";
    sans = [];
    status = "";
    loading = false;
    advertise_trust = auto;
  };
  server = record {
    status = none;
    stopped = false;
    loading = false;
    action_msg = "";
    tick_counter = 0;
  };
  tokens = record {
    tokens = [];
    cursor = 0;
    loading = false;
    status = "";
    last_minted_secret = none;
    form_phase = browsing;
    form_name = "";
    form_read_only = false;
  };
  qr_overlay = none;
  qr_seq = 0;
}

abbrev pub is_text_field : ConfigField → Bool
is_text_field host = true
is_text_field port = true
is_text_field ip_picker = false

abbrev pub is_creating : TokensFormPhase → Bool
is_creating creating = true
is_creating browsing = false

abbrev editing_on : Screen → ConfigField → TokensFormPhase → Bool
editing_on Screen.config f p = is_text_field f
editing_on Screen.tokens f p = is_creating p
editing_on _ f p = false

-- `AppState::is_text_editing`
unfoldable pub is_text_editing : AppState → Bool
is_text_editing s = editing_on s.screen s.config.focused s.tokens.form_phase
