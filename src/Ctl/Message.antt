-- ===== src/Ctl/Message.antt =====
-- muxrctl/src/app/message.rs and action.rs: what drives the app, and the effects that it asks for.
-- Of crossterm's key events the model keeps what the source reads: the code, with one constructor
-- for all the codes that no handler names, and whether Ctrl is held.
use zellimobile_server.Common.{ℕ, Char, code, String, Bool, false, List, Option, ◌==◌}
use zellimobile_server.Rust.Ip.{Ipv4Addr}
use zellimobile_server.Ctl.Screen.{Screen}
use zellimobile_server.Ctl.Trust.{AdvertiseTrust}
use zellimobile_server.Ctl.State.{San, ServerInfo, TokenRecord}

pub data KeyCode : Type 0 where
  char : Char → KeyCode
  tab back_tab enter esc backspace up down left right : KeyCode
  other_code : ℕ → KeyCode

pub record KeyEvent : Type 0 where
  pub code : KeyCode
  pub ctrl : Bool

-- `code == KeyCode::Char(n)`
abbrev pub is_char : ℕ → KeyCode → Bool
is_char n (char c) = code c == n
is_char n _ = false

pub record ConfigSnapshot : Type 0 where
  pub bind_addr : String
  pub cert_dir : String
  pub reachable_ips : List Ipv4Addr
  pub advertise_sans : List String

pub data Message : Type 0 where
  key : KeyEvent → Message
  tick quit : Message
  nav_to : Screen → Message
  status_loaded : Option ServerInfo → Message
  config_loaded : ConfigSnapshot → Message
  cert_ensured : (fingerprint : String) (sans : List String) → Message
  action_failed action_ok : String → Message
  tokens_loaded : List TokenRecord → Message
  token_created : (token name : String) (read_only : Bool) → Message
  tokens_changed : Message
  token_qr_ready :
      (uri host : String) (port : ℕ) (fingerprint_short : String) (baseline_clients seq : ℕ)
      → Message
  token_qr_failed : (err : String) (seq : ℕ) → Message
  cert_info_loaded : (fingerprint : Option String) (sans : List String) → Message

pub data UpdateAction : Type 0 where
  quit refresh_status start_server stop_server load_config : UpdateAction
  save_bind : String → UpdateAction
  ensure_cert : List San → UpdateAction
  load_tokens : UpdateAction
  create_token : (name : Option String) (read_only : Bool) → UpdateAction
  revoke_token : String → UpdateAction
  show_token_qr :
      (token : String) (read_only : Bool) (seq : ℕ) (advertise_trust : AdvertiseTrust)
      → UpdateAction
  load_cert_info : UpdateAction
  save_advertise_trust : AdvertiseTrust → UpdateAction
