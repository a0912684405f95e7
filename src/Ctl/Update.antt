-- ===== src/Ctl/Update.antt =====
-- muxrctl/src/app/update.rs: `update`, the results of the background tasks, and runs of messages.
use zellimobile_server.Common.{
  ℕ, ◌-◌, String, true, false, List, [], ◌∷◌, ◌++◌, Option, none, some, length, leb, ◌==◌,
  if◌then◌else◌,
}
use zellimobile_server.Rust.Text.{concat}
use zellimobile_server.Ctl.Screen.{Screen}
use zellimobile_server.Ctl.State.{
  AppState, ServerInfo, TokenRecord, QrOverlay, browsing, showing, failed, apply_bind_addr,
}
use zellimobile_server.Ctl.Message.{Message, UpdateAction, ConfigSnapshot}
use zellimobile_server.Ctl.Config.{Step, set_config}
use zellimobile_server.Ctl.Panels.{set_cert, set_server}
use zellimobile_server.Ctl.Tokens.{set_tokens}
use zellimobile_server.Ctl.Nav.{transition_to}
use zellimobile_server.Ctl.Poll.{handle_tick, check_overlay_connection}
use zellimobile_server.Ctl.Keys.{handle_key, quit_now}

-- The message on the status line of the screen that is shown.
unfoldable pub set_status : AppState → String → AppState
set_status s msg = elim s.screen [
  | Screen.config ↦ set_config s (record (s.config) { status = msg })
  | Screen.cert ↦ set_cert s (record (s.cert) { status = msg })
  | Screen.server ↦ set_server s (record (s.server) { action_msg = msg })
  | Screen.tokens ↦ set_tokens s (record (s.tokens) { status = msg })
  | Screen.dashboard ↦ s
]

unfoldable pub clear_loading : AppState → AppState
clear_loading s = record s {
  config = record (s.config) { loading = false };
  cert = record (s.cert) { loading = false };
  server = record (s.server) { loading = false };
  tokens = record (s.tokens) { loading = false };
}

unfoldable pub status_loaded : AppState → Option ServerInfo → AppState
unfolding check_overlay_connection
status_loaded s none =
    set_server s (record (s.server) { status = none; stopped = true; loading = false })
status_loaded s (some info) =
    check_overlay_connection
      (set_server s (record (s.server) { status = some info; stopped = false; loading = false }))
      info.client_count

unfoldable pub config_loaded : AppState → ConfigSnapshot → AppState
config_loaded s snap =
    let c = apply_bind_addr s.config snap.bind_addr in
    set_config s (record c {
      cert_dir = snap.cert_dir;
      reachable_ips = snap.reachable_ips;
      advertise_sans = snap.advertise_sans;
      ip_cursor = if leb (length snap.reachable_ips) c.ip_cursor then 0 else c.ip_cursor;
      loading = false;
      status = "Config loaded.";
    })

unfoldable pub tokens_loaded : AppState → List TokenRecord → AppState
tokens_loaded s records = set_tokens s (record (s.tokens) {
  tokens = records;
  cursor = if leb (length records) s.tokens.cursor then length records - 1 else s.tokens.cursor;
  loading = false;
  status = "Tokens loaded.";
})

-- A result for the overlay is taken only under the overlay's own sequence number.
unfoldable pub on_overlay : AppState → ℕ → (QrOverlay → QrOverlay) → AppState
on_overlay s seq f = elim s.qr_overlay [
  | none ↦ s
  | some o ↦ if o.seq == seq then record s { qr_overlay = some (f o) } else s
]

-- `update`
unfoldable pub update : AppState → Message → Step
unfolding status_loaded config_loaded tokens_loaded on_overlay set_status clear_loading
update s (Message.key k) = handle_key s k
update s Message.tick = handle_tick s
update s Message.quit = quit_now s
update s (Message.nav_to to) = transition_to s to
update s (Message.status_loaded info) = (status_loaded s info, [])
update s (Message.config_loaded snap) = (config_loaded s snap, [])
update s (Message.cert_ensured fingerprint sans) = (
  set_cert s (record (s.cert) {
    fingerprint = fingerprint;
    sans = sans;
    loading = false;
    status = "Certificate ready.";
  }),
  [],
)
update s (Message.cert_info_loaded fingerprint sans) = (
  set_cert s (record (s.cert) {
    fingerprint = elim fingerprint [ none ↦ "" | some f ↦ f ];
    sans = sans;
    loading = false;
  }),
  [],
)
update s (Message.action_failed msg) = (clear_loading (set_status s (concat "Error: " msg)), [])
update s (Message.action_ok msg) = (clear_loading (set_status s msg), [])
update s (Message.tokens_loaded records) = (tokens_loaded s records, [])
update s (Message.token_created token name read_only) = (
  set_tokens s (record (s.tokens) {
    last_minted_secret = some (record { name = name; secret = token; read_only = read_only });
    loading = false;
    form_phase = browsing;
    form_name = "";
  }),
  UpdateAction.load_tokens ∷ [],
)
update s Message.tokens_changed = (
  set_tokens s (record (s.tokens) { loading = false; last_minted_secret = none }),
  UpdateAction.load_tokens ∷ [],
)
update s (Message.token_qr_ready uri host port fingerprint_short baseline_clients seq) = (
  on_overlay s seq (λ o. record o {
    baseline_clients = baseline_clients;
    phase = showing uri host port fingerprint_short;
  }),
  [],
)
update s (Message.token_qr_failed err seq) =
    (on_overlay s seq (λ o. record o { phase = failed err }), [])

-- Messages in the order in which they arrive.
unfoldable pub run : AppState → List Message → AppState
run s [] = s
run s (m ∷ ms) = run (update s m).0 ms

-- The effects that they ask for.
unfoldable pub actions_of : AppState → List Message → List UpdateAction
actions_of s [] = []
actions_of s (m ∷ ms) = (update s m).1 ++ actions_of (update s m).0 ms
