-- ===== src/Ctl/Panels.antt =====
-- muxrctl/src/app/update.rs: the keys of the Cert and the Server screen.
use zellimobile_server.Common.{String, true, false, [], ◌∷◌, if◌then◌else◌}
use zellimobile_server.Ctl.State.{AppState, CertState, ServerPanelState}
use zellimobile_server.Ctl.Trust.{cycle}
use zellimobile_server.Ctl.Message.{KeyEvent, is_char, UpdateAction}
use zellimobile_server.Ctl.Config.{Step}
use zellimobile_server.Ctl.Sans.{build_sans_from_config}

abbrev pub set_cert : AppState → CertState → AppState
set_cert s c = record s { cert = c }

abbrev pub set_server : AppState → ServerPanelState → AppState
set_server s p = record s { server = p }

ensure : AppState → String → Step
ensure s status = if s.cert.loading then (s, []) else (
  set_cert s (record (s.cert) { loading = true; status = status }),
  UpdateAction.ensure_cert (build_sans_from_config s) ∷ [],
)

toggle_trust : AppState → Step
toggle_trust s = (
  set_cert s (record (s.cert) { advertise_trust = cycle s.cert.advertise_trust }),
  UpdateAction.save_advertise_trust (cycle s.cert.advertise_trust) ∷ [],
)

-- `handle_cert_key`
unfoldable pub handle_cert_key : AppState → KeyEvent → Step
unfolding ensure toggle_trust
handle_cert_key s k =
    if is_char b'g' k.code
    then ensure s "Generating cert…"
    else if is_char b'r' k.code
    then ensure s "Refreshing…"
    else if is_char b't' k.code
    then toggle_trust s
    else (s, [])

start : AppState → Step
start s = if s.server.loading then (s, []) else (
  set_server s
      (record (s.server) { loading = true; stopped = false; action_msg = "Starting server…" }),
  UpdateAction.start_server ∷ [],
)

stop : AppState → Step
stop s = if s.server.loading then (s, []) else (
  set_server s (record (s.server) { loading = true; action_msg = "Stopping server…" }),
  UpdateAction.stop_server ∷ [],
)

refresh : AppState → Step
refresh s = if s.server.loading then (s, []) else (
  set_server s (record (s.server) { loading = true; action_msg = "" }),
  UpdateAction.refresh_status ∷ [],
)

-- `handle_server_key`
unfoldable pub handle_server_key : AppState → KeyEvent → Step
unfolding start stop refresh
handle_server_key s k =
    if is_char b's' k.code
    then start s
    else if is_char b'x' k.code
    then stop s
    else if is_char b'r' k.code
    then refresh s
    else (s, [])
