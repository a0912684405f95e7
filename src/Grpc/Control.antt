-- ===== src/Grpc/Control.antt =====
-- muxrd/src/grpc/helpers.rs: acknowledgements, the gate for read-only tokens, and the routing of a
-- command to a relay. The order in which a scan meets the entries is that of the list. Logging is
-- not modelled, but for the prefix of an id that it shows.
pub mod Targets
pub mod Prefix
use zellimobile_server.Common.{
  ℕ, ◌+◌, ◌-◌, String, Bool, true, false, ◌&&◌, not, List, [], ◌∷◌, Option, none, some, leb, str_eq,
  if◌then◌else◌,
}
use zellimobile_server.Common.Map.{lookup, string_key}
use zellimobile_server.Rust.Text.{is_empty, concat}
use zellimobile_server.Rust.Bytes.{byte_len, take_bytes}
use zellimobile_server.Server.Backends.{BackendKind, zellij, herdr}
use zellimobile_server.Server.Routing
use zellimobile_server.Server.Routing.{is_collapsed_backend_session}
use zellimobile_server.Relay.Types.{RelayControl, ControlEntry}
use zellimobile_server.Relay.Attach.{Joined, joined, panicked}
use zellimobile_server.Mux.{Outcome, ok, failed}
use zellimobile_server.Mux.Ops.{ActionAck}

-- the message's `ActionAck`
pub record ProtoAck : Type 0 where
  pub ok : Bool
  pub error : String
  pub info : String

pub data Status : Type 0 where
  permission_denied : (message : String) → Status
  invalid_argument : (message : String) → Status
  not_found : (message : String) → Status
  internal : (message : String) → Status
  -- as `resolve_session` gives it
  routing : Routing.Status → Status

-- A chain of checks, of which the first that fails answers.
pub data Checked {ℓ} (A : Type ℓ) : Type ℓ where
  pass : A → Checked A
  reject : Status → Checked A

infixl 5 ◌>>=◌
abbrev pub ◌>>=◌ {ℓ κ} : {A : Type ℓ} {B : Type κ} → Checked A → (A → Checked B) → Checked B
pass a >>= f = f a
reject e >>= f = reject e

-- `reject_if_read_only`, of the extension that the authentication sets.
unfoldable pub reject_if_read_only : Option Bool → Checked (Unit {0})
reject_if_read_only (some true) =
    reject (permission_denied "session token is read-only — mutating operations are not allowed")
reject_if_read_only (some false) = pass tt
reject_if_read_only none =
    reject (
      permission_denied
        "internal auth error: read-only flag not set — request denied (fail-closed)")

abbrev pub failure : String → ProtoAck
failure e = record { ok = false; error = e; info = "" }

abbrev pub success : String → ProtoAck
success i = record { ok = true; error = ""; info = i }

-- `unwrap_or_default`
abbrev pub or_empty : Option String → String
or_empty none = ""
or_empty (some s) = s

abbrev pub to_proto : ActionAck → ProtoAck
to_proto a = record { ok = a.ok; error = or_empty a.error; info = or_empty a.info }

-- `run_action`
unfoldable pub run_action : String → Joined (Outcome ActionAck) → Checked ProtoAck
run_action rpc (joined (ok ack)) = pass (to_proto ack)
run_action rpc (joined (failed e)) = reject (internal (concat rpc (concat ": " e)))
run_action rpc (panicked e) = reject (internal (concat rpc (concat ": action task panicked: " e)))

-- `short_conn`: the first 8 bytes of an id, or none where Rust panics.
unfoldable pub short_conn : String → Option String
short_conn id = take_bytes id (if leb 8 (byte_len id) then 8 else byte_len id)

-- `proto_backend` and `kind_from_proto`; the proto's tag is unspecified, zellij or herdr.
pub data ProtoBackend : Type 0 where
  unspecified zellij_tag herdr_tag : ProtoBackend

unfoldable pub proto_backend : BackendKind → ProtoBackend
proto_backend zellij = zellij_tag
proto_backend herdr = herdr_tag

unfoldable pub kind_from_proto : ProtoBackend → Option BackendKind
kind_from_proto zellij_tag = some zellij
kind_from_proto herdr_tag = some herdr
kind_from_proto unspecified = none

-- `control.get(id).filter(|entry| entry.session == session)`
abbrev pub of_session : String → Option ControlEntry → Option ControlEntry
of_session session none = none
of_session session (some e) = if str_eq e.session session then some e else none

unfoldable pub exact_relay : List (String × ControlEntry) → String → String → Option ControlEntry
exact_relay control session id =
    if is_empty id then none else of_session session (lookup id control)

-- `iter().find(|entry| entry.session == session && !entry.read_only)`
unfoldable pub writable_relay : List (String × ControlEntry) → String → Option ControlEntry
writable_relay [] session = none
writable_relay ((_, e) ∷ rest) session =
    if str_eq e.session session && not e.read_only then some e else writable_relay rest session

-- The answer, and the commands that reached a relay's channel.
pub record Routed : Type 0 where
  pub answer : Option ProtoAck
  pub sent : List (ℕ × RelayControl)

abbrev pub unrouted : Routed
unrouted = record { answer = none; sent = [] }

abbrev pub reattach : ProtoAck
reattach = failure "reattach required (no matching connection)"

module _ (alive : ℕ → Bool) (cmd : RelayControl) where
  -- A send on a channel, which fails if its relay is gone, and what is answered then.
  unfoldable pub send_to : ControlEntry → String → Option ProtoAck → Routed
  send_to e info otherwise =
      if alive e.sender
      then record { answer = some (success info); sent = (e.sender, cmd) ∷ [] }
      else record { answer = otherwise; sent = [] }

  unfoldable pub route_collapsed : Option ControlEntry → Routed
  unfolding send_to
  route_collapsed none = record { answer = some reattach; sent = [] }
  route_collapsed (some e) = send_to e "routed via relay client (per-connection)" (some reattach)

  unfoldable pub route_fallback : Option ControlEntry → Routed
  unfolding send_to
  route_fallback none = unrouted
  route_fallback (some e) = send_to e "routed via relay client (session fallback, writable)" none

  unfoldable pub route_open : Option ControlEntry → Option ControlEntry → Routed
  unfolding send_to route_fallback
  route_open (some e) other = send_to e "routed via relay client (per-connection)" none
  route_open none other = route_fallback other

  -- `try_route_control`
  unfoldable pub try_route_control : List (String × ControlEntry) → String → String → Routed
  unfolding exact_relay writable_relay route_collapsed route_open is_collapsed_backend_session
  try_route_control control session connection_id =
      let exact = exact_relay control session connection_id in
      if is_collapsed_backend_session session
      then route_collapsed exact
      else route_open exact (writable_relay control session)
