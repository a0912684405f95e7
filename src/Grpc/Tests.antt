-- ===== src/Grpc/Tests.antt =====
-- The services at concrete inputs (muxrd/src/grpc).
use zellimobile_server.Common.{
  str_eq, if◌then◌else◌, Char, ℕ, String, true, false, List, [], ◌∷◌, Option, none, some, ◌≡◌, refl,
  ◌⊎◌, inl, All, arith,
}
use zellimobile_server.Clients
use zellimobile_server.Common.Map.{lookup, string_key}
use zellimobile_server.Mux
use zellimobile_server.Mux.{failed}
use zellimobile_server.Rust.Bytes.{byte_len}
use zellimobile_server.Rust.Splits.{split_once}
use zellimobile_server.Server.Backends.{BackendKind, BackendSet, zellij, herdr, get}
use zellimobile_server.Server.Routing
use zellimobile_server.Server.Routing.{
  parse_backend_kind, all_name_chars, is_collapsed_backend_session, resolve_session_kind,
}
use zellimobile_server.Relay.Types
use zellimobile_server.Relay.Types.{no_view, ControlEntry, ViewStateEntry}
use zellimobile_server.Relay.Attach.{joined}
use zellimobile_server.Grpc.Control.{
  ProtoAck, zellij_tag, exact_relay, writable_relay, short_conn, try_route_control, proto_backend,
}
use zellimobile_server.Grpc.Control.Targets.{IsTarget, Reaches, try_route_control-Reaches}
use zellimobile_server.Grpc.Control.Prefix.{short_conn-inside}
use zellimobile_server.Grpc.Requests
use zellimobile_server.Grpc.Requests.{PaneTarget, pane_ref, Outside, cancelled, resolve}
use zellimobile_server.Grpc.Services.{handle, is_gated}
use zellimobile_server.Grpc.Services.Gate.{IsDenied, handle-IsDenied, focus_pane-writable}
use zellimobile_server.Grpc.Services.Passed.{IsSane}
use zellimobile_server.Grpc.Services.Sane.{handle-Sane}
use zellimobile_server.Grpc.Services.LastSpace.{OnlyLists, SawOthers, close_space-OnlyLists}
use zellimobile_server.Grpc.Layout
use zellimobile_server.Grpc.Layout.{LayoutOutside}
use zellimobile_server.Grpc.Listing.{Reached, found, Found, SessionInfo, list_sessions}
use zellimobile_server.Grpc.Listing.Resolve.{list_sessions-resolve}

-- One relay on zellij that may write, and one that may not.
abbrev relays : List (String × ControlEntry)
relays =
    ("c1", record { session = "zellij:dev"; sender = 1; read_only = true })
    ∷ ("c2", record { session = "zellij:dev"; sender = 2; read_only = false })
    ∷ []

abbrev check_name : String → Option String
check_name name = none

abbrev outside : Outside String
outside = record {
  backends = record { backends = (zellij, "z") ∷ (herdr, "h") ∷ [] };
  control = relays;
  view_state = [];
  alive = λ _. true;
  acts = λ _ _. joined (failed "no");
  kills = λ _ _. joined (failed "no");
  spaces = λ _. joined (Mux.ok (record { id = "w1"; name = "one"; active = true } ∷ []));
  spaces_after = λ _. joined (failed "no");
  waited = cancelled;
  fresh_reply = 9;
}

try_route_control-Reaches_example :
    let r = try_route_control (λ _. true) (Types.switch_tab 3) relays "zellij:dev" "c1" in
    Reaches
      (Types.switch_tab 3)
      (IsTarget (λ _. true) (Types.switch_tab 3) relays "zellij:dev" "c1")
      r
    × ((is_collapsed_backend_session "zellij:dev" ≡ false) ⊎ ((a : ProtoAck) × (r.answer ≡ some a)))
try_route_control-Reaches_example =
    try_route_control-Reaches (λ _. true) (Types.switch_tab 3) relays "zellij:dev" "c1"

-- The letter e with an acute accent, which takes two bytes.
abbrev e_acute : Char
e_acute = "é"

short_conn-inside_example : short_conn "1234567é" ≡ none
unfolding byte_len
short_conn-inside_example = short_conn-inside "1234567" "" e_acute (omega arith) (omega arith)

handle-IsDenied_example :
    IsDenied (handle check_name (some true) outside (Requests.kill_session "zellij:dev"))
unfolding is_gated
handle-IsDenied_example =
    handle-IsDenied check_name outside (some true) (Requests.kill_session "zellij:dev") refl
      (λ e. cc)

abbrev pane : PaneTarget
pane = record { session = "zellij:dev"; pane_id = 4; is_plugin = false; connection_id = "c7" }

focus_pane-writable_example :
    (handle check_name (some true) outside (Requests.focus_pane pane)).sent
    ≡ (2, Types.focus_pane (pane_ref pane)) ∷ []
unfolding resolve split_once parse_backend_kind get all_name_chars is_collapsed_backend_session
    exact_relay lookup writable_relay
focus_pane-writable_example =
    focus_pane-writable check_name outside pane ("z", "dev")
      (record { session = "zellij:dev"; sender = 2; read_only = false }) refl refl refl refl refl

handle-Sane_example :
    All
      (λ x. IsSane check_name x.1)
      (handle check_name (some false) outside (Requests.new_tab "zellij:dev" "t")).ops
handle-Sane_example =
    handle-Sane check_name outside (some false) (Requests.new_tab "zellij:dev" "t")

close_space-OnlyLists_example :
    let d = handle check_name (some false) outside (Requests.close_space "herdr:herdr" "" "w1") in
    OnlyLists d ⊎ SawOthers check_name outside "herdr:herdr" "w1" d
close_space-OnlyLists_example =
    close_space-OnlyLists check_name outside (some false) "herdr:herdr" "" "w1"

abbrev layouts : LayoutOutside
layouts = record {
  control = relays;
  view_state = ("c1", record { session = "zellij:dev"; state = no_view }) ∷ [];
  alive = λ _. true;
  waited = λ _. Layout.cancelled;
  fresh_reply = 9;
  ephemeral = joined (Mux.ok (record { tabs = [] }));
}

-- Another client's view, which is of another tab.
abbrev other_views : List (String × ViewStateEntry)
other_views =
    ("c2", record { session = "zellij:dev"; state = record no_view { active_tab = some 4 } })
    ∷ layouts.view_state

abbrev own_relay_only : List (String × ControlEntry)
own_relay_only = ("c1", record { session = "zellij:dev"; sender = 1; read_only = true }) ∷ []

-- Only the relay of `c1` does not answer.
abbrev others_answer : String → Layout.LayoutWait
others_answer id =
    if str_eq id "c1" then Layout.cancelled else Layout.replied (Mux.ok (record { tabs = [] }))

abbrev dev_sessions : String → Reached (List Found)
dev_sessions b = found (record { name = "dev"; age_secs = 5; resurrectable = false } ∷ [])

abbrev no_spaces : String → Reached ℕ
no_spaces b = found 0

abbrev two : BackendSet String
two = record { backends = (zellij, "z") ∷ [] }

abbrev dev_info : SessionInfo
dev_info = record {
  name = "dev";
  age_secs = 5;
  resurrectable = false;
  tab_count = 0;
  pane_count = 0;
  has_bell = false;
  is_current = false;
  connected_clients = 0;
  backend = zellij_tag;
  id = "zellij:dev";
  space_count = 0;
}

list_sessions-resolve_example :
    (kind : BackendKind) × (b : String) × (resolve_session_kind check_name two "zellij:dev"
      ≡ Routing.ok (kind, b, "dev"))
    × (zellij_tag ≡ proto_backend kind)
    × (dev_info.connected_clients ≡ Clients.count Clients.new "zellij:dev")
unfolding list_sessions all_name_chars Clients.count lookup
list_sessions-resolve_example =
    list_sessions-resolve Clients.new two dev_sessions no_spaces check_name dev_info (inl refl)
      (refl, refl, refl)
