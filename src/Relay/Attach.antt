-- ===== src/Relay/Attach.antt =====
-- muxrd/src/relay/mod.rs and helpers.rs: how a relay begins. The backend that is attached to is a
-- parameter, by what its operations return; so are the minted connection id, which is random, and the
-- new control channel.
pub mod Life
use zellimobile_server.Common.{
  ℕ, String, Bool, true, false, List, [], ◌∷◌, Option, none, some, if◌then◌else◌,
}
use zellimobile_server.Common.Map.{insert, string_key}
use zellimobile_server.Clients
use zellimobile_server.Clients.{SessionClients}
use zellimobile_server.Mux.{PaneRef, PaneSnapshot, TabSnapshot, LayoutSnapshot, Outcome, ok, failed}
use zellimobile_server.Server.Backends.{BackendKind, BackendSet}
use zellimobile_server.Server.Routing
use zellimobile_server.Server.Routing.{Result, make_id, resolve_session_kind}
use zellimobile_server.Relay.Types.{
  RelayViewState, no_view, ControlEntry, ViewStateEntry, ro_fallback_rows, ro_fallback_cols,
}
use zellimobile_server.Relay.Reader.{ServerFrame, control}
use zellimobile_server.Relay.Inbound.{FrameKind, input, resize, attach, Context}
use zellimobile_server.Relay.Inbound.Loop.{clamp_dim}

-- What comes back from the pool of blocking threads.
pub data Joined {ℓ} (A : Type ℓ) : Type ℓ where
  joined : A → Joined A
  panicked : (message : String) → Joined A

-- `DualHandle`
pub record Handle : Type 0 where
  pub session_name : String
  pub has_sync_layout : Bool

pub record Backend : Type 0 where
  pub query_session_size : String → Joined (Outcome (ℕ × ℕ))
  pub open_attach : (session : String) (rows cols : ℕ) (read_only : Bool) → Joined (Outcome Handle)
  pub query_layout : String → Joined (Outcome LayoutSnapshot)

-- The first frame of the stream.
pub data First : Type 0 where
  closed : First
  broken : (message : String) → First
  came : Option FrameKind → First

pub data AttachError : Type 0 where
  -- `InvalidArgument`
  closed_before_attach : AttachError
  not_an_attach : AttachError
  no_kind : AttachError
  -- `Internal`
  first_frame_error : (message : String) → AttachError
  attach_panicked : (message : String) → AttachError
  -- `NotFound`
  attach_failed : (message : String) → AttachError
  -- of the session's id
  unresolved : Routing.Status → AttachError

-- The registries that all relays share.
pub record World : Type 0 where
  pub clients : SessionClients
  pub view_state : List (String × ViewStateEntry)
  pub control : List (String × ControlEntry)

-- What the tasks of a new relay are given: the guard's counter, and the frames sent so far.
pub record Attached : Type 0 where
  pub context : Context
  pub client_guard : ℕ
  pub session_name : String
  pub frames : List ServerFrame

pub data Opened : Type 0 where
  relay : Attached → Opened
  refused : AttachError → Opened

-- `snapshot.tabs.iter().find(|t| t.active)`
unfoldable pub find_active : List TabSnapshot → Option TabSnapshot
find_active [] = none
find_active (t ∷ ts) = if t.active then some t else find_active ts

unfoldable pub find_focused : List PaneSnapshot → Option PaneSnapshot
find_focused [] = none
find_focused (p ∷ ps) = if p.is_focused then some p else find_focused ps

abbrev pub ref_of : Option PaneSnapshot → Option PaneRef
ref_of none = none
ref_of (some p) = some (record { id = p.id; is_plugin = p.is_plugin })

abbrev pub view_of_tab : Option TabSnapshot → RelayViewState
unfolding find_focused
view_of_tab none = no_view
view_of_tab (some t) = record no_view {
  active_tab = some t.tab_id;
  focused_pane = ref_of (find_focused t.panes);
}

-- `init_relay_view_state`, and the default where it fails.
unfoldable pub init_relay_view_state : Joined (Outcome LayoutSnapshot) → RelayViewState
unfolding find_active find_focused
init_relay_view_state (joined (ok snapshot)) = view_of_tab (find_active snapshot.tabs)
init_relay_view_state (joined (failed _)) = no_view
init_relay_view_state (panicked _) = no_view

-- The size to attach with: the client's, or the session's for a read-only relay.
unfoldable pub attach_size : Bool → Joined (Outcome (ℕ × ℕ)) → ℕ → ℕ → ℕ × ℕ
attach_size false size rows cols = (rows, cols)
attach_size true (joined (ok found)) rows cols = found
attach_size true (joined (failed _)) rows cols = (ro_fallback_rows, ro_fallback_cols)
attach_size true (panicked _) rows cols = (ro_fallback_rows, ro_fallback_cols)

module _ (read_only : Bool) (token : Option String) (connection_id : String) (channel : ℕ) where
  -- What is registered once the attach succeeded.
  unfoldable pub register : String → String → Backend → ℕ × ℕ → Handle → World → World × Opened
  unfolding init_relay_view_state
  register id count_key backend (rows, cols) handle w =
      let (clients, counter) = Clients.attach w.clients count_key in
      let view : RelayViewState =
        init_relay_view_state (backend.query_layout handle.session_name) in
      (
        record {
          clients = clients;
          view_state = insert connection_id (record { session = id; state = view }) w.view_state;
          control =
              insert connection_id
                (record { session = id; sender = channel; read_only = read_only }) w.control;
        },
        relay (record {
          context = record {
            connection_id = connection_id;
            read_only = read_only;
            token = token;
            has_sync_layout = handle.has_sync_layout;
            rows = rows;
            cols = cols;
          };
          client_guard = counter;
          session_name = handle.session_name;
          frames = control "connection_id" connection_id ∷ [];
        }),
      )

  -- The answer of the attach at a size.
  unfoldable pub opened :
      String → String → Backend → ℕ × ℕ → Joined (Outcome Handle) → World → World × Opened
  unfolding register
  opened id count_key backend dims (panicked e) w = (w, refused (attach_panicked e))
  opened id count_key backend dims (joined (failed e)) w = (w, refused (attach_failed e))
  opened id count_key backend dims (joined (ok handle)) w =
      register id count_key backend dims handle w

  -- The attach itself, at a size.
  unfoldable pub open_at : String → String → Backend → String → ℕ × ℕ → World → World × Opened
  unfolding opened
  open_at id count_key backend bare (rows, cols) w =
      opened id count_key backend (rows, cols) (backend.open_attach bare rows cols read_only) w

  -- With what the id names.
  unfoldable pub attach_resolved :
      String → ℕ → ℕ → Result (BackendKind × Backend × String) → World → World × Opened
  unfolding make_id attach_size open_at
  attach_resolved id rows cols (Result.err e) w = (w, refused (unresolved e))
  attach_resolved id rows cols (Result.ok (kind, backend, bare)) w =
      open_at id (make_id kind bare) backend bare
        (attach_size read_only (backend.query_session_size bare) rows cols) w

  module _ (zellij_check : String → Option String) (backends : BackendSet Backend) where
    -- With the request of the first frame.
    unfoldable pub attach_session : String → ℕ → ℕ → World → World × Opened
    unfolding resolve_session_kind attach_resolved clamp_dim
    attach_session id rows cols w =
        attach_resolved id (clamp_dim rows 24) (clamp_dim cols 80)
          (resolve_session_kind zellij_check backends id) w

    -- `attach_relay`
    unfoldable pub attach_relay : First → World → World × Opened
    unfolding attach_session
    attach_relay closed w = (w, refused closed_before_attach)
    attach_relay (broken e) w = (w, refused (first_frame_error e))
    attach_relay (came none) w = (w, refused no_kind)
    attach_relay (came (some (attach session rows cols))) w = attach_session session rows cols w
    attach_relay (came (some _)) w = (w, refused not_an_attach)
