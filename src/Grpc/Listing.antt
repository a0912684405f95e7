-- ===== src/Grpc/Listing.antt =====
-- muxrd/src/grpc/session_ops.rs: the list of sessions, from every backend at once, and the flag of an
-- attach. What a backend answers in time is a parameter.
pub mod Resolve
use zellimobile_server.Common.{
  ℕ, ◌-◌, ◌^◌, String, Bool, true, false, List, [], ◌∷◌, ◌++◌, Option, none, some, leb,
  if◌then◌else◌,
}
use zellimobile_server.Clients.{SessionClients, count}
use zellimobile_server.Server.Backends.{BackendKind, zellij, herdr}
use zellimobile_server.Server.Routing.{make_id}
use zellimobile_server.Grpc.Control.{ProtoBackend, proto_backend}

-- How the call of a backend under its timeout ends; a session has a name, an age and a flag.
pub data Reached {ℓ} (A : Type ℓ) : Type ℓ where
  found : A → Reached A
  errored : Reached A
  panicked : Reached A
  elapsed : Reached A

pub record Found : Type 0 where
  pub name : String
  pub age_secs : ℕ
  pub resurrectable : Bool

pub record SessionInfo : Type 0 where
  pub name : String
  pub age_secs : ℕ
  pub resurrectable : Bool
  pub tab_count : ℕ
  pub pane_count : ℕ
  pub has_bell : Bool
  pub is_current : Bool
  pub connected_clients : ℕ
  pub backend : ProtoBackend
  pub id : String
  pub space_count : ℕ

-- `u32::try_from(len).unwrap_or(u32::MAX)`, and 0 where there is no answer.
abbrev pub space_count_of : Reached ℕ → ℕ
space_count_of (found n) = if leb n (2 ^ 32 - 1) then n else 2 ^ 32 - 1
space_count_of errored = 0
space_count_of panicked = 0
space_count_of elapsed = 0

abbrev pub herdr_space_count : BackendKind → Reached ℕ → ℕ
herdr_space_count herdr spaces = space_count_of spaces
herdr_space_count zellij spaces = 0

module _ (clients : SessionClients) where
  -- One session of a backend.
  unfoldable pub session_info : BackendKind → ℕ → Found → SessionInfo
  unfolding make_id proto_backend
  session_info kind spaces f = record {
    name = f.name;
    age_secs = f.age_secs;
    resurrectable = f.resurrectable;
    tab_count = 0;
    pane_count = 0;
    has_bell = false;
    is_current = false;
    connected_clients = count clients (make_id kind f.name);
    backend = proto_backend kind;
    id = make_id kind f.name;
    space_count = spaces;
  }

  unfoldable pub session_infos : BackendKind → ℕ → List Found → List SessionInfo
  unfolding session_info
  session_infos kind spaces [] = []
  session_infos kind spaces (f ∷ fs) = session_info kind spaces f ∷ session_infos kind spaces fs

  -- A backend that gives no answer is left out.
  unfoldable pub backend_infos : BackendKind → Reached (List Found) → Reached ℕ → List SessionInfo
  unfolding session_infos
  backend_infos kind (found sessions) spaces =
      session_infos kind (herdr_space_count kind spaces) sessions
  backend_infos kind errored spaces = []
  backend_infos kind panicked spaces = []
  backend_infos kind elapsed spaces = []

  module _ {B : Type 0} (sessions : B → Reached (List Found)) (spaces : B → Reached ℕ) where
    -- `list_sessions_impl`
    unfoldable pub list_sessions : List (BackendKind × B) → List SessionInfo
    unfolding backend_infos
    list_sessions [] = []
    list_sessions ((kind, b) ∷ rest) =
        backend_infos kind (sessions b) (spaces b) ++ list_sessions rest

-- The flag of `attach_terminal_impl`: closed if the authentication set none.
abbrev pub attach_read_only : Option Bool → Bool
attach_read_only none = true
attach_read_only (some ro) = ro
