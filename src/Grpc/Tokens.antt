-- ===== src/Grpc/Tokens.antt =====
-- muxrd/src/grpc/token_ops.rs: the version, the login and the administration of tokens. zellij's token
-- database is a parameter, by what its operations return, and so is what a backend says of its version.
use zellimobile_server.Common.{
  String, Bool, true, false, List, [], ◌∷◌, Option, none, some, if◌then◌else◌, ◌≡◌, ◌≢◌, refl, ◌⊎◌,
  inl, inr,
}
use zellimobile_server.Rust.Text.{is_empty, trim, concat}
use zellimobile_server.Mux.{Outcome, ok, failed}
use zellimobile_server.Server.Backends.{BackendKind, zellij, herdr}
use zellimobile_server.Relay.Attach.{Joined, joined, panicked}
use zellimobile_server.Grpc.Control.{
  ProtoAck, ProtoBackend, proto_backend, Checked, pass, reject, invalid_argument, internal,
  permission_denied, reject_if_read_only, failure, success,
}

-- `BackendVersion`, and what `GetVersion` collects of the backends.
pub record Versions : Type 0 where
  pub zellij_version : String
  pub backends : List (ProtoBackend × String)
  pub available_backends : List ProtoBackend

abbrev pub zellij_or : BackendKind → String → String → String
zellij_or zellij version before = version
zellij_or herdr version before = before

module _ {B : Type 0} (backend_version : B → String) where
  -- The backends in their order, each after what was collected before.
  unfoldable pub collect_versions : String → List (BackendKind × B) → Versions
  unfolding proto_backend
  collect_versions zellij_version [] = record {
    zellij_version = zellij_version;
    backends = [];
    available_backends = [];
  }
  collect_versions zellij_version ((kind, b) ∷ rest) =
      let v = collect_versions (zellij_or kind (backend_version b) zellij_version) rest in
      record v {
        backends = (proto_backend kind, backend_version b) ∷ v.backends;
        available_backends = proto_backend kind ∷ v.available_backends;
      }

  -- `get_version_impl`, less the server's own version.
  abbrev pub get_version : List (BackendKind × B) → Versions
  unfolding collect_versions
  get_version backends = collect_versions "" backends

pub record Token : Type 0 where
  pub name : String
  pub read_only : Bool
  pub created_at : String

-- `TokenInfo`
pub record TokenInfo : Type 0 where
  pub name : String
  pub token : String
  pub read_only : Bool
  pub created_at : String

pub data TokenCall : Type 0 where
  create_token : (name : Option String) (read_only : Bool) → TokenCall
  list_tokens : TokenCall
  revoke_token : (name : String) → TokenCall

pub record Store : Type 0 where
  pub create_session_token : (auth_token : String) (remember_me : Bool) → Outcome String
  pub is_session_token_read_only : String → Option Bool
  pub create : Option String → Bool → Joined (Outcome (String × String))
  pub list : Joined (Outcome (List Token))
  pub revoke : String → Joined (Outcome Bool)

-- `login_impl`: the session token and its flag, or the reason why the token is invalid.
unfoldable pub login : Store → String → Bool → Outcome (String × Bool)
login db auth_token remember_me = elim (db.create_session_token auth_token remember_me) [
  | failed e ↦ failed (concat "invalid auth token: " e)
  | ok session ↦
      ok (session, elim (db.is_session_token_read_only session) [ some ro ↦ ro | none ↦ false ])
]

-- What a handler asks of the database, and its answer.
pub record Asked (A : Type 0) : Type 0 where
  pub calls : List TokenCall
  pub answer : Checked A

-- How an error of the database is answered.
abbrev pub db_answer : {A C : Type 0} → String → String → (A → C) → Joined (Outcome A) → Checked C
db_answer rpc what f (joined (ok a)) = pass (f a)
db_answer rpc what f (joined (failed e)) = reject (internal (concat what (concat " failed: " e)))
db_answer rpc what f (panicked e) = reject (internal (concat rpc (concat " task panicked: " e)))

-- A handler behind the gate for read-only tokens.
abbrev pub gated : {A : Type 0} → Checked (Unit {0}) → Asked A → Asked A
gated (pass _) a = a
gated (reject e) a = record { calls = []; answer = reject e }

abbrev pub trimmed_name : String → Option String
trimmed_name name = if is_empty (trim name) then none else some (trim name)

abbrev pub created : Bool → String × String → TokenInfo
created read_only (token, name) = record {
  name = name;
  token = token;
  read_only = read_only;
  created_at = "";
}

-- The metadata, never the secret.
abbrev pub listed : Token → TokenInfo
listed t = record { name = t.name; token = ""; read_only = t.read_only; created_at = t.created_at }

unfoldable pub listed_all : List Token → List TokenInfo
listed_all [] = []
listed_all (t ∷ ts) = listed t ∷ listed_all ts

abbrev pub revoked : String → Bool → ProtoAck
revoked name true = success ""
revoked name false =
    failure (concat "token '" (concat name "' not found (already revoked or never existed)"))

module _ (db : Store) (extension : Option Bool) where
  -- `create_token_impl`
  unfoldable pub create : String → Bool → Asked TokenInfo
  unfolding reject_if_read_only
  create name read_only = gated (reject_if_read_only extension) (record {
    calls = create_token (trimmed_name name) read_only ∷ [];
    answer =
        db_answer "CreateToken" "create token" (created read_only)
          (db.create (trimmed_name name) read_only);
  })

  -- `list_tokens_impl`
  unfoldable pub list : Asked (List TokenInfo)
  unfolding reject_if_read_only listed_all
  list = gated (reject_if_read_only extension) (record {
    calls = list_tokens ∷ [];
    answer = db_answer "ListTokens" "list tokens" listed_all db.list;
  })

  -- `revoke_token_impl`
  unfoldable pub revoke : String → Asked ProtoAck
  unfolding reject_if_read_only
  revoke name = gated (reject_if_read_only extension) (
      if is_empty (trim name)
      then record {
        calls = [];
        answer = reject (invalid_argument "RevokeToken: name must not be empty");
      }
      else record {
        calls = revoke_token name ∷ [];
        answer = db_answer "RevokeToken" "revoke token" (revoked name) (db.revoke name);
      })

  -- The database is asked nothing, and permission is denied.
  abbrev IsDenied : {A : Type 0} → Asked A → Type 0
  IsDenied a = (a.calls ≡ []) × ((m : String) × (a.answer ≡ reject (permission_denied m)))

  -- A token that may only read, or one whose flag is not known, neither makes nor lists nor revokes
  -- tokens, and the database is asked nothing.
  pub tokens-IsDenied :
      (name : String) (read_only : Bool)
      → extension ≢ some false
      → IsDenied (create name read_only) × IsDenied list × IsDenied (revoke name)
  unfolding create list revoke reject_if_read_only
  tokens-IsDenied name read_only h = elim (denial extension h) [
    | inl no_flag ↦ rw no_flag ((refl, (_, refl)), (refl, (_, refl)), (refl, (_, refl)))
    | inr may_read ↦ rw may_read ((refl, (_, refl)), (refl, (_, refl)), (refl, (_, refl)))
  ]
    where
      denial : (e : Option Bool) → e ≢ some false → (e ≡ none) ⊎ (e ≡ some true)
      denial none h = inl refl
      denial (some true) h = inr refl
      denial (some false) h = absurd (h refl)
