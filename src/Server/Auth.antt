-- ===== src/Server/Auth.antt =====
-- muxrd/src/auth.rs: the layer that lets a request through. zellij's token database is a parameter,
-- whose answers may be errors (`none`). Of a request the model keeps its path, its authorization
-- header, and what the layer adds to it; a refusal is what its message is made of.
pub mod Access
use zellimobile_server.Common.{
  String, Bool, true, false, ◌||◌, List, [], ◌∷◌, Option, none, some, str_eq, if◌then◌else◌, ◌≡◌,
  refl, ◌⊎◌, inl, inr,
}
use zellimobile_server.Rust.Text.{is_empty}
use zellimobile_server.Rust.Splits.{strip_prefix}

pub record TokenDb : Type 0 where
  pub validate_session_token : String → Option Bool
  pub is_session_token_read_only : String → Option Bool

-- `headers.get(AUTHORIZATION)`, and whether `to_str` takes it
pub data Header : Type 0 where
  absent not_ascii : Header
  text : String → Header

-- The extensions `SessionReadOnly` and `SessionToken`; `BearerAuthenticated` comes with them.
pub record Session : Type 0 where
  pub read_only : Bool
  pub token : String

pub record Request : Type 0 where
  pub path : String
  pub authorization : Header
  pub session : Option Session

pub data Unauthenticated : Type 0 where
  missing_header header_not_ascii not_bearer empty_token authentication_error : Unauthenticated
  invalid_token : Unauthenticated

pub data Checked : Type 0 where
  accepted : Session → Checked
  rejected : Unauthenticated → Checked

pub data Answer : Type 0 where
  forward : Request → Answer
  reject : Unauthenticated → Answer

-- `PUBLIC_PATHS`
abbrev pub public_paths : List String
public_paths = "/muxr.v1.Muxr/GetVersion" ∷ "/muxr.v1.Muxr/Login" ∷ []

abbrev pub contains_path : List String → String → Bool
contains_path [] path = false
contains_path (p ∷ ps) path = str_eq p path || contains_path ps path

module _ (db : TokenDb) where
  -- An error counts as read-only.
  abbrev pub read_only_or_closed : String → Bool
  read_only_or_closed token = elim (db.is_session_token_read_only token) [
    | some read_only ↦ read_only
    | none ↦ true
  ]

  unfoldable pub check_token : String → Checked
  check_token token =
      if is_empty token then rejected empty_token else elim (db.validate_session_token token) [
        | none ↦ rejected authentication_error
        | some valid ↦
            if valid
            then accepted (record { read_only = read_only_or_closed token; token = token })
            else rejected invalid_token
      ]

  -- `check_bearer`
  unfoldable pub check_bearer : Header → Checked
  unfolding check_token
  check_bearer absent = rejected missing_header
  check_bearer not_ascii = rejected header_not_ascii
  check_bearer (text value) = elim (strip_prefix "Bearer " value) [
    | none ↦ rejected not_bearer
    | some token ↦ check_token token
  ]

  -- `BearerAuthService::call`
  unfoldable pub call : Request → Answer
  unfolding check_bearer
  call req =
      if contains_path public_paths req.path
      then forward req
      else elim (check_bearer req.authorization) [
        | accepted session ↦ forward (record req { session = some session })
        | rejected why ↦ reject why
      ]
