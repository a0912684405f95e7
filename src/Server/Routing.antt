-- ===== src/Server/Routing.antt =====
-- muxrd/src/multiplexer/routing.rs, and the guard of session names in muxrd/src/ipc.rs: session ids
-- of the form `backend:name`. zellij's own check of names is a parameter, which returns its message
-- where it refuses one. A status is modelled by its code and by what its message is made of.
pub mod Resolution
use Prim.Native.String.{[], ◌∷◌}
use zellimobile_server.Common.{
  ℕ, Char, code, String, Bool, true, false, ◌&&◌, ◌||◌, not, Option, none, some, leb, ◌==◌, str_eq,
  if◌then◌else◌, ◌≡◌, refl, ◌⊎◌, inl, inr,
}
use zellimobile_server.Rust.Text.{concat, is_empty, is_ascii_digit}
use zellimobile_server.Rust.Splits.{split_once}
use zellimobile_server.Server.Backends.{
  BackendKind, zellij, herdr, kind_text, BackendSet, get, len, first_backend,
}

pub data Status : Type 0 where
  -- `InvalidArgument`
  unknown_backend : (id kind : String) → Status
  missing_prefix : (id : String) → Status
  invalid_name : (message : String) → Status
  only_allowed : (name : String) → Status
  -- `NotFound`
  not_running : (id : String) (kind : BackendKind) → Status
  -- where the source panics
  empty_set : Status

pub data Result {ℓ} (A : Type ℓ) : Type ℓ where
  ok : A → Result A
  err : Status → Result A

infixl 5 ◌>>=◌
abbrev pub ◌>>=◌ {ℓ κ} : {A : Type ℓ} {B : Type κ} → Result A → (A → Result B) → Result B
ok a >>= f = f a
err e >>= f = err e

-- To split on a result and keep the equation.
pub Result-cases {ℓ} :
    {A : Type ℓ} (r : Result A) → ((e : Status) × (r ≡ err e)) ⊎ ((a : A) × (r ≡ ok a))
Result-cases (err e) = inl (e, refl)
Result-cases (ok a) = inr (a, refl)

-- `is_ascii_alphanumeric() || '_' || '-'`
abbrev pub is_name_char : Char → Bool
is_name_char c =
    is_ascii_digit c
    || (leb b'a' (code c) && leb (code c) b'z')
    || (leb b'A' (code c) && leb (code c) b'Z')
    || code c == b'_'
    || code c == b'-'

unfoldable pub all_name_chars : String → Bool
all_name_chars [] = true
all_name_chars (c ∷ s) = is_name_char c && all_name_chars s

-- `parse_backend_kind`
unfoldable pub parse_backend_kind : String → Option BackendKind
parse_backend_kind s =
    if str_eq s "zellij" then some zellij else if str_eq s "herdr" then some herdr else none

-- `make_id`
unfoldable pub make_id : BackendKind → String → String
unfolding kind_text
make_id kind bare = concat (kind_text kind) (concat ":" bare)

-- `is_collapsed_backend_session`
unfoldable pub is_collapsed_backend_session : String → Bool
is_collapsed_backend_session id = elim (split_once b':' id) [
  | none ↦ false
  | some (kind, bare) ↦ str_eq kind "herdr"
]

module _ {ℓ} {B : Type ℓ} where
  -- An id with a prefix, and one without.
  unfoldable pub resolve_qualified :
      BackendSet B → String → String → String → Result (BackendKind × B × String)
  resolve_qualified backends id kind_str bare = elim (parse_backend_kind kind_str) [
    | none ↦ err (unknown_backend id kind_str)
    | some kind ↦ elim (get backends kind) [
      | none ↦ err (not_running id kind)
      | some backend ↦ ok (kind, backend, bare)
    ]
  ]

  unfoldable pub resolve_bare : BackendSet B → String → Result (BackendKind × B × String)
  resolve_bare backends id =
      if len backends == 1
      then elim (first_backend backends) [
        | none ↦ err empty_set
        | some (kind, backend) ↦ ok (kind, backend, id)
      ]
      else err (missing_prefix id)

  -- The backend that an id names, by its prefix or as the only one.
  unfoldable pub choose_backend : BackendSet B → String → Result (BackendKind × B × String)
  unfolding resolve_qualified resolve_bare
  choose_backend backends id = elim (split_once b':' id) [
    | some (kind_str, bare) ↦ resolve_qualified backends id kind_str bare
    | none ↦ resolve_bare backends id
  ]

module _ (zellij_check : String → Option String) where
  -- `validate_session`, by way of `ipc::validate_session_name`
  unfoldable pub validate_session : String → Result (Unit {0})
  validate_session name = elim (zellij_check name) [
    | some message ↦ err (invalid_name message)
    | none ↦ if is_empty name || not (all_name_chars name) then err (only_allowed name) else ok tt
  ]

  module _ {ℓ} {B : Type ℓ} where
    -- `resolve_session_kind`
    unfoldable pub resolve_session_kind : BackendSet B → String → Result (BackendKind × B × String)
    unfolding choose_backend validate_session
    resolve_session_kind backends id = do
      (kind, backend, bare) ← choose_backend backends id
      _ ← validate_session bare
      ok (kind, backend, bare)

    -- `resolve_session`
    unfoldable pub resolve_session : BackendSet B → String → Result (B × String)
    unfolding resolve_session_kind
    resolve_session backends id = do
      (_, backend, bare) ← resolve_session_kind backends id
      ok (backend, bare)
