-- ===== src/Server/Backends.antt =====
-- muxrd/src/cli.rs, muxrd/src/multiplexer/mod.rs and detect.rs: the kinds of backends, the set that
-- a server drives, and which of them it finds at its start. A backend itself is a parameter, and so
-- is what a probe finds.
use zellimobile_server.Common.{
  ℕ, String, Bool, true, false, List, [], ◌∷◌, ◌++◌, Option, none, some, length, if◌then◌else◌,
}

pub data BackendKind : Type 0 where
  zellij herdr : BackendKind

-- `Display`
unfoldable pub kind_text : BackendKind → String
kind_text zellij = "zellij"
kind_text herdr = "herdr"

-- the derived `PartialEq`
abbrev pub same_kind : BackendKind → BackendKind → Bool
same_kind zellij zellij = true
same_kind herdr herdr = true
same_kind _ _ = false

pub record BackendSet {ℓ} (B : Type ℓ) : Type ℓ where
  pub backends : List (BackendKind × B)

-- `find(|(k, _)| *k == kind)`
unfoldable pub find_kind {ℓ} : {B : Type ℓ} → BackendKind → List (BackendKind × B) → Option B
find_kind kind [] = none
find_kind kind ((k, b) ∷ rest) = if same_kind k kind then some b else find_kind kind rest

-- `BackendSet::get`
unfoldable pub get {ℓ} : {B : Type ℓ} → BackendSet B → BackendKind → Option B
unfolding find_kind
get s kind = find_kind kind s.backends

-- `BackendSet::len`
abbrev pub len {ℓ} : {B : Type ℓ} → BackendSet B → ℕ
len s = length s.backends

-- `kinds().next()` and `primary()` of a set, which panic on an empty one.
abbrev pub first_backend {ℓ} : {B : Type ℓ} → BackendSet B → Option (BackendKind × B)
first_backend s = elim s.backends [ [] ↦ none | first ∷ _ ↦ some first ]

pub data DetectError : Type 0 where
  requested_unavailable : BackendKind → DetectError
  no_usable_backend : DetectError

pub data Detected : Type 0 where
  available : List BackendKind → Detected
  undetected : DetectError → Detected

-- `detect_backends`; `probe` is what `probe_zellij` and `probe_herdr` find.
unfoldable pub detect_backends : (BackendKind → Bool) → Option BackendKind → Detected
detect_backends probe (some kind) =
    if probe kind then available (kind ∷ []) else undetected (requested_unavailable kind)
detect_backends probe none =
    let found =
      (if probe zellij then zellij ∷ [] else []) ++ (if probe herdr then herdr ∷ [] else []) in
    elim found [ [] ↦ undetected no_usable_backend | k ∷ ks ↦ available (k ∷ ks) ]
