-- ===== src/Grpc/Listing/Resolve.antt =====
-- The ids that a listing (muxrd/src/grpc/session_ops.rs) gives to sessions.
use zellimobile_server.Common.{
  ℕ, String, true, List, [], ◌∷◌, Option, some, if◌then◌else◌, ◌≡◌, refl, ap, ◌∙◌, subst, inl, inr,
  All, All-append, All-map, Any, Bool-cases,
}
use zellimobile_server.Clients.{SessionClients, count}
use zellimobile_server.Server.Backends.{
  BackendKind, zellij, herdr, BackendSet, same_kind, find_kind, get,
}
use zellimobile_server.Server.Routing.{ok, make_id, resolve_session_kind}
use zellimobile_server.Server.Routing.Resolution.{IsSafeName, resolve_session_kind_iff}
use zellimobile_server.Grpc.Control.{proto_backend}
use zellimobile_server.Grpc.Listing.{
  Reached, found, errored, panicked, elapsed, Found, SessionInfo, session_info, session_infos,
  backend_infos, list_sessions,
}

same_kind_refl : (k : BackendKind) → same_kind k k ≡ true
same_kind_refl zellij = refl
same_kind_refl herdr = refl

module _ {B : Type 0} where
  -- Some backend of the kind is in the list.
  abbrev HasKind : List (BackendKind × B) → BackendKind → Type 0
  HasKind l kind = (b : B) × (find_kind kind l ≡ some b)

  HasKind-cons :
      (x : BackendKind × B) (l : List (BackendKind × B)) (kind : BackendKind)
      → HasKind l kind
      → HasKind (x ∷ l) kind
  unfolding find_kind
  HasKind-cons (k, b) l kind (c, h) = elim (Bool-cases (same_kind k kind)) [
    | inl same ↦ (b, ap (λ t. if t then some b else find_kind kind l) same)
    | inr other ↦ (c, ap (λ t. if t then some b else find_kind kind l) other ∙ h)
  ]

  all_have : (l : List (BackendKind × B)) → All (λ x. HasKind l x.0) l
  unfolding find_kind
  all_have [] = tt
  all_have ((k, b) ∷ l) = (
    (b, ap (λ t. if t then some b else find_kind k l) (same_kind_refl k)),
    All-map (λ (x : BackendKind × B). HasKind l x.0)
        (λ (x : BackendKind × B). HasKind ((k, b) ∷ l) x.0) (λ x h. HasKind-cons (k, b) l x.0 h) l
        (all_have l),
  )

All-Any : {A : Type 0} (P : A → Type 0) (l : List A) (a : A) → All P l → Any (λ x. x ≡ a) l → P a
All-Any P (x ∷ l) a (p, ps) (inl same) = subst P same p
All-Any P (x ∷ l) a (p, ps) (inr later) = All-Any P l a ps later
All-Any P [] a ps h = elim h [ ]

module _ (clients : SessionClients) {B : Type 0} (s : BackendSet B) where
  -- Where an entry comes from.
  abbrev Comes : SessionInfo → Type 0
  Comes i =
      (kind : BackendKind) × (b : B) × (get s kind ≡ some b)
      × (i.id ≡ make_id kind i.name)
      × (i.backend ≡ proto_backend kind)
      × (i.connected_clients ≡ count clients i.id)

  infos-Comes :
      (kind : BackendKind) (b : B) (spaces : ℕ) (fs : List Found)
      → get s kind ≡ some b
      → All Comes (session_infos clients kind spaces fs)
  unfolding session_infos session_info
  infos-Comes kind b spaces [] h = tt
  infos-Comes kind b spaces (f ∷ fs) h =
      ((kind, b, h, refl, refl, refl), infos-Comes kind b spaces fs h)

  backend-Comes :
      (kind : BackendKind) (b : B) (reached : Reached (List Found)) (spaces : Reached ℕ)
      → get s kind ≡ some b
      → All Comes (backend_infos clients kind reached spaces)
  unfolding backend_infos
  backend-Comes kind b (found fs) spaces h = infos-Comes kind b _ fs h
  backend-Comes kind b errored spaces h = tt
  backend-Comes kind b panicked spaces h = tt
  backend-Comes kind b elapsed spaces h = tt

  module _ (sessions : B → Reached (List Found)) (spaces : B → Reached ℕ) where
    list-Comes :
        (l : List (BackendKind × B))
        → All (λ x. HasKind s.backends x.0) l
        → All Comes (list_sessions clients sessions spaces l)
    unfolding list_sessions get
    list-Comes [] h = tt
    list-Comes ((kind, b) ∷ l) ((c, here), h) =
        All-append Comes (backend_infos clients kind (sessions b) (spaces b)) _
          (backend-Comes kind c (sessions b) (spaces b) here) (list-Comes l h)

    -- Every session that is listed is found again by the id that it is listed under: the id resolves to
    -- a backend of the listed kind and to the session's own name, if the guard lets the name through; and
    -- the clients that are shown are those counted under that id.
    pub list_sessions-resolve :
        (check : String → Option String) (i : SessionInfo)
        → Any (λ x. x ≡ i) (list_sessions clients sessions spaces s.backends)
        → IsSafeName check i.name
        → (kind : BackendKind) × (b : B) × (resolve_session_kind check s i.id
            ≡ ok (kind, b, i.name))
          × (i.backend ≡ proto_backend kind)
          × (i.connected_clients ≡ count clients i.id)
    list_sessions-resolve check i there safe =
        let (kind, b, has, id, tag, counted) =
          All-Any Comes (list_sessions clients sessions spaces s.backends) i
            (list-Comes s.backends (all_have s.backends)) there in
        (
          kind,
          b,
          (resolve_session_kind_iff check s i.id kind b i.name).1 (inl (id, has), safe),
          tag,
          counted,
        )
