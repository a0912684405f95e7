-- ===== src/Grpc/Control/Targets.antt =====
-- Which relay a command reaches (muxrd/src/grpc/helpers.rs).
use zellimobile_server.Common.{
  ℕ, String, Bool, true, false, ◌&&◌, not, List, [], ◌∷◌, Option, none, some, str_eq, if◌then◌else◌,
  ◌≡◌, refl, sym, ap, ◌∙◌, subst, ◌⊎◌, inl, inr, Any, Bool-cases, Option-cases, arith, eq_iff,
}
use zellimobile_server.Common.Map.{lookup, string_key}
use zellimobile_server.Rust.Text.{is_empty}
use zellimobile_server.Server.Routing.{is_collapsed_backend_session}
use zellimobile_server.Relay.Types.{RelayControl, ControlEntry}
use zellimobile_server.Grpc.Control.{
  ProtoAck, success, Routed, of_session, exact_relay, writable_relay, send_to, reattach,
  route_collapsed, route_fallback, route_open, try_route_control,
}

abbrev Entries : Type 0
Entries = List (String × ControlEntry)

-- The caller's own relay, of the session that it names.
abbrev pub IsOwn : Entries → String → String → ControlEntry → Type 0
IsOwn control session id e = (lookup id control ≡ some e) × (e.session ≡ session)

-- Some relay of the session that may write.
abbrev pub IsWriter : Entries → String → ControlEntry → Type 0
IsWriter control session e =
    Any (λ p. p.1 ≡ e) control × (e.session ≡ session) × (e.read_only ≡ false)

exact-IsOwn :
    (control : Entries) (session id : String) (e : ControlEntry)
    → exact_relay control session id ≡ some e
    → IsOwn control session id e
unfolding exact_relay
exact-IsOwn control session id e h = elim (Bool-cases (is_empty id)) [
  | inl blank ↦
      absurd
        (cc (sym (ap (λ b. if b then none else of_session session (lookup id control)) blank) ∙ h))
  | inr some_id ↦ elim (Option-cases (lookup id control)) [
    | inl nothing ↦ ground arith
    | inr (e', found) ↦ ground (arith, eq_iff e'.session session)
  ]
]

abbrev next_writer : Bool → Bool → ControlEntry → Option ControlEntry → Option ControlEntry
next_writer same ro x rest = if same && not ro then some x else rest

next_writer_cases :
    (same ro : Bool) (x e : ControlEntry) (rest : Option ControlEntry)
    → next_writer same ro x rest ≡ some e
    → ((x ≡ e) × (same ≡ true) × (ro ≡ false)) ⊎ (rest ≡ some e)
next_writer_cases true false x e rest h = inl (cc, refl, refl)
next_writer_cases true true x e rest h = inr h
next_writer_cases false ro x e rest h = inr h

writable-IsWriter :
    (control : Entries) (session : String) (e : ControlEntry)
    → writable_relay control session ≡ some e
    → IsWriter control session e
unfolding writable_relay
writable-IsWriter [] session e h = cc
writable-IsWriter ((k, x) ∷ rest) session e h =
    elim (next_writer_cases (str_eq x.session session) x.read_only x e (writable_relay rest session)
      h) [
        | inl (this, same, may) ↦ (
          inl this,
          sym (ap (λ (y : ControlEntry). y.session) this) ∙ (eq_iff x.session session).0 same,
          sym (ap (λ (y : ControlEntry). y.read_only) this) ∙ may,
        )
        | inr later ↦
            let (there, of, writes) = writable-IsWriter rest session e later in
            (inr there, of, writes)
      ]

-- One command on one channel, and an answer that says so, or nothing was sent.
abbrev pub Reaches : RelayControl → (ControlEntry → Type 0) → Routed → Type 0
Reaches cmd P r =
    ((r.sent ≡ []) × ((a : ProtoAck) → r.answer ≡ some a → a.ok ≡ false))
    ⊎ ((e : ControlEntry) × (r.sent ≡ (e.sender, cmd) ∷ [])
        × P e
        × ((a : ProtoAck) × (r.answer ≡ some a) × (a.ok ≡ true)))

send-Reaches :
    (alive : ℕ → Bool) (cmd : RelayControl) (P : ControlEntry → Type 0) (e : ControlEntry)
    (info : String) (otherwise : Option ProtoAck)
    → P e
    → ((a : ProtoAck) → otherwise ≡ some a → a.ok ≡ false)
    → Reaches cmd P (send_to alive cmd e info otherwise)
unfolding send_to
send-Reaches alive cmd P e info otherwise p no' = elim (Bool-cases (alive e.sender)) [
  | inl lives ↦ rw (lives, send_to) (inr (e, refl, p, (success info, refl, refl)))
  | inr gone ↦ rw (gone, send_to) (inl (refl, no'))
]

module _ (alive : ℕ → Bool) (cmd : RelayControl) (control : Entries) (session id : String) where
  -- The relays that a command may reach.
  abbrev pub IsTarget : ControlEntry → Type 0
  IsTarget e =
      IsOwn control session id e
      ⊎ ((is_collapsed_backend_session session ≡ false)
          × (exact_relay control session id ≡ none)
          × IsWriter control session e)

  abbrev Says : Routed → Type 0
  Says r =
      Reaches cmd IsTarget r
      × ((is_collapsed_backend_session session ≡ false) ⊎ ((a : ProtoAck) × (r.answer ≡ some a)))

  collapsed-Says :
      (exact : Option ControlEntry)
      → exact_relay control session id ≡ exact
      → Says (route_collapsed alive cmd exact)
  unfolding route_collapsed send_to
  collapsed-Says none h = (inl (refl, λ a e. cc), inr (reattach, refl))
  collapsed-Says (some e) h =
      let own : IsTarget e = inl (exact-IsOwn control session id e h) in
      (
        send-Reaches alive cmd IsTarget e "routed via relay client (per-connection)" (some reattach)
            own (λ a q. cc),
        inr (elim (Bool-cases (alive e.sender)) [
          | inl lives ↦
              rw (lives, send_to) (success "routed via relay client (per-connection)", refl)
          | inr gone ↦ rw (gone, send_to) (reattach, refl)
        ]),
      )

  fallback-Reaches :
      (other : Option ControlEntry)
      → is_collapsed_backend_session session ≡ false
      → exact_relay control session id ≡ none
      → writable_relay control session ≡ other
      → Reaches cmd IsTarget (route_fallback alive cmd other)
  unfolding route_fallback
  fallback-Reaches none open_session no_own w = inl (refl, λ a e. cc)
  fallback-Reaches (some e) open_session no_own w =
      send-Reaches alive cmd IsTarget e "routed via relay client (session fallback, writable)" none
        (inr (open_session, no_own, writable-IsWriter control session e w)) (λ a q. cc)

  open-Reaches :
      (exact : Option ControlEntry)
      → is_collapsed_backend_session session ≡ false
      → exact_relay control session id ≡ exact
      → Reaches cmd IsTarget (route_open alive cmd exact (writable_relay control session))
  unfolding route_open
  open-Reaches none open_session h =
      fallback-Reaches (writable_relay control session) open_session h refl
  open-Reaches (some e) open_session h =
      send-Reaches alive cmd IsTarget e "routed via relay client (per-connection)" none
        (inl (exact-IsOwn control session id e h)) (λ a q. cc)

  -- A command goes to one relay at most. On a session that all clients share it is the caller's own, by
  -- its connection id, or none, and then there is an answer all the same: the command is not carried out
  -- elsewhere. On another session it is the caller's own, or one that may write if the caller has none
  -- there. An answer is ok exactly if a relay was reached.
  pub try_route_control-Reaches :
      let r = try_route_control alive cmd control session id in
      Reaches cmd IsTarget r
      × ((is_collapsed_backend_session session ≡ false) ⊎ ((a : ProtoAck) × (r.answer ≡ some a)))
  unfolding try_route_control
  try_route_control-Reaches =
      let exact : Option ControlEntry = exact_relay control session id in
      let shared : Routed = route_collapsed alive cmd exact in
      let open_one : Routed = route_open alive cmd exact (writable_relay control session) in
      elim (Bool-cases (is_collapsed_backend_session session)) [
        | inl same ↦
            subst Says (sym (ap (λ b. if b then shared else open_one) same))
              (collapsed-Says exact refl)
        | inr other ↦
            subst Says (sym (ap (λ b. if b then shared else open_one) other))
              (open-Reaches exact other refl, inl other)
      ]
