-- ===== src/Grpc/Services/Passed.antt =====
-- What a check of muxrd/src/grpc has established where it passes, and what its handlers' parts then call.
use zellimobile_server.Common.{
  ℕ, ◌≤◌, String, Bool, true, false, List, [], ◌∷◌, Option, none, some, length, if◌then◌else◌, ◌≡◌,
  refl, sym, subst, inl, inr, All, Bool-cases, Option-cases, arith, All-append,
}
use zellimobile_server.Rust.Text.{is_empty}
use zellimobile_server.Rust.Bytes.{byte_len}
use zellimobile_server.Mux.Ops
use zellimobile_server.Relay.Types.{ControlEntry}
use zellimobile_server.Mux.Ops.{Op, ActionAck}
use zellimobile_server.Server.Routing.{
  Result-cases, all_name_chars, validate_session, resolve_session, resolve_session_kind,
}
use zellimobile_server.Server.Routing.Resolution.{
  IsSafeName, resolve_session_kind_iff, validate_session_iff,
}
use zellimobile_server.Grpc.Control.{success, Checked, pass, reject, ◌>>=◌, Routed, exact_relay}
use zellimobile_server.Grpc.Checks.{
  all_chars, is_label_char, is_id_char, max_space_label_len, max_space_id_len, validate_layout_name,
  supplied, validate_space_label, validate_space_id, check_session,
}
use zellimobile_server.Grpc.Requests.{Outside, Done, finish, finish-then, resolve}
use zellimobile_server.Grpc.Handlers
use zellimobile_server.Grpc.Handlers.{max_write_to_pane_bytes, check_size, check_name, required}
use zellimobile_server.Grpc.Spaces

abbrev pub IsLabel : String → Type 0
IsLabel s =
    (is_empty s ≡ false) × (byte_len s ≤ max_space_label_len) × (all_chars is_label_char s ≡ true)

abbrev pub IsSpaceId : String → Type 0
IsSpaceId s =
    (is_empty s ≡ false) × (byte_len s ≤ max_space_id_len) × (all_chars is_id_char s ≡ true)

abbrev pub IsLayoutName : String → Type 0
IsLayoutName s = (is_empty s ≡ false) × (all_name_chars s ≡ true)

-- If there is one.
abbrev pub Given : (String → Type 0) → Option String → Type 0
Given P none = Unit {0}
Given P (some s) = P s

module _ (check : String → Option String) where
  -- The names of sessions are safe, and what else the client supplies is as it was checked.
  abbrev pub IsSane : Op → Type 0
  IsSane (Ops.new_tab s _) = IsSafeName check s
  IsSane (Ops.close_tab s _) = IsSafeName check s
  IsSane (Ops.go_to_tab s _) = IsSafeName check s
  IsSane (Ops.rename_tab s _ name) = IsSafeName check s × (is_empty name ≡ false)
  IsSane (Ops.write_to_pane s _ bytes) =
      IsSafeName check s × (length bytes ≤ max_write_to_pane_bytes)
  IsSane (Ops.focus_pane s _) = IsSafeName check s
  IsSane (Ops.close_pane s _) = IsSafeName check s
  IsSane (Ops.new_pane s _ _) = IsSafeName check s
  IsSane (Ops.rename_pane s _ _) = IsSafeName check s
  IsSane (Ops.resize_pane s _ _ _) = IsSafeName check s
  IsSane (Ops.toggle_pane_floating s _) = IsSafeName check s
  IsSane (Ops.toggle_pane_fullscreen s _) = IsSafeName check s
  IsSane (Ops.scroll_pane s _ _) = IsSafeName check s
  IsSane (Ops.list_spaces s) = IsSafeName check s
  IsSane (Ops.create_space label) = Given IsLabel label
  IsSane (Ops.rename_space id label) = IsSpaceId id × IsLabel label
  IsSane (Ops.close_space id) = IsSpaceId id
  IsSane (Ops.rename_session s name) = IsSafeName check s × IsSafeName check name
  IsSane (Ops.kill_session s) = IsSafeName check s
  IsSane (Ops.create_session name layout) = IsSafeName check name × Given IsLayoutName layout

  module _ {B : Type 0} (o : Outside B) where
    abbrev Sane : Done B → Type 0
    Sane d = All (λ x. IsSane x.1) d.ops

    -- A chain of checks: what follows a check may use that it passed.
    pub then-Sane :
        {A : Type 0} (m : Checked A) (k : A → Checked (Done B))
        → ((a : A) → m ≡ pass a → Sane (finish (k a)))
        → Sane (finish (m >>= k))
    then-Sane m k h = finish-then Sane m k (λ e. tt) h

    pub resolve-IsSafeName :
        (session : String) (b : B) (s : String)
        → resolve check o session ≡ pass (b, s)
        → IsSafeName check s
    unfolding resolve resolve_session
    resolve-IsSafeName session b s h =
        elim (Result-cases (resolve_session_kind check o.backends session)) [
          | inl (e, failed) ↦ absurd (ground arith)
          | inr ((kind, b', s'), found) ↦
              let same : s' ≡ s = ground arith in
              subst (IsSafeName check) same
                ((resolve_session_kind_iff check o.backends session kind b' s').0 found).1
        ]

    pub routed_or-Sane :
        (r : Routed) (ext : Option Bool) (d : Done B)
        → Sane d
        → Sane (Handlers.routed_or check ext o r d)
    routed_or-Sane r ext d h = elim (Option-cases r.answer) [
      | inl none_taken ↦
          subst (λ a. Sane (Handlers.routed_with check ext o a r.sent d)) (sym none_taken) h
      | inr (ack, taken) ↦
          subst (λ a. Sane (Handlers.routed_with check ext o a r.sent d)) (sym taken) tt
    ]

    pub name_filled :
        (name : String) {u : Unit {0}} → check_name name ≡ pass u → is_empty name ≡ false
    name_filled name h = ground arith

    pub size_bounded :
        (bytes : List ℕ) {u : Unit {0}}
        → check_size bytes ≡ pass u
        → length bytes ≤ max_write_to_pane_bytes
    size_bounded bytes h = ground arith

    pub validated-IsLabel :
        (s : String) {u : Unit {0}} → validate_space_label s ≡ pass u → IsLabel s
    unfolding validate_space_label
    validated-IsLabel s h = ground arith

    pub id-IsSpaceId : (s : String) {u : Unit {0}} → validate_space_id s ≡ pass u → IsSpaceId s
    unfolding validate_space_id
    id-IsSpaceId s h = ground arith

    pub layout-IsLayoutName :
        (s : String) {u : Unit {0}} → validate_layout_name s ≡ pass u → IsLayoutName s
    unfolding validate_layout_name
    layout-IsLayoutName s h = ground arith

    pub supplied-Given :
        (P : String → Type 0) (s : String) (v : Checked (Unit {0})) (l : Option String)
        → ((u : Unit {0}) → v ≡ pass u → P s)
        → supplied s v ≡ pass l
        → Given P l
    supplied-Given P s v none k h = tt
    supplied-Given P s (reject e) (some t) k h = absurd (ground arith)
    supplied-Given P s (pass u) (some t) k h =
        let same : s ≡ t = ground arith in subst P same (k u refl)

    pub session-IsSafeName :
        (name : String) {u : Unit {0}} → check_session check name ≡ pass u → IsSafeName check name
    unfolding check_session
    session-IsSafeName name h = elim (Result-cases (validate_session check name)) [
      | inl (e, failed) ↦ absurd (ground arith)
      | inr (u, passed) ↦ (validate_session_iff check name).0 (ground arith)
    ]

    pub switch_at-Sane :
        (e : Option ControlEntry) (ext : Option Bool) (space : String)
        → Sane (Spaces.switch_at check ext o e space)
    switch_at-Sane none ext space = tt
    switch_at-Sane (some e) ext space = elim (Bool-cases (o.alive e.sender)) [
      | inl lives ↦ ground arith
      | inr gone ↦ ground arith
    ]

    unless-Sane : (test : Bool) (d e : Done B) → Sane d → Sane e → Sane (if test then d else e)
    unless-Sane true d e h k = h
    unless-Sane false d e h k = k

    repoint-Sane :
        (ext : Option Bool) (b : B) (bare : String) (e : Option ControlEntry) (d : Done B)
        → IsSafeName check bare
        → Sane d
        → Sane (Spaces.repoint check ext o b bare e d)
    repoint-Sane ext b bare none d safe h = h
    repoint-Sane ext b bare (some e) d safe h =
        All-append (λ (x : B × Op). IsSane x.1) d.ops ((b, Ops.list_spaces bare) ∷ []) h (safe, tt)

    close_result-Sane :
        (ext : Option Bool) (session id space : String) (b : B) (bare : String)
        (ack : Checked ActionAck)
        → IsSafeName check bare
        → IsSpaceId space
        → Sane (Spaces.close_result check ext o session id space b bare ack)
    close_result-Sane ext session id space b bare (reject e) safe ok_id = (safe, (ok_id, tt))
    close_result-Sane ext session id space b bare (pass ack) safe ok_id =
        unless-Sane ack.ok _ _
          (unless-Sane
            (Spaces.same_space (Spaces.connection_current_space o.view_state session id) space) _ _
            (repoint-Sane ext b bare (exact_relay o.control session id)
              (record {
                ops = (b, Ops.list_spaces bare) ∷ (b, Ops.close_space space) ∷ [];
                sent = [];
                answer = pass (success "");
              })
              safe (safe, (ok_id, tt)))
            (safe, (ok_id, tt)))
          (safe, (ok_id, tt))

    pub close_if_more-Sane :
        (ext : Option Bool) (session id space : String) (b : B) (bare : String) (count : Checked ℕ)
        → IsSafeName check bare
        → IsSpaceId space
        → Sane (Spaces.close_if_more check ext o session id space b bare count)
    close_if_more-Sane ext session id space b bare (reject e) safe ok_id = (safe, tt)
    close_if_more-Sane ext session id space b bare (pass n) safe ok_id =
        unless-Sane (Spaces.would_close_last_space n) _ _ (safe, tt)
          (close_result-Sane ext session id space b bare
            (Spaces.close_answer (o.acts b (Ops.close_space space))) safe ok_id)
