-- ===== src/Server/Routing/Resolution.antt =====
-- Which session ids resolve, to what, and how the others are refused
-- (muxrd/src/multiplexer/routing.rs).
use Prim.Native.String.{◌∷◌, ◌++◌}
use text.Mathlib.TextLemmas.{nil-append, cons-append}
use zellimobile_server.Common.{
  String, true, false, List, [], ◌∷◌, length, ==_iff, ◌==◌, Option, none, some, ◌≡◌, refl, ap, sym,
  ◌∙◌, ◌↔◌, ◌⊎◌, inl, inr, arith, Bool-cases, Option-cases, eq_iff,
}
use zellimobile_server.Rust.Text.{is_empty}
use zellimobile_server.Rust.Text.Laws.{Lacks}
use zellimobile_server.Rust.Splits.{
  split_once, split_once-append, split_once-none, split_once-of_Lacks, append-split_once,
}
use zellimobile_server.Server.Backends.{BackendKind, zellij, herdr, kind_text, BackendSet, get, len}
use zellimobile_server.Server.Routing.{
  Result, not_running, ok, err, all_name_chars, parse_backend_kind, make_id,
  is_collapsed_backend_session, validate_session, resolve_qualified, resolve_bare, choose_backend,
  Result-cases, resolve_session_kind,
}

-- The text splits at its first colon.
make_id_lem :
    (kind : BackendKind) (bare : String) → make_id kind bare ≡ kind_text kind ++ (":" ∷ bare)
unfolding make_id
make_id_lem kind bare = rw (cons-append, nil-append)

kind_text-Lacks : (kind : BackendKind) → Lacks b':' (kind_text kind)
unfolding kind_text split_once
kind_text-Lacks zellij = split_once-none b':' "zellij" refl
kind_text-Lacks herdr = split_once-none b':' "herdr" refl

split_once-make_id :
    (kind : BackendKind) (bare : String)
    → split_once b':' (make_id kind bare) ≡ some (kind_text kind, bare)
split_once-make_id kind bare =
    rw (make_id_lem kind bare) (split_once-append ":" (kind_text kind) bare (kind_text-Lacks kind))

parse_backend_kind-kind_text :
    (kind : BackendKind) → parse_backend_kind (kind_text kind) ≡ some kind
unfolding parse_backend_kind kind_text
parse_backend_kind-kind_text zellij = refl
parse_backend_kind-kind_text herdr = refl

kind_text-parse_backend_kind :
    (s : String) (kind : BackendKind) → parse_backend_kind s ≡ some kind → s ≡ kind_text kind
unfolding parse_backend_kind kind_text
kind_text-parse_backend_kind s zellij h = ground (arith, eq_iff s "zellij", eq_iff s "herdr")
kind_text-parse_backend_kind s herdr h = ground (arith, eq_iff s "zellij", eq_iff s "herdr")

-- An id that splits after a kind's text is that kind's id.
split_once-IsMade :
    (id bare : String) (kind : BackendKind)
    → split_once b':' id ≡ some (kind_text kind, bare)
    → id ≡ make_id kind bare
split_once-IsMade id bare kind h =
    (append-split_once ":" id (kind_text kind) bare h).0 ∙ sym (make_id_lem kind bare)

-- Exactly the ids that `make_id` gives herdr's sessions count as collapsed.
pub is_collapsed_iff :
    (id : String)
    → (is_collapsed_backend_session id ≡ true) ↔ ((bare : String) × (id ≡ make_id herdr bare))
unfolding is_collapsed_backend_session kind_text
is_collapsed_iff id = (
  λ h. elim (Option-cases (split_once b':' id)) [
    | inl nowhere ↦ absurd (ground arith)
    | inr ((kind, bare), found) ↦
        let same : kind ≡ "herdr" = ground (arith, eq_iff kind "herdr") in
        (bare, split_once-IsMade id bare herdr (found ∙ ap (λ k. some (k, bare)) same))
  ],
  λ (bare, made). rw (made, is_collapsed_backend_session, split_once-make_id herdr bare),
)

one_of_length {ℓ} : {A : Type ℓ} (xs : List A) → length xs ≡ 1 → (x : A) × (xs ≡ x ∷ [])
one_of_length [] h = absurd (omega arith)
one_of_length (x ∷ []) h = (x, refl)
one_of_length (x ∷ y ∷ xs) h = absurd (omega arith)

module _ {ℓ} {B : Type ℓ} where
  -- What an id has to be for a backend and a bare name to be its own: the id that `make_id` gives
  -- them, with the backend in the set, or the bare name itself, with the backend alone in the set.
  abbrev pub Names : BackendSet B → String → BackendKind → B → String → Type ℓ
  Names s id kind b bare =
      ((id ≡ make_id kind bare) × (get s kind ≡ some b))
      ⊎ ((id ≡ bare) × Lacks b':' id × (s.backends ≡ (kind, b) ∷ []))

  choose-Names :
      (s : BackendSet B) (id : String) (kind : BackendKind) (b : B) (bare : String)
      → choose_backend s id ≡ ok (kind, b, bare)
      → Names s id kind b bare
  unfolding choose_backend resolve_qualified resolve_bare
  choose-Names s id kind b bare h = elim (Option-cases (split_once b':' id)) [
    | inl nowhere ↦ elim (Bool-cases (len s == 1)) [
      | inl one ↦
          let ((k, c), only) = one_of_length s.backends ((==_iff (len s) 1).0 one) in
          let same_kind : k ≡ kind = ground arith in
          let same_backend : c ≡ b = ground arith in
          let same_id : id ≡ bare = ground arith in
          inr (same_id, split_once-none b':' id nowhere, only ∙ cc)
      | inr several ↦ absurd (ground arith)
    ]
    | inr ((text, rest), found) ↦ elim (Option-cases (parse_backend_kind text)) [
      | inl unknown ↦ absurd (ground arith)
      | inr (k, parsed) ↦ elim (Option-cases (get s k)) [
        | inl missing ↦ absurd (ground arith)
        | inr (c, there) ↦
            let text_of = kind_text-parse_backend_kind text k parsed in
            let same_kind : k ≡ kind = ground arith in
            let same_backend : c ≡ b = ground arith in
            let same_rest : rest ≡ bare = ground arith in
            inl (split_once-IsMade id bare kind cc, cc)
      ]
    ]
  ]

  choose_of_Names :
      (s : BackendSet B) (id : String) (kind : BackendKind) (b : B) (bare : String)
      → Names s id kind b bare
      → choose_backend s id ≡ ok (kind, b, bare)
  unfolding choose_backend resolve_qualified resolve_bare
  choose_of_Names s id kind b bare (inl (made, there)) = rw (
    made,
    choose_backend,
    split_once-make_id kind bare,
    parse_backend_kind-kind_text kind,
    resolve_qualified,
    there,
  )
  choose_of_Names s id kind b bare (inr (same, plain, only)) =
      rw (choose_backend, split_once-of_Lacks b':' id plain, resolve_bare, only, same)

  choose-missing :
      (s : BackendSet B) (id i : String) (kind : BackendKind)
      → choose_backend s id ≡ err (not_running i kind)
      → (i ≡ id) × (bare : String) × (id ≡ make_id kind bare) × (get s kind ≡ none)
  unfolding choose_backend resolve_qualified resolve_bare
  choose-missing s id i kind h = elim (Option-cases (split_once b':' id)) [
    | inl nowhere ↦ absurd (ground arith)
    | inr ((text, rest), found) ↦ elim (Option-cases (parse_backend_kind text)) [
      | inl unknown ↦ absurd (ground arith)
      | inr (k, parsed) ↦
          let text_of = kind_text-parse_backend_kind text k parsed in
          let missing : get s k ≡ none = ground arith in
          let same_kind : k ≡ kind = ground arith in
          (ground arith, rest, split_once-IsMade id rest kind cc, cc)
    ]
  ]

module _ (zellij_check : String → Option String) where
  -- What the guard lets through.
  abbrev pub IsSafeName : String → Type 0
  IsSafeName name =
      (zellij_check name ≡ none) × (is_empty name ≡ false) × (all_name_chars name ≡ true)

  pub validate_session_iff :
      (name : String) → (validate_session zellij_check name ≡ ok tt) ↔ IsSafeName name
  unfolding validate_session
  validate_session_iff name = (λ h. ground arith, λ h. ground arith)

  module _ {ℓ} {B : Type ℓ} where
    -- An id resolves to a backend and a bare name exactly if it names them, qualified or as the bare
    -- name of the only backend, and the bare name passes zellij's check and has only the allowed
    -- characters, at least one.
    pub resolve_session_kind_iff :
        (s : BackendSet B) (id : String) (kind : BackendKind) (b : B) (bare : String)
        → (resolve_session_kind zellij_check s id ≡ ok (kind, b, bare))
          ↔ (Names s id kind b bare × IsSafeName bare)
    unfolding resolve_session_kind
    resolve_session_kind_iff s id kind b bare = (
      λ h. elim (Result-cases (choose_backend s id)) [
        | inl (e, failed) ↦ absurd (ground arith)
        | inr ((k, c, name), chose) ↦ elim (Result-cases (validate_session zellij_check name)) [
          | inl (e, refused) ↦ absurd (ground arith)
          | inr (_, passed) ↦
              let same : ◌≡◌ {A = Result (BackendKind × B × String)} (ok (k, c, name))
                  (ok (kind, b, bare)) =
                ground arith in
              let same_name : name ≡ bare = ground arith in
              (
                choose-Names s id kind b bare (chose ∙ same),
                (validate_session_iff bare).0 (ground arith),
              )
        ]
      ],
      λ (names, safe).
          rw (choose_of_Names s id kind b bare names, resolve_session_kind)
            (rw ((validate_session_iff bare).1 safe)),
    )

    -- `NotFound` is the answer exactly to the ids of a known kind whose backend is not in the set,
    -- whatever their bare name.
    pub not_running_iff :
        (s : BackendSet B) (id i : String) (kind : BackendKind)
        → (resolve_session_kind zellij_check s id ≡ err (not_running i kind))
          ↔ ((i ≡ id) × (bare : String) × (id ≡ make_id kind bare) × (get s kind ≡ none))
    unfolding resolve_session_kind validate_session choose_backend resolve_qualified
    not_running_iff s id i kind = (
      λ h. elim (Result-cases (choose_backend s id)) [
        | inl (e, failed) ↦ choose-missing s id i kind (failed ∙ ground arith)
        | inr ((k, c, name), chose) ↦ absurd (ground arith)
      ],
      λ (same, bare, made, missing).
          rw
            (
              made,
              resolve_session_kind,
              choose_backend,
              split_once-make_id kind bare,
              parse_backend_kind-kind_text kind,
              resolve_qualified,
              missing,
            )
            cc,
    )
