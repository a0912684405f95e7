-- ===== src/Server/Auth/Access.antt =====
-- Who gets through, and with which rights (muxrd/src/auth.rs).
use zellimobile_server.Common.{
  String, true, false, none, some, ◌≡◌, refl, ap, sym, ◌∙◌, ◌↔◌, ◌⊎◌, inl, inr, arith, Bool-cases,
  Option-cases,
}
use zellimobile_server.Rust.Text.{concat, is_empty}
use zellimobile_server.Rust.Splits.{strip_prefix, append-strip_prefix, strip_prefix-append}
use zellimobile_server.Server.Auth.{
  TokenDb, Header, absent, not_ascii, text, Session, Request, Unauthenticated, Checked, accepted,
  rejected, forward, public_paths, contains_path, read_only_or_closed, check_token, check_bearer,
  call,
}

check_cases :
    (c : Checked)
    → ((why : Unauthenticated) × (c ≡ rejected why)) ⊎ ((s : Session) × (c ≡ accepted s))
check_cases (rejected why) = inl (why, refl)
check_cases (accepted s) = inr (s, refl)

module _ (db : TokenDb) where
  -- The header holds a token of the Bearer scheme that the database accepts, and the session has
  -- it, read-only unless the database says that it is not.
  abbrev pub HasToken : Header → Session → Type 0
  HasToken header s =
      (header ≡ text (concat "Bearer " s.token))
      × (is_empty s.token ≡ false)
      × (db.validate_session_token s.token ≡ some true)
      × (s.read_only ≡ read_only_or_closed db s.token)

  check_token_iff :
      (token : String) (s : Session)
      → (check_token db token ≡ accepted s) ↔ (
          (s.token ≡ token)
          × (is_empty token ≡ false)
          × (db.validate_session_token token ≡ some true)
          × (s.read_only ≡ read_only_or_closed db token))
  unfolding check_token
  check_token_iff token s = (
    λ h. elim (Option-cases (db.validate_session_token token)) [
      | inl broken ↦ absurd (ground arith)
      | inr (true, valid) ↦
          let same : accepted (record { read_only = read_only_or_closed db token; token = token })
              ≡ accepted s =
            ground arith in
          (cc, ground arith, valid, cc)
      | inr (false, invalid) ↦ absurd (ground arith)
    ],
    λ (same, solid, valid, rights). rw (solid, check_token, valid, ← rights, ← same),
  )

  check_bearer_iff :
      (header : Header) (s : Session) → (check_bearer db header ≡ accepted s) ↔ HasToken header s
  unfolding check_bearer
  check_bearer_iff absent s = (λ h. cc, λ h. cc)
  check_bearer_iff not_ascii s = (λ h. cc, λ h. cc)
  check_bearer_iff (text value) s = (
    λ h. elim (Option-cases (strip_prefix "Bearer " value)) [
      | inl other ↦ absurd (ground arith)
      | inr (token, found) ↦
          let (same, solid, valid, rights) =
            (check_token_iff token s).0 (rw (found, check_bearer) at h) in
          (
            ap text (
                append-strip_prefix "Bearer " value token found ∙ ap (concat "Bearer ") (sym same)),
            rw same solid,
            rw same valid,
            rw same rights,
          )
    ],
    λ (same, solid, valid, rights).
        let value_is : value ≡ concat "Bearer " s.token = ground arith in
        rw (value_is, check_bearer, strip_prefix-append "Bearer " s.token)
          ((check_token_iff s.token s).1 (refl, solid, valid, rights)),
  )

  -- A request is let through exactly if its path is public, and then it is let through as it is, or
  -- its header holds a token that the database accepts, and then it gets the token's session.
  pub call-forward_iff :
      (req req' : Request)
      → (call db req ≡ forward req') ↔ (
          ((contains_path public_paths req.path ≡ true) × (req' ≡ req))
          ⊎ ((contains_path public_paths req.path ≡ false)
              × (s : Session) × HasToken req.authorization s
              × (req' ≡ record req { session = some s })))
  unfolding call
  call-forward_iff req req' = (
    λ h. elim (Bool-cases (contains_path public_paths req.path)) [
      | inl open_to_all ↦
          let out : forward req ≡ forward req' = ground arith in inl (open_to_all, cc)
      | inr closed ↦ elim (check_cases (check_bearer db req.authorization)) [
        | inl (why, refused) ↦ absurd (ground arith)
        | inr (s, passed) ↦
            let out : forward (record req { session = some s }) ≡ forward req' = ground arith in
            inr (closed, s, (check_bearer_iff req.authorization s).0 passed, cc)
      ]
    ],
    λ h. elim h [
      | inl (open_to_all, same) ↦ rw (open_to_all, call) (ap forward (sym same))
      | inr (closed, s, token, same) ↦
          rw (closed, call, (check_bearer_iff req.authorization s).1 token) (ap forward (sym same))
    ],
  )

  opened :
      (token : String)
      → read_only_or_closed db token ≡ false
      → db.is_session_token_read_only token ≡ some false
  opened token h = elim (Option-cases (db.is_session_token_read_only token)) [
    | inl broken ↦ absurd (ground arith)
    | inr (read_only, said) ↦ ground arith
  ]

  -- Write access is granted only on the database's word: a request that comes without a session and
  -- goes on with one that is not read-only carries a token that the database accepts and does not
  -- call read-only. An error of the database never grants it.
  pub call-writable :
      (req req' : Request) (s : Session)
      → req.session ≡ none
      → call db req ≡ forward req'
      → req'.session ≡ some s
      → s.read_only ≡ false
      → (req.authorization ≡ text (concat "Bearer " s.token))
        × (db.validate_session_token s.token ≡ some true)
        × (db.is_session_token_read_only s.token ≡ some false)
  call-writable req req' s bare passed carried writable =
      elim ((call-forward_iff req req').0 passed) [
        | inl (_, same) ↦ absurd (ground arith)
        | inr (closed, t, (header, solid, valid, rights), same) ↦
            let one : t ≡ s = ground arith in
            let token_is : s.token ≡ t.token = ap (λ x. x.token) (sym one) in
            let rights_are : s.read_only ≡ t.read_only = ap (λ x. x.read_only) (sym one) in
            rw token_is (header, valid, opened t.token (sym rights ∙ sym rights_are ∙ writable))
      ]
