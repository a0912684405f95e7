-- ===== src/Server/Transport/Choice.antt =====
-- How the server may serve its port (muxrd/src/config.rs).
use Prim.Native.String.{[], ◌∷◌}
use zellimobile_server.Common.{
  String, Bool, true, false, ◌||◌, Option, none, some, ◌≡◌, refl, ◌≢◌, ◌↔◌, ◌⊎◌, inl, inr, arith,
  eq_iff, ap, Option-cases, Bool-cases,
}
use zellimobile_server.Rust.Text.{is_empty}
use zellimobile_server.Rust.Ip.{is_loopback}
use zellimobile_server.Server.Transport.{
  CertSource, Env, or, filled, truthy, choose_source, ok, resolve_cert_source, SocketAddr,
  check_h2c_bind_safety,
}

-- A path is given: on the command line, or, where it is not there, by a variable that is not empty.
abbrev pub Given : Option String → Option String → String → Type 0
Given cli env path =
    (cli ≡ some path) ⊎ ((cli ≡ none) × (env ≡ some path) × (is_empty path ≡ false))

-- No path is given.
abbrev pub NotGiven : Option String → Option String → Type 0
NotGiven cli env = (cli ≡ none) × ((env ≡ none) ⊎ (env ≡ some ""))

-- Plaintext is asked for, by the flag or by the variable, which counts unless it is empty or "0".
abbrev pub AsksPlaintext : Env → Bool → Type 0
AsksPlaintext env flag = (flag ≡ true) ⊎ ((v : String) × (env.h2c ≡ some v) × (v ≢ "") × (v ≢ "0"))

is_empty_iff : (v : String) → (is_empty v ≡ true) ↔ (v ≡ "")
is_empty_iff [] = (λ h. refl, λ h. refl)
is_empty_iff (c ∷ v) = (λ h. cc, λ h. cc)

Given-iff :
    (cli env : Option String) (path : String)
    → (or cli (filled env) ≡ some path) ↔ Given cli env path
unfolding filled
Given-iff (some p) env path = (λ h. inl h, λ h. ground arith)
Given-iff none none path = (λ h. absurd (ground arith), λ h. ground arith)
Given-iff none (some v) path = (λ h. inr (refl, ground arith, ground arith), λ h. ground arith)

NotGiven-iff : (cli env : Option String) → (or cli (filled env) ≡ none) ↔ NotGiven cli env
unfolding filled
NotGiven-iff (some p) env = (λ h. absurd (ground arith), λ h. ground arith)
NotGiven-iff none none = (λ h. (refl, inl refl), λ h. refl)
NotGiven-iff none (some v) = (
  λ h. (refl, inr (ap some ((is_empty_iff v).0 (ground arith)))),
  λ h. ground (arith, is_empty_iff v),
)

AsksPlaintext-iff :
    (env : Env) (flag : Bool) → ((flag || truthy env.h2c) ≡ true) ↔ AsksPlaintext env flag
unfolding truthy
AsksPlaintext-iff env true = (λ h. inl refl, λ h. refl)
AsksPlaintext-iff env false = (
  λ h. elim (Option-cases env.h2c) [
    | inl unset ↦ absurd (ground arith)
    | inr (v, set) ↦ inr (v, set, ground (arith, is_empty_iff v), ground (arith, eq_iff v "0"))
  ],
  λ h. elim h [
    | inl set ↦ absurd (ground arith)
    | inr (v, set, filled_in, no_zero) ↦ ground (arith, eq_iff v "0", is_empty_iff v)
  ],
)

choose_h2c_iff :
    (cert key : Option String) (plain : Bool)
    → (choose_source cert key plain ≡ ok CertSource.h2c)
      ↔ ((plain ≡ true) × (cert ≡ none) × (key ≡ none))
unfolding choose_source
choose_h2c_iff cert key true = (λ h. ground arith, λ h. ground arith)
choose_h2c_iff (some _) (some _) false = (λ h. ground arith, λ h. ground arith)
choose_h2c_iff (some _) none false = (λ h. ground arith, λ h. ground arith)
choose_h2c_iff none (some _) false = (λ h. ground arith, λ h. ground arith)
choose_h2c_iff none none false = (λ h. ground arith, λ h. ground arith)

choose_external_iff :
    (cert key : Option String) (plain : Bool) (c k : String)
    → (choose_source cert key plain ≡ ok (CertSource.external c k))
      ↔ ((plain ≡ false) × (cert ≡ some c) × (key ≡ some k))
unfolding choose_source
choose_external_iff cert key true c k = (λ h. ground arith, λ h. ground arith)
choose_external_iff (some _) (some _) false c k = (λ h. ground arith, λ h. ground arith)
choose_external_iff (some _) none false c k = (λ h. ground arith, λ h. ground arith)
choose_external_iff none (some _) false c k = (λ h. ground arith, λ h. ground arith)
choose_external_iff none none false c k = (λ h. ground arith, λ h. ground arith)

choose_self_signed_iff :
    (cert key : Option String) (plain : Bool)
    → (choose_source cert key plain ≡ ok CertSource.self_signed)
      ↔ ((plain ≡ false) × (cert ≡ none) × (key ≡ none))
unfolding choose_source
choose_self_signed_iff cert key true = (λ h. ground arith, λ h. ground arith)
choose_self_signed_iff (some _) (some _) false = (λ h. ground arith, λ h. ground arith)
choose_self_signed_iff (some _) none false = (λ h. ground arith, λ h. ground arith)
choose_self_signed_iff none (some _) false = (λ h. ground arith, λ h. ground arith)
choose_self_signed_iff none none false = (λ h. ground arith, λ h. ground arith)

Bool-not_iff : (b : Bool) → (b ≡ false) ↔ (¬ (b ≡ true))
Bool-not_iff true = (λ h. cc, λ h. absurd (h refl))
Bool-not_iff false = (λ h e. cc, λ h. refl)

-- The server is plaintext exactly if that is asked for and neither a certificate nor a key is given;
-- it serves the pair that is given exactly if both are and plaintext is not asked for; its own
-- certificate exactly if nothing of all this is given. The command line wins over the environment,
-- where an empty variable counts as none. All else is refused.
pub resolve_cert_source_iff :
    (env : Env) (cli_cert cli_key : Option String) (flag : Bool) (cert key : String)
    → let source = resolve_cert_source env cli_cert cli_key flag in
      ((source ≡ ok CertSource.h2c)
        ↔ (AsksPlaintext env flag × NotGiven cli_cert env.tls_cert × NotGiven cli_key env.tls_key))
      × ((source ≡ ok (CertSource.external cert key)) ↔ (
          (¬ AsksPlaintext env flag)
          × Given cli_cert env.tls_cert cert
          × Given cli_key env.tls_key key))
      × ((source ≡ ok CertSource.self_signed) ↔ (
          (¬ AsksPlaintext env flag)
          × NotGiven cli_cert env.tls_cert
          × NotGiven cli_key env.tls_key))
unfolding resolve_cert_source
resolve_cert_source_iff env cli_cert cli_key flag cert key =
    let c = or cli_cert (filled env.tls_cert) in
    let k = or cli_key (filled env.tls_key) in
    let plain = flag || truthy env.h2c in
    let asks = AsksPlaintext-iff env flag in
    let no_cert = NotGiven-iff cli_cert env.tls_cert in
    let no_key = NotGiven-iff cli_key env.tls_key in
    (
      (
        λ h. let (p, q, r) = (choose_h2c_iff c k plain).0 h in (asks.0 p, no_cert.0 q, no_key.0 r),
        λ (p, q, r). (choose_h2c_iff c k plain).1 (asks.1 p, no_cert.1 q, no_key.1 r),
      ),
      (
        λ h.
            let (p, q, r) = (choose_external_iff c k plain cert key).0 h in
            (
              λ a. (Bool-not_iff plain).0 p (asks.1 a),
              (Given-iff cli_cert env.tls_cert cert).0 q,
              (Given-iff cli_key env.tls_key key).0 r,
            ),
        λ (p, q, r). (choose_external_iff c k plain cert key).1 (
          (Bool-not_iff plain).1 (λ a. p (asks.0 a)),
          (Given-iff cli_cert env.tls_cert cert).1 q,
          (Given-iff cli_key env.tls_key key).1 r,
        ),
      ),
      (
        λ h.
            let (p, q, r) = (choose_self_signed_iff c k plain).0 h in
            (λ a. (Bool-not_iff plain).0 p (asks.1 a), no_cert.0 q, no_key.0 r),
        λ (p, q, r).
            (choose_self_signed_iff c k plain).1
              ((Bool-not_iff plain).1 (λ a. p (asks.0 a)), no_cert.1 q, no_key.1 r),
      ),
    )

-- Whatever the arguments and the environment, plaintext passes the guard exactly on a loopback
-- address or with the operator's word; a server with TLS passes it everywhere.
pub check_h2c_bind_safety_iff :
    (source : CertSource) (addr : SocketAddr) (allow_public : Bool)
    → (check_h2c_bind_safety source addr allow_public ≡ ok tt)
      ↔ ((source ≢ CertSource.h2c) ⊎ (is_loopback addr.ip ≡ true) ⊎ (allow_public ≡ true))
unfolding check_h2c_bind_safety
check_h2c_bind_safety_iff CertSource.self_signed addr allow = (λ h. inl (λ e. cc), λ h. refl)
check_h2c_bind_safety_iff (CertSource.external c k) addr allow = (λ h. inl (λ e. cc), λ h. refl)
check_h2c_bind_safety_iff CertSource.h2c addr allow = (
  λ h. elim (Bool-cases (is_loopback addr.ip)) [
    | inl home ↦ inr (inl home)
    | inr abroad ↦ inr (inr (ground arith))
  ],
  λ h. elim h [
    | inl other ↦ absurd (other refl)
    | inr (inl home) ↦ ground arith
    | inr (inr word) ↦ ground arith
  ],
)
