-- ===== src/Server/Transport.antt =====
-- muxrd/src/config.rs: where the server's configuration comes from, how it serves its port, and the
-- guard of plaintext on a public address. The environment is a record of the variables that are
-- read; an error is what its message is made of. Paths are texts.
pub mod Choice
use zellimobile_server.Common.{
  ℕ, String, Bool, true, false, ◌&&◌, ◌||◌, not, Option, none, some, str_eq, if◌then◌else◌,
}
use zellimobile_server.Rust.Text.{is_empty}
use zellimobile_server.Rust.Ip.{IpAddr, is_loopback}

pub data CertSource : Type 0 where
  self_signed : CertSource
  external : (cert key : String) → CertSource
  h2c : CertSource

pub data CertMode : Type 0 where
  self_signed external h2c : CertMode

-- `CertSource::mode`
unfoldable pub mode : CertSource → CertMode
mode self_signed = self_signed
mode (external cert key) = external
mode h2c = h2c

pub record Env : Type 0 where
  pub tls_cert : Option String
  pub tls_key : Option String
  pub h2c : Option String
  pub bind : Option String

pub data ConfigError : Type 0 where
  h2c_with_tls cert_without_key key_without_cert : ConfigError
  public_plaintext : (ip : IpAddr) (port : ℕ) → ConfigError

pub data Result {ℓ} (A : Type ℓ) : Type ℓ where
  ok : A → Result A
  err : ConfigError → Result A

-- `Option::or`
abbrev pub or {ℓ} : {A : Type ℓ} → Option A → Option A → Option A
or (some a) other = some a
or none other = other

abbrev pub is_some {ℓ} : {A : Type ℓ} → Option A → Bool
is_some (some _) = true
is_some none = false

-- `filter(|v| !v.is_empty())`
unfoldable pub filled : Option String → Option String
filled none = none
filled (some v) = if is_empty v then none else some v

-- `is_some_and(|v| !v.is_empty() && v != "0")`
unfoldable pub truthy : Option String → Bool
truthy none = false
truthy (some v) = not (is_empty v) && not (str_eq v "0")

choose_source : Option String → Option String → Bool → Result CertSource
choose_source cert key true =
    if is_some cert || is_some key then err h2c_with_tls else ok CertSource.h2c
choose_source (some cert) (some key) false = ok (CertSource.external cert key)
choose_source (some _) none false = err cert_without_key
choose_source none (some _) false = err key_without_cert
choose_source none none false = ok CertSource.self_signed

-- `resolve_cert_source`
unfoldable pub resolve_cert_source : Env → Option String → Option String → Bool → Result CertSource
unfolding filled truthy choose_source
resolve_cert_source env cli_cert cli_key cli_h2c =
    choose_source (or cli_cert (filled env.tls_cert)) (or cli_key (filled env.tls_key))
      (cli_h2c || truthy env.h2c)

pub record SocketAddr : Type 0 where
  pub ip : IpAddr
  pub port : ℕ

-- `check_h2c_bind_safety`
unfoldable pub check_h2c_bind_safety : CertSource → SocketAddr → Bool → Result (Unit {0})
check_h2c_bind_safety self_signed addr allow_public = ok tt
check_h2c_bind_safety (external cert key) addr allow_public = ok tt
check_h2c_bind_safety h2c addr allow_public =
    if is_loopback addr.ip
    then ok tt
    else if allow_public
    then ok tt
    else err (public_plaintext addr.ip addr.port)
