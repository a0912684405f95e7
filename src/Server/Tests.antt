-- ===== src/Server/Tests.antt =====
-- muxrd's decisions at concrete inputs (muxrd/src/multiplexer/routing.rs, config.rs, auth.rs).
use zellimobile_server.Common.{
  String, Bool, true, false, [], ◌∷◌, Option, none, some, ◌≡◌, refl, ◌↔◌, ◌⊎◌, inl, inr, arith,
  Option-cases,
}
use zellimobile_server.Server.Backends.{zellij, BackendSet}
use zellimobile_server.Server.Routing.{ok, resolve_session_kind}
use zellimobile_server.Server.Routing.Resolution.{Names, IsSafeName, resolve_session_kind_iff}
use zellimobile_server.Server.Transport.{CertSource, Env, ok, resolve_cert_source}
use zellimobile_server.Server.Transport.Choice.{
  Given, NotGiven, AsksPlaintext, resolve_cert_source_iff,
}
use zellimobile_server.Server.Settings.{
  FileConfig, empty_config, Toml, IoStep, Io, chmod_temp, done, effective, resolve, set_bind_addr,
  Disk,
}
use zellimobile_server.Server.Settings.Saving.{
  Keeps, Writes, set_bind_addr_atomic, resolve-set_bind_addr,
}
use zellimobile_server.Server.Auth.{
  TokenDb, text, Request, Session, public_paths, contains_path, call, forward,
}
use zellimobile_server.Server.Auth.Access.{HasToken, call-forward_iff}

-- A check that refuses no name.
abbrev check_name : String → Option String
check_name name = none

-- A server that drives zellij alone.
abbrev only_zellij : BackendSet String
only_zellij = record { backends = (zellij, "z") ∷ [] }

resolve_session_kind_iff_example :
    (resolve_session_kind check_name only_zellij "zellij:dev" ≡ ok (zellij, "z", "dev"))
    ↔ (Names only_zellij "zellij:dev" zellij "z" "dev" × IsSafeName check_name "dev")
resolve_session_kind_iff_example =
    resolve_session_kind_iff check_name only_zellij "zellij:dev" zellij "z" "dev"

-- The variables name a certificate and a key, and leave plaintext alone.
abbrev env : Env
env = record { tls_cert = some "/c.pem"; tls_key = some "/k.pem"; h2c = some "0"; bind = none }

resolve_cert_source_iff_example :
    ((resolve_cert_source env none none false ≡ ok CertSource.h2c)
      ↔ (AsksPlaintext env false × NotGiven none env.tls_cert × NotGiven none env.tls_key))
    × ((resolve_cert_source env none none false ≡ ok (CertSource.external "/c.pem" "/k.pem")) ↔ (
        (¬ AsksPlaintext env false)
        × Given none env.tls_cert "/c.pem"
        × Given none env.tls_key "/k.pem"))
    × ((resolve_cert_source env none none false ≡ ok CertSource.self_signed)
        ↔ ((¬ AsksPlaintext env false) × NotGiven none env.tls_cert × NotGiven none env.tls_key))
resolve_cert_source_iff_example = resolve_cert_source_iff env none none false "/c.pem" "/k.pem"

abbrev plaintext : CertSource
plaintext = CertSource.h2c

-- A small format in place of TOML: the text is the address, and other settings have no text.
abbrev read_text : String → Option FileConfig
read_text raw = some (record empty_config { bind_addr = some raw })

abbrev write_text : FileConfig → Option String
write_text file = elim file.cert_dir [
  | some _ ↦ none
  | none ↦ elim file.log_path [ some _ ↦ none | none ↦ file.bind_addr ]
]

reads_back : (file : FileConfig) (t : String) → write_text file ≡ some t → read_text t ≡ some file
reads_back file t h = elim (Option-cases file.cert_dir) [
  | inr (_, there) ↦ absurd (ground arith)
  | inl no_dir ↦ elim (Option-cases file.log_path) [
    | inr (_, there) ↦ absurd (ground arith)
    | inl no_log ↦ let address : file.bind_addr ≡ some t = ground arith in cc
  ]
]

abbrev toml : Toml
toml = record { from_str = read_text; to_string_pretty = write_text }

-- The mode of the temporary file cannot be set.
abbrev no_chmod : IoStep → Option (Option String)
no_chmod chmod_temp = some none
no_chmod _ = none

abbrev working : IoStep → Option (Option String)
working step = none

abbrev saved : Disk × Io (Unit {0})
saved =
    set_bind_addr "/data" "" toml no_chmod (record { config = some "127.0.0.1:1"; temp = none })
      "0.0.0.0:2"

set_bind_addr_atomic_example :
    Keeps "127.0.0.1:1" saved
    ⊎ Writes toml (record empty_config { bind_addr = some "0.0.0.0:2" }) saved
set_bind_addr_atomic_example =
    set_bind_addr_atomic "/data" "" toml no_chmod "127.0.0.1:1" "0.0.0.0:2" none

resolve-set_bind_addr_example :
    resolve "/data" "" toml working env none (record { config = some "0.0.0.0:2"; temp = none })
    ≡ done
        (record (effective "/data" "" toml working env none
          (record empty_config { bind_addr = some "127.0.0.1:1" })) { bind_addr = "0.0.0.0:2" })
unfolding set_bind_addr
resolve-set_bind_addr_example =
    resolve-set_bind_addr "/data" "" toml working env "127.0.0.1:1" "0.0.0.0:2" none
      (record { config = some "0.0.0.0:2"; temp = none }) reads_back refl refl refl refl

-- Every token is known, and none is read-only.
abbrev is_known : String → Option Bool
is_known token = some true

abbrev is_limited : String → Option Bool
is_limited token = some false

abbrev db : TokenDb
db = record { validate_session_token = is_known; is_session_token_read_only = is_limited }

abbrev listing : Request
listing = record {
  path = "/muxr.v1.Muxr/ListSessions";
  authorization = text "Bearer abc";
  session = none;
}

abbrev session : Session
session = record { read_only = false; token = "abc" }

abbrev passed : Request
passed = record listing { session = some session }

call-forward_iff_example : (call db listing ≡ forward passed) ↔ (
    ((contains_path public_paths listing.path ≡ true) × (passed ≡ listing))
    ⊎ ((contains_path public_paths listing.path ≡ false)
        × (s : Session) × HasToken db listing.authorization s
        × (passed ≡ record listing { session = some s })))
call-forward_iff_example = call-forward_iff db listing passed
