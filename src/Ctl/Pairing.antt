-- ===== src/Ctl/Pairing.antt =====
-- muxrctl/src/tui/runner.rs (`build_token_qr_task` and what it calls) and
-- muxrctl/src/pairing/payload.rs: the task that answers a request for a QR code. What the task asks
-- of the server and of the machine is the parameter `Facade`, and base64 is a parameter too.
pub mod Answers
mod Tests
use Prim.Native.String.{[], ◌∷◌}
use zellimobile_server.Common.{
  ℕ, zero, suc, ◌+◌, ◌/◌, ◌%◌, Char, code, String, Bool, true, false, not, ◌&&◌, ◌||◌, List, [],
  ◌∷◌, Option, none, some, ltb, leb, ◌==◌, if◌then◌else◌,
}
use zellimobile_server.Rust.Text.{concat, is_empty, trim, rsplit_at, parse_u16, is_ascii_digit}
use zellimobile_server.Rust.Decimal.{digit, u16_text}
use zellimobile_server.Rust.Ip.{IpAddr, Ipv4Addr, parse_ip, is_loopback, is_unspecified, v4_text}
use zellimobile_server.Server.Transport.{CertMode, self_signed, external, h2c}
use zellimobile_server.Ctl.Trust.{AdvertiseTrust}
use zellimobile_server.Ctl.Message.{Message}

pub data PairingTrust : Type 0 where
  pin : (fingerprint : String) → PairingTrust
  ca : PairingTrust

pub record PairingParams : Type 0 where
  pub host : String
  pub port : ℕ
  pub trust : PairingTrust
  pub token : String
  pub read_only : Bool
  pub label : String

-- An upper-case hexadecimal digit.
abbrev hex_digit : ℕ → String
hex_digit n =
    if n == 10
    then "A"
    else if n == 11
    then "B"
    else if n == 12
    then "C"
    else if n == 13
    then "D"
    else if n == 14
    then "E"
    else if n == 15
    then "F"
    else digit n

-- `%{b:02X}`
abbrev percent_byte : ℕ → String
percent_byte b = concat "%" (concat (hex_digit (b / 16)) (hex_digit (b % 16)))

-- A code point's bytes in UTF-8, each percent-encoded.
abbrev percent_bytes : ℕ → String
percent_bytes n =
    if ltb n 0x80
    then percent_byte n
    else if ltb n 0x800
    then concat (percent_byte (0xc0 + n / 64)) (percent_byte (0x80 + n % 64))
    else if ltb n 0x10000
    then concat (percent_byte (0xe0 + n / 4096))
        (concat (percent_byte (0x80 + n / 64 % 64)) (percent_byte (0x80 + n % 64)))
    else concat (percent_byte (0xf0 + n / 262144)) (
        concat (percent_byte (0x80 + n / 4096 % 64))
          (concat (percent_byte (0x80 + n / 64 % 64)) (percent_byte (0x80 + n % 64))))

abbrev is_unreserved : Char → Bool
is_unreserved c =
    is_ascii_digit c
    || (leb b'A' (code c) && leb (code c) b'Z')
    || (leb b'a' (code c) && leb (code c) b'z')
    || code c == b'-'
    || code c == b'_'
    || code c == b'.'
    || code c == b'~'

-- `percent_encode`, character by character: no byte of a character outside ASCII is unreserved.
unfoldable pub percent_encode : String → String
percent_encode [] = []
percent_encode (c ∷ s) =
    let rest = percent_encode s in
    if is_unreserved c then c ∷ rest else concat (percent_bytes (code c)) rest

unfoldable pub trust_suffix : PairingTrust → String
trust_suffix (pin fingerprint) = concat "tm=pin&fp=" fingerprint
trust_suffix ca = "tm=ca"

-- `PairingParams::to_uri`
unfoldable pub to_uri : (String → String) → PairingParams → String
unfolding percent_encode trust_suffix
to_uri base64 p = concat "muxr://pair?v=2&h=" (
    concat p.host (
      concat "&p=" (
        concat (u16_text p.port) (
          concat "&t=" (
            concat (base64 p.token) (
              concat "&ro=" (
                concat (if p.read_only then "1" else "0") (
                  concat "&n="
                    (concat (percent_encode p.label) (concat "&" (trust_suffix p.trust)))))))))))

-- What a call of the server facade gives, or the text of its error.
pub data Loaded {ℓ} (A : Type ℓ) : Type ℓ where
  loaded : A → Loaded A
  unloaded : String → Loaded A

-- The effective bind address, the fingerprint of the certificate (`none` where there is no file),
-- the running server's mode and its clients, the advertised names and the machine's addresses.
pub record Facade : Type 0 where
  pub is_running : Bool
  pub bind_addr : Loaded String
  pub fingerprint : Loaded (Option String)
  pub cert_mode : Option CertMode
  pub client_count : Option ℕ
  pub env_extra_sans : List String
  pub reachable_ipv4 : List Ipv4Addr

-- `is_concrete_advertise_host`
unfoldable pub is_concrete_advertise_host : String → Bool
is_concrete_advertise_host host =
    if is_empty (trim host) then false else elim (parse_ip (trim host)) [
      | some ip ↦ not (is_loopback ip) && not (is_unspecified ip)
      | none ↦ true
    ]

-- `find(|s| is_concrete_advertise_host(s))`
unfoldable pub find_concrete : List String → Option String
unfolding is_concrete_advertise_host
find_concrete [] = none
find_concrete (s ∷ rest) =
    let other = find_concrete rest in if is_concrete_advertise_host s then some s else other

-- `choose_advertise_host`
unfoldable pub choose_advertise_host : String → List String → List Ipv4Addr → String
unfolding is_concrete_advertise_host find_concrete
choose_advertise_host bind_host advertise_sans reachable =
    if is_concrete_advertise_host bind_host
    then bind_host
    else elim (find_concrete advertise_sans) [
      | some adv ↦ trim adv
      | none ↦ elim reachable [ [] ↦ bind_host | ip ∷ _ ↦ v4_text ip ]
    ]

-- `resolve_auto_trust`; true asks for a pin.
unfoldable pub resolve_auto_trust : Option CertMode → Bool
resolve_auto_trust (some external) = false
resolve_auto_trust (some h2c) = false
resolve_auto_trust (some self_signed) = true
resolve_auto_trust none = true

-- A pin of the certificate that is there.
abbrev pub pin_of : Loaded (Option String) → Loaded PairingTrust
pin_of (loaded (some fp)) = loaded (PairingTrust.pin fp)
pin_of (loaded none) = unloaded "No certificate yet — open the Cert screen and generate one first."
pin_of (unloaded e) = unloaded (concat "cert fingerprint: " e)

-- The trust that the task picks.
unfoldable pub pick_trust : AdvertiseTrust → Facade → Loaded PairingTrust
unfolding resolve_auto_trust
pick_trust AdvertiseTrust.ca f = loaded PairingTrust.ca
pick_trust AdvertiseTrust.pin f = pin_of f.fingerprint
pick_trust AdvertiseTrust.auto f =
    if resolve_auto_trust f.cert_mode then pin_of f.fingerprint else loaded PairingTrust.ca

unfoldable pub split_bind : String → String × ℕ
split_bind addr = elim (rsplit_at b':' addr) [
  | none ↦ (addr, 50051)
  | some (host, port) ↦ (host, elim (parse_u16 port) [ none ↦ 50051 | some p ↦ p ])
]

-- The first characters of a text; a fingerprint is ASCII, so these are its first bytes.
abbrev pub take_chars : ℕ → String → String
take_chars zero s = []
take_chars (suc n) [] = []
take_chars (suc n) (c ∷ s) = c ∷ take_chars n s

abbrev pub chars : String → ℕ
chars [] = 0
chars (_ ∷ s) = suc (chars s)

unfoldable pub short_fingerprint : PairingTrust → String
short_fingerprint ca = "CA trust (no pin)"
short_fingerprint (pin fp) = if ltb 16 (chars fp) then concat (take_chars 16 fp) "…" else fp

module _ (base64 : String → String) where
  -- The answer once the address and the trust are known.
  unfoldable pub qr_ready : Facade → String → PairingTrust → String → Bool → ℕ → Message
  unfolding split_bind choose_advertise_host to_uri short_fingerprint
  qr_ready f addr trust token read_only seq =
      let (bind_host, port) = split_bind addr in
      let host = choose_advertise_host bind_host f.env_extra_sans f.reachable_ipv4 in
      Message.token_qr_ready
        (to_uri base64 (record {
          host = host;
          port = port;
          trust = trust;
          token = token;
          read_only = read_only;
          label = "muxrd";
        }))
        host port (short_fingerprint trust) (elim f.client_count [ none ↦ 0 | some n ↦ n ]) seq

  -- `build_token_qr_task`
  unfoldable pub build_token_qr_task : Facade → String → Bool → ℕ → AdvertiseTrust → Message
  unfolding qr_ready pick_trust
  build_token_qr_task f token read_only seq advertise_trust =
      if f.is_running
      then elim f.bind_addr [
        | unloaded e ↦ Message.token_qr_failed (concat "config: " e) seq
        | loaded addr ↦ elim (pick_trust advertise_trust f) [
          | unloaded e ↦ Message.token_qr_failed e seq
          | loaded trust ↦ qr_ready f addr trust token read_only seq
        ]
      ]
      else Message.token_qr_failed "Start the server first." seq
