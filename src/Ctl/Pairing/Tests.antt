-- ===== src/Ctl/Pairing/Tests.antt =====
-- Requests for a QR code at concrete states of the server (muxrctl/src/tui/runner.rs,
-- muxrctl/src/pairing/payload.rs).
use zellimobile_server.Common.{String, true, [], ◌∷◌, none, some, ◌≡◌, refl, ◌↔◌}
use zellimobile_server.Rust.Text.{trim}
use zellimobile_server.Rust.Decimal.{u16_text}
use zellimobile_server.Rust.Ip.{parse_ip, is_loopback, is_unspecified}
use zellimobile_server.Server.Transport.{self_signed}
use zellimobile_server.Ctl.Trust.{AdvertiseTrust}
use zellimobile_server.Ctl.State.{AppState, QrOverlay, generating, new}
use zellimobile_server.Ctl.Pairing.{
  PairingTrust, to_uri, loaded, Facade, choose_advertise_host, pick_trust, build_token_qr_task,
}
use zellimobile_server.Ctl.Pairing.Answers.{
  WantsCa, WantsPin, Told, pick_trust_iff, build_token_qr-answers,
}

-- A server in a container: it binds to every address, and is reached by a name.
abbrev server : Facade
server = record {
  is_running = true;
  bind_addr = loaded "0.0.0.0:50051";
  fingerprint = loaded (some "a1b2");
  cert_mode = some self_signed;
  client_count = none;
  env_extra_sans = "127.0.0.1" ∷ " box.lan " ∷ [];
  reachable_ipv4 = [];
}

pick_trust_iff_example :
    ((pick_trust AdvertiseTrust.auto server ≡ loaded PairingTrust.ca)
      ↔ WantsCa AdvertiseTrust.auto server.cert_mode)
    × ((pick_trust AdvertiseTrust.auto server ≡ loaded (PairingTrust.pin "a1b2")) ↔ (
        WantsPin AdvertiseTrust.auto server.cert_mode
        × (server.fingerprint ≡ loaded (some "a1b2"))))
pick_trust_iff_example = pick_trust_iff AdvertiseTrust.auto server "a1b2"

abbrev waiting : QrOverlay
waiting = record {
  phase = generating;
  seq = 3;
  baseline_clients = 0;
  token_name = "phone";
  read_only = true;
  tick_counter = 0;
}

abbrev asking : AppState
asking = record new { qr_overlay = some waiting; qr_seq = 3 }

-- A stand-in for base64.
abbrev same_text : String → String
same_text token = token

build_token_qr-answers_example :
    Told asking waiting (build_token_qr_task same_text server "s3cret" true 3 AdvertiseTrust.auto)
build_token_qr-answers_example =
    build_token_qr-answers same_text asking waiting server "s3cret" true AdvertiseTrust.auto refl

uri_test :
    to_uri same_text (record {
      host = "10.0.0.2";
      port = 443;
      trust = PairingTrust.ca;
      token = "t";
      read_only = true;
      label = "my box";
    })
    ≡ "muxr://pair?v=2&h=10.0.0.2&p=443&t=t&ro=1&n=my%20box&tm=ca"
unfolding to_uri u16_text
uri_test = refl

host_test : choose_advertise_host "0.0.0.0" server.env_extra_sans [] ≡ "box.lan"
unfolding choose_advertise_host trim parse_ip is_loopback is_unspecified
host_test = refl
