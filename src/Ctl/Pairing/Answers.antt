-- ===== src/Ctl/Pairing/Answers.antt =====
-- What the answers to a request for a QR code hold (muxrctl/src/tui/runner.rs): which trust they
-- carry, which host they name, and that the overlay that asked stops waiting.
use zellimobile_server.Common.{
  ℕ, String, Bool, true, false, ◌≡◌, refl, sym, ◌∙◌, ◌≢◌, ◌↔◌, ◌⊎◌, inl, inr, Option, none, some,
  List, [], ◌∷◌, arith, Bool-cases, Any, ==_iff,
}
use zellimobile_server.Rust.Text.{trim}
use zellimobile_server.Rust.Text.Laws.{trim_idem}
use zellimobile_server.Rust.Ip.{Ipv4Addr}
use zellimobile_server.Server.Transport.{CertMode, self_signed, external, h2c}
use zellimobile_server.Ctl.Trust.{AdvertiseTrust}
use zellimobile_server.Ctl.State.{AppState, QrOverlay, generating, showing, failed}
use zellimobile_server.Ctl.Message.{Message}
use zellimobile_server.Ctl.Update.{update, on_overlay}
use zellimobile_server.Ctl.Pairing.{
  PairingTrust, Loaded, loaded, unloaded, Facade, is_concrete_advertise_host, find_concrete,
  choose_advertise_host, resolve_auto_trust, pin_of, pick_trust, qr_ready, build_token_qr_task,
}

-- The client is to trust the certificate authorities: the operator says so, or leaves it to the
-- server, which serves a certificate from outside or plaintext behind a proxy.
abbrev pub WantsCa : AdvertiseTrust → Option CertMode → Type 0
WantsCa trust mode =
    (trust ≡ AdvertiseTrust.ca)
    ⊎ ((trust ≡ AdvertiseTrust.auto) × ((mode ≡ some external) ⊎ (mode ≡ some h2c)))

-- The client is to pin: the operator says so, or leaves it to the server, which serves its own
-- certificate or does not say.
abbrev pub WantsPin : AdvertiseTrust → Option CertMode → Type 0
WantsPin trust mode =
    (trust ≡ AdvertiseTrust.pin)
    ⊎ ((trust ≡ AdvertiseTrust.auto) × ((mode ≡ some self_signed) ⊎ (mode ≡ none)))

loaded_cases {ℓ} :
    {A : Type ℓ} (l : Loaded A) → ((e : String) × (l ≡ unloaded e)) ⊎ ((a : A) × (l ≡ loaded a))
loaded_cases (unloaded e) = inl (e, refl)
loaded_cases (loaded a) = inr (a, refl)

pin_of_iff :
    (f : Loaded (Option String)) (fp : String)
    → (pin_of f ≡ loaded (PairingTrust.pin fp)) ↔ (f ≡ loaded (some fp))
pin_of_iff (loaded (some x)) fp = (λ h. ground arith, λ h. ground arith)
pin_of_iff (loaded none) fp = (λ h. absurd (ground arith), λ h. absurd (ground arith))
pin_of_iff (unloaded e) fp = (λ h. absurd (ground arith), λ h. absurd (ground arith))

pin_of-ca : (f : Loaded (Option String)) → pin_of f ≢ loaded PairingTrust.ca
pin_of-ca (loaded (some x)) h = cc
pin_of-ca (loaded none) h = cc
pin_of-ca (unloaded e) h = cc

auto_pin_iff :
    (mode : Option CertMode) → (resolve_auto_trust mode ≡ true) ↔ WantsPin AdvertiseTrust.auto mode
unfolding resolve_auto_trust
auto_pin_iff none = (λ h. inr (refl, inr refl), λ h. refl)
auto_pin_iff (some self_signed) = (λ h. inr (refl, inl refl), λ h. refl)
auto_pin_iff (some external) = (λ h. absurd cc, λ h. absurd (ground arith))
auto_pin_iff (some h2c) = (λ h. absurd cc, λ h. absurd (ground arith))

auto_ca_iff :
    (mode : Option CertMode) → (resolve_auto_trust mode ≡ false) ↔ WantsCa AdvertiseTrust.auto mode
unfolding resolve_auto_trust
auto_ca_iff none = (λ h. absurd cc, λ h. absurd (ground arith))
auto_ca_iff (some self_signed) = (λ h. absurd cc, λ h. absurd (ground arith))
auto_ca_iff (some external) = (λ h. inr (refl, inl refl), λ h. refl)
auto_ca_iff (some h2c) = (λ h. inr (refl, inr refl), λ h. refl)

-- A QR code asks for the certificate authorities exactly where they are wanted, and for a pin exactly
-- where one is wanted and the certificate's fingerprint could be read, which is then the one in it. A
-- host's name plays no part, and a certificate that cannot be read never turns a pin into trust in
-- the authorities.
pub pick_trust_iff :
    (trust : AdvertiseTrust) (f : Facade) (fp : String)
    → ((pick_trust trust f ≡ loaded PairingTrust.ca) ↔ WantsCa trust f.cert_mode)
      × ((pick_trust trust f ≡ loaded (PairingTrust.pin fp))
          ↔ (WantsPin trust f.cert_mode × (f.fingerprint ≡ loaded (some fp))))
unfolding pick_trust resolve_auto_trust
pick_trust_iff AdvertiseTrust.ca f fp =
    ((λ h. inl refl, λ h. refl), (λ h. absurd (ground arith), λ h. absurd (ground arith)))
pick_trust_iff AdvertiseTrust.pin f fp = (
  (λ h. absurd (pin_of-ca f.fingerprint h), λ h. absurd (ground arith)),
  (λ h. (inl refl, (pin_of_iff f.fingerprint fp).0 h), λ (_, h). (pin_of_iff f.fingerprint fp).1 h),
)
pick_trust_iff AdvertiseTrust.auto f fp = elim (Bool-cases (resolve_auto_trust f.cert_mode)) [
  | inl pins ↦
      rw (pins, pick_trust)
        (
          (
            λ h. absurd (pin_of-ca f.fingerprint h),
            λ h. absurd (cc (sym pins ∙ (auto_ca_iff f.cert_mode).1 h)),
          ),
          (
            λ h. ((auto_pin_iff f.cert_mode).0 pins, (pin_of_iff f.fingerprint fp).0 h),
            λ (_, h). (pin_of_iff f.fingerprint fp).1 h,
          ),
        )
  | inr trusts ↦
      rw (trusts, pick_trust)
        (
          (λ h. (auto_ca_iff f.cert_mode).0 trusts, λ h. refl),
          (λ h. absurd cc, λ (h, _). absurd (cc (sym trusts ∙ (auto_pin_iff f.cert_mode).1 h))),
        )
]

is_concrete-trim : (s : String) → is_concrete_advertise_host (trim s) ≡ is_concrete_advertise_host s
unfolding is_concrete_advertise_host
is_concrete-trim s = rw (trim_idem s)

find_concrete-found :
    (sans : List String)
    → Any (λ s. is_concrete_advertise_host s ≡ true) sans
    → (s : String) × (find_concrete sans ≡ some s) × (is_concrete_advertise_host s ≡ true)
unfolding find_concrete
find_concrete-found [] h = absurd h
find_concrete-found (s ∷ rest) h = elim (Bool-cases (is_concrete_advertise_host s)) [
  | inl here ↦ (s, rw (here, find_concrete), here)
  | inr other ↦ elim h [
    | inl here ↦ absurd (ground arith)
    | inr later ↦
        let (t, found, good) = find_concrete-found rest later in
        (t, rw (other, find_concrete) found, good)
  ]
]

-- The host in the QR code is one that a phone can dial, neither loopback nor unspecified, whenever
-- the bind address or one of the advertised names is.
pub choose_host-concrete :
    (bind_host : String) (sans : List String) (reachable : List Ipv4Addr)
    → (is_concrete_advertise_host bind_host ≡ true)
      ⊎ Any (λ s. is_concrete_advertise_host s ≡ true) sans
    → is_concrete_advertise_host (choose_advertise_host bind_host sans reachable) ≡ true
unfolding choose_advertise_host
choose_host-concrete bind_host sans reachable h =
    elim (Bool-cases (is_concrete_advertise_host bind_host)) [
      | inl good ↦ rw (good, choose_advertise_host) good
      | inr bad ↦ elim h [
        | inl good ↦ absurd (ground arith)
        | inr some_name ↦
            let (s, found, good) = find_concrete-found sans some_name in
            rw (bad, choose_advertise_host, found) (is_concrete-trim s ∙ good)
      ]
    ]

-- The message makes the overlay stop waiting, under its number.
abbrev pub Told : AppState → QrOverlay → Message → Type 0
Told s o m =
    (o' : QrOverlay) × ((update s m).0.qr_overlay ≡ some o')
    × (o'.phase ≢ generating)
    × (o'.seq ≡ o.seq)

on_overlay_own :
    (s : AppState) (o : QrOverlay) (f : QrOverlay → QrOverlay)
    → s.qr_overlay ≡ some o
    → (on_overlay s o.seq f).qr_overlay ≡ some (f o)
unfolding on_overlay
on_overlay_own s o f up = rw (up, on_overlay) (rw ((==_iff o.seq o.seq).1 refl))

Told-failed :
    (s : AppState) (o : QrOverlay) (e : String)
    → s.qr_overlay ≡ some o
    → Told s o (Message.token_qr_failed e o.seq)
unfolding update
Told-failed s o e up = (
  record o { phase = failed e },
  on_overlay_own s o (λ x. record x { phase = failed e }) up,
  λ h. cc,
  refl,
)

Told-ready :
    (s : AppState) (o : QrOverlay) (uri host : String) (port : ℕ) (fp : String) (clients : ℕ)
    → s.qr_overlay ≡ some o
    → Told s o (Message.token_qr_ready uri host port fp clients o.seq)
unfolding update
Told-ready s o uri host port fp clients up = (
  record o { baseline_clients = clients; phase = showing uri host port fp },
  on_overlay_own s o
      (λ x. record x { baseline_clients = clients; phase = showing uri host port fp }) up,
  λ h. cc,
  refl,
)

module _ (base64 : String → String) where
  -- Whatever the server and the machine say, the task's answer reaches the overlay that asked for
  -- it, which then no longer waits, and keeps its number.
  pub build_token_qr-answers :
      (s : AppState) (o : QrOverlay) (f : Facade) (token : String) (read_only : Bool)
      (trust : AdvertiseTrust)
      → s.qr_overlay ≡ some o
      → Told s o (build_token_qr_task base64 f token read_only o.seq trust)
  unfolding build_token_qr_task qr_ready
  build_token_qr-answers s o f token read_only trust up = elim (Bool-cases f.is_running) [
    | inr stopped ↦ rw (stopped, build_token_qr_task) (Told-failed s o _ up)
    | inl running ↦ elim (loaded_cases f.bind_addr) [
      | inl (e, broken) ↦ rw (running, build_token_qr_task, broken) (Told-failed s o _ up)
      | inr (addr, known) ↦ elim (loaded_cases (pick_trust trust f)) [
        | inl (e, refused) ↦
            rw (running, build_token_qr_task, known, refused) (Told-failed s o _ up)
        | inr (picked, found) ↦
            rw (running, build_token_qr_task, known, found) (Told-ready s o _ _ _ _ _ up)
      ]
    ]
  ]
