-- ===== src/Ctl/Overlay.antt =====
-- The steps of the QR overlay at the results of the background tasks, at ticks and at the other
-- messages (`update` of muxrctl/src/app/update.rs).
use zellimobile_server.Common.{
  ◌+◌, ◌%◌, ◌^◌, ℕ, ◌≡◌, refl, ◌⊎◌, inl, inr, true, false, Option, none, some, arith, String,
  Bool-cases, ◌==◌, ltb, ◌&&◌,
}
use zellimobile_server.Ctl.State.{AppState, ServerInfo, QrOverlay, QrOverlayPhase, showing}
use zellimobile_server.Ctl.Message.{Message}
use zellimobile_server.Ctl.Poll.{handle_tick, is_showing}
use zellimobile_server.Ctl.Update.{update}
use zellimobile_server.Ctl.OverlaySteps.{
  ShowsCode, ScreenPolls, Ignored, OverlayStep, ticked, ready, broken, joined, idle_at,
}
use zellimobile_server.Ctl.OverlayKeys.{transition-same, key_step}

showing-ShowsCode : (p : QrOverlayPhase) → is_showing p ≡ true → ShowsCode p
showing-ShowsCode (showing uri host port fp) h = tt
showing-ShowsCode _ h = cc

hidden-ShowsCode : (p : QrOverlayPhase) → is_showing p ≡ false → ¬ ShowsCode p
hidden-ShowsCode (showing uri host port fp) h shows = cc
hidden-ShowsCode _ h shows = shows

tick_moves :
    (s : AppState) (o : QrOverlay)
    → s.qr_overlay ≡ some o
    → (((handle_tick s).0.qr_overlay ≡ s.qr_overlay) × Ignored s Message.tick (some o))
      ⊎ (ShowsCode o.phase
          × (s.server.loading ≡ false)
          × (¬ ScreenPolls s)
          × ((handle_tick s).0.qr_overlay
              ≡ some (record o { tick_counter = (o.tick_counter + 1) % 2 ^ 32 })))
unfolding handle_tick
tick_moves s o e = ground (arith, showing-ShowsCode o.phase, hidden-ShowsCode o.phase)

tick_step :
    (s : AppState) (a : Option QrOverlay)
    → s.qr_overlay ≡ a
    → OverlayStep s Message.tick (handle_tick s).0.qr_overlay
unfolding handle_tick
tick_step s none e = idle_at none e tt (ground arith)
tick_step s (some o) e = elim (tick_moves s o e) [
  | inl (same, ignored) ↦ idle_at (some o) e ignored same
  | inr (shown, free, quiet, counted) ↦ ticked o refl e shown free quiet counted
]

status_step :
    (s : AppState) (info : ServerInfo) (a : Option QrOverlay)
    → s.qr_overlay ≡ a
    → let m = Message.status_loaded (some info) in OverlayStep s m (update s m).0.qr_overlay
unfolding update
status_step s info none e = idle_at none e tt (ground arith)
status_step s info (some o) e =
    elim (Bool-cases (is_showing o.phase && ltb o.baseline_clients info.client_count)) [
      | inl more ↦
          joined o info refl e (showing-ShowsCode o.phase (ground arith)) (ground arith)
            (ground arith)
      | inr same ↦ idle_at (some o) e (ground (arith, hidden-ShowsCode o.phase)) (ground arith)
    ]

ready_step :
    (s : AppState) (uri host : String) (port : ℕ) (fp : String) (clients seq : ℕ)
    (a : Option QrOverlay)
    → s.qr_overlay ≡ a
    → let m = Message.token_qr_ready uri host port fp clients seq in
      OverlayStep s m (update s m).0.qr_overlay
unfolding update
ready_step s uri host port fp clients seq none e = idle_at none e tt (ground arith)
ready_step s uri host port fp clients seq (some o) e = elim (Bool-cases (o.seq == seq)) [
  | inl same ↦ ready o uri host port fp clients (ground arith) e (ground arith)
  | inr other ↦ idle_at (some o) e (λ same. ground arith) (ground arith)
]

failed_step :
    (s : AppState) (err : String) (seq : ℕ) (a : Option QrOverlay)
    → s.qr_overlay ≡ a
    → let m = Message.token_qr_failed err seq in OverlayStep s m (update s m).0.qr_overlay
unfolding update
failed_step s err seq none e = idle_at none e tt (ground arith)
failed_step s err seq (some o) e = elim (Bool-cases (o.seq == seq)) [
  | inl same ↦ broken o err (ground arith) e (ground arith)
  | inr other ↦ idle_at (some o) e (λ same. ground arith) (ground arith)
]

-- Where a message concerns no overlay.
apart_step :
    (s : AppState) (m : Message) (b : Option QrOverlay)
    → Ignored s m none
    → ((o : QrOverlay) → Ignored s m (some o))
    → (a : Option QrOverlay) → s.qr_overlay ≡ a
    → b ≡ s.qr_overlay
    → OverlayStep s m b
apart_step s m b free apart none e same = idle_at none e free same
apart_step s m b free apart (some o) e same = idle_at (some o) e (apart o) same

-- Whatever the message, the overlay makes one of these steps. Enter in the token list, while a new
-- token's secret is held, opens it where there is none, under the next number, and it waits for its
-- code. Esc and `q` close it, and nothing else does. A code or an error is taken exactly under the
-- overlay's own number. It counts as connected exactly on a status that reports more clients than
-- the baseline, while a code is shown. A tick counts exactly while a code is shown and no query of
-- the status is under way or begun by that tick. Every other message leaves it as it is.
pub update-OverlayStep : (s : AppState) (m : Message) → OverlayStep s m (update s m).0.qr_overlay
unfolding update
update-OverlayStep s (Message.key k) = key_step s k s.qr_overlay refl
update-OverlayStep s Message.tick = tick_step s s.qr_overlay refl
update-OverlayStep s (Message.nav_to to) =
    apart_step s _ _ tt (λ o. tt) s.qr_overlay refl (transition-same s to)
update-OverlayStep s (Message.status_loaded (some info)) = status_step s info s.qr_overlay refl
update-OverlayStep s (Message.token_qr_ready uri host port fp clients seq) =
    ready_step s uri host port fp clients seq s.qr_overlay refl
update-OverlayStep s (Message.token_qr_failed err seq) = failed_step s err seq s.qr_overlay refl
update-OverlayStep s _ = apart_step s _ _ tt (λ o. tt) s.qr_overlay refl (ground arith)
