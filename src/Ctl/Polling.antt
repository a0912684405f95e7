-- ===== src/Ctl/Polling.antt =====
-- The status poll of `handle_tick` (muxrctl/src/app/update.rs): never two queries at once, and on
-- the screens that show the status one within twenty ticks.
use zellimobile_server.Common.{
  ℕ, zero, suc, ◌+◌, ◌%◌, ◌≤◌, ◌<◌, ◌≡◌, refl, ◌≢◌, ◌⊎◌, inl, inr, true, false, List, [], ◌∷◌, ◌++◌,
  arith, ap,
}
use zellimobile_server.Ctl.State.{AppState}
use zellimobile_server.Ctl.Message.{Message, UpdateAction}
use zellimobile_server.Ctl.Poll.{handle_tick, polls_status, bump, u32_mod}
use zellimobile_server.Ctl.Update.{update, run, actions_of}

abbrev pub is_poll : UpdateAction → ℕ
is_poll UpdateAction.refresh_status = 1
is_poll _ = 0

-- How many status queries a list of effects starts.
abbrev pub polls : List UpdateAction → ℕ
polls [] = 0
polls (a ∷ rest) = is_poll a + polls rest

abbrev pub ticks : ℕ → List Message
ticks zero = []
ticks (suc n) = Message.tick ∷ ticks n

-- One tick starts a query only while none is under way, and then the flag says so; otherwise it
-- asks for nothing and the flag stays.
pub tick_single_flight :
    (s : AppState)
    → (((update s Message.tick).1 ≡ [])
        × ((update s Message.tick).0.server.loading ≡ s.server.loading))
      ⊎ ((s.server.loading ≡ false)
          × ((update s Message.tick).1 ≡ UpdateAction.refresh_status ∷ [])
          × ((update s Message.tick).0.server.loading ≡ true))
unfolding update handle_tick
tick_single_flight s = ground arith

tick_loading : (s : AppState) → s.server.loading ≡ true → handle_tick s ≡ (s, [])
unfolding handle_tick
tick_loading s h = ground arith

polls-append : (xs ys : List UpdateAction) → polls (xs ++ ys) ≡ polls xs + polls ys
polls-append [] ys = omega arith
polls-append (x ∷ xs) ys = omega (arith, polls-append xs ys)

-- While a query is under way, ticks change nothing and start none.
pub ticks_loading :
    (n : ℕ) (s : AppState)
    → s.server.loading ≡ true
    → (run s (ticks n) ≡ s) × (actions_of s (ticks n) ≡ [])
unfolding run actions_of update
ticks_loading zero s h = (refl, refl)
ticks_loading (suc n) s h =
    let (same, quiet) = ticks_loading n s h in
    (rw (tick_loading s h, run) same, rw (tick_loading s h, actions_of) quiet)

-- A run of ticks alone, however long and from whatever state, starts at most one query: the next
-- one waits for the answer.
pub polls-ticks-le : (n : ℕ) (s : AppState) → polls (actions_of s (ticks n)) ≤ 1
unfolding actions_of
polls-ticks-le zero s = omega arith
polls-ticks-le (suc n) s =
    let (s', asked_now) = update s Message.tick in
    elim (tick_single_flight s) [
      | inl (quiet, _) ↦ omega (
        arith,
        polls-append asked_now (actions_of s' (ticks n)),
        ap polls quiet,
        polls-ticks-le n s',
      )
      | inr (_, asked, loading) ↦ omega (
        arith,
        polls-append asked_now (actions_of s' (ticks n)),
        ap polls asked,
        ap polls (ticks_loading n s' loading).1,
      )
    ]

-- A tick on a polled screen with no query under way starts one, or counts on.
tick_polled :
    (s : AppState)
    → s.server.loading ≡ false
    → polls_status s.screen ≡ true
    → (((update s Message.tick).1 ≡ UpdateAction.refresh_status ∷ [])
        × ((update s Message.tick).0.server.loading ≡ true))
      ⊎ (((update s Message.tick).1 ≡ [])
          × ((update s Message.tick).0.server.loading ≡ false)
          × ((update s Message.tick).0.screen ≡ s.screen)
          × ((update s Message.tick).0.server.tick_counter ≡ bump s.server.tick_counter)
          × (bump s.server.tick_counter % 20 ≢ 0))
unfolding update handle_tick
tick_polled s h p = ground arith

polls_within :
    (n : ℕ) (s : AppState)
    → s.server.loading ≡ false
    → polls_status s.screen ≡ true
    → s.server.tick_counter < u32_mod
    → 20 ≤ s.server.tick_counter % 20 + n
    → polls (actions_of s (ticks n)) ≡ 1
unfolding actions_of
polls_within zero s h p c d = absurd (omega arith)
polls_within (suc n) s h p c d =
    let (s', asked_now) = update s Message.tick in
    elim (tick_polled s h p) [
      | inl (asked, loading) ↦ omega (
        arith,
        polls-append asked_now (actions_of s' (ticks n)),
        ap polls asked,
        ap polls (ticks_loading n s' loading).1,
      )
      | inr (quiet, idle, same, counted, more) ↦ omega (
        arith,
        polls-append asked_now (actions_of s' (ticks n)),
        ap polls quiet,
        polls_within n s' idle (rw same p) (omega arith) (omega arith),
      )
    ]

-- On the Server screen and the Dashboard, with no query under way, twenty ticks start exactly one,
-- whatever the counter stands at, also where it wraps round.
pub polls-ticks_twenty :
    (s : AppState)
    → s.server.loading ≡ false
    → polls_status s.screen ≡ true
    → s.server.tick_counter < u32_mod
    → polls (actions_of s (ticks 20)) ≡ 1
polls-ticks_twenty s h p c = polls_within 20 s h p c (omega arith)
