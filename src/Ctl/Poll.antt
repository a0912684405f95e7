-- ===== src/Ctl/Poll.antt =====
-- muxrctl/src/app/update.rs: the tick, the status polls, and the overlay's connection check.
use zellimobile_server.Common.{
  ℕ, ◌+◌, ◌%◌, ◌^◌, Bool, true, false, not, ◌&&◌, [], ◌∷◌, ◌++◌, none, some, ltb, ◌==◌,
  if◌then◌else◌,
}
use zellimobile_server.Ctl.Screen.{Screen}
use zellimobile_server.Ctl.State.{AppState, QrOverlayPhase, showing, connected}
use zellimobile_server.Ctl.Message.{UpdateAction}
use zellimobile_server.Ctl.Config.{Step}
use zellimobile_server.Ctl.Panels.{set_server}

abbrev pub u32_mod : ℕ
u32_mod = 2 ^ 32

abbrev pub polls_status : Screen → Bool
polls_status Screen.server = true
polls_status Screen.dashboard = true
polls_status _ = false

-- `wrapping_add(1)` of a `u32` counter
abbrev pub bump : ℕ → ℕ
bump n = (n + 1) % u32_mod

-- A query is started, and the flag says so.
abbrev start_poll : Step → Step
start_poll (s, actions) = (
  set_server s (record (s.server) { loading = true }),
  actions ++ (UpdateAction.refresh_status ∷ []),
)

-- The first half of `handle_tick`: the poll of the screens that show the status.
unfoldable pub tick_screen : AppState → Step
tick_screen s =
    if polls_status s.screen && not s.server.loading
    then (let s' = set_server s (record (s.server) { tick_counter = bump s.server.tick_counter }) in
        if s'.server.tick_counter % 20 == 0 then start_poll (s', []) else (s', []))
    else (s, [])

abbrev pub is_showing : QrOverlayPhase → Bool
is_showing (showing _ _ _ _) = true
is_showing _ = false

-- The second half: the overlay's poll, which shares the flag.
unfoldable pub tick_overlay : Step → Step
tick_overlay (s, actions) = elim s.qr_overlay [
  | none ↦ (s, actions)
  | some o ↦
      if not s.server.loading && is_showing o.phase
      then (let o' = record o { tick_counter = bump o.tick_counter } in
          let s' = record s { qr_overlay = some o' } in
          if o'.tick_counter % 20 == 0 then start_poll (s', actions) else (s', actions))
      else (s, actions)
]

-- `handle_tick`
unfoldable pub handle_tick : AppState → Step
unfolding tick_screen tick_overlay
handle_tick s = tick_overlay (tick_screen s)

-- `check_overlay_connection`
unfoldable pub check_overlay_connection : AppState → ℕ → AppState
check_overlay_connection s clients = elim s.qr_overlay [
  | none ↦ s
  | some o ↦
      if is_showing o.phase && ltb o.baseline_clients clients
      then record s { qr_overlay = some (record o { phase = connected }) }
      else s
]
