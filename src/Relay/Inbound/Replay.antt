-- ===== src/Relay/Inbound/Replay.antt =====
-- What the calls of the session's sender (muxrd/src/relay/inbound.rs) mean for the view of the client
-- that made them, said without the code's own updates, and the replay of a history of calls.
use zellimobile_server.Common.{
  Bool, true, false, List, [], ◌∷◌, ◌++◌, Option, none, some, ◌&&◌, if◌then◌else◌, ◌≡◌, refl, ap,
}
use zellimobile_server.Common.Map.{string_key}
use zellimobile_server.Mux.{PaneRef, FullscreenHint}
use zellimobile_server.Relay.Types.{RelayViewState}
use zellimobile_server.Relay.Inbound.{Call, go_to_tab, focus, space, fullscreen, toggled}

-- The focus after a toggle of a pane: none if it hides the pane, which it does to a floating one that
-- is in view and has the focus among the floating ones.
abbrev pub focus_after :
    PaneRef → (is_floating floating_visible is_focused_floating : Bool) → Option PaneRef
focus_after p true true true = none
focus_after p _ _ _ = some p

-- What a call, once the session took it, says of the tab, the pane and the space in view.
unfoldable pub view_of : Call → RelayViewState → RelayViewState
view_of (go_to_tab t) v = record {
  active_tab = some t;
  focused_pane = none;
  current_space = v.current_space;
}
view_of (focus p) v = record {
  active_tab = v.active_tab;
  focused_pane = some p;
  current_space = v.current_space;
}
view_of (space w) v = record { active_tab = none; focused_pane = none; current_space = some w }
view_of (fullscreen p h) v = record {
  active_tab = v.active_tab;
  focused_pane = focus_after p h.is_floating h.floating_visible h.is_focused_floating;
  current_space = v.current_space;
}
view_of _ v = v

focus-after :
    (p : PaneRef) (f v g : Bool) → (if f && v && g then none else some p) ≡ focus_after p f v g
focus-after p true true true = refl
focus-after p true true false = refl
focus-after p true false g = refl
focus-after p false v g = refl

-- The code's update of the view at a toggle is the one of the call.
pub toggled-view_of :
    (p : PaneRef) (h : FullscreenHint) (v : RelayViewState)
    → toggled p h v ≡ view_of (fullscreen p h) v
unfolding view_of
toggled-view_of p h v =
    ap
      (λ f. record { active_tab = v.active_tab; focused_pane = f; current_space = v.current_space })
      (focus-after p h.is_floating h.floating_visible h.is_focused_floating)

-- The view after a history of calls, from the first on.
unfoldable pub replay : List (Call × Bool) → RelayViewState → RelayViewState
unfolding view_of
replay [] v = v
replay ((call, taken) ∷ calls) v = replay calls (if taken then view_of call v else v)

pub replay-append :
    (l : List (Call × Bool)) (call : Call) (taken : Bool) (v : RelayViewState)
    → replay (l ++ (call, taken) ∷ []) v ≡ (if taken then view_of call (replay l v) else replay l v)
unfolding replay
replay-append [] call taken v = refl
replay-append ((x, took) ∷ l) call taken v =
    replay-append l call taken (if took then view_of x v else v)
