-- ===== src/Grpc/Layout/Own.antt =====
-- Whose view a client is shown, and which panes (muxrd/src/grpc/layout.rs).
use zellimobile_server.Common.{
  ◌⊎◌, ℕ, str_eq, String, Bool, true, false, List, [], ◌∷◌, Option, none, some, map, ◌≡◌, ap, ◌∙◌,
  subst, All, arith,
}
use zellimobile_server.Common.Map.{string_key}
use zellimobile_server.Mux.{PaneRef, PaneSnapshot, TabSnapshot, LayoutSnapshot, ok}
use zellimobile_server.Relay.Types.{RelayViewState, ControlEntry, ViewStateEntry}
use zellimobile_server.Grpc.Control.{Checked, pass, reject, exact_relay}
use zellimobile_server.Grpc.Layout.{
  LayoutWait, replied, LayoutOutside, own_or, session_relay, Source,
  should_apply_view_state_override, override_view, layout_of, layout_source, layout_relay,
  get_layout, tab_msg, pane_msgs,
}

-- The relay that is asked: the caller's own where it has one, else the first of the session.
abbrev pub Asks :
    List (String × ControlEntry) → String → String → Option (String × ControlEntry) → Type 0
Asks control session id none =
    (exact_relay control session id ≡ none) × (session_relay control session ≡ none)
Asks control session id (some (asked, e)) =
    ((asked ≡ id) × (exact_relay control session id ≡ some e))
    ⊎ ((exact_relay control session id ≡ none) × (session_relay control session ≡ some (asked, e)))

-- That relay is there, and answers, in both cases alike.
abbrev pub AnswersAlike :
    LayoutOutside → (ℕ → Bool) → (String → LayoutWait) → Option (String × ControlEntry) → Type 0
AnswersAlike o alive' waited' none = Unit {0}
AnswersAlike o alive' waited' (some (asked, e)) =
    (o.alive e.sender ≡ alive' e.sender) × (o.waited asked ≡ waited' asked)

no_override :
    (views : List (String × ViewStateEntry)) (id other : String) (s : LayoutSnapshot)
    → str_eq other id ≡ false
    → override_view views id (record { snapshot = s; via_relay = true; relay_conn_id = other })
      ≡ none
unfolding override_view should_apply_view_state_override
no_override views id other s apart = ground arith

sibling_source :
    (o : LayoutOutside) (other : String) (e : ControlEntry) (s : LayoutSnapshot)
    → o.alive e.sender ≡ true
    → o.waited other ≡ replied (ok s)
    → (layout_source o (some (other, e))).1
      ≡ pass (record { snapshot = s; via_relay = true; relay_conn_id = other })
unfolding layout_source
sibling_source o other e s alive reply = ground arith

-- A client that has no relay of its own is shown what the relay of another client of the session
-- answers, as it is: for a herdr relay, the space that this other client is in.
get_layout-sibling :
    (o : LayoutOutside) (session id other : String) (e : ControlEntry) (s : LayoutSnapshot)
    → exact_relay o.control session id ≡ none
    → session_relay o.control session ≡ some (other, e)
    → str_eq other id ≡ false
    → o.alive e.sender ≡ true
    → o.waited other ≡ replied (ok s)
    → (get_layout o session id).1 ≡ pass (map (tab_msg none) s.tabs)
unfolding get_layout layout_relay
get_layout-sibling o session id other e s nobody first apart alive reply =
    ap (λ r. layout_of o.view_state id (layout_source o r).1)
      (ap (λ r. own_or id r (session_relay o.control session)) nobody ∙ first)
    ∙ ap (layout_of o.view_state id) (sibling_source o other e s alive reply)
    ∙ ap (λ v. pass (map (tab_msg v) s.tabs)) (no_override o.view_state id other s apart)

-- A tab without plugin panes.
abbrev pub IsVisible : TabSnapshot → Type 0
IsVisible t = All (λ (p : PaneSnapshot). p.is_plugin ≡ false) t.panes

pane_msgs-visible :
    (in_active : Bool) (focus : Option PaneRef) (ps : List PaneSnapshot)
    → All (λ (p : PaneSnapshot). p.is_plugin ≡ false) (pane_msgs in_active focus ps)
unfolding pane_msgs
pane_msgs-visible in_active focus [] = tt
pane_msgs-visible in_active focus (p ∷ ps) = ground (arith, pane_msgs-visible in_active focus ps)

tab_msgs-IsVisible :
    (vs : Option RelayViewState) (ts : List TabSnapshot) → All IsVisible (map (tab_msg vs) ts)
unfolding tab_msg
tab_msgs-IsVisible vs [] = tt
tab_msgs-IsVisible vs (t ∷ ts) = (pane_msgs-visible _ _ t.panes, tab_msgs-IsVisible vs ts)

abbrev Shows : Checked (List TabSnapshot) → Type 0
Shows (reject e) = Unit {0}
Shows (pass tabs) = All IsVisible tabs

layout_of-Shows :
    (views : List (String × ViewStateEntry)) (id : String) (source : Checked Source)
    → Shows (layout_of views id source)
layout_of-Shows views id (reject e) = tt
layout_of-Shows views id (pass s) = tab_msgs-IsVisible (override_view views id s) s.snapshot.tabs

-- No client is shown a plugin's pane, by whichever way its layout was found.
pub get_layout-IsVisible :
    (o : LayoutOutside) (session id : String) (tabs : List TabSnapshot)
    → (get_layout o session id).1 ≡ pass tabs
    → All IsVisible tabs
unfolding get_layout
get_layout-IsVisible o session id tabs h =
    subst Shows h
      (layout_of-Shows o.view_state id (layout_source o (layout_relay o.control session id)).1)
