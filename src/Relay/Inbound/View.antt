-- ===== src/Relay/Inbound/View.antt =====
-- The view states that the relays keep (muxrd/src/relay/inbound.rs) against the calls that the
-- sessions took.
use zellimobile_server.Common.{
  String, Bool, true, false, List, [], Option, none, some, if◌then◌else◌, ◌≡◌, refl, sym, ap, ◌∙◌,
  subst, ◌≢◌, inl, inr, eq_refl,
}
use zellimobile_server.Common.Map.{lookup, string_key, lookup-remove}
use zellimobile_server.Relay.Types.{RelayViewState, ViewStateEntry}
use zellimobile_server.Relay.Inbound.{Call, Outside, Event, Context, Inbound}
use zellimobile_server.Relay.Inbound.Rules.{rounds-inv, inbound_loop-cases}
use zellimobile_server.Relay.Inbound.Loop.{rounds, drop_guard, teardown, inbound_loop}
use zellimobile_server.Relay.Inbound.Replay.{replay}
use zellimobile_server.Relay.Inbound.Tracked.{differs-keys, IsTracked, event-IsTracked}

-- A relay's entry while it lives and after it, beside the others'.
abbrev pub Keeps :
    Context → String → RelayViewState → List (String × ViewStateEntry) → Inbound → Type 0
Keeps c session first views s =
    (lookup c.connection_id s.view_state ≡ (
      if s.running
      then some (record { session = session; state = replay s.calls first })
      else none))
    × ((k : String) → c.connection_id ≢ k → lookup k s.view_state ≡ lookup k views)

tracked-Keeps :
    (c : Context) (session : String) (first : RelayViewState)
    (views : List (String × ViewStateEntry)) (s : Inbound)
    → s.running ≡ true
    → IsTracked c session first views s
    → Keeps c session first views s
tracked-Keeps c session first views s on w =
    let entry : Option ViewStateEntry =
      some (record { session = session; state = replay s.calls first }) in
    (w.own ∙ sym (ap (λ b. if b then entry else none) on), w.apart)

ended-Keeps :
    (c : Context) (last : Outside) (session : String) (first : RelayViewState)
    (views : List (String × ViewStateEntry)) (s : Inbound)
    → s.running ≡ false
    → IsTracked c session first views s
    → Keeps c session first views (teardown c last s)
unfolding teardown drop_guard
ended-Keeps c last session first views s off w =
    let calls : List (Call × Bool) = (teardown c last s).calls in
    let entry : Option ViewStateEntry =
      some (record { session = session; state = replay calls first }) in
    (
      lookup-remove c.connection_id c.connection_id s.view_state
          ∙ ap (λ b. if b then none else lookup c.connection_id s.view_state)
              (eq_refl c.connection_id)
          ∙ sym (ap (λ b. if b then entry else none) off),
      λ k differs.
          lookup-remove c.connection_id k s.view_state
          ∙ ap (λ b. if b then none else lookup k s.view_state)
              (differs-keys c.connection_id k differs)
          ∙ w.apart k differs,
    )

-- While a relay lives, its entry among the view states has the tab, the pane and the space that the
-- calls give which its session took, replayed from the first on; at its end the entry is gone. No
-- other relay's entry changes.
pub inbound_loop-replay :
    (c : Context) (last : Outside) (es : List (Event × Outside)) (s : Inbound) (session : String)
    (first : RelayViewState)
    → s.calls ≡ []
    → lookup c.connection_id s.view_state ≡ some (record { session = session; state = first })
    → Keeps c session first s.view_state (inbound_loop c last es s)
unfolding replay
inbound_loop-replay c last es s session first none_yet own =
    let before : IsTracked c session first s.view_state s = record {
      own =
          own
          ∙ ap (λ l. some (record { session = session; state = replay l first })) (sym none_yet);
      apart = λ k differs. refl;
    } in
    let s' : Inbound = rounds c es s in
    let w =
      rounds-inv (IsTracked c session first s.view_state) c
        (event-IsTracked c session first s.view_state) es s before in
    elim (inbound_loop-cases c last es s) [
      | inl (on, same) ↦
          subst (Keeps c session first s.view_state) (sym same)
            (tracked-Keeps c session first s.view_state s' on w)
      | inr (off, ended) ↦
          subst (Keeps c session first s.view_state) (sym ended)
            (ended-Keeps c last session first s.view_state s' off w)
    ]
