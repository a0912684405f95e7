-- ===== src/Relay/Inbound/ReadOnly.antt =====
-- What a read-only relay (muxrd/src/relay/inbound.rs) does to the session.
use zellimobile_server.Common.{
  ℕ, ◌+◌, ◌%◌, ◌^◌, ◌⊎◌, inl, inr, String, Bool, true, List, [], ◌∷◌, ◌≡◌, refl, ap, sym, subst,
  All, All-append, arith,
}
use zellimobile_server.Common.Map.{remove, string_key}
use zellimobile_server.Relay.Types.{query_layout, ViewStateEntry, ControlEntry}
use zellimobile_server.Relay.Inbound.{
  Call, fire_query, query_layout_result, send_client_exited, Outside, Event, tick, command,
  no_senders, frame, stream_error, stream_end, Context, Inbound, handle_query_layout, accepted,
}
use zellimobile_server.Relay.Inbound.Rules.{rounds-inv, inbound_loop-cases}
use zellimobile_server.Relay.Inbound.Loop.{
  handle_command, handle_frame, handle_event, rounds, drop_guard, teardown, inbound_loop,
}

-- A question, or the goodbye: the session's tabs, panes, text and size stay as they are.
abbrev pub IsPassive : Call × Bool → Type 0
IsPassive (fire_query, _) = Unit {0}
IsPassive (query_layout_result, _) = Unit {0}
IsPassive (send_client_exited, _) = Unit {0}
IsPassive _ = ⊥

-- Of all calls so far, with the view states of all relays and the registry.
pub record IsObserver (views : List (String × ViewStateEntry))
    (entries : List (String × ControlEntry)) (s : Inbound) : Type 0 where
  pub passive : All IsPassive s.calls
  pub views_kept : s.view_state ≡ views
  pub entries_kept : s.control ≡ entries

module _ (c : Context) (views : List (String × ViewStateEntry))
    (entries : List (String × ControlEntry)) (ro : c.read_only ≡ true) where
  query-IsObserver :
      (o : Outside) (reply seq : ℕ) (s : Inbound)
      → IsObserver views entries s
      → IsObserver views entries (handle_query_layout c o reply seq s)
  unfolding handle_query_layout
  query-IsObserver o reply seq s w = ground (
    arith,
    All-append IsPassive s.calls ((query_layout_result, accepted o) ∷ []) w.passive (tt, tt),
    All-append IsPassive s.calls ((fire_query, accepted o) ∷ []) w.passive (tt, tt),
  )

  handle_event-IsObserver :
      (e : Event) (o : Outside) (s : Inbound)
      → IsObserver views entries s
      → IsObserver views entries (handle_event c e o s)
  unfolding handle_event handle_command handle_frame
  handle_event-IsObserver (tick check) o s w = ground arith
  handle_event-IsObserver (command (query_layout reply)) o s w =
      query-IsObserver o reply s.next_query_seq
        (record s { next_query_seq = (s.next_query_seq + 1) % 2 ^ 64 })
        (record { passive = w.passive; views_kept = w.views_kept; entries_kept = w.entries_kept })
  handle_event-IsObserver (command cmd) o s w = ground arith
  handle_event-IsObserver no_senders o s w = w
  handle_event-IsObserver (frame kind) o s w = ground arith
  handle_event-IsObserver stream_error o s w = ground arith
  handle_event-IsObserver stream_end o s w = ground arith

-- A read-only relay only asks and says goodbye: in all its life, whatever its client and the services
-- send, it makes no call that types, resizes, or moves a tab, a pane, a space or a toggle, also not at
-- its end; and it changes no relay's view state, but for its own entry, which goes with it.
pub read_only-IsPassive :
    (c : Context) (last : Outside) (es : List (Event × Outside)) (s : Inbound)
    → c.read_only ≡ true
    → s.calls ≡ []
    → let s' = inbound_loop c last es s in
      All IsPassive s'.calls
      × ((s'.view_state ≡ s.view_state) ⊎ (s'.view_state ≡ remove c.connection_id s.view_state))
unfolding inbound_loop teardown drop_guard
read_only-IsPassive c last es s ro none_yet =
    let before : IsObserver s.view_state s.control s = record {
      passive = subst (All IsPassive) (sym none_yet) tt;
      views_kept = refl;
      entries_kept = refl;
    } in
    let w =
      rounds-inv (IsObserver s.view_state s.control) c
        (handle_event-IsObserver c s.view_state s.control ro) es s before in
    let P : Inbound → Type 0 = λ s'.
      All IsPassive s'.calls
      × ((s'.view_state ≡ s.view_state) ⊎ (s'.view_state ≡ remove c.connection_id s.view_state)) in
    elim (inbound_loop-cases c last es s) [
      | inl (on, same) ↦ subst P (sym same) (w.passive, inl w.views_kept)
      | inr (off, ended) ↦ subst P (sym ended) (
        ground (
          arith,
          All-append IsPassive (rounds c es s).calls ((send_client_exited, accepted last) ∷ [])
              w.passive (tt, tt),
        ),
        inr (ap (remove c.connection_id) w.views_kept),
      )
    ]
