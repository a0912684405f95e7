-- ===== src/Relay/Inbound/Replies.antt =====
-- The requests that wait for a reply (muxrd/src/relay/inbound.rs): each is replied to at once, or
-- handed to the reader thread, which answers it later.
use zellimobile_server.Common.{
  ℕ, ◌+◌, Bool, true, false, List, [], ◌∷◌, ◌++◌, Option, none, some, ◌==◌, if◌then◌else◌, ◌≡◌,
  refl, sym, ap, ◌∙◌, subst, inl, inr, All, All-append, Bool-cases, arith,
}
use zellimobile_server.Mux.{failed, PaneRef, FullscreenHint}
use zellimobile_server.Relay.Types.{
  RelayControl, switch_tab, focus_pane, switch_space, toggle_fullscreen, query_layout,
  InFlightQuery, RelayViewState,
}
use zellimobile_server.Relay.Inbound.{
  Call, Outside, input, resize, attach, Event, tick, command, no_senders, frame, stream_error,
  stream_end, Reply, ack, layout, Context, Inbound, revalidate_token, perform, resolve_hint, toggle,
  handle_query_layout,
}
use zellimobile_server.Relay.Inbound.{
  push_call, push_reply, go_to_tab, focus, space, query_layout_result, fire_query, in_tab, on_pane,
  in_space, outcome,
}
use zellimobile_server.Relay.Inbound.Rules.{inbound_loop-cases}
use zellimobile_server.Relay.Inbound.Loop.{
  handle_command, handle_frame, handle_event, forward_input, rounds, drop_guard, teardown,
  inbound_loop,
}
use zellimobile_server.Relay.Reader.History.{IsFresh}

-- How often a request waits on this reply's channel, is replied to on it, and is handed over with it.
abbrev pub is_one : ℕ → ℕ → ℕ
is_one k n = if k == n then 1 else 0

unfoldable pub asks : ℕ → Event → ℕ
asks k (command (switch_space w reply)) = is_one k reply
asks k (command (query_layout reply)) = is_one k reply
asks k _ = 0

unfoldable pub replied : ℕ → List Reply → ℕ
replied k [] = 0
replied k (ack n _ ∷ l) = is_one k n + replied k l
replied k (layout n _ ∷ l) = is_one k n + replied k l

unfoldable pub handed_over : ℕ → List InFlightQuery → ℕ
handed_over k [] = 0
handed_over k (q ∷ l) = is_one k q.reply + handed_over k l

-- Whether the loop goes on after an event.
unfoldable pub goes_on : Context → Event → Bool
goes_on c (tick check) = revalidate_token c.token check
goes_on c stream_error = false
goes_on c stream_end = false
goes_on c _ = true

-- The events up to the one that ends the loop.
unfoldable pub seen : Context → List (Event × Outside) → List Event
unfolding goes_on
seen c [] = []
seen c ((e, _) ∷ es) = let rest = seen c es in e ∷ (if goes_on c e then rest else [])

unfoldable pub asked : ℕ → List Event → ℕ
unfolding asks
asked k [] = 0
asked k (e ∷ es) = asks k e + asked k es

replied-append : (k : ℕ) (l m : List Reply) → replied k (l ++ m) ≡ replied k l + replied k m
unfolding replied
replied-append k [] m = omega arith
replied-append k (ack n _ ∷ l) m = omega (arith, replied-append k l m)
replied-append k (layout n _ ∷ l) m = omega (arith, replied-append k l m)

handed_over-append :
    (k : ℕ) (l m : List InFlightQuery) → handed_over k (l ++ m) ≡ handed_over k l + handed_over k m
unfolding handed_over
handed_over-append k [] m = omega arith
handed_over-append k (q ∷ l) m = omega (arith, handed_over-append k l m)

module _ (c : Context) (k : ℕ) where
  abbrev total : Inbound → ℕ
  total s = replied k s.replies + handed_over k s.handed

  -- What a round adds, that the handed queries carry no text, and whether the loop goes on.
  abbrev Adds : ℕ → Bool → Inbound → Inbound → Type 0
  Adds n on s s' = (total s' ≡ total s + n) × All IsFresh s'.handed × (s'.running ≡ on)

  perform-Adds :
      (o : Outside) (call : Call) (f : RelayViewState → RelayViewState) (s : Inbound)
      → All IsFresh s.handed
      → Adds 0 s.running s (perform c o call f s)
  unfolding perform
  perform-Adds o call f s w = ground arith

  toggle-Adds :
      (o : Outside) (p : PaneRef) (hint : Option FullscreenHint) (s : Inbound)
      → All IsFresh s.handed
      → Adds 0 s.running s (toggle c o p hint s)
  toggle-Adds o p none s w = ground arith
  toggle-Adds o p (some h) s w = perform-Adds o _ _ s w

  reply-Adds :
      (r : Reply) (n : ℕ) (s s' : Inbound)
      → replied k (r ∷ []) ≡ n
      → All IsFresh s.handed
      → s'.replies ≡ s.replies ++ r ∷ []
      → s'.handed ≡ s.handed
      → s'.running ≡ s.running
      → Adds n s.running s s'
  reply-Adds r n s s' e w replies handed running = (
    omega (
      arith,
      ap (replied k) replies,
      ap (handed_over k) handed,
      replied-append k s.replies (r ∷ []),
    ),
    subst (All IsFresh) (sym handed) w,
    running,
  )

  hand-Adds :
      (q : InFlightQuery) (s s' : Inbound)
      → IsFresh q
      → All IsFresh s.handed
      → s'.replies ≡ s.replies
      → s'.handed ≡ s.handed ++ q ∷ []
      → s'.running ≡ s.running
      → Adds (is_one k q.reply) s.running s s'
  unfolding handed_over
  hand-Adds q s s' fresh w replies handed running = (
    omega (
      arith,
      ap (replied k) replies,
      ap (handed_over k) handed,
      handed_over-append k s.handed (q ∷ []),
    ),
    subst (All IsFresh) (sym handed) (All-append IsFresh s.handed (q ∷ []) w (fresh, tt)),
    running,
  )

  query-Adds :
      (o : Outside) (reply seq : ℕ) (s : Inbound)
      → All IsFresh s.handed
      → Adds (is_one k reply) s.running s (handle_query_layout c o reply seq s)
  unfolding handle_query_layout replied
  query-Adds o reply seq s w = elim (Bool-cases c.has_sync_layout) [
    | inl sync ↦
        rw (sync, handle_query_layout)
          (reply-Adds (layout reply _) (is_one k reply) s
            (push_reply (layout reply _) (push_call o query_layout_result s)) (omega arith) w refl
            refl refl)
    | inr by_wire ↦ elim (Bool-cases o.reader_alive) [
      | inl alive ↦
          rw (by_wire, handle_query_layout, alive)
            (hand-Adds (record { seq = seq; reply = reply; tabs = none }) s
              (push_call o fire_query (record s {
                handed = s.handed ++ record { seq = seq; reply = reply; tabs = none } ∷ [];
              }))
              refl w refl refl refl)
      | inr gone ↦
          rw (by_wire, handle_query_layout, gone)
            (reply-Adds (layout reply _) (is_one k reply) s (push_reply (layout reply _) s)
              (omega arith) w refl refl refl)
    ]
  ]

  command-Adds :
      (cmd : RelayControl) (o : Outside) (s : Inbound)
      → All IsFresh s.handed
      → Adds (asks k (command cmd)) s.running s (handle_command c o cmd s)
  unfolding handle_command asks replied
  command-Adds (switch_tab t) o s w = ground (arith, perform-Adds o (go_to_tab t) (in_tab t) s w)
  command-Adds (focus_pane p) o s w = ground (arith, perform-Adds o (focus p) (on_pane p) s w)
  command-Adds (switch_space x reply) o s w =
      let (count, fresh, on) = perform-Adds o (space x) (in_space x) s w in
      let s1 : Inbound = perform c o (space x) (in_space x) s in
      let refused =
        reply-Adds (ack reply (failed "read-only token: SwitchSpace is not allowed"))
          (is_one k reply) s
          (push_reply (ack reply (failed "read-only token: SwitchSpace is not allowed")) s)
          (omega arith) w refl refl refl in
      let (count', fresh', on') =
        reply-Adds (ack reply (outcome o)) (is_one k reply) s1
          (push_reply (ack reply (outcome o)) s1) (omega arith) fresh refl refl refl in
      elim (Bool-cases c.read_only) [
        | inl ro ↦ rw ro refused
        | inr may ↦ rw may (omega (arith, count, count'), fresh', on' ∙ on)
      ]
  command-Adds (toggle_fullscreen p hint) o s w =
      ground (arith, toggle-Adds o p (resolve_hint hint p o.float_answer) s w)
  command-Adds (query_layout reply) o s w = query-Adds o reply s.next_query_seq _ w

  event-Adds :
      (e : Event) (o : Outside) (s : Inbound)
      → All IsFresh s.handed
      → s.running ≡ true
      → Adds (asks k e) (goes_on c e) s (handle_event c e o s)
  unfolding handle_event goes_on asks handle_frame forward_input
  event-Adds (tick check) o s w on = ground arith
  event-Adds (command cmd) o s w on = ground (arith, command-Adds cmd o s w)
  event-Adds no_senders o s w on = ground arith
  event-Adds (frame none) o s w on = ground arith
  event-Adds (frame (some (attach _ _ _))) o s w on = ground arith
  event-Adds (frame (some (input bytes))) o s w on = ground arith
  event-Adds (frame (some (resize rows cols))) o s w on = ground arith
  event-Adds stream_error o s w on = ground arith
  event-Adds stream_end o s w on = ground arith

  stopped : (es : List (Event × Outside)) (s : Inbound) → s.running ≡ false → rounds c es s ≡ s
  unfolding rounds
  stopped [] s h = refl
  stopped ((e, o) ∷ es) s h =
      let rest : Inbound = rounds c es (handle_event c e o s) in ap (λ b. if b then rest else s) h

  rounds-Adds :
      (es : List (Event × Outside)) (s : Inbound)
      → All IsFresh s.handed
      → s.running ≡ true
      → (total (rounds c es s) ≡ total s + asked k (seen c es)) × All IsFresh (rounds c es s).handed
  unfolding rounds seen asked
  rounds-Adds [] s w on = (omega arith, w)
  rounds-Adds ((e, o) ∷ es) s w on =
      let s' : Inbound = handle_event c e o s in
      let rest : Inbound = rounds c es s' in
      let (count, fresh, goes) = event-Adds e o s w on in
      let P : Inbound → Type 0 = λ t.
        (total t ≡ total s + asked k (e ∷ (if goes_on c e then seen c es else [])))
        × All IsFresh t.handed in
      subst P (sym (ap (λ b. if b then rest else s) on)) (elim (Bool-cases (goes_on c e)) [
        | inl still ↦
            let (more, fresh') = rounds-Adds es s' fresh (goes ∙ still) in
            rw still (omega (arith, count, more), fresh')
        | inr ends ↦
            subst P (sym (stopped es s' (goes ∙ ends))) (rw ends (omega (arith, count), fresh))
      ])

-- Every request that waits for a reply gets exactly one, whatever the branch: it is replied to at
-- once, or handed to the reader thread with no text yet. So as often as a reply's channel came in the
-- events up to the one that ends the loop, so often is it replied to or handed over.
pub inbound_loop-replied :
    (c : Context) (last : Outside) (es : List (Event × Outside)) (s : Inbound) (k : ℕ)
    → s.running ≡ true
    → s.replies ≡ []
    → s.handed ≡ []
    → let s' = inbound_loop c last es s in
      (replied k s'.replies + handed_over k s'.handed ≡ asked k (seen c es)) × All IsFresh s'.handed
unfolding teardown drop_guard replied handed_over
inbound_loop-replied c last es s k on no_replies no_queries =
    let P : Inbound → Type 0 = λ t.
      (replied k t.replies + handed_over k t.handed ≡ asked k (seen c es)) × All IsFresh t.handed in
    let fresh : All IsFresh s.handed = subst (All IsFresh) (sym no_queries) tt in
    let (count, fresh') = rounds-Adds c k es s fresh on in
    let done : P (rounds c es s) =
      (omega (arith, count, ap (replied k) no_replies, ap (handed_over k) no_queries), fresh') in
    elim (inbound_loop-cases c last es s) [
      | inl (_, same) ↦ subst P (sym same) done
      | inr (_, ended) ↦ subst P (sym ended) done
    ]
