-- ===== src/Relay/Reader/Answers.antt =====
-- Which query the reader thread (muxrd/src/relay/reader.rs) answers, and with which of the session's
-- log messages.
use zellimobile_server.Common.{
  String, true, false, List, [], ◌∷◌, Option, none, some, if◌then◌else◌, ◌≡◌, refl, sym, ap, ◌∙◌,
  subst, inl, inr, All, All-append, All-map, Bool-cases, arith,
}
use zellimobile_server.Mux.{
  exit, renamed_session, config_updated, switch_session, MuxServerMsg, log, event, other,
  LayoutSnapshot, Outcome,
}
use zellimobile_server.Relay.Types.{InFlightQuery}
use zellimobile_server.Relay.Reader.Frames.{loop-cons, stopped}
use zellimobile_server.Relay.Reader.{
  ServerFrame, notify, Turn, Answer, Reader, idle, break_dropping, break_holding, render_loop,
  drain_queries, turn, receive, handle_message, handle_event, capture_query_log, capture_slot,
  capture_held,
}
use zellimobile_server.Relay.Reader.History.{
  log_of, HandsFresh, Told, past, Holds, IsReady, drained, drained-Origin, newest-IsFresh,
  new-IsReady, old-IsReady,
}

module _ (parse : String → String → Outcome LayoutSnapshot) where
  record IsKnown (h : List Turn) (r : Reader) : Type 0 where
    held : (q : InFlightQuery) → r.running ≡ true → r.in_flight ≡ some q → Holds h q
    told : All (Told parse h) r.answers

  drained-IsReady :
      (t : Turn) (h : List Turn) (r : Reader) (q : InFlightQuery)
      → HandsFresh t
      → IsKnown h r
      → r.running ≡ true
      → drained t r ≡ some q
      → IsReady t h q
  drained-IsReady t h r q fresh k on d = elim (drained-Origin t r q d) [
    | inl new ↦ new-IsReady t h q (newest-IsFresh t fresh new) new
    | inr (nothing, old) ↦ old-IsReady t h q nothing (k.held q on old)
  ]

  later :
      (t : Turn) (h : List Turn) (l : List Answer)
      → All (Told parse h) l
      → All (Told parse (t ∷ h)) l
  later t h l a = All-map (Told parse h) (Told parse (t ∷ h)) (λ x told. inr told) l a

  -- After a round: what was answered, and, if the loop goes on, what it holds.
  abbrev After : Turn → List Turn → Reader → Type 0
  After t h r =
      All (Told parse (t ∷ h)) r.answers
      × ((q : InFlightQuery) → r.running ≡ true → r.in_flight ≡ some q → Holds (t ∷ h) q)

  module _ (t : Turn) (h : List Turn) (r : Reader) (told : All (Told parse h) r.answers)
      (ready : (q : InFlightQuery) → r.in_flight ≡ some q → IsReady t h q) where
    held-After :
        (q : InFlightQuery) (j : String) (tabs : Option String)
        → r.in_flight ≡ some q
        → q.tabs ≡ tabs
        → log_of t.received ≡ some j
        → t.closed_at_log q.reply ≡ false
        → After t h (capture_held parse q tabs j r)
    held-After q j none held bare came waits = (
      later t h r.answers told,
      λ q' _ e.
          let half = (ready q held).first j bare came waits in
          let e' : record q { tabs = some j } ≡ q' = cc in
          subst (Holds (t ∷ h)) e' (inr (j, refl, half)),
    )
    held-After q j (some s) held has came waits =
        let (nothing, half) = (ready q held).second s has in
        (
          All-append (Told parse (t ∷ h)) r.answers _ (later t h r.answers told)
              (inl (s, j, came, waits, nothing, half, refl), tt),
          λ q' _ e. absurd (cc),
        )

    slot-After :
        (j : String) (slot : Option InFlightQuery)
        → r.in_flight ≡ slot
        → log_of t.received ≡ some j
        → After t h (capture_slot parse t.closed_at_log slot j r)
    slot-After j none empty came = (later t h r.answers told, λ q _ e. absurd (cc))
    slot-After j (some q) held came = elim (Bool-cases (t.closed_at_log q.reply)) [
      | inl gone ↦
          subst (After t h)
            (sym (
              ap (λ b. if b then record r { in_flight = none } else capture_held parse q q.tabs j r)
                gone))
            (later t h r.answers told, λ q' _ e. absurd (cc))
      | inr waits ↦
          subst (After t h)
            (sym (
              ap (λ b. if b then record r { in_flight = none } else capture_held parse q q.tabs j r)
                waits))
            (held-After q j q.tabs held refl came waits)
    ]

    quiet-After :
        (r' : Reader)
        → log_of t.received ≡ none
        → r'.answers ≡ r.answers
        → (r'.running ≡ true → r'.in_flight ≡ r.in_flight)
        → After t h r'
    quiet-After r' quiet same kept = (
      subst (All (Told parse (t ∷ h))) (sym same) (later t h r.answers told),
      λ q on e. (ready q (sym (kept on) ∙ e)).carried quiet,
    )

  notify-After :
      (t : Turn) (h : List Turn) (f : ServerFrame) (r : Reader)
      → All (Told parse h) r.answers
      → ((q : InFlightQuery) → r.in_flight ≡ some q → IsReady t h q)
      → log_of t.received ≡ none
      → After t h (notify t.sent r f)
  notify-After t h f r told ready quiet =
      quiet-After t h r told ready (notify t.sent r f) quiet (ground arith) (λ on. ground arith)

  handle_message-After :
      (t : Turn) (h : List Turn) (m : MuxServerMsg) (r : Reader)
      → All (Told parse h) r.answers
      → ((q : InFlightQuery) → r.in_flight ≡ some q → IsReady t h q)
      → t.received ≡ some m
      → After t h (handle_message parse t m r)
  unfolding handle_message handle_event capture_query_log log_of
  handle_message-After t h (MuxServerMsg.render c) r told ready got =
      quiet-After t h r told ready (handle_message parse t (MuxServerMsg.render c) r)
        (ap log_of got) (ground arith) (λ on. ground arith)
  handle_message-After t h (log j) r told ready got =
      slot-After t h r told ready j r.in_flight refl (ap log_of got)
  handle_message-After t h (event (exit reason)) r told ready got =
      quiet-After t h r told ready (handle_event t.sent (exit reason) r) (ap log_of got)
        (ground arith) (λ on. ground arith)
  handle_message-After t h (event (renamed_session name)) r told ready got =
      notify-After t h _ r told ready (ap log_of got)
  handle_message-After t h (event config_updated) r told ready got =
      notify-After t h _ r told ready (ap log_of got)
  handle_message-After t h (event (switch_session name)) r told ready got =
      notify-After t h _ r told ready (ap log_of got)
  handle_message-After t h other r told ready got =
      quiet-After t h r told ready r (ap log_of got) refl (λ _. refl)

  ended-After :
      (t : Turn) (h : List Turn) (r : Reader)
      → All (Told parse h) r.answers
      → r.running ≡ false
      → After t h r
  ended-After t h r told off = (later t h r.answers told, λ q on e. absurd (cc))

  receive-After :
      (t : Turn) (h : List Turn) (got : Option MuxServerMsg) (r : Reader)
      → HandsFresh t
      → IsKnown h r
      → r.running ≡ true
      → t.received ≡ got
      → After t h (
          receive parse t got
            (record r { in_flight = drain_queries t.closed_before t.queued_before r.in_flight }))
  unfolding receive drained
  receive-After t h none r fresh k on got =
      ended-After t h
        (break_dropping
          (record r { in_flight = drain_queries t.closed_before t.queued_before r.in_flight }))
        k.told refl
  receive-After t h (some m) r fresh k on got =
      let goes : Reader = handle_message parse t m (record r { in_flight = drained t r }) in
      let ends : Reader =
        break_dropping
          (record r { in_flight = drain_queries t.closed_before t.queued_before r.in_flight }) in
      elim (Bool-cases t.stop_after) [
        | inl stop ↦
            subst (After t h) (sym (ap (λ b. if b then ends else goes) stop))
              (ended-After t h ends k.told refl)
        | inr still ↦ subst (After t h) (sym (ap (λ b. if b then ends else goes) still)) (
            handle_message-After t h m (record r { in_flight = drained t r }) k.told
              (λ q e. drained-IsReady t h r q fresh k on e) got)
      ]

  turn-After :
      (t : Turn) (h : List Turn) (r : Reader)
      → HandsFresh t
      → IsKnown h r
      → r.running ≡ true
      → After t h (turn parse t r)
  unfolding turn
  turn-After t h r fresh k on =
      let goes : Reader =
        receive parse t t.received
          (record r { in_flight = drain_queries t.closed_before t.queued_before r.in_flight }) in
      elim (Bool-cases t.stop_before) [
        | inl stop ↦
            subst (After t h) (sym (ap (λ b. if b then break_holding r else goes) stop))
              (ended-After t h (break_holding r) k.told refl)
        | inr going ↦
            subst (After t h) (sym (ap (λ b. if b then break_holding r else goes) going))
              (receive-After t h t.received r fresh k on refl)
      ]

  later_all :
      (ts h : List Turn) (l : List Answer) → All (Told parse h) l → All (Told parse (past ts h)) l
  later_all [] h l a = a
  later_all (t ∷ ts) h l a = later_all ts (t ∷ h) l (later t h l a)

  render_loop-IsKnown :
      (ts h : List Turn) (r : Reader)
      → All HandsFresh ts
      → IsKnown h r
      → All (Told parse (past ts h)) (render_loop parse ts r).answers
  unfolding render_loop
  render_loop-IsKnown [] h r fresh k = k.told
  render_loop-IsKnown (t ∷ ts) h r (fresh, rest) k = elim (Bool-cases r.running) [
    | inl on ↦
        let (told, held) = turn-After t h r fresh k on in
        subst (λ (r' : Reader). All (Told parse (past ts (t ∷ h))) r'.answers)
          (sym (loop-cons parse t ts r on))
          (render_loop-IsKnown ts (t ∷ h) (turn parse t r) rest
            (record { held = held; told = told }))
    | inr off ↦
        subst (λ (r' : Reader). All (Told parse (past ts (t ∷ h))) r'.answers)
          (sym (stopped parse (t ∷ ts) r off)) (later_all (t ∷ ts) h r.answers k.told)
  ]

  -- Whatever the session sends and whenever callers give up, each answer that the reader thread gives
  -- is made of two logs: the first that came after the query was handed over, and the next one; the
  -- caller was waiting at both, and no newer query was handed over in between.
  pub render_loop-Told :
      (ts : List Turn)
      → All HandsFresh ts
      → All (Told parse (past ts [])) (render_loop parse ts idle).answers
  render_loop-Told ts fresh =
      render_loop-IsKnown ts [] idle fresh (record { held = λ q on e. absurd (cc); told = tt })
