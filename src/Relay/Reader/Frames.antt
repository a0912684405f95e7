-- ===== src/Relay/Reader/Frames.antt =====
-- What the reader thread (muxrd/src/relay/reader.rs) forwards to the client.
use zellimobile_server.Common.{
  ℕ, ◌+◌, ◌%◌, ◌^◌, String, Bool, true, false, List, [], ◌∷◌, ◌++◌, none, some, if◌then◌else◌, ◌≡◌,
  refl, sym, ap, ◌∙◌, subst, arith, inl, inr, ◌⊎◌, Bool-cases, Option-cases,
}
use mathlib.Core.List.{append-nil, append_assoc}
use zellimobile_server.Mux.{
  MuxEvent, exit, renamed_session, config_updated, switch_session, MuxServerMsg, log, event, other,
  LayoutSnapshot, Outcome,
}
use zellimobile_server.Relay.Reader.{
  ServerFrame, control, Turn, Reader, idle, render_loop, drain_queries, turn, receive,
  handle_message, handle_event, capture_query_log,
}

-- The frame that a message is for the client, whatever the queries do.
unfoldable pub frame_of : MuxServerMsg → List ServerFrame
frame_of (MuxServerMsg.render content) = ServerFrame.render content ∷ []
frame_of (log _) = []
frame_of (event (exit reason)) = control "exit" reason ∷ []
frame_of (event (renamed_session name)) = control "renamed_session" name ∷ []
frame_of (event config_updated) = control "config_updated" "" ∷ []
frame_of (event (switch_session name)) = control "switch_session" name ∷ []
frame_of other = []

unfoldable pub is_render : MuxServerMsg → ℕ
is_render (MuxServerMsg.render _) = 1
is_render _ = 0

-- Whether the loop goes on after a message: not after an exit, and not after a frame that the client
-- no longer takes.
unfoldable pub survives : Bool → MuxServerMsg → Bool
survives sent (event (exit _)) = false
survives sent (MuxServerMsg.render _) = sent
survives sent (event _) = sent
survives sent _ = true

-- The messages that the loop handles, up to the first reason to stop.
unfoldable pub handled : List Turn → List (MuxServerMsg × Bool)
unfolding survives
handled [] = []
handled (t ∷ ts) =
    let rest = handled ts in
    if t.stop_before then [] else elim t.received [
      | none ↦ []
      | some m ↦ if t.stop_after then [] else (m, t.sent) ∷ (if survives t.sent m then rest else [])
    ]

-- Their frames, as far as the client takes them.
unfoldable pub frames_of : List (MuxServerMsg × Bool) → List ServerFrame
unfolding frame_of
frames_of [] = []
frames_of ((m, sent) ∷ ms) = (if sent then frame_of m else []) ++ frames_of ms

unfoldable pub renders_of : List (MuxServerMsg × Bool) → ℕ
unfolding is_render
renders_of [] = 0
renders_of ((m, sent) ∷ ms) = (if sent then is_render m else 0) + renders_of ms

module _ (parse : String → String → Outcome LayoutSnapshot) where
  -- What one message does to the frames, the count and the loop.
  abbrev Does : Turn → MuxServerMsg → Reader → Reader → Type 0
  Does t m r r' =
      (r'.frames ≡ r.frames ++ (if t.sent then frame_of m else []))
      × (r'.renders ≡ (r.renders + (if t.sent then is_render m else 0)) % 2 ^ 64)
      × (r'.running ≡ survives t.sent m)

  capture-keeps :
      (t : Turn) (j : String) (r : Reader)
      → let r' = capture_query_log parse t.closed_at_log j r in
        (r'.frames ≡ r.frames) × (r'.renders ≡ r.renders) × (r'.running ≡ r.running)
  unfolding capture_query_log
  capture-keeps t j r = elim (Option-cases r.in_flight) [
    | inl nothing ↦ rw (nothing, capture_query_log) (refl, refl, refl)
    | inr (q, held) ↦ elim (Bool-cases (t.closed_at_log q.reply)) [
      | inl gone ↦ rw (held, capture_query_log, gone) (refl, refl, refl)
      | inr waits ↦ elim (Option-cases q.tabs) [
        | inl first ↦ rw (held, capture_query_log, waits, first) (refl, refl, refl)
        | inr (tabs, second) ↦ rw (held, capture_query_log, waits, second) (refl, refl, refl)
      ]
    ]
  ]

  event-Does :
      (t : Turn) (e : MuxEvent) (r : Reader)
      → r.running ≡ true
      → r.renders ≡ r.renders % 2 ^ 64
      → Does t (event e) r (handle_event t.sent e r)
  unfolding handle_event frame_of is_render survives
  event-Does t (exit reason) r on small = ground (arith, append-nil r.frames)
  event-Does t (renamed_session name) r on small = ground (arith, append-nil r.frames)
  event-Does t config_updated r on small = ground (arith, append-nil r.frames)
  event-Does t (switch_session name) r on small = ground (arith, append-nil r.frames)

  handle_message-Does :
      (t : Turn) (m : MuxServerMsg) (r : Reader)
      → r.running ≡ true
      → r.renders ≡ r.renders % 2 ^ 64
      → Does t m r (handle_message parse t m r)
  unfolding handle_message frame_of is_render survives
  handle_message-Does t (MuxServerMsg.render content) r on small =
      ground (arith, append-nil r.frames)
  handle_message-Does t (log j) r on small =
      ground (arith, capture-keeps t j r, append-nil r.frames)
  handle_message-Does t (event e) r on small = event-Does t e r on small
  handle_message-Does t other r on small = ground (arith, append-nil r.frames)

  pub stopped : (ts : List Turn) (r : Reader) → r.running ≡ false → render_loop parse ts r ≡ r
  unfolding render_loop
  stopped [] r h = refl
  stopped (t ∷ ts) r h = rw h

  turn-Does :
      (t : Turn) (m : MuxServerMsg) (r : Reader)
      → r.running ≡ true
      → r.renders ≡ r.renders % 2 ^ 64
      → t.stop_before ≡ false
      → t.received ≡ some m
      → t.stop_after ≡ false
      → Does t m r (turn parse t r)
  unfolding turn receive
  turn-Does t m r on small going got still =
      rw (going, turn, got, receive, still)
        (handle_message-Does t m
          (record r {
            in_flight =
                drain_queries t.closed_after t.queued_after
                  (drain_queries t.closed_before t.queued_before r.in_flight);
          })
          on small)

  -- A turn that has nothing to handle ends the loop as it is.
  turn-ends :
      (t : Turn) (r : Reader)
      → (t.stop_before ≡ true) ⊎ (t.received ≡ none) ⊎ (t.stop_after ≡ true)
      → let r' = turn parse t r in
        (r'.frames ≡ r.frames) × (r'.renders ≡ r.renders) × (r'.running ≡ false)
  unfolding turn receive
  turn-ends t r h = elim (Bool-cases t.stop_before) [
    | inl stop ↦ rw (stop, turn) (refl, refl, refl)
    | inr going ↦ elim (Option-cases t.received) [
      | inl closed ↦ rw (going, turn, closed, receive) (refl, refl, refl)
      | inr (m, got) ↦
          let last : t.stop_after ≡ true = ground arith in
          rw (going, turn, got, receive, last) (refl, refl, refl)
    ]
  ]

  abbrev Forwards : List (MuxServerMsg × Bool) → Reader → Reader → Type 0
  Forwards ms r r' =
      (r'.frames ≡ r.frames ++ frames_of ms) × (r'.renders ≡ (r.renders + renders_of ms) % 2 ^ 64)

  -- A message, and what comes after it.
  Forwards-cons :
      (t : Turn) (m : MuxServerMsg) (ms : List (MuxServerMsg × Bool)) (r r' r'' : Reader)
      → Does t m r r'
      → Forwards ms r' r''
      → Forwards ((m, t.sent) ∷ ms) r r''
  unfolding frames_of renders_of
  Forwards-cons t m ms r r' r'' (f, n, _) (fs, ns) = (
    fs ∙ ap (λ l. l ++ frames_of ms) f ∙ append_assoc r.frames _ (frames_of ms),
    omega (arith, ns, n),
  )

  pub loop-cons :
      (t : Turn) (ts : List Turn) (r : Reader)
      → r.running ≡ true
      → render_loop parse (t ∷ ts) r ≡ render_loop parse ts (turn parse t r)
  unfolding render_loop
  loop-cons t ts r on =
      let rest : Reader = render_loop parse ts (turn parse t r) in
      ap (λ b. if b then rest else r) on

  loop-last :
      (t : Turn) (ts : List Turn) (r : Reader)
      → r.running ≡ true
      → (turn parse t r).running ≡ false
      → render_loop parse (t ∷ ts) r ≡ turn parse t r
  loop-last t ts r on off = loop-cons t ts r on ∙ stopped ts (turn parse t r) off

  Forwards-nil :
      (r r' : Reader)
      → r.renders ≡ r.renders % 2 ^ 64
      → r'.frames ≡ r.frames
      → r'.renders ≡ r.renders
      → Forwards [] r r'
  unfolding frames_of renders_of
  Forwards-nil r r' small f n = (f ∙ sym (append-nil r.frames), omega (arith, n))

  ends-Forwards :
      (t : Turn) (ts : List Turn) (r : Reader)
      → r.running ≡ true
      → r.renders ≡ r.renders % 2 ^ 64
      → (t.stop_before ≡ true) ⊎ (t.received ≡ none) ⊎ (t.stop_after ≡ true)
      → Forwards [] r (render_loop parse (t ∷ ts) r)
  ends-Forwards t ts r on small h =
      let (f, n, off) = turn-ends t r h in
      subst (Forwards [] r) (sym (loop-last t ts r on off))
        (Forwards-nil r (turn parse t r) small f n)

  live-Forwards :
      (t : Turn) (m : MuxServerMsg) (ts : List Turn) (r : Reader)
      → r.running ≡ true
      → r.renders ≡ r.renders % 2 ^ 64
      → Does t m r (turn parse t r)
      → ((r' : Reader)
          → r'.running ≡ true
          → r'.renders ≡ r'.renders % 2 ^ 64
          → Forwards (handled ts) r' (render_loop parse ts r'))
      → Forwards
          ((m, t.sent) ∷ (if survives t.sent m then handled ts else []))
          r
          (render_loop parse (t ∷ ts) r)
  live-Forwards t m ts r on small d rest =
      let r' : Reader = turn parse t r in
      let kept : r'.renders ≡ r'.renders % 2 ^ 64 = omega (arith, d.1) in
      elim (Bool-cases (survives t.sent m)) [
        | inl on' ↦ rw on' (
            subst (Forwards ((m, t.sent) ∷ handled ts) r) (sym (loop-cons t ts r on)) (
              Forwards-cons t m (handled ts) r r' (render_loop parse ts r') d
                (rest r' (d.2 ∙ on') kept)))
        | inr off ↦ rw off (
            subst (Forwards ((m, t.sent) ∷ []) r) (sym (loop-last t ts r on (d.2 ∙ off)))
              (Forwards-cons t m [] r r' r' d (Forwards-nil r' r' kept refl refl)))
      ]

  render_loop-Forwards :
      (ts : List Turn) (r : Reader)
      → r.running ≡ true
      → r.renders ≡ r.renders % 2 ^ 64
      → Forwards (handled ts) r (render_loop parse ts r)
  unfolding handled
  render_loop-Forwards [] r on small = unfold render_loop in Forwards-nil r r small refl refl
  render_loop-Forwards (t ∷ ts) r on small =
      let ends = ends-Forwards t ts r on small in
      let r' : Reader = render_loop parse (t ∷ ts) r in
      elim (Bool-cases t.stop_before) [
        | inl stop ↦ subst (λ ms. Forwards ms r r') (rw stop) (ends (inl stop))
        | inr going ↦ elim (Option-cases t.received) [
          | inl closed ↦
              subst (λ ms. Forwards ms r r') (rw (going, handled, closed)) (ends (inr (inl closed)))
          | inr (m, got) ↦ elim (Bool-cases t.stop_after) [
            | inl last ↦
                subst (λ ms. Forwards ms r r') (rw (going, handled, got, last))
                  (ends (inr (inr last)))
            | inr still ↦
                subst (λ ms. Forwards ms r r') (rw (going, handled, got, still))
                  (live-Forwards t m ts r on small (turn-Does t m r on small going got still)
                    (render_loop-Forwards ts))
          ]
        ]
      ]

  -- The client gets the frames of the messages that the loop handles, in their order, each once and
  -- none left out, whatever queries are handed over, answered or dropped meanwhile; the count that the
  -- loop returns is that of the renders among them (as a `u64`).
  pub render_loop-frames :
      (ts : List Turn)
      → let r = render_loop parse ts idle in
        (r.frames ≡ frames_of (handled ts)) × (r.renders ≡ renders_of (handled ts) % 2 ^ 64)
  render_loop-frames ts =
      let (f, n) = render_loop-Forwards ts idle refl refl in (f, n ∙ omega arith)
