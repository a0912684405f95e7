-- ===== src/Relay/Inbound/Tracked.antt =====
-- What each arm of the relay's task (muxrd/src/relay/inbound.rs) does to the relay's own view state.
use zellimobile_server.Common.{
  ℕ, String, Bool, true, false, List, [], ◌∷◌, ◌++◌, Option, none, some, if◌then◌else◌, ◌≡◌, refl,
  sym, ap, ◌∙◌, subst, ◌≢◌, inl, inr, Bool-cases, arith, str_eq, eq_iff,
}
use zellimobile_server.Common.Map.{lookup, insert, string_key, lookup-insert_self, lookup-insert_ne}
use zellimobile_server.Rust.Utf8.{is_utf8}
use zellimobile_server.Mux.{PaneRef, FullscreenHint}
use zellimobile_server.Relay.Types.{
  RelayControl, switch_tab, focus_pane, switch_space, toggle_fullscreen, query_layout,
  RelayViewState, ViewStateEntry,
}
use zellimobile_server.Relay.Inbound.{
  Call, go_to_tab, focus, space, fullscreen, send_input_chars, send_input_bytes, send_resize,
  fire_query, query_layout_result, Outside, FrameKind, input, resize, attach, Event, tick, command,
  no_senders, frame, stream_error, stream_end, Context, Inbound, accepted, push_call, perform,
  update_view, in_tab, on_pane, in_space, toggled, resolve_hint, toggle, handle_query_layout,
}
use zellimobile_server.Relay.Inbound.Replay.{view_of, replay, replay-append, toggled-view_of}
use zellimobile_server.Relay.Inbound.Loop.{
  handle_command, handle_frame, handle_event, forward_input,
}

pub differs-keys : (a b : String) → a ≢ b → str_eq a b ≡ false
differs-keys a b h = elim (Bool-cases (str_eq a b)) [
  | inl same ↦ absurd (h ((eq_iff a b).0 same))
  | inr other ↦ other
]

input-silent :
    (text : Bool) (bytes : List ℕ) (v : RelayViewState)
    → view_of (if text then send_input_chars bytes else send_input_bytes bytes) v ≡ v
unfolding view_of
input-silent true bytes v = refl
input-silent false bytes v = refl

module _ (c : Context) (session : String) (first : RelayViewState)
    (views : List (String × ViewStateEntry)) where
  -- The relay's own entry is the replay of its calls, and the others' are as they were.
  pub record IsTracked (s : Inbound) : Type 0 where
    pub own :
        lookup c.connection_id s.view_state
        ≡ some (record { session = session; state = replay s.calls first })
    pub apart : (k : String) → c.connection_id ≢ k → lookup k s.view_state ≡ lookup k views

  -- A call that says nothing of the view.
  push-IsTracked :
      (o : Outside) (call : Call) (s : Inbound)
      → ((v : RelayViewState) → view_of call v ≡ v)
      → IsTracked s
      → IsTracked (push_call o call s)
  push-IsTracked o call s silent w =
      let same : replay (s.calls ++ (call, accepted o) ∷ []) first ≡ replay s.calls first =
        ground
          (arith, replay-append s.calls call (accepted o) first, silent (replay s.calls first)) in
      record {
        own =
            w.own
            ∙ ap (λ (v : RelayViewState). some (record { session = session; state = v }))
                (sym same);
        apart = w.apart;
      }

  updated :
      (s : Inbound) (f : RelayViewState → RelayViewState)
      → IsTracked s
      → update_view c.connection_id f s.view_state
        ≡ insert c.connection_id
            (record { session = session; state = f (replay s.calls first) })
            s.view_state
  unfolding update_view
  updated s f w =
      ap
        (λ found. elim found [
          | none ↦ s.view_state
          | some e ↦ insert c.connection_id (record e { state = f e.state }) s.view_state
        ])
        w.own

  taken-IsTracked :
      (o : Outside) (call : Call) (f : RelayViewState → RelayViewState) (s : Inbound)
      → ((v : RelayViewState) → f v ≡ view_of call v)
      → accepted o ≡ true
      → IsTracked s
      → IsTracked
          (record (push_call o call s) { view_state = update_view c.connection_id f s.view_state })
  taken-IsTracked o call f s agrees took w =
      let v : RelayViewState = replay s.calls first in
      let same : replay (s.calls ++ (call, accepted o) ∷ []) first ≡ f v =
        replay-append s.calls call (accepted o) first
        ∙ ap (λ b. if b then view_of call v else v) took
        ∙ sym (agrees v) in
      let new : ViewStateEntry = record { session = session; state = f v } in
      record {
        own =
            ap (lookup c.connection_id) (updated s f w)
            ∙ lookup-insert_self c.connection_id new s.view_state
            ∙ ap (λ (x : RelayViewState). some (record { session = session; state = x }))
                (sym same);
        apart = λ k differs.
            ap (lookup k) (updated s f w)
            ∙ lookup-insert_ne c.connection_id k new s.view_state differs
            ∙ w.apart k differs;
      }

  refused-IsTracked :
      (o : Outside) (call : Call) (s : Inbound)
      → accepted o ≡ false
      → IsTracked s
      → IsTracked (push_call o call s)
  refused-IsTracked o call s left w =
      let v : RelayViewState = replay s.calls first in
      let same : replay (s.calls ++ (call, accepted o) ∷ []) first ≡ v =
        replay-append s.calls call (accepted o) first
        ∙ ap (λ b. if b then view_of call v else v) left in
      record {
        own =
            w.own
            ∙ ap (λ (x : RelayViewState). some (record { session = session; state = x }))
                (sym same);
        apart = w.apart;
      }

  -- A call that goes through, where the code's update of the view is the one of the call.
  perform-IsTracked :
      (o : Outside) (call : Call) (f : RelayViewState → RelayViewState) (s : Inbound)
      → ((v : RelayViewState) → f v ≡ view_of call v)
      → IsTracked s
      → IsTracked (perform c o call f s)
  unfolding perform
  perform-IsTracked o call f s agrees w =
      let s' : Inbound = push_call o call s in
      let moved : Inbound = record s' { view_state = update_view c.connection_id f s.view_state } in
      elim (Bool-cases (accepted o)) [
        | inl took ↦
            subst IsTracked (sym (ap (λ b. if b then moved else s') took))
              (taken-IsTracked o call f s agrees took w)
        | inr left ↦
            subst IsTracked (sym (ap (λ b. if b then moved else s') left))
              (refused-IsTracked o call s left w)
      ]

  -- Where the guard of a read-only relay stands before.
  unless-IsTracked :
      (ro : Bool) (s s' : Inbound) → IsTracked s → IsTracked s' → IsTracked (if ro then s else s')
  unless-IsTracked true s s' w w' = w
  unless-IsTracked false s s' w w' = w'

  toggle-IsTracked :
      (o : Outside) (p : PaneRef) (hint : Option FullscreenHint) (s : Inbound)
      → IsTracked s
      → IsTracked (toggle c o p hint s)
  toggle-IsTracked o p none s w = w
  toggle-IsTracked o p (some h) s w =
      perform-IsTracked o (fullscreen p h) (toggled p h) s (toggled-view_of p h) w

  -- The fields that the property does not look at.
  elsewhere-IsTracked :
      (s s' : Inbound)
      → s'.calls ≡ s.calls
      → s'.view_state ≡ s.view_state
      → IsTracked s
      → IsTracked s'
  elsewhere-IsTracked s s' calls same w = record {
    own =
        ap (lookup c.connection_id) same
        ∙ w.own
        ∙ ap (λ l. some (record { session = session; state = replay l first })) (sym calls);
    apart = λ k differs. ap (lookup k) same ∙ w.apart k differs;
  }

  query-IsTracked :
      (o : Outside) (reply seq : ℕ) (s : Inbound)
      → IsTracked s
      → IsTracked (handle_query_layout c o reply seq s)
  unfolding handle_query_layout view_of
  query-IsTracked o reply seq s w =
      unless-IsTracked c.has_sync_layout _ _
        (elsewhere-IsTracked (push_call o query_layout_result s) _ refl refl
          (push-IsTracked o query_layout_result s (λ v. refl) w))
        (unless-IsTracked o.reader_alive _ _
          (elsewhere-IsTracked (push_call o fire_query s) _ refl refl
            (push-IsTracked o fire_query s (λ v. refl) w))
          (elsewhere-IsTracked s _ refl refl w))

  command-IsTracked :
      (cmd : RelayControl) (o : Outside) (s : Inbound)
      → IsTracked s
      → IsTracked (handle_command c o cmd s)
  unfolding handle_command view_of
  command-IsTracked (switch_tab t) o s w =
      unless-IsTracked c.read_only s _ w
        (perform-IsTracked o (go_to_tab t) (in_tab t) s (λ v. refl) w)
  command-IsTracked (focus_pane p) o s w =
      unless-IsTracked c.read_only s _ w (perform-IsTracked o (focus p) (on_pane p) s (λ v. refl) w)
  command-IsTracked (switch_space x reply) o s w =
      unless-IsTracked c.read_only _ _ (elsewhere-IsTracked s _ refl refl w) (
        elsewhere-IsTracked (perform c o (space x) (in_space x) s) _ refl refl
          (perform-IsTracked o (space x) (in_space x) s (λ v. refl) w))
  command-IsTracked (toggle_fullscreen p hint) o s w =
      unless-IsTracked c.read_only s _ w
        (toggle-IsTracked o p (resolve_hint hint p o.float_answer) s w)
  command-IsTracked (query_layout reply) o s w =
      query-IsTracked o reply s.next_query_seq _ (elsewhere-IsTracked s _ refl refl w)

  frame-IsTracked :
      (kind : Option FrameKind) (o : Outside) (s : Inbound)
      → IsTracked s
      → IsTracked (handle_frame c o kind s)
  unfolding handle_frame forward_input view_of
  frame-IsTracked none o s w = w
  frame-IsTracked (some (attach _ _ _)) o s w = w
  frame-IsTracked (some (resize rows cols)) o s w =
      unless-IsTracked c.read_only s _ w (push-IsTracked o (send_resize _ _) s (λ v. refl) w)
  frame-IsTracked (some (input bytes)) o s w = unless-IsTracked c.read_only s _ w (
      unless-IsTracked _ s _ w (
        push-IsTracked o (if is_utf8 bytes then send_input_chars bytes else send_input_bytes bytes)
          s (λ v. input-silent (is_utf8 bytes) bytes v) w))

  pub event-IsTracked :
      (e : Event) (o : Outside) (s : Inbound) → IsTracked s → IsTracked (handle_event c e o s)
  unfolding handle_event
  event-IsTracked (tick check) o s w =
      unless-IsTracked _ s _ w (elsewhere-IsTracked s _ refl refl w)
  event-IsTracked (command cmd) o s w = command-IsTracked cmd o s w
  event-IsTracked no_senders o s w = w
  event-IsTracked (frame kind) o s w = frame-IsTracked kind o s w
  event-IsTracked stream_error o s w = elsewhere-IsTracked s _ refl refl w
  event-IsTracked stream_end o s w = elsewhere-IsTracked s _ refl refl w
