-- ===== src/Relay/Attach/Life.antt =====
-- A relay from its attach (muxrd/src/relay/mod.rs) to the end of its task (relay/inbound.rs), and
-- what it leaves in the registries.
use zellimobile_server.Common.{
  All, ℕ, String, Bool, true, false, List, [], Option, none, some, if◌then◌else◌, ◌≡◌, refl, sym,
  ap, ◌∙◌, subst, ◌≢◌, inl, inr, Bool-cases, Option-cases, arith, str_eq, eq_iff,
}
use zellimobile_server.Common.Map.{
  lookup, insert, remove, string_key, lookup-insert, lookup-insert_self, lookup-insert_ne,
  lookup-remove,
}
use zellimobile_server.Mux.{Outcome, ok, failed}
use zellimobile_server.Server.Backends.{BackendKind, BackendSet}
use zellimobile_server.Server.Routing.{Result, resolve_session_kind, make_id}
use zellimobile_server.Relay.Types.{toggle_fullscreen, ControlEntry, ViewStateEntry}
use zellimobile_server.Relay.Inbound.{
  Outside, input, resize, attach, Event, command, frame, Context, Inbound, perform, resolve_hint,
  handle_query_layout,
}
use zellimobile_server.Relay.Inbound.Rules.{rounds-inv, inbound_loop-cases}
use zellimobile_server.Relay.Inbound.Loop.{
  clamp_dim, handle_command, handle_frame, handle_event, forward_input, rounds, drop_guard,
  teardown, inbound_loop,
}
use zellimobile_server.Relay.Inbound.Bounds.{
  IsDim, clamp_dim-IsDim, IsBounded, inbound_loop-IsBounded,
}
use zellimobile_server.Relay.Inbound.Replay.{replay}
use zellimobile_server.Relay.Inbound.View.{inbound_loop-replay}
use zellimobile_server.Relay.Attach.{
  Joined, joined, panicked, Handle, Backend, First, closed, broken, came, World, Attached, Opened,
  relay, refused, AttachError, attach_size, register, opened, attach_resolved, open_at,
  attach_session, attach_relay,
}

-- No round touches the registry of senders.
event-control :
    (c : Context) (e : Event) (o : Outside) (s : Inbound)
    → (handle_event c e o s).control ≡ s.control
unfolding handle_event handle_command handle_frame forward_input perform handle_query_layout
event-control c (command (toggle_fullscreen p hint)) o s =
    elim (Option-cases (resolve_hint hint p o.float_answer)) [
      | inl late ↦ rw (late, handle_event, handle_command) (ground arith)
      | inr (h, found) ↦ rw (found, handle_event, handle_command) (ground arith)
    ]
event-control c (frame (some (input bytes))) o s = ground arith
event-control c e o s = ground arith

rounds-control :
    (c : Context) (es : List (Event × Outside)) (s : Inbound) → (rounds c es s).control ≡ s.control
rounds-control c es s =
    rounds-inv (λ s'. s'.control ≡ s.control) c (λ e o s' h. event-control c e o s' ∙ h) es s refl

module _ (read_only : Bool) (token : Option String) (connection_id : String) (channel : ℕ) where
  -- What the attach registers and hands to the tasks.
  record IsRegistered (w w' : World) (a : Attached) : Type 0 where
    entry : ViewStateEntry
    sender : ControlEntry
    viewed : w'.view_state ≡ insert connection_id entry w.view_state
    routed : w'.control ≡ insert connection_id sender w.control
    named : a.context.connection_id ≡ connection_id
    gated : a.context.read_only ≡ read_only
    sized : read_only ≡ false → IsDim a.context.rows × IsDim a.context.cols

  -- A refusal leaves all registries as they are.
  abbrev Shape : World → World × Opened → Type 0
  Shape w (w', refused e) = w' ≡ w
  Shape w (w', relay a) = IsRegistered w w' a

  register-Shape :
      (id count_key : String) (b : Backend) (dims : ℕ × ℕ) (handle : Handle) (w : World)
      → (read_only ≡ false → IsDim dims.0 × IsDim dims.1)
      → Shape w (register read_only token connection_id channel id count_key b dims handle w)
  unfolding register
  register-Shape id count_key b (rows, cols) handle w dims = record {
    entry = _;
    sender = _;
    viewed = refl;
    routed = refl;
    named = refl;
    gated = refl;
    sized = dims;
  }

  opened-Shape :
      (id count_key : String) (b : Backend) (dims : ℕ × ℕ) (opens : Joined (Outcome Handle))
      (w : World)
      → (read_only ≡ false → IsDim dims.0 × IsDim dims.1)
      → Shape w (opened read_only token connection_id channel id count_key b dims opens w)
  unfolding opened
  opened-Shape id count_key b dims (panicked e) w h = refl
  opened-Shape id count_key b dims (joined (failed e)) w h = refl
  opened-Shape id count_key b dims (joined (ok handle)) w h =
      register-Shape id count_key b dims handle w h

  size-IsDim :
      (ro : Bool) (size : Joined (Outcome (ℕ × ℕ))) (rows cols : ℕ)
      → IsDim rows
      → IsDim cols
      → ro ≡ false
      → IsDim (attach_size ro size rows cols).0 × IsDim (attach_size ro size rows cols).1
  unfolding attach_size
  size-IsDim false size rows cols r c _ = (r, c)
  size-IsDim true size rows cols r c h = absurd (cc)

  resolved-Shape :
      (id : String) (rows cols : ℕ) (to : Result (BackendKind × Backend × String)) (w : World)
      → IsDim rows
      → IsDim cols
      → Shape w (attach_resolved read_only token connection_id channel id rows cols to w)
  unfolding attach_resolved open_at
  resolved-Shape id rows cols (Result.err e) w r c = refl
  resolved-Shape id rows cols (Result.ok (kind, b, bare)) w r c =
      let dims : ℕ × ℕ = attach_size read_only (b.query_session_size bare) rows cols in
      opened-Shape id (make_id kind bare) b dims (b.open_attach bare dims.0 dims.1 read_only) w
        (size-IsDim read_only (b.query_session_size bare) rows cols r c)

  module _ (zellij_check : String → Option String) (backends : BackendSet Backend) where
    attach_relay-Shape :
        (first : First) (w : World)
        → Shape w (attach_relay read_only token connection_id channel zellij_check backends first w)
    unfolding attach_relay attach_session
    attach_relay-Shape closed w = refl
    attach_relay-Shape (broken e) w = refl
    attach_relay-Shape (came none) w = refl
    attach_relay-Shape (came (some (input bytes))) w = refl
    attach_relay-Shape (came (some (resize rows cols))) w = refl
    attach_relay-Shape (came (some (attach id rows cols))) w =
        resolved-Shape id (clamp_dim rows 24) (clamp_dim cols 80)
          (resolve_session_kind zellij_check backends id) w (clamp_dim-IsDim rows 24 (omega arith))
          (clamp_dim-IsDim cols 80 (omega arith))

    -- A refused attach, for whatever reason and however far it came, leaves both registries and all
    -- client counts as they were.
    pub attach_relay-refused :
        (first : First) (w : World) (e : AttachError)
        → (attach_relay read_only token connection_id channel zellij_check backends first w).1
          ≡ refused e
        → (attach_relay read_only token connection_id channel zellij_check backends first w).0 ≡ w
    attach_relay-refused first w e h =
        let (w', o) =
          attach_relay read_only token connection_id channel zellij_check backends first w in
        subst (λ out. Shape w (w', out)) h (attach_relay-Shape first w)

-- The state with which the task of a relay starts.
abbrev pub started : World → Inbound
started w = record {
  calls = [];
  next_query_seq = 0;
  handed = [];
  replies = [];
  view_state = w.view_state;
  control = w.control;
  stop = false;
  running = true;
}

-- A lookup in a map that had another key put in and taken out again.
lookup-through :
    (id k : String) {V : Type 0} (v : V) (m : List (String × V))
    → lookup id m ≡ none
    → lookup k (remove id (insert id v m)) ≡ lookup k m
lookup-through id k v m fresh =
    ground (arith, lookup-remove id k (insert id v m), lookup-insert id k v m, eq_iff id k)

ended-control :
    (c : Context) (last : Outside) (es : List (Event × Outside)) (s : Inbound)
    → (inbound_loop c last es s).running ≡ false
    → (inbound_loop c last es s).control ≡ remove c.connection_id s.control
unfolding teardown drop_guard
ended-control c last es s off = elim (inbound_loop-cases c last es s) [
  | inl (on, same) ↦ absurd (cc (ap (λ (t : Inbound). t.running) same))
  | inr (_, ended) ↦
      ap (λ (t : Inbound). t.control) ended ∙ ap (remove c.connection_id) (rounds-control c es s)
]

size_unused :
    (ro : Bool) (size : Joined (Outcome (ℕ × ℕ))) (rows cols rows' cols' : ℕ)
    → ro ≡ true
    → attach_size ro size rows cols ≡ attach_size ro size rows' cols'
unfolding attach_size
size_unused false size rows cols rows' cols' h = absurd (cc)
size_unused true (joined (ok found)) rows cols rows' cols' h = refl
size_unused true (joined (failed _)) rows cols rows' cols' h = refl
size_unused true (panicked _) rows cols rows' cols' h = refl

ended-views :
    (c : Context) (last : Outside) (es : List (Event × Outside)) (s : Inbound)
    (entry : ViewStateEntry) (m : List (String × ViewStateEntry)) (k : String)
    → s.calls ≡ []
    → s.view_state ≡ insert c.connection_id entry m
    → lookup c.connection_id m ≡ none
    → (inbound_loop c last es s).running ≡ false
    → lookup k (inbound_loop c last es s).view_state ≡ lookup k m
ended-views c last es s entry m k none_yet put fresh off =
    let own : lookup c.connection_id s.view_state ≡ some entry =
      ap (lookup c.connection_id) put ∙ lookup-insert_self c.connection_id entry m in
    let (gone, apart) = inbound_loop-replay c last es s entry.session entry.state none_yet own in
    elim (Bool-cases (str_eq c.connection_id k)) [
      | inl same ↦
          subst (λ j. lookup j (inbound_loop c last es s).view_state ≡ lookup j m)
            ((eq_iff c.connection_id k).0 same)
            (gone
              ∙ ap
                  (λ b.
                    if b
                    then some (record {
                      session = entry.session;
                      state = replay (inbound_loop c last es s).calls entry.state;
                    })
                    else none)
                  off
              ∙ sym fresh)
      | inr other ↦
          let differs : c.connection_id ≢ k = λ q. cc ((eq_iff c.connection_id k).1 q) in
          apart k differs ∙ ap (lookup k) put ∙ lookup-insert_ne c.connection_id k entry m differs
    ]

module _ (read_only : Bool) (token : Option String) (connection_id : String) (channel : ℕ)
    (zellij_check : String → Option String) (backends : BackendSet Backend) where
  abbrev Attaches : First → World → World × Opened
  Attaches = attach_relay read_only token connection_id channel zellij_check backends

  registered :
      (first : First) (w : World) (a : Attached)
      → (Attaches first w).1 ≡ relay a
      → IsRegistered read_only token connection_id channel w (Attaches first w).0 a
  registered first w a h =
      subst (λ out. Shape read_only token connection_id channel w ((Attaches first w).0, out)) h
        (attach_relay-Shape read_only token connection_id channel zellij_check backends first w)

  -- A relay that was attached under a new id, and whose task has ended, for whatever reason and after
  -- whatever happened, leaves nothing behind: under every id, its own among them, both registries show
  -- what they showed before the attach.
  pub relay_leaves_nothing :
      (first : First) (w : World) (a : Attached) (last : Outside) (es : List (Event × Outside))
      (k : String)
      → (Attaches first w).1 ≡ relay a
      → lookup connection_id w.view_state ≡ none
      → lookup connection_id w.control ≡ none
      → let s = inbound_loop a.context last es (started (Attaches first w).0) in
        s.running ≡ false
        → (lookup k s.view_state ≡ lookup k w.view_state)
          × (lookup k s.control ≡ lookup k w.control)
  relay_leaves_nothing first w a last es k h no_view no_sender off =
      let r = registered first w a h in
      let s : Inbound = started (Attaches first w).0 in
      (
        ended-views a.context last es s r.entry w.view_state k refl
            (r.viewed ∙ ap (λ i. insert i r.entry w.view_state) (sym r.named))
            (ap (λ i. lookup i w.view_state) r.named ∙ no_view) off,
        ap (lookup k) (ended-control a.context last es s off)
            ∙ ap (λ m. lookup k (remove a.context.connection_id m)) r.routed
            ∙ ap (λ i. lookup k (remove i (insert connection_id r.sender w.control))) r.named
            ∙ lookup-through connection_id k r.sender w.control no_sender,
      )

  -- Whatever the size that its client asks for, and whatever follows, each input that an attached relay
  -- hands to the session has at most 1 MiB, and each size is between 1 and 65,535 in rows and columns.
  pub attached-IsBounded :
      (first : First) (w : World) (a : Attached) (last : Outside) (es : List (Event × Outside))
      → (Attaches first w).1 ≡ relay a
      → All IsBounded (inbound_loop a.context last es (started (Attaches first w).0)).calls
  attached-IsBounded first w a last es h =
      let r = registered first w a h in
      inbound_loop-IsBounded a.context last es (started (Attaches first w).0)
        (λ may. r.sized (sym r.gated ∙ may)) refl

  -- A read-only attach does not depend on the size that its client asks for: two requests for a session
  -- that differ in their sizes alone have the same outcome, and leave all registries alike.
  pub attach_session-eq :
      read_only ≡ true
      → (id : String) (rows cols rows' cols' : ℕ) (w : World)
      → attach_session read_only token connection_id channel zellij_check backends id rows cols w
        ≡ attach_session read_only token connection_id channel zellij_check backends id rows' cols'
            w
  unfolding attach_session attach_resolved attach_size
  attach_session-eq ro id rows cols rows' cols' w =
      resolved-eq (clamp_dim rows 24) (clamp_dim cols 80) (clamp_dim rows' 24) (clamp_dim cols' 80)
        (resolve_session_kind zellij_check backends id)
    where
      resolved-eq :
          (r c r' c' : ℕ) (to : Result (BackendKind × Backend × String))
          → attach_resolved read_only token connection_id channel id r c to w
            ≡ attach_resolved read_only token connection_id channel id r' c' to w
      resolved-eq r c r' c' (Result.err e) = refl
      resolved-eq r c r' c' (Result.ok (kind, b, bare)) =
          ap (λ d. open_at read_only token connection_id channel id (make_id kind bare) b bare d w)
            (size_unused read_only (b.query_session_size bare) r c r' c' ro)
