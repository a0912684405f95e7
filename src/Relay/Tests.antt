-- ===== src/Relay/Tests.antt =====
-- A relay at concrete inputs (muxrd/src/relay).
use zellimobile_server.Common.{
  ℕ, ◌+◌, ◌%◌, ◌^◌, String, Bool, true, false, List, [], ◌∷◌, Option, none, some, ◌≡◌, refl, ◌⊎◌,
  All, ◌==◌,
}
use zellimobile_server.Common.Map.{lookup, remove, string_key}
use zellimobile_server.Clients
use zellimobile_server.Mux.{exit, MuxServerMsg, event, LayoutSnapshot, Outcome, ok, failed}
use zellimobile_server.Rust.Splits.{split_once}
use zellimobile_server.Server.Backends.{BackendSet, zellij, get}
use zellimobile_server.Server.Routing.{parse_backend_kind, all_name_chars}
use zellimobile_server.Relay.Types.{switch_tab, focus_pane, switch_space, query_layout, no_view}
use zellimobile_server.Relay.Reader.{control, Turn, render_loop, idle, fulfil}
use zellimobile_server.Relay.Reader.Frames.{frames_of, renders_of, handled, render_loop-frames}
use zellimobile_server.Relay.Reader.History.{Told, past}
use zellimobile_server.Relay.Reader.Answers.{render_loop-Told}
use zellimobile_server.Relay.Reader.Straggler.{log_turn, asked, straggler}
use zellimobile_server.Relay.Inbound.{
  Outside, elapsed, checked, input, resize, attach, Event, tick, command, frame, stream_end,
  Context, Inbound,
}
use zellimobile_server.Relay.Inbound.Loop.{inbound_loop}
use zellimobile_server.Relay.Inbound.ReadOnly.{IsPassive, read_only-IsPassive}
use zellimobile_server.Relay.Inbound.Bounds.{IsBounded}
use zellimobile_server.Relay.Inbound.View.{Keeps, inbound_loop-replay}
use zellimobile_server.Relay.Inbound.Replies
use zellimobile_server.Relay.Inbound.Replies.{replied, handed_over, seen, inbound_loop-replied}
use zellimobile_server.Relay.Reader.History.{IsFresh}
use zellimobile_server.Relay.Attach.{
  joined, Backend, First, came, First, World, Attached, not_an_attach, attach_session, attach_relay,
}
use zellimobile_server.Relay.Attach.Life.{
  started, attach_relay-refused, relay_leaves_nothing, attached-IsBounded, attach_session-eq,
}

-- A parse that finds no tab.
abbrev parse : String → String → Outcome LayoutSnapshot
parse tabs panes = ok (record { tabs = [] })

-- A query and its two logs, and then the end of the session.
abbrev leaves : Turn
leaves = record (log_turn [] (λ _. false) "") { received = some (event (exit "bye")) }

abbrev turns : List Turn
turns =
    log_turn (asked 0 7 ∷ []) (λ _. false) "tabs"
    ∷ log_turn [] (λ _. false) "panes"
    ∷ record leaves { received = some (MuxServerMsg.render (27 ∷ [])) }
    ∷ leaves
    ∷ []

answered_once :
    (render_loop parse turns idle).answers
    ≡ record {
      query = record { seq = 0; reply = 7; tabs = some "tabs" };
      result = fulfil parse 0 "tabs" "panes";
    }
      ∷ []
unfolding render_loop
answered_once = refl

render_loop-Told_example : All (Told parse (past turns [])) (render_loop parse turns idle).answers
render_loop-Told_example =
    render_loop-Told parse turns (((refl, tt), tt), ((tt, tt), ((tt, tt), ((tt, tt), tt))))

render_loop-frames_example :
    ((render_loop parse turns idle).frames ≡ frames_of (handled turns))
    × ((render_loop parse turns idle).renders ≡ renders_of (handled turns) % 2 ^ 64)
render_loop-frames_example = render_loop-frames parse turns

-- The first query's caller has given up.
abbrev first_gone : ℕ → Bool
first_gone reply = reply == 7

straggler_example :
    (render_loop parse
      (log_turn (asked 0 7 ∷ []) (λ _. false) "tabs0"
        ∷ log_turn (asked 1 8 ∷ []) first_gone "panes0"
        ∷ log_turn [] first_gone "tabs1"
        ∷ [])
      idle).answers
    ≡ record {
      query = record { seq = 1; reply = 8; tabs = some "panes0" };
      result = fulfil parse 1 "panes0" "tabs1";
    }
      ∷ []
straggler_example = straggler parse 0 1 7 8 "tabs0" "panes0" "tabs1" first_gone refl

-- The session takes every call.
abbrev willing : Outside
willing = record {
  refusal = none;
  float_answer = elapsed;
  reader_alive = true;
  layout_result = none;
}

abbrev watcher : Context
watcher = record {
  connection_id = "c1";
  read_only = true;
  token = some "t";
  has_sync_layout = false;
  rows = 24;
  cols = 80;
}

abbrev writer : Context
writer = record watcher { read_only = false }

abbrev begun : Inbound
begun = record {
  calls = [];
  next_query_seq = 0;
  handed = [];
  replies = [];
  view_state = ("c1", record { session = "zellij:dev"; state = no_view }) ∷ [];
  control = [];
  stop = false;
  running = true;
}

abbrev events : List (Event × Outside)
events =
    (frame (some (input (108 ∷ 115 ∷ []))), willing)
    ∷ (frame (some (resize 0 100000)), willing)
    ∷ (command (switch_tab 3), willing)
    ∷ (command (focus_pane (record { id = 2; is_plugin = false })), willing)
    ∷ (command (switch_space "w2" 5), record willing { refusal = some "no" })
    ∷ (command (query_layout 6), willing)
    ∷ (tick (checked true), willing)
    ∷ []

abbrev and_end : List (Event × Outside)
and_end =
    (command (query_layout 6), willing)
    ∷ (frame (some (input (108 ∷ []))), willing)
    ∷ (stream_end, willing)
    ∷ []

read_only-IsPassive_example :
    let s' = inbound_loop watcher willing events begun in
    All IsPassive s'.calls
    × ((s'.view_state ≡ begun.view_state) ⊎ (s'.view_state ≡ remove "c1" begun.view_state))
read_only-IsPassive_example = read_only-IsPassive watcher willing events begun refl refl

inbound_loop-replay_example :
    Keeps writer "zellij:dev" no_view begun.view_state (inbound_loop writer willing events begun)
unfolding lookup
inbound_loop-replay_example =
    inbound_loop-replay writer willing events begun "zellij:dev" no_view refl refl

inbound_loop-replied_example :
    let s' = inbound_loop writer willing events begun in
    (replied 6 s'.replies + handed_over 6 s'.handed ≡ Replies.asked 6 (seen writer events))
    × All IsFresh s'.handed
inbound_loop-replied_example = inbound_loop-replied writer willing events begun 6 refl refl refl

-- A backend with one session, which opens at any size.
abbrev dev : Backend
dev = record {
  query_session_size = λ _. joined (ok (40, 120));
  open_attach = λ s _ _ _. joined (ok (record { session_name = s; has_sync_layout = false }));
  query_layout = λ _. joined (failed "no layout");
}

abbrev only_dev : BackendSet Backend
only_dev = record { backends = (zellij, dev) ∷ [] }

abbrev check_name : String → Option String
check_name name = none

abbrev empty_world : World
empty_world = record { clients = Clients.new; view_state = []; control = [] }

abbrev first_frame : First
first_frame = came (some (attach "zellij:dev" 30 0))

abbrev given : Attached
given = record {
  context = record writer { connection_id = "c9"; rows = 30 };
  client_guard = 0;
  session_name = "dev";
  frames = control "connection_id" "c9" ∷ [];
}

relay_leaves_nothing_example :
    (lookup "c9"
        (inbound_loop given.context willing and_end (
          started
            (attach_relay false
              (some "t")
              "c9"
              1
              check_name
              only_dev
              first_frame
              empty_world).0)).view_state
      ≡ none)
    × (lookup "c9"
          (inbound_loop given.context willing and_end (
            started
              (attach_relay false
                (some "t")
                "c9"
                1
                check_name
                only_dev
                first_frame
                empty_world).0)).control
        ≡ none)
unfolding attach_relay attach_session inbound_loop split_once parse_backend_kind get all_name_chars
    Clients.attach Clients.entry lookup
relay_leaves_nothing_example =
    relay_leaves_nothing false (some "t") "c9" 1 check_name only_dev first_frame empty_world given
      willing and_end "c9" refl refl refl refl

attached-IsBounded_example :
    All IsBounded
      (inbound_loop given.context willing events (
        started
          (attach_relay false
            (some "t")
            "c9"
            1
            check_name
            only_dev
            first_frame
            empty_world).0)).calls
unfolding attach_relay attach_session split_once parse_backend_kind get all_name_chars
    Clients.attach Clients.entry lookup
attached-IsBounded_example =
    attached-IsBounded false (some "t") "c9" 1 check_name only_dev first_frame empty_world given
      willing events refl

attach_session-eq_example :
    attach_session true none "c9" 1 check_name only_dev "dev" 24 80 empty_world
    ≡ attach_session true none "c9" 1 check_name only_dev "dev" 0 5 empty_world
attach_session-eq_example =
    attach_session-eq true none "c9" 1 check_name only_dev refl "dev" 24 80 0 5 empty_world

attach_relay-refused_example :
    (attach_relay false none "c9" 1 check_name only_dev (came (some (input []))) empty_world).0
    ≡ empty_world
unfolding attach_relay
attach_relay-refused_example =
    attach_relay-refused false none "c9" 1 check_name only_dev (came (some (input []))) empty_world
      not_an_attach refl
