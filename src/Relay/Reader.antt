-- ===== src/Relay/Reader.antt =====
-- muxrd/src/relay/reader.rs: the thread that reads the session. One round of its loop is one `Turn`:
-- what the stop flag says, which queries the task has handed over, which receivers are gone, and
-- what `recv` returns. The parse of zellij's JSON is a parameter.
pub mod Frames
pub mod History
pub mod Answers
pub mod Straggler
use zellimobile_server.Common.{
  ℕ, ◌+◌, ◌%◌, ◌^◌, String, Bool, true, false, List, [], ◌∷◌, ◌++◌, Option, none, some,
  if◌then◌else◌,
}
use zellimobile_server.Rust.Text.{is_empty, concat}
use zellimobile_server.Rust.Decimal.{u64_text}
use zellimobile_server.Mux.{
  MuxEvent, exit, renamed_session, config_updated, switch_session, MuxServerMsg, log, event, other,
  LayoutSnapshot, Outcome, failed,
}
use zellimobile_server.Relay.Types.{InFlightQuery}

-- `ServerFrame`, with `ControlEvent`.
pub data ServerFrame : Type 0 where
  render : List ℕ → ServerFrame
  control : (kind payload : String) → ServerFrame

-- `closed_…` is `is_closed` of a reply at the moment of the test; `sent` is whether the client's
-- stream still takes a frame.
pub record Turn : Type 0 where
  pub stop_before : Bool
  pub closed_before : ℕ → Bool
  pub queued_before : List InFlightQuery
  pub received : Option MuxServerMsg
  pub stop_after : Bool
  pub closed_after : ℕ → Bool
  pub queued_after : List InFlightQuery
  pub closed_at_log : ℕ → Bool
  pub sent : Bool

pub record Answer : Type 0 where
  pub query : InFlightQuery
  pub result : Outcome LayoutSnapshot

-- `frames` are those that the client's stream took; `running` is false after a `break`.
pub record Reader : Type 0 where
  pub in_flight : Option InFlightQuery
  pub renders : ℕ
  pub frames : List ServerFrame
  pub answers : List Answer
  pub running : Bool

abbrev pub idle : Reader
idle = record { in_flight = none; renders = 0; frames = []; answers = []; running = true }

-- The first part of `drain_queries`: a query whose caller has gone is dropped.
unfoldable pub retire : (ℕ → Bool) → Option InFlightQuery → Option InFlightQuery
retire closed none = none
retire closed (some q) = if closed q.reply then none else some q

-- The second part: the last query in the channel replaces the held one.
unfoldable pub replace : List InFlightQuery → Option InFlightQuery → Option InFlightQuery
replace [] held = held
replace (q ∷ qs) held = replace qs (some q)

-- `drain_queries`
unfoldable pub drain_queries :
    (ℕ → Bool) → List InFlightQuery → Option InFlightQuery → Option InFlightQuery
unfolding retire replace
drain_queries closed queued held = replace queued (retire closed held)

-- `break` with the held query dropped, as at most exits, and without.
abbrev pub break_dropping : Reader → Reader
break_dropping r = record r { in_flight = none; running = false }

abbrev pub break_holding : Reader → Reader
break_holding r = record r { running = false }

abbrev pub push_frame : Reader → ServerFrame → Reader
push_frame r f = record r { frames = r.frames ++ f ∷ [] }

-- A control event that the loop survives: it breaks only if the client has gone.
abbrev pub notify : Bool → Reader → ServerFrame → Reader
notify sent r f = if sent then push_frame r f else break_holding r

-- The arms for events.
unfoldable pub handle_event : Bool → MuxEvent → Reader → Reader
handle_event sent (exit reason) r =
    let gone = break_dropping r in if sent then push_frame gone (control "exit" reason) else gone
handle_event sent (renamed_session name) r = notify sent r (control "renamed_session" name)
handle_event sent config_updated r = notify sent r (control "config_updated" "")
handle_event sent (switch_session name) r = notify sent r (control "switch_session" name)

unfoldable pub empty_json : String → ℕ → String
unfolding u64_text
empty_json which seq =
    concat "empty "
      (concat which (concat " JSON from relay query (seq=" (concat (u64_text seq) ")")))

module _ (parse_zellij_layout : String → String → Outcome LayoutSnapshot) where
  -- The answer to a query from its two texts.
  unfoldable pub fulfil : ℕ → String → String → Outcome LayoutSnapshot
  unfolding empty_json
  fulfil seq tabs_json panes_json =
      if is_empty tabs_json
      then failed (empty_json "tabs" seq)
      else if is_empty panes_json
      then failed (empty_json "panes" seq)
      else parse_zellij_layout tabs_json panes_json

  -- `capture_query_log`, in parts
  abbrev pub capture_held : InFlightQuery → Option String → String → Reader → Reader
  capture_held q none json r = record r { in_flight = some (record q { tabs = some json }) }
  capture_held q (some tabs) json r = record r {
    in_flight = none;
    answers = r.answers ++ record { query = q; result = fulfil q.seq tabs json } ∷ [];
  }

  abbrev pub capture_slot : (ℕ → Bool) → Option InFlightQuery → String → Reader → Reader
  capture_slot closed none json r = r
  capture_slot closed (some q) json r =
      if closed q.reply then record r { in_flight = none } else capture_held q q.tabs json r

  unfoldable pub capture_query_log : (ℕ → Bool) → String → Reader → Reader
  unfolding fulfil
  capture_query_log closed json r = capture_slot closed r.in_flight json r

  -- The `match` on a message. The count of renders is a `u64`.
  unfoldable pub handle_message : Turn → MuxServerMsg → Reader → Reader
  unfolding capture_query_log handle_event
  handle_message t (MuxServerMsg.render content) r =
      if t.sent
      then record (push_frame r (ServerFrame.render content)) { renders = (r.renders + 1) % 2 ^ 64 }
      else break_dropping r
  handle_message t (log json) r = capture_query_log t.closed_at_log json r
  handle_message t (event e) r = handle_event t.sent e r
  handle_message t other r = r

  -- One round, from a message that `recv` may return.
  unfoldable pub receive : Turn → Option MuxServerMsg → Reader → Reader
  unfolding handle_message drain_queries
  receive t none r = break_dropping r
  receive t (some msg) r =
      if t.stop_after
      then break_dropping r
      else handle_message t msg
          (record r { in_flight = drain_queries t.closed_after t.queued_after r.in_flight })

  unfoldable pub turn : Turn → Reader → Reader
  unfolding receive drain_queries
  turn t r =
      if t.stop_before
      then break_holding r
      else receive t t.received
          (record r { in_flight = drain_queries t.closed_before t.queued_before r.in_flight })

  -- `render_loop`: rounds until a `break`.
  unfoldable pub render_loop : List Turn → Reader → Reader
  unfolding turn
  render_loop [] r = r
  render_loop (t ∷ ts) r = let rest = render_loop ts (turn t r) in if r.running then rest else r
