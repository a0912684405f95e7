-- ===== src/Relay/Reader/Straggler.antt =====
-- A log that comes too late (muxrd/src/relay/reader.rs): logs do not say which query they answer.
use zellimobile_server.Common.{ℕ, String, Bool, true, false, List, [], ◌∷◌, none, some, ◌≡◌}
use zellimobile_server.Mux.{log, LayoutSnapshot, Outcome}
use zellimobile_server.Relay.Types.{InFlightQuery}
use zellimobile_server.Relay.Reader.{
  Turn, idle, render_loop, turn, receive, handle_message, drain_queries, retire, replace,
  capture_query_log, fulfil,
}

-- A round that receives a log, with the queries that were handed over before it, and the callers that
-- have given up.
abbrev pub log_turn : List InFlightQuery → (ℕ → Bool) → String → Turn
log_turn queued gone json = record {
  stop_before = false;
  closed_before = gone;
  queued_before = queued;
  received = some (log json);
  stop_after = false;
  closed_after = gone;
  queued_after = [];
  closed_at_log = gone;
  sent = true;
}

abbrev pub asked : ℕ → ℕ → InFlightQuery
asked seq reply = record { seq = seq; reply = reply; tabs = none }

module _ (parse : String → String → Outcome LayoutSnapshot) where
  -- A query has its tabs, the next query takes its place, and only then the first one's panes come. They
  -- are taken for the tabs of the second query, and its own tabs for its panes: it is answered with the
  -- parse of the two, whatever the texts are, if its caller waits.
  pub straggler :
      (seq seq' reply reply' : ℕ) (tabs panes tabs' : String) (gone : ℕ → Bool)
      → gone reply' ≡ false
      → (render_loop parse
          (log_turn (asked seq reply ∷ []) (λ _. false) tabs
            ∷ log_turn (asked seq' reply' ∷ []) gone panes
            ∷ log_turn [] gone tabs'
            ∷ [])
          idle).answers
        ≡ record {
          query = record { seq = seq'; reply = reply'; tabs = some panes };
          result = fulfil parse seq' panes tabs';
        }
          ∷ []
  unfolding render_loop turn receive handle_message drain_queries retire replace capture_query_log
  straggler seq seq' reply reply' tabs panes tabs' gone waits = simp (waits)
