-- ===== src/Clients/Tests.antt =====
-- A history of relays that start and end (muxrd/src/client_count.rs).
use zellimobile_server.Common.{length, ◌%◌, ◌≡◌, refl, List, [], ◌∷◌}
use zellimobile_server.Clients.{
  total_count, Event, attached, dropped, run, start, step, drop_guard, attach, entry, count,
  usize_mod, u32_mod,
}
use zellimobile_server.Common.Map.{lookup, insert}
use zellimobile_server.Clients.Exact.{attached_to}
use zellimobile_server.Clients.Counts.{count-run}
use zellimobile_server.Clients.Total.{total_count-run}

-- Two relays on one session, one on another; the older one of the first session ends.
abbrev history : List Event
history = attached "main" ∷ attached "work" ∷ attached "main" ∷ dropped 2 ∷ []

count-run_example :
    count (run start history).clients "main"
    ≡ attached_to "main" (run start history).guards % usize_mod % u32_mod
count-run_example = count-run history "main"

total_count-run_example :
    total_count (run start history).clients ≡ length (run start history).guards % usize_mod
total_count-run_example = total_count-run history

history_test : count (run start history).clients "main" ≡ 1
unfolding run count lookup step drop_guard attach entry insert
history_test = refl
