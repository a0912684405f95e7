-- ===== src/Clients.antt =====
-- muxrd/src/client_count.rs: how many clients are attached to each session. A counter is shared by
-- the map and by the guards, so counters live on a heap and both hold its address. Each atomic
-- operation is one step, and the calls of all the tasks are a sequence of such steps.
pub mod Exact
pub mod Counts
pub mod Total
mod Tests
use zellimobile_server.Common.{
  ℕ, zero, suc, ◌+◌, ◌-◌, ◌%◌, ◌^◌, String, List, [], ◌∷◌, Option, none, some, ◌==◌, if◌then◌else◌,
}
use zellimobile_server.Common.Map.{lookup, insert, string_key}

abbrev pub usize_mod : ℕ
usize_mod = 2 ^ 64

abbrev pub u32_mod : ℕ
u32_mod = 2 ^ 32

abbrev pub write : (ℕ → ℕ) → ℕ → ℕ → ℕ → ℕ
write heap a v b = if a == b then v else heap b

-- The map from sessions to addresses, the next free address, and the counters.
pub record SessionClients : Type 0 where
  pub inner : List (String × ℕ)
  pub next : ℕ
  pub heap : ℕ → ℕ

-- `SessionClients::new`
abbrev pub new : SessionClients
new = record { inner = []; next = 0; heap = λ _. 0 }

-- `fetch_add(1)`
abbrev pub fetch_add : SessionClients → ℕ → SessionClients
fetch_add c a = record c { heap = write c.heap a ((c.heap a + 1) % usize_mod) }

-- `fetch_sub(1)`
abbrev pub fetch_sub : SessionClients → ℕ → SessionClients
fetch_sub c a = record c { heap = write c.heap a ((c.heap a + usize_mod - 1) % usize_mod) }

-- `entry(session).or_insert_with(…)`
unfoldable pub entry : SessionClients → String → SessionClients × ℕ
entry c session = elim (lookup session c.inner) [
  | some a ↦ (c, a)
  | none ↦ (
    record c {
      inner = insert session c.next c.inner;
      next = suc c.next;
      heap = write c.heap c.next 0;
    },
    c.next,
  )
]

-- `SessionClients::attach`; the guard holds the counter's address.
unfoldable pub attach : SessionClients → String → SessionClients × ℕ
attach c session = let (c', a) = entry c session in (fetch_add c' a, a)

-- `ClientGuard::drop`
unfoldable pub drop_guard : SessionClients → ℕ → SessionClients
drop_guard c a = fetch_sub c a

-- `SessionClients::count`, with its cast to `u32`
unfoldable pub count : SessionClients → String → ℕ
count c session = elim (lookup session c.inner) [ none ↦ 0 | some a ↦ c.heap a % u32_mod ]

abbrev pub sum_counters : (ℕ → ℕ) → List (String × ℕ) → ℕ
sum_counters heap [] = 0
sum_counters heap ((session, a) ∷ rest) = heap a + sum_counters heap rest

-- `SessionClients::total_count`
unfoldable pub total_count : SessionClients → ℕ
total_count c = sum_counters c.heap c.inner % usize_mod

-- A guard that a relay holds, with the session that it was given for.
pub record Guard : Type 0 where
  pub session : String
  pub counter : ℕ

pub data Event : Type 0 where
  attached : String → Event
  dropped : ℕ → Event

-- The registry, and the guards that are alive.
pub record World : Type 0 where
  pub clients : SessionClients
  pub guards : List Guard

abbrev pub remove_at : List Guard → ℕ → List Guard
remove_at [] i = []
remove_at (g ∷ gs) zero = gs
remove_at (g ∷ gs) (suc i) = g ∷ remove_at gs i

abbrev pub guard_at : List Guard → ℕ → Option Guard
guard_at [] i = none
guard_at (g ∷ gs) zero = some g
guard_at (g ∷ gs) (suc i) = guard_at gs i

-- A relay starts, or the relay that holds the i-th guard ends.
unfoldable pub step : World → Event → World
step w (attached session) =
    let (c, a) = attach w.clients session in
    record { clients = c; guards = record { session = session; counter = a } ∷ w.guards }
step w (dropped i) = elim (guard_at w.guards i) [
  | none ↦ w
  | some g ↦ record { clients = drop_guard w.clients g.counter; guards = remove_at w.guards i }
]

unfoldable pub run : World → List Event → World
run w [] = w
run w (e ∷ es) = run (step w e) es

abbrev pub start : World
start = record { clients = new; guards = [] }
