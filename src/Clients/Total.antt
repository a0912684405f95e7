-- ===== src/Clients/Total.antt =====
-- The total of muxrd/src/client_count.rs: the sum over the sessions is the number of live guards.
use zellimobile_server.Common.{
  ℕ, zero, suc, ◌+◌, ◌-◌, ◌%◌, ◌≤◌, String, ◌≡◌, refl, inl, inr, List, [], ◌∷◌, none, some, ◌==◌,
  if◌then◌else◌, Option-cases, Bool-cases, arith, length, str_eq, All, All-map,
}
use zellimobile_server.Common.Map.{lookup, insert, string_key}
use zellimobile_server.Clients.Exact.{entry_known, All-guard_at, All-remove_at}
use zellimobile_server.Clients.{
  usize_mod, write, fetch_add, entry, attach, drop_guard, sum_counters, total_count, Guard, Event,
  attached, dropped, World, remove_at, guard_at, step, run, start,
}

-- How many entries of the map have the address.
abbrev occurs : ℕ → List (String × ℕ) → ℕ
occurs a [] = 0
occurs a ((_, b) ∷ rest) = (if b == a then 1 else 0) + occurs a rest

sum-write_absent :
    (heap : ℕ → ℕ) (a v : ℕ) (inner : List (String × ℕ))
    → occurs a inner ≡ 0
    → sum_counters (write heap a v) inner ≡ sum_counters heap inner
sum-write_absent heap a v [] h = refl
sum-write_absent heap a v ((s, b) ∷ rest) h =
    ground (arith, sum-write_absent heap a v rest (ground arith))

-- A write to an address that occurs once changes the sum by the change of its counter.
sum-write :
    (heap : ℕ → ℕ) (a v : ℕ) (inner : List (String × ℕ))
    → occurs a inner ≡ 1
    → sum_counters (write heap a v) inner + heap a ≡ sum_counters heap inner + v
sum-write heap a v [] h = absurd (omega arith)
sum-write heap a v ((s, b) ∷ rest) h = elim (Bool-cases (b == a)) [
  | inl here ↦ ground (arith, sum-write_absent heap a v rest (ground arith))
  | inr there ↦ ground (arith, sum-write heap a v rest (ground arith))
]

occurs-insert :
    (inner : List (String × ℕ)) (s : String) (a b : ℕ)
    → lookup s inner ≡ none
    → occurs b (insert s a inner) ≡ occurs b inner + (if a == b then 1 else 0)
unfolding lookup insert
occurs-insert [] s a b h = ground arith
occurs-insert ((t, c) ∷ rest) s a b h = elim (Bool-cases (str_eq t s)) [
  | inl same ↦ absurd (ground arith)
  | inr other ↦ rw (other, insert) (omega (arith, occurs-insert rest s a b (ground arith)))
]

sum-insert :
    (heap : ℕ → ℕ) (inner : List (String × ℕ)) (s : String) (a : ℕ)
    → lookup s inner ≡ none
    → sum_counters heap (insert s a inner) ≡ sum_counters heap inner + heap a
unfolding lookup insert
sum-insert heap [] s a h = omega arith
sum-insert heap ((t, c) ∷ rest) s a h = elim (Bool-cases (str_eq t s)) [
  | inl same ↦ absurd (ground arith)
  | inr other ↦ rw (other, insert) (omega (arith, sum-insert heap rest s a (ground arith)))
]

lookup-occurs :
    (inner : List (String × ℕ)) (s : String) (a : ℕ) → lookup s inner ≡ some a → 1 ≤ occurs a inner
unfolding lookup
lookup-occurs [] s a h = absurd cc
lookup-occurs ((t, c) ∷ rest) s a h = elim (Bool-cases (str_eq t s)) [
  | inl same ↦ let here : c ≡ a = ground arith in ground arith
  | inr other ↦ omega (arith, lookup-occurs rest s a (ground arith))
]

-- Each address below the next one occurs at most once, each other not at all; each guard's counter
-- occurs; the sum is the number of guards.
record IsTotal (w : World) : Type 0 where
  once : (a : ℕ) → occurs a w.clients.inner ≤ 1
  below : (a : ℕ) → w.clients.next ≤ a → occurs a w.clients.inner ≡ 0
  held : All (λ g. occurs g.counter w.clients.inner ≡ 1) w.guards
  total : sum_counters w.clients.heap w.clients.inner % usize_mod ≡ length w.guards % usize_mod

start-IsTotal : IsTotal start
start-IsTotal = record { once = λ a. omega arith; below = λ a h. refl; held = tt; total = refl }

entry-IsTotal :
    (w : World) (s : String) → IsTotal w → IsTotal (record w { clients = (entry w.clients s).0 })
unfolding entry
entry-IsTotal w s x = elim (Option-cases (lookup s w.clients.inner)) [
  | inr (a, old) ↦ rw (old, entry) x
  | inl fresh ↦
      let c = w.clients in
      let added = λ (b : ℕ). occurs-insert c.inner s c.next b fresh in
      let unused = x.below c.next (omega arith) in
      rw (fresh, entry)
        (record {
          once = λ b. elim (Bool-cases (c.next == b)) [
            | inl new ↦ ground (arith, added b, x.below b)
            | inr old ↦ ground (arith, added b, x.once b)
          ];
          below = λ b h. ground (arith, added b, x.below b (omega arith));
          held =
              All-map (λ g. occurs g.counter c.inner ≡ 1)
                (λ g. occurs g.counter (insert s c.next c.inner) ≡ 1)
                (λ g h. ground (arith, added g.counter, unused, h)) w.guards x.held;
          total =
              rw
                (
                  sum-insert (write c.heap c.next 0) c.inner s c.next fresh,
                  sum-write_absent c.heap c.next 0 c.inner unused,
                )
                (ground (arith, x.total));
        })
]

add-IsTotal :
    (w : World) (s : String) (a : ℕ)
    → IsTotal w
    → occurs a w.clients.inner ≡ 1
    → IsTotal (record {
      clients = fetch_add w.clients a;
      guards = record { session = s; counter = a } ∷ w.guards;
    })
add-IsTotal w s a x once = record {
  once = x.once;
  below = x.below;
  held = (once, x.held);
  total =
      let c = w.clients in
      omega (arith, x.total, sum-write c.heap a ((c.heap a + 1) % usize_mod) c.inner once);
}

attach-IsTotal : (w : World) (s : String) → IsTotal w → IsTotal (step w (attached s))
unfolding step attach
attach-IsTotal w s x =
    let y = entry-IsTotal w s x in
    let (c, a) = entry w.clients s in
    add-IsTotal (record w { clients = (entry w.clients s).0 }) s (entry w.clients s).1 y
      (omega (
        arith,
        y.once (entry w.clients s).1,
        lookup-occurs (entry w.clients s).0.inner s (entry w.clients s).1 (entry_known w.clients s),
      ))

length-remove_at :
    (gs : List Guard) (i : ℕ) (g : Guard)
    → guard_at gs i ≡ some g
    → length gs ≡ length (remove_at gs i) + 1
length-remove_at [] i g h = cc
length-remove_at (k ∷ gs) zero g h = omega arith
length-remove_at (k ∷ gs) (suc i) g h = omega (arith, length-remove_at gs i g h)

drop-IsTotal :
    (w : World) (i : ℕ) (g : Guard)
    → IsTotal w
    → guard_at w.guards i ≡ some g
    → IsTotal (record { clients = drop_guard w.clients g.counter; guards = remove_at w.guards i })
unfolding drop_guard
drop-IsTotal w i g x h =
    let c = w.clients in
    let Holds = λ (k : Guard). occurs k.counter c.inner ≡ 1 in
    let mine = All-guard_at Holds w.guards i g h x.held in
    record {
      once = x.once;
      below = x.below;
      held = All-remove_at Holds w.guards i x.held;
      total = omega (
        arith,
        x.total,
        length-remove_at w.guards i g h,
        sum-write c.heap g.counter ((c.heap g.counter + usize_mod - 1) % usize_mod) c.inner mine,
      );
    }

step-IsTotal : (w : World) (e : Event) → IsTotal w → IsTotal (step w e)
step-IsTotal w (attached s) x = attach-IsTotal w s x
step-IsTotal w (dropped i) x = elim (Option-cases (guard_at w.guards i)) [
  | inl missing ↦ unfold step in rw (missing, step) x
  | inr (g, found) ↦ unfold step in rw (found, step) (drop-IsTotal w i g x found)
]

run-IsTotal : (w : World) (es : List Event) → IsTotal w → IsTotal (run w es)
unfolding run
run-IsTotal w [] x = x
run-IsTotal w (e ∷ es) x = run-IsTotal (step w e) es (step-IsTotal w e x)

-- After any history of relays that start and end, in whatever order they end, `total_count` is the
-- number of the relays that are alive, of all sessions (as a `usize`).
pub total_count-run :
    (es : List Event) → let w = run start es in total_count w.clients ≡ length w.guards % usize_mod
unfolding total_count
total_count-run es = (run-IsTotal start es start-IsTotal).total
