-- ===== src/Clients/Counts.antt =====
-- The counters of muxrd/src/client_count.rs count the guards that are alive.
use zellimobile_server.Common.{
  ℕ, ◌%◌, String, ◌≡◌, refl, ap, ◌∙◌, ◌≢◌, inl, inr, List, [], ◌∷◌, none, some, Bool-cases,
  Option-cases, arith, All, str_eq, eq_iff,
}
use zellimobile_server.Common.Map.{lookup, string_key}
use zellimobile_server.Clients.{
  usize_mod, u32_mod, count, Guard, Event, attached, dropped, World, guard_at, step, run, start,
}
use zellimobile_server.Clients.Exact.{
  holders, attached_to, Knows, IsExact, start-IsExact, attach-IsExact, drop-IsExact,
}

step-IsExact : (w : World) (e : Event) → IsExact w → IsExact (step w e)
step-IsExact w (attached s) x = attach-IsExact w s x
step-IsExact w (dropped i) x = elim (Option-cases (guard_at w.guards i)) [
  | inl missing ↦ unfold step in rw (missing, step) x
  | inr (g, found) ↦ unfold step in rw (found, step) (drop-IsExact w i g x found)
]

run-IsExact : (w : World) (es : List Event) → IsExact w → IsExact (run w es)
unfolding run
run-IsExact w [] x = x
run-IsExact w (e ∷ es) x = run-IsExact (step w e) es (step-IsExact w e x)

-- The holders of a session's counter are the guards that were given for the session.
holders-eq-attached_to :
    (w : World) (s : String) (a : ℕ)
    → IsExact w
    → lookup s w.clients.inner ≡ some a
    → (gs : List Guard) → All (Knows w.clients.inner) gs
    → holders a gs ≡ attached_to s gs
holders-eq-attached_to w s a x k [] _ = refl
holders-eq-attached_to w s a x k (g ∷ gs) (mine, others) =
    let rest = holders-eq-attached_to w s a x k gs others in
    elim (Bool-cases (str_eq g.session s)) [
      | inl same ↦
          let e : g.session ≡ s = (eq_iff g.session s).0 same in
          let hit : g.counter ≡ a = cc (ap (λ t. lookup t w.clients.inner) e) in
          ground (arith, rest)
      | inr other ↦
          let miss : g.counter ≢ a =
            λ hit. cc ((eq_iff g.session s).1 (x.apart g.session s a (mine ∙ ap some hit) k)) in
          ground (arith, rest)
    ]

-- A session that was never attached to has no guards.
attached_to-unknown :
    (inner : List (String × ℕ)) (s : String)
    → lookup s inner ≡ none
    → (gs : List Guard) → All (Knows inner) gs
    → attached_to s gs ≡ 0
attached_to-unknown inner s e [] _ = refl
attached_to-unknown inner s e (g ∷ gs) (mine, others) =
    let differ : g.session ≢ s = λ q. cc (ap (λ t. lookup t inner) q) in
    ground (arith, eq_iff g.session s, attached_to-unknown inner s e gs others)

exact_count :
    (w : World) (s : String)
    → IsExact w
    → count w.clients s ≡ attached_to s w.guards % usize_mod % u32_mod
unfolding count
exact_count w s x = elim (Option-cases (lookup s w.clients.inner)) [
  | inl unknown ↦
      rw (unknown, count) (rw (attached_to-unknown w.clients.inner s unknown w.guards x.known))
  | inr (a, k) ↦
      rw (k, count) (rw ((x.exact s a k).1, holders-eq-attached_to w s a x k w.guards x.known))
]

-- After any history of relays that start and end, in whatever order they end, `count` is the
-- number of the session's relays that are alive (as a `u32`, of a `usize`), also 0 for a session
-- that was never seen; no other session's relays are in it.
pub count-run :
    (es : List Event) (s : String)
    → let w = run start es in count w.clients s ≡ attached_to s w.guards % usize_mod % u32_mod
count-run es s = exact_count (run start es) s (run-IsExact start es start-IsExact)
