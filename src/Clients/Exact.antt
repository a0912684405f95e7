-- ===== src/Clients/Exact.antt =====
-- The invariant of muxrd/src/client_count.rs: a counter holds the number of its guards.
use zellimobile_server.Common.{
  ℕ, zero, suc, ◌+◌, ◌%◌, ◌<◌, String, ◌≡◌, refl, sym, ap, ◌∙◌, subst, ◌≢◌, inl, inr, List, [], ◌∷◌,
  none, some, ◌==◌, if◌then◌else◌, Option-cases, arith, All, All-map, str_eq,
}
use zellimobile_server.Common.Map.{
  lookup, insert, lookup-insert_self, lookup-insert_ne, lookup-insert_cases, string_key,
}
use zellimobile_server.Clients.{
  usize_mod, write, SessionClients, fetch_add, entry, attach, drop_guard, Guard, attached, World,
  remove_at, guard_at, step, start,
}

-- How many guards hold the counter.
abbrev pub holders : ℕ → List Guard → ℕ
holders a [] = 0
holders a (g ∷ gs) = (if g.counter == a then 1 else 0) + holders a gs

-- How many were given for the session.
abbrev pub attached_to : String → List Guard → ℕ
attached_to s [] = 0
attached_to s (g ∷ gs) = (if str_eq g.session s then 1 else 0) + attached_to s gs

abbrev pub Knows : List (String × ℕ) → Guard → Type 0
Knows inner g = lookup g.session inner ≡ some g.counter

pub record IsExact (w : World) : Type 0 where
  pub exact :
      (s : String) (a : ℕ)
      → lookup s w.clients.inner ≡ some a
      → (a < w.clients.next) × (w.clients.heap a ≡ holders a w.guards % usize_mod)
  pub apart :
      (s t : String) (a : ℕ)
      → lookup s w.clients.inner ≡ some a
      → lookup t w.clients.inner ≡ some a
      → s ≡ t
  pub known : All (Knows w.clients.inner) w.guards

pub start-IsExact : IsExact start
unfolding lookup
start-IsExact = record {
  exact = λ s a h. absurd (cc);
  apart = λ s t a h k. absurd (cc);
  known = tt;
}

-- Fresh addresses are held by no guard.
holders-fresh :
    (w : World)
    → IsExact w
    → (gs : List Guard) → All (Knows w.clients.inner) gs
    → holders w.clients.next gs ≡ 0
holders-fresh w x [] k = refl
holders-fresh w x (g ∷ gs) k =
    ground (arith, x.exact g.session g.counter k.0, holders-fresh w x gs k.1)

-- A new counter at 0, under the next address.
fresh_entry : SessionClients → String → SessionClients
fresh_entry c s = record c {
  inner = insert s c.next c.inner;
  next = suc c.next;
  heap = write c.heap c.next 0;
}

module _ (w : World) (s : String) (x : IsExact w) (fresh : lookup s w.clients.inner ≡ none) where
  fresh-exact :
      (t : String) (b : ℕ)
      → lookup t (insert s w.clients.next w.clients.inner) ≡ some b
      → (b < suc w.clients.next)
        × (write w.clients.heap w.clients.next 0 b ≡ holders b w.guards % usize_mod)
  fresh-exact t b h = elim (lookup-insert_cases s t w.clients.next b w.clients.inner h) [
    | inl (_, here) ↦
        let none_yet : holders b w.guards ≡ 0 =
          subst (λ n. holders n w.guards ≡ 0) here (holders-fresh w x w.guards x.known) in
        (omega arith, ground arith)
    | inr (_, old) ↦ let (low, same) = x.exact t b old in (omega arith, ground arith)
  ]

  fresh-apart :
      (t u : String) (b : ℕ)
      → lookup t (insert s w.clients.next w.clients.inner) ≡ some b
      → lookup u (insert s w.clients.next w.clients.inner) ≡ some b
      → t ≡ u
  fresh-apart t u b ht hu = elim (lookup-insert_cases s t w.clients.next b w.clients.inner ht) [
    | inl (st, nb) ↦ elim (lookup-insert_cases s u w.clients.next b w.clients.inner hu) [
      | inl (su, _) ↦ sym st ∙ su
      | inr (_, old) ↦ absurd (omega (arith, x.exact u b old))
    ]
    | inr (_, old) ↦ elim (lookup-insert_cases s u w.clients.next b w.clients.inner hu) [
      | inl (_, nb) ↦ absurd (omega (arith, x.exact t b old))
      | inr (_, old') ↦ x.apart t u b old old'
    ]
  ]

  fresh-known :
      (g : Guard) → Knows w.clients.inner g → Knows (insert s w.clients.next w.clients.inner) g
  fresh-known g k =
      let differ : s ≢ g.session = λ e. cc (ap (λ t. lookup t w.clients.inner) e) in
      lookup-insert_ne s g.session w.clients.next w.clients.inner differ ∙ k

  fresh-IsExact : IsExact (record w { clients = fresh_entry w.clients s })
  unfolding fresh_entry
  fresh-IsExact = record {
    exact = fresh-exact;
    apart = fresh-apart;
    known =
        All-map (Knows w.clients.inner) (Knows (insert s w.clients.next w.clients.inner))
          fresh-known w.guards x.known;
  }

-- The entry for the session is the old one, or a new counter.
entry-IsExact :
    (w : World) (s : String) → IsExact w → IsExact (record w { clients = (entry w.clients s).0 })
unfolding entry fresh_entry
entry-IsExact w s x = elim (Option-cases (lookup s w.clients.inner)) [
  | inl fresh ↦ rw (fresh, entry) (fresh-IsExact w s x fresh)
  | inr (a, old) ↦ rw (old, entry) x
]

pub entry_known :
    (c : SessionClients) (s : String) → lookup s (entry c s).0.inner ≡ some (entry c s).1
unfolding entry
entry_known c s = elim (Option-cases (lookup s c.inner)) [
  | inl fresh ↦ rw (fresh, entry) (lookup-insert_self s c.next c.inner)
  | inr (a, old) ↦ rw (old, entry) old
]

add-IsExact :
    (w : World) (s : String) (a : ℕ)
    → IsExact w
    → lookup s w.clients.inner ≡ some a
    → IsExact (record {
      clients = fetch_add w.clients a;
      guards = record { session = s; counter = a } ∷ w.guards;
    })
add-IsExact w s a x k = record {
  exact = λ t b h. ground (arith, x.exact t b h, x.exact s a k);
  apart = x.apart;
  known = (k, x.known);
}

pub attach-IsExact : (w : World) (s : String) → IsExact w → IsExact (step w (attached s))
unfolding step attach
attach-IsExact w s x =
    add-IsExact (record w { clients = (entry w.clients s).0 }) s (entry w.clients s).1
      (entry-IsExact w s x) (entry_known w.clients s)

-- Dropping the i-th guard takes it from its own counter's holders, and from no other's.
holders-remove_at :
    (gs : List Guard) (i : ℕ) (g : Guard) (a : ℕ)
    → guard_at gs i ≡ some g
    → holders a gs ≡ holders a (remove_at gs i) + (if g.counter == a then 1 else 0)
holders-remove_at [] i g a h = cc
holders-remove_at (k ∷ gs) zero g a h = ground arith
holders-remove_at (k ∷ gs) (suc i) g a h = omega (arith, holders-remove_at gs i g a h)

module _ (P : Guard → Type 0) where
  pub All-guard_at : (gs : List Guard) (i : ℕ) (g : Guard) → guard_at gs i ≡ some g → All P gs → P g
  All-guard_at [] i g h k = cc
  All-guard_at (y ∷ gs) zero g h k = let e : y ≡ g = cc in subst P e k.0
  All-guard_at (y ∷ gs) (suc i) g h k = All-guard_at gs i g h k.1

  pub All-remove_at : (gs : List Guard) (i : ℕ) → All P gs → All P (remove_at gs i)
  All-remove_at [] i k = tt
  All-remove_at (y ∷ gs) zero k = k.1
  All-remove_at (y ∷ gs) (suc i) k = (k.0, All-remove_at gs i k.1)

pub drop-IsExact :
    (w : World) (i : ℕ) (g : Guard)
    → IsExact w
    → guard_at w.guards i ≡ some g
    → IsExact (record { clients = drop_guard w.clients g.counter; guards = remove_at w.guards i })
unfolding drop_guard
drop-IsExact w i g x h =
    let mine = All-guard_at (Knows w.clients.inner) w.guards i g h x.known in
    record {
      exact = λ t b k. ground (
        arith,
        x.exact t b k,
        x.exact g.session g.counter mine,
        holders-remove_at w.guards i g b h,
      );
      apart = x.apart;
      known = All-remove_at (Knows w.clients.inner) w.guards i x.known;
    }
