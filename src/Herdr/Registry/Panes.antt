-- ===== src/Herdr/Registry/Panes.antt =====
-- The pane registry of muxrd/src/multiplexer/herdr/registry.rs: ids are stable, distinct, at least
-- 1, and resolve to their pane, as long as the id space lasts.
use zellimobile_server.Common.{
  ℕ, ◌+◌, ◌≤◌, ◌<◌, String, ◌≡◌, refl, sym, ap, ◌∙◌, ◌≢◌, List, [], ◌∷◌, none, some, arith, inl,
  inr, Bool-cases, Option-cases, str_eq, subst, length,
}
use zellimobile_server.Common.Map.{
  lookup, insert, lookup-insert_self, lookup-insert_ne, nat_key, string_key,
}
use zellimobile_server.Herdr.Registry.{
  PaneEntry, PaneInner, new_panes, refresh, assign_new, assign_or_get, see_panes, u32_max, advance,
}
use zellimobile_server.Herdr.Registry.Table.{
  IsLinked, empty-IsLinked, IsLinked-injective, extend-IsLinked, replace-IsLinked,
}

abbrev pub pane_name : PaneEntry → String
pane_name e = e.herdr_pane_id

pub record IsConsistent (r : PaneInner) : Type 0 where
  pub linked : IsLinked pane_name r.next_id r.by_herdr r.by_id
  pub from_one : 1 ≤ r.next_id

pub new-IsConsistent : IsConsistent new_panes
new-IsConsistent = record { linked = empty-IsLinked pane_name; from_one = omega arith }

refresh-IsConsistent :
    (r : PaneInner) (id : ℕ) (terminal : String)
    → IsConsistent r
    → IsConsistent (refresh r id terminal)
unfolding refresh
refresh-IsConsistent r id terminal c = elim (Option-cases (lookup id r.by_id)) [
  | inl missing ↦ rw (missing, refresh) c
  | inr (entry, found) ↦ elim (Bool-cases (str_eq entry.terminal_id terminal)) [
    | inl same ↦ rw (found, refresh) (rw same c)
    | inr other ↦
        rw (found, refresh)
          (rw other (record {
            linked =
                replace-IsLinked pane_name c.linked id entry
                  (record entry { terminal_id = terminal }) found refl;
            from_one = c.from_one;
          }))
  ]
]

assign_new-IsConsistent :
    (r : PaneInner) (pane terminal : String)
    → lookup pane r.by_herdr ≡ none
    → r.next_id < u32_max
    → IsConsistent r
    → IsConsistent (assign_new r pane terminal)
unfolding assign_new
assign_new-IsConsistent r pane terminal fresh room c =
    let step : advance u32_max r.next_id ≡ r.next_id + 1 = ground arith in
    record {
      linked =
          subst
            (λ n.
              IsLinked pane_name n (insert pane r.next_id r.by_herdr) (
                insert r.next_id (record { herdr_pane_id = pane; terminal_id = terminal }) r.by_id))
            (sym step)
            (extend-IsLinked pane_name c.linked pane
              (record { herdr_pane_id = pane; terminal_id = terminal }) c.from_one refl fresh);
      from_one = ground (arith, c.from_one);
    }

-- A poll keeps the tables each other's inverse, unless it takes the last id.
pub assign-IsConsistent :
    (r : PaneInner) (pane terminal : String)
    → r.next_id < u32_max
    → IsConsistent r
    → IsConsistent (assign_or_get r pane terminal).0
unfolding assign_or_get
assign-IsConsistent r pane terminal room c = elim (Option-cases (lookup pane r.by_herdr)) [
  | inl fresh ↦ rw (fresh, assign_or_get) (assign_new-IsConsistent r pane terminal fresh room c)
  | inr (id, known) ↦ rw (known, assign_or_get) (refresh-IsConsistent r id terminal c)
]

pub next_id-assign :
    (r : PaneInner) (pane terminal : String)
    → (assign_or_get r pane terminal).0.next_id ≤ r.next_id + 1
unfolding assign_or_get refresh assign_new
next_id-assign r pane terminal = ground arith

pub next_id-see_panes :
    (r : PaneInner) (ps : List (String × String)) → (see_panes r ps).next_id ≤ r.next_id + length ps
unfolding see_panes
next_id-see_panes r [] = omega arith
next_id-see_panes r ((pane, terminal) ∷ ps) =
    omega (
      arith,
      next_id-assign r pane terminal,
      next_id-see_panes (assign_or_get r pane terminal).0 ps,
    )

pub see_panes-IsConsistent :
    (r : PaneInner) (ps : List (String × String))
    → r.next_id + length ps ≤ u32_max
    → IsConsistent r
    → IsConsistent (see_panes r ps)
unfolding see_panes
see_panes-IsConsistent r [] room c = c
see_panes-IsConsistent r ((pane, terminal) ∷ ps) room c =
    see_panes-IsConsistent (assign_or_get r pane terminal).0 ps
      (omega (arith, next_id-assign r pane terminal))
      (assign-IsConsistent r pane terminal (omega arith) c)

by_herdr-refresh :
    (r : PaneInner) (id : ℕ) (terminal : String) → (refresh r id terminal).by_herdr ≡ r.by_herdr
unfolding refresh
by_herdr-refresh r id terminal = ground arith

-- A known pane stays known under its id.
pub assign-known :
    (r : PaneInner) (q terminal p : String) (id : ℕ)
    → lookup p r.by_herdr ≡ some id
    → lookup p (assign_or_get r q terminal).0.by_herdr ≡ some id
unfolding assign_or_get assign_new
assign-known r q terminal p id known = elim (Option-cases (lookup q r.by_herdr)) [
  | inl fresh ↦
      let differ : q ≢ p = λ e. cc (ap (λ x. lookup x r.by_herdr) e) in
      rw (fresh, assign_or_get) (lookup-insert_ne q p r.next_id r.by_herdr differ ∙ known)
  | inr (j, old) ↦ rw (old, assign_or_get) (rw (by_herdr-refresh r j terminal) known)
]

pub see_panes-known :
    (r : PaneInner) (ps : List (String × String)) (p : String) (id : ℕ)
    → lookup p r.by_herdr ≡ some id
    → lookup p (see_panes r ps).by_herdr ≡ some id
unfolding see_panes
see_panes-known r [] p id known = known
see_panes-known r ((q, terminal) ∷ ps) p id known =
    see_panes-known (assign_or_get r q terminal).0 ps p id (assign-known r q terminal p id known)

pub assign_lem :
    (r : PaneInner) (p terminal : String)
    → lookup p (assign_or_get r p terminal).0.by_herdr ≡ some (assign_or_get r p terminal).1
unfolding assign_or_get assign_new
assign_lem r p terminal = elim (Option-cases (lookup p r.by_herdr)) [
  | inl fresh ↦ rw (fresh, assign_or_get) (lookup-insert_self p r.next_id r.by_herdr)
  | inr (j, old) ↦ rw (old, assign_or_get) (rw (by_herdr-refresh r j terminal) old)
]

known-assign :
    (r : PaneInner) (p terminal : String) (id : ℕ)
    → lookup p r.by_herdr ≡ some id
    → (assign_or_get r p terminal).1 ≡ id
unfolding assign_or_get
known-assign r p terminal id known = rw (known, assign_or_get)

-- A pane that has an id keeps it: however many polls come between, and whatever terminals are
-- reported, also past the end of the id space.
pub assign-stable :
    (r : PaneInner) (pane first later : String) (ps : List (String × String))
    → (assign_or_get (see_panes (assign_or_get r pane first).0 ps) pane later).1
      ≡ (assign_or_get r pane first).1
assign-stable r pane first later ps =
    known-assign _ pane later _ (see_panes-known _ ps pane _ (assign_lem r pane first))

-- From an empty registry, after any polls that the id space has room for: two panes with one id
-- are one pane, and the id is at least 1.
pub ids_distinct :
    (ps : List (String × String)) (p q : String) (id : ℕ)
    → 1 + length ps ≤ u32_max
    → lookup p (see_panes new_panes ps).by_herdr ≡ some id
    → lookup q (see_panes new_panes ps).by_herdr ≡ some id
    → (p ≡ q) × (1 ≤ id)
ids_distinct ps p q id room hp hq =
    let c = see_panes-IsConsistent new_panes ps room new-IsConsistent in
    let (v, found, _) = c.linked.to_entry p id hp in
    (IsLinked-injective pane_name c.linked p q id hp hq, (c.linked.in_order id v found).0)
