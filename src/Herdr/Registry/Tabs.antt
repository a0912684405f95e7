-- ===== src/Herdr/Registry/Tabs.antt =====
-- The tab registry of muxrd/src/multiplexer/herdr/registry.rs: ids that resolve and stay.
use zellimobile_server.Common.{
  ℕ, ◌+◌, ◌≤◌, ◌<◌, String, ◌≡◌, refl, sym, ap, ◌∙◌, ◌≢◌, List, [], ◌∷◌, some, arith, inl, inr,
  Option-cases, subst, length,
}
use zellimobile_server.Common.Map.{
  lookup, insert, lookup-insert_self, lookup-insert_ne, nat_key, string_key,
}
use zellimobile_server.Herdr.Registry.{
  u64_max, advance, TabInner, new_tabs, assign_new_tab, assign_or_get_tab, herdr_tab_id, see_tabs,
}
use zellimobile_server.Herdr.Registry.Table.{IsLinked, empty-IsLinked, extend-IsLinked}

abbrev pub tab_name : String → String
tab_name tab = tab

pub record IsConsistent (r : TabInner) : Type 0 where
  pub linked : IsLinked tab_name r.next_id r.by_herdr r.by_id
  pub from_one : 1 ≤ r.next_id

pub new-IsConsistent : IsConsistent new_tabs
new-IsConsistent = record { linked = empty-IsLinked tab_name; from_one = omega arith }

pub assign-IsConsistent :
    (r : TabInner) (tab : String)
    → r.next_id < u64_max
    → IsConsistent r
    → IsConsistent (assign_or_get_tab r tab).0
unfolding assign_or_get_tab assign_new_tab
assign-IsConsistent r tab room c = elim (Option-cases (lookup tab r.by_herdr)) [
  | inr (id, known) ↦ rw (known, assign_or_get_tab) c
  | inl fresh ↦
      let step : advance u64_max r.next_id ≡ r.next_id + 1 = ground arith in
      rw (fresh, assign_or_get_tab)
        (record {
          linked =
              subst
                (λ n.
                  IsLinked tab_name n (insert tab r.next_id r.by_herdr)
                    (insert r.next_id tab r.by_id))
                (sym step) (extend-IsLinked tab_name c.linked tab tab c.from_one refl fresh);
          from_one = ground (arith, c.from_one);
        })
]

next_id-assign : (r : TabInner) (tab : String) → (assign_or_get_tab r tab).0.next_id ≤ r.next_id + 1
unfolding assign_or_get_tab assign_new_tab
next_id-assign r tab = ground arith

next_id-see_tabs :
    (r : TabInner) (ts : List String) → (see_tabs r ts).next_id ≤ r.next_id + length ts
unfolding see_tabs
next_id-see_tabs r [] = omega arith
next_id-see_tabs r (tab ∷ ts) =
    omega (arith, next_id-assign r tab, next_id-see_tabs (assign_or_get_tab r tab).0 ts)

see_tabs-IsConsistent :
    (r : TabInner) (ts : List String)
    → r.next_id + length ts ≤ u64_max
    → IsConsistent r
    → IsConsistent (see_tabs r ts)
unfolding see_tabs
see_tabs-IsConsistent r [] room c = c
see_tabs-IsConsistent r (tab ∷ ts) room c =
    see_tabs-IsConsistent (assign_or_get_tab r tab).0 ts (omega (arith, next_id-assign r tab))
      (assign-IsConsistent r tab (omega arith) c)

-- A known tab stays known under its id.
pub assign-known :
    (r : TabInner) (t p : String) (id : ℕ)
    → lookup p r.by_herdr ≡ some id
    → lookup p (assign_or_get_tab r t).0.by_herdr ≡ some id
unfolding assign_or_get_tab assign_new_tab
assign-known r t p id known = elim (Option-cases (lookup t r.by_herdr)) [
  | inl fresh ↦
      let differ : t ≢ p = λ e. cc (ap (λ x. lookup x r.by_herdr) e) in
      rw (fresh, assign_or_get_tab) (lookup-insert_ne t p r.next_id r.by_herdr differ ∙ known)
  | inr (j, old) ↦ rw (old, assign_or_get_tab) known
]

see_tabs-known :
    (r : TabInner) (ts : List String) (p : String) (id : ℕ)
    → lookup p r.by_herdr ≡ some id
    → lookup p (see_tabs r ts).by_herdr ≡ some id
unfolding see_tabs
see_tabs-known r [] p id known = known
see_tabs-known r (t ∷ ts) p id known =
    see_tabs-known (assign_or_get_tab r t).0 ts p id (assign-known r t p id known)

pub assign_tab_lem :
    (r : TabInner) (p : String)
    → lookup p (assign_or_get_tab r p).0.by_herdr ≡ some (assign_or_get_tab r p).1
unfolding assign_or_get_tab assign_new_tab
assign_tab_lem r p = elim (Option-cases (lookup p r.by_herdr)) [
  | inl fresh ↦ rw (fresh, assign_or_get_tab) (lookup-insert_self p r.next_id r.by_herdr)
  | inr (j, old) ↦ rw (old, assign_or_get_tab) old
]

known-assign :
    (r : TabInner) (p : String) (id : ℕ)
    → lookup p r.by_herdr ≡ some id
    → (assign_or_get_tab r p).1 ≡ id
unfolding assign_or_get_tab
known-assign r p id known = rw (known, assign_or_get_tab)

-- The id that a tab is given resolves to that tab from then on, after any later polls that the id
-- space has room for, and the tab gets the same id again.
pub herdr_tab_id-assign :
    (before after : List String) (tab : String)
    → 2 + length before + length after ≤ u64_max
    → let (r, id) = assign_or_get_tab (see_tabs new_tabs before) tab in
      (herdr_tab_id (see_tabs r after) id ≡ some tab)
      × ((assign_or_get_tab (see_tabs r after) tab).1 ≡ id)
unfolding herdr_tab_id
herdr_tab_id-assign before after tab room =
    let r = see_tabs new_tabs before in
    let c = see_tabs-IsConsistent new_tabs before (omega arith) new-IsConsistent in
    let low : r.next_id ≤ 1 + length before = next_id-see_tabs new_tabs before in
    let r' = (assign_or_get_tab r tab).0 in
    let c' = assign-IsConsistent r tab (omega arith) c in
    let later = see_tabs-IsConsistent r' after (omega (arith, next_id-assign r tab)) c' in
    let known = see_tabs-known r' after tab _ (assign_tab_lem r tab) in
    let (t, found, same) = later.linked.to_entry tab _ known in
    (found ∙ ap some same, known-assign (see_tabs r' after) tab _ known)
