-- ===== src/Herdr/Registry/Resolve.antt =====
-- What the ids of muxrd/src/multiplexer/herdr/registry.rs resolve to: their pane and its terminal,
-- and what becomes of them past the end of the id space.
use zellimobile_server.Common.{
  ℕ, ◌+◌, ◌≤◌, String, ◌≡◌, sym, ap, ◌∙◌, ◌≢◌, List, none, some, arith, inl, inr, Bool-cases,
  Option-cases, eq_iff, str_eq, subst, length,
}
use zellimobile_server.Common.Map.{
  lookup, insert, lookup-insert_self, lookup-insert_ne, nat_key, string_key,
}
use zellimobile_server.Herdr.Registry.{
  PaneEntry, PaneInner, new_panes, refresh, assign_new, assign_or_get, herdr_pane_id, terminal_id,
  see_panes, u32_max, advance,
}
use zellimobile_server.Herdr.Registry.Panes.{
  IsConsistent, new-IsConsistent, next_id-assign, next_id-see_panes, see_panes-IsConsistent,
  see_panes-known, assign_lem, assign-IsConsistent,
}

pub resolve_known :
    (r : PaneInner) (p : String) (id : ℕ)
    → IsConsistent r
    → lookup p r.by_herdr ≡ some id
    → herdr_pane_id r id ≡ some p
unfolding herdr_pane_id
resolve_known r p id c known =
    let (v, found, same) = c.linked.to_entry p id known in rw (found, herdr_pane_id) (ap some same)

-- The id that a poll gives a pane resolves to that pane, then and after any later polls that the
-- id space has room for.
pub herdr_pane_id-assign :
    (before after : List (String × String)) (pane terminal : String)
    → 2 + length before + length after ≤ u32_max
    → let r = see_panes new_panes before in
      let (r', id) = assign_or_get r pane terminal in
      herdr_pane_id (see_panes r' after) id ≡ some pane
herdr_pane_id-assign before after pane terminal room =
    let r = see_panes new_panes before in
    let c = see_panes-IsConsistent new_panes before (omega arith) new-IsConsistent in
    let low : r.next_id ≤ 1 + length before = next_id-see_panes new_panes before in
    let r' = (assign_or_get r pane terminal).0 in
    let c' = assign-IsConsistent r pane terminal (omega arith) c in
    let later =
      see_panes-IsConsistent r' after (omega (arith, next_id-assign r pane terminal)) c' in
    resolve_known (see_panes r' after) pane _ later
      (see_panes-known r' after pane _ (assign_lem r pane terminal))

refresh_terminal :
    (r : PaneInner) (id : ℕ) (terminal : String) (e : PaneEntry)
    → lookup id r.by_id ≡ some e
    → terminal_id (refresh r id terminal) id ≡ some terminal
unfolding refresh terminal_id
refresh_terminal r id terminal e found = elim (Bool-cases (str_eq e.terminal_id terminal)) [
  | inl same ↦
      rw (found, refresh)
        (rw same (rw (found, terminal_id) (ap some ((eq_iff e.terminal_id terminal).0 same))))
  | inr other ↦
      rw (found, refresh)
        (rw other
          (rw (lookup-insert_self id (record e { terminal_id = terminal }) r.by_id, terminal_id)))
]

assigned_terminal :
    (r : PaneInner) (pane terminal : String)
    → IsConsistent r
    → terminal_id (assign_or_get r pane terminal).0 (assign_or_get r pane terminal).1
      ≡ some terminal
unfolding assign_or_get assign_new
assigned_terminal r pane terminal c = elim (Option-cases (lookup pane r.by_herdr)) [
  | inl fresh ↦
      let e : PaneEntry = record { herdr_pane_id = pane; terminal_id = terminal } in
      rw (fresh, assign_or_get)
        (unfold terminal_id in rw (lookup-insert_self r.next_id e r.by_id, terminal_id))
  | inr (id, known) ↦
      let (e, found, _) = c.linked.to_entry pane id known in
      rw (known, assign_or_get) (refresh_terminal r id terminal e found)
]

-- After a poll the id's terminal is the one that was reported, whether the pane is new or known.
pub terminal_id-assign :
    (ps : List (String × String)) (pane terminal : String)
    → 1 + length ps ≤ u32_max
    → let (r', id) = assign_or_get (see_panes new_panes ps) pane terminal in
      terminal_id r' id ≡ some terminal
terminal_id-assign ps pane terminal room =
    assigned_terminal (see_panes new_panes ps) pane terminal
      (see_panes-IsConsistent new_panes ps room new-IsConsistent)

assign_fresh :
    (r : PaneInner) (p terminal : String)
    → lookup p r.by_herdr ≡ none
    → assign_or_get r p terminal ≡ (assign_new r p terminal, r.next_id)
unfolding assign_or_get
assign_fresh r p terminal fresh = rw (fresh, assign_or_get)

pinned_lookup :
    (r : PaneInner) (p q s t : String)
    → advance u32_max r.next_id ≡ r.next_id
    → herdr_pane_id (assign_new (assign_new r p s) q t) r.next_id ≡ some q
unfolding assign_new herdr_pane_id
pinned_lookup r p q s t pinned =
    let entry : PaneEntry = record { herdr_pane_id = q; terminal_id = t } in
    let m = (assign_new r p s).by_id in
    let found : lookup r.next_id (insert (advance u32_max r.next_id) entry m) ≡ some entry =
      subst (λ n. lookup r.next_id (insert n entry m) ≡ some entry) (sym pinned)
        (lookup-insert_self r.next_id entry m) in
    rw (found, herdr_pane_id)

-- Past the end of the id space two new panes get one id, which then names only the second.
pub exhausted_alias :
    (r : PaneInner) (p q s t : String)
    → r.next_id ≡ u32_max
    → lookup p r.by_herdr ≡ none
    → lookup q r.by_herdr ≡ none
    → p ≢ q
    → let (r₁, id) = assign_or_get r p s in
      let (r₂, id') = assign_or_get r₁ q t in (id' ≡ id) × (herdr_pane_id r₂ id ≡ some q)
unfolding assign_new
exhausted_alias r p q s t full hp hq differ =
    let pinned : advance u32_max r.next_id ≡ r.next_id = ground arith in
    let hq' : lookup q (insert p r.next_id r.by_herdr) ≡ none =
      lookup-insert_ne p q r.next_id r.by_herdr differ ∙ hq in
    rw (assign_fresh r p s hp)
      (rw (assign_fresh (assign_new r p s) q t hq') (pinned, pinned_lookup r p q s t pinned))
