-- ===== src/Herdr/Layout/Ids.antt =====
-- The ids of a layout that herdr describes (muxrd/src/multiplexer/herdr/control.rs), against the
-- registries that later resolve them.
use zellimobile_server.Common.{ℕ, ◌≤◌, ◌<◌, String, Bool, List, [], ◌∷◌, some, ◌≡◌, ap, ◌∙◌, arith}
use zellimobile_server.Common.Map.{lookup, nat_key, string_key}
use zellimobile_server.Mux.{PaneSnapshot, TabSnapshot}
use zellimobile_server.Herdr.Registry.{
  PaneInner, TabInner, assign_or_get, refresh, assign_new, assign_or_get_tab, assign_new_tab,
  herdr_pane_id, herdr_tab_id, u32_max, u64_max,
}
use zellimobile_server.Herdr.Registry.Panes.{
  IsConsistent, assign-IsConsistent, assign-known, assign_lem,
}
use zellimobile_server.Herdr.Registry.Resolve.{resolve_known}
use zellimobile_server.Herdr.Registry.Tabs
use zellimobile_server.Herdr.Registry.Tabs.{assign_tab_lem}
use zellimobile_server.Herdr.Api.{TabInfo, PaneInfo, PaneLayoutPane, PaneLayoutSnapshot}
use zellimobile_server.Herdr.Layout.{
  assign_panes, terminal_of, pane_snapshot, pane_snapshots, zoomed_of, panes_of, tab_snapshots,
  index_panes, transcode_layout,
}

-- What a registry becomes as more is assigned.
record Grows (r R : PaneInner) : Type 0 where
  low : r.next_id ≤ R.next_id
  kept : IsConsistent r → R.next_id < u32_max → IsConsistent R
  known : (p : String) (id : ℕ) → lookup p r.by_herdr ≡ some id → lookup p R.by_herdr ≡ some id

refl-Grows : (r : PaneInner) → Grows r r
refl-Grows r = record { low = omega arith; kept = λ c h. c; known = λ p id h. h }

trans-Grows : {r s t : PaneInner} → Grows r s → Grows s t → Grows r t
trans-Grows g h = record {
  low = omega (arith, g.low, h.low);
  kept = λ c room. h.kept (g.kept c (omega (arith, h.low))) room;
  known = λ p id k. h.known p id (g.known p id k);
}

next_id-low :
    (r : PaneInner) (p terminal : String) → r.next_id ≤ (assign_or_get r p terminal).0.next_id
unfolding assign_or_get refresh assign_new
next_id-low r p terminal = ground arith

assign-Grows : (r : PaneInner) (p terminal : String) → Grows r (assign_or_get r p terminal).0
assign-Grows r p terminal = record {
  low = next_id-low r p terminal;
  kept = λ c room. assign-IsConsistent r p terminal (omega (arith, next_id-low r p terminal)) c;
  known = λ q id k. assign-known r p terminal q id k;
}

record GrowsTabs (r R : TabInner) : Type 0 where
  low : r.next_id ≤ R.next_id
  kept : Tabs.IsConsistent r → R.next_id < u64_max → Tabs.IsConsistent R
  known : (p : String) (id : ℕ) → lookup p r.by_herdr ≡ some id → lookup p R.by_herdr ≡ some id

trans-GrowsTabs : {r s t : TabInner} → GrowsTabs r s → GrowsTabs s t → GrowsTabs r t
trans-GrowsTabs g h = record {
  low = omega (arith, g.low, h.low);
  kept = λ c room. h.kept (g.kept c (omega (arith, h.low))) room;
  known = λ p id k. h.known p id (g.known p id k);
}

next_id-low_tab : (r : TabInner) (p : String) → r.next_id ≤ (assign_or_get_tab r p).0.next_id
unfolding assign_or_get_tab assign_new_tab
next_id-low_tab r p = ground arith

assign-GrowsTabs : (r : TabInner) (p : String) → GrowsTabs r (assign_or_get_tab r p).0
assign-GrowsTabs r p = record {
  low = next_id-low_tab r p;
  kept = λ c room. Tabs.assign-IsConsistent r p (omega (arith, next_id-low_tab r p)) c;
  known = λ q id k. Tabs.assign-known r p q id k;
}

-- Each pane that is shown has the id of its pane of the layout, in the same order.
abbrev pub Listed : PaneInner → List PaneLayoutPane → List PaneSnapshot → Type 0
Listed r [] [] = Unit {0}
Listed r (lp ∷ lps) (p ∷ ps) = (lookup lp.pane_id r.by_herdr ≡ some p.id) × Listed r lps ps
Listed r _ _ = ⊥

later-Listed :
    {r s : PaneInner} (lps : List PaneLayoutPane) (ps : List PaneSnapshot)
    → Grows r s
    → Listed r lps ps
    → Listed s lps ps
later-Listed [] [] g w = tt
later-Listed [] (p ∷ ps) g w = elim w [ ]
later-Listed (lp ∷ lps) [] g w = elim w [ ]
later-Listed (lp ∷ lps) (p ∷ ps) g (here, rest) =
    (g.known lp.pane_id p.id here, later-Listed lps ps g rest)

module _ (index : List (String × PaneInfo)) where
  snapshots-Listed :
      (zoomed : Bool) (r : PaneInner) (lps : List PaneLayoutPane)
      → let (r', ps) = pane_snapshots index zoomed r lps in Grows r r' × Listed r' lps ps
  unfolding pane_snapshots pane_snapshot
  snapshots-Listed zoomed r [] = (refl-Grows r, tt)
  snapshots-Listed zoomed r (lp ∷ lps) =
      let terminal : String = terminal_of (lookup lp.pane_id index) in
      let r' : PaneInner = (assign_or_get r lp.pane_id terminal).0 in
      let (grows, rest) = snapshots-Listed zoomed r' lps in
      (
        trans-Grows (assign-Grows r lp.pane_id terminal) grows,
        (grows.known lp.pane_id _ (assign_lem r lp.pane_id terminal), rest),
      )

assign_panes-Grows : (r : PaneInner) (ps : List PaneInfo) → Grows r (assign_panes r ps)
unfolding assign_panes
assign_panes-Grows r [] = refl-Grows r
assign_panes-Grows r (p ∷ ps) =
    trans-Grows (assign-Grows r p.pane_id p.terminal_id)
      (assign_panes-Grows (assign_or_get r p.pane_id p.terminal_id).0 ps)

module _ (index : List (String × PaneInfo)) (layouts : List (String × PaneLayoutSnapshot))
    (active : String) where
  -- The same of the tabs with their panes.
  abbrev pub ListedTabs : PaneInner → TabInner → List TabInfo → List TabSnapshot → Type 0
  ListedTabs r t [] [] = Unit {0}
  ListedTabs r t (tab ∷ tabs) (s ∷ ss) =
      (lookup tab.tab_id t.by_herdr ≡ some s.tab_id)
      × Listed r (panes_of (lookup tab.tab_id layouts)) s.panes
      × ListedTabs r t tabs ss
  ListedTabs r t _ _ = ⊥

  tabs-Listed :
      (r : PaneInner) (t : TabInner) (tabs : List TabInfo)
      → let ((r', t'), ss) = tab_snapshots index layouts active r t tabs in
        Grows r r' × GrowsTabs t t' × ListedTabs r' t' tabs ss
  unfolding tab_snapshots
  tabs-Listed r t [] =
      (refl-Grows r, record { low = omega arith; kept = λ c h. c; known = λ p id h. h }, tt)
  tabs-Listed r t (tab ∷ tabs) =
      let layout = lookup tab.tab_id layouts in
      let (r', panes) = pane_snapshots index (zoomed_of layout) r (panes_of layout) in
      let (grows, listed) = snapshots-Listed index (zoomed_of layout) r (panes_of layout) in
      let t' : TabInner = (assign_or_get_tab t tab.tab_id).0 in
      let (later, later_tabs, rest) = tabs-Listed r' t' tabs in
      (
        trans-Grows grows later,
        trans-GrowsTabs (assign-GrowsTabs t tab.tab_id) later_tabs,
        (
          later_tabs.known tab.tab_id _ (assign_tab_lem t tab.tab_id),
          later-Listed (panes_of layout) panes later listed,
          rest,
        ),
      )

-- Each pane that is shown resolves, by the id that it is shown with, to herdr's name of its pane of the
-- layout, in the same order.
abbrev pub Resolve : PaneInner → List PaneLayoutPane → List PaneSnapshot → Type 0
Resolve r [] [] = Unit {0}
Resolve r (lp ∷ lps) (p ∷ ps) = (herdr_pane_id r p.id ≡ some lp.pane_id) × Resolve r lps ps
Resolve r _ _ = ⊥

Listed-Resolve :
    (r : PaneInner) (lps : List PaneLayoutPane) (ps : List PaneSnapshot)
    → IsConsistent r
    → Listed r lps ps
    → Resolve r lps ps
Listed-Resolve r [] [] c w = tt
Listed-Resolve r [] (p ∷ ps) c w = elim w [ ]
Listed-Resolve r (lp ∷ lps) [] c w = elim w [ ]
Listed-Resolve r (lp ∷ lps) (p ∷ ps) c (here, rest) =
    (resolve_known r lp.pane_id p.id c here, Listed-Resolve r lps ps c rest)

-- The same of the tabs, each with the panes of its layout.
abbrev pub ResolveTabs :
    List (String × PaneLayoutSnapshot)
    → PaneInner
    → TabInner
    → List TabInfo
    → List TabSnapshot
    → Type 0
ResolveTabs layouts r t [] [] = Unit {0}
ResolveTabs layouts r t (tab ∷ tabs) (s ∷ ss) =
    (herdr_tab_id t s.tab_id ≡ some tab.tab_id)
    × Resolve r (panes_of (lookup tab.tab_id layouts)) s.panes
    × ResolveTabs layouts r t tabs ss
ResolveTabs layouts r t _ _ = ⊥

resolve_tab :
    (t : TabInner) (p : String) (id : ℕ)
    → Tabs.IsConsistent t
    → lookup p t.by_herdr ≡ some id
    → herdr_tab_id t id ≡ some p
unfolding herdr_tab_id
resolve_tab t p id c known =
    let (v, found, same) = c.linked.to_entry p id known in found ∙ ap some same

ListedTabs-ResolveTabs :
    (index : List (String × PaneInfo)) (layouts : List (String × PaneLayoutSnapshot))
    (active : String) (r : PaneInner) (t : TabInner) (tabs : List TabInfo) (ss : List TabSnapshot)
    → IsConsistent r
    → Tabs.IsConsistent t
    → ListedTabs index layouts active r t tabs ss
    → ResolveTabs layouts r t tabs ss
ListedTabs-ResolveTabs index layouts active r t [] [] c d w = tt
ListedTabs-ResolveTabs index layouts active r t [] (s ∷ ss) c d w = elim w [ ]
ListedTabs-ResolveTabs index layouts active r t (tab ∷ tabs) [] c d w = elim w [ ]
ListedTabs-ResolveTabs index layouts active r t (tab ∷ tabs) (s ∷ ss) c d (here, panes, rest) = (
  resolve_tab t tab.tab_id s.tab_id d here,
  Listed-Resolve r (panes_of (lookup tab.tab_id layouts)) s.panes c panes,
  ListedTabs-ResolveTabs index layouts active r t tabs ss c d rest,
)

-- The layout that is made of herdr's lists shows every tab, and every pane of its layout, in herdr's
-- order, with ids that the registries then resolve to herdr's own names; as long as the registries,
-- which were consistent before, have not reached the ends of their id spaces.
pub transcode_layout-ResolveTabs :
    (tabs : List TabInfo) (panes : List PaneInfo) (layouts : List (String × PaneLayoutSnapshot))
    (active : String) (r : PaneInner) (t : TabInner)
    → IsConsistent r
    → Tabs.IsConsistent t
    → let ((r', t'), snapshot) = transcode_layout tabs panes layouts active r t in
      r'.next_id < u32_max → t'.next_id < u64_max → ResolveTabs layouts r' t' tabs snapshot.tabs
unfolding transcode_layout
transcode_layout-ResolveTabs tabs panes layouts active r t c d room room_tabs =
    let index = index_panes panes [] in
    let before : PaneInner = assign_panes r panes in
    let ((r', t'), ss) = tab_snapshots index layouts active before t tabs in
    let (grows, grows_tabs, listed) = tabs-Listed index layouts active before t tabs in
    ListedTabs-ResolveTabs index layouts active r' t' tabs ss
      ((trans-Grows (assign_panes-Grows r panes) grows).kept c room) (grows_tabs.kept d room_tabs)
      listed
