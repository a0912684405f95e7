-- ===== src/Herdr/Layout.antt =====
-- muxrd/src/multiplexer/herdr/control.rs: `query_layout`, from herdr's lists and layouts to the neutral
-- snapshot.
pub mod Ids
use zellimobile_server.Common.{
  ℕ, ◌%◌, ◌^◌, String, Bool, false, List, [], ◌∷◌, Option, none, some, str_eq, if◌then◌else◌,
}
use zellimobile_server.Common.Map.{lookup, insert, string_key}
use zellimobile_server.Mux.{PaneSnapshot, TabSnapshot, LayoutSnapshot, Outcome, ok, failed}
use zellimobile_server.Herdr.Registry.{PaneInner, assign_or_get, TabInner, assign_or_get_tab}
use zellimobile_server.Herdr.Api.{
  WorkspaceInfo, TabInfo, PaneInfo, PaneLayoutPane, PaneLayoutSnapshot, ApiRequest, ApiResponseBody,
}
use zellimobile_server.Herdr.Control.{
  Control, Ran, and_then, list_workspaces, list_tabs, list_panes, pane_layout,
}

-- `info_by_pane`, of which the last entry of a pane counts.
unfoldable pub index_panes : List PaneInfo → List (String × PaneInfo) → List (String × PaneInfo)
index_panes [] index = index
index_panes (p ∷ ps) index = index_panes ps (insert p.pane_id p index)

unfoldable pub assign_panes : PaneInner → List PaneInfo → PaneInner
assign_panes r [] = r
assign_panes r (p ∷ ps) = assign_panes (assign_or_get r p.pane_id p.terminal_id).0 ps

abbrev pub terminal_of : Option PaneInfo → String
terminal_of none = ""
terminal_of (some i) = i.terminal_id

abbrev pub or_text : Option String → Option String → String
or_text (some a) b = a
or_text none (some b) = b
or_text none none = ""

abbrev pub title_of : Option PaneInfo → String
title_of none = ""
title_of (some i) = or_text i.title i.label

abbrev pub cwd_of : Option PaneInfo → String
cwd_of none = ""
cwd_of (some i) = or_text i.cwd none

-- One pane of a layout. A `u16` fits into a `u32`.
unfoldable pub pane_snapshot :
    List (String × PaneInfo) → Bool → PaneInner → PaneLayoutPane → PaneInner × PaneSnapshot
pane_snapshot index zoomed r lp =
    let info : Option PaneInfo = lookup lp.pane_id index in
    let (r', id) = assign_or_get r lp.pane_id (terminal_of info) in
    (
      r',
      record {
        id = id;
        title = title_of info;
        is_focused = lp.focused;
        is_floating = false;
        exited = false;
        command = "";
        cwd = cwd_of info;
        x = lp.rect.x;
        y = lp.rect.y;
        rows = lp.rect.height;
        cols = lp.rect.width;
        is_plugin = false;
        is_fullscreen = zoomed;
      },
    )

unfoldable pub pane_snapshots :
    List (String × PaneInfo)
    → Bool
    → PaneInner
    → List PaneLayoutPane
    → PaneInner × List PaneSnapshot
unfolding pane_snapshot
pane_snapshots index zoomed r [] = (r, [])
pane_snapshots index zoomed r (lp ∷ lps) =
    let (r', p) = pane_snapshot index zoomed r lp in
    let (r'', ps) = pane_snapshots index zoomed r' lps in (r'', p ∷ ps)

abbrev pub zoomed_of : Option PaneLayoutSnapshot → Bool
zoomed_of none = false
zoomed_of (some l) = l.zoomed

abbrev pub panes_of : Option PaneLayoutSnapshot → List PaneLayoutPane
panes_of none = []
panes_of (some l) = l.panes

module _ (index : List (String × PaneInfo)) (layouts : List (String × PaneLayoutSnapshot))
    (active : String) where
  -- The tabs in order; `number` is a `usize` that is cast to a `u32`.
  unfoldable pub tab_snapshots :
      PaneInner → TabInner → List TabInfo → (PaneInner × TabInner) × List TabSnapshot
  unfolding pane_snapshots
  tab_snapshots r t [] = ((r, t), [])
  tab_snapshots r t (tab ∷ tabs) =
      let layout : Option PaneLayoutSnapshot = lookup tab.tab_id layouts in
      let (t', id) = assign_or_get_tab t tab.tab_id in
      let (r', panes) = pane_snapshots index (zoomed_of layout) r (panes_of layout) in
      let (regs, rest) = tab_snapshots r' t' tabs in
      (
        regs,
        record {
          tab_id = id;
          position = tab.number % 2 ^ 32;
          name = tab.label;
          active = str_eq tab.tab_id active;
          has_bell = false;
          panes_to_hide = 0;
          fullscreen_active = zoomed_of layout;
          floating_panes_visible = false;
          panes = panes;
        }
            ∷ rest,
      )

-- `transcode_layout`
unfoldable pub transcode_layout :
    List TabInfo
    → List PaneInfo
    → List (String × PaneLayoutSnapshot)
    → String
    → PaneInner
    → TabInner
    → (PaneInner × TabInner) × LayoutSnapshot
unfolding index_panes assign_panes tab_snapshots
transcode_layout tabs panes layouts active r t =
    let (regs, snaps) =
      tab_snapshots (index_panes panes []) layouts active (assign_panes r panes) t tabs in
    (regs, record { tabs = snaps })

-- The workspace's active tab, or none.
unfoldable pub active_tab_of : String → List WorkspaceInfo → String
active_tab_of workspace [] = ""
active_tab_of workspace (w ∷ ws) =
    if str_eq w.workspace_id workspace then w.active_tab_id else active_tab_of workspace ws

-- The first pane of a tab.
unfoldable pub representative : String → List PaneInfo → Option String
representative tab [] = none
representative tab (p ∷ ps) = if str_eq p.tab_id tab then some p.pane_id else representative tab ps

module _ (daemon : ℕ → ApiRequest → Outcome ApiResponseBody) where
  -- The layouts of the tabs, each asked by a pane of it, and kept by the tab that the answer names.
  unfoldable pub tab_layouts :
      List PaneInfo
      → List TabInfo
      → List (String × PaneLayoutSnapshot)
      → Control
      → Ran (List (String × PaneLayoutSnapshot))
  unfolding pane_layout representative
  tab_layouts panes [] found s = (s, ok found)
  tab_layouts panes (tab ∷ tabs) found s = elim (lookup tab.tab_id found) [
    | some _ ↦ tab_layouts panes tabs found s
    | none ↦ elim (representative tab.tab_id panes) [
      | none ↦ tab_layouts panes tabs found s
      | some pane ↦
          and_then (pane_layout daemon (some pane) s)
            (λ s' l. tab_layouts panes tabs (insert l.tab_id l found) s')
    ]
  ]

  -- With what was gathered.
  abbrev pub transcoded :
      List TabInfo
      → List PaneInfo
      → String
      → Control
      → List (String × PaneLayoutSnapshot)
      → Ran LayoutSnapshot
  unfolding transcode_layout
  transcoded tabs panes active s layouts =
      let (regs, snapshot) = transcode_layout tabs panes layouts active s.panes s.tabs in
      (record s { panes = regs.0; tabs = regs.1 }, ok snapshot)

  -- `query_layout`
  unfoldable pub query_layout : String → Control → Ran LayoutSnapshot
  unfolding list_workspaces list_tabs list_panes tab_layouts transcode_layout active_tab_of
  query_layout workspace s = and_then (list_workspaces daemon s) (λ s1 workspaces.
      and_then (list_tabs daemon workspace s1) (λ s2 tabs.
        and_then (list_panes daemon workspace s2) (λ s3 panes.
          and_then (tab_layouts panes tabs [] s3)
            (transcoded tabs panes (active_tab_of workspace workspaces)))))
