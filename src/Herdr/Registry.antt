-- ===== src/Herdr/Registry.antt =====
-- muxrd/src/multiplexer/herdr/registry.rs: numeric ids for herdr's pane and tab names. The mutexes
-- are not modelled: each operation holds its lock from start to end, so the calls are a sequence.
pub mod Table
pub mod Panes
pub mod Resolve
pub mod Tabs
use zellimobile_server.Common.{
  ℕ, ◌+◌, ◌-◌, ◌^◌, String, List, [], ◌∷◌, Option, none, some, ltb, str_eq, if◌then◌else◌,
}
use zellimobile_server.Common.Map.{lookup, insert, nat_key, string_key}

-- `FIRST_ID`
abbrev pub first_id : ℕ
first_id = 1

abbrev pub u32_max : ℕ
u32_max = 2 ^ 32 - 1

abbrev pub u64_max : ℕ
u64_max = 2 ^ 64 - 1

-- `checked_add(1)`, and the id space pinned at its end.
abbrev pub advance : ℕ → ℕ → ℕ
advance most n = if ltb n most then n + 1 else n

pub record PaneEntry : Type 0 where
  pub herdr_pane_id : String
  pub terminal_id : String

pub record PaneInner : Type 0 where
  pub next_id : ℕ
  pub by_herdr : List (String × ℕ)
  pub by_id : List (ℕ × PaneEntry)

-- `HerdrPaneRegistry::new`
abbrev pub new_panes : PaneInner
new_panes = record { next_id = first_id; by_herdr = []; by_id = [] }

-- The terminal of a known pane, where herdr reports a new one.
unfoldable pub refresh : PaneInner → ℕ → String → PaneInner
refresh r id terminal = elim (lookup id r.by_id) [
  | none ↦ r
  | some entry ↦
      if str_eq entry.terminal_id terminal
      then r
      else record r { by_id = insert id (record entry { terminal_id = terminal }) r.by_id }
]

unfoldable pub assign_new : PaneInner → String → String → PaneInner
assign_new r pane terminal = record r {
  next_id = advance u32_max r.next_id;
  by_herdr = insert pane r.next_id r.by_herdr;
  by_id = insert r.next_id (record { herdr_pane_id = pane; terminal_id = terminal }) r.by_id;
}

-- `HerdrPaneRegistry::assign_or_get`
unfoldable pub assign_or_get : PaneInner → String → String → PaneInner × ℕ
unfolding refresh assign_new
assign_or_get r pane terminal = elim (lookup pane r.by_herdr) [
  | some id ↦ (refresh r id terminal, id)
  | none ↦ (assign_new r pane terminal, r.next_id)
]

unfoldable pub herdr_pane_id : PaneInner → ℕ → Option String
herdr_pane_id r id = elim (lookup id r.by_id) [ none ↦ none | some e ↦ some e.herdr_pane_id ]

unfoldable pub terminal_id : PaneInner → ℕ → Option String
terminal_id r id = elim (lookup id r.by_id) [ none ↦ none | some e ↦ some e.terminal_id ]

-- Polls of the layout: panes with their terminals, in the order in which they are seen.
unfoldable pub see_panes : PaneInner → List (String × String) → PaneInner
see_panes r [] = r
see_panes r ((pane, terminal) ∷ rest) = see_panes (assign_or_get r pane terminal).0 rest

pub record TabInner : Type 0 where
  pub next_id : ℕ
  pub by_herdr : List (String × ℕ)
  pub by_id : List (ℕ × String)

-- `HerdrTabRegistry::new`
abbrev pub new_tabs : TabInner
new_tabs = record { next_id = first_id; by_herdr = []; by_id = [] }

unfoldable pub assign_new_tab : TabInner → String → TabInner
assign_new_tab r tab = record r {
  next_id = advance u64_max r.next_id;
  by_herdr = insert tab r.next_id r.by_herdr;
  by_id = insert r.next_id tab r.by_id;
}

-- `HerdrTabRegistry::assign_or_get`
unfoldable pub assign_or_get_tab : TabInner → String → TabInner × ℕ
unfolding assign_new_tab
assign_or_get_tab r tab = elim (lookup tab r.by_herdr) [
  | some id ↦ (r, id)
  | none ↦ (assign_new_tab r tab, r.next_id)
]

unfoldable pub herdr_tab_id : TabInner → ℕ → Option String
herdr_tab_id r id = lookup id r.by_id

unfoldable pub see_tabs : TabInner → List String → TabInner
see_tabs r [] = r
see_tabs r (tab ∷ rest) = see_tabs (assign_or_get_tab r tab).0 rest
