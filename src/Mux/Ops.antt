-- ===== src/Mux/Ops.antt =====
-- muxrd/src/multiplexer/mod.rs: the operations of `MuxBackend` that the services call, as data, and
-- what they return.
use zellimobile_server.Common.{ℕ, String, Bool, List, Option}
use zellimobile_server.Mux.{PaneRef}

pub data ResizeKind : Type 0 where
  increase decrease : ResizeKind

pub data ResizeDir : Type 0 where
  left right up down : ResizeDir

-- `ScrollDir` of muxrd/src/actions.rs
pub data ScrollDir : Type 0 where
  line_up line_down to_top to_bottom page_up page_down half_page_up half_page_down : ScrollDir

-- `ActionAck` of muxrd/src/actions.rs
pub record ActionAck : Type 0 where
  pub ok : Bool
  pub error : Option String
  pub info : Option String

pub data Op : Type 0 where
  new_tab : (session : String) (name : Option String) → Op
  close_tab : (session : String) (tab_id : ℕ) → Op
  go_to_tab : (session : String) (tab_id : ℕ) → Op
  rename_tab : (session : String) (tab_id : ℕ) (name : String) → Op
  write_to_pane : (session : String) (pane : PaneRef) (bytes : List ℕ) → Op
  focus_pane : (session : String) (pane : PaneRef) → Op
  close_pane : (session : String) (pane : PaneRef) → Op
  new_pane : (session : String) (floating : Bool) (name : Option String) → Op
  rename_pane : (session : String) (pane : PaneRef) (name : String) → Op
  resize_pane :
      (session : String) (pane : PaneRef) (kind : ResizeKind) (dir : Option ResizeDir) → Op
  toggle_pane_floating : (session : String) (pane : PaneRef) → Op
  toggle_pane_fullscreen : (session : String) (pane : PaneRef) → Op
  scroll_pane : (session : String) (pane : PaneRef) (dir : ScrollDir) → Op
  list_spaces : (session : String) → Op
  create_space : (label : Option String) → Op
  rename_space : (space_id label : String) → Op
  close_space : (space_id : String) → Op
  rename_session : (session new_name : String) → Op
  kill_session : (session : String) → Op
  create_session : (name : String) (layout : Option String) → Op
