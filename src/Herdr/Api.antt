-- ===== src/Herdr/Api.antt =====
-- muxrd/src/multiplexer/herdr/api.rs: the requests that are sent to herdr, by method and parameters,
-- and those results that are read, by the fields that are read. JSON itself is a parameter.
use zellimobile_server.Common.{ℕ, String, Bool, List, Option}
use zellimobile_server.Mux.{Outcome}

pub data SplitDirection : Type 0 where
  right down : SplitDirection

pub data PaneDirection : Type 0 where
  left right up down : PaneDirection

pub data PaneZoomMode : Type 0 where
  toggle on off : PaneZoomMode

pub record WorkspaceInfo : Type 0 where
  pub workspace_id : String
  pub label : String
  pub focused : Bool
  pub active_tab_id : String

pub record TabInfo : Type 0 where
  pub tab_id : String
  pub number : ℕ
  pub label : String

pub record PaneInfo : Type 0 where
  pub pane_id : String
  pub terminal_id : String
  pub tab_id : String
  pub focused : Bool
  pub cwd : Option String
  pub label : Option String
  pub title : Option String

pub record PaneLayoutRect : Type 0 where
  pub x : ℕ
  pub y : ℕ
  pub width : ℕ
  pub height : ℕ

pub record PaneLayoutPane : Type 0 where
  pub pane_id : String
  pub focused : Bool
  pub rect : PaneLayoutRect

pub record PaneLayoutSnapshot : Type 0 where
  pub tab_id : String
  pub zoomed : Bool
  pub area : PaneLayoutRect
  pub panes : List PaneLayoutPane

-- `ApiRequest`, without its id: the method, and the parameters that are not at their defaults.
pub data ApiRequest : Type 0 where
  workspace_list : ApiRequest
  workspace_create : (focus : Bool) (label : Option String) → ApiRequest
  workspace_rename : (workspace_id label : String) → ApiRequest
  workspace_close : (workspace_id : String) → ApiRequest
  tab_create : (workspace_id : Option String) (focus : Bool) (label : Option String) → ApiRequest
  tab_focus : (tab_id : String) → ApiRequest
  tab_close : (tab_id : String) → ApiRequest
  tab_rename : (tab_id label : String) → ApiRequest
  pane_split :
      (workspace_id target_pane_id : Option String) (direction : SplitDirection) (focus : Bool)
      → ApiRequest
  pane_close : (pane_id : String) → ApiRequest
  pane_rename : (pane_id : String) (label : Option String) → ApiRequest
  pane_focus_direction : (pane_id : Option String) (direction : PaneDirection) → ApiRequest
  pane_zoom : (pane_id : Option String) (mode : PaneZoomMode) → ApiRequest
  tab_list : (workspace_id : String) → ApiRequest
  pane_list : (workspace_id : String) → ApiRequest
  pane_layout : (pane_id : Option String) → ApiRequest

-- The other variants are never what is expected.
pub data ApiResult : Type 0 where
  workspaces : List WorkspaceInfo → ApiResult
  tabs : List TabInfo → ApiResult
  panes : List PaneInfo → ApiResult
  layout : PaneLayoutSnapshot → ApiResult
  other : ApiResult

-- `ok` holds what the decoding of the result gives.
pub data ApiResponseBody : Type 0 where
  ok : Outcome ApiResult → ApiResponseBody
  err : (code message : String) → ApiResponseBody
