-- ===== src/Mux.antt =====
-- muxrd/src/multiplexer/types.rs: the vocabulary that every backend speaks. A backend itself is a
-- parameter of what calls it.
pub mod Ops
use zellimobile_server.Common.{ℕ, String, Bool, true, false, ◌&&◌, List, ◌==◌}

pub record PaneRef : Type 0 where
  pub id : ℕ
  pub is_plugin : Bool

abbrev pub same_bool : Bool → Bool → Bool
same_bool true b = b
same_bool false true = false
same_bool false false = true

-- the derived `PartialEq`
abbrev pub same_pane : PaneRef → PaneRef → Bool
same_pane p q = p.id == q.id && same_bool p.is_plugin q.is_plugin

pub record FullscreenHint : Type 0 where
  pub is_floating : Bool
  pub floating_visible : Bool
  pub is_focused_floating : Bool

pub record PaneSnapshot : Type 0 where
  pub id : ℕ
  pub title : String
  pub is_focused : Bool
  pub is_floating : Bool
  pub exited : Bool
  pub command : String
  pub cwd : String
  pub x : ℕ
  pub y : ℕ
  pub rows : ℕ
  pub cols : ℕ
  pub is_plugin : Bool
  pub is_fullscreen : Bool

pub record TabSnapshot : Type 0 where
  pub tab_id : ℕ
  pub position : ℕ
  pub name : String
  pub active : Bool
  pub has_bell : Bool
  pub panes_to_hide : ℕ
  pub fullscreen_active : Bool
  pub floating_panes_visible : Bool
  pub panes : List PaneSnapshot

pub record LayoutSnapshot : Type 0 where
  pub tabs : List TabSnapshot

pub record SpaceSnapshot : Type 0 where
  pub id : String
  pub name : String
  pub active : Bool

pub data MuxEvent : Type 0 where
  exit : (reason : String) → MuxEvent
  renamed_session : (name : String) → MuxEvent
  config_updated : MuxEvent
  switch_session : (name : String) → MuxEvent

pub data MuxServerMsg : Type 0 where
  render : List ℕ → MuxServerMsg
  log : String → MuxServerMsg
  event : MuxEvent → MuxServerMsg
  other : MuxServerMsg

-- `anyhow::Result`, by the error's message.
pub data Outcome {ℓ} (A : Type ℓ) : Type ℓ where
  ok : A → Outcome A
  failed : (message : String) → Outcome A
