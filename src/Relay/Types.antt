-- ===== src/Relay/Types.antt =====
-- muxrd/src/relay/types.rs: what the relay's thread, its task and the services share. A oneshot
-- sender is the number of its channel, and what is sent on it is listed by the sender's code.
use zellimobile_server.Common.{ℕ, ◌*◌, String, Bool, Option, none}
use zellimobile_server.Mux.{PaneRef}

pub record FloatingHint : Type 0 where
  pub target_is_floating : Bool
  pub floating_visible : Bool
  pub target_is_focused_floating : Bool

pub data RelayControl : Type 0 where
  switch_tab : (tab_id : ℕ) → RelayControl
  focus_pane : (pane : PaneRef) → RelayControl
  switch_space : (workspace_id : String) (reply : ℕ) → RelayControl
  toggle_fullscreen : (pane : PaneRef) (hint : Option FloatingHint) → RelayControl
  query_layout : (reply : ℕ) → RelayControl

pub record RelayViewState : Type 0 where
  pub active_tab : Option ℕ
  pub focused_pane : Option PaneRef
  pub current_space : Option String

-- `RelayViewState::default`
abbrev pub no_view : RelayViewState
no_view = record { active_tab = none; focused_pane = none; current_space = none }

-- `sender` is the number of the relay's control channel.
pub record ControlEntry : Type 0 where
  pub session : String
  pub sender : ℕ
  pub read_only : Bool

pub record ViewStateEntry : Type 0 where
  pub session : String
  pub state : RelayViewState

pub record InFlightQuery : Type 0 where
  pub seq : ℕ
  pub reply : ℕ
  pub tabs : Option String

abbrev pub max_input_frame_bytes : ℕ
max_input_frame_bytes = 1024 * 1024

abbrev pub ro_fallback_rows : ℕ
ro_fallback_rows = 50

abbrev pub ro_fallback_cols : ℕ
ro_fallback_cols = 200
