-- ===== src/Herdr/Types.antt =====
-- muxrd/src/multiplexer/herdr/wire.rs: the messages of herdr's terminal socket, with the variants
-- and fields in the order that the wire format counts them.
use zellimobile_server.Common.{ℕ, Char, String, Bool, List, Option}

pub data RenderEncoding : Type 0 where
  semantic_frame terminal_ansi : RenderEncoding

pub data ClientKeybindings : Type 0 where
  server : ClientKeybindings
  local : (keys_toml : String) → ClientKeybindings

pub data ClientLaunchMode : Type 0 where
  app terminal_attach : ClientLaunchMode

pub data AttachScrollDirection : Type 0 where
  up down : AttachScrollDirection

pub data AttachScrollSource : Type 0 where
  wheel : AttachScrollSource
  page_key : (input : List ℕ) → AttachScrollSource

pub data ClientKeyKind : Type 0 where
  press repeat release : ClientKeyKind

pub data ClientKeyCode : Type 0 where
  backspace enter left right up down home end page_up page_down : ClientKeyCode
  tab back_tab delete insert esc : ClientKeyCode
  char : Char → ClientKeyCode
  f : ℕ → ClientKeyCode
  null : ClientKeyCode

pub data ClientMouseButton : Type 0 where
  left right middle : ClientMouseButton

pub data ClientMouseKind : Type 0 where
  down up drag : ClientMouseButton → ClientMouseKind
  moved scroll_up scroll_down scroll_left scroll_right : ClientMouseKind

pub data ClientInputEvent : Type 0 where
  key : (code : ClientKeyCode) (modifiers : ℕ) (kind : ClientKeyKind) → ClientInputEvent
  mouse : (kind : ClientMouseKind) (column row modifiers : ℕ) → ClientInputEvent
  paste : (text : String) → ClientInputEvent
  focus_gained focus_lost : ClientInputEvent

pub data ClientMessage : Type 0 where
  hello :
      (version cols rows cell_width_px cell_height_px : ℕ) (requested_encoding : RenderEncoding)
      (keybindings : ClientKeybindings) (launch_mode : ClientLaunchMode)
      → ClientMessage
  input : (bytes : List ℕ) → ClientMessage
  clipboard_image : (extension : String) (bytes : List ℕ) → ClientMessage
  resize : (cols rows cell_width_px cell_height_px : ℕ) → ClientMessage
  detach : ClientMessage
  attach_terminal : (terminal_id : String) (takeover : Bool) → ClientMessage
  attach_scroll :
      (source : AttachScrollSource) (direction : AttachScrollDirection) (lines : ℕ)
      (column row : Option ℕ) (modifiers : ℕ)
      → ClientMessage
  input_events : (events : List ClientInputEvent) → ClientMessage

pub record CellData : Type 0 where
  pub symbol : String
  pub fg : ℕ
  pub bg : ℕ
  pub modifier : ℕ
  pub skip : Bool
  pub hyperlink : Option ℕ

pub record CursorState : Type 0 where
  pub x : ℕ
  pub y : ℕ
  pub visible : Bool
  pub shape : ℕ

pub record FrameData : Type 0 where
  pub cells : List CellData
  pub width : ℕ
  pub height : ℕ
  pub cursor : Option CursorState
  pub hyperlinks : List String
  pub graphics : List ℕ

pub record TerminalFrame : Type 0 where
  pub seq : ℕ
  pub width : ℕ
  pub height : ℕ
  pub full : Bool
  pub bytes : List ℕ

pub data NotifyKind : Type 0 where
  sound toast system_toast : NotifyKind

pub data ServerMessage : Type 0 where
  welcome : (version : ℕ) (encoding : RenderEncoding) (error : Option String) → ServerMessage
  frame : FrameData → ServerMessage
  terminal : TerminalFrame → ServerMessage
  graphics : (bytes : List ℕ) → ServerMessage
  server_shutdown : (reason : Option String) → ServerMessage
  notify : (kind : NotifyKind) (message : String) (body : Option String) → ServerMessage
  clipboard : (text : String) → ServerMessage
  window_title : (title : Option String) → ServerMessage
  reload_sound_config : ServerMessage
  mouse_capture : (enabled : Bool) → ServerMessage
