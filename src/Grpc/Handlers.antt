-- ===== src/Grpc/Handlers.antt =====
-- The handlers of muxrd/src/grpc/tab_ops.rs and pane_ops.rs. The order of the checks is the
-- source's. `extension` is the flag for read-only tokens that the authentication sets.
use zellimobile_server.Common.{
  ℕ, ◌*◌, String, Bool, List, [], Option, none, some, length, ltb, ◌==◌, if◌then◌else◌,
}
use zellimobile_server.Rust.Text.{is_empty, concat}
use zellimobile_server.Rust.Decimal.{u64_text}
use zellimobile_server.Mux.Ops
use zellimobile_server.Mux.Ops.{
  ResizeKind, increase, decrease, ResizeDir, left, right, up, down, ScrollDir,
}
use zellimobile_server.Relay.Types
use zellimobile_server.Relay.Types.{FloatingHint, RelayControl}
use zellimobile_server.Grpc.Control.{
  ProtoAck, Checked, pass, reject, ◌>>=◌, invalid_argument, reject_if_read_only, Routed,
  try_route_control,
}
use zellimobile_server.Grpc.Requests.{
  PaneTarget, pane_ref, Outside, Done, finish, act, resolve, non_empty,
}

abbrev pub max_write_to_pane_bytes : ℕ
max_write_to_pane_bytes = 1024 * 1024

-- `ok_or_else(…)` of a message's target.
abbrev pub required : String → Option PaneTarget → Checked PaneTarget
required message none = reject (invalid_argument message)
required message (some t) = pass t

abbrev pub check_size : List ℕ → Checked (Unit {0})
check_size bytes =
    if ltb max_write_to_pane_bytes (length bytes)
    then reject (
        invalid_argument (
          concat "WriteToPane: payload "
            (concat (u64_text (length bytes)) " bytes exceeds the 1048576 byte limit")))
    else pass tt

abbrev pub check_name : String → Checked (Unit {0})
check_name name =
    if is_empty name then reject (invalid_argument "tab name must not be empty") else pass tt

-- The numbers of the proto's enums.
unfoldable pub resize_kind : ℕ → ResizeKind
resize_kind n = if n == 1 then decrease else increase

unfoldable pub resize_dir : ℕ → Option ResizeDir
resize_dir n =
    if n == 1
    then some left
    else if n == 2
    then some right
    else if n == 3
    then some up
    else if n == 4
    then some down
    else none

unfoldable pub scroll_dir : ℕ → ScrollDir
scroll_dir n =
    if n == 1
    then Ops.line_down
    else if n == 2
    then Ops.to_top
    else if n == 3
    then Ops.to_bottom
    else if n == 4
    then Ops.page_up
    else if n == 5
    then Ops.page_down
    else if n == 6
    then Ops.half_page_up
    else if n == 7
    then Ops.half_page_down
    else Ops.line_up

module _ (zellij_check : String → Option String) {B : Type 0} (extension : Option Bool)
    (o : Outside B) where
  -- A command to a live relay, and the backend where none takes it.
  abbrev pub routed_with : Option ProtoAck → List (ℕ × RelayControl) → Done B → Done B
  routed_with (some ack) sent d = record { ops = []; sent = sent; answer = pass ack }
  routed_with none sent d = record d { sent = sent }

  abbrev pub routed_or : Routed → Done B → Done B
  routed_or r d = routed_with r.answer r.sent d

  -- `new_tab_impl`
  unfoldable pub new_tab : String → String → Done B
  new_tab session name = finish (do
    _ ← reject_if_read_only extension
    (b, s) ← resolve zellij_check o session
    pass (act o "NewTab" b (Ops.new_tab s (non_empty name))))

  -- `close_tab_impl`
  unfoldable pub close_tab : String → ℕ → Done B
  close_tab session tab_id = finish (do
    _ ← reject_if_read_only extension
    (b, s) ← resolve zellij_check o session
    pass (act o "CloseTab" b (Ops.close_tab s tab_id)))

  -- `go_to_tab_impl`
  unfoldable pub go_to_tab : String → String → ℕ → Done B
  go_to_tab session connection_id tab_id = finish (do
    _ ← reject_if_read_only extension
    (b, s) ← resolve zellij_check o session
    pass (
        routed_or
          (try_route_control o.alive (Types.switch_tab tab_id) o.control session connection_id)
          (act o "GoToTab" b (Ops.go_to_tab s tab_id))))

  -- `rename_tab_impl`
  unfoldable pub rename_tab : String → ℕ → String → Done B
  rename_tab session tab_id name = finish (do
    _ ← reject_if_read_only extension
    (b, s) ← resolve zellij_check o session
    _ ← check_name name
    pass (act o "RenameTab" b (Ops.rename_tab s tab_id name)))

  -- `write_to_pane_impl`
  unfoldable pub write_to_pane : Option PaneTarget → List ℕ → Done B
  write_to_pane target bytes = finish (do
    _ ← reject_if_read_only extension
    _ ← check_size bytes
    t ← required "WriteToPane: target is required" target
    (b, s) ← resolve zellij_check o t.session
    pass (act o "WriteToPane" b (Ops.write_to_pane s (pane_ref t) bytes)))

  -- `focus_pane_impl`, which has no gate.
  unfoldable pub focus_pane : PaneTarget → Done B
  focus_pane t = finish (do
    (b, s) ← resolve zellij_check o t.session
    pass (
        routed_or
          (try_route_control o.alive (Types.focus_pane (pane_ref t)) o.control t.session
            t.connection_id)
          (act o "FocusPane" b (Ops.focus_pane s (pane_ref t)))))

  -- `close_pane_impl`
  unfoldable pub close_pane : PaneTarget → Done B
  close_pane t = finish (do
    _ ← reject_if_read_only extension
    (b, s) ← resolve zellij_check o t.session
    pass (act o "ClosePane" b (Ops.close_pane s (pane_ref t))))

  -- `new_pane_impl`
  unfoldable pub new_pane : String → Bool → String → Done B
  new_pane session floating pane_name = finish (do
    _ ← reject_if_read_only extension
    (b, s) ← resolve zellij_check o session
    pass (act o "NewPane" b (Ops.new_pane s floating (non_empty pane_name))))

  -- `rename_pane_impl`
  unfoldable pub rename_pane : Option PaneTarget → String → Done B
  rename_pane target name = finish (do
    _ ← reject_if_read_only extension
    t ← required "RenamePane: target is required" target
    (b, s) ← resolve zellij_check o t.session
    pass (act o "RenamePane" b (Ops.rename_pane s (pane_ref t) name)))

  -- `resize_pane_impl`
  unfoldable pub resize_pane : Option PaneTarget → ℕ → ℕ → Done B
  resize_pane target resize direction = finish (do
    _ ← reject_if_read_only extension
    t ← required "ResizePane: target is required" target
    (b, s) ← resolve zellij_check o t.session
    pass (
        act o "ResizePane" b
          (Ops.resize_pane s (pane_ref t) (resize_kind resize) (resize_dir direction))))

  -- `toggle_pane_floating_impl`
  unfoldable pub toggle_pane_floating : PaneTarget → Done B
  toggle_pane_floating t = finish (do
    _ ← reject_if_read_only extension
    (b, s) ← resolve zellij_check o t.session
    pass (act o "TogglePaneFloating" b (Ops.toggle_pane_floating s (pane_ref t))))

  -- `toggle_pane_fullscreen_impl`
  unfoldable pub toggle_pane_fullscreen : Option PaneTarget → Bool → FloatingHint → Done B
  toggle_pane_fullscreen target has_floating_hint hint = finish (do
    _ ← reject_if_read_only extension
    t ← required "TogglePaneFullscreen: missing target" target
    (b, s) ← resolve zellij_check o t.session
    pass (
        routed_or
          (try_route_control o.alive
            (Types.toggle_fullscreen (pane_ref t) (if has_floating_hint then some hint else none))
            o.control t.session t.connection_id)
          (act o "TogglePaneFullscreen" b (Ops.toggle_pane_fullscreen s (pane_ref t)))))

  -- `scroll_pane_impl`, which has no gate either.
  unfoldable pub scroll_pane : Option PaneTarget → ℕ → Done B
  scroll_pane target direction = finish (do
    t ← required "ScrollPane: target is required" target
    (b, s) ← resolve zellij_check o t.session
    pass (act o "ScrollPane" b (Ops.scroll_pane s (pane_ref t) (scroll_dir direction))))
