-- ===== src/Grpc/Services.antt =====
-- The services of muxrd/src/grpc for tabs, panes, spaces and sessions that answer by an acknowledgement,
-- as one function of the request. `RevokeToken`, which answers so too, is in Grpc/Tokens.
pub mod Gate
pub mod Passed
pub mod Sane
pub mod LastSpace
use zellimobile_server.Common.{String, Bool, true, false, Option}
use zellimobile_server.Grpc.Requests
use zellimobile_server.Grpc.Requests.{Rpc, Outside, Done}
use zellimobile_server.Grpc.Handlers
use zellimobile_server.Grpc.Spaces
use zellimobile_server.Grpc.Sessions

module _ (check : String → Option String) {B : Type 0} (ext : Option Bool) (o : Outside B) where
  unfoldable pub handle : Rpc → Done B
  handle (Requests.new_tab session name) = Handlers.new_tab check ext o session name
  handle (Requests.close_tab session tab) = Handlers.close_tab check ext o session tab
  handle (Requests.go_to_tab session id tab) = Handlers.go_to_tab check ext o session id tab
  handle (Requests.rename_tab session tab name) = Handlers.rename_tab check ext o session tab name
  handle (Requests.write_to_pane target bytes) = Handlers.write_to_pane check ext o target bytes
  handle (Requests.focus_pane target) = Handlers.focus_pane check ext o target
  handle (Requests.close_pane target) = Handlers.close_pane check ext o target
  handle (Requests.new_pane session floating name) =
      Handlers.new_pane check ext o session floating name
  handle (Requests.rename_pane target name) = Handlers.rename_pane check ext o target name
  handle (Requests.resize_pane target kind dir) = Handlers.resize_pane check ext o target kind dir
  handle (Requests.toggle_pane_floating target) = Handlers.toggle_pane_floating check ext o target
  handle (Requests.toggle_pane_fullscreen target has hint) =
      Handlers.toggle_pane_fullscreen check ext o target has hint
  handle (Requests.scroll_pane target dir) = Handlers.scroll_pane check ext o target dir
  handle (Requests.switch_space session id space) = Spaces.switch_space check ext o session id space
  handle (Requests.create_space session label) = Spaces.create_space check ext o session label
  handle (Requests.rename_space session space label) =
      Spaces.rename_space check ext o session space label
  handle (Requests.close_space session id space) = Spaces.close_space check ext o session id space
  handle (Requests.rename_session session name) = Sessions.rename_session check ext o session name
  handle (Requests.kill_session session) = Sessions.kill_session check ext o session
  handle (Requests.create_session backend name layout) =
      Sessions.create_session check ext o backend name layout

-- All but to focus a pane and to scroll.
unfoldable pub is_gated : Rpc → Bool
is_gated (Requests.focus_pane _) = false
is_gated (Requests.scroll_pane _ _) = false
is_gated _ = true
