-- ===== src/Grpc/Services/Sane.antt =====
-- What reaches a backend through the services (muxrd/src/grpc), whoever asks.
use zellimobile_server.Common.{String, Bool, Option, none, some, if◌then◌else◌, All}
use zellimobile_server.Mux.Ops
use zellimobile_server.Relay.Types
use zellimobile_server.Relay.Types.{RelayControl, ControlEntry}
use zellimobile_server.Mux.Ops.{Op, ActionAck}
use zellimobile_server.Grpc.Control.{reject_if_read_only, try_route_control, exact_relay}
use zellimobile_server.Grpc.Checks.{
  validate_layout_name, validate_space_label, validate_space_id, check_session,
}
use zellimobile_server.Grpc.Requests
use zellimobile_server.Grpc.Requests.{
  pane_ref, Rpc, Outside, Done, act, answered, finish, finish-then, resolve, to_checked,
}
use zellimobile_server.Grpc.Handlers
use zellimobile_server.Grpc.Handlers.{max_write_to_pane_bytes, check_size, check_name, required}
use zellimobile_server.Grpc.Spaces
use zellimobile_server.Grpc.Sessions
use zellimobile_server.Grpc.Services.{handle}
use zellimobile_server.Grpc.Services.Passed.{
  IsLabel, IsLayoutName, IsSane, then-Sane, resolve-IsSafeName, routed_or-Sane, name_filled,
  size_bounded, validated-IsLabel, id-IsSpaceId, layout-IsLayoutName, supplied-Given,
  session-IsSafeName, switch_at-Sane, close_if_more-Sane,
}

module _ (check : String → Option String) where
  module _ {B : Type 0} (o : Outside B) where
    -- Whoever asks, and whatever the request, a backend is called only with what was checked: names of
    -- sessions that passed the guard against paths, ids and labels of spaces that are short and have only
    -- the allowed characters, names of layouts that are no paths, names of tabs that are not empty, and
    -- writes of at most 1 MiB.
    pub handle-Sane :
        (ext : Option Bool) (r : Rpc) → All (λ x. IsSane check x.1) (handle check ext o r).ops
    unfolding handle Handlers.new_tab Handlers.close_tab Handlers.go_to_tab Handlers.rename_tab
        Handlers.write_to_pane Handlers.focus_pane Handlers.close_pane Handlers.new_pane
        Handlers.rename_pane Handlers.resize_pane Handlers.toggle_pane_floating
        Handlers.toggle_pane_fullscreen Handlers.scroll_pane Spaces.switch_space Spaces.create_space
        Spaces.rename_space Spaces.close_space Sessions.rename_session Sessions.kill_session
        Sessions.create_session
    handle-Sane ext (Requests.new_tab session name) =
        then-Sane check o (reject_if_read_only ext) _ (λ _ _.
          then-Sane check o (resolve check o session) _
            (λ (b, s) h. (resolve-IsSafeName check o session b s h, tt)))
    handle-Sane ext (Requests.close_tab session tab) =
        then-Sane check o (reject_if_read_only ext) _ (λ _ _.
          then-Sane check o (resolve check o session) _
            (λ (b, s) h. (resolve-IsSafeName check o session b s h, tt)))
    handle-Sane ext (Requests.go_to_tab session id tab) =
        then-Sane check o (reject_if_read_only ext) _ (λ _ _.
          then-Sane check o (resolve check o session) _ (λ (b, s) h.
            routed_or-Sane check o
              (try_route_control o.alive (Types.switch_tab tab) o.control session id) ext
              (act o "GoToTab" b (Ops.go_to_tab s tab))
              (resolve-IsSafeName check o session b s h, tt)))
    handle-Sane ext (Requests.rename_tab session tab name) =
        then-Sane check o (reject_if_read_only ext) _ (λ _ _.
          then-Sane check o (resolve check o session) _ (λ (b, s) h.
            then-Sane check o (check_name name) _ (λ _ n.
              ((resolve-IsSafeName check o session b s h, name_filled check o name n), tt))))
    handle-Sane ext (Requests.write_to_pane target bytes) =
        then-Sane check o (reject_if_read_only ext) _ (λ _ _.
          then-Sane check o (check_size bytes) _ (λ _ n.
            then-Sane check o (required "WriteToPane: target is required" target) _ (λ t _.
              then-Sane check o (resolve check o t.session) _ (λ (b, s) h.
                ((resolve-IsSafeName check o t.session b s h, size_bounded check o bytes n), tt)))))
    handle-Sane ext (Requests.focus_pane t) =
        then-Sane check o (resolve check o t.session) _ (λ (b, s) h.
          routed_or-Sane check o
            (try_route_control o.alive (Types.focus_pane (pane_ref t)) o.control t.session
              t.connection_id)
            ext (act o "FocusPane" b (Ops.focus_pane s (pane_ref t)))
            (resolve-IsSafeName check o t.session b s h, tt))
    handle-Sane ext (Requests.close_pane t) = then-Sane check o (reject_if_read_only ext) _ (λ _ _.
        then-Sane check o (resolve check o t.session) _
          (λ (b, s) h. (resolve-IsSafeName check o t.session b s h, tt)))
    handle-Sane ext (Requests.new_pane session floating name) =
        then-Sane check o (reject_if_read_only ext) _ (λ _ _.
          then-Sane check o (resolve check o session) _
            (λ (b, s) h. (resolve-IsSafeName check o session b s h, tt)))
    handle-Sane ext (Requests.rename_pane target name) =
        then-Sane check o (reject_if_read_only ext) _ (λ _ _.
          then-Sane check o (required "RenamePane: target is required" target) _ (λ t _.
            then-Sane check o (resolve check o t.session) _
              (λ (b, s) h. (resolve-IsSafeName check o t.session b s h, tt))))
    handle-Sane ext (Requests.resize_pane target kind dir) =
        then-Sane check o (reject_if_read_only ext) _ (λ _ _.
          then-Sane check o (required "ResizePane: target is required" target) _ (λ t _.
            then-Sane check o (resolve check o t.session) _
              (λ (b, s) h. (resolve-IsSafeName check o t.session b s h, tt))))
    handle-Sane ext (Requests.toggle_pane_floating t) =
        then-Sane check o (reject_if_read_only ext) _ (λ _ _.
          then-Sane check o (resolve check o t.session) _
            (λ (b, s) h. (resolve-IsSafeName check o t.session b s h, tt)))
    handle-Sane ext (Requests.toggle_pane_fullscreen target has hint) =
        then-Sane check o (reject_if_read_only ext) _ (λ _ _.
          then-Sane check o (required "TogglePaneFullscreen: missing target" target) _ (λ t _.
            then-Sane check o (resolve check o t.session) _ (λ (b, s) h.
              routed_or-Sane check o
                (try_route_control o.alive
                  (Types.toggle_fullscreen (pane_ref t) (if has then some hint else none)) o.control
                  t.session t.connection_id)
                ext (act o "TogglePaneFullscreen" b (Ops.toggle_pane_fullscreen s (pane_ref t)))
                (resolve-IsSafeName check o t.session b s h, tt))))
    handle-Sane ext (Requests.scroll_pane target dir) =
        then-Sane check o (required "ScrollPane: target is required" target) _ (λ t _.
          then-Sane check o (resolve check o t.session) _
            (λ (b, s) h. (resolve-IsSafeName check o t.session b s h, tt)))
    handle-Sane ext (Requests.switch_space session id space) =
        then-Sane check o (reject_if_read_only ext) _ (λ _ _.
          then-Sane check o (validate_space_id space) _ (λ _ _.
            then-Sane check o (resolve check o session) _
              (λ (b, s) h. switch_at-Sane check o (exact_relay o.control session id) ext space)))
    handle-Sane ext (Requests.create_space session label) =
        then-Sane check o (reject_if_read_only ext) _ (λ _ _.
          then-Sane check o (resolve check o session) _ (λ (b, s) h.
            then-Sane check o (Spaces.check_label label) _ (λ l n. (
              supplied-Given check o IsLabel label (validate_space_label label) l
                  (λ u e. validated-IsLabel check o label e) n,
              tt,
            ))))
    handle-Sane ext (Requests.rename_space session space label) =
        then-Sane check o (reject_if_read_only ext) _ (λ _ _.
          then-Sane check o (resolve check o session) _ (λ (b, s) h.
            then-Sane check o (validate_space_id space) _ (λ _ i.
              then-Sane check o (validate_space_label label) _
                (λ _ n. ((id-IsSpaceId check o space i, validated-IsLabel check o label n), tt)))))
    handle-Sane ext (Requests.close_space session id space) =
        then-Sane check o (reject_if_read_only ext) _ (λ _ _.
          then-Sane check o (resolve check o session) _ (λ (b, s) h.
            then-Sane check o (validate_space_id space) _ (λ _ i.
              close_if_more-Sane check o ext session id space b s (Spaces.count_spaces (o.spaces b))
                (resolve-IsSafeName check o session b s h) (id-IsSpaceId check o space i))))
    handle-Sane ext (Requests.rename_session session name) =
        then-Sane check o (reject_if_read_only ext) _ (λ _ _.
          then-Sane check o (resolve check o session) _ (λ (b, s) h.
            then-Sane check o (check_session check name) _ (λ _ n.
              ((resolve-IsSafeName check o session b s h, session-IsSafeName check o name n), tt))))
    handle-Sane ext (Requests.kill_session session) =
        then-Sane check o (reject_if_read_only ext) _ (λ _ _.
          then-Sane check o (Sessions.check_killable session) _ (λ _ _.
            then-Sane check o (resolve check o session) _
              (λ (b, s) h. (resolve-IsSafeName check o session b s h, tt))))
    handle-Sane ext (Requests.create_session backend name layout) =
        then-Sane check o (reject_if_read_only ext) _ (λ _ _.
          then-Sane check o (Sessions.requested_kind o.backends.backends backend) _ (λ kind _.
            then-Sane check o (Sessions.running_backend o.backends kind) _ (λ b _.
              then-Sane check o (check_session check name) _ (λ _ n.
                then-Sane check o (Sessions.check_layout layout) _ (λ l m. (
                  (
                    session-IsSafeName check o name n,
                    supplied-Given check o IsLayoutName layout (validate_layout_name layout) l
                        (λ u e. layout-IsLayoutName check o layout e) m,
                  ),
                  tt,
                ))))))
