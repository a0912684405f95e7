-- ===== src/Herdr/Backend/Tests.antt =====
-- The herdr backend and its layouts at concrete inputs (muxrd/src/multiplexer/herdr/backend.rs and
-- control.rs).
use zellimobile_server.Common.{ℕ, String, true, false, List, [], ◌∷◌, none, some, arith}
use zellimobile_server.Common.Map.{lookup, insert, string_key, nat_key}
use zellimobile_server.Mux.{Outcome, ok}
use zellimobile_server.Mux.Ops
use zellimobile_server.Herdr.Registry.{
  new_panes, new_tabs, assign_or_get, refresh, assign_or_get_tab,
}
use zellimobile_server.Herdr.Registry.Panes.{new-IsConsistent}
use zellimobile_server.Herdr.Registry.Tabs
use zellimobile_server.Herdr.Api
use zellimobile_server.Herdr.Api.{
  TabInfo, PaneInfo, PaneLayoutRect, PaneLayoutSnapshot, ApiRequest, ApiResponseBody,
}
use zellimobile_server.Herdr.Control.{Control}
use zellimobile_server.Herdr.Layout.{transcode_layout}
use zellimobile_server.Herdr.Layout.Ids.{ResolveTabs, transcode_layout-ResolveTabs}
use zellimobile_server.Herdr.Backend.{perform}
use zellimobile_server.Herdr.Backend.Asks.{Sends, IsFor}
use zellimobile_server.Herdr.Backend.Requests.{perform-Sends}

abbrev rect : PaneLayoutRect
rect = record { x = 0; y = 0; width = 80; height = 24 }

abbrev tabs : List TabInfo
tabs = record { tab_id = "w1:t1"; number = 1; label = "one" } ∷ []

abbrev panes : List PaneInfo
panes =
    record {
      pane_id = "w1:p1";
      terminal_id = "t1";
      tab_id = "w1:t1";
      focused = true;
      cwd = none;
      label = none;
      title = some "sh";
    }
    ∷ []

abbrev layouts : List (String × PaneLayoutSnapshot)
layouts =
    (
      "w1:t1",
      record {
        tab_id = "w1:t1";
        zoomed = false;
        area = rect;
        panes =
            record { pane_id = "w1:p1"; focused = true; rect = rect }
            ∷ record { pane_id = "w1:p2"; focused = false; rect = rect }
            ∷ [];
      },
    )
    ∷ []

transcode_layout-ResolveTabs_example :
    let ((r, t), snapshot) = transcode_layout tabs panes layouts "w1:t1" new_panes new_tabs in
    ResolveTabs layouts r t tabs snapshot.tabs
unfolding transcode_layout assign_or_get assign_or_get_tab refresh lookup insert
transcode_layout-ResolveTabs_example =
    transcode_layout-ResolveTabs tabs panes layouts "w1:t1" new_panes new_tabs new-IsConsistent
      Tabs.new-IsConsistent (omega arith) (omega arith)

-- A daemon that has no workspace and refuses all else.
abbrev daemon : ℕ → ApiRequest → Outcome ApiResponseBody
daemon n Api.workspace_list = ok (ApiResponseBody.ok (ok (Api.workspaces [])))
daemon n _ = ok (ApiResponseBody.err "unsupported" "no")

abbrev started : Control
started = record { panes = new_panes; tabs = new_tabs; next_req_id = 1; sent = [] }

perform-Sends_example :
    Sends daemon
      (IsFor daemon started (Ops.create_session "dev" none))
      started
      (perform daemon (Ops.create_session "dev" none) started).0
perform-Sends_example = perform-Sends daemon (Ops.create_session "dev" none) started
