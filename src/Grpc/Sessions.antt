-- ===== src/Grpc/Sessions.antt =====
-- muxrd/src/grpc/session_ops.rs: the handlers that change sessions.
use zellimobile_server.Common.{String, Bool, List, [], ◌∷◌, Option, none, some, if◌then◌else◌}
use zellimobile_server.Rust.Text.{concat}
use zellimobile_server.Mux.{Outcome, ok, failed}
use zellimobile_server.Mux.Ops
use zellimobile_server.Server.Backends.{BackendKind, BackendSet, kind_text, get}
use zellimobile_server.Server.Routing.{is_collapsed_backend_session}
use zellimobile_server.Relay.Attach.{Joined, joined, panicked}
use zellimobile_server.Grpc.Control.{
  ProtoAck, ProtoBackend, kind_from_proto, Checked, pass, reject, ◌>>=◌, invalid_argument,
  not_found, internal, reject_if_read_only, success,
}
use zellimobile_server.Grpc.Checks.{supplied, check_session, validate_layout_name}
use zellimobile_server.Grpc.Requests.{Outside, Done, finish, act, resolve}

abbrev pub check_killable : String → Checked (Unit {0})
check_killable session =
    if is_collapsed_backend_session session
    then reject (
        invalid_argument
          "the herdr session cannot be killed — manage its workspaces via CloseSpace")
    else pass tt

abbrev pub kill_answer : Joined (Outcome (Unit {0})) → Checked ProtoAck
kill_answer (joined (ok _)) = pass (success "")
kill_answer (joined (failed e)) = reject (internal (concat "KillSession: " e))
kill_answer (panicked e) = reject (internal (concat "KillSession task panicked: " e))

-- The only kind of a set of one; an empty set, which none is, has the source panic.
abbrev pub sole_kind : {B : Type 0} → List (BackendKind × B) → Checked BackendKind
sole_kind [] = reject (internal "BackendSet invariant: at least one backend")
sole_kind ((k, _) ∷ []) = pass k
sole_kind (_ ∷ _ ∷ _) = reject (
    invalid_argument
      "CreateSession: this server runs multiple backends — specify which backend to create the session on")

-- The kind that a request names, by a tag of the proto, or by none.
abbrev pub requested_kind :
    {B : Type 0} → List (BackendKind × B) → Option ProtoBackend → Checked BackendKind
requested_kind backends none = reject (invalid_argument "CreateSession: unknown backend tag")
requested_kind backends (some tag) = elim (kind_from_proto tag) [
  | some kind ↦ pass kind
  | none ↦ sole_kind backends
]

abbrev pub running_backend : {B : Type 0} → BackendSet B → BackendKind → Checked B
running_backend backends kind = elim (get backends kind) [
  | some b ↦ pass b
  | none ↦ reject (
      not_found (
        concat "CreateSession: backend '" (
          concat (kind_text kind)
            "' is recognised but not running on this server — re-list to see available backends")))
]

abbrev pub check_layout : String → Checked (Option String)
check_layout layout = supplied layout (validate_layout_name layout)

module _ (zellij_check : String → Option String) {B : Type 0} (extension : Option Bool)
    (o : Outside B) where
  -- `rename_session_impl`
  unfoldable pub rename_session : String → String → Done B
  rename_session session name = finish (do
    _ ← reject_if_read_only extension
    (b, s) ← resolve zellij_check o session
    _ ← check_session zellij_check name
    pass (act o "RenameSession" b (Ops.rename_session s name)))

  -- `kill_session_impl`
  unfoldable pub kill_session : String → Done B
  kill_session session = finish (do
    _ ← reject_if_read_only extension
    _ ← check_killable session
    (b, s) ← resolve zellij_check o session
    pass (record {
      ops = (b, Ops.kill_session s) ∷ [];
      sent = [];
      answer = kill_answer (o.kills b s);
    }))

  -- `create_session_impl`
  unfoldable pub create_session : Option ProtoBackend → String → String → Done B
  create_session backend name layout = finish (do
    _ ← reject_if_read_only extension
    kind ← requested_kind o.backends.backends backend
    b ← running_backend o.backends kind
    _ ← check_session zellij_check name
    l ← check_layout layout
    pass (act o "CreateSession" b (Ops.create_session name l)))
