-- ===== src/Grpc/Spaces.antt =====
-- muxrd/src/grpc/space_ops.rs: the handlers for herdr's spaces.
use zellimobile_server.Common.{
  ℕ, String, Bool, false, List, [], ◌∷◌, ◌++◌, Option, none, some, length, leb, str_eq,
  if◌then◌else◌, map,
}
use zellimobile_server.Common.Map.{lookup, string_key}
use zellimobile_server.Rust.Text.{is_empty, concat}
use zellimobile_server.Mux.{SpaceSnapshot, Outcome, ok, failed}
use zellimobile_server.Mux.Ops
use zellimobile_server.Mux.Ops.{ActionAck, Op}
use zellimobile_server.Relay.Types
use zellimobile_server.Relay.Types.{RelayControl, ControlEntry, ViewStateEntry}
use zellimobile_server.Relay.Attach.{Joined, joined, panicked}
use zellimobile_server.Grpc.Control.{
  ProtoAck, Checked, pass, reject, ◌>>=◌, internal, reject_if_read_only, failure, success, to_proto,
  exact_relay, reattach,
}
use zellimobile_server.Grpc.Checks.{supplied, validate_space_label, validate_space_id}
use zellimobile_server.Grpc.Requests.{
  Waited, replied, cancelled, elapsed, Outside, Done, finish, answered, resolve,
}

-- `run_space_action`
unfoldable pub run_space_action : String → Joined (Outcome ActionAck) → Checked ProtoAck
run_space_action rpc (joined (ok ack)) = pass (to_proto ack)
run_space_action rpc (joined (failed e)) = reject (internal (concat rpc ": backend error"))
run_space_action rpc (panicked e) =
    reject (internal (concat rpc (concat ": action task panicked: " e)))

-- `would_close_last_space`
abbrev pub would_close_last_space : ℕ → Bool
would_close_last_space count = leb count 1

abbrev pub space_of : String → Option ViewStateEntry → Option String
space_of session none = none
space_of session (some e) = if str_eq e.session session then e.state.current_space else none

-- `connection_current_space`
unfoldable pub connection_current_space :
    List (String × ViewStateEntry) → String → String → Option String
connection_current_space views session id =
    if is_empty id then none else space_of session (lookup id views)

-- The listing before a close, as its length.
abbrev pub count_spaces : Joined (Outcome (List SpaceSnapshot)) → Checked ℕ
count_spaces (joined (ok spaces)) = pass (length spaces)
count_spaces (joined (failed e)) = reject (internal "CloseSpace: failed to enumerate spaces")
count_spaces (panicked e) = reject (internal (concat "CloseSpace: list task panicked: " e))

abbrev pub close_answer : Joined (Outcome ActionAck) → Checked ActionAck
close_answer (joined (ok ack)) = pass ack
close_answer (joined (failed e)) = reject (internal "CloseSpace: backend error")
close_answer (panicked e) = reject (internal (concat "CloseSpace: close task panicked: " e))

-- `find(|s| s.active).or_else(|| spaces.first())`
unfoldable pub find_active_space : List SpaceSnapshot → Option String
find_active_space [] = none
find_active_space (s ∷ ss) = if s.active then some s.id else find_active_space ss

abbrev pub first_space : List SpaceSnapshot → Option String
first_space [] = none
first_space (s ∷ _) = some s.id

abbrev pub or_else : Option String → Option String → Option String
or_else none b = b
or_else (some a) b = some a

unfoldable pub repoint_target : Joined (Outcome (List SpaceSnapshot)) → Option String
unfolding find_active_space
repoint_target (joined (ok spaces)) = or_else (find_active_space spaces) (first_space spaces)
repoint_target (joined (failed e)) = none
repoint_target (panicked e) = none

abbrev pub waited_answer : Waited → ProtoAck
waited_answer (replied (ok _)) = success ""
waited_answer (replied (failed e)) = failure (concat "SwitchSpace failed: " e)
waited_answer cancelled = failure "SwitchSpace: relay cancelled the request"
waited_answer elapsed = failure "SwitchSpace: timed out waiting for the relay"

abbrev pub same_space : Option String → String → Bool
same_space none id = false
same_space (some s) id = str_eq s id

-- An empty label has the backend choose one.
abbrev pub check_label : String → Checked (Option String)
check_label label = supplied label (validate_space_label label)

module _ (zellij_check : String → Option String) {B : Type 0} (extension : Option Bool)
    (o : Outside B) where
  abbrev pub act_on_space : String → B → Op → Done B
  act_on_space rpc b op = record {
    ops = (b, op) ∷ [];
    sent = [];
    answer = run_space_action rpc (o.acts b op);
  }

  -- The command of a switch to the relay's channel.
  abbrev pub switch_on : ControlEntry → String → Done B
  switch_on e space =
      if o.alive e.sender
      then record {
        ops = [];
        sent = (e.sender, Types.switch_space space o.fresh_reply) ∷ [];
        answer = pass (waited_answer o.waited);
      }
      else answered (pass (failure "SwitchSpace: relay unavailable (tearing down)"))

  abbrev pub switch_at : Option ControlEntry → String → Done B
  switch_at none space = answered (pass reattach)
  switch_at (some e) space = switch_on e space

  -- `switch_space_impl`; `exact_relay` is `resolve_space_relay`.
  unfoldable pub switch_space : String → String → String → Done B
  switch_space session connection_id space_id = finish (do
    _ ← reject_if_read_only extension
    _ ← validate_space_id space_id
    _ ← resolve zellij_check o session
    pass (switch_at (exact_relay o.control session connection_id) space_id))

  -- `create_space_impl`
  unfoldable pub create_space : String → String → Done B
  create_space session label = finish (do
    _ ← reject_if_read_only extension
    (b, _) ← resolve zellij_check o session
    l ← check_label label
    pass (act_on_space "CreateSpace" b (Ops.create_space l)))

  -- `rename_space_impl`
  unfoldable pub rename_space : String → String → String → Done B
  rename_space session space_id label = finish (do
    _ ← reject_if_read_only extension
    (b, _) ← resolve zellij_check o session
    _ ← validate_space_id space_id
    _ ← validate_space_label label
    pass (act_on_space "RenameSpace" b (Ops.rename_space space_id label)))

  -- `repoint_caller_after_close`, as what it adds to the calls and the commands.
  abbrev pub repoint_to : ControlEntry → Option String → List (ℕ × RelayControl)
  repoint_to e none = []
  repoint_to e (some space) =
      if o.alive e.sender then (e.sender, Types.switch_space space o.fresh_reply) ∷ [] else []

  abbrev pub repoint : B → String → Option ControlEntry → Done B → Done B
  repoint b bare none d = d
  repoint b bare (some e) d = record d {
    ops = d.ops ++ (b, Ops.list_spaces bare) ∷ [];
    sent = repoint_to e (repoint_target (o.spaces_after b));
  }

  -- What follows a close that the backend carried out, or did not.
  abbrev pub closed : String → String → String → B → String → ActionAck → Done B
  closed session connection_id space_id b bare ack =
      let calls : List (B × Op) = (b, Ops.list_spaces bare) ∷ (b, Ops.close_space space_id) ∷ [] in
      let done : Done B = record { ops = calls; sent = []; answer = pass (success "") } in
      if ack.ok
      then if same_space (connection_current_space o.view_state session connection_id) space_id
        then repoint b bare (exact_relay o.control session connection_id) done
        else done
      else record { ops = calls; sent = []; answer = pass (to_proto ack) }

  abbrev pub close_result : String → String → String → B → String → Checked ActionAck → Done B
  close_result session connection_id space_id b bare (pass ack) =
      closed session connection_id space_id b bare ack
  close_result session connection_id space_id b bare (reject e) = record {
    ops = (b, Ops.list_spaces bare) ∷ (b, Ops.close_space space_id) ∷ [];
    sent = [];
    answer = reject e;
  }

  -- With the number of spaces before.
  abbrev pub close_if_more : String → String → String → B → String → Checked ℕ → Done B
  close_if_more session connection_id space_id b bare (reject e) = record {
    ops = (b, Ops.list_spaces bare) ∷ [];
    sent = [];
    answer = reject e;
  }
  close_if_more session connection_id space_id b bare (pass count) =
      if would_close_last_space count
      then record {
        ops = (b, Ops.list_spaces bare) ∷ [];
        sent = [];
        answer = pass (failure "cannot close the last space");
      }
      else close_result session connection_id space_id b bare
          (close_answer (o.acts b (Ops.close_space space_id)))

  -- `close_space_impl`
  unfoldable pub close_space : String → String → String → Done B
  close_space session connection_id space_id = finish (do
    _ ← reject_if_read_only extension
    (b, bare) ← resolve zellij_check o session
    _ ← validate_space_id space_id
    pass (close_if_more session connection_id space_id b bare (count_spaces (o.spaces b))))

  -- The listing for `get_spaces_impl`, and the caller's own space in it.
  abbrev pub listed_spaces : Joined (Outcome (List SpaceSnapshot)) → Checked (List SpaceSnapshot)
  listed_spaces (joined (ok spaces)) = pass spaces
  listed_spaces (joined (failed e)) = reject (internal (concat "GetSpaces: " e))
  listed_spaces (panicked e) = reject (internal (concat "GetSpaces: list task panicked: " e))

  abbrev pub mark_active : Option String → SpaceSnapshot → SpaceSnapshot
  mark_active none s = s
  mark_active (some space) s = record s { active = str_eq s.id space }

  -- `get_spaces_impl`
  unfoldable pub get_spaces : String → String → Checked (List SpaceSnapshot)
  unfolding connection_current_space
  get_spaces session connection_id = do
    (b, _) ← resolve zellij_check o session
    spaces ← listed_spaces (o.spaces b)
    pass (map (mark_active (connection_current_space o.view_state session connection_id)) spaces)
