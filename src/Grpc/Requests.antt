-- ===== src/Grpc/Requests.antt =====
-- The requests for tabs, panes, spaces and sessions that muxrd/src/grpc answers by an acknowledgement,
-- and what a handler does. The message's fields are the proto's.
use zellimobile_server.Common.{
  ℕ, String, Bool, List, [], ◌∷◌, Option, none, some, if◌then◌else◌, ◌≡◌, refl,
}
use zellimobile_server.Rust.Text.{is_empty}
use zellimobile_server.Mux.{PaneRef, SpaceSnapshot, Outcome}
use zellimobile_server.Mux.Ops.{ActionAck, Op}
use zellimobile_server.Server.Backends.{BackendSet}
use zellimobile_server.Server.Routing
use zellimobile_server.Server.Routing.{resolve_session}
use zellimobile_server.Relay.Types.{FloatingHint, RelayControl, ControlEntry, ViewStateEntry}
use zellimobile_server.Relay.Attach.{Joined}
use zellimobile_server.Grpc.Control.{
  ProtoAck, ProtoBackend, Status, Checked, pass, reject, ◌>>=◌, routing, run_action,
}

pub record PaneTarget : Type 0 where
  pub session : String
  pub pane_id : ℕ
  pub is_plugin : Bool
  pub connection_id : String

-- `pane_ref`
abbrev pub pane_ref : PaneTarget → PaneRef
pane_ref t = record { id = t.pane_id; is_plugin = t.is_plugin }

pub data Rpc : Type 0 where
  new_tab : (session tab_name : String) → Rpc
  close_tab : (session : String) (tab_id : ℕ) → Rpc
  go_to_tab : (session connection_id : String) (tab_id : ℕ) → Rpc
  rename_tab : (session : String) (tab_id : ℕ) (name : String) → Rpc
  write_to_pane : (target : Option PaneTarget) (bytes : List ℕ) → Rpc
  focus_pane : (target : PaneTarget) → Rpc
  close_pane : (target : PaneTarget) → Rpc
  new_pane : (session : String) (floating : Bool) (pane_name : String) → Rpc
  rename_pane : (target : Option PaneTarget) (name : String) → Rpc
  resize_pane : (target : Option PaneTarget) (resize direction : ℕ) → Rpc
  toggle_pane_floating : (target : PaneTarget) → Rpc
  toggle_pane_fullscreen :
      (target : Option PaneTarget) (has_floating_hint : Bool) (hint : FloatingHint) → Rpc
  scroll_pane : (target : Option PaneTarget) (direction : ℕ) → Rpc
  switch_space : (session connection_id space_id : String) → Rpc
  create_space : (session label : String) → Rpc
  rename_space : (session space_id label : String) → Rpc
  close_space : (session connection_id space_id : String) → Rpc
  rename_session : (session name : String) → Rpc
  kill_session : (session : String) → Rpc
  create_session : (backend : Option ProtoBackend) (name layout : String) → Rpc

-- How the wait for a relay's reply ends.
pub data Waited : Type 0 where
  replied : Outcome (Unit {0}) → Waited
  cancelled : Waited
  elapsed : Waited

-- What a handler finds outside: the registries, which channels are open, and what the backends' calls
-- return. Spaces are listed at most twice, the second time after a close;
-- `fresh_reply` is the number of a new reply's channel.
pub record Outside (B : Type 0) : Type 0 where
  pub backends : BackendSet B
  pub control : List (String × ControlEntry)
  pub view_state : List (String × ViewStateEntry)
  pub alive : ℕ → Bool
  pub acts : B → Op → Joined (Outcome ActionAck)
  pub kills : B → String → Joined (Outcome (Unit {0}))
  pub spaces : B → Joined (Outcome (List SpaceSnapshot))
  pub spaces_after : B → Joined (Outcome (List SpaceSnapshot))
  pub waited : Waited
  pub fresh_reply : ℕ

-- The calls of backends and the commands to relays that a handler makes, and its answer.
pub record Done (B : Type 0) : Type 0 where
  pub ops : List (B × Op)
  pub sent : List (ℕ × RelayControl)
  pub answer : Checked ProtoAck

module _ {B : Type 0} where
  abbrev pub answered : Checked ProtoAck → Done B
  answered a = record { ops = []; sent = []; answer = a }

  -- A chain of checks ends in what the handler does, or in the first refusal.
  abbrev pub finish : Checked (Done B) → Done B
  finish (pass d) = d
  finish (reject e) = answered (reject e)

  -- `run_action`, with the call of the backend.
  abbrev pub act : Outside B → String → B → Op → Done B
  act o rpc b op = record { ops = (b, op) ∷ []; sent = []; answer = run_action rpc (o.acts b op) }

  abbrev pub to_checked : Routing.Result (B × String) → Checked (B × String)
  to_checked (Routing.ok r) = pass r
  to_checked (Routing.err e) = reject (routing e)

  -- `MuxrService::resolve_session`
  unfoldable pub resolve : (String → Option String) → Outside B → String → Checked (B × String)
  unfolding resolve_session
  resolve zellij_check o id = to_checked (resolve_session zellij_check o.backends id)

-- A fact of what handlers do, along a chain of checks: what follows a check may use that it passed.
pub finish-then :
    {A B : Type 0} (P : Done B → Type 0) (m : Checked A) (k : A → Checked (Done B))
    → ((e : Status) → P (answered (reject e)))
    → ((a : A) → m ≡ pass a → P (finish (k a)))
    → P (finish (m >>= k))
finish-then P (pass a) k refusal h = h a refl
finish-then P (reject e) k refusal h = refusal e

-- A name that is empty is none.
abbrev pub non_empty : String → Option String
non_empty s = if is_empty s then none else some s
