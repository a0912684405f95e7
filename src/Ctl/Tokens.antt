-- ===== src/Ctl/Tokens.antt =====
-- muxrctl/src/app/update.rs: the Tokens screen, its list and its create form.
use zellimobile_server.Common.{
  ℕ, ◌+◌, ◌%◌, ◌^◌, String, Bool, true, false, not, ◌&&◌, ◌||◌, [], ◌∷◌, Option, none, some, length,
  if◌then◌else◌,
}
use zellimobile_server.Rust.Text.{is_empty, trim, push, pop, concat}
use zellimobile_server.Ctl.State.{
  AppState, TokensState, TokensFormPhase, browsing, creating, generating, selected_name,
}
use zellimobile_server.Ctl.Message.{
  KeyEvent, KeyCode, char, enter, esc, backspace, up, down, is_char, UpdateAction,
}
use zellimobile_server.Ctl.Config.{Step, cursor_down, cursor_up}

abbrev pub set_tokens : AppState → TokensState → AppState
set_tokens s t = record s { tokens = t }

abbrev pub u64_mod : ℕ
u64_mod = 2 ^ 64

abbrev pub has_tokens : AppState → Bool
has_tokens s = elim s.tokens.tokens [ [] ↦ false | _ ∷ _ ↦ true ]

move_row : (ℕ → ℕ → ℕ) → AppState → Step
move_row move s =
    if has_tokens s
    then (
      set_tokens s (record (s.tokens) { cursor = move s.tokens.cursor (length s.tokens.tokens) }),
      [],
    )
    else (s, [])

open_form : AppState → Step
open_form s = (
  set_tokens s
      (record (s.tokens) { form_phase = creating; form_name = ""; form_read_only = false }),
  [],
)

revoke_selected : AppState → Step
unfolding selected_name
revoke_selected s = elim (selected_name s.tokens) [
  | none ↦ (s, [])
  | some name ↦ if s.tokens.loading then (s, []) else (
    set_tokens s (record (s.tokens) {
      loading = true;
      status = concat "Revoking '" (concat name "'…");
      last_minted_secret = none;
    }),
    UpdateAction.revoke_token name ∷ [],
  )
]

reload_tokens : AppState → Step
reload_tokens s = if s.tokens.loading then (s, []) else (
  set_tokens s (record (s.tokens) { loading = true; status = "Refreshing…" }),
  UpdateAction.load_tokens ∷ [],
)

-- Opens the overlay for the token that was just minted, under a new sequence number.
show_qr : AppState → Step
show_qr s = elim s.tokens.last_minted_secret [
  | none ↦ (
    set_tokens s
        (record (s.tokens) { status = "Create a token first, then press Enter to show its QR." }),
    [],
  )
  | some m ↦
      let seq = (s.qr_seq + 1) % u64_mod in
      (
        record s {
          qr_seq = seq;
          qr_overlay = some (record {
            phase = generating;
            seq = seq;
            baseline_clients = 0;
            token_name = m.name;
            read_only = m.read_only;
            tick_counter = 0;
          });
        },
        UpdateAction.show_token_qr m.secret m.read_only seq s.cert.advertise_trust ∷ [],
      )
]

drop_secret : AppState → Step
drop_secret s = (set_tokens s (record (s.tokens) { last_minted_secret = none }), [])

browsing_char : AppState → KeyCode → Step
unfolding move_row open_form revoke_selected reload_tokens
browsing_char s k =
    if is_char b'j' k
    then move_row cursor_down s
    else if is_char b'k' k
    then move_row cursor_up s
    else if is_char b'c' k
    then open_form s
    else if is_char b'd' k || is_char b'x' k
    then revoke_selected s
    else if is_char b'r' k
    then reload_tokens s
    else (s, [])

browsing_key : AppState → KeyCode → Step
unfolding move_row show_qr drop_secret browsing_char
browsing_key s down = move_row cursor_down s
browsing_key s up = move_row cursor_up s
browsing_key s enter = show_qr s
browsing_key s esc = drop_secret s
browsing_key s k = browsing_char s k

cancel_form : AppState → Step
cancel_form s = (set_tokens s (record (s.tokens) { form_phase = browsing; form_name = "" }), [])

-- No name where the trimmed text is empty.
abbrev pub name_or_none : String → Option String
name_or_none name = if is_empty name then none else some name

submit_form : AppState → Step
submit_form s = if s.tokens.loading then (s, []) else (
  set_tokens s (record (s.tokens) { loading = true; status = "Creating token…" }),
  UpdateAction.create_token (name_or_none (trim s.tokens.form_name)) s.tokens.form_read_only ∷ [],
)

creating_key : AppState → KeyCode → Bool → Step
unfolding cancel_form submit_form
creating_key s esc ctrl = cancel_form s
creating_key s enter ctrl = submit_form s
creating_key s backspace ctrl =
    (set_tokens s (record (s.tokens) { form_name = pop s.tokens.form_name }), [])
creating_key s (char c) ctrl =
    if is_char b' ' (char c) && ctrl
    then (set_tokens s (record (s.tokens) { form_read_only = not s.tokens.form_read_only }), [])
    else (set_tokens s (record (s.tokens) { form_name = push s.tokens.form_name c }), [])
creating_key s _ ctrl = (s, [])

tokens_key_in : TokensFormPhase → AppState → KeyEvent → Step
unfolding browsing_key creating_key
tokens_key_in browsing s k = browsing_key s k.code
tokens_key_in creating s k = creating_key s k.code k.ctrl

-- `handle_tokens_key`
unfoldable pub handle_tokens_key : AppState → KeyEvent → Step
unfolding tokens_key_in
handle_tokens_key s k = tokens_key_in s.tokens.form_phase s k
