-- ===== src/Ctl/Config.antt =====
-- muxrctl/src/app/update.rs: the Config screen, its text fields, its picker, saving and reloading.
use zellimobile_server.Common.{
  ℕ, ◌+◌, ◌-◌, ◌%◌, Bool, true, false, ◌&&◌, List, [], ◌∷◌, Option, none, some, length, get_elem?,
  if◌then◌else◌,
}
use zellimobile_server.Rust.Text.{is_empty, trim, push, pop, parse_u16, is_ascii_digit}
use zellimobile_server.Rust.Ip.{v4_text}
use zellimobile_server.Ctl.State.{
  AppState, ConfigState, ConfigField, host, port, ip_picker, is_text_field, bind_addr,
}
use zellimobile_server.Ctl.Message.{
  KeyEvent, KeyCode, char, tab, back_tab, enter, backspace, up, down, is_char, UpdateAction,
}

-- A handler returns the new state and the effects.
abbrev pub Step : Type 0
Step = AppState × List UpdateAction

abbrev pub set_config : AppState → ConfigState → AppState
set_config s c = record s { config = c }

abbrev pub is_none {ℓ} : {A : Type ℓ} → Option A → Bool
is_none none = true
is_none (some _) = false

-- `config_save`
unfoldable pub config_save : AppState → Step
config_save s =
    if s.config.loading
    then (s, [])
    else if is_empty (trim s.config.host)
    then (set_config s (record (s.config) { status = "Error: bind host must not be empty." }), [])
    else if is_none (parse_u16 (trim s.config.port))
    then (
      set_config s (record (s.config) { status = "Error: port must be a number in 1..=65535." }),
      [],
    )
    else (
      set_config s (record (s.config) { loading = true; status = "Saving…" }),
      UpdateAction.save_bind (bind_addr s.config) ∷ [],
    )

-- `config_reload`
unfoldable pub config_reload : AppState → Step
config_reload s = if s.config.loading then (s, []) else (
  set_config s (record (s.config) { loading = true; status = "Loading…" }),
  UpdateAction.load_config ∷ [],
)

abbrev pub has_ips : AppState → Bool
has_ips s = elim s.config.reachable_ips [ [] ↦ false | _ ∷ _ ↦ true ]

abbrev focus : AppState → ConfigField → Step
focus s f = (set_config s (record (s.config) { focused = f }), [])

host_key : AppState → KeyCode → Step
unfolding config_save
host_key s tab = focus s port
host_key s down = focus s port
host_key s enter = config_save s
host_key s backspace = (set_config s (record (s.config) { host = pop s.config.host }), [])
host_key s (char c) = (set_config s (record (s.config) { host = push s.config.host c }), [])
host_key s _ = (s, [])

port_key : AppState → KeyCode → Step
unfolding config_save
port_key s tab = if has_ips s then focus s ip_picker else (s, [])
port_key s down = if has_ips s then focus s ip_picker else (s, [])
port_key s up = focus s host
port_key s back_tab = focus s host
port_key s enter = config_save s
port_key s backspace = (set_config s (record (s.config) { port = pop s.config.port }), [])
port_key s (char c) =
    if is_ascii_digit c
    then (set_config s (record (s.config) { port = push s.config.port c }), [])
    else (s, [])
port_key s _ = (s, [])

-- The cursor one further, and one back, round the list.
abbrev pub cursor_down : ℕ → ℕ → ℕ
cursor_down cursor len = (cursor + 1) % len

abbrev pub cursor_up : ℕ → ℕ → ℕ
cursor_up cursor len = (cursor + len - 1) % len

move_ip : (ℕ → ℕ → ℕ) → AppState → Step
move_ip move s =
    if has_ips s
    then (
      set_config s (record (s.config) {
        ip_cursor = move s.config.ip_cursor (length s.config.reachable_ips);
      }),
      [],
    )
    else (s, [])

pick_ip : AppState → Step
pick_ip s = elim (get_elem? s.config.reachable_ips s.config.ip_cursor) [
  | none ↦ (s, [])
  | some ip ↦ (set_config s (record (s.config) { host = v4_text ip; focused = port }), [])
]

picker_key : AppState → KeyCode → Step
unfolding move_ip pick_ip config_save config_reload
picker_key s down = move_ip cursor_down s
picker_key s up = move_ip cursor_up s
picker_key s tab = focus s host
picker_key s back_tab = focus s port
picker_key s enter = pick_ip s
picker_key s (char c) =
    if is_char b's' (char c)
    then config_save s
    else if is_char b'r' (char c)
    then config_reload s
    else (s, [])
picker_key s _ = (s, [])

field_key : ConfigField → AppState → KeyCode → Step
unfolding host_key port_key picker_key
field_key host s k = host_key s k
field_key port s k = port_key s k
field_key ip_picker s k = picker_key s k

-- `handle_config_key`
unfoldable pub handle_config_key : AppState → KeyEvent → Step
unfolding field_key config_save config_reload
handle_config_key s k =
    if k.ctrl && is_text_field s.config.focused && is_char b's' k.code
    then config_save s
    else if k.ctrl && is_text_field s.config.focused && is_char b'r' k.code
    then config_reload s
    else field_key s.config.focused s k.code
