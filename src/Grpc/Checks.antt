-- ===== src/Grpc/Checks.antt =====
-- The checks of what a client supplies, in muxrd/src/grpc/helpers.rs and space_ops.rs. A byte of a
-- character beyond ASCII is in none of the sets, so a test of all bytes is one of all characters.
use Prim.Native.String.{[], ◌∷◌}
use zellimobile_server.Common.{
  ℕ, Char, code, String, Bool, true, none, some, ◌&&◌, ◌||◌, not, Option, ltb, leb, ◌==◌,
  if◌then◌else◌,
}
use zellimobile_server.Rust.Text.{is_empty}
use zellimobile_server.Rust.Bytes.{byte_len}
use zellimobile_server.Server.Routing
use zellimobile_server.Server.Routing.{all_name_chars, validate_session}
use zellimobile_server.Grpc.Control.{Checked, pass, reject, invalid_argument, routing}

abbrev pub is_alphanumeric : Char → Bool
is_alphanumeric c =
    (leb b'0' (code c) && leb (code c) b'9')
    || (leb b'a' (code c) && leb (code c) b'z')
    || (leb b'A' (code c) && leb (code c) b'Z')

abbrev pub is_label_char : Char → Bool
is_label_char c =
    is_alphanumeric c || code c == b' ' || code c == b'_' || code c == b'-' || code c == b'.'

abbrev pub is_id_char : Char → Bool
is_id_char c =
    is_alphanumeric c || code c == b'_' || code c == b'-' || code c == b'.' || code c == b':'

-- `chars().all(…)`
unfoldable pub all_chars : (Char → Bool) → String → Bool
all_chars p [] = true
all_chars p (c ∷ s) = p c && all_chars p s

abbrev pub max_space_label_len : ℕ
max_space_label_len = 64

abbrev pub max_space_id_len : ℕ
max_space_id_len = 128

-- `validate_layout_name`; the message also quotes the layout.
unfoldable pub validate_layout_name : String → Checked (Unit {0})
validate_layout_name layout =
    if is_empty layout || not (all_name_chars layout)
    then reject (invalid_argument "only a bare layout name [A-Za-z0-9_-] is allowed")
    else pass tt

-- `validate_space_label`
unfoldable pub validate_space_label : String → Checked (Unit {0})
unfolding all_chars
validate_space_label label =
    if is_empty label
    then reject (invalid_argument "space label must not be empty")
    else if ltb max_space_label_len (byte_len label)
    then reject (invalid_argument "space label too long (max 64 bytes)")
    else if not (all_chars is_label_char label)
    then reject (
        invalid_argument
          "invalid space label: only [A-Za-z0-9], space, and the characters _-. are allowed")
    else pass tt

-- `validate_space_id`
unfoldable pub validate_space_id : String → Checked (Unit {0})
unfolding all_chars
validate_space_id id =
    if is_empty id
    then reject (invalid_argument "space_id must not be empty")
    else if ltb max_space_id_len (byte_len id)
    then reject (invalid_argument "space_id too long (max 128 bytes)")
    else if not (all_chars is_id_char id)
    then reject (invalid_argument "invalid space_id: only [A-Za-z0-9_-.:] characters are allowed")
    else pass tt

-- `validate_session`, as a check.
unfoldable pub check_session : (String → Option String) → String → Checked (Unit {0})
unfolding validate_session
check_session zellij_check name = elim (validate_session zellij_check name) [
  | Routing.ok _ ↦ pass tt
  | Routing.err e ↦ reject (routing e)
]

-- What may be left out: an empty text is none, any other is checked.
abbrev pub labelled : String → Checked (Unit {0}) → Checked (Option String)
labelled s (pass _) = pass (some s)
labelled s (reject e) = reject e

abbrev pub supplied : String → Checked (Unit {0}) → Checked (Option String)
supplied s checked = if is_empty s then pass none else labelled s checked
