-- ===== src/Ctl/Trust.antt =====
-- muxrctl/src/app/state.rs: `AdvertiseTrust`, the operator's choice of trust for the pairing QR,
-- and its text in the state file.
use zellimobile_server.Common.{String, List, ℕ, if◌then◌else◌, ◌≡◌, refl}
use zellimobile_server.Rust.Text.{trim, lower_codes, spells}

pub data AdvertiseTrust : Type 0 where
  auto ca pin : AdvertiseTrust

unfoldable pub cycle : AdvertiseTrust → AdvertiseTrust
cycle auto = ca
cycle ca = pin
cycle pin = auto

pub label : AdvertiseTrust → String
label auto = "Auto"
label ca = "CA (force)"
label pin = "Pin (force)"

unfoldable pub persist_str : AdvertiseTrust → String
persist_str auto = "auto"
persist_str ca = "ca"
persist_str pin = "pin"

trust_of_codes : List ℕ → AdvertiseTrust
unfolding spells
trust_of_codes text = if spells text "ca" then ca else if spells text "pin" then pin else auto

unfoldable pub from_persist_str : String → AdvertiseTrust
unfolding trim lower_codes trust_of_codes
from_persist_str s = trust_of_codes (lower_codes (trim s))

persist_test : from_persist_str " CA\n" ≡ ca
unfolding from_persist_str
persist_test = refl
