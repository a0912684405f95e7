-- ===== src/Ctl/Sans.antt =====
-- muxrctl/src/app/update.rs: `build_sans_from_config`, the names that the certificate covers.
use zellimobile_server.Common.{
  String, Bool, false, ◌||◌, List, [], ◌∷◌, ◌++◌, none, some, str_eq, if◌then◌else◌,
}
use zellimobile_server.Rust.Text.{is_empty, trim}
use zellimobile_server.Rust.Ip.{Ipv4Addr, v4_text, v4_unspecified, parse_ip, is_unspecified}
use zellimobile_server.Ctl.State.{San, ip, from_host, AppState}

-- The hash set of what has been seen, and the list that grows at its end.
pub record Found : Type 0 where
  pub seen : List String
  pub sans : List San

abbrev pub contains : List String → String → Bool
contains [] k = false
contains (j ∷ js) k = str_eq j k || contains js k

-- `if seen.insert(key) { sans.push(san) }`
unfoldable pub add_new : Found → String → San → Found
add_new f key san =
    if contains f.seen key then f else record { seen = key ∷ f.seen; sans = f.sans ++ (san ∷ []) }

-- The text is an IP address, and an unspecified one.
unfoldable pub names_unspecified : String → Bool
names_unspecified s = elim (parse_ip s) [ none ↦ false | some a ↦ is_unspecified a ]

unfoldable pub add_ip : Found → Ipv4Addr → Found
unfolding add_new
add_ip f a = if v4_unspecified a then f else add_new f (v4_text a) (ip (v4_text a))

unfoldable pub add_ips : Found → List Ipv4Addr → Found
add_ips f [] = f
add_ips f (a ∷ r) = add_ips (add_ip f a) r

-- Both for the bind host and for an advertised name, once it is trimmed.
unfoldable pub add_name : Found → String → Found
unfolding add_new
add_name f val = if is_empty val || names_unspecified val then f else add_new f val (from_host val)

unfoldable pub add_names : Found → List String → Found
add_names f [] = f
add_names f (entry ∷ r) = add_names (add_name f (trim entry)) r

unfoldable pub build_sans_from_config : AppState → List San
unfolding add_ips add_ip add_name add_names
build_sans_from_config s =
    let from_ips = add_ips (record { seen = []; sans = [] }) s.config.reachable_ips in
    let with_host = add_name from_ips (trim s.config.host) in
    (add_names with_host s.config.advertise_sans).sans
