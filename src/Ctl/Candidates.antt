-- ===== src/Ctl/Candidates.antt =====
-- The names that a certificate may cover (muxrctl/src/app/update.rs, `build_sans_from_config`),
-- said without the code's own tests: an address is none where its parts add up to nothing.
use zellimobile_server.Common.{
  ℕ, ◌+◌, String, ◌≡◌, refl, Bool, false, ◌||◌, List, [], ◌∷◌, ◌++◌, none, some, ◌==◌, arith,
  if◌then◌else◌, Option,
}
use zellimobile_server.Rust.Text.{trim, is_empty}
use zellimobile_server.Rust.Ip.{
  Ipv4Addr, IpAddr, v4, v6, v4_text, v4_unspecified, parse_ip, is_unspecified, all_zero,
}
use zellimobile_server.Ctl.State.{AppState}
use zellimobile_server.Ctl.Sans.{names_unspecified}

abbrev pub total : List ℕ → ℕ
total [] = 0
total (n ∷ r) = n + total r

abbrev pub is_wildcard : IpAddr → Bool
is_wildcard (v4 octets) = total octets == 0
is_wildcard (v6 groups) = total groups == 0

-- The text reads as an address, and that one is a wildcard.
abbrev pub reads_wildcard : String → Bool
reads_wildcard s = elim (parse_ip s) [ none ↦ false | some a ↦ is_wildcard a ]

abbrev pub ip_candidates : List Ipv4Addr → List String
ip_candidates [] = []
ip_candidates (a ∷ r) =
    if a.a + a.b + a.c + a.d == 0 then ip_candidates r else v4_text a ∷ ip_candidates r

abbrev pub name_candidates : List String → List String
name_candidates [] = []
name_candidates (n ∷ r) =
    if is_empty (trim n) || reads_wildcard (trim n)
    then name_candidates r
    else trim n ∷ name_candidates r

-- The reachable addresses, the bind host and the advertised names, in this order.
abbrev pub candidates : AppState → List String
candidates s =
    ip_candidates s.config.reachable_ips
    ++ name_candidates (s.config.host ∷ s.config.advertise_sans)

all_zero-eq : (l : List ℕ) → all_zero l ≡ (total l == 0)
unfolding all_zero
all_zero-eq [] = refl
all_zero-eq (n ∷ r) = ground (arith, all_zero-eq r)

is_unspecified-eq : (a : IpAddr) → is_unspecified a ≡ is_wildcard a
unfolding is_unspecified
is_unspecified-eq (v4 octets) = all_zero-eq octets
is_unspecified-eq (v6 groups) = all_zero-eq groups

address-eq :
    (a : Option IpAddr)
    → (elim a [ none ↦ false | some x ↦ is_unspecified x ])
      ≡ (elim a [ none ↦ false | some x ↦ is_wildcard x ])
address-eq none = refl
address-eq (some a) = is_unspecified-eq a

-- The code's tests for an unspecified address find the wildcards.
pub names_unspecified-eq : (s : String) → names_unspecified s ≡ reads_wildcard s
unfolding names_unspecified
names_unspecified-eq s = address-eq (parse_ip s)

pub v4_unspecified-eq : (a : Ipv4Addr) → v4_unspecified a ≡ (a.a + a.b + a.c + a.d == 0)
unfolding v4_unspecified
v4_unspecified-eq a = ground arith
