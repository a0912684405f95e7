-- ===== src/Rust/Ip.antt =====
-- `IpAddr::from_str`, `IpAddr::is_unspecified` and the text of an `Ipv4Addr`, as the source uses
-- them. The parser follows the standard library's: a number with a limit on its digits, four
-- octets, and groups of hexadecimal digits with one `::` and a trailing dotted address.
use Prim.Native.String.{[], ◌∷◌}
use zellimobile_server.Common.{
  ℕ, zero, suc, ◌+◌, ◌-◌, ◌*◌, ◌/◌, ◌%◌, code, String, Bool, true, false, not, ◌&&◌, Option, none,
  some, List, [], ◌∷◌, ◌++◌, ltb, leb, ◌==◌, if◌then◌else◌, ◌≡◌, refl, length,
}
use zellimobile_server.Rust.Decimal.{digit}
use zellimobile_server.Rust.Text.{concat}

infixl 5 ◌>>=◌
abbrev ◌>>=◌ {ℓ κ} : {A : Type ℓ} {B : Type κ} → Option A → (A → Option B) → Option B
none >>= f = none
some a >>= f = f a

-- `char::to_digit`
to_digit : ℕ → ℕ → Option ℕ
to_digit radix n =
    if leb b'0' n && leb n b'9' && ltb (n - b'0') radix
    then some (n - b'0')
    else if leb b'a' n && leb n b'z' && ltb (n - b'a' + 10) radix
    then some (n - b'a' + 10)
    else if leb b'A' n && leb n b'Z' && ltb (n - b'A' + 10) radix
    then some (n - b'A' + 10)
    else none

-- The value, how many digits there were, and what follows them.
digit_loop : ℕ → ℕ → ℕ → ℕ → String → Option (ℕ × ℕ × String)
digit_loop radix most acc count [] = some (acc, count, [])
digit_loop radix most acc count (c ∷ s) = elim (to_digit radix (code c)) [
  | none ↦ some (acc, count, c ∷ s)
  | some d ↦
      if leb (suc count) most then digit_loop radix most (acc * radix + d) (suc count) s else none
]

starts_with_zero : String → Bool
starts_with_zero [] = false
starts_with_zero (c ∷ _) = code c == b'0'

read_number : ℕ → ℕ → Bool → ℕ → String → Option (ℕ × String)
unfolding to_digit digit_loop starts_with_zero
read_number radix most zero_prefix limit s = digit_loop radix most 0 0 s >>= λ (n, count, rest).
    if count == 0
    then none
    else if not zero_prefix && starts_with_zero s && ltb 1 count
    then none
    else if leb n limit
    then some (n, rest)
    else none

read_char : ℕ → String → Option String
read_char n [] = none
read_char n (c ∷ s) = if code c == n then some s else none

-- `read_separator`: no separator before the first
read_separator : ℕ → ℕ → String → Option String
unfolding read_char
read_separator sep zero s = some s
read_separator sep (suc i) s = read_char sep s

read_octet : ℕ → String → Option (ℕ × String)
unfolding read_number read_separator
read_octet i s = do rest ← read_separator b'.' i s; read_number 10 3 false 255 rest

read_v4 : String → Option (List ℕ × String)
unfolding read_octet
read_v4 s = do
  (a, s₁) ← read_octet 0 s
  (b, s₂) ← read_octet 1 s₁
  (c, s₃) ← read_octet 2 s₂
  (d, s₄) ← read_octet 3 s₃
  some (a ∷ b ∷ c ∷ d ∷ [], s₄)

-- An address in dotted form takes the place of two groups, where two are left.
read_embedded : ℕ → ℕ → String → Option (List ℕ × String)
unfolding read_v4 read_separator
read_embedded zero i s = none
read_embedded (suc _) i s = do
  rest ← read_separator b':' i s
  (octets, rest') ← read_v4 rest
  some (octets, rest')

pairs : List ℕ → List ℕ
pairs (a ∷ b ∷ r) = (a * 256 + b) ∷ pairs r
pairs r = []

read_group : ℕ → String → Option (ℕ × String)
unfolding read_number read_separator
read_group i s = do rest ← read_separator b':' i s; read_number 16 4 true 65535 rest

pub record Groups : Type 0 where
  pub found : List ℕ
  pub dotted : Bool
  pub rest : String

read_groups : ℕ → ℕ → String → Groups
unfolding read_embedded pairs read_group
read_groups zero i s = record { found = []; dotted = false; rest = s }
read_groups (suc left) i s = elim (read_embedded left i s) [
  | some (octets, r) ↦ record { found = pairs octets; dotted = true; rest = r }
  | none ↦ elim (read_group i s) [
    | none ↦ record { found = []; dotted = false; rest = s }
    | some (g, r) ↦ let more = read_groups left (suc i) r in record more { found = g ∷ more.found }
  ]
]

zeros : ℕ → List ℕ
zeros zero = []
zeros (suc n) = 0 ∷ zeros n

read_v6_tail : List ℕ → String → Option (List ℕ × String)
unfolding read_groups read_char zeros
read_v6_tail head s = do
  s₁ ← read_char b':' s
  s₂ ← read_char b':' s₁
  let tail = read_groups (8 - (length head + 1)) 0 s₂
  some (head ++ (zeros (8 - length head - length tail.found) ++ tail.found), tail.rest)

read_v6 : String → Option (List ℕ × String)
unfolding read_v6_tail
read_v6 s =
    let head = read_groups 8 0 s in
    if length head.found == 8
    then some (head.found, head.rest)
    else if head.dotted
    then none
    else read_v6_tail head.found head.rest

pub data IpAddr : Type 0 where
  v4 v6 : List ℕ → IpAddr

whole : Option (IpAddr × String) → Option IpAddr
whole none = none
whole (some (ip, [])) = some ip
whole (some (ip, _ ∷ _)) = none

read_ip : String → Option (IpAddr × String)
unfolding read_v4 read_v6
read_ip s = elim (read_v4 s) [
  | some (octets, rest) ↦ some (v4 octets, rest)
  | none ↦ elim (read_v6 s) [ some (groups, rest) ↦ some (v6 groups, rest) | none ↦ none ]
]

-- `s.parse::<IpAddr>().ok()`
unfoldable pub parse_ip : String → Option IpAddr
unfolding read_ip whole
parse_ip s = whole (read_ip s)

unfoldable pub all_zero : List ℕ → Bool
all_zero [] = true
all_zero (n ∷ r) = n == 0 && all_zero r

unfoldable pub is_unspecified : IpAddr → Bool
unfolding all_zero
is_unspecified (v4 octets) = all_zero octets
is_unspecified (v6 groups) = all_zero groups

-- `IpAddr::is_loopback`: 127.0.0.0/8, and ::1.
abbrev is_one_at_end : List ℕ → Bool
is_one_at_end [] = false
is_one_at_end (n ∷ []) = n == 1
is_one_at_end (n ∷ m ∷ r) = n == 0 && is_one_at_end (m ∷ r)

unfoldable pub is_loopback : IpAddr → Bool
is_loopback (v4 []) = false
is_loopback (v4 (n ∷ _)) = n == 127
is_loopback (v6 groups) = is_one_at_end groups

-- `Ipv4Addr`
pub record Ipv4Addr : Type 0 where
  pub a : ℕ
  pub b : ℕ
  pub c : ℕ
  pub d : ℕ

unfoldable pub v4_unspecified : Ipv4Addr → Bool
v4_unspecified ip = ip.a == 0 && ip.b == 0 && ip.c == 0 && ip.d == 0

-- An octet in decimal, with no leading zero.
octet_text : ℕ → String
unfolding digit
octet_text n =
    if ltb n 10
    then digit n
    else if ltb n 100
    then concat (digit (n / 10)) (digit (n % 10))
    else concat (digit (n / 100)) (concat (digit (n / 10 % 10)) (digit (n % 10)))

-- `ip.to_string()`
unfoldable pub v4_text : Ipv4Addr → String
unfolding octet_text
v4_text ip = concat (octet_text ip.a) (
    concat "." (
      concat (octet_text ip.b)
        (concat "." (concat (octet_text ip.c) (concat "." (octet_text ip.d))))))

text_test : v4_text (record { a = 192; b = 168; c = 1; d = 50 }) ≡ "192.168.1.50"
unfolding v4_text
text_test = refl

parse_v4_test : parse_ip "10.0.0.255" ≡ some (v4 (10 ∷ 0 ∷ 0 ∷ 255 ∷ []))
unfolding parse_ip
parse_v4_test = refl

parse_bad_test :
    (parse_ip "10.0.0.256" ≡ none)
    × (parse_ip "10.0.0" ≡ none)
    × (parse_ip "10.0.00.1" ≡ none)
    × (parse_ip "server.local" ≡ none)
    × (parse_ip "1::2::3" ≡ none)
unfolding parse_ip
parse_bad_test = (refl, refl, refl, refl, refl)

parse_v6_test : parse_ip "fe80::1:10.0.0.1" ≡ some (v6 (0xfe80 ∷ 0 ∷ 0 ∷ 0 ∷ 0 ∷ 1 ∷ 2560 ∷ 1 ∷ []))
unfolding parse_ip
parse_v6_test = refl
