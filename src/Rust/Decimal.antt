-- ===== src/Rust/Decimal.antt =====
-- Numbers as texts, as `to_string` writes them.
use zellimobile_server.Common.{ℕ, zero, suc, ◌/◌, ◌%◌, String, ltb, if◌then◌else◌, ◌≡◌, refl}
use zellimobile_server.Rust.Text.{concat}

unfoldable pub digit : ℕ → String
digit zero = "0"
digit (suc zero) = "1"
digit (suc (suc zero)) = "2"
digit (suc (suc (suc zero))) = "3"
digit (suc (suc (suc (suc zero)))) = "4"
digit (suc (suc (suc (suc (suc zero))))) = "5"
digit (suc (suc (suc (suc (suc (suc zero)))))) = "6"
digit (suc (suc (suc (suc (suc (suc (suc zero))))))) = "7"
digit (suc (suc (suc (suc (suc (suc (suc (suc zero)))))))) = "8"
digit _ = "9"

-- In at most `places + 1` digits, with no leading zero.
decimal : ℕ → ℕ → String
unfolding digit
decimal zero n = digit n
decimal (suc places) n =
    let front = decimal places (n / 10) in
    if ltb n 10 then digit n else concat front (digit (n % 10))

-- `to_string` of a `u16`, which has at most five digits.
unfoldable pub u16_text : ℕ → String
unfolding decimal
u16_text n = decimal 4 n

-- `to_string` of a `u64`, which has at most twenty.
unfoldable pub u64_text : ℕ → String
unfolding decimal
u64_text n = decimal 19 n

u16_test : (u16_text 50051 ≡ "50051") × (u16_text 443 ≡ "443") × (u16_text 0 ≡ "0")
unfolding u16_text
u16_test = (refl, refl, refl)
