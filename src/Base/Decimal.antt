-- ===== src/Base/Decimal.antt =====
-- Decimal numbers as C writes them: `%zu` of a 64-bit number.
use flon.Base.{
  ℕ, zero, suc, ◌+◌, ◌*◌, ◌/◌, ◌%◌, ◌^◌, ◌<◌, ◌≡◌, arith, [], ◌∷◌, ◌++◌, ltb, if◌then◌else◌,
}
use flon.Base.Text.{Text}
use flon.Base.Hex.{hex, hex_digit}

abbrev pub u64 : ℕ
u64 = 2 ^ 64

unfoldable pub decimal_fuel : ℕ → ℕ → Text
decimal_fuel zero n = []
decimal_fuel (suc f) n =
    let front = decimal_fuel f (n / 10) in
    if ltb n 10 then (n + 48) ∷ [] else front ++ (n % 10 + 48) ∷ []

-- `%zu`: twenty digits are enough
unfoldable pub decimal : ℕ → Text
unfolding decimal_fuel
decimal n = decimal_fuel 20 (n % u64)

-- One digit reads the same in both bases.
pub decimal-hex : (n : ℕ) → n < 10 → decimal n ≡ hex n
unfolding decimal hex hex_digit
decimal-hex n h = ground arith

unfoldable pub decimal_digits : Text → ℕ → ℕ
decimal_digits [] acc = acc
decimal_digits (c ∷ t) acc = decimal_digits t (acc * 10 + c % 48)
