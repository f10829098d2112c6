-- ===== src/Base/Hex.antt =====
-- Hexadecimal numbers as C writes and reads them: `%x` of a 32-bit number, and `strtoll` in base
-- 16 on a text of digits with no sign, blank or `0x` before them.
use Prim.Native.Nat.{min}
use native.Mathlib.Nat.{pow-suc}
use flon.Base.{
  ℕ, zero, suc, ◌+◌, ◌-◌, ◌*◌, ◌/◌, ◌%◌, ◌^◌, ◌<◌, ◌≡◌, ◌≢◌, ◌⊎◌, inl, inr, refl, arith, Bool, true,
  false, ◌&&◌, ◌||◌, [], ◌∷◌, ◌++◌, ltb, leb, ◌==◌, if◌then◌else◌, Bool-cases, ◌∙◌,
}
use flon.Base.Text.{Text, has_byte, codes}
use flon.Base.Lists.{All, All-append}

abbrev pub u32 : ℕ
u32 = 2 ^ 32

unfoldable pub hex_digit : ℕ → ℕ
hex_digit d = if ltb d 10 then d + 48 else d + 87

unfoldable pub is_hex_digit : ℕ → Bool
is_hex_digit c = (leb 48 c && leb c 57) || (leb 97 c && leb c 102)

unfoldable pub digit_value : ℕ → ℕ
digit_value c = if leb c 57 then c - 48 else c - 87

unfoldable pub hex_fuel : ℕ → ℕ → Text
unfolding hex_digit
hex_fuel zero n = []
hex_fuel (suc f) n =
    let front = hex_fuel f (n / 16) in
    if ltb n 16 then hex_digit n ∷ [] else front ++ hex_digit (n % 16) ∷ []

-- `%x` of an unsigned int: eight digits are enough
unfoldable pub hex : ℕ → Text
unfolding hex_fuel
hex n = hex_fuel 8 (n % u32)

unfoldable pub hex_acc : ℕ → Text → ℕ
unfolding is_hex_digit digit_value
hex_acc acc [] = acc
hex_acc acc (c ∷ t) =
    let rest = hex_acc (acc * 16 + digit_value c) t in if is_hex_digit c then rest else acc

-- `strtoll(s, NULL, 16)`: the digits in front, at most LLONG_MAX
unfoldable pub strtoll16 : Text → ℕ
unfolding hex_acc
strtoll16 t = min (hex_acc 0 t) (2 ^ 63 - 1)

abbrev pub AllHex : Text → Type 0
AllHex = All (λ c. is_hex_digit c ≡ true)

-- The grammar's `(0|[1-9a-f][0-9a-f]*)`.
pub record IsPositiveHex (t : Text) : Type 0 where
  pub first : ℕ
  pub rest : Text
  pub splits : t ≡ first ∷ rest
  pub first_hex : is_hex_digit first ≡ true
  pub first_ne_zero : first ≢ b'0'
  pub rest_hex : AllHex rest

abbrev pub IsHex : Text → Type 0
IsHex t = (t ≡ codes "0") ⊎ IsPositiveHex t

hex_digit-is_hex_digit : (d : ℕ) → d < 16 → is_hex_digit (hex_digit d) ≡ true
unfolding hex_digit is_hex_digit
hex_digit-is_hex_digit d h = ground arith

digit_value-hex_digit : (d : ℕ) → d < 16 → digit_value (hex_digit d) ≡ d
unfolding hex_digit digit_value
digit_value-hex_digit d h = ground arith

hex_digit_pos : (d : ℕ) → 0 < d → d < 16 → hex_digit d ≢ b'0'
unfolding hex_digit
hex_digit_pos d p h = ground arith

below_power : (f n : ℕ) → n < 16 ^ suc f → n / 16 < 16 ^ f
below_power f n h = let e = pow-suc 16 f in omega arith

AllHex-hex_fuel : (f n : ℕ) → AllHex (hex_fuel f n)
unfolding hex_fuel
AllHex-hex_fuel zero n = tt
AllHex-hex_fuel (suc f) n = elim (Bool-cases (ltb n 16)) [
  | inl small ↦ rw small (hex_digit-is_hex_digit n (ground arith), tt)
  | inr large ↦ rw large (
      All-append _ (hex_fuel f (n / 16)) _ (AllHex-hex_fuel f (n / 16))
        (hex_digit-is_hex_digit (n % 16) (omega arith), tt))
]

hex_acc-append :
    (acc c : ℕ) (t : Text)
    → AllHex t
    → is_hex_digit c ≡ true
    → hex_acc acc (t ++ c ∷ []) ≡ hex_acc acc t * 16 + digit_value c
unfolding hex_acc
hex_acc-append acc c [] a h = ground arith
hex_acc-append acc c (x ∷ t) a h = ground (arith, hex_acc-append (acc * 16 + digit_value x) c t)

hex_acc_digit : (d : ℕ) → d < 16 → hex_acc 0 (hex_digit d ∷ []) ≡ d
unfolding hex_acc
hex_acc_digit d h = ground (arith, hex_digit-is_hex_digit d h, digit_value-hex_digit d h)

hex_acc-hex_fuel : (f n : ℕ) → n < 16 ^ f → hex_acc 0 (hex_fuel f n) ≡ n
unfolding hex_fuel
hex_acc-hex_fuel zero n h = let e : n ≡ 0 = omega arith in rw e (unfold hex_acc in refl)
hex_acc-hex_fuel (suc f) n h = elim (Bool-cases (ltb n 16)) [
  | inl small ↦ rw small (hex_acc_digit n (ground arith))
  | inr large ↦ rw large (
      hex_acc-append 0 (hex_digit (n % 16)) (hex_fuel f (n / 16)) (AllHex-hex_fuel f (n / 16))
        (hex_digit-is_hex_digit (n % 16) (omega arith))
      ∙ omega (
        arith,
        hex_acc-hex_fuel f (n / 16) (below_power f n h),
        digit_value-hex_digit (n % 16) (omega arith),
      ))
]

IsPositiveHex-append :
    (t : Text) (c : ℕ) → IsPositiveHex t → is_hex_digit c ≡ true → IsPositiveHex (t ++ c ∷ [])
IsPositiveHex-append t c p h = record {
  first = p.first;
  rest = p.rest ++ c ∷ [];
  splits = rw (p.splits);
  first_hex = p.first_hex;
  first_ne_zero = p.first_ne_zero;
  rest_hex = All-append _ p.rest _ p.rest_hex (h, tt);
}

hex_fuel-IsPositiveHex : (f n : ℕ) → 0 < n → n < 16 ^ f → IsPositiveHex (hex_fuel f n)
unfolding hex_fuel
hex_fuel-IsPositiveHex zero n p h = absurd (omega arith)
hex_fuel-IsPositiveHex (suc f) n p h = elim (Bool-cases (ltb n 16)) [
  | inl small ↦ rw small (record {
    first = hex_digit n;
    rest = [];
    splits = refl;
    first_hex = hex_digit-is_hex_digit n (ground arith);
    first_ne_zero = hex_digit_pos n p (ground arith);
    rest_hex = tt;
  })
  | inr large ↦ rw large (
      IsPositiveHex-append (hex_fuel f (n / 16)) (hex_digit (n % 16))
        (hex_fuel-IsPositiveHex f (n / 16) (ground arith) (below_power f n h))
        (hex_digit-is_hex_digit (n % 16) (omega arith)))
]

-- What `%x` writes, `strtoll` reads back.
pub strtoll16-hex : (n : ℕ) → strtoll16 (hex n) ≡ n % u32
unfolding strtoll16 hex
strtoll16-hex n = omega (arith, hex_acc-hex_fuel 8 (n % u32) (omega arith))

pub hex-IsHex : (n : ℕ) → IsHex (hex n)
unfolding hex
hex-IsHex n = elim (Bool-cases (n % u32 == 0)) [
  | inl z ↦ inl (rw (zero_of z) (unfold hex_fuel in refl))
  | inr p ↦ inr (hex_fuel-IsPositiveHex 8 (n % u32) (ground arith) (omega arith))
]
  where
    zero_of : (n % u32 == 0) ≡ true → n % u32 ≡ 0
    zero_of z = ground arith

pub AllHex-hex : (n : ℕ) → AllHex (hex n)
unfolding hex
AllHex-hex n = AllHex-hex_fuel 8 (n % u32)

-- Digits are no separators.
pub has_byte_hex : (c : ℕ) (t : Text) → is_hex_digit c ≡ false → AllHex t → has_byte c t ≡ false
unfolding has_byte
has_byte_hex c [] h a = refl
has_byte_hex c (x ∷ t) h a = elim (Bool-cases (x == c)) [
  | inl e ↦ absurd (clash (eq_of e))
  | inr n ↦ rw n (has_byte_hex c t h a.1)
]
  where
    eq_of : (x == c) ≡ true → x ≡ c
    eq_of e = ground arith

    clash : x ≡ c → ⊥
    clash e = cc (rw e at (a.0))
