-- ===== src/Floats.antt =====
-- The `float` operations of the source on the bit patterns of IEEE 754 binary32: `==` between two
-- floats, and the rounding of (double)k / 100.0 to a float for the values that txGen.c draws.
use projeto_so.Base.{
  ℕ, zero, suc, ◌+◌, ◌-◌, ◌*◌, ◌/◌, ◌%◌, ◌^◌, ◌≡◌, refl, Bool, ◌&&◌, ◌||◌, not, ltb, ◌==◌,
  if◌then◌else◌,
}

-- The magnitude is above that of infinity.
unfoldable pub is_nan : ℕ → Bool
is_nan a = ltb 0x7f80_0000 (a % 2 ^ 31)

unfoldable pub is_zero : ℕ → Bool
is_zero a = (a % 2 ^ 31) == 0

-- `a == b` of floats: NaN equals nothing, and the two zeros are equal.
unfoldable pub float_eq : ℕ → ℕ → Bool
unfolding is_nan is_zero
float_eq a b = not (is_nan a) && (not (is_nan b) && (a == b || (is_zero a && is_zero b)))

-- n / d to the nearest integer, ties to even.
unfoldable pub round_half_even : ℕ → ℕ → ℕ
round_half_even n d =
    let q = n / d in
    let twice = 2 * (n % d) in if ltb twice d then q else if ltb d twice then q + 1 else q + q % 2

-- The largest scale s, from `s` down, at which k * 2 ^ s / 100 is below 2 ^ 53.
unfoldable pub hundredths_scale : ℕ → ℕ → ℕ
hundredths_scale zero k = 0
hundredths_scale (suc s) k =
    let less = hundredths_scale s k in if ltb (k * 2 ^ suc s) (100 * 2 ^ 53) then suc s else less

-- The bits of (float)((double)k / 100.0): rounded to 53 bits, then to 24, for 0 ≤ k < 10000. The
-- scale 59 is that of 0.01.
unfoldable pub hundredths : ℕ → ℕ
unfolding round_half_even hundredths_scale
hundredths k =
    let scale = hundredths_scale 59 k in
    let double = round_half_even (k * 2 ^ scale) 100 in
    let float = round_half_even double (2 ^ 29) in
    if k == 0 then 0 else (179 - scale) * 2 ^ 23 + (float - 2 ^ 23)

-- 0.01, 1.0, 3.14 and 99.99
hundredths_examples :
    (hundredths 1 ≡ 0x3c23_d70a)
    × (hundredths 100 ≡ 0x3f80_0000)
    × (hundredths 314 ≡ 0x4048_f5c3)
    × (hundredths 9999 ≡ 0x42c7_fae1)
unfolding hundredths
hundredths_examples = (refl, refl, refl, refl)
