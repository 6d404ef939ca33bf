-- ===== src/Float32.antt =====
-- Go's float32, as the sources use it: equality, and the quotient of a 24-bit number by 1000. A
-- float is its IEEE 754 bit pattern, a number below 2 ^ 32.

use vcs_srs_server.Base.{
  ℕ, zero, suc, ◌+◌, ◌-◌, ◌*◌, ◌/◌, ◌%◌, ◌^◌, ◌≡◌, refl, Bool, false, not, ◌&&◌, ◌||◌, List, [],
  ◌∷◌, ltb, leb, if◌then◌else◌, ◌==◌, nat_eq, string_eq,
}

abbrev pub Float32 : Type 0
Float32 = ℕ

-- All bits of the exponent are set, and one of the fraction.
pub is_nan : Float32 → Bool
is_nan x = ltb 0x7f80_0000 (x % 2 ^ 31)

-- a == b: a NaN equals nothing, and the two zeros are equal.
unfoldable pub float_eq : Float32 → Float32 → Bool
unfolding is_nan
float_eq a b = not (is_nan a) && not (is_nan b) && (a == b || (a % 2 ^ 31 == 0 && b % 2 ^ 31 == 0))

-- The binary places by which n / 1000 is scaled into 24 bits, tried from `k` on.
normal_shift : ℕ → ℕ → ℕ → ℕ
normal_shift zero n k = k
normal_shift (suc fuel) n k =
    let rest = normal_shift fuel n (k + 1) in if leb (2 ^ 23 * 1000) (n * 2 ^ k) then k else rest

-- n / d rounded to the nearest number, to the even one of two that are as near.
unfoldable pub round_half_even : ℕ → ℕ → ℕ
round_half_even n d =
    let q = n / d in
    let r = 2 * (n % d) in if ltb r d then q else if ltb d r then q + 1 else q + q % 2

-- float32(n) / 1000.0 for n below 2 ^ 24, which float32 holds exactly. 9 places scale the largest
-- such n into 24 bits, and 33 the smallest but 0.
unfoldable pub thousandth : ℕ → Float32
unfolding normal_shift round_half_even
thousandth n =
    let k = normal_shift 24 n 9 in
    if n == 0 then 0 else (149 - k) * 2 ^ 23 + round_half_even (n * 2 ^ k) 1000

-- slices.Contains over floats.
unfoldable pub contains_float : List Float32 → Float32 → Bool
contains_float [] x = false
contains_float (f ∷ fs) x = float_eq f x || contains_float fs x

thousandth_test :
    (thousandth 251_000 ≡ 0x437b_0000)
    × (thousandth 1 ≡ 0x3a83_126f)
    × (thousandth 0 ≡ 0)
    × (thousandth 16_777_215 ≡ 0x4683_126e)
unfolding thousandth
thousandth_test = (refl, refl, refl, refl)
