-- ===== src/Base/Bits.antt =====
-- The bit operations of the sources as arithmetic.
use Prim.Native.Nat.{
  ℕ, zero, suc, ◌+◌, ◌*◌, ◌/◌, ◌%◌, ◌^◌, ◌≤◌, ◌<◌, max, bit_and, bit_or, digits, bit_or-bitwise,
}
use mathlib.Core.Path.{◌≡◌, refl, ap}
use native.Mathlib.Omega.{arith}
use native.Mathlib.Nat.{pow-suc}
use vcs_srs_server.Base.Tests.{agree_below, agree_below→eq}

abbrev or_digits : ℕ → ℕ → ℕ → ℕ
or_digits n a b = digits (λ b. b) max n a b

or_digits_fuel : (n m a b : ℕ) → a ≤ n → a ≤ m → or_digits n a b ≡ or_digits m a b
or_digits_fuel zero zero a b p q = refl
or_digits_fuel zero (suc m) zero b p q = refl
or_digits_fuel zero (suc m) (suc a) b p q = absurd (omega arith)
or_digits_fuel (suc n) zero zero b p q = refl
or_digits_fuel (suc n) zero (suc a) b p q = absurd (omega arith)
or_digits_fuel (suc n) (suc m) zero b p q = refl
or_digits_fuel (suc n) (suc m) (suc a) b p q =
    omega (arith, or_digits_fuel n m (suc a / 2) (b / 2) (omega arith) (omega arith))

pub zero-bit_or : (b : ℕ) → bit_or 0 b ≡ b
zero-bit_or b = bit_or-bitwise 0 b

bit_or_step : (a b : ℕ) → bit_or a b ≡ bit_or (a / 2) (b / 2) * 2 + max (a % 2) (b % 2)
bit_or_step zero b = omega (arith, zero-bit_or b, zero-bit_or (b / 2))
bit_or_step (suc a) b = omega (
  arith,
  bit_or-bitwise (suc a) b,
  bit_or-bitwise (suc a / 2) (b / 2),
  or_digits_fuel a (suc a / 2) (suc a / 2) (b / 2) (omega arith) (omega arith),
)

bit_or-zero_fuel : (n a : ℕ) → a ≤ n → bit_or a 0 ≡ a
bit_or-zero_fuel n zero h = refl
bit_or-zero_fuel zero (suc a) h = absurd (omega arith)
bit_or-zero_fuel (suc n) (suc a) h =
    omega (arith, bit_or_step (suc a) 0, bit_or-zero_fuel n (suc a / 2) (omega arith))

bit_or-zero : (a : ℕ) → bit_or a 0 ≡ a
bit_or-zero a = bit_or-zero_fuel a a (omega arith)

-- One digit of the second number under an even first one.
bit_or_double : (t b : ℕ) → bit_or t (b / 2) ≡ t + b / 2 → bit_or (t * 2) b ≡ t * 2 + b
bit_or_double t b h =
    let half : t * 2 / 2 ≡ t = omega arith in
    omega (arith, bit_or_step (t * 2) b, ap (λ (x : ℕ). bit_or x (b / 2)) half)

below_half : (k b : ℕ) → b < 2 ^ suc k → b / 2 < 2 ^ k
below_half k b h = omega (arith, pow-suc 2 k)

-- Where the bits do not meet, `|` adds: a shifted number over a number below the shift.
pub bit_or-shifted : (k a b : ℕ) → b < 2 ^ k → bit_or (a * 2 ^ k) b ≡ a * 2 ^ k + b
bit_or-shifted zero a b h =
    let none_left : b ≡ 0 = omega arith in
    omega (arith, bit_or-zero (a * 1), ap (λ (x : ℕ). bit_or (a * 1) x) none_left)
bit_or-shifted (suc k) a b h =
    let double : a * 2 ^ suc k ≡ a * 2 ^ k * 2 = simp pow-suc (omega arith) in
    rw double (bit_or_double (a * 2 ^ k) b (bit_or-shifted k a (b / 2) (below_half k b h)))

bit_or_double_right : (t b : ℕ) → bit_or (b / 2) t ≡ t + b / 2 → bit_or b (t * 2) ≡ t * 2 + b
bit_or_double_right t b h =
    let half : t * 2 / 2 ≡ t = omega arith in
    omega (arith, bit_or_step b (t * 2), ap (λ (x : ℕ). bit_or (b / 2) x) half)

-- The same with the shifted number on the right.
pub shifted-bit_or : (k a b : ℕ) → b < 2 ^ k → bit_or b (a * 2 ^ k) ≡ a * 2 ^ k + b
shifted-bit_or zero a b h =
    let none_left : b ≡ 0 = omega arith in
    omega (arith, zero-bit_or (a * 1), ap (λ (x : ℕ). bit_or x (a * 1)) none_left)
shifted-bit_or (suc k) a b h =
    let double : a * 2 ^ suc k ≡ a * 2 ^ k * 2 = simp pow-suc (omega arith) in
    rw double (bit_or_double_right (a * 2 ^ k) b (shifted-bit_or k a (b / 2) (below_half k b h)))

pub low_nibble : (b : ℕ) → b < 256 → bit_and b 0x0f ≡ b % 16
unfolding agree_below
low_nibble = agree_below→eq _ _ 256 refl

pub high_nibble : (b : ℕ) → b < 256 → bit_and (b / 16) 0x0f ≡ b / 16
unfolding agree_below
high_nibble = agree_below→eq _ _ 256 refl
