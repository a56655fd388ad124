-- ===== src/Prelude/Bits.antt =====
-- `|` of a number with another that is shifted past its bits is their sum.
use Prim.Native.Nat.{
  ℕ, zero, suc, ◌+◌, ◌*◌, ◌/◌, ◌%◌, ◌^◌, ◌≤◌, ◌<◌, max, digits, bit_or, bit_or-bitwise,
}
use mathlib.Core.Path.{◌≡◌, refl, ap}
use native.Mathlib.Nat.{pow-suc}
use native.Mathlib.Omega.{arith}

-- The digit recursion of `bit_or` and `bit_and`, which drops the fuel that it does not need.
pub digits_fuel :
    (z : ℕ → ℕ) (f : ℕ → ℕ → ℕ) (n m a b : ℕ) → a ≤ n → a ≤ m → digits z f n a b ≡ digits z f m a b
digits_fuel z f zero zero a b p q = refl
digits_fuel z f zero (suc m) zero b p q = refl
digits_fuel z f zero (suc m) (suc a) b p q = absurd (omega arith)
digits_fuel z f (suc n) zero zero b p q = refl
digits_fuel z f (suc n) zero (suc a) b p q = absurd (omega arith)
digits_fuel z f (suc n) (suc m) zero b p q = refl
digits_fuel z f (suc n) (suc m) (suc a) b p q =
    ap (λ (t : ℕ). t * 2 + f (suc a % 2) (b % 2))
      (digits_fuel z f n m (suc a / 2) (b / 2) (omega arith) (omega arith))

abbrev or_digits : ℕ → ℕ → ℕ → ℕ
or_digits n a b = digits (λ y. y) max n a b

pub zero-bit_or : (b : ℕ) → bit_or 0 b ≡ b
zero-bit_or b = bit_or-bitwise 0 b

or_digits-zero : (n a : ℕ) → a ≤ n → or_digits n a 0 ≡ a
or_digits-zero zero a h = omega (arith, h)
or_digits-zero (suc n) zero h = refl
or_digits-zero (suc n) (suc a) h = omega (arith, or_digits-zero n (suc a / 2) (omega arith))

bit_or-zero : (a : ℕ) → bit_or a 0 ≡ a
bit_or-zero a = omega (arith, bit_or-bitwise a 0, or_digits-zero a a (omega arith))

pub lowest_bit : (a b : ℕ) → bit_or a b ≡ bit_or (a / 2) (b / 2) * 2 + max (a % 2) (b % 2)
lowest_bit zero b = omega (arith, zero-bit_or b, zero-bit_or (b / 2))
lowest_bit (suc a) b = omega (
  arith,
  bit_or-bitwise (suc a) b,
  bit_or-bitwise (suc a / 2) (b / 2),
  digits_fuel (λ y. y) max a (suc a / 2) (suc a / 2) (b / 2) (omega arith) (omega arith),
)

-- `low | (high << k)`, where `low` has at most k bits.
pub bit_or_shifted : (k low high : ℕ) → low < 2 ^ k → bit_or low (high * 2 ^ k) ≡ low + high * 2 ^ k
bit_or_shifted zero low high h =
    omega (arith, zero-bit_or (high * 1), ap (λ (t : ℕ). bit_or t (high * 1)) small)
  where
    small : low ≡ 0
    small = omega arith
bit_or_shifted (suc k) low high h = omega (
  arith,
  lowest_bit low (high * 2 ^ suc k),
  ap (λ (t : ℕ). high * t) (pow-suc 2 k),
  pow-suc 2 k,
  ap (bit_or (low / 2)) halved,
  bit_or_shifted k (low / 2) high (omega (arith, pow-suc 2 k)),
)
  where
    halved : high * 2 ^ suc k / 2 ≡ high * 2 ^ k
    halved = omega (arith, ap (λ (t : ℕ). high * t) (pow-suc 2 k))

-- `(high << k) | low`, where `low` has at most k bits.
pub shifted_bit_or : (k low high : ℕ) → low < 2 ^ k → bit_or (high * 2 ^ k) low ≡ high * 2 ^ k + low
shifted_bit_or zero low high h =
    omega (arith, bit_or-zero (high * 1), ap (λ (t : ℕ). bit_or (high * 1) t) small)
  where
    small : low ≡ 0
    small = omega arith
shifted_bit_or (suc k) low high h = omega (
  arith,
  lowest_bit (high * 2 ^ suc k) low,
  ap (λ (t : ℕ). high * t) (pow-suc 2 k),
  pow-suc 2 k,
  ap (λ (t : ℕ). bit_or t (low / 2)) halved,
  shifted_bit_or k (low / 2) high (omega (arith, pow-suc 2 k)),
)
  where
    halved : high * 2 ^ suc k / 2 ≡ high * 2 ^ k
    halved = omega (arith, ap (λ (t : ℕ). high * t) (pow-suc 2 k))
