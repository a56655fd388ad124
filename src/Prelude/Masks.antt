-- ===== src/Prelude/Masks.antt =====
-- The binary digits of a number: set by `|` with a power of two, tested by `&` with one.
use Prim.Native.Nat.{
  ℕ, zero, suc, ◌+◌, ◌*◌, ◌/◌, ◌%◌, ◌^◌, ◌<◌, ◌≤◌, min, max, bit_and, bit_and-bitwise, bit_or,
}
use mathlib.Core.Path.{◌≡◌, refl, sym, ap, ◌∙◌}
use mathlib.Core.Logic.{◌≢◌}
use mathlib.Core.Bool.{Bool, true, false, not}
use minidb_cpp.Prelude.Tests.{◌==◌}
use minidb_cpp.Prelude.Bits.{digits_fuel, lowest_bit, zero-bit_or}
use native.Mathlib.Nat.{pow-suc}
use native.Mathlib.Omega.{arith}

lowest_and : (a b : ℕ) → bit_and a b ≡ bit_and (a / 2) (b / 2) * 2 + min (a % 2) (b % 2)
lowest_and zero b = omega (arith, bit_and-bitwise 0 b, bit_and-bitwise 0 (b / 2))
lowest_and (suc a) b = omega (
  arith,
  bit_and-bitwise (suc a) b,
  bit_and-bitwise (suc a / 2) (b / 2),
  digits_fuel (λ y. zero) min a (suc a / 2) (suc a / 2) (b / 2) (omega arith) (omega arith),
)

-- The digit of weight 2^k.
abbrev pub digit : ℕ → ℕ → ℕ
digit zero a = a % 2
digit (suc k) a = digit k (a / 2)

digit-bit_or : (k a b : ℕ) → digit k (bit_or a b) ≡ max (digit k a) (digit k b)
digit-bit_or zero a b = omega (arith, lowest_bit a b)
digit-bit_or (suc k) a b =
    ap (digit k) (omega (arith, lowest_bit a b)) ∙ digit-bit_or k (a / 2) (b / 2)

half-pow : (k : ℕ) → 2 ^ suc k / 2 ≡ 2 ^ k
half-pow k = omega (arith, pow-suc 2 k)

digit-pow_self : (k : ℕ) → digit k (2 ^ k) ≡ 1
digit-pow_self zero = omega arith
digit-pow_self (suc k) = ap (digit k) (half-pow k) ∙ digit-pow_self k

digit-zero : (k : ℕ) → digit k 0 ≡ 0
digit-zero zero = refl
digit-zero (suc k) = digit-zero k

digit-pow_ne : (j k : ℕ) → k ≢ j → digit j (2 ^ k) ≡ 0
digit-pow_ne zero zero h = absurd (h refl)
digit-pow_ne zero (suc k) h = omega (arith, pow-suc 2 k)
digit-pow_ne (suc j) zero h = digit-zero j
digit-pow_ne (suc j) (suc k) h = ap (digit j) (half-pow k) ∙ digit-pow_ne j k (λ e. h (ap suc e))

bit_and-zero : (a : ℕ) → bit_and a 0 ≡ 0
bit_and-zero a = zeros a a (omega arith)
  where
    zeros : (n a : ℕ) → a ≤ n → bit_and a 0 ≡ 0
    zeros zero zero h = omega (arith, bit_and-bitwise 0 0)
    zeros zero (suc a) h = absurd (omega arith)
    zeros (suc n) zero h = omega (arith, bit_and-bitwise 0 0)
    zeros (suc n) (suc a) h = omega (arith, lowest_and (suc a) 0, zeros n (suc a / 2) (omega arith))

-- `a & (1 << k)` is the digit in its place.
bit_and-pow : (k a : ℕ) → bit_and a (2 ^ k) ≡ digit k a * 2 ^ k
bit_and-pow zero a = omega (arith, lowest_and a 1, bit_and-zero (a / 2))
bit_and-pow (suc k) a = omega (
  arith,
  lowest_and a (2 ^ suc k),
  ap (bit_and (a / 2)) (half-pow k),
  bit_and-pow k (a / 2),
  pow-suc 2 k,
  ap (λ (t : ℕ). digit k (a / 2) * t) (pow-suc 2 k),
)

-- `(a & (1 << k)) != 0`
abbrev pub has_bit : ℕ → ℕ → Bool
has_bit a k = not (bit_and a (2 ^ k) == 0)

digit-lt : (k a : ℕ) → digit k a < 2
digit-lt zero a = omega arith
digit-lt (suc k) a = digit-lt k (a / 2)

pub pow-pos : (k : ℕ) → 1 ≤ 2 ^ k
pow-pos zero = omega arith
pow-pos (suc k) = omega (arith, pow-suc 2 k, pow-pos k)

is_zero-scaled : (d p : ℕ) → d < 2 → 1 ≤ p → (d * p == 0) ≡ (d == 0)
is_zero-scaled zero p h g = ground arith
is_zero-scaled (suc zero) p h g = ground (arith, g)
is_zero-scaled (suc (suc d)) p h g = absurd (omega (arith, h))

has_bit-digit : (a k : ℕ) → has_bit a k ≡ not (digit k a == 0)
has_bit-digit a k =
    ap (λ (t : ℕ). not (t == 0)) (bit_and-pow k a)
    ∙ ap not (is_zero-scaled (digit k a) (2 ^ k) (digit-lt k a) (pow-pos k))

pub has_bit-zero : (k : ℕ) → has_bit 0 k ≡ false
has_bit-zero k = has_bit-digit 0 k ∙ ap (λ (t : ℕ). not (t == 0)) (digit-zero k)

-- Setting a bit sets it, and no other.
pub has_bit-set_self : (a k : ℕ) → has_bit (bit_or a (2 ^ k)) k ≡ true
has_bit-set_self a k = has_bit-digit (bit_or a (2 ^ k)) k ∙ ground (arith, one)
  where
    one : digit k (bit_or a (2 ^ k)) ≡ 1
    one = omega (arith, digit-bit_or k a (2 ^ k), digit-pow_self k, digit-lt k a)

pub has_bit-set_ne : (a k j : ℕ) → k ≢ j → has_bit (bit_or a (2 ^ k)) j ≡ has_bit a j
has_bit-set_ne a k j h =
    has_bit-digit (bit_or a (2 ^ k)) j ∙ ap (λ (t : ℕ). not (t == 0)) kept ∙ sym (has_bit-digit a j)
  where
    kept : digit j (bit_or a (2 ^ k)) ≡ digit j a
    kept = omega (arith, digit-bit_or j a (2 ^ k), digit-pow_ne j k h)

-- The bound of `|`.
pub bit_or-lt : (v a b : ℕ) → a < 2 ^ v → b < 2 ^ v → bit_or a b < 2 ^ v
bit_or-lt zero zero zero h g = omega (arith, bit_or-nothing)
  where
    bit_or-nothing : bit_or 0 0 ≡ 0
    bit_or-nothing = zero-bit_or 0
bit_or-lt zero zero (suc b) h g = absurd (omega (arith, g))
bit_or-lt zero (suc a) b h g = absurd (omega (arith, h))
bit_or-lt (suc v) a b h g = omega (
  arith,
  lowest_bit a b,
  pow-suc 2 v,
  bit_or-lt v (a / 2) (b / 2) (omega (arith, pow-suc 2 v)) (omega (arith, pow-suc 2 v)),
)

pub pow-lt : (k v : ℕ) → k < v → 2 ^ k < 2 ^ v
pow-lt k zero h = absurd (omega arith)
pow-lt zero (suc v) h = omega (arith, pow-suc 2 v, pow-pos v)
pow-lt (suc k) (suc v) h = omega (arith, pow-suc 2 k, pow-suc 2 v, pow-lt k v (omega arith))

-- A number of v bits has none behind them.
pub bit_and-high : (v a c : ℕ) → a < 2 ^ v → bit_and a (c * 2 ^ v) ≡ 0
bit_and-high zero zero c h = omega (arith, bit_and-bitwise 0 (c * 1))
bit_and-high zero (suc a) c h = absurd (omega (arith, h))
bit_and-high (suc v) a c h = omega (
  arith,
  lowest_and a (c * 2 ^ suc v),
  ap (bit_and (a / 2)) halved,
  ap (λ (t : ℕ). c * t) (pow-suc 2 v),
  bit_and-high v (a / 2) c (omega (arith, pow-suc 2 v)),
)
  where
    halved : c * 2 ^ suc v / 2 ≡ c * 2 ^ v
    halved = omega (arith, ap (λ (t : ℕ). c * t) (pow-suc 2 v))
