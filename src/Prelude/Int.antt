-- ===== src/Prelude/Int.antt =====
-- Signed integers over the native numbers, under the library's names, and std::int64_t.
use mathlib.Core.Path.{◌≡◌}
use Prim.Native.Nat.{ℕ, suc, ◌-◌, ◌^◌, ◌<◌}
use minidb_cpp.Prelude.Tests.{ltb, if◌then◌else◌}
use native.Mathlib.Omega.{arith}

-- `negsuc n` is -(n + 1).
pub data ℤ : Type 0 where
  pos : ℕ → ℤ
  negsuc : ℕ → ℤ

abbrev pub magnitude_of : ℤ → ℕ
magnitude_of (pos n) = n
magnitude_of (negsuc n) = suc n

abbrev pub IsInt64 : ℤ → Type 0
IsInt64 (pos n) = n < 2 ^ 63
IsInt64 (negsuc n) = n < 2 ^ 63

-- std::bit_cast<std::uint64_t>
abbrev pub to_bits : ℤ → ℕ
to_bits (pos n) = n
to_bits (negsuc n) = 2 ^ 64 - 1 - n

-- std::bit_cast<std::int64_t>
abbrev pub of_bits : ℕ → ℤ
of_bits n = if ltb n (2 ^ 63) then pos n else negsuc (2 ^ 64 - 1 - n)

pub of_bits-to_bits : (z : ℤ) → IsInt64 z → of_bits (to_bits z) ≡ z
of_bits-to_bits (pos n) h = ground arith
of_bits-to_bits (negsuc n) h = ground (arith, back)
  where
    back : 2 ^ 64 - 1 - (2 ^ 64 - 1 - n) ≡ n
    back = omega arith

pub to_bits-lt : (z : ℤ) → IsInt64 z → to_bits z < 2 ^ 64
to_bits-lt (pos n) h = omega arith
to_bits-lt (negsuc n) h = omega arith
