-- ===== src/Bytes/Decode.antt =====
-- byte_codec.hpp: what the reading loops return, in plain arithmetic.
use minidb_cpp.Prelude.{
  ℕ, zero, suc, ◌+◌, ◌*◌, ◌%◌, ◌^◌, ◌≤◌, ◌<◌, ◌≡◌, bit_or, ap, List, [], ◌∷◌, ok, err,
  if◌then◌else◌, leb, arith, length, get_or, All,
}
use minidb_cpp.Prelude.Bits.{bit_or_shifted}
use minidb_cpp.Bytes.{IsByte, truncated, read_loop, read_uint, require_range}
use native.Mathlib.Nat.{pow-le-pow_right, mod-eq_of_lt}
use native.Mathlib.Numerals.{towards_suc}

-- The number whose base-256 digits, lowest first, are the `n` bytes at `offset`.
unfoldable pub decode_at : ℕ → List ℕ → ℕ → ℕ
decode_at zero bytes offset = 0
decode_at (suc n) bytes offset = get_or bytes offset 0 + 256 * decode_at n bytes (offset + 1)

eight_more : (k : ℕ) → 2 ^ (k + 8) ≡ 256 * 2 ^ k
eight_more k = simp towards_suc (omega arith)

pub pow_byte : (i : ℕ) → 2 ^ ((i + 1) * 8) ≡ 256 * 2 ^ (i * 8)
pow_byte i = rw split (eight_more (i * 8))
  where
    split : (i + 1) * 8 ≡ i * 8 + 8
    split = omega arith

pub get_or-IsByte : (bytes : List ℕ) (i : ℕ) → All IsByte bytes → IsByte (get_or bytes i 0)
get_or-IsByte [] i h = omega arith
get_or-IsByte (b ∷ bs) zero h = h.0
get_or-IsByte (b ∷ bs) (suc i) h = get_or-IsByte bs i h.1

-- One round, where the bits read so far lie below the byte that is added.
read_round :
    (width i b acc : ℕ)
    → i < width
    → b < 256
    → acc < 2 ^ (i * 8)
    → (bit_or acc (b * 2 ^ (i * 8) % 2 ^ (width * 8)) ≡ acc + b * 2 ^ (i * 8))
      × (acc + b * 2 ^ (i * 8) < 2 ^ ((i + 1) * 8))
read_round width i b acc hi hb ha =
    (rw (mod-eq_of_lt fits) (bit_or_shifted (i * 8) acc b ha), below)
  where
    scaled : b * 2 ^ (i * 8) ≤ 255 * 2 ^ (i * 8)
    scaled = grind arith

    below : acc + b * 2 ^ (i * 8) < 2 ^ ((i + 1) * 8)
    below = omega (arith, pow_byte i, scaled)

    wide : 2 ^ ((i + 1) * 8) ≤ 2 ^ (width * 8)
    wide = pow-le-pow_right (omega arith) (omega arith)

    fits : b * 2 ^ (i * 8) < 2 ^ (width * 8)
    fits = omega (arith, below, wide)

read_loop-decode :
    (width n i : ℕ) (bytes : List ℕ) (offset acc : ℕ)
    → i + n ≡ width
    → All IsByte bytes
    → acc < 2 ^ (i * 8)
    → read_loop width n i bytes offset acc ≡ acc + decode_at n bytes (offset + i) * 2 ^ (i * 8)
unfolding read_loop decode_at
read_loop-decode width zero i bytes offset acc e hb ha = omega arith
read_loop-decode width (suc n) i bytes offset acc e hb ha =
    let b : ℕ = get_or bytes (offset + i) 0 in
    let (same, below) = read_round width i b acc (omega arith) (get_or-IsByte bytes _ hb) ha in
    let rest : ℕ = decode_at n bytes (offset + i + 1) in
    let scaled : rest * 2 ^ ((i + 1) * 8) ≡ 256 * rest * 2 ^ (i * 8) =
      omega (arith, ap (λ (t : ℕ). rest * t) (pow_byte i)) in
    rw same (
      omega (
        arith,
        read_loop-decode width n (i + 1) bytes offset (acc + b * 2 ^ (i * 8)) (omega arith) hb
            below,
        ap (decode_at n bytes) (place offset i),
        ap (λ (t : ℕ). decode_at n bytes t * 2 ^ ((i + 1) * 8)) (place offset i),
        scaled,
      ))
  where
    place : (a j : ℕ) → a + (j + 1) ≡ a + j + 1
    place a j = omega arith

-- A read inside the sequence returns the little-endian number that stands there; any other throws.
pub read_uint-decode :
    (width : ℕ) (bytes : List ℕ) (offset : ℕ)
    → All IsByte bytes
    → read_uint width bytes offset ≡ (
        if leb (offset + width) (length bytes)
        then ok (decode_at width bytes offset)
        else err truncated)
unfolding read_uint require_range
read_uint-decode width bytes offset hb = ground (arith, whole)
  where
    whole : read_loop width width 0 bytes offset 0 ≡ decode_at width bytes offset
    whole = omega (
      arith,
      read_loop-decode width width 0 bytes offset 0 (omega arith) hb (omega arith),
      ap (decode_at width bytes) zeroth,
    )
      where
        zeroth : offset + 0 ≡ offset
        zeroth = omega arith
