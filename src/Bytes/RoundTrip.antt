-- ===== src/Bytes/RoundTrip.antt =====
-- byte_codec.hpp: a value is read back as it was written.
use minidb_cpp.Prelude.{
  ℕ, zero, suc, ◌+◌, ◌*◌, ◌/◌, ◌%◌, ◌^◌, ◌≤◌, ◌<◌, ◌≡◌, ◌∙◌, ap, sym, List, ok, ◌>>=◌, arith,
  length, set, All, length-set, get_or-set_self, inl,
}
use minidb_cpp.Bytes.{IsByte, write_loop, write_uint, require_range, read_uint}
use minidb_cpp.Bytes.Decode.{decode_at, read_uint-decode, pow_byte}
use minidb_cpp.Bytes.Frame.{length-write_loop, write_loop-IsByte, get_or-write_loop}
use native.Mathlib.Nat.{
  mod-lt, mul_comm, add-mul-mod_self_left, div-div-eq-div-mul, mod-eq_of_lt, div-add-mod,
  one-le-pow,
}

-- The lowest digit of `x` and the others, to the base 256.
mod_split : (x m : ℕ) → 0 < m → x % (256 * m) ≡ x % 256 + 256 * (x / 256 % m)
mod_split x m h =
    whole ∙ add-mul-mod_self_left digits_below (256 * m) (x / 256 / m) ∙ mod-eq_of_lt small
  where
    digits_below : ℕ
    digits_below = x % 256 + 256 * (x / 256 % m)

    whole : x % (256 * m) ≡ (digits_below + 256 * m * (x / 256 / m)) % (256 * m)
    whole = ap (λ (t : ℕ). t % (256 * m)) (omega (arith, div-add-mod (x / 256) m))

    small : digits_below < 256 * m
    small = omega (arith, mod-lt (x / 256) h)

decode_at-write_loop :
    (n i : ℕ) (bytes : List ℕ) (offset value : ℕ)
    → offset + i + n ≤ length bytes
    → decode_at n (write_loop n i bytes offset value) (offset + i)
      ≡ value / 2 ^ (i * 8) % 2 ^ (n * 8)
unfolding write_loop decode_at
decode_at-write_loop zero i bytes offset value h = omega arith
decode_at-write_loop (suc n) i bytes offset value h = omega (
  arith,
  get_or-write_loop n (i + 1) started offset value (offset + i) (inl (omega arith)),
  get_or-set_self bytes (offset + i) byte 0 (omega arith),
  decode_at-write_loop n (i + 1) started offset value
      (omega (arith, length-set bytes (offset + i) byte)),
  ap (decode_at n (write_loop n (i + 1) started offset value)) next,
  ap (λ (t : ℕ). value / 2 ^ (i * 8) % t) longer
      ∙ mod_split (value / 2 ^ (i * 8)) (2 ^ (n * 8)) (one-le-pow (n * 8) 2 (omega arith)),
  ap (λ (t : ℕ). t % 2 ^ (n * 8)) shifted,
)
  where
    byte : ℕ
    byte = value / 2 ^ (i * 8) % 256

    started : List ℕ
    started = set bytes (offset + i) byte

    next : offset + (i + 1) ≡ offset + i + 1
    next = omega arith

    longer : 2 ^ (suc n * 8) ≡ 256 * 2 ^ (n * 8)
    longer = ap (λ (t : ℕ). 2 ^ (t * 8)) (omega arith) ∙ pow_byte n

    shifted : value / 2 ^ ((i + 1) * 8) ≡ value / 2 ^ (i * 8) / 256
    shifted =
        ap (λ (t : ℕ). value / t) (pow_byte i ∙ mul_comm 256 (2 ^ (i * 8)))
        ∙ sym (div-div-eq-div-mul value (2 ^ (i * 8)) 256)

-- What `write_uint` writes at an offset, `read_uint` of the same width reads there.
pub read_uint-write_uint :
    (width : ℕ) (bytes : List ℕ) (offset value : ℕ)
    → All IsByte bytes
    → offset + width ≤ length bytes
    → value < 2 ^ (width * 8)
    → (write_uint width bytes offset value >>= λ written. read_uint width written offset) ≡ ok value
unfolding write_uint require_range
read_uint-write_uint width bytes offset value hb fits small = ground (
  arith,
  read_uint-decode width (write_loop width 0 bytes offset value) offset
      (write_loop-IsByte width 0 bytes offset value hb),
  length-write_loop width 0 bytes offset value,
  written,
)
  where
    written : decode_at width (write_loop width 0 bytes offset value) offset ≡ value
    written =
        ap (decode_at width (write_loop width 0 bytes offset value)) (omega arith)
        ∙ decode_at-write_loop width 0 bytes offset value (omega arith)
        ∙ ap (λ (t : ℕ). t % 2 ^ (width * 8)) (omega arith)
        ∙ mod-eq_of_lt small
