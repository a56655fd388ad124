-- ===== src/Bytes.antt =====
-- include/minidb/byte_codec.hpp: fixed-width little-endian integers in a byte sequence. A span or a
-- vector of bytes is a list of numbers below 256.
pub mod Decode
pub mod Frame
pub mod Append
pub mod RoundTrip
pub mod Segments
mod Tests
use minidb_cpp.Prelude.{
  ℕ, zero, suc, ◌+◌, ◌-◌, ◌*◌, ◌/◌, ◌%◌, ◌^◌, ◌<◌, bit_or, Bool, ◌||◌, List, ◌++◌, Result, ok, err,
  ◌>>=◌, ◌>>◌, throw_if, ltb, length, get_or, set, replicate,
}

-- The one exception of the codec, std::runtime_error.
pub data Error : Type 0 where
  truncated : Error

abbrev pub IsByte : ℕ → Type 0
IsByte b = b < 256

-- The second test is read only if `offset` is in range, so its difference does not wrap.
unfoldable pub require_range : List ℕ → ℕ → ℕ → Result Error (Unit {0})
require_range bytes offset width =
    throw_if (ltb (length bytes) offset || ltb (length bytes - offset) width) truncated

-- `for (index = i; index < i + rounds; ++index) bytes[offset + index] = (value >> index * 8) & 0xFF`
unfoldable pub write_loop : ℕ → ℕ → List ℕ → ℕ → ℕ → List ℕ
write_loop zero index bytes offset value = bytes
write_loop (suc rounds) index bytes offset value =
    write_loop rounds (index + 1) (set bytes (offset + index) (value / 2 ^ (index * 8) % 256))
      offset value

unfoldable pub write_uint : ℕ → List ℕ → ℕ → ℕ → Result Error (List ℕ)
write_uint width bytes offset value = do
  require_range bytes offset width
  ok (write_loop width 0 bytes offset value)

abbrev pub write_uint16 : List ℕ → ℕ → ℕ → Result Error (List ℕ)
write_uint16 = write_uint 2

abbrev pub write_uint32 : List ℕ → ℕ → ℕ → Result Error (List ℕ)
write_uint32 = write_uint 4

abbrev pub write_uint64 : List ℕ → ℕ → ℕ → Result Error (List ℕ)
write_uint64 = write_uint 8

-- `for (…) value |= uint(bytes[offset + index]) << index * 8`, in an unsigned type of `width` bytes.
unfoldable pub read_loop : ℕ → ℕ → ℕ → List ℕ → ℕ → ℕ → ℕ
read_loop width zero index bytes offset value = value
read_loop width (suc rounds) index bytes offset value =
    read_loop width rounds (index + 1) bytes offset
      (bit_or value (get_or bytes (offset + index) 0 * 2 ^ (index * 8) % 2 ^ (width * 8)))

unfoldable pub read_uint : ℕ → List ℕ → ℕ → Result Error ℕ
read_uint width bytes offset = do
  require_range bytes offset width
  ok (read_loop width width 0 bytes offset 0)

abbrev pub read_uint16 : List ℕ → ℕ → Result Error ℕ
read_uint16 = read_uint 2

abbrev pub read_uint32 : List ℕ → ℕ → Result Error ℕ
read_uint32 = read_uint 4

abbrev pub read_uint64 : List ℕ → ℕ → Result Error ℕ
read_uint64 = read_uint 8

-- `bytes.resize(offset + width)` fills with zeros, then the value is written over them.
unfoldable pub append_uint : ℕ → List ℕ → ℕ → Result Error (List ℕ)
append_uint width bytes value = write_uint width (bytes ++ replicate width 0) (length bytes) value

abbrev pub append_uint16 : List ℕ → ℕ → Result Error (List ℕ)
append_uint16 = append_uint 2

abbrev pub append_uint32 : List ℕ → ℕ → Result Error (List ℕ)
append_uint32 = append_uint 4

abbrev pub append_uint64 : List ℕ → ℕ → Result Error (List ℕ)
append_uint64 = append_uint 8
