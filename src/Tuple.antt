-- ===== src/Tuple.antt =====
-- src/tuple_codec.cpp and its header: a row of values as bytes, under its schema. A null bitmap says
-- which values are NULL; the others follow it in the order of the columns.
pub mod Pieces
pub mod Bitmap
pub mod Encoded
pub mod Decoded
pub mod Checks
pub mod RoundTrip
mod Tests
use minidb_cpp.Prelude.{
  ℕ, zero, suc, ◌+◌, ◌-◌, ◌*◌, ◌/◌, ◌%◌, ◌^◌, bit_or, Bool, true, false, not, ◌&&◌, ◌||◌, List, [],
  ◌∷◌, ◌++◌, Result, ok, err, ◌>>=◌, ◌>>◌, throw_if, calls, ltb, ◌==◌, length, get_or, set, take,
  drop, replicate,
}
use Prim.Native.Nat.{bit_and}
use minidb_cpp.Prelude.Int.{ℤ, to_bits, of_bits}
use minidb_cpp.Prelude.Texts.{text_eq}
use minidb_cpp.Bytes as Bytes
use minidb_cpp.Bytes.{
  require_range, write_uint16, write_uint32, read_uint16, read_uint32, read_uint64, append_uint32,
  append_uint64,
}
use minidb_cpp.Schema as Schema
use minidb_cpp.Schema.{
  ColumnDefinition, DataType, uint32, int64, boolean, varchar, Value, null, uint32_value,
  int64_value, bool_value, string_value, validate_values,
}

-- Exceptions: of the byte codec, of the schema, and of this file. `no_value` is what std::get throws.
pub data Error : Type 0 where
  codec : Bytes.Error → Error
  invalid_row : Schema.Error → Error
  invalid_decoded : Schema.Error → Error
  no_value too_large size_overflow : Error
  bad_magic bad_version bad_header unused_bits null_in_column bad_boolean varchar_too_long : Error
  trailing_bytes : Error

abbrev pub header_size : ℕ
header_size = 24

abbrev pub current_version : ℕ
current_version = 1

abbrev pub max_tuple_size : ℕ
max_tuple_size = 4040

abbrev pub magic : List ℕ
magic = b'M' ∷ b'D' ∷ b'B' ∷ b'T' ∷ b'U' ∷ b'P' ∷ b'L' ∷ b'E' ∷ []

unfoldable pub null_bitmap_size : ℕ → ℕ
null_bitmap_size column_count = (column_count + 8 - 1) / 8

unfoldable pub set_null : List ℕ → ℕ → ℕ → List ℕ
set_null bytes bitmap_offset column_index =
    let byte_offset = bitmap_offset + column_index / 8 in
    set bytes byte_offset (bit_or (get_or bytes byte_offset 0) (2 ^ (column_index % 8)))

unfoldable pub is_null : List ℕ → ℕ → ℕ → Bool
is_null bytes bitmap_offset index =
    not (bit_and (get_or bytes (bitmap_offset + index / 8) 0) (2 ^ (index % 8)) == 0)

unfoldable pub append_string : List ℕ → List ℕ → Result Bytes.Error (List ℕ)
append_string bytes value = do
  sized ← append_uint32 bytes (length value % 2 ^ 32)
  ok (sized ++ value)

-- The switch of `encode`; the value is not NULL.
unfoldable pub append_value : List ℕ → DataType → Value → Result Error (List ℕ)
append_value bytes uint32 (uint32_value n) = calls codec (append_uint32 bytes n)
append_value bytes int64 (int64_value z) = calls codec (append_uint64 bytes (to_bits z))
append_value bytes boolean (bool_value true) = ok (bytes ++ (1 ∷ []))
append_value bytes boolean (bool_value false) = ok (bytes ++ (0 ∷ []))
append_value bytes varchar (string_value s) = calls codec (append_string bytes s)
append_value bytes _ _ = err no_value

abbrev pub is_null_value : Value → Bool
is_null_value null = true
is_null_value _ = false

-- One round of the loop of `encode`.
unfoldable pub encode_value : ColumnDefinition → Value → ℕ → List ℕ → Result Error (List ℕ)
encode_value column null index bytes = ok (set_null bytes header_size index)
encode_value column value index bytes = do
  appended ← append_value bytes column.type value
  throw_if (ltb max_tuple_size (length appended)) too_large
  ok appended

-- The row has as many values as the schema has columns.
unfoldable pub encode_loop : List ColumnDefinition → List Value → ℕ → List ℕ → Result Error (List ℕ)
encode_loop columns [] index bytes = ok bytes
encode_loop [] (value ∷ values) index bytes = err (invalid_row Schema.index_out_of_range)
encode_loop (column ∷ columns) (value ∷ values) index bytes = do
  encoded ← encode_value column value index bytes
  encode_loop columns values (index + 1) encoded

-- `std::copy(MAGIC.begin(), MAGIC.end(), bytes.begin())`, and the fields of the header but the size.
unfoldable pub start_tuple : ℕ → Result Bytes.Error (List ℕ)
start_tuple column_count = do
  let bitmap_size = null_bitmap_size column_count
  let zeros = replicate (header_size + bitmap_size) 0
  with_version ← write_uint32 (magic ++ drop 8 zeros) 8 current_version
  with_header_size ← write_uint32 with_version 12 header_size
  with_count ← write_uint16 with_header_size 16 (column_count % 2 ^ 16)
  write_uint16 with_count 18 (bitmap_size % 2 ^ 16)

unfoldable pub encode : List ColumnDefinition → List Value → Result Error (List ℕ)
encode schema values = do
  calls invalid_row (validate_values schema values)
  started ← calls codec (start_tuple (length schema))
  bytes ← encode_loop schema values 0 started
  throw_if (ltb (2 ^ 32 - 1) (length bytes)) size_overflow
  calls codec (write_uint32 bytes 20 (length bytes))

-- The case of `decode` for a column whose value is not NULL: the value, and the cursor behind it.
unfoldable pub decode_varchar : ℕ → List ℕ → ℕ → Result Error (Value × ℕ)
decode_varchar max_bytes bytes cursor = do
  size ← calls codec (read_uint32 bytes cursor)
  throw_if (ltb max_bytes size) varchar_too_long
  calls codec (require_range bytes (cursor + 4) size)
  ok (string_value (take size (drop (cursor + 4) bytes)), cursor + 4 + size)

unfoldable pub decode_value : ColumnDefinition → DataType → List ℕ → ℕ → Result Error (Value × ℕ)
decode_value column uint32 bytes cursor = do
  n ← calls codec (read_uint32 bytes cursor)
  ok (uint32_value n, cursor + 4)
decode_value column int64 bytes cursor = do
  n ← calls codec (read_uint64 bytes cursor)
  ok (int64_value (of_bits n), cursor + 8)
decode_value column boolean bytes cursor = do
  calls codec (require_range bytes cursor 1)
  let encoded = get_or bytes cursor 0
  throw_if (ltb 1 encoded) bad_boolean
  ok (bool_value (encoded == 1), cursor + 1)
decode_value column varchar bytes cursor = decode_varchar column.varchar_max_bytes bytes cursor

-- One round of the loop of `decode`.
unfoldable pub decode_column : ColumnDefinition → ℕ → List ℕ → ℕ → Bool → Result Error (Value × ℕ)
decode_column column index bytes cursor true = do
  throw_if (not column.nullable) null_in_column
  ok (null, cursor)
decode_column column index bytes cursor false = decode_value column column.type bytes cursor

unfoldable pub decode_loop : List ColumnDefinition → ℕ → List ℕ → ℕ → Result Error (List Value × ℕ)
decode_loop [] index bytes cursor = ok ([], cursor)
decode_loop (column ∷ columns) index bytes cursor = do
  (value, next) ← decode_column column index bytes cursor (is_null bytes header_size index)
  (values, end) ← decode_loop columns (index + 1) bytes next
  ok (value ∷ values, end)

-- The test of the bits of the bitmap's last byte that stand for no column.
unfoldable pub check_unused_bits : ℕ → ℕ → List ℕ → Result Error (Unit {0})
check_unused_bits column_count bitmap_size bytes =
    let unused = bitmap_size * 8 - column_count in
    let last = get_or bytes (header_size + bitmap_size - 1) 0 in
    let invalid_mask = 255 * 2 ^ (8 - unused) % 256 in
    throw_if (not (unused == 0) && not (bit_and last invalid_mask == 0)) unused_bits

unfoldable pub check_header : ℕ → List ℕ → Result Error ℕ
check_header column_count bytes = do
  throw_if
      (ltb (length bytes) header_size
        || ltb max_tuple_size (length bytes)
        || not (text_eq (take 8 bytes) magic))
      bad_magic
  version ← calls codec (read_uint32 bytes 8)
  throw_if (not (version == current_version)) bad_version
  bitmap_size ← calls codec (read_uint16 bytes 18)
  size_of_header ← calls codec (read_uint32 bytes 12)
  count ← calls codec (read_uint16 bytes 16)
  encoded_size ← calls codec (read_uint32 bytes 20)
  throw_if
      (not (size_of_header == header_size)
        || not (count == column_count)
        || not (bitmap_size == null_bitmap_size column_count)
        || not (encoded_size == length bytes))
      bad_header
  ok bitmap_size

unfoldable pub decode : List ColumnDefinition → List ℕ → Result Error (List Value)
decode schema bytes = do
  bitmap_size ← check_header (length schema) bytes
  calls codec (require_range bytes header_size bitmap_size)
  check_unused_bits (length schema) bitmap_size bytes
  (values, cursor) ← decode_loop schema 0 bytes (header_size + bitmap_size)
  throw_if (not (cursor == length bytes)) trailing_bytes
  calls invalid_decoded (validate_values schema values)
  ok values
