-- ===== src/Tuple/Tests.antt =====
-- tuple_codec.cpp on a row with a NULL.
use minidb_cpp.Prelude.{ℕ, ◌≤◌, ◌≡◌, refl, Bool, true, false, List, [], ◌∷◌, ok, length, arith}
use minidb_cpp.Schema.{
  ColumnDefinition, DataType, uint32, int64, varchar, boolean, Value, null, uint32_value,
  bool_value, string_value,
}
use minidb_cpp.Schema.{validate_values, validate_loop, validate_value}
use minidb_cpp.Bytes.{read_uint, read_loop, require_range, append_uint, write_uint, write_loop}
use minidb_cpp.Tuple.{
  check_unused_bits, decode_loop, decode_column, decode_value, decode_varchar, is_null, start_tuple,
  encode_loop, encode_value, append_value, append_string, set_null,
}
use minidb_cpp.Schema.Values.{RowFits}
use minidb_cpp.Bytes.Segments.{digits_from}
use minidb_cpp.Tuple.{encode, decode, null_bitmap_size, max_tuple_size, header_size, check_header}
use minidb_cpp.Tuple.Pieces.{row_bytes, value_bytes}
use minidb_cpp.Tuple.Bitmap.{null_bits}
use minidb_cpp.Tuple.Encoded.{encoded_size}
use minidb_cpp.Tuple.RoundTrip.{decode-encode, decode-RowFits}

abbrev column_of : DataType → Bool → ℕ → ColumnDefinition
column_of type nullable max_bytes = record {
  name = b'c' ∷ [];
  type = type;
  nullable = nullable;
  primary_key = false;
  varchar_max_bytes = max_bytes;
}

abbrev people : List ColumnDefinition
people =
    column_of uint32 false 0
    ∷ column_of int64 true 0
    ∷ column_of boolean false 0
    ∷ column_of varchar true 8
    ∷ []

abbrev ann : List Value
ann = uint32_value 7 ∷ null ∷ bool_value true ∷ string_value (b'A' ∷ b'n' ∷ b'n' ∷ []) ∷ []

ann-size : encoded_size 4 ann ≡ 37
unfolding null_bitmap_size row_bytes value_bytes digits_from
ann-size = refl

-- The second bit of the bitmap is set.
ann-bits : null_bits ann 0 (0 ∷ []) ≡ 2 ∷ []
unfolding null_bits
ann-bits = refl

decode-encode_example :
    (bytes : List ℕ) × (encode people ann ≡ ok bytes) × (decode people bytes ≡ ok ann)
decode-encode_example =
    decode-encode people ann (omega arith) (tt, (refl, (tt, (omega arith, tt))))
      (omega arith, (tt, (tt, ((omega arith, (omega arith, (omega arith, tt))), tt))))
      (omega (arith, ann-size))

abbrev ann_bytes : List ℕ
ann_bytes =
    b'M' ∷ b'D' ∷ b'B' ∷ b'T' ∷ b'U' ∷ b'P' ∷ b'L' ∷ b'E' ∷ 1 ∷ 0 ∷ 0 ∷ 0 ∷ 24 ∷ 0 ∷ 0 ∷ 0 ∷ 4 ∷ 0
    ∷ 1 ∷ 0 ∷ 37 ∷ 0 ∷ 0 ∷ 0 ∷ 2 ∷ 7 ∷ 0 ∷ 0 ∷ 0 ∷ 1 ∷ 3 ∷ 0 ∷ 0 ∷ 0 ∷ b'A' ∷ b'n' ∷ b'n' ∷ []

ann-decoded : decode people ann_bytes ≡ ok ann
unfolding decode check_header read_uint read_loop require_range check_unused_bits decode_loop
    decode_column decode_value decode_varchar is_null null_bitmap_size validate_values validate_loop
    validate_value
ann-decoded = refl

ann-encoded : encode people ann ≡ ok ann_bytes
unfolding encode start_tuple encode_loop encode_value append_value append_string append_uint
    write_uint write_loop require_range set_null null_bitmap_size validate_values validate_loop
    validate_value
ann-encoded = refl

decode-RowFits_example :
    RowFits people ann × header_size ≤ length ann_bytes × length ann_bytes ≤ max_tuple_size
decode-RowFits_example = decode-RowFits people ann_bytes ann ann-decoded
