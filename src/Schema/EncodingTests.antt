-- ===== src/Schema/EncodingTests.antt =====
-- schema.cpp: the encoding of a schema of one column.
use minidb_cpp.Prelude.{ℕ, ◌≡◌, refl, true, false, List, [], ◌∷◌, ok, err}
use minidb_cpp.Bytes.{require_range, read_uint, read_loop, write_uint, write_loop}
use minidb_cpp.Schema.{
  ColumnDefinition, uint32, create, create_loop, normalize_identifier, normalize_loop,
  is_identifier_start, is_identifier_continue, lower, validate_column_type, note_primary_key,
}
use minidb_cpp.Schema.Encoding.{
  encode_schema, decode_schema, decode_header, decode_columns, decode_column, known_type, type_code,
  column_flags, columns_size, encode_header, encode_columns, encode_column, write_name,
  not_canonical,
}
use minidb_cpp.Schema.EncodedSchema.{decode_schema-encode_schema, encode_schema-decode_schema}

abbrev keyed : List ℕ → List ColumnDefinition
keyed name =
    record {
      name = name;
      type = uint32;
      nullable = false;
      primary_key = true;
      varchar_max_bytes = 0;
    }
    ∷ []

keyed-created : create (keyed (b'I' ∷ b'd' ∷ [])) ≡ ok (keyed (b'i' ∷ b'd' ∷ []))
unfolding create create_loop normalize_identifier normalize_loop is_identifier_start
    is_identifier_continue lower validate_column_type note_primary_key
keyed-created = refl

decode_schema-encode_schema_example :
    (bytes : List ℕ) × (encode_schema (keyed (b'i' ∷ b'd' ∷ [])) ≡ ok bytes)
    × (decode_schema bytes ≡ ok (keyed (b'i' ∷ b'd' ∷ [])))
decode_schema-encode_schema_example =
    decode_schema-encode_schema (keyed (b'I' ∷ b'd' ∷ [])) (keyed (b'i' ∷ b'd' ∷ [])) keyed-created

-- A name that is spelled `a`, `b`.
abbrev keyed_bytes : ℕ → ℕ → List ℕ
keyed_bytes a b =
    b'M' ∷ b'D' ∷ b'B' ∷ b'S' ∷ b'C' ∷ b'H' ∷ b'M' ∷ b'A' ∷ 1 ∷ 0 ∷ 0 ∷ 0 ∷ 24 ∷ 0 ∷ 0 ∷ 0 ∷ 1 ∷ 0
    ∷ 0 ∷ 0 ∷ 34 ∷ 0 ∷ 0 ∷ 0 ∷ 2 ∷ 0 ∷ 1 ∷ 2 ∷ 0 ∷ 0 ∷ 0 ∷ 0 ∷ a ∷ b ∷ []

keyed-decoded : decode_schema (keyed_bytes b'i' b'd') ≡ ok (keyed (b'i' ∷ b'd' ∷ []))
unfolding decode_schema decode_header decode_columns decode_column known_type encode_schema
    encode_header encode_columns encode_column write_name type_code column_flags columns_size
    require_range read_uint read_loop write_uint write_loop create create_loop normalize_identifier
    normalize_loop is_identifier_start is_identifier_continue lower validate_column_type
    note_primary_key
keyed-decoded = refl

-- A name in capital letters is not how it is encoded.
capital-refused : decode_schema (keyed_bytes b'I' b'd') ≡ err not_canonical
unfolding decode_schema decode_header decode_columns decode_column known_type encode_schema
    encode_header encode_columns encode_column write_name type_code column_flags columns_size
    require_range read_uint read_loop write_uint write_loop create create_loop normalize_identifier
    normalize_loop is_identifier_start is_identifier_continue lower validate_column_type
    note_primary_key
capital-refused = refl

encode_schema-decode_schema_example :
    (encode_schema (keyed (b'i' ∷ b'd' ∷ [])) ≡ ok (keyed_bytes b'i' b'd'))
    × (create (keyed (b'i' ∷ b'd' ∷ [])) ≡ ok (keyed (b'i' ∷ b'd' ∷ [])))
encode_schema-decode_schema_example =
    encode_schema-decode_schema (keyed_bytes b'i' b'd') (keyed (b'i' ∷ b'd' ∷ [])) keyed-decoded
