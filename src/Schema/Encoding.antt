-- ===== src/Schema/Encoding.antt =====
-- src/schema.cpp: encodeSchema and decodeSchema.
use minidb_cpp.Prelude.{
  ℕ, zero, suc, ◌+◌, ◌-◌, ◌%◌, ◌^◌, bit_or, not, ◌||◌, Option, none, some, List, [], ◌∷◌, ◌++◌,
  Result, ok, err, ◌>>=◌, ◌>>◌, throw_if, calls, ltb, ◌==◌, if◌then◌else◌, length, get_or, set,
  take, drop, replicate,
}
use Prim.Native.Nat.{bit_and}
use minidb_cpp.Prelude.Texts.{text_eq}
use minidb_cpp.Bytes as Bytes
use minidb_cpp.Bytes.{require_range, write_uint16, write_uint32, read_uint16, read_uint32}
use minidb_cpp.Schema as Schema
use minidb_cpp.Schema.{
  ColumnDefinition, DataType, uint32, int64, boolean, varchar, create, max_schema_columns,
}

pub data EncodingError : Type 0 where
  codec : Bytes.Error → EncodingError
  invalid_schema : Schema.Error → EncodingError
  size_overflow bad_magic bad_version bad_header bad_column_count unknown_type : EncodingError
  bad_flags trailing_bytes not_canonical : EncodingError

abbrev pub schema_magic : List ℕ
schema_magic = b'M' ∷ b'D' ∷ b'B' ∷ b'S' ∷ b'C' ∷ b'H' ∷ b'M' ∷ b'A' ∷ []

abbrev pub schema_header_size : ℕ
schema_header_size = 24

abbrev pub column_header_size : ℕ
column_header_size = 8

unfoldable pub type_code : DataType → ℕ
type_code uint32 = 1
type_code int64 = 2
type_code boolean = 3
type_code varchar = 4

-- The test of the type ID and its cast.
unfoldable pub known_type : ℕ → Option DataType
known_type raw =
    if raw == 1
    then some uint32
    else (if raw == 2
        then some int64
        else (if raw == 3 then some boolean else (if raw == 4 then some varchar else none)))

-- `if (nullable) flags |= NULLABLE_FLAG; if (primaryKey) flags |= PRIMARY_KEY_FLAG;`
unfoldable pub column_flags : ColumnDefinition → ℕ
column_flags column =
    let with_nullable = if column.nullable then bit_or 0 1 else 0 in
    if column.primary_key then bit_or with_nullable 2 else with_nullable

unfoldable pub columns_size : List ColumnDefinition → ℕ
columns_size [] = 0
columns_size (column ∷ columns) = column_header_size + length column.name + columns_size columns

-- `bytes[offset + index] = name[index]`
unfoldable pub write_name : List ℕ → ℕ → List ℕ → List ℕ
write_name bytes offset [] = bytes
write_name bytes offset (b ∷ name) = write_name (set bytes offset b) (offset + 1) name

unfoldable pub encode_column : List ℕ → ℕ → ColumnDefinition → Result Bytes.Error (List ℕ)
encode_column bytes cursor column = do
  with_length ← write_uint16 bytes cursor (length column.name % 2 ^ 16)
  let with_type = set with_length (cursor + 2) (type_code column.type)
  let with_flags = set with_type (cursor + 3) (column_flags column)
  with_bound ← write_uint32 with_flags (cursor + 4) column.varchar_max_bytes
  ok (write_name with_bound (cursor + 8) column.name)

unfoldable pub encode_columns : List ℕ → ℕ → List ColumnDefinition → Result Bytes.Error (List ℕ)
encode_columns bytes cursor [] = ok bytes
encode_columns bytes cursor (column ∷ columns) = do
  written ← encode_column bytes cursor column
  encode_columns written (cursor + (column_header_size + length column.name)) columns

unfoldable pub encode_header : List ℕ → ℕ → Result Bytes.Error (List ℕ)
encode_header bytes column_count = do
  with_version ← write_uint32 bytes 8 1
  with_header_size ← write_uint32 with_version 12 schema_header_size
  with_count ← write_uint16 with_header_size 16 (column_count % 2 ^ 16)
  write_uint32 with_count 20 (length with_count % 2 ^ 32)

unfoldable pub encode_schema : List ColumnDefinition → Result EncodingError (List ℕ)
encode_schema schema = do
  let encoded_size = schema_header_size + columns_size schema
  throw_if (ltb (2 ^ 32 - 1) encoded_size) size_overflow
  started ←
      calls codec
        (encode_header (schema_magic ++ drop 8 (replicate encoded_size 0)) (length schema))
  calls codec (encode_columns started schema_header_size schema)

-- One round of the loop of decodeSchema: the column, and the cursor behind it.
unfoldable pub decode_column : List ℕ → ℕ → Result EncodingError (ColumnDefinition × ℕ)
decode_column bytes cursor = do
  calls codec (require_range bytes cursor column_header_size)
  name_length ← calls codec (read_uint16 bytes cursor)
  calls codec (require_range bytes (cursor + column_header_size) name_length)
  let flags = get_or bytes (cursor + 3) 0
  elim (known_type (get_or bytes (cursor + 2) 0)) [
    | none ↦ err unknown_type
    | some type ↦ (do
      throw_if (not (bit_and flags 252 == 0)) bad_flags
      let name = take name_length (drop (cursor + column_header_size) bytes)
      max_bytes ← calls codec (read_uint32 bytes (cursor + 4))
      ok (
        record {
          name = name;
          type = type;
          nullable = not (bit_and flags 1 == 0);
          primary_key = not (bit_and flags 2 == 0);
          varchar_max_bytes = max_bytes;
        },
        cursor + (column_header_size + name_length),
      ))
  ]

unfoldable pub decode_columns : ℕ → List ℕ → ℕ → Result EncodingError (List ColumnDefinition × ℕ)
decode_columns zero bytes cursor = ok ([], cursor)
decode_columns (suc rounds) bytes cursor = do
  (column, next) ← decode_column bytes cursor
  (columns, end) ← decode_columns rounds bytes next
  ok (column ∷ columns, end)

-- The checks of the header, and the number of columns.
unfoldable pub decode_header : List ℕ → Result EncodingError ℕ
decode_header bytes = do
  throw_if (ltb (length bytes) schema_header_size || not (text_eq (take 8 bytes) schema_magic))
      bad_magic
  version ← calls codec (read_uint32 bytes 8)
  throw_if (not (version == 1)) bad_version
  header_size ← calls codec (read_uint32 bytes 12)
  flags ← calls codec (read_uint16 bytes 18)
  encoded_size ← calls codec (read_uint32 bytes 20)
  throw_if
      (not (header_size == schema_header_size)
        || not (flags == 0)
        || not (encoded_size == length bytes))
      bad_header
  column_count ← calls codec (read_uint16 bytes 16)
  throw_if ((column_count == 0) || ltb max_schema_columns column_count) bad_column_count
  ok column_count

unfoldable pub decode_schema : List ℕ → Result EncodingError (List ColumnDefinition)
decode_schema bytes = do
  column_count ← decode_header bytes
  (columns, cursor) ← decode_columns column_count bytes schema_header_size
  throw_if (not (cursor == length bytes)) trailing_bytes
  schema ← calls invalid_schema (create columns)
  again ← encode_schema schema
  throw_if (not (text_eq again bytes)) not_canonical
  ok schema
