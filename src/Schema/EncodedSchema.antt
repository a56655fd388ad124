-- ===== src/Schema/EncodedSchema.antt =====
-- schema.cpp: a schema is decoded as it was encoded, and only from its own encoding.
use minidb_cpp.Prelude.{
  ℕ, ◌+◌, ◌^◌, ◌<◌, ◌≤◌, ◌≡◌, refl, sym, ap, ◌∙◌, true, false, not, List, ◌++◌, ok, throw_if-ok,
  bind-ok, ok-injective, calls, calls-returned, ltb, ◌==◌, ==_iff, length, arith, length-append,
  All, All-append, All-map,
}
use minidb_cpp.Prelude.Texts.{text_eq, text_eq_refl, text_eq→≡}
use minidb_cpp.Bytes.{IsByte, read_uint16, read_uint32}
use minidb_cpp.Bytes.Segments.{little_endian, digits_from, read_uint-within}
use minidb_cpp.Schema.{ColumnDefinition, create, max_schema_columns}
use minidb_cpp.Schema.Names.{not-false}
use minidb_cpp.Schema.Columns.{create-fixed}
use minidb_cpp.Schema.Encoding.{
  invalid_schema, schema_magic, schema_header_size, columns_size, encode_schema, decode_header,
  decode_columns, decode_schema,
}
use minidb_cpp.Schema.EncodedColumns.{
  ColumnHolds, columns_bytes-IsByte, length-columns_bytes, decode_columns-ok,
}
use minidb_cpp.Schema.WrittenColumns.{columns_bytes}
use minidb_cpp.Schema.EncodedHeader.{
  IsCreated, create-IsCreated, columns_size-le, header_front, header, length-header, encoded,
  encode_schema-ok, header-IsByte,
}

decode_header-ok :
    (count size : ℕ) (rest : List ℕ)
    → 1 ≤ count
    → count ≤ max_schema_columns
    → size < 2 ^ 32
    → length (header count size ++ rest) ≡ size
    → All IsByte (header count size ++ rest)
    → decode_header (header count size ++ rest) ≡ ok count
unfolding decode_header digits_from
decode_header-ok count size rest any few small long h =
    rw (long, low, r1, r2, r3, r4, r5, same size, nonzero, not_many) refl
  where
    whole : List ℕ
    whole = header count size ++ rest

    r1 : read_uint32 whole 8 ≡ ok 1
    r1 =
        read_uint-within 4 schema_magic
          (little_endian 4 24
            ++ (little_endian 2 count ++ (little_endian 2 0 ++ (little_endian 4 size ++ rest))))
          1 h (omega arith)

    r2 : read_uint32 whole 12 ≡ ok 24
    r2 =
        read_uint-within 4 (schema_magic ++ little_endian 4 1)
          (little_endian 2 count ++ (little_endian 2 0 ++ (little_endian 4 size ++ rest))) 24 h
          (omega arith)

    r3 : read_uint16 whole 18 ≡ ok 0
    r3 =
        read_uint-within 2
          (schema_magic ++ (little_endian 4 1 ++ (little_endian 4 24 ++ little_endian 2 count)))
          (little_endian 4 size ++ rest) 0 h (omega arith)

    r4 : read_uint32 whole 20 ≡ ok size
    r4 = read_uint-within 4 (header_front count) rest size h (omega (arith, small))

    r5 : read_uint16 whole 16 ≡ ok count
    r5 =
        read_uint-within 2 (schema_magic ++ (little_endian 4 1 ++ little_endian 4 24))
          (little_endian 2 0 ++ (little_endian 4 size ++ rest)) count h (omega (arith, few))

    low : ltb size schema_header_size ≡ false
    low = ground (arith, long, length-append (header count size) rest, length-header count size)

    same : (n : ℕ) → n == n ≡ true
    same n = (==_iff n n).1 refl

    nonzero : count == 0 ≡ false
    nonzero = ground (arith, any)

    not_many : ltb max_schema_columns count ≡ false
    not_many = ground (arith, few)

-- A schema that Schema::create returns is encoded without an exception, and decoded from these bytes as
-- it was.
pub decode_schema-encode_schema :
    (columns schema : List ColumnDefinition)
    → create columns ≡ ok schema
    → (bytes : List ℕ) × (encode_schema schema ≡ ok bytes) × (decode_schema bytes ≡ ok schema)
unfolding decode_schema
decode_schema-encode_schema columns schema h =
    let (as_many, any, few, again) = create-fixed columns schema h in
    let written : encode_schema schema ≡ ok (encoded schema) = encode_schema-ok schema few made in
    (
      encoded schema,
      written,
      rw
          (
            header_read any few,
            columns_read,
            same_length,
            again,
            written,
            text_eq_refl (encoded schema),
          )
          refl,
    )
  where
    made : All IsCreated schema
    made = create-IsCreated columns schema h

    holds : All ColumnHolds schema
    holds = All-map IsCreated ColumnHolds (λ c i. i.0) schema made

    size : ℕ
    size = 24 + columns_size schema

    all_bytes : All IsByte (encoded schema)
    all_bytes =
        All-append IsByte (header (length schema) size) (columns_bytes schema)
          (header-IsByte (length schema) size) (columns_bytes-IsByte schema holds)

    long : length (encoded schema) ≡ size
    long = omega (
      arith,
      length-append (header (length schema) size) (columns_bytes schema),
      length-header (length schema) size,
      length-columns_bytes schema,
    )

    header_read :
        1 ≤ length schema
        → length schema ≤ 1024
        → decode_header (encoded schema) ≡ ok (length schema)
    header_read any few =
        decode_header-ok (length schema) size (columns_bytes schema) any few
          (omega (arith, columns_size-le schema made, few)) long all_bytes

    columns_read :
        decode_columns (length schema) (encoded schema) schema_header_size
        ≡ ok (schema, length (encoded schema))
    columns_read =
        ap (decode_columns (length schema) (encoded schema))
          (sym (length-header (length schema) size))
        ∙ decode_columns-ok schema (header (length schema) size) (encoded schema) holds all_bytes
            refl

    same_length : length (encoded schema) == length (encoded schema) ≡ true
    same_length = (==_iff (length (encoded schema)) (length (encoded schema))).1 refl

-- decodeSchema accepts only the encoding of the schema that it returns, and this is one that
-- Schema::create returns unchanged.
pub encode_schema-decode_schema :
    (bytes : List ℕ) (schema : List ColumnDefinition)
    → decode_schema bytes ≡ ok schema
    → (encode_schema schema ≡ ok bytes) × (create schema ≡ ok schema)
unfolding decode_schema
encode_schema-decode_schema bytes schema h =
    let (count, _, h1) = bind-ok (decode_header bytes) _ schema h in
    let ((columns, cursor), _, h2) =
      bind-ok (decode_columns count bytes schema_header_size) _ schema h1 in
    let (_, h3) = throw_if-ok _ _ _ schema h2 in
    let (made, valid, h4) = bind-ok (calls invalid_schema (create columns)) _ schema h3 in
    let (again, encoded_again, h5) = bind-ok (encode_schema made) _ schema h4 in
    let (same, h6) = throw_if-ok (not (text_eq again bytes)) _ _ schema h5 in
    let this : made ≡ schema = ok-injective made schema h6 in
    let (_, _, _, fixed) =
      create-fixed columns made (calls-returned invalid_schema (create columns) made valid) in
    (
      rw (← this) (encoded_again ∙ ap ok (text_eq→≡ again bytes (not-false _ same))),
      rw (← this) fixed,
    )
