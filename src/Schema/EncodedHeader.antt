-- ===== src/Schema/EncodedHeader.antt =====
-- schema.cpp: the columns of a created schema, and the header that encodeSchema writes.
use minidb_cpp.Prelude.{
  ℕ, ◌+◌, ◌-◌, ◌*◌, ◌%◌, ◌^◌, ◌<◌, ◌≤◌, ◌≡◌, refl, sym, ap, ◌∙◌, subst, false, Option, none, List,
  [], ◌∷◌, ◌++◌, ok, throw_if-ok, ok-injective, ltb, length, arith, length-append, All, All-append,
  All-map,
}
use minidb_cpp.Bytes.{IsByte, write_uint16, write_uint32}
use minidb_cpp.Bytes.Segments.{
  zeros, length-zeros, zeros-add, little_endian, digits_from, digits_from-IsByte,
  write_uint-segment,
}
use minidb_cpp.Schema.{
  ColumnDefinition, DataType, uint32, int64, boolean, varchar, create, create_loop,
  is_identifier_continue, is_identifier_start, validate_column_type,
}
use minidb_cpp.Schema.Names.{IsNameByte, normalize_identifier_lem}
use minidb_cpp.Schema.Columns.{create_loop-cons}
use minidb_cpp.Schema.Encoding.{
  schema_magic, schema_header_size, columns_size, encode_header, encode_schema, encode_columns,
}
use minidb_cpp.Schema.EncodedColumns.{ColumnHolds}
use minidb_cpp.Schema.WrittenColumns.{columns_bytes, encode_columns-ok}
use native.Mathlib.Nat.{mod-eq_of_lt}

IsNameByte-IsByte : (b : ℕ) → IsNameByte b → IsByte b
unfolding is_identifier_continue is_identifier_start
IsNameByte-IsByte b h = ground (arith, h.0)

bound-fits : (t : DataType) (m : ℕ) → validate_column_type t m ≡ ok tt → m < 2 ^ 32
unfolding validate_column_type
bound-fits uint32 m h = ground (arith, h)
bound-fits int64 m h = ground (arith, h)
bound-fits boolean m h = ground (arith, h)
bound-fits varchar m h = ground (arith, h)

-- A column of a schema that was created.
abbrev pub IsCreated : ColumnDefinition → Type 0
IsCreated c = ColumnHolds c × length c.name ≤ 63

create_loop-IsCreated :
    (names : List (List ℕ)) (key : Option ℕ) (index : ℕ) (columns made : List ColumnDefinition)
    → create_loop names key index columns ≡ ok made
    → All IsCreated made
unfolding create_loop
create_loop-IsCreated names key index [] made h = subst (All IsCreated) (ok-injective [] made h) tt
create_loop-IsCreated names key index (column ∷ columns) made h =
    let (normal, noted, rest, e0, e1, e2, e3, e4, e5) =
      create_loop-cons names key index column columns made h in
    let (l, a, b, named, fixed) = normalize_identifier_lem column.name normal e0 in
    rw (← e5) (
      (
        (
          All-map IsNameByte IsByte IsNameByte-IsByte normal named,
          omega (arith, b),
          bound-fits column.type column.varchar_max_bytes e2,
        ),
        b,
      ),
      create_loop-IsCreated (normal ∷ names) noted (index + 1) columns rest e4,
    )

pub create-IsCreated :
    (columns made : List ColumnDefinition) → create columns ≡ ok made → All IsCreated made
unfolding create
create-IsCreated columns made h =
    let (_, loop) = throw_if-ok _ _ _ made h in create_loop-IsCreated [] none 0 columns made loop

pub columns_size-le :
    (cs : List ColumnDefinition) → All IsCreated cs → columns_size cs ≤ 71 * length cs
unfolding columns_size
columns_size-le [] h = omega arith
columns_size-le (c ∷ cs) h = omega (arith, h.0.1, columns_size-le cs h.1)

-- The header: magic, version, size of the header, number of columns, flags, and encoded size.
abbrev pub header_front : ℕ → List ℕ
header_front count =
    schema_magic
    ++ (little_endian 4 1 ++ (little_endian 4 24 ++ (little_endian 2 count ++ little_endian 2 0)))

abbrev pub header : ℕ → ℕ → List ℕ
header count size = header_front count ++ little_endian 4 size

pub length-header : (count size : ℕ) → length (header count size) ≡ 24
unfolding digits_from
length-header count size = refl

encode_header-ok :
    (z : List ℕ) (count : ℕ)
    → encode_header (schema_magic ++ (zeros 16 ++ z)) count
      ≡ ok (header (count % 2 ^ 16) ((24 + length z) % 2 ^ 32) ++ z)
unfolding encode_header digits_from
encode_header-ok z count = rw (e1, e2, e3, e4) refl
  where
    n : ℕ
    n = count % 2 ^ 16

    e1 :
        write_uint32 (schema_magic ++ (zeros 16 ++ z)) 8 1
        ≡ ok (schema_magic ++ (little_endian 4 1 ++ (zeros 12 ++ z)))
    e1 = write_uint-segment 4 schema_magic (zeros 4) (zeros 12 ++ z) 1 refl

    e2 :
        write_uint32 (schema_magic ++ (little_endian 4 1 ++ (zeros 12 ++ z))) 12 schema_header_size
        ≡ ok (schema_magic ++ (little_endian 4 1 ++ (little_endian 4 24 ++ (zeros 8 ++ z))))
    e2 = write_uint-segment 4 (schema_magic ++ little_endian 4 1) (zeros 4) (zeros 8 ++ z) 24 refl

    e3 :
        write_uint16
          (schema_magic ++ (little_endian 4 1 ++ (little_endian 4 24 ++ (zeros 8 ++ z))))
          16
          n
        ≡ ok (header n 0 ++ z)
    e3 =
        write_uint-segment 2 (schema_magic ++ (little_endian 4 1 ++ little_endian 4 24)) (zeros 2)
          (zeros 6 ++ z) n refl

    long : length (header n 0 ++ z) ≡ 24 + length z
    long = length-append (header n 0) z

    e4 :
        write_uint32 (header n 0 ++ z) 20 (length (header n 0 ++ z) % 2 ^ 32)
        ≡ ok (header n ((24 + length z) % 2 ^ 32) ++ z)
    e4 =
        ap (λ (k : ℕ). write_uint32 (header n 0 ++ z) 20 (k % 2 ^ 32)) long
        ∙ write_uint-segment 4 (header_front n) (zeros 4) z ((24 + length z) % 2 ^ 32) refl

-- The encoding of a schema that was created.
abbrev pub encoded : List ColumnDefinition → List ℕ
encoded cs = header (length cs) (24 + columns_size cs) ++ columns_bytes cs

pub encode_schema-ok :
    (cs : List ColumnDefinition)
    → length cs ≤ 1024
    → All IsCreated cs
    → encode_schema cs ≡ ok (encoded cs)
unfolding encode_schema
encode_schema-ok cs few h = rw (fits, zeros-add 24 (columns_size cs), started, columns) refl
  where
    size : ℕ
    size = 24 + columns_size cs

    small : size < 2 ^ 32
    small = omega (arith, columns_size-le cs h, few)

    fits : ltb (2 ^ 32 - 1) size ≡ false
    fits = ground (arith, small)

    started :
        encode_header (schema_magic ++ (zeros 16 ++ zeros (columns_size cs))) (length cs)
        ≡ ok (header (length cs) size ++ zeros (columns_size cs))
    started =
        encode_header-ok (zeros (columns_size cs)) (length cs)
        ∙ ap
            (λ (n : ℕ). ok (
              header n ((24 + length (zeros (columns_size cs))) % 2 ^ 32)
              ++ zeros (columns_size cs)))
            kept
        ∙ ap (λ (n : ℕ). ok (header (length cs) n ++ zeros (columns_size cs))) sized
      where
        kept : length cs % 2 ^ 16 ≡ length cs
        kept = mod-eq_of_lt (omega (arith, few))

        sized : (24 + length (zeros (columns_size cs))) % 2 ^ 32 ≡ size
        sized =
            ap (λ (n : ℕ). (24 + n) % 2 ^ 32) (length-zeros (columns_size cs)) ∙ mod-eq_of_lt small

    columns :
        encode_columns (header (length cs) size ++ zeros (columns_size cs)) schema_header_size cs
        ≡ ok (encoded cs)
    columns =
        ap (λ (k : ℕ). encode_columns (header (length cs) size ++ zeros (columns_size cs)) k cs)
          (sym (length-header (length cs) size))
        ∙ encode_columns-ok (header (length cs) size) cs

schema_magic-IsByte : All IsByte schema_magic
schema_magic-IsByte = (
  omega arith,
  (
    omega arith,
    (omega arith, (omega arith, (omega arith, (omega arith, (omega arith, (omega arith, tt)))))),
  ),
)

pub header-IsByte : (count size : ℕ) → All IsByte (header count size)
header-IsByte count size =
    All-append IsByte (header_front count) (little_endian 4 size)
      (All-append IsByte schema_magic _ schema_magic-IsByte (
        All-append IsByte (little_endian 4 1) _ (digits_from-IsByte 4 0 1) (
          All-append IsByte (little_endian 4 24) _ (digits_from-IsByte 4 0 24) (
            All-append IsByte (little_endian 2 count) _ (digits_from-IsByte 2 0 count)
              (digits_from-IsByte 2 0 0)))))
      (digits_from-IsByte 4 0 size)
