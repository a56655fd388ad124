-- ===== src/Schema/EncodedColumns.antt =====
-- schema.cpp: a column is decoded from the bytes that encodeSchema writes for it.
use minidb_cpp.Prelude.{
  bit_or, ◌==◌, if◌then◌else◌, ℕ, ◌+◌, ◌%◌, ◌^◌, ◌<◌, ◌≡◌, refl, sym, ap, ◌∙◌, subst, Bool, true,
  false, not, some, List, [], ◌∷◌, ◌++◌, ok, length, get_or, take, drop, arith, length-append,
  get_or-append_right, take-append_here, drop-append_here, All, All-append,
}
use Prim.Native.Nat.{bit_and}
use minidb_cpp.Bytes.{IsByte, read_uint16, read_uint32, require_range}
use minidb_cpp.Bytes.Segments.{
  little_endian, digits_from, digits_from-IsByte, read_uint-within, read_uint-inner,
  require_range-ok,
}
use minidb_cpp.Schema.{ColumnDefinition, DataType, uint32, int64, boolean, varchar}
use minidb_cpp.Schema.Encoding.{
  type_code, known_type, column_flags, column_header_size, columns_size, decode_column,
  decode_columns,
}
use native.Mathlib.Nat.{mod-eq_of_lt}
use mathlib.Core.List.{append_assoc, append-nil}
use minidb_cpp.Schema.WrittenColumns.{
  column_front, column_bytes, length-column_bytes, columns_bytes,
}

-- What the C++ types of a column hold; a name is one of bytes.
abbrev pub ColumnHolds : ColumnDefinition → Type 0
ColumnHolds c = All IsByte c.name × length c.name < 2 ^ 16 × c.varchar_max_bytes < 2 ^ 32

type_code-known : (t : DataType) → known_type (type_code t) ≡ some t
unfolding type_code known_type
type_code-known uint32 = refl
type_code-known int64 = refl
type_code-known boolean = refl
type_code-known varchar = refl

abbrev flags_of : Bool → Bool → ℕ
flags_of nullable primary =
    let with_nullable = if nullable then bit_or 0 1 else 0 in
    if primary then bit_or with_nullable 2 else with_nullable

flags-known :
    (n p : Bool)
    → ((bit_and (flags_of n p) 252 == 0) ≡ true)
      × (not (bit_and (flags_of n p) 1 == 0) ≡ n)
      × (not (bit_and (flags_of n p) 2 == 0) ≡ p)
      × IsByte (flags_of n p)
flags-known true true = (refl, refl, refl, omega arith)
flags-known true false = (refl, refl, refl, omega arith)
flags-known false true = (refl, refl, refl, omega arith)
flags-known false false = (refl, refl, refl, omega arith)

decode_column-ok :
    (front back : List ℕ) (c : ColumnDefinition)
    → ColumnHolds c
    → All IsByte (front ++ (column_bytes c ++ back))
    → decode_column (front ++ (column_bytes c ++ back)) (length front)
      ≡ ok (c, length front + (column_header_size + length c.name))
unfolding decode_column digits_from column_flags
decode_column-ok front back c (named, short, bound) h =
    rw
      (
        header_there,
        sized,
        name_there,
        type_there,
        type_code-known c.type,
        flags_there,
        (flags-known c.nullable c.primary_key).0,
        bounded,
        (flags-known c.nullable c.primary_key).1,
        (flags-known c.nullable c.primary_key).2,
        taken,
      )
      refl
  where
    whole : List ℕ
    whole = front ++ (column_bytes c ++ back)

    n : ℕ
    n = length c.name % 2 ^ 16

    kept : n ≡ length c.name
    kept = mod-eq_of_lt short

    long : length whole ≡ length front + (8 + length c.name + length back)
    long = omega (
      arith,
      length-append front (column_bytes c ++ back),
      length-append (column_bytes c) back,
      length-column_bytes c,
    )

    header_there : require_range whole (length front) column_header_size ≡ ok tt
    header_there = require_range-ok whole (length front) column_header_size (omega (arith, long))

    sized : read_uint16 whole (length front) ≡ ok (length c.name)
    sized =
        read_uint-within 2 front
          (type_code c.type
            ∷ column_flags c
            ∷ (little_endian 4 c.varchar_max_bytes ++ (c.name ++ back)))
          n h (omega arith)
        ∙ ap ok kept

    name_there : require_range whole (length front + column_header_size) (length c.name) ≡ ok tt
    name_there =
        require_range-ok whole (length front + column_header_size) (length c.name)
          (omega (arith, long))

    type_there : get_or whole (length front + 2) 0 ≡ type_code c.type
    type_there = get_or-append_right front (column_bytes c ++ back) 2 0

    flags_there : get_or whole (length front + 3) 0 ≡ flags_of c.nullable c.primary_key
    flags_there = get_or-append_right front (column_bytes c ++ back) 3 0

    bounded : read_uint32 whole (length front + 4) ≡ ok c.varchar_max_bytes
    bounded =
        read_uint-inner 4 front (little_endian 2 n ++ (type_code c.type ∷ column_flags c ∷ []))
          (c.name ++ back) (length front + 4) c.varchar_max_bytes h (omega (arith, bound)) refl

    taken : take (length c.name) (drop (length front + column_header_size) whole) ≡ c.name
    taken =
        ap (λ (l : List ℕ). take (length c.name) (drop (length front + 8) l))
          (sym (append_assoc front (column_front c) (c.name ++ back)))
        ∙ ap (take (length c.name)) (
            drop-append_here (length front + 8) (front ++ column_front c) (c.name ++ back)
              (omega (arith, length-append front (column_front c))))
        ∙ take-append_here (length c.name) c.name back refl

pub decode_columns-ok :
    (cs : List ColumnDefinition) (front whole : List ℕ)
    → All ColumnHolds cs
    → All IsByte whole
    → whole ≡ front ++ columns_bytes cs
    → decode_columns (length cs) whole (length front) ≡ ok (cs, length whole)
unfolding decode_columns columns_bytes
decode_columns-ok [] front whole k h e =
    ap (λ (l : List ℕ). ok ([], length l)) (sym (e ∙ append-nil front))
decode_columns-ok (c ∷ cs) front whole k h e =
    rw (read, rest (decode_columns-ok cs (front ++ column_bytes c) whole k.1 h again)) refl
  where
    again : whole ≡ (front ++ column_bytes c) ++ columns_bytes cs
    again = e ∙ sym (append_assoc front (column_bytes c) (columns_bytes cs))

    read :
        decode_column whole (length front)
        ≡ ok (c, length front + (column_header_size + length c.name))
    read =
        ap (λ (l : List ℕ). decode_column l (length front)) e
        ∙ decode_column-ok front (columns_bytes cs) c k.0 (subst (All IsByte) e h)

    cursor : length front + (column_header_size + length c.name) ≡ length (front ++ column_bytes c)
    cursor = omega (arith, length-append front (column_bytes c), length-column_bytes c)

    rest :
        decode_columns (length cs) whole (length (front ++ column_bytes c)) ≡ ok (cs, length whole)
        → decode_columns (length cs) whole (length front + (column_header_size + length c.name))
          ≡ ok (cs, length whole)
    rest q = ap (decode_columns (length cs) whole) cursor ∙ q

type_code-IsByte : (t : DataType) → IsByte (type_code t)
unfolding type_code
type_code-IsByte uint32 = omega arith
type_code-IsByte int64 = omega arith
type_code-IsByte boolean = omega arith
type_code-IsByte varchar = omega arith

column_bytes-IsByte : (c : ColumnDefinition) → ColumnHolds c → All IsByte (column_bytes c)
unfolding column_flags
column_bytes-IsByte c (named, short, bound) =
    All-append IsByte (column_front c) c.name
      (All-append IsByte (little_endian 2 (length c.name % 2 ^ 16)) _ (digits_from-IsByte 2 0 _) (
        type_code-IsByte c.type,
        ((flags-known c.nullable c.primary_key).3, digits_from-IsByte 4 0 c.varchar_max_bytes),
      ))
      named

pub columns_bytes-IsByte :
    (cs : List ColumnDefinition) → All ColumnHolds cs → All IsByte (columns_bytes cs)
unfolding columns_bytes
columns_bytes-IsByte [] h = tt
columns_bytes-IsByte (c ∷ cs) h =
    All-append IsByte (column_bytes c) (columns_bytes cs) (column_bytes-IsByte c h.0)
      (columns_bytes-IsByte cs h.1)

pub length-columns_bytes :
    (cs : List ColumnDefinition) → length (columns_bytes cs) ≡ columns_size cs
unfolding columns_bytes columns_size
length-columns_bytes [] = refl
length-columns_bytes (c ∷ cs) = omega (
  arith,
  length-append (column_bytes c) (columns_bytes cs),
  length-column_bytes c,
  length-columns_bytes cs,
)
