-- ===== src/Schema/WrittenColumns.antt =====
-- schema.cpp: the bytes that encodeSchema writes for a column.
use minidb_cpp.Prelude.{
  ℕ, ◌+◌, ◌%◌, ◌^◌, ◌≡◌, refl, sym, ap, ◌∙◌, List, [], ◌∷◌, ◌++◌, ok, length, set, arith,
  length-append, set-append_right,
}
use minidb_cpp.Bytes.{write_uint16, write_uint32}
use minidb_cpp.Bytes.Segments.{
  zeros, length-zeros, zeros-add, little_endian, digits_from, write_uint-segment, write_uint-inner,
}
use minidb_cpp.Schema.{ColumnDefinition}
use minidb_cpp.Schema.Encoding.{
  type_code, column_flags, column_header_size, columns_size, write_name, encode_column,
  encode_columns,
}
use mathlib.Core.List.{append_assoc}

-- The first eight bytes of a column, and all of them.
abbrev pub column_front : ColumnDefinition → List ℕ
column_front c =
    little_endian 2 (length c.name % 2 ^ 16)
    ++ (type_code c.type ∷ column_flags c ∷ little_endian 4 c.varchar_max_bytes)

abbrev pub column_bytes : ColumnDefinition → List ℕ
column_bytes c = column_front c ++ c.name

pub length-column_bytes : (c : ColumnDefinition) → length (column_bytes c) ≡ 8 + length c.name
unfolding digits_from
length-column_bytes c = omega arith

write_name-segment :
    (front old back name : List ℕ) (offset : ℕ)
    → length old ≡ length name
    → offset ≡ length front
    → write_name (front ++ (old ++ back)) offset name ≡ front ++ (name ++ back)
unfolding write_name
write_name-segment front [] back [] offset h e = refl
write_name-segment front [] back (b ∷ name) offset h e = absurd (omega (arith, h))
write_name-segment front (x ∷ xs) back [] offset h e = absurd (omega (arith, h))
write_name-segment front (x ∷ xs) back (b ∷ name) offset h e =
    ap (λ (l : List ℕ). write_name l (offset + 1) name) placed
    ∙ write_name-segment (front ++ (b ∷ [])) xs back name (offset + 1) (omega (arith, h))
        (omega (arith, e, length-append front (b ∷ [])))
    ∙ append_assoc front (b ∷ []) (name ++ back)
  where
    here : offset ≡ length front + 0
    here = omega (arith, e)

    placed : set (front ++ ((x ∷ xs) ++ back)) offset b ≡ (front ++ (b ∷ [])) ++ (xs ++ back)
    placed =
        ap (λ (j : ℕ). set (front ++ ((x ∷ xs) ++ back)) j b) here
        ∙ set-append_right front ((x ∷ xs) ++ back) 0 b
        ∙ sym (append_assoc front (b ∷ []) (xs ++ back))

-- A column is written over zeros.
encode_column-ok :
    (front back : List ℕ) (c : ColumnDefinition)
    → encode_column (front ++ (zeros 8 ++ (zeros (length c.name) ++ back))) (length front) c
      ≡ ok (front ++ (column_bytes c ++ back))
unfolding encode_column digits_from
encode_column-ok front back c = rw (sized, typed, flagged, bounded, named) refl
  where
    rest : List ℕ
    rest = zeros (length c.name) ++ back

    n : ℕ
    n = length c.name % 2 ^ 16

    sized :
        write_uint16 (front ++ (zeros 8 ++ rest)) (length front) n
        ≡ ok (front ++ (little_endian 2 n ++ (zeros 6 ++ rest)))
    sized = write_uint-segment 2 front (zeros 2) (zeros 6 ++ rest) n refl

    typed :
        set
          (front ++ (little_endian 2 n ++ (zeros 6 ++ rest)))
          (length front + 2)
          (type_code c.type)
        ≡ front ++ (little_endian 2 n ++ (type_code c.type ∷ (zeros 5 ++ rest)))
    typed = set-append_right front (little_endian 2 n ++ (zeros 6 ++ rest)) 2 (type_code c.type)

    flagged :
        set
          (front ++ (little_endian 2 n ++ (type_code c.type ∷ (zeros 5 ++ rest))))
          (length front + 3)
          (column_flags c)
        ≡ front ++ (little_endian 2 n ++ (type_code c.type ∷ column_flags c ∷ (zeros 4 ++ rest)))
    flagged =
        set-append_right front (little_endian 2 n ++ (type_code c.type ∷ (zeros 5 ++ rest))) 3
          (column_flags c)

    bounded :
        write_uint32
          (front ++ (little_endian 2 n ++ (type_code c.type ∷ column_flags c ∷ (zeros 4 ++ rest))))
          (length front + 4)
          c.varchar_max_bytes
        ≡ ok (front ++ (column_front c ++ rest))
    bounded =
        write_uint-inner 4 front (little_endian 2 n ++ (type_code c.type ∷ column_flags c ∷ []))
          (zeros 4) rest (length front + 4) c.varchar_max_bytes refl refl

    named :
        write_name (front ++ (column_front c ++ rest)) (length front + 8) c.name
        ≡ front ++ (column_bytes c ++ back)
    named =
        ap (λ (l : List ℕ). write_name l (length front + 8) c.name)
          (sym (append_assoc front (column_front c) rest))
        ∙ write_name-segment (front ++ column_front c) (zeros (length c.name)) back c.name
            (length front + 8) (length-zeros (length c.name))
            (omega (arith, length-append front (column_front c)))
        ∙ append_assoc front (column_front c) (c.name ++ back)

unfoldable pub columns_bytes : List ColumnDefinition → List ℕ
columns_bytes [] = []
columns_bytes (c ∷ cs) = column_bytes c ++ columns_bytes cs

pub encode_columns-ok :
    (front : List ℕ) (cs : List ColumnDefinition)
    → encode_columns (front ++ zeros (columns_size cs)) (length front) cs
      ≡ ok (front ++ columns_bytes cs)
unfolding encode_columns columns_bytes columns_size
encode_columns-ok front [] = refl
encode_columns-ok front (c ∷ cs) =
    rw (split, encode_column-ok front (zeros (columns_size cs)) c)
      (next (encode_columns-ok (front ++ column_bytes c) cs))
  where
    split :
        zeros (column_header_size + length c.name + columns_size cs)
        ≡ zeros 8 ++ (zeros (length c.name) ++ zeros (columns_size cs))
    split =
        let e : 8 + length c.name + columns_size cs ≡ 8 + (length c.name + columns_size cs) =
          omega arith in
        ap zeros e
        ∙ zeros-add 8 (length c.name + columns_size cs)
        ∙ ap (◌++◌ (zeros 8)) (zeros-add (length c.name) (columns_size cs))

    cursor : length front + (column_header_size + length c.name) ≡ length (front ++ column_bytes c)
    cursor = omega (arith, length-append front (column_bytes c), length-column_bytes c)

    next :
        encode_columns
            ((front ++ column_bytes c) ++ zeros (columns_size cs))
            (length (front ++ column_bytes c))
            cs
          ≡ ok ((front ++ column_bytes c) ++ columns_bytes cs)
        → encode_columns
            (front ++ (column_bytes c ++ zeros (columns_size cs)))
            (length front + (column_header_size + length c.name))
            cs
          ≡ ok (front ++ (column_bytes c ++ columns_bytes cs))
    next q =
        ap (λ (k : ℕ). encode_columns (front ++ (column_bytes c ++ zeros (columns_size cs))) k cs)
          cursor
        ∙ ap (λ (l : List ℕ). encode_columns l (length (front ++ column_bytes c)) cs)
            (sym (append_assoc front (column_bytes c) (zeros (columns_size cs))))
        ∙ q
        ∙ ap ok (append_assoc front (column_bytes c) (columns_bytes cs))
