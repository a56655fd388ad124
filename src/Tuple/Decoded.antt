-- ===== src/Tuple/Decoded.antt =====
-- tuple_codec.cpp: a value is read from the bytes that stand for it.
use minidb_cpp.Prelude.{
  ℕ, ◌+◌, ◌%◌, ◌^◌, ◌<◌, ◌≤◌, ◌≡◌, refl, sym, ap, ◌∙◌, subst, Bool, true, false, List, [], ◌∷◌,
  ◌++◌, ok, ltb, length, arith, length-append, take, drop, take-append_here, drop-append_here,
  get_or-append_here, All, Bool-cases, inl, inr,
}
use minidb_cpp.Prelude.Int.{IsInt64, to_bits, of_bits-to_bits, to_bits-lt}
use minidb_cpp.Bytes.{IsByte, read_uint32, require_range}
use minidb_cpp.Bytes.Segments.{
  little_endian, read_uint-within, require_range-ok, length-digits_from,
}
use minidb_cpp.Schema.{
  ColumnDefinition, DataType, uint32, int64, boolean, varchar, Value, null, uint32_value,
  int64_value, bool_value, string_value,
}
use minidb_cpp.Schema.Values.{Fits, RowFits}
use minidb_cpp.Tuple.{
  is_null, is_null_value, header_size, decode_varchar, decode_value, decode_column, decode_loop,
  max_tuple_size,
}
use minidb_cpp.Tuple.Pieces.{value_bytes, row_bytes}
use native.Mathlib.Nat.{mod-eq_of_lt}
use mathlib.Core.List.{append_assoc, append-nil}

-- What the C++ types of a value hold; a string is one of bytes.
abbrev pub Holds : Value → Type 0
Holds (uint32_value n) = n < 2 ^ 32
Holds (int64_value z) = IsInt64 z
Holds (string_value s) = All IsByte s
Holds _ = Unit

decode_varchar-ok :
    (max_bytes : ℕ) (front s back : List ℕ)
    → length s ≤ max_bytes
    → length s < 2 ^ 32
    → All IsByte (front ++ (little_endian 4 (length s) ++ (s ++ back)))
    → decode_varchar max_bytes (front ++ (little_endian 4 (length s) ++ (s ++ back))) (length front)
      ≡ ok (string_value s, length front + 4 + length s)
unfolding decode_varchar
decode_varchar-ok max_bytes front s back fits small h = rw (size, bounded, in_range, taken) refl
  where
    whole : List ℕ
    whole = front ++ (little_endian 4 (length s) ++ (s ++ back))

    size : read_uint32 whole (length front) ≡ ok (length s)
    size = read_uint-within 4 front (s ++ back) (length s) h (omega (arith, small))

    bounded : ltb max_bytes (length s) ≡ false
    bounded = ground (arith, fits)

    in_range : require_range whole (length front + 4) (length s) ≡ ok tt
    in_range = require_range-ok whole (length front + 4) (length s) (
        omega (
          arith,
          length-append front (little_endian 4 (length s) ++ (s ++ back)),
          length-append (little_endian 4 (length s)) (s ++ back),
          length-append s back,
          length-digits_from 4 0 (length s),
        ))

    dropped : drop (length front + 4) whole ≡ s ++ back
    dropped =
        ap (drop (length front + 4))
          (sym (append_assoc front (little_endian 4 (length s)) (s ++ back)))
        ∙ drop-append_here (length front + 4) (front ++ little_endian 4 (length s)) (s ++ back) (
            omega (
              arith,
              length-append front (little_endian 4 (length s)),
              length-digits_from 4 0 (length s),
            ))

    taken : take (length s) (drop (length front + 4) whole) ≡ s
    taken = ap (take (length s)) dropped ∙ take-append_here (length s) s back refl

decode_string-ok :
    (max_bytes : ℕ) (front s back : List ℕ)
    → length s ≤ max_bytes
    → length (front ++ ((little_endian 4 (length s % 2 ^ 32) ++ s) ++ back)) ≤ max_tuple_size
    → All IsByte (front ++ ((little_endian 4 (length s % 2 ^ 32) ++ s) ++ back))
    → decode_varchar max_bytes
        (front ++ ((little_endian 4 (length s % 2 ^ 32) ++ s) ++ back))
        (length front)
      ≡ ok (string_value s, length front + length (little_endian 4 (length s % 2 ^ 32) ++ s))
decode_string-ok max_bytes front s back fits small h =
    ap (λ (l : List ℕ). decode_varchar max_bytes l (length front)) flat
    ∙ decode_varchar-ok max_bytes front s back fits short (subst (All IsByte) flat h)
    ∙ ap (λ (k : ℕ). ok (string_value s, k)) behind
  where
    prefix : List ℕ
    prefix = little_endian 4 (length s % 2 ^ 32)

    short : length s < 2 ^ 32
    short = omega (
      arith,
      small,
      length-append front ((prefix ++ s) ++ back),
      length-append (prefix ++ s) back,
      length-append prefix s,
    )

    kept : length s % 2 ^ 32 ≡ length s
    kept = mod-eq_of_lt short

    flat : front ++ ((prefix ++ s) ++ back) ≡ front ++ (little_endian 4 (length s) ++ (s ++ back))
    flat =
        ap (λ (n : ℕ). front ++ ((little_endian 4 n ++ s) ++ back)) kept
        ∙ ap (◌++◌ front) (append_assoc (little_endian 4 (length s)) s back)

    behind : length front + 4 + length s ≡ length front + length (prefix ++ s)
    behind = omega (arith, length-append prefix s, length-digits_from 4 0 (length s % 2 ^ 32))

decode_value-ok :
    (column : ColumnDefinition) (type : DataType) (nullable : Bool) (v : Value)
    (front back : List ℕ)
    → Fits type column.varchar_max_bytes nullable v
    → is_null_value v ≡ false
    → Holds v
    → length (front ++ (value_bytes v ++ back)) ≤ max_tuple_size
    → All IsByte (front ++ (value_bytes v ++ back))
    → decode_value column type (front ++ (value_bytes v ++ back)) (length front)
      ≡ ok (v, length front + length (value_bytes v))
unfolding decode_value value_bytes
decode_value-ok column type b null front back f d i small h = cc
decode_value-ok column uint32 b (uint32_value n) front back f d i small h =
    rw (read_uint-within 4 front back n h (omega (arith, i)), length-digits_from 4 0 n) refl
decode_value-ok column int64 b (int64_value z) front back f d i small h =
    rw
      (
        read_uint-within 8 front back (to_bits z) h (omega (arith, to_bits-lt z i)),
        length-digits_from 8 0 (to_bits z),
        of_bits-to_bits z i,
      )
      refl
decode_value-ok column boolean b (bool_value true) front back f d i small h =
    rw
      (
        require_range-ok (front ++ (1 ∷ back)) (length front) 1
            (omega (arith, length-append front (1 ∷ back))),
        get_or-append_here front back 1 0,
      )
      refl
decode_value-ok column boolean b (bool_value false) front back f d i small h =
    rw
      (
        require_range-ok (front ++ (0 ∷ back)) (length front) 1
            (omega (arith, length-append front (0 ∷ back))),
        get_or-append_here front back 0 0,
      )
      refl
decode_value-ok column varchar b (string_value s) front back f d i small h =
    decode_string-ok column.varchar_max_bytes front s back f small h
decode_value-ok column _ b _ front back f d i small h = absurd f

-- The test of the bitmap in a column that is read agrees with the value.
decode_column-ok :
    (column : ColumnDefinition) (i : ℕ) (v : Value) (front back : List ℕ)
    → Fits column.type column.varchar_max_bytes column.nullable v
    → Holds v
    → length (front ++ (value_bytes v ++ back)) ≤ max_tuple_size
    → All IsByte (front ++ (value_bytes v ++ back))
    → decode_column column i (front ++ (value_bytes v ++ back)) (length front) (is_null_value v)
      ≡ ok (v, length front + length (value_bytes v))
unfolding decode_column value_bytes
decode_column-ok column i v front back f k small h = elim (Bool-cases (is_null_value v)) [
  | inl e ↦ nothing v e f
  | inr e ↦ rw e (something e)
]
  where
    whole : Value → List ℕ
    whole v = front ++ (value_bytes v ++ back)

    nothing :
        (v : Value)
        → is_null_value v ≡ true
        → Fits column.type column.varchar_max_bytes column.nullable v
        → decode_column column i (whole v) (length front) (is_null_value v)
          ≡ ok (v, length front + length (value_bytes v))
    nothing null e g = rw g (ap (λ (n : ℕ). ok (null, n)) here)
      where
        here : length front ≡ length front + 0
        here = omega arith
    nothing (uint32_value n) e g = cc
    nothing (int64_value n) e g = cc
    nothing (bool_value n) e g = cc
    nothing (string_value n) e g = cc

    something :
        is_null_value v ≡ false
        → decode_column column i (whole v) (length front) false
          ≡ ok (v, length front + length (value_bytes v))
    something e = decode_value-ok column column.type column.nullable v front back f e k small h

-- The bitmap of the bytes has the NULLs of the values, the first of which has the index `i`.
abbrev pub NullsAt : List ℕ → ℕ → List Value → Type 0
NullsAt bytes i [] = Unit
NullsAt bytes i (v ∷ vs) =
    (is_null bytes header_size i ≡ is_null_value v) × NullsAt bytes (i + 1) vs

pub decode_loop-ok :
    (columns : List ColumnDefinition) (vs : List Value) (i : ℕ) (front whole : List ℕ)
    → RowFits columns vs
    → All Holds vs
    → NullsAt whole i vs
    → length whole ≤ max_tuple_size
    → All IsByte whole
    → whole ≡ front ++ row_bytes vs
    → decode_loop columns i whole (length front) ≡ ok (vs, length whole)
unfolding decode_loop row_bytes
decode_loop-ok [] [] i front whole f k n small h e =
    ap (λ (l : List ℕ). ok ([], length l)) (sym (e ∙ append-nil front))
decode_loop-ok [] (v ∷ vs) i front whole f k n small h e = absurd f
decode_loop-ok (c ∷ cs) [] i front whole f k n small h e = absurd f
decode_loop-ok (c ∷ cs) (v ∷ vs) i front whole f k n small h e =
    rw
      (
        n.0,
        read,
        rest
            (decode_loop-ok cs vs (i + 1) (front ++ value_bytes v) whole f.1 k.1 n.1 small h again),
      )
      refl
  where
    next : ℕ
    next = length front + length (value_bytes v)

    read : decode_column c i whole (length front) (is_null_value v) ≡ ok (v, next)
    read =
        ap (λ (l : List ℕ). decode_column c i l (length front) (is_null_value v)) e
        ∙ decode_column-ok c i v front (row_bytes vs) f.0 k.0
            (subst (λ (l : List ℕ). length l ≤ max_tuple_size) e small) (subst (All IsByte) e h)

    again : whole ≡ (front ++ value_bytes v) ++ row_bytes vs
    again = e ∙ sym (append_assoc front (value_bytes v) (row_bytes vs))

    rest :
        decode_loop cs (i + 1) whole (length (front ++ value_bytes v)) ≡ ok (vs, length whole)
        → decode_loop cs (i + 1) whole next ≡ ok (vs, length whole)
    rest q = ap (decode_loop cs (i + 1) whole) (sym (length-append front (value_bytes v))) ∙ q
