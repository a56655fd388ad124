-- ===== src/Tuple/Pieces.antt =====
-- tuple_codec.cpp: the bytes that the loop of `encode` appends and marks.
use minidb_cpp.Prelude.{
  calls, ℕ, ◌+◌, ◌/◌, ◌%◌, ◌^◌, ◌<◌, ◌≤◌, ◌≡◌, refl, sym, ap, ◌∙◌, Bool, true, false, List, [], ◌∷◌,
  ◌++◌, Result, ok, ◌>>=◌, ◌>>◌, throw_if, ltb, length, arith, length-append, Bool-cases, inl, inr,
}
use minidb_cpp.Prelude.Int.{to_bits}
use minidb_cpp.Bytes.{append_uint32, append_uint64}
use minidb_cpp.Bytes.Segments.{little_endian, append_uint-segment}
use minidb_cpp.Schema.{
  ColumnDefinition, DataType, uint32, int64, boolean, varchar, Value, null, uint32_value,
  int64_value, bool_value, string_value,
}
use minidb_cpp.Schema.Values.{Fits, RowFits}
use minidb_cpp.Tuple.{
  Error, codec, max_tuple_size, append_string, append_value, encode_value, encode_loop, too_large,
  header_size, is_null_value, set_null,
}
use minidb_cpp.Tuple.Bitmap.{
  set_bit, set_null-set_bit, mark, null_bits, Room, Room-here, Room-rest, length-mark,
}
use mathlib.Core.List.{append_assoc, append-nil}

-- The bytes of a value, behind the bitmap.
unfoldable pub value_bytes : Value → List ℕ
value_bytes null = []
value_bytes (uint32_value n) = little_endian 4 n
value_bytes (int64_value z) = little_endian 8 (to_bits z)
value_bytes (bool_value true) = 1 ∷ []
value_bytes (bool_value false) = 0 ∷ []
value_bytes (string_value s) = little_endian 4 (length s % 2 ^ 32) ++ s

unfoldable pub row_bytes : List Value → List ℕ
row_bytes [] = []
row_bytes (v ∷ vs) = value_bytes v ++ row_bytes vs

append_uint32-ok :
    (bytes : List ℕ) (n : ℕ) → calls codec (append_uint32 bytes n) ≡ ok (bytes ++ little_endian 4 n)
append_uint32-ok bytes n = ap (calls codec) (append_uint-segment 4 bytes n)

append_uint64-ok :
    (bytes : List ℕ) (n : ℕ) → calls codec (append_uint64 bytes n) ≡ ok (bytes ++ little_endian 8 n)
append_uint64-ok bytes n = ap (calls codec) (append_uint-segment 8 bytes n)

append_string-ok :
    (bytes s : List ℕ)
    → calls codec (append_string bytes s) ≡ ok (bytes ++ (little_endian 4 (length s % 2 ^ 32) ++ s))
unfolding append_string
append_string-ok bytes s =
    rw (append_uint-segment 4 bytes (length s % 2 ^ 32))
      (ap ok (append_assoc bytes (little_endian 4 (length s % 2 ^ 32)) s))

-- A value that is checked after it is appended.
appended :
    (r : Result Error (List ℕ)) (out : List ℕ)
    → r ≡ ok out
    → length out ≤ max_tuple_size
    → (r >>= λ a. throw_if (ltb max_tuple_size (length a)) too_large >> ok a) ≡ ok out
appended r out e h = rw (e, small) refl
  where
    small : ltb max_tuple_size (length out) ≡ false
    small = ground (arith, h)

tail_grows :
    (front bits tail w : List ℕ) → (front ++ (bits ++ tail)) ++ w ≡ front ++ (bits ++ (tail ++ w))
tail_grows front bits tail w =
    append_assoc front (bits ++ tail) w ∙ ap (◌++◌ front) (append_assoc bits tail w)

append_value-ok :
    (type : DataType) (max_bytes : ℕ) (nullable : Bool) (v : Value) (bytes : List ℕ)
    → Fits type max_bytes nullable v
    → is_null_value v ≡ false
    → append_value bytes type v ≡ ok (bytes ++ value_bytes v)
unfolding append_value value_bytes
append_value-ok type m b null bytes h d = cc
append_value-ok uint32 m b (uint32_value n) bytes h d = append_uint32-ok bytes n
append_value-ok int64 m b (int64_value z) bytes h d = append_uint64-ok bytes (to_bits z)
append_value-ok boolean m b (bool_value true) bytes h d = refl
append_value-ok boolean m b (bool_value false) bytes h d = refl
append_value-ok varchar m b (string_value s) bytes h d = append_string-ok bytes s
append_value-ok _ m b _ bytes h d = absurd h

encode_value-checked :
    (column : ColumnDefinition) (v : Value) (i : ℕ) (bytes : List ℕ)
    → is_null_value v ≡ false
    → encode_value column v i bytes ≡ (
        append_value bytes column.type v >>= λ a.
        throw_if (ltb max_tuple_size (length a)) too_large >> ok a)
unfolding encode_value
encode_value-checked column null i bytes h = cc
encode_value-checked column (uint32_value n) i bytes h = refl
encode_value-checked column (int64_value z) i bytes h = refl
encode_value-checked column (bool_value b) i bytes h = refl
encode_value-checked column (string_value s) i bytes h = refl

-- The bytes of a tuple in the making: its header, its bitmap, and what is behind them.
abbrev pub laid_out : List ℕ → List ℕ → List ℕ → List ℕ
laid_out front bits tail = front ++ (bits ++ tail)

pub length-laid_out :
    (front bits tail : List ℕ)
    → length (laid_out front bits tail) ≡ length front + length bits + length tail
length-laid_out front bits tail =
    omega (arith, length-append front (bits ++ tail), length-append bits tail)

encode_value-null :
    (column : ColumnDefinition) (i : ℕ) (front bits tail : List ℕ)
    → length front ≡ header_size
    → i / 8 < length bits
    → encode_value column null i (laid_out front bits tail)
      ≡ ok (laid_out front (set_bit bits i) (tail ++ value_bytes null))
unfolding encode_value value_bytes
encode_value-null column i front bits tail long room =
    ap (λ (k : ℕ). ok (set_null (laid_out front bits tail) k i)) (sym long)
    ∙ ap ok (set_null-set_bit front bits tail i room)
    ∙ ap (λ (t : List ℕ). ok (laid_out front (set_bit bits i) t)) (sym (append-nil tail))

encode_value-ok :
    (column : ColumnDefinition) (v : Value) (i : ℕ) (front bits tail : List ℕ)
    → Fits column.type column.varchar_max_bytes column.nullable v
    → length front ≡ header_size
    → i / 8 < length bits
    → length (laid_out front bits (tail ++ value_bytes v)) ≤ max_tuple_size
    → encode_value column v i (laid_out front bits tail)
      ≡ ok (laid_out front (mark v i bits) (tail ++ value_bytes v))
encode_value-ok column v i front bits tail fits long room small =
    elim (Bool-cases (is_null_value v)) [
      | inl e ↦ nothing v e
      | inr e ↦
          let grown : append_value (laid_out front bits tail) column.type v
              ≡ ok (laid_out front bits (tail ++ value_bytes v)) =
            append_value-ok column.type column.varchar_max_bytes column.nullable v
              (laid_out front bits tail) fits e
            ∙ ap ok (tail_grows front bits tail (value_bytes v)) in
          rw e (
            encode_value-checked column v i (laid_out front bits tail) e ∙ appended _ _ grown small)
    ]
  where
    nothing :
        (v : Value)
        → is_null_value v ≡ true
        → encode_value column v i (laid_out front bits tail)
          ≡ ok (laid_out front (mark v i bits) (tail ++ value_bytes v))
    nothing null e = encode_value-null column i front bits tail long room
    nothing (uint32_value n) e = cc
    nothing (int64_value n) e = cc
    nothing (bool_value n) e = cc
    nothing (string_value n) e = cc

pub encode_loop-ok :
    (columns : List ColumnDefinition) (vs : List Value) (i : ℕ) (front bits tail : List ℕ)
    → RowFits columns vs
    → length front ≡ header_size
    → Room vs i bits
    → length (laid_out front bits (tail ++ row_bytes vs)) ≤ max_tuple_size
    → encode_loop columns vs i (laid_out front bits tail)
      ≡ ok (laid_out front (null_bits vs i bits) (tail ++ row_bytes vs))
unfolding encode_loop null_bits row_bytes
encode_loop-ok columns [] i front bits tail fits long room small =
    ap (λ (t : List ℕ). ok (laid_out front bits t)) (sym (append-nil tail))
encode_loop-ok [] (v ∷ vs) i front bits tail fits long room small = absurd fits
encode_loop-ok (c ∷ cs) (v ∷ vs) i front bits tail (here, rest) long room small =
    ap (λ (r : Result Error (List ℕ)). r >>= λ e. encode_loop cs vs (i + 1) e)
      (encode_value-ok c v i front bits tail here long (Room-here v vs i bits room)
        (omega (arith, small, l1, l2, total, length-append tail (value_bytes v))))
    ∙ encode_loop-ok cs vs (i + 1) front (mark v i bits) (tail ++ value_bytes v) rest long
        (Room-rest v vs i bits room)
        (omega (
          arith,
          small,
          l1,
          l3,
          total,
          length-mark v i bits,
          length-append tail (value_bytes v),
          length-append (tail ++ value_bytes v) (row_bytes vs),
        ))
    ∙ ap (λ (t : List ℕ). ok (laid_out front (null_bits vs (i + 1) (mark v i bits)) t))
        (append_assoc tail (value_bytes v) (row_bytes vs))
  where
    l1 :
        length (laid_out front bits (tail ++ (value_bytes v ++ row_bytes vs)))
        ≡ length front + length bits + length (tail ++ (value_bytes v ++ row_bytes vs))
    l1 = length-laid_out front bits (tail ++ (value_bytes v ++ row_bytes vs))

    l2 :
        length (laid_out front bits (tail ++ value_bytes v))
        ≡ length front + length bits + length (tail ++ value_bytes v)
    l2 = length-laid_out front bits (tail ++ value_bytes v)

    l3 :
        length (laid_out front (mark v i bits) ((tail ++ value_bytes v) ++ row_bytes vs))
        ≡ length front + length (mark v i bits) + length ((tail ++ value_bytes v) ++ row_bytes vs)
    l3 = length-laid_out front (mark v i bits) ((tail ++ value_bytes v) ++ row_bytes vs)

    total :
        length (tail ++ (value_bytes v ++ row_bytes vs))
        ≡ length tail + (length (value_bytes v) + length (row_bytes vs))
    total = omega (
      arith,
      length-append tail (value_bytes v ++ row_bytes vs),
      length-append (value_bytes v) (row_bytes vs),
    )
