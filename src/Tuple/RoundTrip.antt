-- ===== src/Tuple/RoundTrip.antt =====
-- tuple_codec.cpp: a row is decoded as it was encoded.
use minidb_cpp.Prelude.{
  calls, calls-returned, ℕ, ◌+◌, ◌-◌, ◌*◌, ◌%◌, ◌^◌, ◌<◌, ◌≤◌, ◌≡◌, refl, sym, ap, ◌∙◌, subst, true,
  not, ◌||◌, List, ◌++◌, ok, throw_if-ok, bind-ok, ok-injective, ltb, ◌==◌, ==_iff, length, arith,
  length-append, take, All, All-append,
}
use minidb_cpp.Prelude.Masks.{pow-pos}
use minidb_cpp.Prelude.Texts.{text_eq}
use minidb_cpp.Bytes.{IsByte, require_range}
use minidb_cpp.Bytes.Segments.{zeros, length-zeros, require_range-ok}
use minidb_cpp.Schema.{ColumnDefinition, Value, max_schema_columns, validate_values}
use minidb_cpp.Schema.Values.{RowFits, RowFits-length, validate_values-RowFits}
use minidb_cpp.Tuple.{
  codec, invalid_decoded, magic, max_tuple_size, header_size, null_bitmap_size, encode, decode,
  check_header, check_unused_bits, decode_loop,
}
use minidb_cpp.Tuple.Bitmap.{
  null_bits, length-null_bits, null_bits-Marks, marks-zeros, Marks, null_bits-IsByte,
  null_bits-LastFits, LastFits, null_bitmap_size-room, zeros-IsByte, get_or-zeros,
}
use minidb_cpp.Tuple.Pieces.{row_bytes, laid_out}
use minidb_cpp.Tuple.Encoded.{
  header, length-header, encoded, encoded_size, length-encoded, encode-ok,
}
use minidb_cpp.Tuple.Decoded.{Holds, NullsAt, decode_loop-ok}
use native.Mathlib.Nat.{mod-eq_of_lt}
use mathlib.Core.List.{append_assoc}
use minidb_cpp.Tuple.Checks.{
  row_bytes-IsByte, header-IsByte, check_header-ok, check_unused_bits-ok, NullsAt-Marks,
}

-- `decode` on the bytes of a row.
decode-laid_out :
    (schema : List ColumnDefinition) (vs : List Value) (bits : List ℕ) (size : ℕ)
    → length schema ≤ max_schema_columns
    → RowFits schema vs
    → All Holds vs
    → size ≤ max_tuple_size
    → length bits ≡ null_bitmap_size (length schema)
    → All IsByte bits
    → Marks bits 0 vs
    → LastFits (null_bitmap_size (length schema)) (length schema) bits
    → length (
        laid_out
          (header (length schema) (null_bitmap_size (length schema)) size)
          bits
          (row_bytes vs))
      ≡ size
    → decode schema (
        laid_out
          (header (length schema) (null_bitmap_size (length schema)) size)
          bits
          (row_bytes vs))
      ≡ ok vs
unfolding decode
decode-laid_out schema vs bits size few fits holds small wide bytes marked last long =
    rw (checked, in_range, unused, looped, same, (validate_values-RowFits schema vs).1 fits) refl
  where
    count : ℕ
    count = length schema

    b : ℕ
    b = null_bitmap_size count

    front : List ℕ
    front = header count b size

    whole : List ℕ
    whole = laid_out front bits (row_bytes vs)

    all_bytes : All IsByte whole
    all_bytes =
        All-append IsByte front (bits ++ row_bytes vs) (header-IsByte count b size)
          (All-append IsByte bits (row_bytes vs) bytes (row_bytes-IsByte vs holds))

    few_bits : b < 2 ^ 16
    few_bits = omega (arith, few, (null_bitmap_size-room count).1)

    checked : check_header count whole ≡ ok b
    checked =
        check_header-ok count (bits ++ row_bytes vs) size (omega (arith, few)) few_bits small long
          all_bytes

    l1 : length whole ≡ length front + (length bits + length (row_bytes vs))
    l1 =
        omega (arith, length-append front (bits ++ row_bytes vs), length-append bits (row_bytes vs))

    in_range : require_range whole header_size b ≡ ok tt
    in_range =
        require_range-ok whole header_size b (omega (arith, l1, length-header count b size, wide))

    unused : check_unused_bits count b whole ≡ ok tt
    unused =
        check_unused_bits-ok count front bits (row_bytes vs) (length-header count b size) wide last

    cursor : length (front ++ bits) ≡ header_size + b
    cursor = omega (arith, length-append front bits, length-header count b size, wide)

    nulls : NullsAt whole 0 vs
    nulls =
        NullsAt-Marks front bits (row_bytes vs) 0 vs (length-header count b size)
          (omega (arith, wide, RowFits-length schema vs fits, (null_bitmap_size-room count).0))
          marked

    looped : decode_loop schema 0 whole (header_size + b) ≡ ok (vs, length whole)
    looped =
        ap (decode_loop schema 0 whole) (sym cursor)
        ∙ decode_loop-ok schema vs 0 (front ++ bits) whole fits holds nulls
            (omega (arith, long, small)) all_bytes (sym (append_assoc front bits (row_bytes vs)))

    same : length whole == length whole ≡ true
    same = (==_iff (length whole) (length whole)).1 refl

-- A row that fits a schema of at most 1024 columns, whose values hold what their C++ types hold, and whose
-- encoding has at most 4040 bytes, is encoded without an exception, and decoded from these bytes as it
-- was.
pub decode-encode :
    (schema : List ColumnDefinition) (vs : List Value)
    → length schema ≤ max_schema_columns
    → RowFits schema vs
    → All Holds vs
    → encoded_size (length schema) vs ≤ max_tuple_size
    → (bytes : List ℕ) × (encode schema vs ≡ ok bytes) × (decode schema bytes ≡ ok vs)
decode-encode schema vs few fits holds small =
    (encoded count vs, encode-ok schema vs fits small, ap (decode schema) same ∙ decoded)
  where
    count : ℕ
    count = length schema

    b : ℕ
    b = null_bitmap_size count

    bits : List ℕ
    bits = null_bits vs 0 (zeros b)

    kept_count : count % 2 ^ 16 ≡ count
    kept_count = mod-eq_of_lt (omega (arith, few))

    kept_size : b % 2 ^ 16 ≡ b
    kept_size = mod-eq_of_lt (omega (arith, few, (null_bitmap_size-room count).1))

    same : encoded count vs ≡ laid_out (header count b (encoded_size count vs)) bits (row_bytes vs)
    same =
        ap (λ (c : ℕ). laid_out (header c (b % 2 ^ 16) (encoded_size count vs)) bits (row_bytes vs))
          kept_count
        ∙ ap (λ (c : ℕ). laid_out (header count c (encoded_size count vs)) bits (row_bytes vs))
            kept_size

    as_many : length vs ≡ count
    as_many = RowFits-length schema vs fits

    blank : LastFits b count (zeros b)
    blank = omega (arith, get_or-zeros b (b - 1), pow-pos (8 - (b * 8 - count)))

    decoded :
        decode schema (laid_out (header count b (encoded_size count vs)) bits (row_bytes vs))
        ≡ ok vs
    decoded =
        decode-laid_out schema vs bits (encoded_size count vs) few fits holds small
          (length-null_bits vs 0 (zeros b) ∙ length-zeros b)
          (null_bits-IsByte vs 0 (zeros b) (zeros-IsByte b))
          (null_bits-Marks vs 0 (zeros b)
            (omega (arith, as_many, length-zeros b, (null_bitmap_size-room count).0))
            (λ j le. marks-zeros b j))
          (null_bits-LastFits b count vs 0 (zeros b) (length-zeros b)
            (null_bitmap_size-room count).1 (omega (arith, as_many)) (null_bitmap_size-room count).0
            blank)
          (ap (λ (l : List ℕ). length l) (sym same) ∙ length-encoded count vs)

check_header-bounds :
    (count : ℕ) (bytes : List ℕ) (bitmap_size : ℕ)
    → check_header count bytes ≡ ok bitmap_size
    → header_size ≤ length bytes × length bytes ≤ max_tuple_size
unfolding check_header
check_header-bounds count bytes bitmap_size h =
    let (fine, _) =
      throw_if-ok
        (ltb (length bytes) header_size
          || ltb max_tuple_size (length bytes)
          || not (text_eq (take 8 bytes) magic))
        _ _ bitmap_size h in
    (ground (arith, fine), ground (arith, fine))

-- What `decode` accepts is a tuple of 24 to 4040 bytes, and the row that it returns fits the schema.
pub decode-RowFits :
    (schema : List ColumnDefinition) (bytes : List ℕ) (vs : List Value)
    → decode schema bytes ≡ ok vs
    → RowFits schema vs × header_size ≤ length bytes × length bytes ≤ max_tuple_size
unfolding decode
decode-RowFits schema bytes vs h =
    let (b, checked, h1) = bind-ok (check_header (length schema) bytes) _ vs h in
    let (_, _, h2) = bind-ok (calls codec (require_range bytes header_size b)) _ vs h1 in
    let (_, _, h3) = bind-ok (check_unused_bits (length schema) b bytes) _ vs h2 in
    let ((read, cursor), _, h4) = bind-ok (decode_loop schema 0 bytes (header_size + b)) _ vs h3 in
    let (_, h5) = throw_if-ok _ _ _ vs h4 in
    let (_, valid, h6) = bind-ok (calls invalid_decoded (validate_values schema read)) _ vs h5 in
    let (low, high) = check_header-bounds (length schema) bytes b checked in
    (
      subst (RowFits schema) (ok-injective read vs h6) (
          (validate_values-RowFits schema read).0
            (calls-returned invalid_decoded (validate_values schema read) tt valid)),
      low,
      high,
    )
