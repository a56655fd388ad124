-- ===== src/Tuple/Encoded.antt =====
-- tuple_codec.cpp: the bytes that `encode` returns.
use minidb_cpp.Prelude.{
  calls, ℕ, ◌+◌, ◌-◌, ◌%◌, ◌^◌, ◌≤◌, ◌≡◌, refl, sym, ap, ◌∙◌, false, List, [], ◌++◌, Result, ok,
  ◌>>=◌, ltb, length, arith,
}
use minidb_cpp.Bytes.{write_uint32, write_uint16}
use minidb_cpp.Bytes as Bytes
use minidb_cpp.Bytes.Segments.{
  zeros, length-zeros, zeros-add, little_endian, digits_from, write_uint-segment,
}
use minidb_cpp.Schema.{ColumnDefinition, Value}
use minidb_cpp.Schema.Values.{RowFits, RowFits-length, validate_values-RowFits}
use minidb_cpp.Tuple.{
  codec, magic, max_tuple_size, header_size, current_version, null_bitmap_size, start_tuple, encode,
  encode_loop,
}
use minidb_cpp.Tuple.Bitmap.{null_bitmap_size-room, null_bits, length-null_bits}
use minidb_cpp.Tuple.Pieces.{row_bytes, laid_out, length-laid_out, encode_loop-ok}
use mathlib.Core.List.{append-nil}

-- The header up to the encoded size, and with it.
abbrev pub header_front : ℕ → ℕ → List ℕ
header_front count bitmap_size =
    magic
    ++ (little_endian 4 1
        ++ (little_endian 4 24 ++ (little_endian 2 count ++ little_endian 2 bitmap_size)))

abbrev pub header : ℕ → ℕ → ℕ → List ℕ
header count bitmap_size size = header_front count bitmap_size ++ little_endian 4 size

pub length-header : (count bitmap_size size : ℕ) → length (header count bitmap_size size) ≡ 24
unfolding digits_from
length-header count bitmap_size size = refl

unfoldable start_from : (z : List ℕ) (count bitmap_size : ℕ) → Result Bytes.Error (List ℕ)
start_from z count bitmap_size = do
  with_version ← write_uint32 (magic ++ (zeros 16 ++ z)) 8 current_version
  with_header_size ← write_uint32 with_version 12 header_size
  with_count ← write_uint16 with_header_size 16 count
  write_uint16 with_count 18 bitmap_size

start_from-ok :
    (z : List ℕ) (count bitmap_size : ℕ)
    → start_from z count bitmap_size ≡ ok (header count bitmap_size 0 ++ z)
unfolding digits_from start_from
start_from-ok z count bitmap_size = rw (e1, e2, e3, e4) refl
  where
    e1 :
        write_uint32 (magic ++ (zeros 16 ++ z)) 8 current_version
        ≡ ok (magic ++ (little_endian 4 1 ++ (zeros 12 ++ z)))
    e1 = write_uint-segment 4 magic (zeros 4) (zeros 12 ++ z) 1 refl

    e2 :
        write_uint32 (magic ++ (little_endian 4 1 ++ (zeros 12 ++ z))) 12 header_size
        ≡ ok (magic ++ (little_endian 4 1 ++ (little_endian 4 24 ++ (zeros 8 ++ z))))
    e2 = write_uint-segment 4 (magic ++ little_endian 4 1) (zeros 4) (zeros 8 ++ z) 24 refl

    e3 :
        write_uint16
          (magic ++ (little_endian 4 1 ++ (little_endian 4 24 ++ (zeros 8 ++ z))))
          16
          count
        ≡ ok (
            magic
            ++ (little_endian 4 1
                ++ (little_endian 4 24 ++ (little_endian 2 count ++ (zeros 6 ++ z)))))
    e3 =
        write_uint-segment 2 (magic ++ (little_endian 4 1 ++ little_endian 4 24)) (zeros 2)
          (zeros 6 ++ z) count refl

    e4 :
        write_uint16
          (magic
            ++ (little_endian 4 1
                ++ (little_endian 4 24 ++ (little_endian 2 count ++ (zeros 6 ++ z)))))
          18
          bitmap_size
        ≡ ok (header count bitmap_size 0 ++ z)
    e4 =
        write_uint-segment 2
          (magic ++ (little_endian 4 1 ++ (little_endian 4 24 ++ little_endian 2 count))) (zeros 2)
          (zeros 4 ++ z) bitmap_size refl

start_tuple-ok :
    (count : ℕ)
    → start_tuple count
      ≡ ok (
          laid_out
            (header (count % 2 ^ 16) (null_bitmap_size count % 2 ^ 16) 0)
            (zeros (null_bitmap_size count))
            [])
unfolding start_tuple start_from
start_tuple-ok count =
    rw (zeros-add 24 (null_bitmap_size count)) (
      start_from-ok (zeros (null_bitmap_size count)) (count % 2 ^ 16)
        (null_bitmap_size count % 2 ^ 16))
    ∙ ap (λ (z : List ℕ). ok (header (count % 2 ^ 16) (null_bitmap_size count % 2 ^ 16) 0 ++ z))
        (sym (append-nil (zeros (null_bitmap_size count))))

finish_size :
    (count bitmap_size : ℕ) (rest : List ℕ) (size : ℕ)
    → write_uint32 (header count bitmap_size 0 ++ rest) 20 size
      ≡ ok (header count bitmap_size size ++ rest)
unfolding digits_from
finish_size count bitmap_size rest size =
    write_uint-segment 4 (header_front count bitmap_size) (zeros 4) rest size refl

-- The encoding of a row, and its size.
abbrev pub encoded_size : ℕ → List Value → ℕ
encoded_size count vs = 24 + null_bitmap_size count + length (row_bytes vs)

abbrev pub encoded : ℕ → List Value → List ℕ
encoded count vs =
    laid_out (header (count % 2 ^ 16) (null_bitmap_size count % 2 ^ 16) (encoded_size count vs))
      (null_bits vs 0 (zeros (null_bitmap_size count))) (row_bytes vs)

pub length-encoded :
    (count : ℕ) (vs : List Value) → length (encoded count vs) ≡ encoded_size count vs
length-encoded count vs = omega (
  arith,
  length-laid_out
      (header (count % 2 ^ 16) (null_bitmap_size count % 2 ^ 16) (encoded_size count vs))
      (null_bits vs 0 (zeros (null_bitmap_size count))) (row_bytes vs),
  length-header (count % 2 ^ 16) (null_bitmap_size count % 2 ^ 16) (encoded_size count vs),
  length-null_bits vs 0 (zeros (null_bitmap_size count)),
  length-zeros (null_bitmap_size count),
)

-- A row that fits the schema and the size of a tuple is encoded, to these bytes.
pub encode-ok :
    (schema : List ColumnDefinition) (vs : List Value)
    → RowFits schema vs
    → encoded_size (length schema) vs ≤ max_tuple_size
    → encode schema vs ≡ ok (encoded (length schema) vs)
unfolding encode
encode-ok schema vs fits small =
    rw
      (
        (validate_values-RowFits schema vs).1 fits,
        start_tuple-ok (length schema),
        looped,
        not_large,
        sized,
      )
      (ap (calls codec) (
        finish_size (count % 2 ^ 16) (null_bitmap_size count % 2 ^ 16) (bits ++ row_bytes vs)
          (encoded_size count vs)))
  where
    count : ℕ
    count = length schema

    started : List ℕ
    started = header (count % 2 ^ 16) (null_bitmap_size count % 2 ^ 16) 0

    bits : List ℕ
    bits = null_bits vs 0 (zeros (null_bitmap_size count))

    sized : length (laid_out started bits (row_bytes vs)) ≡ encoded_size count vs
    sized = omega (
      arith,
      length-laid_out started bits (row_bytes vs),
      length-header (count % 2 ^ 16) (null_bitmap_size count % 2 ^ 16) 0,
      length-null_bits vs 0 (zeros (null_bitmap_size count)),
      length-zeros (null_bitmap_size count),
    )

    looped :
        encode_loop schema vs 0 (laid_out started (zeros (null_bitmap_size count)) [])
        ≡ ok (laid_out started bits (row_bytes vs))
    looped =
        encode_loop-ok schema vs 0 started (zeros (null_bitmap_size count)) [] fits
          (length-header (count % 2 ^ 16) (null_bitmap_size count % 2 ^ 16) 0)
          (omega (
            arith,
            RowFits-length schema vs fits,
            length-zeros (null_bitmap_size count),
            (null_bitmap_size-room count).0,
          ))
          (omega (
            arith,
            small,
            length-laid_out started (zeros (null_bitmap_size count)) (row_bytes vs),
            length-header (count % 2 ^ 16) (null_bitmap_size count % 2 ^ 16) 0,
            length-zeros (null_bitmap_size count),
          ))

    not_large : ltb (2 ^ 32 - 1) (length (laid_out started bits (row_bytes vs))) ≡ false
    not_large = ground (arith, sized, small)
