-- ===== src/Tuple/Checks.antt =====
-- tuple_codec.cpp: the checks of `decode` pass on the bytes that `encode` returns.
use minidb_cpp.Prelude.{
  ℕ, zero, suc, ◌+◌, ◌-◌, ◌*◌, ◌%◌, ◌^◌, ◌<◌, ◌≤◌, ◌≡◌, refl, sym, ap, ◌∙◌, true, false, List, [],
  ◌∷◌, ◌++◌, ok, ltb, ◌==◌, ==_iff, false≢true, length, arith, length-append, get_or,
  get_or-append_left, get_or-append_right, All, All-append, Bool-cases, inl, inr,
}
use minidb_cpp.Prelude.Masks.{bit_and-high}
use minidb_cpp.Bytes.{IsByte, read_uint16, read_uint32}
use minidb_cpp.Bytes.Segments.{little_endian, digits_from, digits_from-IsByte, read_uint-within}
use minidb_cpp.Schema.{Value, null, uint32_value, int64_value, bool_value, string_value}
use minidb_cpp.Prelude.Int.{to_bits}
use minidb_cpp.Tuple.{
  magic, max_tuple_size, header_size, null_bitmap_size, is_null, check_header, check_unused_bits,
}
use minidb_cpp.Tuple.Bitmap.{Marks, is_null-marks, LastFits}
use minidb_cpp.Tuple.Pieces.{value_bytes, row_bytes, laid_out}
use minidb_cpp.Tuple.Encoded.{header, header_front, length-header}
use minidb_cpp.Tuple.Decoded.{Holds, NullsAt}

value_bytes-IsByte : (v : Value) → Holds v → All IsByte (value_bytes v)
unfolding value_bytes
value_bytes-IsByte null h = tt
value_bytes-IsByte (uint32_value n) h = digits_from-IsByte 4 0 n
value_bytes-IsByte (int64_value z) h = digits_from-IsByte 8 0 (to_bits z)
value_bytes-IsByte (bool_value true) h = (omega arith, tt)
value_bytes-IsByte (bool_value false) h = (omega arith, tt)
value_bytes-IsByte (string_value s) h =
    All-append IsByte (little_endian 4 (length s % 2 ^ 32)) s (digits_from-IsByte 4 0 _) h

pub row_bytes-IsByte : (vs : List Value) → All Holds vs → All IsByte (row_bytes vs)
unfolding row_bytes
row_bytes-IsByte [] h = tt
row_bytes-IsByte (v ∷ vs) h =
    All-append IsByte (value_bytes v) (row_bytes vs) (value_bytes-IsByte v h.0)
      (row_bytes-IsByte vs h.1)

magic-IsByte : All IsByte magic
magic-IsByte = (
  omega arith,
  (
    omega arith,
    (omega arith, (omega arith, (omega arith, (omega arith, (omega arith, (omega arith, tt)))))),
  ),
)

pub header-IsByte : (count bitmap_size size : ℕ) → All IsByte (header count bitmap_size size)
header-IsByte count bitmap_size size =
    All-append IsByte (header_front count bitmap_size) (little_endian 4 size)
      (All-append IsByte magic _ magic-IsByte (
        All-append IsByte (little_endian 4 1) _ (digits_from-IsByte 4 0 1) (
          All-append IsByte (little_endian 4 24) _ (digits_from-IsByte 4 0 24) (
            All-append IsByte (little_endian 2 count) _ (digits_from-IsByte 2 0 count)
              (digits_from-IsByte 2 0 bitmap_size)))))
      (digits_from-IsByte 4 0 size)

-- The fields of the header are read as they stand in it.
pub check_header-ok :
    (count : ℕ) (rest : List ℕ) (size : ℕ)
    → count < 2 ^ 16
    → null_bitmap_size count < 2 ^ 16
    → size ≤ max_tuple_size
    → length (header count (null_bitmap_size count) size ++ rest) ≡ size
    → All IsByte (header count (null_bitmap_size count) size ++ rest)
    → check_header count (header count (null_bitmap_size count) size ++ rest)
      ≡ ok (null_bitmap_size count)
unfolding check_header digits_from
check_header-ok count rest size small_count small_bitmap small long h =
    rw (long, low, high, r1, r2, r3, r4, r5, same count, same b, same size) refl
  where
    b : ℕ
    b = null_bitmap_size count

    whole : List ℕ
    whole = header count b size ++ rest

    r1 : read_uint32 whole 8 ≡ ok 1
    r1 =
        read_uint-within 4 magic
          (little_endian 4 24
            ++ (little_endian 2 count ++ (little_endian 2 b ++ (little_endian 4 size ++ rest))))
          1 h (omega arith)

    r2 : read_uint16 whole 18 ≡ ok b
    r2 =
        read_uint-within 2
          (magic ++ (little_endian 4 1 ++ (little_endian 4 24 ++ little_endian 2 count)))
          (little_endian 4 size ++ rest) b h small_bitmap

    r3 : read_uint32 whole 12 ≡ ok 24
    r3 =
        read_uint-within 4 (magic ++ little_endian 4 1)
          (little_endian 2 count ++ (little_endian 2 b ++ (little_endian 4 size ++ rest))) 24 h
          (omega arith)

    r4 : read_uint16 whole 16 ≡ ok count
    r4 =
        read_uint-within 2 (magic ++ (little_endian 4 1 ++ little_endian 4 24))
          (little_endian 2 b ++ (little_endian 4 size ++ rest)) count h small_count

    r5 : read_uint32 whole 20 ≡ ok size
    r5 = read_uint-within 4 (header_front count b) rest size h (omega (arith, small))

    low : ltb size header_size ≡ false
    low = ground (arith, long, length-append (header count b size) rest, length-header count b size)

    high : ltb max_tuple_size size ≡ false
    high = ground (arith, small)

    same : (n : ℕ) → n == n ≡ true
    same n = (==_iff n n).1 refl

-- The mask of `decode` has the bits of its byte from `v` on.
mask-shape : (v : ℕ) → v < 9 → (c : ℕ) × (255 * 2 ^ v % 256 ≡ c * 2 ^ v)
mask-shape zero h = (255, refl)
mask-shape (suc zero) h = (127, refl)
mask-shape (suc (suc zero)) h = (63, refl)
mask-shape (suc (suc (suc zero))) h = (31, refl)
mask-shape (suc (suc (suc (suc zero)))) h = (15, refl)
mask-shape (suc (suc (suc (suc (suc zero))))) h = (7, refl)
mask-shape (suc (suc (suc (suc (suc (suc zero)))))) h = (3, refl)
mask-shape (suc (suc (suc (suc (suc (suc (suc zero))))))) h = (1, refl)
mask-shape (suc (suc (suc (suc (suc (suc (suc (suc v)))))))) h =
    let e : v ≡ 0 = omega (arith, h) in rw e (0, refl)

-- The bits behind the columns are not set.
pub check_unused_bits-ok :
    (count : ℕ) (front bits tail : List ℕ)
    → length front ≡ 24
    → length bits ≡ null_bitmap_size count
    → LastFits (null_bitmap_size count) count bits
    → check_unused_bits count (null_bitmap_size count) (laid_out front bits tail) ≡ ok tt
unfolding check_unused_bits
check_unused_bits-ok count front bits tail long size fits = elim (Bool-cases (unused == 0)) [
  | inl none ↦ rw none refl
  | inr some ↦
      let there : get_or (laid_out front bits tail) (header_size + b - 1) 0
          ≡ get_or bits (b - 1) 0 =
        last_byte (λ e. false≢true (sym some ∙ (==_iff unused 0).1 (omega (arith, e)))) in
      let (c, shape) = mask-shape (8 - unused) (omega arith) in
      rw (there, shape, bit_and-high (8 - unused) (get_or bits (b - 1) 0) c fits, some) refl
]
  where
    b : ℕ
    b = null_bitmap_size count

    unused : ℕ
    unused = b * 8 - count

    last_byte :
        (b ≡ 0 → ⊥)
        → get_or (laid_out front bits tail) (header_size + b - 1) 0 ≡ get_or bits (b - 1) 0
    last_byte d =
        ap (λ (k : ℕ). get_or (laid_out front bits tail) k 0) position
        ∙ get_or-append_right front (bits ++ tail) (b - 1) 0
        ∙ get_or-append_left bits tail (b - 1) 0 (omega (arith, size, positive d))
      where
        positive : (b ≡ 0 → ⊥) → 1 ≤ b
        positive d = ground (arith, d)

        position : header_size + b - 1 ≡ length front + (b - 1)
        position = omega (arith, long, positive d)

pub NullsAt-Marks :
    (front bits tail : List ℕ) (i : ℕ) (vs : List Value)
    → length front ≡ 24
    → i + length vs ≤ 8 * length bits
    → Marks bits i vs
    → NullsAt (laid_out front bits tail) i vs
NullsAt-Marks front bits tail i [] long room m = tt
NullsAt-Marks front bits tail i (v ∷ vs) long room m = (
  ap (λ (k : ℕ). is_null (laid_out front bits tail) k i) (sym long)
      ∙ is_null-marks front bits tail i (omega (arith, room))
      ∙ m.0,
  NullsAt-Marks front bits tail (i + 1) vs long (omega (arith, room)) m.1,
)
