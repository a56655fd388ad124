-- ===== src/Bytes/Append.antt =====
-- byte_codec.hpp: an appended integer is read back, and what stood before it is unchanged.
use minidb_cpp.Prelude.{
  ℕ, zero, suc, ◌+◌, ◌*◌, ◌^◌, ◌≤◌, ◌<◌, ◌≡◌, refl, ◌∙◌, List, [], ◌∷◌, ◌++◌, ok, arith, length,
  get_or, All, length-append, length-replicate, replicate,
}
use minidb_cpp.Bytes.{IsByte, write_loop, read_uint, append_uint}
use minidb_cpp.Bytes.Decode.{decode_at, read_uint-decode}
use minidb_cpp.Bytes.Frame.{
  write_uint-ok, length-write_loop, write_loop-IsByte, decode_at-write_loop_apart,
}
use minidb_cpp.Bytes.RoundTrip.{read_uint-write_uint}

replicate-IsByte : (n : ℕ) → All IsByte (replicate n 0)
replicate-IsByte zero = tt
replicate-IsByte (suc n) = (omega arith, replicate-IsByte n)

append-IsByte : (xs ys : List ℕ) → All IsByte xs → All IsByte ys → All IsByte (xs ++ ys)
append-IsByte [] ys hx hy = hy
append-IsByte (x ∷ xs) ys hx hy = (hx.0, append-IsByte xs ys hx.1 hy)

get_or-append : (xs ys : List ℕ) (i : ℕ) → i < length xs → get_or (xs ++ ys) i 0 ≡ get_or xs i 0
get_or-append [] ys i h = elim h [ ]
get_or-append (x ∷ xs) ys zero h = refl
get_or-append (x ∷ xs) ys (suc i) h = get_or-append xs ys i (omega arith)

decode_at-append :
    (m : ℕ) (xs ys : List ℕ) (o : ℕ)
    → o + m ≤ length xs
    → decode_at m (xs ++ ys) o ≡ decode_at m xs o
unfolding decode_at
decode_at-append zero xs ys o h = refl
decode_at-append (suc m) xs ys o h =
    omega
      (arith, get_or-append xs ys o (omega arith), decode_at-append m xs ys (o + 1) (omega arith))

module _ (width : ℕ) (bytes : List ℕ) (value : ℕ) (hb : All IsByte bytes) where
  grown : List ℕ
  grown = bytes ++ replicate width 0

  grown-IsByte : All IsByte grown
  unfolding grown
  grown-IsByte = append-IsByte bytes _ hb (replicate-IsByte width)

  length-grown : length grown ≡ length bytes + width
  unfolding grown
  length-grown =
      omega (
        arith,
        length-append bytes (replicate width 0),
        length-replicate width (let z : ℕ = 0 in z),
      )

  appended : List ℕ
  appended = write_loop width 0 grown (length bytes) value

  append_uint-ok : append_uint width bytes value ≡ ok appended
  unfolding append_uint appended grown
  append_uint-ok = write_uint-ok width grown (length bytes) value (omega (arith, length-grown))

  length-appended : length appended ≡ length bytes + width
  unfolding appended
  length-appended = length-write_loop width 0 grown (length bytes) value ∙ length-grown

  appended-IsByte : All IsByte appended
  unfolding appended
  appended-IsByte = write_loop-IsByte width 0 grown (length bytes) value grown-IsByte

  read_new : value < 2 ^ (width * 8) → read_uint width appended (length bytes) ≡ ok value
  unfolding appended
  read_new small =
      rw (write_uint-ok width grown (length bytes) value (omega (arith, length-grown))) at (
        read_uint-write_uint width grown (length bytes) value grown-IsByte
          (omega (arith, length-grown)) small)

  read_old : (m o : ℕ) → o + m ≤ length bytes → read_uint m appended o ≡ read_uint m bytes o
  unfolding appended grown
  read_old m o h = ground (
    arith,
    read_uint-decode m appended o appended-IsByte,
    read_uint-decode m bytes o hb,
    length-appended,
    decode_at-append m bytes (replicate width 0) o h,
    decode_at-write_loop_apart m o width 0 grown (length bytes) value (omega arith),
  )

-- The vector grows by `width` bytes, the value is read at its old end, and every integer that lay in
-- the old vector is read as before.
pub append_uint-read :
    (width : ℕ) (bytes : List ℕ) (value m o : ℕ)
    → All IsByte bytes
    → value < 2 ^ (width * 8)
    → o + m ≤ length bytes
    → (out : List ℕ) × (append_uint width bytes value ≡ ok out)
      × (length out ≡ length bytes + width)
      × (read_uint width out (length bytes) ≡ ok value)
      × (read_uint m out o ≡ read_uint m bytes o)
append_uint-read width bytes value m o hb small inside = (
  appended width bytes value hb,
  append_uint-ok width bytes value hb,
  length-appended width bytes value hb,
  read_new width bytes value hb small,
  read_old width bytes value hb m o inside,
)
