-- ===== src/Bytes/Frame.antt =====
-- byte_codec.hpp: what the writing loops leave alone.
use minidb_cpp.Prelude.{
  ℕ, zero, suc, ◌+◌, ◌*◌, ◌/◌, ◌%◌, ◌^◌, ◌≤◌, ◌<◌, ◌≡◌, refl, ◌∙◌, ◌⊎◌, List, [], ◌∷◌, ok, ◌>>=◌,
  arith, length, get_or, set, All, length-set, get_or-set_ne,
}
use minidb_cpp.Bytes.{IsByte, write_loop, write_uint, require_range, read_uint}
use minidb_cpp.Bytes.Decode.{decode_at, read_uint-decode}

pub length-write_loop :
    (n i : ℕ) (bytes : List ℕ) (offset value : ℕ)
    → length (write_loop n i bytes offset value) ≡ length bytes
unfolding write_loop
length-write_loop zero i bytes offset value = refl
length-write_loop (suc n) i bytes offset value =
    let byte = value / 2 ^ (i * 8) % 256 in
    length-write_loop n (i + 1) (set bytes (offset + i) byte) offset value
    ∙ length-set bytes (offset + i) byte

set-IsByte : (bytes : List ℕ) (i v : ℕ) → IsByte v → All IsByte bytes → All IsByte (set bytes i v)
set-IsByte [] i v hv h = tt
set-IsByte (b ∷ bs) zero v hv h = (hv, h.1)
set-IsByte (b ∷ bs) (suc i) v hv h = (h.0, set-IsByte bs i v hv h.1)

pub write_loop-IsByte :
    (n i : ℕ) (bytes : List ℕ) (offset value : ℕ)
    → All IsByte bytes
    → All IsByte (write_loop n i bytes offset value)
unfolding write_loop
write_loop-IsByte zero i bytes offset value h = h
write_loop-IsByte (suc n) i bytes offset value h =
    write_loop-IsByte n (i + 1) _ offset value
      (set-IsByte bytes (offset + i) (value / 2 ^ (i * 8) % 256) (omega arith) h)

-- The index `j` is none of those that the loop writes.
abbrev pub Apart : ℕ → ℕ → ℕ → Type 0
Apart j from to = (j < from) ⊎ (to ≤ j)

pub get_or-write_loop :
    (n i : ℕ) (bytes : List ℕ) (offset value j : ℕ)
    → Apart j (offset + i) (offset + i + n)
    → get_or (write_loop n i bytes offset value) j 0 ≡ get_or bytes j 0
unfolding write_loop
get_or-write_loop zero i bytes offset value j h = refl
get_or-write_loop (suc n) i bytes offset value j h =
    get_or-write_loop n (i + 1) (set bytes (offset + i) byte) offset value j (omega arith)
    ∙ get_or-set_ne bytes (offset + i) j byte 0 (omega arith)
  where
    byte : ℕ
    byte = value / 2 ^ (i * 8) % 256

pub decode_at-write_loop_apart :
    (m o n i : ℕ) (bytes : List ℕ) (offset value : ℕ)
    → (o + m ≤ offset + i) ⊎ (offset + i + n ≤ o)
    → decode_at m (write_loop n i bytes offset value) o ≡ decode_at m bytes o
unfolding decode_at
decode_at-write_loop_apart zero o n i bytes offset value h = refl
decode_at-write_loop_apart (suc m) o n i bytes offset value h = omega (
  arith,
  get_or-write_loop n i bytes offset value o (omega arith),
  decode_at-write_loop_apart m (o + 1) n i bytes offset value (omega arith),
)

pub write_uint-ok :
    (width : ℕ) (bytes : List ℕ) (offset value : ℕ)
    → offset + width ≤ length bytes
    → write_uint width bytes offset value ≡ ok (write_loop width 0 bytes offset value)
unfolding write_uint require_range
write_uint-ok width bytes offset value h = ground arith

-- A write that fits changes no integer, of any width, that stands wholly before or behind it.
pub read_uint-write_uint_apart :
    (m o width : ℕ) (bytes : List ℕ) (offset value : ℕ)
    → All IsByte bytes
    → offset + width ≤ length bytes
    → (o + m ≤ offset) ⊎ (offset + width ≤ o)
    → (write_uint width bytes offset value >>= λ written. read_uint m written o)
      ≡ read_uint m bytes o
unfolding write_uint require_range
read_uint-write_uint_apart m o width bytes offset value hb fits apart = ground (
  arith,
  read_uint-decode m bytes o hb,
  read_uint-decode m (write_loop width 0 bytes offset value) o
      (write_loop-IsByte width 0 bytes offset value hb),
  length-write_loop width 0 bytes offset value,
  decode_at-write_loop_apart m o width 0 bytes offset value (omega arith),
)
