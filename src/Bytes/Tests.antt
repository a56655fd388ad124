-- ===== src/Bytes/Tests.antt =====
-- byte_codec.hpp on small inputs.
use minidb_cpp.Prelude.{ℕ, ◌+◌, ◌≡◌, refl, inr, List, [], ◌∷◌, ok, err, ◌>>=◌, arith, length}
use minidb_cpp.Bytes.{
  read_uint, write_uint, append_uint, read_uint16, write_uint16, write_uint32, require_range,
  write_loop, truncated,
}
use minidb_cpp.Bytes.Decode.{decode_at, read_uint-decode}
use minidb_cpp.Bytes.Frame.{read_uint-write_uint_apart}
use minidb_cpp.Bytes.RoundTrip.{read_uint-write_uint}
use minidb_cpp.Bytes.Append.{append_uint-read}

abbrev six : List ℕ
six = 1 ∷ 2 ∷ 3 ∷ 4 ∷ 5 ∷ 6 ∷ []

little_endian : write_uint32 six 1 0xaabb_ccdd ≡ ok (1 ∷ 0xdd ∷ 0xcc ∷ 0xbb ∷ 0xaa ∷ 6 ∷ [])
unfolding write_uint require_range write_loop
little_endian = refl

write_beyond : write_uint16 six 5 7 ≡ err truncated
unfolding write_uint require_range
write_beyond = refl

append_two : append_uint 2 six 0x0102 ≡ ok (1 ∷ 2 ∷ 3 ∷ 4 ∷ 5 ∷ 6 ∷ 2 ∷ 1 ∷ [])
unfolding append_uint write_uint require_range write_loop
append_two = refl

read_uint-decode_example : read_uint16 six 2 ≡ ok (decode_at 2 six 2)
read_uint-decode_example = read_uint-decode 2 six 2 (omega arith)

read_uint-write_uint_example :
    (write_uint 4 six 1 0xaabb_ccdd >>= λ written. read_uint 4 written 1) ≡ ok 0xaabb_ccdd
read_uint-write_uint_example =
    read_uint-write_uint 4 six 1 0xaabb_ccdd (omega arith) (omega arith) (omega arith)

read_uint-write_uint_apart_example :
    (write_uint 2 six 0 0xffff >>= λ written. read_uint 4 written 2) ≡ read_uint 4 six 2
read_uint-write_uint_apart_example =
    read_uint-write_uint_apart 4 2 2 six 0 0xffff (omega arith) (omega arith) (inr (omega arith))

append_uint-read_example :
    (out : List ℕ) × (append_uint 2 six 0x0102 ≡ ok out)
    × (length out ≡ length six + 2)
    × (read_uint 2 out (length six) ≡ ok 0x0102)
    × (read_uint 4 out 1 ≡ read_uint 4 six 1)
append_uint-read_example =
    append_uint-read 2 six 0x0102 4 1 (omega arith) (omega arith) (omega arith)
