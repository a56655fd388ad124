-- ===== src/Wire/Numbers.antt =====
-- wire_protocol.cpp: bytes, integers and strings are read as they were written.
use minidb_cpp.Prelude.{
  ℕ, zero, suc, ◌+◌, ◌-◌, ◌*◌, ◌/◌, ◌%◌, ◌^◌, ◌<◌, ◌≡◌, refl, sym, ap, ◌∙◌, false, ◌||◌, List, [],
  ◌∷◌, ◌++◌, Result, ok, ltb, length, arith, length-append, get_or-append_here, bit_or, subst,
  subst,
}
use minidb_cpp.Prelude.Bits.{shifted_bit_or}
use minidb_cpp.Prelude.Stateful.{returns, throw_when, get_state, put_state}
use minidb_cpp.Wire.{
  ◌>>=◌, ◌>>◌, ProtocolError, Writer, Reader, ReadsA, require_room, require_bytes, write_byte,
  read_byte, next_byte, write_raw, plain_error, push_back, push_big, write_big, read_big,
  read_big_loop, read_big16, read_bytes, write_string, read_string, max_wire_string_bytes,
  string_too_long,
}
use minidb_cpp.Wire.Sends.{
  Reads, extend, Sends, Reads-returns, Reads-bind, Reads-require, Sends-bind, Sends-room,
  Sends-checked, Sends-require, Sends-passes,
}
use mathlib.Core.List.{append_assoc, append-nil}
use mathlib.Core.Path.{ap₂}
use minidb_cpp.Bytes.Decode.{pow_byte}
use native.Mathlib.Nat.{mod-eq_of_lt, div-le_self, div-eq_of_lt, div-div-eq-div-mul, mul_comm}

-- A writer that only appends.
pub Sends-puts :
    {A : Type 0} (w : List ℕ) (r : ReadsA A) (v : A) (f : Writer → Writer)
    → ((s : Writer) → f s ≡ extend s w)
    → Reads r v w
    → Sends (length w) (get_state >>= λ s. put_state (f s)) r v
unfolding ◌>>=◌
Sends-puts w r v f h k = record {
  sent = λ s t e.
      (w, ap (λ (p : Writer × Result ProtocolError (Unit {0})). p.0) (sym e) ∙ h s, omega arith, k);
}

Reads-next : (v : ℕ) → Reads next_byte v (v ∷ [])
Reads-next v front rest = rw (get_or-append_here front rest v 0) (
    ap₂ (λ (b : List ℕ) (c : ℕ). pair (record { bytes = b; cursor = c }))
      (sym (append_assoc front (v ∷ []) rest)) (sym (length-append front (v ∷ []))))
  where
    pair : Reader → Reader × Result ProtocolError ℕ
    pair r = (r, ok v)

-- One byte off the front.
Reads-byte : (v : ℕ) → Reads read_byte v (v ∷ [])
unfolding read_byte
Reads-byte v = Reads-require 1 next_byte v (v ∷ []) (omega arith) (Reads-next v)

pub Sends-byte : (v : ℕ) → Sends 1 (write_byte v) read_byte v
unfolding write_byte
Sends-byte v =
    Sends-room 1 1 (get_state >>= λ s. put_state (push_back v s)) read_byte v
      (Sends-puts (v ∷ []) read_byte v (push_back v) (λ s. refl) (Reads-byte v))

-- The base-256 digits of a number, highest first.
unfoldable pub big_endian : ℕ → ℕ → List ℕ
big_endian zero value = []
big_endian (suc n) value = value / 2 ^ (n * 8) % 256 ∷ big_endian n value

pub length-big_endian : (n value : ℕ) → length (big_endian n value) ≡ n
unfolding big_endian
length-big_endian zero value = refl
length-big_endian (suc n) value = ap suc (length-big_endian n value)

pub push_big-extend :
    (n value : ℕ) (s : Writer) → push_big n value s ≡ extend s (big_endian n value)
unfolding push_big big_endian
push_big-extend zero value s =
    ap (λ (y : List ℕ). record s { bytes = y }) (sym (append-nil s.bytes))
push_big-extend (suc n) value s =
    push_big-extend n value (push_back (value / 2 ^ (n * 8) % 256) s)
    ∙ ap (λ (y : List ℕ). record s { bytes = y })
        (append_assoc s.bytes (value / 2 ^ (n * 8) % 256 ∷ []) (big_endian n value))

-- What one round of the loop makes of the digits read so far.
next_digits :
    (width n value : ℕ)
    → value < 2 ^ (width * 8)
    → bit_or (value / 2 ^ (suc n * 8) * 2 ^ 8 % 2 ^ (width * 8)) (value / 2 ^ (n * 8) % 256)
      ≡ value / 2 ^ (n * 8)
next_digits width n value h =
    rw (shifted, mod-eq_of_lt fits)
      (shifted_bit_or 8 (q % 256) (q / 256) (omega arith) ∙ omega arith)
  where
    q : ℕ
    q = value / 2 ^ (n * 8)

    shifted : value / 2 ^ (suc n * 8) ≡ q / 256
    shifted =
        ap (λ (t : ℕ). value / t)
          (ap (λ (t : ℕ). 2 ^ (t * 8)) (omega arith) ∙ pow_byte n ∙ mul_comm 256 (2 ^ (n * 8)))
        ∙ sym (div-div-eq-div-mul value (2 ^ (n * 8)) 256)

    fits : q / 256 * 2 ^ 8 < 2 ^ (width * 8)
    fits = omega (arith, h, div-le_self value (2 ^ (n * 8)))

Reads-big_loop :
    (width n value : ℕ)
    → value < 2 ^ (width * 8)
    → Reads (read_big_loop width n (value / 2 ^ (n * 8))) value (big_endian n value)
unfolding read_big_loop big_endian
Reads-big_loop width zero value h = rw (whole) (Reads-returns value)
  where
    whole : value / 2 ^ (0 * 8) ≡ value
    whole = omega arith
Reads-big_loop width (suc n) value h =
    Reads-bind read_byte
      (λ next.
        read_big_loop width n (bit_or (value / 2 ^ (suc n * 8) * 2 ^ 8 % 2 ^ (width * 8)) next))
      (value / 2 ^ (n * 8) % 256) value (value / 2 ^ (n * 8) % 256 ∷ []) (big_endian n value)
      (Reads-byte (value / 2 ^ (n * 8) % 256))
      (rw (next_digits width n value h) (Reads-big_loop width n value h))

Reads-big :
    (width value : ℕ)
    → value < 2 ^ (width * 8)
    → Reads (read_big width) value (big_endian width value)
unfolding read_big
Reads-big width value h =
    Reads-require width (read_big_loop width width 0) value (big_endian width value)
      (omega (arith, length-big_endian width value))
      (subst (λ (t : ℕ). Reads (read_big_loop width width t) value (big_endian width value))
        (div-eq_of_lt h) (Reads-big_loop width width value h))

-- An appended list whose length is known.
Sends-appends :
    {A : Type 0} (k : ℕ) (w : List ℕ) (r : ReadsA A) (v : A) (f : Writer → Writer)
    → length w ≡ k
    → ((s : Writer) → f s ≡ extend s w)
    → Reads r v w
    → Sends k (require_room k >> (get_state >>= λ s. put_state (f s))) r v
Sends-appends k w r v f e h g =
    Sends-room k k (get_state >>= λ s. put_state (f s)) r v (
      subst (λ (n : ℕ). Sends n (get_state >>= λ s. put_state (f s)) r v) e
        (Sends-puts w r v f h g))

pub Sends-big :
    (width value : ℕ)
    → value < 2 ^ (width * 8)
    → Sends width (write_big width value) (read_big width) value
unfolding write_big
Sends-big width value h =
    Sends-appends width (big_endian width value) (read_big width) value (push_big width value)
      (length-big_endian width value) (push_big-extend width value) (Reads-big width value h)

Reads-big16 : (value : ℕ) → value < 2 ^ 16 → Reads read_big16 value (big_endian 2 value)
unfolding read_big16 big_endian
Reads-big16 value h =
    Reads-require 2
      (read_byte >>= λ high. read_byte >>= λ low. returns (bit_or (high * 2 ^ 8) low % 2 ^ 16))
      value (big_endian 2 value) (omega arith)
      (Reads-bind read_byte
        (λ high. read_byte >>= λ low. returns (bit_or (high * 2 ^ 8) low % 2 ^ 16)) high value
        (high ∷ []) (low ∷ []) (Reads-byte high)
        (Reads-bind read_byte (λ low. returns (bit_or (high * 2 ^ 8) low % 2 ^ 16)) low value
          (low ∷ []) [] (Reads-byte low) (rw whole (Reads-returns value))))
  where
    high : ℕ
    high = value / 2 ^ (1 * 8) % 256

    low : ℕ
    low = value / 2 ^ (0 * 8) % 256

    whole : bit_or (high * 2 ^ 8) low % 2 ^ 16 ≡ value
    whole = omega (arith, h, shifted_bit_or 8 low high (omega arith))

pub Sends-big16 : (value : ℕ) → value < 2 ^ 16 → Sends 2 (write_big 2 value) read_big16 value
unfolding write_big
Sends-big16 value h =
    Sends-appends 2 (big_endian 2 value) read_big16 value (push_big 2 value)
      (length-big_endian 2 value) (push_big-extend 2 value) (Reads-big16 value h)

Reads-bytes : (bytes : List ℕ) → Reads (read_bytes (length bytes)) bytes bytes
unfolding read_bytes
Reads-bytes [] = Reads-returns []
Reads-bytes (b ∷ bs) =
    Reads-bind read_byte (λ first. read_bytes (length bs) >>= λ rest. returns (first ∷ rest)) b
      (b ∷ bs) (b ∷ []) bs (Reads-byte b)
      (subst (Reads (read_bytes (length bs) >>= λ rest. returns (b ∷ rest)) (b ∷ bs))
        (append-nil bs)
        (Reads-bind (read_bytes (length bs)) (λ rest. returns (b ∷ rest)) bs (b ∷ bs) bs []
          (Reads-bytes bs) (Reads-returns (b ∷ bs))))

pub Sends-raw :
    (bytes : List ℕ) → Sends (length bytes) (write_raw bytes) (read_bytes (length bytes)) bytes
unfolding write_raw
Sends-raw bytes =
    Sends-appends (length bytes) bytes (read_bytes (length bytes)) bytes
      (λ w. record w { bytes = w.bytes ++ bytes }) refl (λ s. refl) (Reads-bytes bytes)

pub Sends-string :
    (value : List ℕ) → Sends (4 + length value) (write_string value) read_string value
unfolding write_string read_string
Sends-string value =
    Sends-checked (4 + length value)
      (ltb max_wire_string_bytes (length value) || ltb (2 ^ 32 - 1) (length value))
      (plain_error string_too_long) (write_big 4 (length value) >> write_raw value)
      (read_big 4 >>= tail) value sent
  where
    tail : ℕ → ReadsA (List ℕ)
    tail size =
        throw_when (ltb max_wire_string_bytes size) (plain_error string_too_long)
        >> (require_bytes size >> read_bytes size)

    sent :
        ltb max_wire_string_bytes (length value) || ltb (2 ^ 32 - 1) (length value) ≡ false
        → Sends
            (4 + length value)
            (write_big 4 (length value) >> write_raw value)
            (read_big 4 >>= tail)
            value
    sent h =
        Sends-bind 4 (length value) (write_big 4 (length value)) (write_raw value) (read_big 4) tail
          (length value) value (Sends-big 4 (length value) (ground (arith, h)))
          (Sends-passes (length value) (write_raw value) (ltb max_wire_string_bytes (length value))
            (plain_error string_too_long)
            (require_bytes (length value) >> read_bytes (length value)) value (ground (arith, h))
            (Sends-require (length value) (length value) (write_raw value)
              (read_bytes (length value)) value (omega arith) (Sends-raw value)))
