-- ===== src/Bytes/Segments.antt =====
-- byte_codec.hpp: an integer as the bytes that stand for it, lowest first.
use minidb_cpp.Prelude.{
  ℕ, zero, suc, ◌+◌, ◌*◌, ◌/◌, ◌%◌, ◌^◌, ◌<◌, ◌≤◌, ◌≡◌, refl, sym, ap, ◌∙◌, subst, List, [], ◌∷◌,
  ◌++◌, Result, ok, length, set, replicate, All, All-append, All-split, arith, length-append,
  length-replicate, set-append_right, ◌>>=◌,
}
use minidb_cpp.Bytes.{IsByte, require_range, write_loop, write_uint, read_uint, append_uint}
use minidb_cpp.Bytes.Frame.{write_uint-ok}
use minidb_cpp.Bytes.RoundTrip.{read_uint-write_uint}
use mathlib.Core.List.{append_assoc, append-nil}

abbrev pub zeros : ℕ → List ℕ
zeros n = replicate n 0

pub length-zeros : (n : ℕ) → length (zeros n) ≡ n
length-zeros zero = refl
length-zeros (suc n) = ap suc (length-zeros n)

pub zeros-add : (m n : ℕ) → zeros (m + n) ≡ zeros m ++ zeros n
zeros-add zero n = let e : 0 + n ≡ n = omega arith in ap zeros e
zeros-add (suc m) n =
    let e : suc m + n ≡ suc (m + n) = omega arith in ap zeros e ∙ ap (◌∷◌ 0) (zeros-add m n)

-- The digits of weight 256^i, 256^(i + 1), ...
unfoldable pub digits_from : ℕ → ℕ → ℕ → List ℕ
digits_from zero i value = []
digits_from (suc n) i value = value / 2 ^ (i * 8) % 256 ∷ digits_from n (i + 1) value

abbrev pub little_endian : ℕ → ℕ → List ℕ
little_endian width value = digits_from width 0 value

pub length-digits_from : (n i value : ℕ) → length (digits_from n i value) ≡ n
unfolding digits_from
length-digits_from zero i value = refl
length-digits_from (suc n) i value = ap suc (length-digits_from n (i + 1) value)

pub digits_from-IsByte : (n i value : ℕ) → All IsByte (digits_from n i value)
unfolding digits_from
digits_from-IsByte zero i value = tt
digits_from-IsByte (suc n) i value = (omega arith, digits_from-IsByte n (i + 1) value)

-- The loop replaces as many bytes as it has rounds.
write_loop-segment :
    (n i : ℕ) (front old back : List ℕ) (offset value : ℕ)
    → length old ≡ n
    → offset + i ≡ length front
    → write_loop n i (front ++ (old ++ back)) offset value
      ≡ front ++ (digits_from n i value ++ back)
unfolding write_loop digits_from
write_loop-segment zero i front [] back offset value h e = refl
write_loop-segment zero i front (x ∷ xs) back offset value h e = absurd (omega (arith, h))
write_loop-segment (suc n) i front [] back offset value h e = absurd (omega (arith, h))
write_loop-segment (suc n) i front (x ∷ xs) back offset value h e =
    ap (λ (l : List ℕ). write_loop n (i + 1) l offset value) placed
    ∙ write_loop-segment n (i + 1) (front ++ (b ∷ [])) xs back offset value (omega (arith, h))
        (omega (arith, e, length-append front (b ∷ [])))
    ∙ append_assoc front (b ∷ []) (digits_from n (i + 1) value ++ back)
  where
    b : ℕ
    b = value / 2 ^ (i * 8) % 256

    placed : set (front ++ ((x ∷ xs) ++ back)) (offset + i) b ≡ (front ++ (b ∷ [])) ++ (xs ++ back)
    placed =
        ap (λ (j : ℕ). set (front ++ ((x ∷ xs) ++ back)) j b) (omega (arith, e))
        ∙ set-append_right front ((x ∷ xs) ++ back) 0 b
        ∙ sym (append_assoc front (b ∷ []) (xs ++ back))

pub write_uint-segment :
    (width : ℕ) (front old back : List ℕ) (value : ℕ)
    → length old ≡ width
    → write_uint width (front ++ (old ++ back)) (length front) value
      ≡ ok (front ++ (little_endian width value ++ back))
write_uint-segment width front old back value h =
    write_uint-ok width (front ++ (old ++ back)) (length front) value
      (omega (arith, length-append front (old ++ back), length-append old back, h))
    ∙ ap ok (write_loop-segment width 0 front old back (length front) value h (omega arith))

pub append_uint-segment :
    (width : ℕ) (bytes : List ℕ) (value : ℕ)
    → append_uint width bytes value ≡ ok (bytes ++ little_endian width value)
unfolding append_uint
append_uint-segment width bytes value =
    ap (λ (l : List ℕ). write_uint width (bytes ++ l) (length bytes) value)
      (sym (append-nil (replicate width 0)))
    ∙ write_uint-segment width bytes (replicate width 0) [] value (length-replicate width 0)
    ∙ ap (λ (l : List ℕ). ok (bytes ++ l)) (append-nil (little_endian width value))

-- It is read where it stands.
pub read_uint-segment :
    (width : ℕ) (front back : List ℕ) (value : ℕ)
    → All IsByte front
    → All IsByte back
    → value < 2 ^ (width * 8)
    → read_uint width (front ++ (little_endian width value ++ back)) (length front) ≡ ok value
read_uint-segment width front back value f b small =
    ap (λ (r : Result _ (List ℕ)). r >>= λ written. read_uint width written (length front))
      (sym (
        write_uint-segment width front (little_endian width value) back value
          (length-digits_from width 0 value)))
    ∙ read_uint-write_uint width (front ++ (little_endian width value ++ back)) (length front) value
        (All-append IsByte front _ f
          (All-append IsByte (little_endian width value) back (digits_from-IsByte width 0 value) b))
        (omega (
          arith,
          length-append front (little_endian width value ++ back),
          length-append (little_endian width value) back,
          length-digits_from width 0 value,
        ))
        small

pub read_uint-within :
    (width : ℕ) (front back : List ℕ) (value : ℕ)
    → All IsByte (front ++ (little_endian width value ++ back))
    → value < 2 ^ (width * 8)
    → read_uint width (front ++ (little_endian width value ++ back)) (length front) ≡ ok value
read_uint-within width front back value h small =
    let (before, rest) = All-split IsByte front (little_endian width value ++ back) h in
    let (here, after) = All-split IsByte (little_endian width value) back rest in
    read_uint-segment width front back value before after small

pub require_range-ok :
    (bytes : List ℕ) (offset width : ℕ)
    → offset + width ≤ length bytes
    → require_range bytes offset width ≡ ok tt
unfolding require_range
require_range-ok bytes offset width h = ground arith

-- The same behind a second front.
pub write_uint-inner :
    (width : ℕ) (front pre old back : List ℕ) (offset value : ℕ)
    → length old ≡ width
    → offset ≡ length front + length pre
    → write_uint width (front ++ (pre ++ (old ++ back))) offset value
      ≡ ok (front ++ (pre ++ (little_endian width value ++ back)))
write_uint-inner width front pre old back offset value h e =
    ap (λ (o : ℕ). write_uint width (front ++ (pre ++ (old ++ back))) o value)
      (e ∙ sym (length-append front pre))
    ∙ ap (λ (l : List ℕ). write_uint width l (length (front ++ pre)) value)
        (sym (append_assoc front pre (old ++ back)))
    ∙ write_uint-segment width (front ++ pre) old back value h
    ∙ ap ok (append_assoc front pre (little_endian width value ++ back))

pub read_uint-inner :
    (width : ℕ) (front pre back : List ℕ) (offset value : ℕ)
    → All IsByte (front ++ (pre ++ (little_endian width value ++ back)))
    → value < 2 ^ (width * 8)
    → offset ≡ length front + length pre
    → read_uint width (front ++ (pre ++ (little_endian width value ++ back))) offset ≡ ok value
read_uint-inner width front pre back offset value h small e =
    ap (read_uint width (front ++ (pre ++ (little_endian width value ++ back))))
      (e ∙ sym (length-append front pre))
    ∙ ap (λ (l : List ℕ). read_uint width l (length (front ++ pre))) (sym flat)
    ∙ read_uint-within width (front ++ pre) back value (subst (All IsByte) (sym flat) h) small
  where
    flat :
        (front ++ pre) ++ (little_endian width value ++ back)
        ≡ front ++ (pre ++ (little_endian width value ++ back))
    flat = append_assoc front pre (little_endian width value ++ back)
