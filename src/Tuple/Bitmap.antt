-- ===== src/Tuple/Bitmap.antt =====
-- tuple_codec.cpp: the null bitmap says which values are NULL.
use minidb_cpp.Prelude.{
  ℕ, zero, suc, ◌+◌, ◌-◌, ◌*◌, ◌/◌, ◌%◌, ◌^◌, ◌<◌, ◌≤◌, ◌≡◌, ◌≢◌, refl, sym, ap, ◌∙◌, bit_or, Bool,
  true, false, List, [], ◌∷◌, ◌++◌, ◌==◌, ==_iff, if◌then◌else◌, length, get_or, set, All, All-set,
  arith, length-set, get_or-set_self, get_or-set_ne, get_or-append_left, get_or-append_right,
  set-append_left, set-append_right, Bool-cases, inl, inr, false≢true,
}
use minidb_cpp.Prelude.Masks.{
  has_bit, has_bit-zero, has_bit-set_self, has_bit-set_ne, bit_or-lt, pow-lt,
}
use minidb_cpp.Bytes.{IsByte}
use minidb_cpp.Bytes.Segments.{zeros}
use minidb_cpp.Bytes.Decode.{get_or-IsByte}
use minidb_cpp.Schema.{Value}
use minidb_cpp.Tuple.{null_bitmap_size, set_null, is_null, is_null_value}

-- The bitmap by itself.
abbrev pub set_bit : List ℕ → ℕ → List ℕ
set_bit bits i = set bits (i / 8) (bit_or (get_or bits (i / 8) 0) (2 ^ (i % 8)))

abbrev pub marks : List ℕ → ℕ → Bool
marks bits i = has_bit (get_or bits (i / 8) 0) (i % 8)

pub set_null-set_bit :
    (front bits tail : List ℕ) (i : ℕ)
    → i / 8 < length bits
    → set_null (front ++ (bits ++ tail)) (length front) i ≡ front ++ (set_bit bits i ++ tail)
unfolding set_null
set_null-set_bit front bits tail i h =
    ap (λ (b : ℕ). set (front ++ (bits ++ tail)) (length front + i / 8) (bit_or b (2 ^ (i % 8))))
      there
    ∙ set-append_right front (bits ++ tail) (i / 8) _
    ∙ ap (◌++◌ front) (set-append_left bits tail (i / 8) _ h)
  where
    there : get_or (front ++ (bits ++ tail)) (length front + i / 8) 0 ≡ get_or bits (i / 8) 0
    there =
        get_or-append_right front (bits ++ tail) (i / 8) 0
        ∙ get_or-append_left bits tail (i / 8) 0 h

pub is_null-marks :
    (front bits tail : List ℕ) (i : ℕ)
    → i / 8 < length bits
    → is_null (front ++ (bits ++ tail)) (length front) i ≡ marks bits i
unfolding is_null
is_null-marks front bits tail i h =
    ap (λ (b : ℕ). has_bit b (i % 8))
      (get_or-append_right front (bits ++ tail) (i / 8) 0
        ∙ get_or-append_left bits tail (i / 8) 0 h)

marks-set_self : (bits : List ℕ) (i : ℕ) → i / 8 < length bits → marks (set_bit bits i) i ≡ true
marks-set_self bits i h =
    ap (λ (b : ℕ). has_bit b (i % 8)) (get_or-set_self bits (i / 8) _ 0 h)
    ∙ has_bit-set_self (get_or bits (i / 8) 0) (i % 8)

marks-set_ne :
    (bits : List ℕ) (i j : ℕ)
    → i / 8 < length bits
    → i ≢ j
    → marks (set_bit bits i) j ≡ marks bits j
marks-set_ne bits i j h d = elim (Bool-cases (i / 8 == j / 8)) [
  | inl same ↦
      let e : i / 8 ≡ j / 8 = (==_iff (i / 8) (j / 8)).0 same in
      let apart : i % 8 ≢ j % 8 = λ q. d (omega (arith, e, q)) in
      ap (λ (b : ℕ). has_bit b (j % 8))
        (ap (λ (k : ℕ). get_or (set_bit bits i) k 0) (sym e) ∙ get_or-set_self bits (i / 8) _ 0 h)
      ∙ has_bit-set_ne (get_or bits (i / 8) 0) (i % 8) (j % 8) apart
      ∙ ap (λ (k : ℕ). has_bit (get_or bits k 0) (j % 8)) e
  | inr other ↦
      let apart : i / 8 ≢ j / 8 = λ q. false≢true (sym other ∙ (==_iff (i / 8) (j / 8)).1 q) in
      ap (λ (b : ℕ). has_bit b (j % 8)) (get_or-set_ne bits (i / 8) (j / 8) _ 0 apart)
]

-- The bitmap after the loop over the values, the first of which has the index `i`.
abbrev pub mark : Value → ℕ → List ℕ → List ℕ
mark v i bits = if is_null_value v then set_bit bits i else bits

unfoldable pub null_bits : List Value → ℕ → List ℕ → List ℕ
null_bits [] i bits = bits
null_bits (v ∷ vs) i bits = null_bits vs (i + 1) (mark v i bits)

pub length-mark : (v : Value) (i : ℕ) (bits : List ℕ) → length (mark v i bits) ≡ length bits
length-mark v i bits = elim (Bool-cases (is_null_value v)) [
  | inl e ↦ rw e (length-set bits (i / 8) _)
  | inr e ↦ rw e refl
]

pub length-null_bits :
    (vs : List Value) (i : ℕ) (bits : List ℕ) → length (null_bits vs i bits) ≡ length bits
unfolding null_bits
length-null_bits [] i bits = refl
length-null_bits (v ∷ vs) i bits =
    length-null_bits vs (i + 1) (mark v i bits) ∙ length-mark v i bits

-- There is a bit for each of the values.
abbrev pub Room : List Value → ℕ → List ℕ → Type 0
Room vs i bits = i + length vs ≤ 8 * length bits

pub Room-here :
    (v : Value) (vs : List Value) (i : ℕ) (bits : List ℕ)
    → Room (v ∷ vs) i bits
    → i / 8 < length bits
Room-here v vs i bits h = omega (arith, h)

pub Room-rest :
    (v : Value) (vs : List Value) (i : ℕ) (bits : List ℕ)
    → Room (v ∷ vs) i bits
    → Room vs (i + 1) (mark v i bits)
Room-rest v vs i bits h = omega (arith, h, length-mark v i bits)

marks-mark_ne :
    (v : Value) (i j : ℕ) (bits : List ℕ)
    → i / 8 < length bits
    → i ≢ j
    → marks (mark v i bits) j ≡ marks bits j
marks-mark_ne v i j bits h d = elim (Bool-cases (is_null_value v)) [
  | inl e ↦ rw e (marks-set_ne bits i j h d)
  | inr e ↦ rw e refl
]

marks-mark_self :
    (v : Value) (i : ℕ) (bits : List ℕ)
    → i / 8 < length bits
    → marks bits i ≡ false
    → marks (mark v i bits) i ≡ is_null_value v
marks-mark_self v i bits h g = elim (Bool-cases (is_null_value v)) [
  | inl e ↦ rw (e) (marks-set_self bits i h)
  | inr e ↦ rw (e) g
]

marks-null_bits_below :
    (vs : List Value) (i j : ℕ) (bits : List ℕ)
    → Room vs i bits
    → j < i
    → marks (null_bits vs i bits) j ≡ marks bits j
unfolding null_bits
marks-null_bits_below [] i j bits r h = refl
marks-null_bits_below (v ∷ vs) i j bits r h =
    marks-null_bits_below vs (i + 1) j (mark v i bits) (Room-rest v vs i bits r) (omega arith)
    ∙ marks-mark_ne v i j bits (Room-here v vs i bits r) (λ e. omega (arith, e, h))

-- The bits from `i` on are those of the values.
abbrev pub Marks : List ℕ → ℕ → List Value → Type 0
Marks bits i [] = Unit
Marks bits i (v ∷ vs) = (marks bits i ≡ is_null_value v) × Marks bits (i + 1) vs

pub null_bits-Marks :
    (vs : List Value) (i : ℕ) (bits : List ℕ)
    → Room vs i bits
    → ((j : ℕ) → i ≤ j → marks bits j ≡ false)
    → Marks (null_bits vs i bits) i vs
unfolding null_bits
null_bits-Marks [] i bits r h = tt
null_bits-Marks (v ∷ vs) i bits r h = (
  marks-null_bits_below vs (i + 1) i (mark v i bits) (Room-rest v vs i bits r) (omega arith)
      ∙ marks-mark_self v i bits (Room-here v vs i bits r) (h i (omega arith)),
  null_bits-Marks vs (i + 1) (mark v i bits) (Room-rest v vs i bits r) (λ j le.
      marks-mark_ne v i j bits (Room-here v vs i bits r) (λ e. omega (arith, e, le))
      ∙ h j (omega (arith, le))),
)

-- The bitmap has a bit for each column, and its last byte is one of theirs.
pub null_bitmap_size-room :
    (count : ℕ) → (count ≤ null_bitmap_size count * 8) × (null_bitmap_size count * 8 < count + 8)
unfolding null_bitmap_size
null_bitmap_size-room count = (omega arith, omega arith)

pub get_or-zeros : (n i : ℕ) → get_or (zeros n) i zero ≡ zero
get_or-zeros zero i = refl
get_or-zeros (suc n) zero = refl
get_or-zeros (suc n) (suc i) = get_or-zeros n i

pub marks-zeros : (n j : ℕ) → marks (zeros n) j ≡ false
marks-zeros n j = ap (λ (b : ℕ). has_bit b (j % 8)) (get_or-zeros n (j / 8)) ∙ has_bit-zero (j % 8)

pub zeros-IsByte : (n : ℕ) → All IsByte (zeros n)
zeros-IsByte zero = tt
zeros-IsByte (suc n) = (omega arith, zeros-IsByte n)

mark-IsByte : (v : Value) (i : ℕ) (bits : List ℕ) → All IsByte bits → All IsByte (mark v i bits)
mark-IsByte v i bits h = elim (Bool-cases (is_null_value v)) [
  | inl e ↦ rw e (
      All-set IsByte bits (i / 8) _
        (bit_or-lt 8 (get_or bits (i / 8) 0) (2 ^ (i % 8)) (get_or-IsByte bits (i / 8) h)
          (pow-lt (i % 8) 8 (omega arith)))
        h)
  | inr e ↦ rw e h
]

pub null_bits-IsByte :
    (vs : List Value) (i : ℕ) (bits : List ℕ) → All IsByte bits → All IsByte (null_bits vs i bits)
unfolding null_bits
null_bits-IsByte [] i bits h = h
null_bits-IsByte (v ∷ vs) i bits h =
    null_bits-IsByte vs (i + 1) (mark v i bits) (mark-IsByte v i bits h)

-- The last byte of a bitmap of `size` bytes for `count` columns has no bit behind the columns'.
abbrev pub LastFits : ℕ → ℕ → List ℕ → Type 0
LastFits size count bits = get_or bits (size - 1) 0 < 2 ^ (8 - (size * 8 - count))

mark-LastFits :
    (size count : ℕ) (v : Value) (i : ℕ) (bits : List ℕ)
    → length bits ≡ size
    → size * 8 < count + 8
    → i < count
    → i / 8 < size
    → LastFits size count bits
    → LastFits size count (mark v i bits)
mark-LastFits size count v i bits len near below inside h = elim (Bool-cases (is_null_value v)) [
  | inl e ↦ rw e set_fits
  | inr e ↦ rw e h
]
  where
    set_fits : LastFits size count (set_bit bits i)
    set_fits = elim (Bool-cases (i / 8 == size - 1)) [
      | inl last ↦
          let q : i / 8 ≡ size - 1 = (==_iff (i / 8) (size - 1)).0 last in
          rw
            (
              ← q,
              get_or-set_self bits (i / 8) (bit_or (get_or bits (i / 8) 0) (2 ^ (i % 8))) 0
                  (omega (arith, len, inside)),
            )
            (bit_or-lt (8 - (size * 8 - count)) (get_or bits (i / 8) 0) (2 ^ (i % 8)) (rw q h)
              (pow-lt (i % 8) (8 - (size * 8 - count)) (omega (arith, q, near, below))))
      | inr other ↦
          let apart : i / 8 ≢ size - 1 =
            λ q. false≢true (sym other ∙ (==_iff (i / 8) (size - 1)).1 q) in
          rw
            (get_or-set_ne bits (i / 8) (size - 1) (bit_or (get_or bits (i / 8) 0) (2 ^ (i % 8))) 0
              apart)
            h
    ]

pub null_bits-LastFits :
    (size count : ℕ) (vs : List Value) (i : ℕ) (bits : List ℕ)
    → length bits ≡ size
    → size * 8 < count + 8
    → i + length vs ≤ count
    → count ≤ size * 8
    → LastFits size count bits
    → LastFits size count (null_bits vs i bits)
unfolding null_bits
null_bits-LastFits size count [] i bits len near below room h = h
null_bits-LastFits size count (v ∷ vs) i bits len near below room h =
    null_bits-LastFits size count vs (i + 1) (mark v i bits) (length-mark v i bits ∙ len) near
      (omega (arith, below)) room
      (mark-LastFits size count v i bits len near (omega (arith, below))
        (omega (arith, below, room)) h)
