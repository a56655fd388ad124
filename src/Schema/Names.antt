-- ===== src/Schema/Names.antt =====
-- schema.cpp, normalizeIdentifier.
use minidb_cpp.Prelude.{
  ℕ, ◌≤◌, ◌≡◌, refl, Bool, true, false, not, ◌||◌, List, [], ◌∷◌, ok, throw_if-ok, Bool-cases,
  Result-cases, inl, inr, arith, length, ltb, All, All-map, ◌⊎◌, ◌+◌, subst, ok-injective,
}
use minidb_cpp.Schema.{
  is_identifier_start, is_identifier_continue, lower, normalize_loop, normalize_identifier,
  identifier_first, identifier_length, starts_well, is_empty, max_identifier_bytes,
}

-- A character of a normalized name.
abbrev pub IsNameByte : ℕ → Type 0
IsNameByte value = (is_identifier_continue value ≡ true) × (lower value ≡ value)

lower-IsNameByte : (value : ℕ) → is_identifier_continue value ≡ true → IsNameByte (lower value)
unfolding is_identifier_continue is_identifier_start lower
lower-IsNameByte value h = ground arith

lower-start :
    (value : ℕ) → is_identifier_start value ≡ true → is_identifier_start (lower value) ≡ true
unfolding is_identifier_start lower
lower-start value h = ground arith

-- `not b` is false only where `b` is true.
pub not-false : (b : Bool) → not b ≡ false → b ≡ true
not-false true h = refl
not-false false h = cc

normalize_loop-cons :
    (value : ℕ) (rest normal : List ℕ)
    → normalize_loop (value ∷ rest) ≡ ok normal
    → (tail : List ℕ) × (is_identifier_continue value ≡ true)
      × (normalize_loop rest ≡ ok tail)
      × (lower value ∷ tail ≡ normal)
unfolding normalize_loop
normalize_loop-cons value rest normal h = elim (Bool-cases (is_identifier_continue value)) [
  | inr bad ↦ ground arith
  | inl good ↦ elim (Result-cases (normalize_loop rest)) [
    | inl (tail, e) ↦ (tail, good, e, ground arith)
    | inr (error, e) ↦ ground arith
  ]
]

normalize_loop-names :
    (text normal : List ℕ)
    → normalize_loop text ≡ ok normal
    → All IsNameByte normal × (length normal ≡ length text)
unfolding normalize_loop
normalize_loop-names [] normal h = ground arith
normalize_loop-names (value ∷ rest) normal h =
    let (tail, fine, e, f) = normalize_loop-cons value rest normal h in
    let (bytes, same) = normalize_loop-names rest tail e in
    ground (arith, lower-IsNameByte value fine)

normalize_loop-fixed : (normal : List ℕ) → All IsNameByte normal → normalize_loop normal ≡ ok normal
unfolding normalize_loop
normalize_loop-fixed [] h = refl
normalize_loop-fixed (value ∷ rest) h = rw (h.0.0, normalize_loop-fixed rest h.1, h.0.1) refl

normalize_loop-start :
    (text normal : List ℕ)
    → normalize_loop text ≡ ok normal
    → starts_well text ≡ true
    → (starts_well normal ≡ true) × (is_empty normal ≡ false)
unfolding normalize_loop
normalize_loop-start [] normal h s = cc
normalize_loop-start (value ∷ rest) normal h s =
    let (tail, fine, e, f) = normalize_loop-cons value rest normal h in
    ground (arith, lower-start value s)

-- The tests that a normalized text has passed.
normalized_parts :
    (text normal : List ℕ)
    → normalize_identifier text ≡ ok normal
    → (starts_well text ≡ true) × (normalize_loop text ≡ ok normal)
unfolding normalize_identifier
normalized_parts text normal h =
    let (short, more) =
      throw_if-ok (is_empty text || ltb max_identifier_bytes (length text)) identifier_length _
        normal h in
    let (start, loop) = throw_if-ok (not (starts_well text)) identifier_first _ normal more in
    (not-false _ start, loop)

-- The bytes of a normalized identifier, by the tests of the code.
pub normalize_identifier_lem :
    (text normal : List ℕ)
    → normalize_identifier text ≡ ok normal
    → (length normal ≡ length text)
      × (1 ≤ length normal)
      × (length normal ≤ 63)
      × All IsNameByte normal
      × (normalize_identifier normal ≡ ok normal)
unfolding normalize_identifier
normalize_identifier_lem text normal h =
    let (short, more) =
      throw_if-ok (is_empty text || ltb max_identifier_bytes (length text)) identifier_length _
        normal h in
    let (start, loop) = throw_if-ok (not (starts_well text)) identifier_first _ normal more in
    let (bytes, same) = normalize_loop-names text normal loop in
    let (starts, full) = normalize_loop-start text normal loop (not-false _ start) in
    let again = normalize_loop-fixed normal bytes in
    let long : length normal ≤ 63 = ground (arith, same, short) in
    (same, nonempty normal full, long, bytes, rw (full, short_too normal long, starts, again) refl)
  where
    nonempty : (t : List ℕ) → is_empty t ≡ false → 1 ≤ length t
    nonempty [] e = cc
    nonempty (x ∷ xs) e = omega arith

    short_too : (t : List ℕ) → length t ≤ 63 → ltb 63 (length t) ≡ false
    short_too t e = ground arith

-- A lower case letter, a digit or an underscore.
abbrev pub IsNormalByte : ℕ → Type 0
IsNormalByte c = ((b'a' ≤ c) × (c ≤ b'z')) ⊎ (((b'0' ≤ c) × (c ≤ b'9')) ⊎ (c ≡ b'_'))

-- The first byte of a name is no digit.
abbrev pub StartsName : List ℕ → Type 0
StartsName [] = ⊥
StartsName (c ∷ cs) = ((b'a' ≤ c) × (c ≤ b'z')) ⊎ (c ≡ b'_')

-- Byte for byte the same text, but for capital letters, which are 32 less than their lower case.
abbrev pub LowerOf : List ℕ → List ℕ → Type 0
LowerOf [] [] = Unit
LowerOf [] (d ∷ ds) = ⊥
LowerOf (c ∷ cs) [] = ⊥
LowerOf (c ∷ cs) (d ∷ ds) = ((d ≡ c) ⊎ ((b'A' ≤ c) × (c ≤ b'Z') × (d ≡ c + 32))) × LowerOf cs ds

IsNameByte-IsNormalByte : (c : ℕ) → IsNameByte c → IsNormalByte c
unfolding is_identifier_continue is_identifier_start lower
IsNameByte-IsNormalByte c h = ground (arith, h.0, h.1)

lower-LowerOf : (c : ℕ) → (lower c ≡ c) ⊎ ((b'A' ≤ c) × (c ≤ b'Z') × (lower c ≡ c + 32))
unfolding lower
lower-LowerOf c = ground arith

normalize_loop-LowerOf :
    (text normal : List ℕ) → normalize_loop text ≡ ok normal → LowerOf text normal
unfolding normalize_loop
normalize_loop-LowerOf [] normal h = rw (← ok-injective [] normal h) tt
normalize_loop-LowerOf (value ∷ rest) normal h =
    let (tail, fine, e, f) = normalize_loop-cons value rest normal h in
    subst (LowerOf (value ∷ rest)) f (lower-LowerOf value, normalize_loop-LowerOf rest tail e)

starts_well-StartsName :
    (normal : List ℕ) → All IsNameByte normal → starts_well normal ≡ true → StartsName normal
unfolding is_identifier_start lower
starts_well-StartsName [] h s = cc
starts_well-StartsName (c ∷ cs) h s = ground (arith, h.0.1, s)

-- What normalizeIdentifier returns is its argument with the capital letters made lower case and nothing
-- else changed. It is a name: from 1 to 63 bytes, each a lower case letter, a digit or an underscore,
-- the first no digit; and it is its own normal form.
pub normalize_identifier-fixed :
    (text normal : List ℕ)
    → normalize_identifier text ≡ ok normal
    → LowerOf text normal
      × (1 ≤ length normal)
      × (length normal ≤ 63)
      × StartsName normal
      × All IsNormalByte normal
      × (normalize_identifier normal ≡ ok normal)
normalize_identifier-fixed text normal h =
    let (same, nonempty, short, bytes, again) = normalize_identifier_lem text normal h in
    let (start, loop) = normalized_parts text normal h in
    let (starts, full) = normalize_loop-start text normal loop start in
    (
      normalize_loop-LowerOf text normal loop,
      nonempty,
      short,
      starts_well-StartsName normal bytes starts,
      All-map IsNameByte IsNormalByte IsNameByte-IsNormalByte normal bytes,
      again,
    )
