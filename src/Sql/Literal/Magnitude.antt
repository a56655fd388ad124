-- ===== src/Sql/Literal/Magnitude.antt =====
-- sql_semantics.cpp, accumulateMagnitude.
use minidb_cpp.Prelude.{
  ℕ, ◌+◌, ◌-◌, ◌*◌, ◌/◌, ◌^◌, ◌%◌, ◌≤◌, ◌<◌, ◌≡◌, refl, false, List, [], ◌∷◌, ok, err, leb, ltb, ap,
  Bool-cases, inl, inr, if◌then◌else◌, All, arith,
}
use minidb_cpp.Sql.Source.{SourceSpan}
use minidb_cpp.Sql.Literal.{
  SqlLiteral, constraint, out_of_range, accumulate_from, component_of, threshold,
  accumulate_magnitude,
}
use native.Mathlib.Nat.{mod-eq_of_lt}

abbrev pub IsDigit : ℕ → Type 0
IsDigit c = (b'0' ≤ c) × (c ≤ b'9')

-- The number that digits write, after the number `value`.
unfoldable pub decimal_from : ℕ → List ℕ → ℕ
decimal_from value [] = value
decimal_from value (digit ∷ digits) = decimal_from (value * 10 + (digit - b'0')) digits

pub decimal_from-ge : (value : ℕ) (digits : List ℕ) → value ≤ decimal_from value digits
unfolding decimal_from
decimal_from-ge value [] = omega arith
decimal_from-ge value (digit ∷ digits) =
    omega (arith, decimal_from-ge (value * 10 + (digit - b'0')) digits)

component-exact : (digit : ℕ) → IsDigit digit → component_of digit ≡ digit - b'0'
component-exact digit h = ground (arith, h)

threshold-exact :
    (maximum component : ℕ)
    → component ≤ maximum
    → maximum < 2 ^ 64
    → threshold maximum component ≡ (maximum - component) / 10
threshold-exact maximum component h g = ap (λ (t : ℕ). t / 10) wrapped
  where
    wrapped : (2 ^ 64 + maximum - component) % 2 ^ 64 ≡ maximum - component
    wrapped = omega (arith, h, g)

beyond_leb : (a b : ℕ) → b < a → leb a b ≡ false
beyond_leb a b h = ground arith

accumulate_from-decimal :
    (value maximum : ℕ) (digits : List ℕ) (span : SourceSpan)
    → 9 ≤ maximum
    → maximum < 2 ^ 64
    → value ≤ maximum
    → All IsDigit digits
    → accumulate_from value maximum digits span ≡ (
        if leb (decimal_from value digits) maximum
        then ok (decimal_from value digits)
        else err (record { kind = constraint; message = out_of_range; span = span }))
unfolding accumulate_from decimal_from
accumulate_from-decimal value maximum [] span h0 h1 h2 h3 = ground arith
accumulate_from-decimal value maximum (digit ∷ digits) span h0 h1 h2 h3 =
    let next : ℕ = value * 10 + (digit - b'0') in
    let grows : next ≤ decimal_from next digits = decimal_from-ge next digits in
    elim (Bool-cases (ltb (threshold maximum (component_of digit)) value)) [
      | inl over ↦
          let beyond : maximum < next = ground (arith, over, exact, reach) in
          rw (over, beyond_leb (decimal_from next digits) maximum (omega (arith, beyond, grows)))
            refl
      | inr under ↦
          let inside : next ≤ maximum = ground (arith, under, exact, reach) in
          let whole : (value * 10 + component_of digit) % 2 ^ 64 ≡ next =
            rw exact (mod-eq_of_lt (omega (arith, inside, h1))) in
          rw (under, whole) (accumulate_from-decimal next maximum digits span h0 h1 inside h3.1)
    ]
  where
    exact : component_of digit ≡ digit - b'0'
    exact = component-exact digit h3.0

    reach : threshold maximum (component_of digit) ≡ (maximum - (digit - b'0')) / 10
    reach = rw exact (threshold-exact maximum (digit - b'0') (omega (arith, h3.0, h0)) h1)

-- A string of digits is converted to the number that it writes in decimal exactly where this number
-- is within the maximum; otherwise the error is that the literal is out of range. The maximum is at
-- least 9 and fits 64 bits.
pub accumulate_magnitude-decimal :
    (digits : List ℕ) (maximum : ℕ) (literal : SqlLiteral)
    → 9 ≤ maximum
    → maximum < 2 ^ 64
    → All IsDigit digits
    → accumulate_magnitude digits maximum literal ≡ (
        if leb (decimal_from 0 digits) maximum
        then ok (decimal_from 0 digits)
        else err (record { kind = constraint; message = out_of_range; span = literal.span }))
unfolding accumulate_magnitude
accumulate_magnitude-decimal digits maximum literal h0 h1 h2 =
    accumulate_from-decimal 0 maximum digits literal.span h0 h1 (omega arith) h2
