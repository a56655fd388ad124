-- ===== src/Sql/Literal/Convert.antt =====
-- sql_semantics.cpp, convertLiteral.
use minidb_cpp.Prelude.{
  ℕ, zero, suc, ◌-◌, ◌^◌, ◌≤◌, ◌<◌, ◌≡◌, refl, Bool, true, false, not, List, Result, ok, err, sym,
  ◌∙◌, guarded-ok, leb, ltb, leb→le, if◌then◌else◌, All, arith, Bool-cases, throw_if-ok,
  ok-injective, inl, inr, length, subst,
}
use minidb_cpp.Prelude.Int.{ℤ, pos, negsuc, IsInt64}
use minidb_cpp.Schema.{
  ColumnDefinition, DataType, Value, uint32, int64, boolean, varchar, null, uint32_value,
  int64_value, bool_value, string_value, type_eq,
}
use minidb_cpp.Schema.Values.{Fits}
use minidb_cpp.Schema.Names.{not-false}
use minidb_cpp.Sql.Literal.{
  SqlLiteral, SqlExecutionError, LiteralValue, null_literal, boolean_literal, string_literal,
  integer_literal, constraint, semantic, out_of_range, negative_uint32, incompatible,
  cannot_be_null, exceeds_varchar, signed_value, convert_integer, convert_value, convert_literal,
  positive_maximum, negative_maximum,
}
use minidb_cpp.Sql.Literal.Magnitude.{IsDigit, decimal_from, accumulate_magnitude-decimal}
use native.Mathlib.Nat.{mod-eq_of_lt}

-- The integer that a sign and a magnitude write.
abbrev pub integer_of : Bool → ℕ → ℤ
integer_of true zero = pos 0
integer_of true (suc n) = negsuc n
integer_of false n = pos n

abbrev limit_of : Bool → ℕ
limit_of true = negative_maximum
limit_of false = positive_maximum

-- What an integer literal ought to give in a column of each type.
abbrev pub integer_value : Bool → ℕ → SqlLiteral → DataType → Result SqlExecutionError Value
integer_value true n literal uint32 =
    err (record { kind = constraint; message = negative_uint32; span = literal.span })
integer_value false n literal uint32 =
    if leb n (2 ^ 32 - 1)
    then ok (uint32_value n)
    else err (record { kind = constraint; message = out_of_range; span = literal.span })
integer_value negative n literal int64 =
    if leb n (limit_of negative)
    then ok (int64_value (integer_of negative n))
    else err (record { kind = constraint; message = out_of_range; span = literal.span })
integer_value negative n literal _ =
    err (record { kind = semantic; message = incompatible; span = literal.span })

signed_value-integer :
    (negative : Bool) (n : ℕ)
    → n ≤ limit_of negative
    → signed_value negative n ≡ integer_of negative n
unfolding signed_value
signed_value-integer false n h = ground (arith, h)
signed_value-integer true zero h = refl
signed_value-integer true (suc n) h = ground arith

signed_case :
    (negative : Bool) (digits : List ℕ) (literal : SqlLiteral)
    → All IsDigit digits
    → convert_integer negative digits literal int64
      ≡ integer_value negative (decimal_from 0 digits) literal int64
unfolding convert_integer
signed_case true digits literal h =
    rw (accumulate_magnitude-decimal digits negative_maximum literal (omega arith) (omega arith) h)
      (elim (Bool-cases (leb (decimal_from 0 digits) negative_maximum)) [
        | inl low ↦ rw (low, signed_value-integer true _ (leb→le _ _ low)) refl
        | inr high ↦ rw high refl
      ])
signed_case false digits literal h =
    rw (accumulate_magnitude-decimal digits positive_maximum literal (omega arith) (omega arith) h)
      (elim (Bool-cases (leb (decimal_from 0 digits) positive_maximum)) [
        | inl low ↦ rw (low, signed_value-integer false _ (leb→le _ _ low)) refl
        | inr high ↦ rw high refl
      ])

-- An integer literal whose magnitude consists of digits becomes the integer that it writes, where the
-- column's type is UINT32 or INT64 and holds that integer, -2^63 among those of INT64; otherwise the
-- error tells a negative UINT32, a value out of range, and a column of another type apart.
pub convert_integer-exact :
    (negative : Bool) (digits : List ℕ) (literal : SqlLiteral) (type : DataType)
    → All IsDigit digits
    → convert_integer negative digits literal type
      ≡ integer_value negative (decimal_from 0 digits) literal type
unfolding convert_integer
convert_integer-exact true digits literal uint32 h = refl
convert_integer-exact false digits literal uint32 h =
    rw (accumulate_magnitude-decimal digits (2 ^ 32 - 1) literal (omega arith) (omega arith) h)
      (elim (Bool-cases (leb d (2 ^ 32 - 1))) [
        | inl low ↦ rw (low, mod-eq_of_lt (below d low)) refl
        | inr high ↦ rw high refl
      ])
  where
    d : ℕ
    d = decimal_from 0 digits

    below : (n : ℕ) → leb n (2 ^ 32 - 1) ≡ true → n < 2 ^ 32
    below n e = ground arith
convert_integer-exact negative digits literal int64 h = signed_case negative digits literal h
convert_integer-exact negative digits literal boolean h = ground arith
convert_integer-exact negative digits literal varchar h = ground arith

minus-IsInt64 : (n : ℕ) → n ≤ negative_maximum → IsInt64 (integer_of true n)
minus-IsInt64 zero h = omega arith
minus-IsInt64 (suc n) h = omega (arith, h)

-- The values that the C++ types of a variant hold.
abbrev pub InRange : Value → Type 0
InRange (uint32_value n) = n < 2 ^ 32
InRange (int64_value z) = IsInt64 z
InRange _ = Unit

-- The magnitude of an integer literal is a string of digits, as the lexer makes it.
abbrev pub HasDigits : LiteralValue → Type 0
HasDigits (integer_literal negative magnitude) = All IsDigit magnitude
HasDigits _ = Unit

integer_value-Fits :
    (negative : Bool) (n : ℕ) (literal : SqlLiteral) (column : ColumnDefinition) (value : Value)
    → integer_value negative n literal column.type ≡ ok value
    → Fits column.type column.varchar_max_bytes column.nullable value × InRange value
integer_value-Fits negative n literal column value h = by_type negative column.type h
  where
    Good : DataType → Value → Type 0
    Good type v = Fits type column.varchar_max_bytes column.nullable v × InRange v

    by_type :
        (sign : Bool) (type : DataType)
        → integer_value sign n literal type ≡ ok value
        → Good type value
    by_type true uint32 e = cc
    by_type false uint32 e =
        let (low, same) = guarded-ok (leb n (2 ^ 32 - 1)) _ (uint32_value n) value e in
        subst (Good uint32) same (tt, omega (arith, leb→le _ _ low))
    by_type true int64 e =
        let (low, same) =
          guarded-ok (leb n negative_maximum) _ (int64_value (integer_of true n)) value e in
        subst (Good int64) same (tt, minus-IsInt64 n (leb→le _ _ low))
    by_type false int64 e =
        let (low, same) = guarded-ok (leb n positive_maximum) _ (int64_value (pos n)) value e in
        subst (Good int64) same (tt, omega (arith, leb→le _ _ low))
    by_type sign boolean e = ground arith
    by_type sign varchar e = ground arith

convert_value-Fits :
    (held : LiteralValue) (literal : SqlLiteral) (column : ColumnDefinition) (value : Value)
    → HasDigits held
    → convert_value held literal column ≡ ok value
    → Fits column.type column.varchar_max_bytes column.nullable value × InRange value
unfolding convert_value
convert_value-Fits null_literal literal column value d c =
    let (t, same) =
      throw_if-ok (not column.nullable)
        (record { kind = constraint; message = cannot_be_null; span = literal.span }) (ok null)
        value c in
    let this : null ≡ value = ok-injective null value same in rw (← this) (not-false _ t, tt)
convert_value-Fits (boolean_literal b) literal column value d c =
    let (t, same) =
      throw_if-ok (not (type_eq column.type boolean))
        (record { kind = semantic; message = incompatible; span = literal.span })
        (ok (bool_value b)) value c in
    let this : bool_value b ≡ value = ok-injective (bool_value b) value same in
    rw (← this) ground (arith, t)
convert_value-Fits (string_literal s) literal column value d c =
    let (t, more) =
      throw_if-ok (not (type_eq column.type varchar))
        (record { kind = semantic; message = incompatible; span = literal.span }) _ value c in
    let (u, same) =
      throw_if-ok (ltb column.varchar_max_bytes (length s))
        (record { kind = constraint; message = exceeds_varchar; span = literal.span })
        (ok (string_value s)) value more in
    let this : string_value s ≡ value = ok-injective (string_value s) value same in
    rw (← this) ground (arith, t, u)
convert_value-Fits (integer_literal negative magnitude) literal column value d c =
    integer_value-Fits negative (decimal_from 0 magnitude) literal column value
      (sym (convert_integer-exact negative magnitude literal column.type d) ∙ c)

-- For a literal whose magnitude, where it is an integer literal, consists of digits: a value that
-- convertLiteral returns for a column is one that Schema::validateValues accepts there, and it lies in
-- the range of its C++ type.
pub convert_literal-Fits :
    (literal : SqlLiteral) (column : ColumnDefinition) (value : Value)
    → HasDigits literal.value
    → convert_literal literal column ≡ ok value
    → Fits column.type column.varchar_max_bytes column.nullable value × InRange value
convert_literal-Fits literal column value h e =
    convert_value-Fits literal.value literal column value h e
