-- ===== src/Sql/Literal.antt =====
-- src/sql_semantics.cpp: the conversion of a literal to a value of a column. The message of an error
-- is its kind and a constructor.
pub mod Magnitude
pub mod Convert
mod Tests
use minidb_cpp.Prelude.{
  ℕ, zero, suc, ◌+◌, ◌-◌, ◌*◌, ◌/◌, ◌^◌, ◌%◌, Bool, true, false, not, List, [], ◌∷◌, Result, ok,
  err, ◌>>=◌, ◌>>◌, throw_if, ltb, ◌==◌, if◌then◌else◌, length,
}
use minidb_cpp.Prelude.Int.{ℤ, pos, negsuc, of_bits}
use minidb_cpp.Schema.{
  ColumnDefinition, DataType, Value, uint32, int64, boolean, varchar, null, uint32_value,
  int64_value, bool_value, string_value, type_eq,
}
use minidb_cpp.Sql.Source.{SourceSpan}

-- NullLiteral, BooleanLiteral, IntegerLiteral and StringLiteral.
pub data LiteralValue : Type 0 where
  null_literal : LiteralValue
  boolean_literal : Bool → LiteralValue
  integer_literal : (negative : Bool) → (magnitude : List ℕ) → LiteralValue
  string_literal : List ℕ → LiteralValue

pub record SqlLiteral : Type 0 where
  pub span : SourceSpan
  pub value : LiteralValue

pub data SqlExecutionErrorKind : Type 0 where
  semantic constraint execution : SqlExecutionErrorKind

pub data Message : Type 0 where
  out_of_range cannot_be_null incompatible exceeds_varchar negative_uint32 : Message

pub record SqlExecutionError : Type 0 where
  pub kind : SqlExecutionErrorKind
  pub message : Message
  pub span : SourceSpan

-- `digit - '0'` in the 64 bits of std::uint64_t; the char `digit` is signed, so a byte from 128 on
-- stands for itself less 256.
abbrev pub component_of : ℕ → ℕ
component_of digit =
    if ltb digit 128
    then (2 ^ 64 + digit - b'0') % 2 ^ 64
    else (2 ^ 64 + digit - 256 - b'0') % 2 ^ 64

-- `(maximum - component) / 10` in 64 bits.
abbrev pub threshold : ℕ → ℕ → ℕ
threshold maximum component = (2 ^ 64 + maximum - component) % 2 ^ 64 / 10

-- One round of the loop, and the loop from `value` on.
unfoldable pub accumulate_from : ℕ → ℕ → List ℕ → SourceSpan → Result SqlExecutionError ℕ
accumulate_from value maximum [] span = ok value
accumulate_from value maximum (digit ∷ digits) span = do
  throw_if (ltb (threshold maximum (component_of digit)) value)
      (record { kind = constraint; message = out_of_range; span = span })
  accumulate_from ((value * 10 + component_of digit) % 2 ^ 64) maximum digits span

unfoldable pub accumulate_magnitude : List ℕ → ℕ → SqlLiteral → Result SqlExecutionError ℕ
accumulate_magnitude digits maximum literal = accumulate_from 0 maximum digits literal.span

abbrev pub positive_maximum : ℕ
positive_maximum = 2 ^ 63 - 1

abbrev pub negative_maximum : ℕ
negative_maximum = positive_maximum + 1

-- The minus of std::int64_t.
abbrev pub negated : ℤ → ℤ
negated (pos zero) = pos 0
negated (pos (suc n)) = negsuc n
negated (negsuc n) = pos (suc n)

unfoldable pub signed_value : Bool → ℕ → ℤ
signed_value negative magnitude =
    if not negative
    then of_bits magnitude
    else (if magnitude == negative_maximum
        then negsuc positive_maximum
        else negated (of_bits magnitude))

unfoldable pub convert_integer :
    Bool → List ℕ → SqlLiteral → DataType → Result SqlExecutionError Value
convert_integer negative magnitude literal uint32 = do
  throw_if negative (record { kind = constraint; message = negative_uint32; span = literal.span })
  value ← accumulate_magnitude magnitude (2 ^ 32 - 1) literal
  ok (uint32_value (value % 2 ^ 32))
convert_integer negative magnitude literal int64 = do
  value ←
      accumulate_magnitude magnitude (if negative then negative_maximum else positive_maximum)
        literal
  ok (int64_value (signed_value negative value))
convert_integer negative magnitude literal _ =
    err (record { kind = semantic; message = incompatible; span = literal.span })

-- convertLiteral, by the alternative of the variant that the literal holds.
unfoldable pub convert_value :
    LiteralValue → SqlLiteral → ColumnDefinition → Result SqlExecutionError Value
convert_value null_literal literal column = do
  throw_if (not column.nullable)
      (record { kind = constraint; message = cannot_be_null; span = literal.span })
  ok null
convert_value (boolean_literal b) literal column = do
  throw_if (not (type_eq column.type boolean))
      (record { kind = semantic; message = incompatible; span = literal.span })
  ok (bool_value b)
convert_value (string_literal s) literal column = do
  throw_if (not (type_eq column.type varchar))
      (record { kind = semantic; message = incompatible; span = literal.span })
  throw_if (ltb column.varchar_max_bytes (length s))
      (record { kind = constraint; message = exceeds_varchar; span = literal.span })
  ok (string_value s)
convert_value (integer_literal negative magnitude) literal column =
    convert_integer negative magnitude literal column.type

abbrev pub convert_literal : SqlLiteral → ColumnDefinition → Result SqlExecutionError Value
convert_literal literal column = convert_value literal.value literal column
