-- ===== src/Sql/Literal/Tests.antt =====
-- sql_semantics.cpp on literals at the edges of their types.
use minidb_cpp.Prelude.{
  ℕ, ◌-◌, ◌^◌, ◌≡◌, refl, Bool, true, false, List, [], ◌∷◌, ok, err, if◌then◌else◌, leb, All, arith,
}
use minidb_cpp.Prelude.Int.{negsuc}
use minidb_cpp.Schema.{ColumnDefinition, int64, int64_value}
use minidb_cpp.Sql.Source.{SourceLocation}
use minidb_cpp.Sql.Literal.{
  SqlLiteral, integer_literal, constraint, out_of_range, accumulate_magnitude, accumulate_from,
  convert_literal, convert_value, convert_integer, signed_value,
}
use minidb_cpp.Sql.Literal.Magnitude.{IsDigit, accumulate_magnitude-decimal, decimal_from}
use minidb_cpp.Sql.Literal.Convert.{
  convert_integer-exact, convert_literal-Fits, InRange, integer_value,
}
use minidb_cpp.Schema.Values.{Fits}

abbrev origin : SourceLocation
origin = record { offset = 0; line = 1; column = 1 }

-- 4294967296 is one too many for UINT32.
abbrev too_many : List ℕ
too_many = b'4' ∷ b'2' ∷ b'9' ∷ b'4' ∷ b'9' ∷ b'6' ∷ b'7' ∷ b'2' ∷ b'9' ∷ b'6' ∷ []

abbrev big : Bool → SqlLiteral
big negative = record {
  span = record { begin = origin; end = origin };
  value = integer_literal negative too_many;
}

abbrev total : ColumnDefinition
total = record {
  name = b't' ∷ [];
  type = int64;
  nullable = false;
  primary_key = false;
  varchar_max_bytes = 0;
}

big_negative : convert_literal (big true) total ≡ ok (int64_value (negsuc (2 ^ 32 - 1)))
unfolding convert_value convert_integer accumulate_magnitude accumulate_from signed_value
big_negative = refl

abbrev small : List ℕ
small = b'4' ∷ b'2' ∷ []

small_digits : All IsDigit small
small_digits = ((omega arith, omega arith), ((omega arith, omega arith), tt))

abbrev minus : SqlLiteral
minus = record {
  span = record { begin = origin; end = origin };
  value = integer_literal true small;
}

minus_converted : convert_literal minus total ≡ ok (int64_value (negsuc 41))
unfolding convert_value convert_integer accumulate_magnitude accumulate_from signed_value
minus_converted = refl

accumulate_magnitude-decimal_example : accumulate_magnitude small 41 minus ≡ (
    if leb (decimal_from 0 small) 41
    then ok (decimal_from 0 small)
    else err (record { kind = constraint; message = out_of_range; span = minus.span }))
accumulate_magnitude-decimal_example =
    accumulate_magnitude-decimal small 41 minus (omega arith) (omega arith) small_digits

convert_integer-exact_example :
    convert_integer true small minus int64 ≡ integer_value true (decimal_from 0 small) minus int64
convert_integer-exact_example = convert_integer-exact true small minus int64 small_digits

convert_literal-Fits_example :
    Fits int64 0 false (int64_value (negsuc 41)) × InRange (int64_value (negsuc 41))
convert_literal-Fits_example =
    convert_literal-Fits minus total (int64_value (negsuc 41)) small_digits minus_converted
