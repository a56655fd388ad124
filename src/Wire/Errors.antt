-- ===== src/Wire/Errors.antt =====
-- src/wire_protocol.cpp: error responses.
use minidb_cpp.Prelude.{
  ℕ, ◌-◌, ◌^◌, Bool, true, false, ◌||◌, Option, none, some, List, Result, ok, ltb, ◌==◌,
  if◌then◌else◌, err,
}
use minidb_cpp.Prelude.Stateful.{returns, throw_when}
use minidb_cpp.Sql.Source.{SourceSpan}
use minidb_cpp.Wire.{
  ◌>>=◌, ◌>>◌, ProtocolError, Writes, ReadsA, plain_error, write_big, write_string, read_big,
  read_big16, read_string, finish_reading, run_writer, run_reader, max_frame_payload, bad_category,
  unknown_flags, bad_span, location_out_of_range,
}
use minidb_cpp.Wire.Frames.{Frame, error_response_type, frame_with, and_then}
use minidb_cpp.Wire.Commands.{flag_of, has_unknown_flags, is_present, expect, is_some}

pub data ErrorCategory : Type 0 where
  protocol lexer parser semantic constraint execution internal : ErrorCategory

pub record ErrorResponse : Type 0 where
  pub category : ErrorCategory
  pub message : List ℕ
  pub span : Option SourceSpan

unfoldable pub category_code : ErrorCategory → ℕ
category_code protocol = 1
category_code lexer = 2
category_code parser = 3
category_code semantic = 4
category_code constraint = 5
category_code execution = 6
category_code internal = 7

-- knownErrorCategory, and the cast of a known value.
unfoldable pub known_error_category : ℕ → Option ErrorCategory
known_error_category value =
    if value == 1
    then some protocol
    else (if value == 2
        then some lexer
        else (if value == 3
            then some parser
            else (if value == 4
                then some semantic
                else (if value == 5
                    then some constraint
                    else (if value == 6
                        then some execution
                        else (if value == 7 then some internal else none))))))

unfoldable pub is_bad_span : SourceSpan → Bool
is_bad_span span =
    span.begin.line == 0
    || span.begin.column == 0
    || span.end.line == 0
    || span.end.column == 0
    || ltb span.end.offset span.begin.offset

abbrev pub is_bad_optional_span : Option SourceSpan → Bool
is_bad_optional_span none = false
is_bad_optional_span (some span) = is_bad_span span

-- `writer.uint32(checkedLocation(value))`
unfoldable pub write_location : ℕ → Writes
write_location value = do
  throw_when (ltb (2 ^ 32 - 1) value) (plain_error location_out_of_range)
  write_big 4 value

-- The offsets are of 64 bits, so checkedOffset and decodeOffset have no test.
unfoldable pub write_span : Option SourceSpan → Writes
write_span none = returns tt
write_span (some span) = do
  write_big 8 span.begin.offset
  write_big 8 span.end.offset
  write_location span.begin.line
  write_location span.begin.column
  write_location span.end.line
  write_location span.end.column

unfoldable pub write_error : ErrorResponse → Writes
write_error error = do
  write_big 2 (category_code error.category)
  write_big 2 (flag_of (is_some error.span))
  write_string error.message
  write_span error.span

-- A value of the enumeration is one of its constructors here, so its test passes.
unfoldable pub encode_error_response_payload : ErrorResponse → Result ProtocolError (List ℕ)
encode_error_response_payload error =
    if is_bad_optional_span error.span
    then err (plain_error bad_span)
    else run_writer max_frame_payload (write_error error)

abbrev pub span_at : ℕ → ℕ → ℕ → ℕ → ℕ → ℕ → SourceSpan
span_at begin_offset end_offset begin_line begin_column end_line end_column = record {
  begin = record { offset = begin_offset; line = begin_line; column = begin_column };
  end = record { offset = end_offset; line = end_line; column = end_column };
}

unfoldable pub read_span : ReadsA SourceSpan
read_span = do
  begin_offset ← read_big 8
  end_offset ← read_big 8
  begin_line ← read_big 4
  begin_column ← read_big 4
  end_line ← read_big 4
  end_column ← read_big 4
  throw_when
      (is_bad_span (span_at begin_offset end_offset begin_line begin_column end_line end_column))
      (plain_error bad_span)
  returns (span_at begin_offset end_offset begin_line begin_column end_line end_column)

-- `if (present) { ...; result.span = ...; }`
unfoldable pub read_optional_span : Bool → ReadsA (Option SourceSpan)
read_optional_span false = returns none
read_optional_span true = read_span >>= λ span. returns (some span)

unfoldable pub read_error : ReadsA ErrorResponse
read_error = do
  code ← read_big16
  flags ← read_big16
  category ← expect (known_error_category code) bad_category
  throw_when (has_unknown_flags 16 flags) (plain_error unknown_flags)
  message ← read_string
  span ← read_optional_span (is_present flags)
  returns (record { category = category; message = message; span = span })

unfoldable pub decode_error_response_payload : List ℕ → Result ProtocolError ErrorResponse
decode_error_response_payload payload =
    run_reader payload (read_error >>= λ error. finish_reading >> returns error)

unfoldable pub make_error_frame : ℕ → ErrorResponse → Result ProtocolError Frame
make_error_frame id error =
    and_then (encode_error_response_payload error)
      (λ payload. ok (frame_with error_response_type id payload))
