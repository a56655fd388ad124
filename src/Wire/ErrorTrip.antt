-- ===== src/Wire/ErrorTrip.antt =====
-- wire_protocol.cpp: an error response is read as it was written.
use minidb_cpp.Prelude.{
  ℕ, ◌+◌, ◌-◌, ◌^◌, ◌<◌, ◌≡◌, refl, Bool, false, Option, none, some, List, ok, ltb, length, arith,
  refused-ok, [],
}
use minidb_cpp.Sql.Source.{SourceSpan}
use minidb_cpp.Wire.{
  plain_error, read_big, max_frame_payload, unknown_flags, bad_span, location_out_of_range,
}
use minidb_cpp.Wire.Commands.{flag_of, is_some}
use minidb_cpp.Wire.Errors.{
  ErrorCategory, protocol, lexer, parser, semantic, constraint, execution, internal, ErrorResponse,
  category_code, known_error_category, is_bad_span, is_bad_optional_span, write_location,
  write_span, write_error, encode_error_response_payload, read_span, read_optional_span, read_error,
  decode_error_response_payload,
}
use minidb_cpp.Wire.Sends.{
  Sends, Reads-returns, Reads-passes, Sends-bind, Sends-then, Sends-checked, Sends-passes,
  Sends-nothing, Sends-run,
}
use minidb_cpp.Wire.Numbers.{Sends-big, Sends-big16, Sends-string}
use minidb_cpp.Wire.ResultTrip.{Sends-expect, flag-known, flag-lt}

-- The offsets hold what std::size_t holds. Lines and columns are checked by the encoder.
abbrev pub SpanInRange : Option SourceSpan → Type 0
SpanInRange none = Unit
SpanInRange (some s) = s.begin.offset < 2 ^ 64 × s.end.offset < 2 ^ 64

category_code-known : (c : ErrorCategory) → known_error_category (category_code c) ≡ some c
unfolding category_code known_error_category
category_code-known protocol = refl
category_code-known lexer = refl
category_code-known parser = refl
category_code-known semantic = refl
category_code-known constraint = refl
category_code-known execution = refl
category_code-known internal = refl

category_code-lt : (c : ErrorCategory) → category_code c < 2 ^ 16
unfolding category_code
category_code-lt protocol = omega arith
category_code-lt lexer = omega arith
category_code-lt parser = omega arith
category_code-lt semantic = omega arith
category_code-lt constraint = omega arith
category_code-lt execution = omega arith
category_code-lt internal = omega arith

Sends-location : (n : ℕ) → Sends 4 (write_location n) (read_big 4) n
unfolding write_location
Sends-location n =
    Sends-checked 4 (ltb (2 ^ 32 - 1) n) (plain_error location_out_of_range) _ _ n
      (λ small. Sends-big 4 n (ground (arith, small)))

abbrev pub span_size : Option SourceSpan → ℕ
span_size none = 0
span_size (some s) = 32

Sends-present_span :
    (s : SourceSpan)
    → SpanInRange (some s)
    → is_bad_span s ≡ false
    → Sends 32 (write_span (some s)) read_span s
unfolding write_span read_span
Sends-present_span s (i, j) h =
    Sends-bind 8 24 _ _ _ _ s.begin.offset s (Sends-big 8 s.begin.offset i) (
      Sends-bind 8 16 _ _ _ _ s.end.offset s (Sends-big 8 s.end.offset j) (
        Sends-bind 4 12 _ _ _ _ s.begin.line s (Sends-location s.begin.line) (
          Sends-bind 4 8 _ _ _ _ s.begin.column s (Sends-location s.begin.column) (
            Sends-bind 4 4 _ _ _ _ s.end.line s (Sends-location s.end.line) (
              Sends-then 4 _ _ _ s.end.column s (Sends-location s.end.column) (
                Reads-passes (is_bad_span s) (plain_error bad_span) _ s [] h (Reads-returns s)))))))

Sends-span :
    (o : Option SourceSpan)
    → SpanInRange o
    → is_bad_optional_span o ≡ false
    → Sends (span_size o) (write_span o) (read_optional_span (is_some o)) o
unfolding read_optional_span write_span
Sends-span none i h = Sends-nothing none
Sends-span (some s) i h =
    Sends-then 32 _ _ _ s (some s) (Sends-present_span s i h) (Reads-returns (some s))

Sends-error :
    (r : ErrorResponse)
    → SpanInRange r.span
    → is_bad_optional_span r.span ≡ false
    → Sends (2 + (2 + (4 + length r.message + span_size r.span))) (write_error r) read_error r
unfolding write_error read_error
Sends-error r i h =
    Sends-bind 2 _ _ _ _ _ (category_code r.category) r
      (Sends-big16 (category_code r.category) (category_code-lt r.category))
      (Sends-bind 2 _ _ _ _ _ (flag_of present) r (Sends-big16 (flag_of present) (flag-lt present))
        (Sends-expect _ _ _ _ r.category _ r (category_code-known r.category) (
          Sends-passes _ _ _ (plain_error unknown_flags) _ r (flag-known present).0 (
            Sends-bind (4 + length r.message) _ _ _ _ _ r.message r (Sends-string r.message) (
              Sends-then _ _ _ _ r.span r (rw (flag-known present).2 (Sends-span r.span i h))
                (Reads-returns r))))))
  where
    present : Bool
    present = is_some r.span

-- An error response whose source offsets are numbers of 64 bits, and whose encoding does not throw, is
-- decoded from the bytes of its encoding as it was.
pub decode_error-encode_error :
    (r : ErrorResponse) (bytes : List ℕ)
    → SpanInRange r.span
    → encode_error_response_payload r ≡ ok bytes
    → decode_error_response_payload bytes ≡ ok r
unfolding encode_error_response_payload decode_error_response_payload
decode_error-encode_error r bytes h e =
    let (valid, wrote) = refused-ok (is_bad_optional_span r.span) _ _ bytes e in
    Sends-run _ max_frame_payload (write_error r) read_error r bytes (Sends-error r h valid) wrote
