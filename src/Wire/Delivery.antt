-- ===== src/Wire/Delivery.antt =====
-- wire_protocol.cpp: what is put in a frame arrives, through the bytes of the frame.
use minidb_cpp.Prelude.{
  ℕ, ◌+◌, ◌^◌, ◌%◌, ◌≤◌, ◌<◌, ◌≡◌, refl, sym, true, false, Option, none, some, List, ◌++◌, ok, ltb,
  ◌==◌, ==_iff, length, arith, bind-ok, ok-injective, refused-ok,
}
use minidb_cpp.Sql.Outcome.{
  RecordId, CommandResult, SelectResult, QueryResult, command_result, select_result,
}
use minidb_cpp.Sql.Source.{SourceSpan}
use minidb_cpp.Wire.{max_frame_payload, max_sql_bytes}
use minidb_cpp.Wire.Frames.{
  Frame, FrameHeader, MessageType, execute_sql, command_result_type, select_result_type,
  error_response_type, protocol_magic, protocol_version, message_code, frame_header_size,
  write_header, encode_frame_header, encode_frame, decode_frame, frame_with, and_then,
  make_execute_sql_frame, decode_execute_sql_payload,
}
use minidb_cpp.Wire.Commands.{write_command, encode_command_result_payload}
use minidb_cpp.Wire.Rows.{write_select, encode_select_result_payload}
use minidb_cpp.Wire.Results.{
  encode_query_result_frame, decode_query_result_frame, decode_result_payload,
}
use minidb_cpp.Wire.Errors.{
  ErrorResponse, is_bad_optional_span, is_bad_span, write_error, encode_error_response_payload,
  decode_error_response_payload, make_error_frame,
}
use minidb_cpp.Wire.Fits.{Fits, Fits-bind, Fits-big, Fits-raw, Fits-run, Bounded-run}
use minidb_cpp.Wire.Payloads.{
  ValidOptionalId, LocationsFit, SpanOrdered, IsWireString, SelectFits, select_size, Fits-command,
  Bounded-command, Fits-error, Fits-select, Bounded-select,
}
use minidb_cpp.Wire.FrameTrip.{decode_frame-encode_frame}
use minidb_cpp.Wire.ResultTrip.{CommandInRange, optional_id_size, decode_command-encode_command}
use minidb_cpp.Wire.RowTrip.{SelectInRange, has_bad_counts, decode_select-encode_select}
use minidb_cpp.Wire.ErrorTrip.{SpanInRange, span_size, decode_error-encode_error}
use native.Mathlib.Nat.{mod-eq_of_lt}

Fits-header : (h : FrameHeader) → Fits 24 (write_header h)
unfolding write_header
Fits-header h = Fits-bind 4 20 _ _ (Fits-raw protocol_magic) (
    Fits-bind 2 18 _ _ (Fits-big 2 protocol_version) (
      Fits-bind 2 16 _ _ (Fits-big 2 (message_code h.message_type)) (
        Fits-bind 8 8 _ _ (Fits-big 8 h.request_id)
          (Fits-bind 4 4 _ _ (Fits-big 4 h.payload_length) (Fits-big 4 0)))))

encode_frame-returns :
    (f : Frame)
    → length f.payload ≡ f.header.payload_length
    → f.header.payload_length ≤ max_frame_payload
    → (bytes : List ℕ) × (encode_frame f ≡ ok bytes)
unfolding encode_frame encode_frame_header
encode_frame-returns f sized small =
    let (head, e, _) =
      Fits-run 24 frame_header_size (write_header f.header) (Fits-header f.header) (omega arith) in
    (head ++ f.payload, rw (exact, allowed, e) refl)
  where
    exact : length f.payload == f.header.payload_length ≡ true
    exact = (==_iff _ _).1 sized

    allowed : ltb max_frame_payload f.header.payload_length ≡ false
    allowed = ground (arith, small)

-- A frame whose header has the length of its payload, of 256 KiB at most, and a request id of 64 bits is
-- encoded without an exception, and decoded from these bytes as it was.
pub decode_frame-encode_frame_total :
    (f : Frame)
    → f.header.request_id < 2 ^ 64
    → length f.payload ≡ f.header.payload_length
    → f.header.payload_length ≤ max_frame_payload
    → (bytes : List ℕ) × (encode_frame f ≡ ok bytes) × (decode_frame bytes ≡ ok f)
decode_frame-encode_frame_total f i sized small =
    let (bytes, e) = encode_frame-returns f sized small in
    (bytes, e, decode_frame-encode_frame f bytes i e)

-- The frame of a payload, sent.
frame_with-sent :
    (type : MessageType) (id : ℕ) (payload : List ℕ)
    → id < 2 ^ 64
    → length payload ≤ max_frame_payload
    → (bytes : List ℕ) × (encode_frame (frame_with type id payload) ≡ ok bytes)
      × (decode_frame bytes ≡ ok (frame_with type id payload))
frame_with-sent type id payload i small =
    decode_frame-encode_frame_total (frame_with type id payload) i (sym kept)
      (omega (arith, kept, small))
  where
    kept : length payload % 2 ^ 32 ≡ length payload
    kept = mod-eq_of_lt (omega (arith, small))

-- A SQL request of at most 64 KiB, under a request id of 64 bits, makes a frame, which is encoded
-- without an exception; the text is read back from these bytes as it was.
pub decode_execute_sql-encode_frame :
    (id : ℕ) (sql : List ℕ)
    → id < 2 ^ 64
    → length sql ≤ max_sql_bytes
    → (f : Frame) × (bytes : List ℕ) × (make_execute_sql_frame id sql ≡ ok f)
      × (encode_frame f ≡ ok bytes)
      × (and_then (decode_frame bytes) decode_execute_sql_payload ≡ ok sql)
unfolding make_execute_sql_frame decode_execute_sql_payload
decode_execute_sql-encode_frame id sql i small =
    let (bytes, e, d) = frame_with-sent execute_sql id sql i (omega (arith, small)) in
    (frame_with execute_sql id sql, bytes, rw allowed refl, e, rw (d, exact, allowed) refl)
  where
    allowed : ltb max_sql_bytes (length sql) ≡ false
    allowed = ground (arith, small)

    exact : length sql == length sql % 2 ^ 32 ≡ true
    exact = (==_iff _ _).1 (sym (mod-eq_of_lt (omega (arith, small))))

abbrev pub QueryInRange : QueryResult → Type 0
QueryInRange (command_result r) = CommandInRange r
QueryInRange (select_result r) = SelectInRange r

-- The payload is at most the maximum where its encoding does not throw.
length-command_payload :
    (r : CommandResult) (bytes : List ℕ)
    → encode_command_result_payload r ≡ ok bytes
    → length bytes ≤ max_frame_payload
unfolding encode_command_result_payload
length-command_payload r bytes e = Bounded-run _ (write_command r) bytes (Bounded-command r) e

length-select_payload :
    (r : SelectResult) (bytes : List ℕ)
    → encode_select_result_payload r ≡ ok bytes
    → length bytes ≤ max_frame_payload
unfolding encode_select_result_payload
length-select_payload r bytes e =
    Bounded-run _ (write_select r) bytes (Bounded-select r)
      (refused-ok (has_bad_counts r) _ _ bytes e).1

-- A payload in its frame, sent and read by a reader of its type.
result_frame-sent :
    (type : MessageType) (id : ℕ) (payload : List ℕ) (r : QueryResult)
    → id < 2 ^ 64
    → length payload ≤ max_frame_payload
    → decode_result_payload type id payload ≡ ok r
    → (bytes : List ℕ) × (encode_frame (frame_with type id payload) ≡ ok bytes)
      × (and_then (decode_frame bytes) decode_query_result_frame ≡ ok r)
unfolding decode_query_result_frame
result_frame-sent type id payload r i small e =
    let (bytes, sent, back) = frame_with-sent type id payload i small in
    (bytes, sent, rw (back, exact) e)
  where
    exact : length payload == length payload % 2 ^ 32 ≡ true
    exact = (==_iff _ _).1 (sym (mod-eq_of_lt (omega (arith, small))))

-- A result whose numbers hold what their C++ types hold, and which makes a frame under a request id of
-- 64 bits: the frame is encoded without an exception, and the result is read back from these bytes as it
-- was.
pub decode_query_result-encode_frame :
    (id : ℕ) (r : QueryResult) (f : Frame)
    → id < 2 ^ 64
    → QueryInRange r
    → encode_query_result_frame id r ≡ ok f
    → (bytes : List ℕ) × (encode_frame f ≡ ok bytes)
      × (and_then (decode_frame bytes) decode_query_result_frame ≡ ok r)
unfolding encode_query_result_frame decode_result_payload
decode_query_result-encode_frame id (command_result r) f i h e =
    let (payload, e1, e2) =
      bind-ok (encode_command_result_payload r) (λ p. ok (frame_with command_result_type id p)) f
        e in
    rw (← ok-injective (frame_with command_result_type id payload) f e2) (
      result_frame-sent command_result_type id payload (command_result r) i
        (length-command_payload r payload e1)
        (rw (decode_command-encode_command r payload h e1) refl))
decode_query_result-encode_frame id (select_result r) f i h e =
    let (payload, e1, e2) =
      bind-ok (encode_select_result_payload r) (λ p. ok (frame_with select_result_type id p)) f e in
    rw (← ok-injective (frame_with select_result_type id payload) f e2) (
      result_frame-sent select_result_type id payload (select_result r) i
        (length-select_payload r payload e1) (rw (decode_select-encode_select r payload h e1) refl))

-- What a frame asks of a result beyond the ranges of its numbers: a record id of a command is valid; a
-- query's result has at most 1024 columns and 65536 rows of the columns' number, a valid record id for
-- each row or none at all, strings of at most 64 KiB, and 256 KiB as a whole.
abbrev pub QueryFits : QueryResult → Type 0
QueryFits (command_result r) = ValidOptionalId r.inserted_record_id
QueryFits (select_result r) =
    SelectFits r × (has_bad_counts r ≡ false) × select_size r ≤ max_frame_payload

-- A result of this kind makes a frame without an exception, whatever the request id.
pub encode_query_result_frame-returns :
    (id : ℕ) (r : QueryResult) → QueryFits r → (f : Frame) × (encode_query_result_frame id r ≡ ok f)
unfolding encode_query_result_frame encode_command_result_payload encode_select_result_payload
encode_query_result_frame-returns id (command_result r) h =
    let (payload, e, _) =
      Fits-run _ max_frame_payload (write_command r) (Fits-command r h)
        (small r.inserted_record_id) in
    (frame_with command_result_type id payload, rw e refl)
  where
    small : (o : Option RecordId) → 2 + (2 + (8 + (28 + optional_id_size o))) ≤ max_frame_payload
    small none = omega arith
    small (some o) = omega arith
encode_query_result_frame-returns id (select_result r) (h, good, small) =
    let (payload, e, _) = Fits-run _ max_frame_payload (write_select r) (Fits-select r h) small in
    (frame_with select_result_type id payload, rw (good, e) refl)

SpanOrdered-good : (o : Option SourceSpan) → SpanOrdered o → is_bad_optional_span o ≡ false
unfolding is_bad_span
SpanOrdered-good none h = refl
SpanOrdered-good (some s) h = ground (arith, h)

-- An error response whose message is of at most 64 KiB, and whose source span, if any, is one of lines
-- and columns from 1 that hold in 32 bits and of offsets of 64 bits, where the end is no less than the
-- begin, makes a frame under a request id of 64 bits, which is encoded without an exception; the response
-- is decoded from the payload of these bytes as it was.
pub decode_error-encode_frame :
    (id : ℕ) (r : ErrorResponse)
    → id < 2 ^ 64
    → IsWireString r.message
    → SpanInRange r.span
    → LocationsFit r.span
    → SpanOrdered r.span
    → (f : Frame) × (bytes : List ℕ) × (make_error_frame id r ≡ ok f)
      × (encode_frame f ≡ ok bytes)
      × (and_then (decode_frame bytes) (λ g. decode_error_response_payload g.payload) ≡ ok r)
unfolding make_error_frame encode_error_response_payload
decode_error-encode_frame id r k m i l ordered =
    let valid = SpanOrdered-good r.span ordered in
    let (payload, e, long) =
      Fits-run _ max_frame_payload (write_error r) (Fits-error r l m) (small r.span m) in
    let returned : encode_error_response_payload r ≡ ok payload = rw valid e in
    let (bytes, sent, back) =
      frame_with-sent error_response_type id payload k (rw long (small r.span m)) in
    (
      frame_with error_response_type id payload,
      bytes,
      rw (valid, e) refl,
      sent,
      rw back (decode_error-encode_error r payload i returned),
    )
  where
    small :
        (o : Option SourceSpan)
        → IsWireString r.message
        → 2 + (2 + (4 + length r.message + span_size o)) ≤ max_frame_payload
    small none m = omega arith
    small (some s) m = omega arith
