-- ===== src/Wire/Tests.antt =====
-- wire_protocol.cpp on a small query's result, a request and an error.
use minidb_cpp.Prelude.{ℕ, ◌≡◌, refl, true, some, List, [], ◌∷◌, Result, ok, err, length, arith}
use minidb_cpp.Prelude.Int.{negsuc}
use minidb_cpp.Schema.{uint32_value, int64_value, bool_value, string_value}
use minidb_cpp.Sql.Outcome.{RecordId, heap_scan, QueryResult, select_result, is_valid_record_id}
use minidb_cpp.Wire.{
  plain_error, truncated, run_writer, run_reader, ProtocolError, write_string, write_raw, write_big,
  write_byte, push_big, require_room, require_bytes, read_byte, read_big, ◌>>=◌, bad_value_tag,
}
use minidb_cpp.Wire.Frames.{
  Frame, execute_sql, encode_frame, decode_frame, make_execute_sql_frame, and_then,
  decode_execute_sql_payload,
}
use minidb_cpp.Wire.Commands.{
  encode_stats, encode_access_path, encode_record_id, decode_tagged, encode_value, decode_value,
}
use minidb_cpp.Wire.Rows.{
  encode_select_result_payload, write_select, write_columns, write_rows, write_row_id, write_values,
}
use minidb_cpp.Wire.Results.{encode_query_result_frame, decode_query_result_frame}
use minidb_cpp.Wire.Errors.{
  ErrorResponse, semantic, make_error_frame, decode_error_response_payload,
}
use minidb_cpp.Wire.RowTrip.{columns_size, values_size, row_id_size, rows_size}
use minidb_cpp.Wire.ResultTrip.{value_size}
use minidb_cpp.Wire.Delivery.{
  decode_frame-encode_frame_total, decode_execute_sql-encode_frame,
  decode_query_result-encode_frame, encode_query_result_frame-returns, decode_error-encode_frame,
  QueryFits, QueryInRange,
}

abbrev small_frame : Frame
small_frame = record {
  header = record { message_type = execute_sql; request_id = 7; payload_length = 2 };
  payload = b'H' ∷ b'I' ∷ [];
}

decode_frame-encode_frame_example :
    (bytes : List ℕ) × (encode_frame small_frame ≡ ok bytes) × (decode_frame bytes ≡ ok small_frame)
decode_frame-encode_frame_example =
    decode_frame-encode_frame_total small_frame (omega arith) refl (omega arith)

decode_execute_sql_example :
    (f : Frame) × (bytes : List ℕ) × (make_execute_sql_frame 7 (b'H' ∷ b'I' ∷ []) ≡ ok f)
    × (encode_frame f ≡ ok bytes)
    × (and_then (decode_frame bytes) decode_execute_sql_payload ≡ ok (b'H' ∷ b'I' ∷ []))
decode_execute_sql_example =
    decode_execute_sql-encode_frame 7 (b'H' ∷ b'I' ∷ []) (omega arith) (omega arith)

abbrev first_row : RecordId
first_row = record { page_id = 4; slot_id = 0 }

abbrev two_rows : QueryResult
two_rows = select_result (record {
  columns = (b'i' ∷ b'd' ∷ []) ∷ (b'n' ∷ []) ∷ [];
  rows =
      (uint32_value 1 ∷ string_value (b'a' ∷ []) ∷ [])
      ∷ (int64_value (negsuc 0) ∷ bool_value true ∷ [])
      ∷ [];
  record_ids = first_row ∷ record { page_id = 4; slot_id = 1 } ∷ [];
  stats = record {
    access_path = heap_scan;
    rows_examined = 2;
    rows_returned = 2;
    index_lookups = 0;
  };
})

two_rows-Fits : QueryFits two_rows
unfolding columns_size values_size row_id_size rows_size value_size is_valid_record_id
two_rows-Fits = (
  (
    (omega arith, (omega arith, tt)),
    (refl, (refl, tt)),
    ((refl, (tt, (omega arith, tt))), ((refl, (tt, (tt, tt))), tt)),
  ),
  refl,
  omega arith,
)

two_rows-InRange : QueryInRange two_rows
two_rows-InRange = (
  (omega arith, omega arith, omega arith),
  ((omega arith, omega arith), ((omega arith, omega arith), tt)),
  ((omega arith, (tt, tt)), ((omega arith, (tt, tt)), tt)),
)

encode_query_result_frame_example : (f : Frame) × (encode_query_result_frame 9 two_rows ≡ ok f)
encode_query_result_frame_example = encode_query_result_frame-returns 9 two_rows two_rows-Fits

abbrev frame_of : Result ProtocolError Frame → Frame
frame_of (ok f) = f
frame_of (err e) = small_frame

abbrev two_rows_frame : Frame
two_rows_frame = frame_of (encode_query_result_frame 9 two_rows)

two_rows_frame-made : encode_query_result_frame 9 two_rows ≡ ok two_rows_frame
unfolding encode_query_result_frame encode_select_result_payload write_select run_writer
    encode_stats encode_access_path write_columns write_rows write_row_id write_values encode_value
    encode_record_id is_valid_record_id write_string write_raw write_big write_byte push_big
    require_room ◌>>=◌
two_rows_frame-made = refl

two_rows_payload : length two_rows_frame.payload ≡ 101
unfolding encode_query_result_frame encode_select_result_payload write_select run_writer
    encode_stats encode_access_path write_columns write_rows write_row_id write_values encode_value
    encode_record_id is_valid_record_id write_string write_raw write_big write_byte push_big
    require_room ◌>>=◌
two_rows_payload = refl

decode_query_result_example :
    (bytes : List ℕ) × (encode_frame two_rows_frame ≡ ok bytes)
    × (and_then (decode_frame bytes) decode_query_result_frame ≡ ok two_rows)
decode_query_result_example =
    decode_query_result-encode_frame 9 two_rows two_rows_frame (omega arith) two_rows-InRange
      two_rows_frame-made

abbrev unknown_table : ErrorResponse
unknown_table = record {
  category = semantic;
  message = b'n' ∷ b'o' ∷ [];
  span = some (record {
    begin = record { offset = 14; line = 1; column = 15 };
    end = record { offset = 14; line = 1; column = 15 };
  });
}

decode_error_example :
    (f : Frame) × (bytes : List ℕ) × (make_error_frame 9 unknown_table ≡ ok f)
    × (encode_frame f ≡ ok bytes)
    × (and_then (decode_frame bytes) (λ g. decode_error_response_payload g.payload)
        ≡ ok unknown_table)
decode_error_example =
    decode_error-encode_frame 9 unknown_table (omega arith) (omega arith) (omega arith, omega arith)
      (omega arith, omega arith, omega arith, omega arith)
      (omega arith, omega arith, omega arith, omega arith, omega arith)

unknown_tag : run_reader (9 ∷ []) decode_value ≡ err (plain_error bad_value_tag)
unfolding run_reader decode_value decode_tagged read_byte require_bytes ◌>>=◌
unknown_tag = refl

short_value : run_reader (1 ∷ 0 ∷ 0 ∷ []) decode_value ≡ err (plain_error truncated)
unfolding run_reader decode_value decode_tagged read_byte read_big require_bytes ◌>>=◌
short_value = refl
