-- ===== src/Wire/Results.antt =====
-- src/wire_protocol.cpp: the frame of a statement's result.
use minidb_cpp.Prelude.{ℕ, not, List, Result, ok, err, ◌==◌, if◌then◌else◌, length}
use minidb_cpp.Sql.Outcome.{QueryResult, command_result, select_result}
use minidb_cpp.Wire.{ProtocolError, plain_error, payload_length, not_a_result}
use minidb_cpp.Wire.Frames.{
  Frame, MessageType, command_result_type, select_result_type, frame_with, and_then, error_of,
}
use minidb_cpp.Wire.Commands.{encode_command_result_payload, decode_command_result_payload}
use minidb_cpp.Wire.Rows.{encode_select_result_payload, decode_select_result_payload}

unfoldable pub encode_query_result_frame : ℕ → QueryResult → Result ProtocolError Frame
encode_query_result_frame id (command_result result) =
    and_then (encode_command_result_payload result)
      (λ payload. ok (frame_with command_result_type id payload))
encode_query_result_frame id (select_result result) =
    and_then (encode_select_result_payload result)
      (λ payload. ok (frame_with select_result_type id payload))

unfoldable pub decode_result_payload : MessageType → ℕ → List ℕ → Result ProtocolError QueryResult
decode_result_payload command_result_type id payload =
    and_then (decode_command_result_payload payload) (λ result. ok (command_result result))
decode_result_payload select_result_type id payload =
    and_then (decode_select_result_payload payload) (λ result. ok (select_result result))
decode_result_payload _ id payload = err (error_of not_a_result id)

unfoldable pub decode_query_result_frame : Frame → Result ProtocolError QueryResult
decode_query_result_frame f =
    if not (length f.payload == f.header.payload_length)
    then err (plain_error payload_length)
    else decode_result_payload f.header.message_type f.header.request_id f.payload
