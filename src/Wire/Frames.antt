-- ===== src/Wire/Frames.antt =====
-- src/wire_protocol.cpp: frames, their headers, and the requests.
use minidb_cpp.Prelude.{
  ℕ, ◌+◌, ◌^◌, ◌%◌, Bool, true, false, not, ◌||◌, Option, none, some, List, [], ◌∷◌, ◌++◌, Result,
  ok, err, ltb, ◌==◌, if◌then◌else◌, length, take, drop,
}
use minidb_cpp.Prelude.Texts.{text_eq}
use minidb_cpp.Prelude.Stateful.{returns}
use minidb_cpp.Prelude.Results as Results
use minidb_cpp.Wire.{
  ◌>>=◌, ◌>>◌, ProtocolError, WireMessage, Writes, ReadsA, plain_error, write_raw, write_big,
  read_bytes, read_big, read_big16, finish_reading, run_writer, run_reader, max_frame_payload,
  max_sql_bytes, unknown_message_type, payload_length, header_size, bad_magic, bad_version,
  bad_reserved, frame_size, sql_too_long, not_execute_sql,
}

pub data MessageType : Type 0 where
  hello execute_sql hello_ack command_result_type select_result_type error_response_type :
      MessageType

unfoldable pub message_code : MessageType → ℕ
message_code hello = 1
message_code execute_sql = 2
message_code hello_ack = 101
message_code command_result_type = 102
message_code select_result_type = 103
message_code error_response_type = 104

-- knownMessageType, and the cast of a known value.
unfoldable pub known_message_type : ℕ → Option MessageType
known_message_type value =
    if value == 1
    then some hello
    else (if value == 2
        then some execute_sql
        else (if value == 101
            then some hello_ack
            else (if value == 102
                then some command_result_type
                else (if value == 103
                    then some select_result_type
                    else (if value == 104 then some error_response_type else none)))))

pub record FrameHeader : Type 0 where
  pub message_type : MessageType
  pub request_id : ℕ
  pub payload_length : ℕ

pub record Frame : Type 0 where
  pub header : FrameHeader
  pub payload : List ℕ

abbrev pub protocol_magic : List ℕ
protocol_magic = b'M' ∷ b'D' ∷ b'B' ∷ b'P' ∷ []

abbrev pub protocol_version : ℕ
protocol_version = 1

abbrev pub frame_header_size : ℕ
frame_header_size = 24

abbrev pub error_of : WireMessage → ℕ → ProtocolError
error_of message id = record { message = message; request_id = some id }

unfoldable pub write_header : FrameHeader → Writes
write_header h = do
  write_raw protocol_magic
  write_big 2 protocol_version
  write_big 2 (message_code h.message_type)
  write_big 8 h.request_id
  write_big 4 h.payload_length
  write_big 4 0

-- A value of the enumeration is one of its constructors here, so its test passes.
unfoldable pub encode_frame_header : FrameHeader → Result ProtocolError (List ℕ)
encode_frame_header h =
    if ltb max_frame_payload h.payload_length
    then err (error_of payload_length h.request_id)
    else run_writer frame_header_size (write_header h)

-- The fields as decodeFrameHeader reads them.
pub record RawHeader : Type 0 where
  pub magic : List ℕ
  pub version : ℕ
  pub raw_type : ℕ
  pub request_id : ℕ
  pub payload_length : ℕ
  pub reserved : ℕ

unfoldable pub read_raw_header : ReadsA RawHeader
read_raw_header = do
  magic ← read_bytes 4
  version ← read_big16
  raw_type ← read_big16
  id ← read_big 8
  size ← read_big 4
  reserved ← read_big 4
  returns (record {
    magic = magic;
    version = version;
    raw_type = raw_type;
    request_id = id;
    payload_length = size;
    reserved = reserved;
  })

unfoldable pub check_header : RawHeader → Result ProtocolError FrameHeader
check_header h =
    if not (text_eq h.magic protocol_magic)
    then err (error_of bad_magic h.request_id)
    else (if not (h.version == protocol_version)
        then err (error_of bad_version h.request_id)
        else elim (known_message_type h.raw_type) [
          | none ↦ err (error_of unknown_message_type h.request_id)
          | some type ↦
              if ltb max_frame_payload h.payload_length
              then err (error_of payload_length h.request_id)
              else (if not (h.reserved == 0)
                  then err (error_of bad_reserved h.request_id)
                  else ok (record {
                    message_type = type;
                    request_id = h.request_id;
                    payload_length = h.payload_length;
                  }))
        ])

abbrev pub and_then :
    {A B : Type 0} → Result ProtocolError A → (A → Result ProtocolError B) → Result ProtocolError B
and_then r f = Results.◌>>=◌ r f

unfoldable pub decode_frame_header : List ℕ → Result ProtocolError FrameHeader
decode_frame_header bytes =
    if not (length bytes == frame_header_size)
    then err (plain_error header_size)
    else and_then (run_reader bytes (read_raw_header >>= λ h. finish_reading >> returns h))
        check_header

unfoldable pub encode_frame : Frame → Result ProtocolError (List ℕ)
encode_frame f =
    if not (length f.payload == f.header.payload_length)
    then err (plain_error payload_length)
    else and_then (encode_frame_header f.header) (λ bytes. ok (bytes ++ f.payload))

unfoldable pub decode_frame : List ℕ → Result ProtocolError Frame
decode_frame bytes =
    if ltb (length bytes) frame_header_size
    then err (plain_error frame_size)
    else and_then (decode_frame_header (take frame_header_size bytes)) (λ header.
      if not (length bytes == frame_header_size + header.payload_length)
      then err (error_of frame_size header.request_id)
      else ok (record { header = header; payload = drop frame_header_size bytes }))

abbrev pub frame_with : MessageType → ℕ → List ℕ → Frame
frame_with type id payload = record {
  header = record {
    message_type = type;
    request_id = id;
    payload_length = length payload % 2 ^ 32;
  };
  payload = payload;
}

unfoldable pub make_hello_frame : Frame
make_hello_frame = record {
  header = record { message_type = hello; request_id = 0; payload_length = 0 };
  payload = [];
}

unfoldable pub make_hello_ack_frame : Frame
make_hello_ack_frame = record {
  header = record { message_type = hello_ack; request_id = 0; payload_length = 0 };
  payload = [];
}

unfoldable pub make_execute_sql_frame : ℕ → List ℕ → Result ProtocolError Frame
make_execute_sql_frame id sql =
    if ltb max_sql_bytes (length sql)
    then err (error_of sql_too_long id)
    else ok (frame_with execute_sql id sql)

abbrev is_execute_sql : MessageType → Bool
is_execute_sql execute_sql = true
is_execute_sql _ = false

unfoldable pub decode_execute_sql_payload : Frame → Result ProtocolError (List ℕ)
decode_execute_sql_payload f =
    if not (is_execute_sql f.header.message_type)
      || not (length f.payload == f.header.payload_length)
    then err (error_of not_execute_sql f.header.request_id)
    else (if ltb max_sql_bytes (length f.payload)
        then err (error_of sql_too_long f.header.request_id)
        else ok f.payload)
