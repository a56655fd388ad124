-- ===== src/Wire/FrameTrip.antt =====
-- wire_protocol.cpp: a frame is read as it was written.
use minidb_cpp.Prelude.{
  ℕ, ◌+◌, ◌^◌, ◌<◌, ◌≡◌, refl, sym, ap, ◌∙◌, true, false, not, List, ◌++◌, ok, some, ltb, ◌==◌,
  length, arith, length-append, ==_iff, refused-ok, take-append_here, drop-append_here, bind-ok,
  ok-injective,
}
use minidb_cpp.Schema.Names.{not-false}
use minidb_cpp.Wire.{max_frame_payload}
use minidb_cpp.Wire.Frames.{
  Frame, FrameHeader, RawHeader, MessageType, message_code, known_message_type, protocol_magic,
  protocol_version, frame_header_size, write_header, read_raw_header, check_header,
  encode_frame_header, decode_frame_header, encode_frame, decode_frame, hello, execute_sql,
  hello_ack, command_result_type, select_result_type, error_response_type,
}
use minidb_cpp.Wire.Sends.{Sends, Reads-returns, Sends-length, Sends-bind, Sends-then, Sends-run}
use minidb_cpp.Wire.Numbers.{Sends-big, Sends-big16, Sends-raw}

message_code-known : (t : MessageType) → known_message_type (message_code t) ≡ some t
unfolding known_message_type message_code
message_code-known hello = refl
message_code-known execute_sql = refl
message_code-known hello_ack = refl
message_code-known command_result_type = refl
message_code-known select_result_type = refl
message_code-known error_response_type = refl

message_code-lt : (t : MessageType) → message_code t < 2 ^ 16
unfolding message_code
message_code-lt hello = omega arith
message_code-lt execute_sql = omega arith
message_code-lt hello_ack = omega arith
message_code-lt command_result_type = omega arith
message_code-lt select_result_type = omega arith
message_code-lt error_response_type = omega arith

abbrev raw_of : FrameHeader → RawHeader
raw_of h = record {
  magic = protocol_magic;
  version = protocol_version;
  raw_type = message_code h.message_type;
  request_id = h.request_id;
  payload_length = h.payload_length;
  reserved = 0;
}

Sends-header :
    (h : FrameHeader)
    → h.request_id < 2 ^ 64
    → h.payload_length < 2 ^ 32
    → Sends 24 (write_header h) read_raw_header (raw_of h)
unfolding write_header read_raw_header
Sends-header h i p = Sends-bind 4 20 _ _ _ _ protocol_magic (raw_of h) (Sends-raw protocol_magic) (
    Sends-bind 2 18 _ _ _ _ protocol_version (raw_of h) (Sends-big16 protocol_version (omega arith))
      (Sends-bind 2 16 _ _ _ _ (message_code h.message_type) (raw_of h)
        (Sends-big16 (message_code h.message_type) (message_code-lt h.message_type))
        (Sends-bind 8 8 _ _ _ _ h.request_id (raw_of h) (Sends-big 8 h.request_id i) (
          Sends-bind 4 4 _ _ _ _ h.payload_length (raw_of h) (Sends-big 4 h.payload_length p) (
            Sends-then 4 _ _ _ 0 (raw_of h) (Sends-big 4 0 (omega arith))
              (Reads-returns (raw_of h)))))))

length-encode_frame_header :
    (h : FrameHeader) (bytes : List ℕ)
    → h.request_id < 2 ^ 64
    → encode_frame_header h ≡ ok bytes
    → length bytes ≡ 24
unfolding encode_frame_header
length-encode_frame_header h bytes i e =
    let (small, wrote) = refused-ok (ltb max_frame_payload h.payload_length) _ _ bytes e in
    Sends-length 24 frame_header_size (write_header h) read_raw_header (raw_of h) bytes
      (Sends-header h i (ground (arith, small))) wrote

-- A header is read as it was written.
decode_frame_header-encode_frame_header :
    (h : FrameHeader) (bytes : List ℕ)
    → h.request_id < 2 ^ 64
    → encode_frame_header h ≡ ok bytes
    → decode_frame_header bytes ≡ ok h
unfolding encode_frame_header decode_frame_header check_header
decode_frame_header-encode_frame_header h bytes i e =
    let (small, wrote) = refused-ok (ltb max_frame_payload h.payload_length) _ _ bytes e in
    let sends = Sends-header h i (ground (arith, small)) in
    rw
      (
        length-encode_frame_header h bytes i e,
        Sends-run 24 frame_header_size (write_header h) read_raw_header (raw_of h) bytes sends
            wrote,
        message_code-known h.message_type,
        small,
      )
      refl

-- A frame whose request id is one of 64 bits, and whose encoding does not throw, is decoded from the
-- bytes of its encoding as it was.
pub decode_frame-encode_frame :
    (f : Frame) (bytes : List ℕ)
    → f.header.request_id < 2 ^ 64
    → encode_frame f ≡ ok bytes
    → decode_frame bytes ≡ ok f
unfolding encode_frame decode_frame
decode_frame-encode_frame f bytes i e =
    let (sized, e1) = refused-ok (not (length f.payload == f.header.payload_length)) _ _ bytes e in
    let (head, e2, e3) =
      bind-ok (encode_frame_header f.header) (λ b. ok (b ++ f.payload)) bytes e1 in
    let same = ok-injective (head ++ f.payload) bytes e3 in
    let long = length-encode_frame_header f.header head i e2 in
    ap (λ (b : List ℕ). decode_frame b) (sym same)
    ∙ read head e2 long ((==_iff (length f.payload) f.header.payload_length).0 (not-false _ sized))
  where
    read :
        (head : List ℕ)
        → encode_frame_header f.header ≡ ok head
        → length head ≡ 24
        → length f.payload ≡ f.header.payload_length
        → decode_frame (head ++ f.payload) ≡ ok f
    read head e2 long sized =
        rw
          (
            long_enough,
            take-append_here 24 head f.payload long,
            decode_frame_header-encode_frame_header f.header head i e2,
            whole,
            drop-append_here 24 head f.payload long,
          )
          refl
      where
        long_enough : ltb (length (head ++ f.payload)) frame_header_size ≡ false
        long_enough = ground (arith, length-append head f.payload, long)

        whole : length (head ++ f.payload) == 24 + f.header.payload_length ≡ true
        whole = (==_iff _ _).1 (omega (arith, length-append head f.payload, long, sized))
