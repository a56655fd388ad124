-- ===== src/Wire.antt =====
-- src/wire_protocol.cpp and its header: the big-endian writer and reader of a payload. The messages
-- of ProtocolError are constructors; its optional request id is kept.
pub mod Frames
pub mod Commands
pub mod Rows
pub mod Results
pub mod Errors
pub mod Sends
pub mod Numbers
pub mod FrameTrip
pub mod ResultTrip
pub mod RowTrip
pub mod ErrorTrip
pub mod Fits
pub mod Payloads
pub mod Delivery
mod Tests
use minidb_cpp.Prelude.{
  ℕ, zero, suc, ◌+◌, ◌-◌, ◌*◌, ◌/◌, ◌%◌, ◌^◌, Bool, true, false, not, ◌||◌, Option, none, some,
  List, [], ◌∷◌, ◌++◌, Result, ok, err, bit_or, ltb, ◌==◌, if◌then◌else◌, length, get_or,
}
use minidb_cpp.Prelude.Stateful as Stateful
use minidb_cpp.Prelude.Stateful.{Method, returns, get_state, put_state, throw_when}

pub data WireMessage : Type 0 where
  payload_too_large string_too_long truncated trailing_bytes : WireMessage
  bad_command bad_access_path bad_reserved bad_record_id bad_boolean bad_value_tag : WireMessage
  location_out_of_range unknown_message_type payload_length : WireMessage
  header_size bad_magic bad_version frame_size : WireMessage
  sql_too_long not_execute_sql unknown_flags bad_counts row_width too_many_rows : WireMessage
  not_a_result bad_category bad_span : WireMessage

pub record ProtocolError : Type 0 where
  pub message : WireMessage
  pub request_id : Option ℕ

abbrev pub plain_error : WireMessage → ProtocolError
plain_error message = record { message = message; request_id = none }

pub record Writer : Type 0 where
  pub bytes : List ℕ
  pub maximum : ℕ

pub record Reader : Type 0 where
  pub bytes : List ℕ
  pub cursor : ℕ

abbrev pub Writes : Type 0
Writes = Method Writer ProtocolError (Unit {0})

abbrev pub ReadsA : Type 0 → Type 0
ReadsA A = Method Reader ProtocolError A

-- One step after the other, for a writer and for a reader.
infixl 5 ◌>>=◌ ◌>>◌
unfoldable pub ◌>>=◌ :
    {S A B : Type 0}
    → Method S ProtocolError A
    → (A → Method S ProtocolError B)
    → Method S ProtocolError B
m >>= f = Stateful.◌>>=◌ m f

abbrev pub ◌>>◌ :
    {S A B : Type 0}
    → Method S ProtocolError A
    → Method S ProtocolError B
    → Method S ProtocolError B
m >> k = m >>= λ _. k

abbrev pub max_frame_payload : ℕ
max_frame_payload = 256 * 1024

abbrev pub max_sql_bytes : ℕ
max_sql_bytes = 64 * 1024

abbrev pub max_wire_string_bytes : ℕ
max_wire_string_bytes = 64 * 1024

-- Writer::require; the bytes never exceed the maximum, so its difference does not wrap.
unfoldable pub require_room : ℕ → Writes
require_room count w =
    throw_when (ltb (w.maximum - length w.bytes) count) (plain_error payload_too_large) w

abbrev pub push_back : ℕ → Writer → Writer
push_back value w = record w { bytes = w.bytes ++ (value ∷ []) }

unfoldable pub write_byte : ℕ → Writes
write_byte value = do require_room 1; w ← get_state; put_state (push_back value w)

-- `for (shift = (rounds - 1) * 8; shift >= 0; shift -= 8) push_back((value >> shift) & 0xFF)`
unfoldable pub push_big : ℕ → ℕ → Writer → Writer
push_big zero value w = w
push_big (suc rounds) value w = push_big rounds value (push_back (value / 2 ^ (rounds * 8) % 256) w)

-- The scheme of Writer::uint16, uint32 and uint64.
unfoldable pub write_big : ℕ → ℕ → Writes
write_big width value = do require_room width; w ← get_state; put_state (push_big width value w)

unfoldable pub write_raw : List ℕ → Writes
write_raw bytes = do
  require_room (length bytes)
  w ← get_state
  put_state (record w { bytes = w.bytes ++ bytes })

unfoldable pub write_string : List ℕ → Writes
write_string value = do
  throw_when (ltb max_wire_string_bytes (length value) || ltb (2 ^ 32 - 1) (length value))
      (plain_error string_too_long)
  write_big 4 (length value)
  write_raw value

-- Reader::require; the cursor never exceeds the size.
unfoldable pub require_bytes : ℕ → ReadsA (Unit {0})
require_bytes count r = throw_when (ltb (length r.bytes - r.cursor) count) (plain_error truncated) r

-- `bytes_[cursor_++]`
abbrev pub next_byte : ReadsA ℕ
next_byte r = (record r { cursor = r.cursor + 1 }, ok (get_or r.bytes r.cursor 0))

unfoldable pub read_byte : ReadsA ℕ
read_byte = do require_bytes 1; next_byte

unfoldable pub read_big16 : ReadsA ℕ
read_big16 = do
  require_bytes 2
  high ← read_byte
  low ← read_byte
  returns (bit_or (high * 2 ^ 8) low % 2 ^ 16)

-- `for (...) value = (value << 8) | byte();` in an unsigned type of `width` bytes.
unfoldable pub read_big_loop : ℕ → ℕ → ℕ → ReadsA ℕ
read_big_loop width zero value = returns value
read_big_loop width (suc rounds) value = do
  next ← read_byte
  read_big_loop width rounds (bit_or (value * 2 ^ 8 % 2 ^ (width * 8)) next)

-- The scheme of Reader::uint32 and uint64.
unfoldable pub read_big : ℕ → ReadsA ℕ
read_big width = do require_bytes width; read_big_loop width width 0

-- `for (index = 0; index < size; ++index) value[index] = byte();`
unfoldable pub read_bytes : ℕ → ReadsA (List ℕ)
read_bytes zero = returns []
read_bytes (suc count) = do first ← read_byte; rest ← read_bytes count; returns (first ∷ rest)

unfoldable pub read_string : ReadsA (List ℕ)
read_string = do
  size ← read_big 4
  throw_when (ltb max_wire_string_bytes size) (plain_error string_too_long)
  require_bytes size
  read_bytes size

abbrev pub remaining_bytes : Reader → ℕ
remaining_bytes r = length r.bytes - r.cursor

unfoldable pub finish_reading : ReadsA (Unit {0})
finish_reading r = throw_when (not (r.cursor == length r.bytes)) (plain_error trailing_bytes) r

-- `Writer writer(maximum); ...; std::move(writer).finish()`
abbrev pub outcome : Writer × Result ProtocolError (Unit {0}) → Result ProtocolError (List ℕ)
outcome (w, ok u) = ok w.bytes
outcome (w, err e) = err e

unfoldable pub run_writer : ℕ → Writes → Result ProtocolError (List ℕ)
run_writer maximum m = outcome (m (record { bytes = []; maximum = maximum }))

-- `Reader reader(bytes); ...`
unfoldable pub run_reader : {A : Type 0} → List ℕ → ReadsA A → Result ProtocolError A
run_reader bytes m = (m (record { bytes = bytes; cursor = 0 })).1
