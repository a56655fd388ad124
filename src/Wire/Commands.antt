-- ===== src/Wire/Commands.antt =====
-- src/wire_protocol.cpp: values, record ids and statistics, and the result of a command.
use minidb_cpp.Prelude.{
  ℕ, ◌-◌, ◌^◌, Bool, true, false, not, ◌||◌, Option, none, some, List, Result, ltb, ◌==◌,
  if◌then◌else◌,
}
use Prim.Native.Nat.{bit_and}
use minidb_cpp.Prelude.Int.{to_bits, of_bits}
use minidb_cpp.Prelude.Stateful.{returns, throws, throw_when}
use minidb_cpp.Schema.{Value, null, uint32_value, int64_value, bool_value, string_value}
use minidb_cpp.Sql.Outcome.{
  RecordId, is_valid_record_id, AccessPath, no_access, heap_scan, primary_key_lookup,
  ExecutionStats, CommandKind, create_table_command, insert_command, update_command, delete_command,
  begin_command, commit_command, rollback_command, CommandResult,
}
use minidb_cpp.Wire.{
  ◌>>=◌, ◌>>◌, ProtocolError, WireMessage, Writes, ReadsA, plain_error, write_byte, write_big,
  write_string, read_byte, read_big, read_big16, read_string, finish_reading, run_writer,
  run_reader, max_frame_payload, bad_command, bad_access_path, bad_reserved, bad_record_id,
  bad_boolean, bad_value_tag, unknown_flags,
}

abbrev pub max_wire_columns : ℕ
max_wire_columns = 1024

abbrev pub max_wire_rows : ℕ
max_wire_rows = 65536

abbrev pub flag_present : ℕ
flag_present = 1

-- `present ? FLAG_PRESENT : 0`
abbrev pub flag_of : Bool → ℕ
flag_of b = if b then flag_present else 0

-- `(flags & ~FLAG_PRESENT) != 0`, in an unsigned type of `width` bits.
unfoldable pub has_unknown_flags : ℕ → ℕ → Bool
has_unknown_flags width flags = not (bit_and flags (2 ^ width - 1 - flag_present) == 0)

-- `(flags & FLAG_PRESENT) != 0`
unfoldable pub is_present : ℕ → Bool
is_present flags = not (bit_and flags flag_present == 0)

-- A code that has a meaning, or an exception.
unfoldable pub expect : {A : Type 0} → Option A → WireMessage → ReadsA A
expect (some a) message = returns a
expect none message = throws (plain_error message)

unfoldable pub encode_command_kind : CommandKind → ℕ
encode_command_kind create_table_command = 1
encode_command_kind insert_command = 2
encode_command_kind update_command = 3
encode_command_kind delete_command = 4
encode_command_kind begin_command = 5
encode_command_kind commit_command = 6
encode_command_kind rollback_command = 7

unfoldable pub decode_command_kind : ℕ → Option CommandKind
decode_command_kind value =
    if value == 1
    then some create_table_command
    else (if value == 2
        then some insert_command
        else (if value == 3
            then some update_command
            else (if value == 4
                then some delete_command
                else (if value == 5
                    then some begin_command
                    else (if value == 6
                        then some commit_command
                        else (if value == 7 then some rollback_command else none))))))

unfoldable pub encode_access_path : AccessPath → ℕ
encode_access_path no_access = 0
encode_access_path heap_scan = 1
encode_access_path primary_key_lookup = 2

unfoldable pub decode_access_path : ℕ → Option AccessPath
decode_access_path value =
    if value == 0
    then some no_access
    else (if value == 1
        then some heap_scan
        else (if value == 2 then some primary_key_lookup else none))

unfoldable pub encode_stats : ExecutionStats → Writes
encode_stats stats = do
  write_big 2 (encode_access_path stats.access_path)
  write_big 2 0
  write_big 8 stats.rows_examined
  write_big 8 stats.rows_returned
  write_big 8 stats.index_lookups

unfoldable pub decode_stats : ReadsA ExecutionStats
decode_stats = do
  code ← read_big16
  path ← expect (decode_access_path code) bad_access_path
  reserved ← read_big16
  throw_when (not (reserved == 0)) (plain_error bad_reserved)
  examined ← read_big 8
  returned ← read_big 8
  lookups ← read_big 8
  returns (record {
    access_path = path;
    rows_examined = examined;
    rows_returned = returned;
    index_lookups = lookups;
  })

unfoldable pub encode_record_id : RecordId → Writes
encode_record_id id = do
  throw_when (not (is_valid_record_id id)) (plain_error bad_record_id)
  write_big 4 id.page_id
  write_big 2 id.slot_id
  write_big 2 0

abbrev pub record_id_of : ℕ → ℕ → RecordId
record_id_of page slot = record { page_id = page; slot_id = slot }

unfoldable pub decode_record_id : ReadsA RecordId
decode_record_id = do
  page ← read_big 4
  slot ← read_big16
  reserved ← read_big16
  throw_when (not (reserved == 0) || not (is_valid_record_id (record_id_of page slot)))
      (plain_error bad_record_id)
  returns (record_id_of page slot)

unfoldable pub encode_value : Value → Writes
encode_value null = write_byte 0
encode_value (uint32_value n) = write_byte 1 >> write_big 4 n
encode_value (int64_value z) = write_byte 2 >> write_big 8 (to_bits z)
encode_value (bool_value b) = write_byte 3 >> write_byte (if b then 1 else 0)
encode_value (string_value s) = write_byte 4 >> write_string s

unfoldable pub decode_boolean : ReadsA Value
decode_boolean = do
  value ← read_byte
  throw_when (ltb 1 value) (plain_error bad_boolean)
  returns (bool_value (value == 1))

unfoldable pub decode_tagged : ℕ → ReadsA Value
decode_tagged tag =
    if tag == 0
    then returns null
    else (if tag == 1
        then (read_big 4 >>= λ n. returns (uint32_value n))
        else (if tag == 2
            then (read_big 8 >>= λ n. returns (int64_value (of_bits n)))
            else (if tag == 3
                then decode_boolean
                else (if tag == 4
                    then (read_string >>= λ s. returns (string_value s))
                    else throws (plain_error bad_value_tag)))))

unfoldable pub decode_value : ReadsA Value
decode_value = read_byte >>= decode_tagged

abbrev pub is_some {ℓ} : {A : Type ℓ} → Option A → Bool
is_some none = false
is_some (some a) = true

unfoldable pub encode_optional_id : Option RecordId → Writes
encode_optional_id none = returns tt
encode_optional_id (some id) = encode_record_id id

unfoldable pub write_command : CommandResult → Writes
write_command result = do
  write_big 2 (encode_command_kind result.command)
  write_big 2 (flag_of (is_some result.inserted_record_id))
  write_big 8 result.affected_rows
  encode_stats result.stats
  encode_optional_id result.inserted_record_id

unfoldable pub encode_command_result_payload : CommandResult → Result ProtocolError (List ℕ)
encode_command_result_payload result = run_writer max_frame_payload (write_command result)

-- `if (present) recordId = decodeRecordId(reader);`
unfoldable pub decode_optional_id : Bool → ReadsA (Option RecordId)
decode_optional_id false = returns none
decode_optional_id true = decode_record_id >>= λ id. returns (some id)

unfoldable pub read_command : ReadsA CommandResult
read_command = do
  code ← read_big16
  command ← expect (decode_command_kind code) bad_command
  flags ← read_big16
  throw_when (has_unknown_flags 16 flags) (plain_error unknown_flags)
  affected ← read_big 8
  stats ← decode_stats
  id ← decode_optional_id (is_present flags)
  returns (record {
    command = command;
    affected_rows = affected;
    inserted_record_id = id;
    stats = stats;
  })

unfoldable pub decode_command_result_payload : List ℕ → Result ProtocolError CommandResult
decode_command_result_payload payload =
    run_reader payload (read_command >>= λ result. finish_reading >> returns result)
