-- ===== src/Wire/ResultTrip.antt =====
-- wire_protocol.cpp: the result of a command is read as it was written.
use minidb_cpp.Prelude.{
  ℕ, ◌+◌, ◌^◌, ◌<◌, ◌≡◌, refl, Bool, true, false, not, Option, none, some, List, [], ok, length,
  arith,
}
use minidb_cpp.Prelude.Int.{to_bits, of_bits-to_bits, to_bits-lt}
use minidb_cpp.Schema.{Value, null, uint32_value, int64_value, bool_value, string_value}
use minidb_cpp.Sql.Literal.Convert.{InRange}
use minidb_cpp.Sql.Outcome.{
  RecordId, is_valid_record_id, AccessPath, no_access, heap_scan, primary_key_lookup,
  ExecutionStats, CommandKind, create_table_command, insert_command, update_command, delete_command,
  begin_command, commit_command, rollback_command, CommandResult,
}
use minidb_cpp.Wire.{
  ◌>>=◌, Writes, ReadsA, WireMessage, plain_error, max_frame_payload, unknown_flags, bad_boolean,
  bad_reserved,
}
use minidb_cpp.Wire.Commands.{
  flag_of, has_unknown_flags, is_present, expect, encode_command_kind, decode_command_kind,
  encode_access_path, decode_access_path, encode_stats, decode_stats, encode_record_id,
  decode_record_id, encode_value, decode_boolean, decode_tagged, decode_value, is_some,
  encode_optional_id, write_command, encode_command_result_payload, decode_optional_id,
  read_command, decode_command_result_payload,
}
use minidb_cpp.Wire.Sends.{
  Sends, Reads-returns, Reads-passes, Sends-bind, Sends-then, Sends-checked, Sends-passes,
  Sends-nothing, Sends-run,
}
use minidb_cpp.Wire.Numbers.{Sends-byte, Sends-big, Sends-big16, Sends-string}

-- The unsigned fields hold what their C++ types hold.
abbrev pub StatsInRange : ExecutionStats → Type 0
StatsInRange s = s.rows_examined < 2 ^ 64 × s.rows_returned < 2 ^ 64 × s.index_lookups < 2 ^ 64

abbrev pub IdInRange : RecordId → Type 0
IdInRange id = id.page_id < 2 ^ 32 × id.slot_id < 2 ^ 16

abbrev pub OptionalIdInRange : Option RecordId → Type 0
OptionalIdInRange none = Unit
OptionalIdInRange (some id) = IdInRange id

abbrev pub CommandInRange : CommandResult → Type 0
CommandInRange r =
    r.affected_rows < 2 ^ 64 × StatsInRange r.stats × OptionalIdInRange r.inserted_record_id

command_kind-known : (c : CommandKind) → decode_command_kind (encode_command_kind c) ≡ some c
unfolding encode_command_kind decode_command_kind
command_kind-known create_table_command = refl
command_kind-known insert_command = refl
command_kind-known update_command = refl
command_kind-known delete_command = refl
command_kind-known begin_command = refl
command_kind-known commit_command = refl
command_kind-known rollback_command = refl

command_kind-lt : (c : CommandKind) → encode_command_kind c < 2 ^ 16
unfolding encode_command_kind
command_kind-lt create_table_command = omega arith
command_kind-lt insert_command = omega arith
command_kind-lt update_command = omega arith
command_kind-lt delete_command = omega arith
command_kind-lt begin_command = omega arith
command_kind-lt commit_command = omega arith
command_kind-lt rollback_command = omega arith

access_path-known : (p : AccessPath) → decode_access_path (encode_access_path p) ≡ some p
unfolding encode_access_path decode_access_path
access_path-known no_access = refl
access_path-known heap_scan = refl
access_path-known primary_key_lookup = refl

access_path-lt : (p : AccessPath) → encode_access_path p < 2 ^ 16
unfolding encode_access_path
access_path-lt no_access = omega arith
access_path-lt heap_scan = omega arith
access_path-lt primary_key_lookup = omega arith

-- A code that has a meaning passes.
pub Sends-expect :
    {A B : Type 0} (k : ℕ) (m : Writes) (o : Option A) (message : WireMessage) (a : A)
    (f : A → ReadsA B) (b : B)
    → o ≡ some a
    → Sends k m (f a) b
    → Sends k m (expect o message >>= f) b
unfolding expect ◌>>=◌
Sends-expect k m o message a f b e h = rw e h

pub Sends-stats : (s : ExecutionStats) → StatsInRange s → Sends 28 (encode_stats s) decode_stats s
unfolding encode_stats decode_stats
Sends-stats s (i, j, l) =
    Sends-bind 2 26 _ _ _ _ (encode_access_path s.access_path) s
      (Sends-big16 (encode_access_path s.access_path) (access_path-lt s.access_path))
      (Sends-expect 26 _ _ _ s.access_path _ s (access_path-known s.access_path) (
        Sends-bind 2 24 _ _ _ _ 0 s (Sends-big16 0 (omega arith)) (
          Sends-passes 24 _ _ (plain_error bad_reserved) _ s refl (
            Sends-bind 8 16 _ _ _ _ s.rows_examined s (Sends-big 8 s.rows_examined i) (
              Sends-bind 8 8 _ _ _ _ s.rows_returned s (Sends-big 8 s.rows_returned j) (
                Sends-then 8 _ _ _ s.index_lookups s (Sends-big 8 s.index_lookups l)
                  (Reads-returns s)))))))

pub Sends-record_id :
    (id : RecordId) → IdInRange id → Sends 8 (encode_record_id id) decode_record_id id
unfolding encode_record_id decode_record_id
Sends-record_id id (i, j) = Sends-checked 8 (not (is_valid_record_id id)) _ _ _ id (λ valid.
    Sends-bind 4 4 _ _ _ _ id.page_id id (Sends-big 4 id.page_id i) (
      Sends-bind 2 2 _ _ _ _ id.slot_id id (Sends-big16 id.slot_id j) (
        Sends-then 2 _ _ _ 0 id (Sends-big16 0 (omega arith))
          (Reads-passes (not (is_valid_record_id id)) _ _ id [] valid (Reads-returns id)))))

-- The bytes of a value.
unfoldable pub value_size : Value → ℕ
value_size null = 1
value_size (uint32_value n) = 5
value_size (int64_value z) = 9
value_size (bool_value b) = 2
value_size (string_value s) = 1 + (4 + length s)

pub Sends-value : (v : Value) → InRange v → Sends (value_size v) (encode_value v) decode_value v
unfolding encode_value decode_value decode_tagged decode_boolean value_size
Sends-value null h = Sends-then 1 _ _ _ 0 null (Sends-byte 0) (Reads-returns null)
Sends-value (uint32_value n) h =
    Sends-bind 1 4 _ _ _ _ 1 (uint32_value n) (Sends-byte 1)
      (Sends-then 4 _ _ _ n (uint32_value n) (Sends-big 4 n h) (Reads-returns (uint32_value n)))
Sends-value (int64_value z) h = Sends-bind 1 8 _ _ _ _ 2 (int64_value z) (Sends-byte 2) (
    Sends-then 8 _ _ _ (to_bits z) (int64_value z) (Sends-big 8 (to_bits z) (to_bits-lt z h))
      (rw (of_bits-to_bits z h) (Reads-returns (int64_value z))))
Sends-value (bool_value true) h = Sends-bind 1 1 _ _ _ _ 3 (bool_value true) (Sends-byte 3) (
    Sends-then 1 _ _ _ 1 (bool_value true) (Sends-byte 1) (
      Reads-passes false (plain_error bad_boolean) _ (bool_value true) [] refl
        (Reads-returns (bool_value true))))
Sends-value (bool_value false) h = Sends-bind 1 1 _ _ _ _ 3 (bool_value false) (Sends-byte 3) (
    Sends-then 1 _ _ _ 0 (bool_value false) (Sends-byte 0) (
      Reads-passes false (plain_error bad_boolean) _ (bool_value false) [] refl
        (Reads-returns (bool_value false))))
Sends-value (string_value s) h =
    Sends-bind 1 (4 + length s) _ _ _ _ 4 (string_value s) (Sends-byte 4) (
      Sends-then (4 + length s) _ _ _ s (string_value s) (Sends-string s)
        (Reads-returns (string_value s)))

-- The flag of something that may be absent.
pub flag-known :
    (b : Bool)
    → (has_unknown_flags 16 (flag_of b) ≡ false)
      × (has_unknown_flags 32 (flag_of b) ≡ false)
      × (is_present (flag_of b) ≡ b)
unfolding has_unknown_flags is_present
flag-known true = (refl, refl, refl)
flag-known false = (refl, refl, refl)

pub flag-lt : (b : Bool) → flag_of b < 2 ^ 16
flag-lt true = omega arith
flag-lt false = omega arith

abbrev pub optional_id_size : Option RecordId → ℕ
optional_id_size none = 0
optional_id_size (some id) = 8

Sends-optional_id :
    (o : Option RecordId)
    → OptionalIdInRange o
    → Sends (optional_id_size o) (encode_optional_id o) (decode_optional_id (is_some o)) o
unfolding encode_optional_id decode_optional_id
Sends-optional_id none h = Sends-nothing none
Sends-optional_id (some id) h =
    Sends-then 8 _ _ _ id (some id) (Sends-record_id id h) (Reads-returns (some id))

Sends-command :
    (r : CommandResult)
    → CommandInRange r
    → Sends
        (2 + (2 + (8 + (28 + optional_id_size r.inserted_record_id))))
        (write_command r)
        read_command
        r
unfolding write_command read_command
Sends-command r (a, i, o) =
    Sends-bind 2 _ _ _ _ _ (encode_command_kind r.command) r
      (Sends-big16 (encode_command_kind r.command) (command_kind-lt r.command))
      (Sends-expect _ _ _ _ r.command _ r (command_kind-known r.command) (
        Sends-bind 2 _ _ _ _ _ (flag_of present) r (Sends-big16 (flag_of present) (flag-lt present))
          (Sends-passes _ _ _ (plain_error unknown_flags) _ r (flag-known present).0 (
            Sends-bind 8 _ _ _ _ _ r.affected_rows r (Sends-big 8 r.affected_rows a) (
              Sends-bind 28 _ _ _ _ _ r.stats r (Sends-stats r.stats i) (
                Sends-then _ _ _ _ r.inserted_record_id r
                  (rw (flag-known present).2 (Sends-optional_id r.inserted_record_id o))
                  (Reads-returns r)))))))
  where
    present : Bool
    present = is_some r.inserted_record_id

-- A command's result whose numbers hold what their C++ types hold, and whose encoding does not throw,
-- is decoded from the bytes of its encoding as it was.
pub decode_command-encode_command :
    (r : CommandResult) (bytes : List ℕ)
    → CommandInRange r
    → encode_command_result_payload r ≡ ok bytes
    → decode_command_result_payload bytes ≡ ok r
unfolding encode_command_result_payload decode_command_result_payload
decode_command-encode_command r bytes h e =
    Sends-run _ max_frame_payload (write_command r) read_command r bytes (Sends-command r h) e
