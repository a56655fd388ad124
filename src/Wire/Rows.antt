-- ===== src/Wire/Rows.antt =====
-- src/wire_protocol.cpp: the result of a query.
use minidb_cpp.Prelude.{
  ℕ, zero, suc, ◌^◌, ◌%◌, Bool, true, false, not, ◌||◌, ◌&&◌, List, [], ◌∷◌, ◌++◌, Result, err, ltb,
  ◌==◌, if◌then◌else◌, length, drop,
}
use minidb_cpp.Prelude.Stateful.{returns, throw_when}
use minidb_cpp.Schema.{Value}
use minidb_cpp.Sql.Outcome.{RecordId, SelectResult}
use minidb_cpp.Wire.{
  ◌>>=◌, ◌>>◌, ProtocolError, WireMessage, Writes, ReadsA, plain_error, write_big, write_string,
  read_big, read_string, remaining_bytes, finish_reading, run_writer, run_reader, max_frame_payload,
  bad_counts, row_width, too_many_rows,
}
use minidb_cpp.Wire.Commands.{
  max_wire_columns, max_wire_rows, flag_of, has_unknown_flags, is_present, encode_stats,
  decode_stats, encode_record_id, decode_record_id, encode_value, decode_value,
}

abbrev pub is_empty {ℓ} : {A : Type ℓ} → List A → Bool
is_empty [] = true
is_empty (x ∷ xs) = false

unfoldable pub write_columns : List (List ℕ) → Writes
write_columns [] = returns tt
write_columns (column ∷ columns) = write_string column >> write_columns columns

unfoldable pub write_values : List Value → Writes
write_values [] = returns tt
write_values (value ∷ values) = encode_value value >> write_values values

-- `if (!recordIds.empty()) encodeRecordId(writer, recordIds[rowIndex])`: the record ids not written,
-- of which there is one for each row not written, or there were none.
unfoldable pub write_row_id : List RecordId → Writes
write_row_id [] = returns tt
write_row_id (id ∷ ids) = encode_record_id id

unfoldable pub write_rows : ℕ → List RecordId → List (List Value) → Writes
write_rows width ids [] = returns tt
write_rows width ids (row ∷ rows) = do
  write_row_id ids
  throw_when (not (length row == width)) (plain_error row_width)
  write_big 4 (length row % 2 ^ 32)
  write_values row
  write_rows width (drop 1 ids) rows

unfoldable pub write_select : SelectResult → Writes
write_select result = do
  write_big 4 (length result.columns % 2 ^ 32)
  write_big 8 (length result.rows)
  write_big 4 (flag_of (not (is_empty result.record_ids)))
  encode_stats result.stats
  write_columns result.columns
  write_rows (length result.columns) result.record_ids result.rows

unfoldable pub encode_select_result_payload : SelectResult → Result ProtocolError (List ℕ)
encode_select_result_payload result =
    if ltb max_wire_columns (length result.columns)
      || ltb max_wire_rows (length result.rows)
      || (not (is_empty result.record_ids) && not (length result.record_ids == length result.rows))
    then err (plain_error bad_counts)
    else run_writer max_frame_payload (write_select result)

unfoldable pub read_columns : ℕ → ReadsA (List (List ℕ))
read_columns zero = returns []
read_columns (suc count) = do
  column ← read_string
  columns ← read_columns count
  returns (column ∷ columns)

unfoldable pub read_values : ℕ → ReadsA (List Value)
read_values zero = returns []
read_values (suc count) = do
  value ← decode_value
  values ← read_values count
  returns (value ∷ values)

-- A test that looks at `reader.remaining()`.
unfoldable pub throw_beyond : ℕ → WireMessage → ReadsA (Unit {0})
throw_beyond count message r = throw_when (ltb (remaining_bytes r) count) (plain_error message) r

-- The record id to push, if any.
unfoldable pub read_row_id : Bool → ReadsA (List RecordId)
read_row_id false = returns []
read_row_id true = decode_record_id >>= λ id. returns (id ∷ [])

-- The record ids and the rows that the loop pushes.
unfoldable pub read_rows : Bool → ℕ → ℕ → ReadsA (List RecordId × List (List Value))
read_rows present width zero = returns ([], [])
read_rows present width (suc rounds) = do
  ids ← read_row_id present
  count ← read_big 4
  throw_when (not (count == width)) (plain_error row_width)
  throw_beyond count row_width
  row ← read_values count
  rest ← read_rows present width rounds
  returns (ids ++ rest.0, row ∷ rest.1)

unfoldable pub read_select : ReadsA SelectResult
read_select = do
  column_count ← read_big 4
  row_count ← read_big 8
  flags ← read_big 4
  throw_when
      (ltb max_wire_columns column_count
        || ltb max_wire_rows row_count
        || has_unknown_flags 32 flags)
      (plain_error bad_counts)
  stats ← decode_stats
  columns ← read_columns column_count
  throw_beyond row_count too_many_rows
  pushed ← read_rows (is_present flags) column_count row_count
  returns (record { columns = columns; rows = pushed.1; record_ids = pushed.0; stats = stats })

unfoldable pub decode_select_result_payload : List ℕ → Result ProtocolError SelectResult
decode_select_result_payload payload =
    run_reader payload (read_select >>= λ result. finish_reading >> returns result)
