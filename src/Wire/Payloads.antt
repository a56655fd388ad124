-- ===== src/Wire/Payloads.antt =====
-- wire_protocol.cpp: the payloads that are written, and their sizes.
use minidb_cpp.Prelude.{
  ℕ, ◌+◌, ◌-◌, ◌^◌, ◌≤◌, ◌<◌, ◌≡◌, refl, true, not, Option, none, some, List, [], ◌∷◌, ltb, ◌==◌,
  ==_iff, length, drop, arith, All,
}
use minidb_cpp.Prelude.Int.{to_bits}
use minidb_cpp.Schema.{Value, null, uint32_value, int64_value, bool_value, string_value}
use minidb_cpp.Sql.Outcome.{
  RecordId, is_valid_record_id, ExecutionStats, CommandResult, SelectResult,
}
use minidb_cpp.Sql.Source.{SourceSpan}
use minidb_cpp.Wire.{
  plain_error, max_wire_string_bytes, row_width, bad_record_id, location_out_of_range,
}
use minidb_cpp.Wire.Commands.{
  flag_of, is_some, encode_command_kind, encode_access_path, encode_stats, encode_record_id,
  encode_value, encode_optional_id, write_command,
}
use minidb_cpp.Wire.Rows.{write_columns, write_values, write_row_id, write_rows, write_select}
use minidb_cpp.Wire.Errors.{ErrorResponse, category_code, write_location, write_span, write_error}
use minidb_cpp.Wire.Fits.{
  Fits, Bounded, Fits-bind, Fits-nothing, Fits-checked, Fits-byte, Fits-big, Fits-string,
  Bounded-bind, Bounded-nothing, Bounded-checked, Bounded-byte, Bounded-big, Bounded-string,
}
use minidb_cpp.Wire.ResultTrip.{value_size, optional_id_size}
use minidb_cpp.Wire.RowTrip.{columns_size, values_size, row_id_size, rows_size}
use minidb_cpp.Wire.ErrorTrip.{span_size}

abbrev pub ValidOptionalId : Option RecordId → Type 0
ValidOptionalId none = Unit
ValidOptionalId (some id) = is_valid_record_id id ≡ true

abbrev pub LocationsFit : Option SourceSpan → Type 0
LocationsFit none = Unit
LocationsFit (some s) =
    s.begin.line < 2 ^ 32 × s.begin.column < 2 ^ 32 × s.end.line < 2 ^ 32 × s.end.column < 2 ^ 32

-- Lines and columns from 1, and an end no earlier than the begin.
abbrev pub SpanOrdered : Option SourceSpan → Type 0
SpanOrdered none = Unit
SpanOrdered (some s) =
    (1 ≤ s.begin.line)
    × (1 ≤ s.begin.column)
    × (1 ≤ s.end.line)
    × (1 ≤ s.end.column)
    × (s.begin.offset ≤ s.end.offset)

-- A string of at most 64 KiB.
abbrev pub IsWireString : List ℕ → Type 0
IsWireString s = length s ≤ max_wire_string_bytes

abbrev pub HasWireStrings : Value → Type 0
HasWireStrings (string_value s) = IsWireString s
HasWireStrings _ = Unit

Fits-stats : (s : ExecutionStats) → Fits 28 (encode_stats s)
unfolding encode_stats
Fits-stats s = Fits-bind 2 26 _ _ (Fits-big 2 (encode_access_path s.access_path)) (
    Fits-bind 2 24 _ _ (Fits-big 2 0) (
      Fits-bind 8 16 _ _ (Fits-big 8 s.rows_examined)
        (Fits-bind 8 8 _ _ (Fits-big 8 s.rows_returned) (Fits-big 8 s.index_lookups))))

Bounded-stats : (s : ExecutionStats) → Bounded (encode_stats s)
unfolding encode_stats
Bounded-stats s = Bounded-bind _ _ (Bounded-big 2 (encode_access_path s.access_path)) (
    Bounded-bind _ _ (Bounded-big 2 0) (
      Bounded-bind _ _ (Bounded-big 8 s.rows_examined)
        (Bounded-bind _ _ (Bounded-big 8 s.rows_returned) (Bounded-big 8 s.index_lookups))))

Fits-record_id : (id : RecordId) → is_valid_record_id id ≡ true → Fits 8 (encode_record_id id)
unfolding encode_record_id
Fits-record_id id valid =
    Fits-checked 8 (not (is_valid_record_id id)) (plain_error bad_record_id) _ (rw valid refl) (
      Fits-bind 4 4 _ _ (Fits-big 4 id.page_id)
        (Fits-bind 2 2 _ _ (Fits-big 2 id.slot_id) (Fits-big 2 0)))

Bounded-record_id : (id : RecordId) → Bounded (encode_record_id id)
unfolding encode_record_id
Bounded-record_id id = Bounded-checked _ _ _ (
    Bounded-bind _ _ (Bounded-big 4 id.page_id)
      (Bounded-bind _ _ (Bounded-big 2 id.slot_id) (Bounded-big 2 0)))

Fits-optional_id :
    (o : Option RecordId) → ValidOptionalId o → Fits (optional_id_size o) (encode_optional_id o)
unfolding encode_optional_id
Fits-optional_id none h = Fits-nothing
Fits-optional_id (some id) h = Fits-record_id id h

Bounded-optional_id : (o : Option RecordId) → Bounded (encode_optional_id o)
unfolding encode_optional_id
Bounded-optional_id none = Bounded-nothing
Bounded-optional_id (some id) = Bounded-record_id id

pub Fits-command :
    (r : CommandResult)
    → ValidOptionalId r.inserted_record_id
    → Fits (2 + (2 + (8 + (28 + optional_id_size r.inserted_record_id)))) (write_command r)
unfolding write_command
Fits-command r h = Fits-bind 2 _ _ _ (Fits-big 2 (encode_command_kind r.command)) (
    Fits-bind 2 _ _ _ (Fits-big 2 (flag_of (is_some r.inserted_record_id))) (
      Fits-bind 8 _ _ _ (Fits-big 8 r.affected_rows)
        (Fits-bind 28 _ _ _ (Fits-stats r.stats) (Fits-optional_id r.inserted_record_id h))))

pub Bounded-command : (r : CommandResult) → Bounded (write_command r)
unfolding write_command
Bounded-command r = Bounded-bind _ _ (Bounded-big 2 (encode_command_kind r.command)) (
    Bounded-bind _ _ (Bounded-big 2 (flag_of (is_some r.inserted_record_id))) (
      Bounded-bind _ _ (Bounded-big 8 r.affected_rows)
        (Bounded-bind _ _ (Bounded-stats r.stats) (Bounded-optional_id r.inserted_record_id))))

Fits-location : (n : ℕ) → n < 2 ^ 32 → Fits 4 (write_location n)
unfolding write_location
Fits-location n h =
    Fits-checked 4 (ltb (2 ^ 32 - 1) n) (plain_error location_out_of_range) _ (ground (arith, h))
      (Fits-big 4 n)

Fits-span : (o : Option SourceSpan) → LocationsFit o → Fits (span_size o) (write_span o)
unfolding write_span
Fits-span none h = Fits-nothing
Fits-span (some s) (i, j, k, l) = Fits-bind 8 24 _ _ (Fits-big 8 s.begin.offset) (
    Fits-bind 8 16 _ _ (Fits-big 8 s.end.offset) (
      Fits-bind 4 12 _ _ (Fits-location s.begin.line i) (
        Fits-bind 4 8 _ _ (Fits-location s.begin.column j)
          (Fits-bind 4 4 _ _ (Fits-location s.end.line k) (Fits-location s.end.column l)))))

pub Fits-error :
    (r : ErrorResponse)
    → LocationsFit r.span
    → IsWireString r.message
    → Fits (2 + (2 + (4 + length r.message + span_size r.span))) (write_error r)
unfolding write_error
Fits-error r h m = Fits-bind 2 _ _ _ (Fits-big 2 (category_code r.category)) (
    Fits-bind 2 _ _ _ (Fits-big 2 (flag_of (is_some r.span)))
      (Fits-bind (4 + length r.message) _ _ _ (Fits-string r.message m) (Fits-span r.span h)))

Bounded-value : (v : Value) → Bounded (encode_value v)
unfolding encode_value
Bounded-value null = Bounded-byte 0
Bounded-value (uint32_value n) = Bounded-bind _ _ (Bounded-byte 1) (Bounded-big 4 n)
Bounded-value (int64_value z) = Bounded-bind _ _ (Bounded-byte 2) (Bounded-big 8 (to_bits z))
Bounded-value (bool_value b) = Bounded-bind _ _ (Bounded-byte 3) (Bounded-byte _)
Bounded-value (string_value s) = Bounded-bind _ _ (Bounded-byte 4) (Bounded-string s)

Bounded-values : (vs : List Value) → Bounded (write_values vs)
unfolding write_values
Bounded-values [] = Bounded-nothing
Bounded-values (v ∷ vs) = Bounded-bind _ _ (Bounded-value v) (Bounded-values vs)

Bounded-columns : (cs : List (List ℕ)) → Bounded (write_columns cs)
unfolding write_columns
Bounded-columns [] = Bounded-nothing
Bounded-columns (c ∷ cs) = Bounded-bind _ _ (Bounded-string c) (Bounded-columns cs)

Bounded-row_id : (ids : List RecordId) → Bounded (write_row_id ids)
unfolding write_row_id
Bounded-row_id [] = Bounded-nothing
Bounded-row_id (id ∷ ids) = Bounded-record_id id

Bounded-rows :
    (width : ℕ) (ids : List RecordId) (rows : List (List Value))
    → Bounded (write_rows width ids rows)
unfolding write_rows
Bounded-rows width ids [] = Bounded-nothing
Bounded-rows width ids (row ∷ rows) = Bounded-bind _ _ (Bounded-row_id ids) (
    Bounded-checked _ _ _ (
      Bounded-bind _ _ (Bounded-big 4 _)
        (Bounded-bind _ _ (Bounded-values row) (Bounded-rows width (drop 1 ids) rows))))

pub Bounded-select : (r : SelectResult) → Bounded (write_select r)
unfolding write_select
Bounded-select r = Bounded-bind _ _ (Bounded-big 4 _) (
    Bounded-bind _ _ (Bounded-big 8 _) (
      Bounded-bind _ _ (Bounded-big 4 _) (
        Bounded-bind _ _ (Bounded-stats r.stats) (
          Bounded-bind _ _ (Bounded-columns r.columns)
            (Bounded-rows (length r.columns) r.record_ids r.rows)))))

Fits-value : (v : Value) → HasWireStrings v → Fits (value_size v) (encode_value v)
unfolding encode_value value_size
Fits-value null h = Fits-byte 0
Fits-value (uint32_value n) h = Fits-bind 1 4 _ _ (Fits-byte 1) (Fits-big 4 n)
Fits-value (int64_value z) h = Fits-bind 1 8 _ _ (Fits-byte 2) (Fits-big 8 (to_bits z))
Fits-value (bool_value b) h = Fits-bind 1 1 _ _ (Fits-byte 3) (Fits-byte _)
Fits-value (string_value s) h = Fits-bind 1 (4 + length s) _ _ (Fits-byte 4) (Fits-string s h)

Fits-values : (vs : List Value) → All HasWireStrings vs → Fits (values_size vs) (write_values vs)
unfolding write_values values_size
Fits-values [] h = Fits-nothing
Fits-values (v ∷ vs) h =
    Fits-bind (value_size v) (values_size vs) _ _ (Fits-value v h.0) (Fits-values vs h.1)

Fits-columns :
    (cs : List (List ℕ)) → All IsWireString cs → Fits (columns_size cs) (write_columns cs)
unfolding write_columns columns_size
Fits-columns [] h = Fits-nothing
Fits-columns (c ∷ cs) h =
    Fits-bind (4 + length c) (columns_size cs) _ _ (Fits-string c h.0) (Fits-columns cs h.1)

abbrev IsValidId : RecordId → Type 0
IsValidId id = is_valid_record_id id ≡ true

Fits-row_id : (ids : List RecordId) → All IsValidId ids → Fits (row_id_size ids) (write_row_id ids)
unfolding write_row_id row_id_size
Fits-row_id [] h = Fits-nothing
Fits-row_id (id ∷ ids) h = Fits-record_id id h.0

-- A row of the projection's width, whose strings are of at most 64 KiB.
abbrev pub RowFits : ℕ → List Value → Type 0
RowFits width row = (length row ≡ width) × All HasWireStrings row

Fits-rows :
    (width : ℕ) (ids : List RecordId) (rows : List (List Value))
    → All IsValidId ids
    → All (RowFits width) rows
    → Fits (rows_size ids rows) (write_rows width ids rows)
unfolding write_rows rows_size
Fits-rows width ids [] i h = Fits-nothing
Fits-rows width ids (row ∷ rows) i h = Fits-bind (row_id_size ids) _ _ _ (Fits-row_id ids i) (
    Fits-checked _ (not (length row == width)) (plain_error row_width) _ (rw exact refl) (
      Fits-bind 4 _ _ _ (Fits-big 4 _) (
        Fits-bind (values_size row) _ _ _ (Fits-values row h.0.1)
          (Fits-rows width (drop 1 ids) rows (rest ids i) h.1))))
  where
    exact : length row == width ≡ true
    exact = (==_iff _ _).1 h.0.0

    rest : (ids : List RecordId) → All IsValidId ids → All IsValidId (drop 1 ids)
    rest [] i = tt
    rest (id ∷ ids) i = i.1

-- What the encoder asks of a query's result, but for the counts.
abbrev pub SelectFits : SelectResult → Type 0
SelectFits r =
    All IsWireString r.columns
    × All IsValidId r.record_ids
    × All (RowFits (length r.columns)) r.rows

-- The bytes of a query's result.
abbrev pub select_size : SelectResult → ℕ
select_size r = 4 + (8 + (4 + (28 + (columns_size r.columns + rows_size r.record_ids r.rows))))

pub Fits-select : (r : SelectResult) → SelectFits r → Fits (select_size r) (write_select r)
unfolding write_select
Fits-select r (c, i, h) = Fits-bind 4 _ _ _ (Fits-big 4 _) (
    Fits-bind 8 _ _ _ (Fits-big 8 _) (
      Fits-bind 4 _ _ _ (Fits-big 4 _) (
        Fits-bind 28 _ _ _ (Fits-stats r.stats) (
          Fits-bind (columns_size r.columns) _ _ _ (Fits-columns r.columns c)
            (Fits-rows (length r.columns) r.record_ids r.rows i h)))))
