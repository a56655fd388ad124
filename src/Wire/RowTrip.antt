-- ===== src/Wire/RowTrip.antt =====
-- wire_protocol.cpp: the result of a query is read as it was written.
use minidb_cpp.Prelude.{
  ℕ, ◌+◌, ◌^◌, ◌%◌, ◌≤◌, ◌≡◌, refl, Bool, true, false, not, ◌||◌, ◌&&◌, List, [], ◌∷◌, ◌++◌, ok,
  ltb, ◌==◌, ==_iff, length, take, drop, arith, refused-ok, All,
}
use minidb_cpp.Schema.{Value, null, uint32_value, int64_value, bool_value, string_value}
use minidb_cpp.Schema.Names.{not-false}
use minidb_cpp.Sql.Literal.Convert.{InRange}
use minidb_cpp.Sql.Outcome.{RecordId, SelectResult}
use minidb_cpp.Wire.{plain_error, max_frame_payload, bad_counts, row_width, too_many_rows}
use minidb_cpp.Wire.Commands.{flag_of, has_unknown_flags, max_wire_columns, max_wire_rows}
use minidb_cpp.Wire.Rows.{
  is_empty, write_columns, write_values, write_row_id, write_rows, write_select,
  encode_select_result_payload, read_columns, read_values, read_row_id, read_rows, read_select,
  decode_select_result_payload,
}
use minidb_cpp.Wire.Sends.{
  Sends, Reads-returns, Sends-bind, Sends-then, Sends-checked, Sends-passes, Sends-nothing,
  Sends-run, Sends-beyond,
}
use minidb_cpp.Wire.Numbers.{Sends-big, Sends-string}
use minidb_cpp.Wire.ResultTrip.{
  StatsInRange, IdInRange, Sends-stats, Sends-record_id, value_size, Sends-value, flag-known,
  flag-lt,
}
use native.Mathlib.Nat.{mod-eq_of_lt}

unfoldable pub columns_size : List (List ℕ) → ℕ
columns_size [] = 0
columns_size (column ∷ columns) = 4 + length column + columns_size columns

unfoldable pub values_size : List Value → ℕ
values_size [] = 0
values_size (value ∷ values) = value_size value + values_size values

unfoldable pub row_id_size : List RecordId → ℕ
row_id_size [] = 0
row_id_size (id ∷ ids) = 8

unfoldable pub rows_size : List RecordId → List (List Value) → ℕ
rows_size ids [] = 0
rows_size ids (row ∷ rows) = row_id_size ids + (4 + (values_size row + rows_size (drop 1 ids) rows))

-- A value has a byte at least.
value_size-pos : (v : Value) → 1 ≤ value_size v
unfolding value_size
value_size-pos null = omega arith
value_size-pos (uint32_value n) = omega arith
value_size-pos (int64_value z) = omega arith
value_size-pos (bool_value b) = omega arith
value_size-pos (string_value s) = omega arith

length-le_values_size : (values : List Value) → length values ≤ values_size values
unfolding values_size
length-le_values_size [] = omega arith
length-le_values_size (v ∷ vs) = omega (arith, value_size-pos v, length-le_values_size vs)

length-le_rows_size :
    (ids : List RecordId) (rows : List (List Value)) → length rows ≤ rows_size ids rows
unfolding rows_size
length-le_rows_size ids [] = omega arith
length-le_rows_size ids (row ∷ rows) = omega (arith, length-le_rows_size (drop 1 ids) rows)

Sends-columns :
    (columns : List (List ℕ))
    → Sends (columns_size columns) (write_columns columns) (read_columns (length columns)) columns
unfolding columns_size write_columns read_columns
Sends-columns [] = Sends-nothing []
Sends-columns (c ∷ cs) =
    Sends-bind (4 + length c) (columns_size cs) _ _ _ _ c (c ∷ cs) (Sends-string c)
      (Sends-then (columns_size cs) _ _ _ cs (c ∷ cs) (Sends-columns cs) (Reads-returns (c ∷ cs)))

Sends-values :
    (values : List Value)
    → All InRange values
    → Sends (values_size values) (write_values values) (read_values (length values)) values
unfolding values_size write_values read_values
Sends-values [] h = Sends-nothing []
Sends-values (v ∷ vs) h =
    Sends-bind (value_size v) (values_size vs) _ _ _ _ v (v ∷ vs) (Sends-value v h.0)
      (Sends-then (values_size vs) _ _ _ vs (v ∷ vs) (Sends-values vs h.1) (Reads-returns (v ∷ vs)))

-- There is a record id for each row, or there is none.
abbrev IdsMatch : Bool → List RecordId → List (List Value) → Type 0
IdsMatch false ids rows = ids ≡ []
IdsMatch true ids rows = length ids ≡ length rows

Sends-row_id :
    (present : Bool) (ids : List RecordId) (row : List Value) (rows : List (List Value))
    → All IdInRange ids
    → IdsMatch present ids (row ∷ rows)
    → Sends (row_id_size ids) (write_row_id ids) (read_row_id present) (take 1 ids)
unfolding row_id_size write_row_id read_row_id
Sends-row_id false [] row rows h m = Sends-nothing []
Sends-row_id false (id ∷ ids) row rows h m = absurd cc
Sends-row_id true [] row rows h m = absurd (omega arith)
Sends-row_id true (id ∷ ids) row rows h m =
    Sends-then 8 _ _ _ id (id ∷ []) (Sends-record_id id h.0) (Reads-returns (id ∷ []))

IdsMatch-rest :
    (present : Bool) (ids : List RecordId) (row : List Value) (rows : List (List Value))
    → IdsMatch present ids (row ∷ rows)
    → IdsMatch present (drop 1 ids) rows
IdsMatch-rest false [] row rows m = refl
IdsMatch-rest false (id ∷ ids) row rows m = absurd cc
IdsMatch-rest true [] row rows m = absurd (omega arith)
IdsMatch-rest true (id ∷ ids) row rows m = omega (arith, m)

All-drop1 : (ids : List RecordId) → All IdInRange ids → All IdInRange (drop 1 ids)
All-drop1 [] h = tt
All-drop1 (id ∷ ids) h = h.1

take-drop1 : (ids : List RecordId) → take 1 ids ++ drop 1 ids ≡ ids
take-drop1 [] = refl
take-drop1 (id ∷ ids) = refl

Sends-rows :
    (present : Bool) (width : ℕ) (ids : List RecordId) (rows : List (List Value))
    → width ≤ max_wire_columns
    → All IdInRange ids
    → All (All InRange) rows
    → IdsMatch present ids rows
    → Sends
        (rows_size ids rows)
        (write_rows width ids rows)
        (read_rows present width (length rows))
        (ids, rows)
unfolding rows_size write_rows read_rows
Sends-rows false width ids [] n i v m = rw m (Sends-nothing ([], []))
Sends-rows true width [] [] n i v m = Sends-nothing ([], [])
Sends-rows true width (id ∷ ids) [] n i v m = absurd (omega arith)
Sends-rows present width ids (row ∷ rows) n i v m =
    Sends-bind (row_id_size ids) (4 + (values_size row + tail)) _ _ _ _ (take 1 ids) all
      (Sends-row_id present ids row rows i m)
      (Sends-checked (4 + (values_size row + tail)) (not (length row == width))
        (plain_error row_width) _ _ all
        (λ same.
          let fits : length row ≡ width = (==_iff (length row) width).0 (not-false _ same) in
          let kept : length row % 2 ^ 32 ≡ length row = mod-eq_of_lt (omega arith) in
          Sends-bind 4 (values_size row + tail) _ _ _ _ (length row % 2 ^ 32) all
            (Sends-big 4 (length row % 2 ^ 32) (omega arith))
            (Sends-passes (values_size row + tail) _ _ (plain_error row_width) _ all (rw kept same)
              (rw kept (
                Sends-beyond (values_size row + tail) (length row) row_width _ _ all
                  (omega (arith, length-le_values_size row))
                  (Sends-bind (values_size row) tail _ _ _ _ row all (Sends-values row v.0) (
                    Sends-then tail _ _ _ (drop 1 ids, rows) all
                      (Sends-rows present width (drop 1 ids) rows n (All-drop1 ids i) v.1
                        (IdsMatch-rest present ids row rows m))
                      (rw (take-drop1 ids) (Reads-returns all)))))))))
  where
    tail : ℕ
    tail = rows_size (drop 1 ids) rows

    all : List RecordId × List (List Value)
    all = (ids, row ∷ rows)

-- The numbers of a query's result hold what their C++ types hold.
abbrev pub SelectInRange : SelectResult → Type 0
SelectInRange r = StatsInRange r.stats × All IdInRange r.record_ids × All (All InRange) r.rows

-- The test of the counts, which encodeSelectResultPayload makes first.
abbrev pub has_bad_counts : SelectResult → Bool
has_bad_counts result =
    ltb max_wire_columns (length result.columns)
    || ltb max_wire_rows (length result.rows)
    || (not (is_empty result.record_ids) && not (length result.record_ids == length result.rows))

IdsMatch-whole :
    (ids : List RecordId) (rows : List (List Value))
    → not (is_empty ids) && not (length ids == length rows) ≡ false
    → IdsMatch (not (is_empty ids)) ids rows
IdsMatch-whole [] rows h = refl
IdsMatch-whole (id ∷ ids) rows h = (==_iff (length (id ∷ ids)) (length rows)).0 (not-false _ h)

Sends-select :
    (r : SelectResult)
    → SelectInRange r
    → has_bad_counts r ≡ false
    → Sends
        (4 + (8 + (4 + (28 + (columns_size r.columns + rows_size r.record_ids r.rows)))))
        (write_select r)
        read_select
        r
unfolding write_select read_select
Sends-select r (i, j, v) good =
    Sends-bind 4 _ _ _ _ _ (width % 2 ^ 32) r (Sends-big 4 (width % 2 ^ 32) (omega arith)) (
      Sends-bind 8 _ _ _ _ _ count r (Sends-big 8 count (ground (arith, good))) (
        Sends-bind 4 _ _ _ _ _ (flag_of present) r
          (Sends-big 4 (flag_of present) (omega (arith, flag-lt present)))
          (Sends-passes _ _ _ (plain_error bad_counts) _ r (rw kept in_limits) (
            Sends-bind 28 _ _ _ _ _ r.stats r (Sends-stats r.stats i) (
              rw kept (
                Sends-bind (columns_size r.columns) _ _ _ _ _ r.columns r (Sends-columns r.columns)
                  (Sends-beyond (rows_size r.record_ids r.rows) count too_many_rows _ _ r
                    (length-le_rows_size r.record_ids r.rows)
                    (rw (flag-known present).2 (
                      Sends-then (rows_size r.record_ids r.rows) _ _ _ (r.record_ids, r.rows) r
                        (Sends-rows present width r.record_ids r.rows (ground (arith, good)) j v
                          (IdsMatch-whole r.record_ids r.rows (ground (arith, good))))
                        (Reads-returns r))))))))))
  where
    width : ℕ
    width = length r.columns

    count : ℕ
    count = length r.rows

    present : Bool
    present = not (is_empty r.record_ids)

    kept : width % 2 ^ 32 ≡ width
    kept = mod-eq_of_lt (ground (arith, good))

    in_limits :
        ltb max_wire_columns width
          || ltb max_wire_rows count
          || has_unknown_flags 32 (flag_of present)
        ≡ false
    in_limits = ground (arith, good, (flag-known present).1)

-- A query's result whose numbers hold what their C++ types hold, and whose encoding does not throw, is
-- decoded from the bytes of its encoding as it was.
pub decode_select-encode_select :
    (r : SelectResult) (bytes : List ℕ)
    → SelectInRange r
    → encode_select_result_payload r ≡ ok bytes
    → decode_select_result_payload bytes ≡ ok r
unfolding encode_select_result_payload decode_select_result_payload
decode_select-encode_select r bytes h e =
    let (good, wrote) = refused-ok (has_bad_counts r) _ _ bytes e in
    Sends-run _ max_frame_payload (write_select r) read_select r bytes (Sends-select r h good) wrote
