-- ===== src/Schema.antt =====
-- src/schema.cpp and its header: column definitions, identifiers, and the check of a row's values.
-- A string is the list of its bytes.
pub mod Names
pub mod Columns
pub mod Lookup
pub mod Values
pub mod Encoding
pub mod WrittenColumns
pub mod EncodedColumns
pub mod EncodedHeader
pub mod EncodedSchema
mod Tests
mod EncodingTests
use minidb_cpp.Prelude.{
  ℕ, zero, suc, ◌+◌, ◌-◌, ◌<◌, Bool, true, false, not, ◌&&◌, ◌||◌, Option, none, some, List, [],
  ◌∷◌, Result, ok, err, ◌>>=◌, ◌>>◌, throw_if, ltb, leb, ◌==◌, if◌then◌else◌, length, get_elem?,
}
use minidb_cpp.Prelude.Int.{ℤ}
use minidb_cpp.Prelude.Texts.{text_eq, text_member}

pub data DataType : Type 0 where
  uint32 int64 boolean varchar : DataType

-- std::variant<std::monostate, std::uint32_t, std::int64_t, bool, std::string>
pub data Value : Type 0 where
  null : Value
  uint32_value : ℕ → Value
  int64_value : ℤ → Value
  bool_value : Bool → Value
  string_value : List ℕ → Value

pub record ColumnDefinition : Type 0 where
  pub name : List ℕ
  pub type : DataType
  pub nullable : Bool
  pub primary_key : Bool
  pub varchar_max_bytes : ℕ

-- The messages of std::invalid_argument, and std::out_of_range of `Schema::column`.
pub data Error : Type 0 where
  identifier_length identifier_first identifier_character : Error
  unexpected_max_bytes varchar_bounds : Error
  column_count duplicate_name second_primary_key nullable_primary_key primary_key_type : Error
  index_out_of_range : Error
  value_count null_in_column type_mismatch varchar_too_long : Error

abbrev pub max_identifier_bytes : ℕ
max_identifier_bytes = 63

abbrev pub max_schema_columns : ℕ
max_schema_columns = 1024

abbrev pub max_varchar_bytes : ℕ
max_varchar_bytes = 4000

abbrev pub max_uint16 : ℕ
max_uint16 = 65535

abbrev within : ℕ → ℕ → ℕ → Bool
within low value high = leb low value && leb value high

unfoldable pub is_identifier_start : ℕ → Bool
is_identifier_start value = within b'A' value b'Z' || within b'a' value b'z' || (value == b'_')

unfoldable pub is_identifier_continue : ℕ → Bool
is_identifier_continue value = is_identifier_start value || within b'0' value b'9'

-- (value >= 'A' && value <= 'Z') ? value - 'A' + 'a' : value
unfoldable pub lower : ℕ → ℕ
lower value = if within b'A' value b'Z' then value - b'A' + b'a' else value

unfoldable pub normalize_loop : List ℕ → Result Error (List ℕ)
normalize_loop [] = ok []
normalize_loop (value ∷ rest) = do
  throw_if (not (is_identifier_continue value)) identifier_character
  normalized ← normalize_loop rest
  ok (lower value ∷ normalized)

abbrev starts_well : List ℕ → Bool
starts_well [] = false
starts_well (value ∷ rest) = is_identifier_start value

abbrev is_empty {ℓ} : {A : Type ℓ} → List A → Bool
is_empty [] = true
is_empty (x ∷ xs) = false

unfoldable pub normalize_identifier : List ℕ → Result Error (List ℕ)
normalize_identifier identifier = do
  throw_if (is_empty identifier || ltb max_identifier_bytes (length identifier)) identifier_length
  throw_if (not (starts_well identifier)) identifier_first
  normalize_loop identifier

unfoldable pub validate_column_type : DataType → ℕ → Result Error (Unit {0})
validate_column_type uint32 max_bytes = throw_if (not (max_bytes == 0)) unexpected_max_bytes
validate_column_type int64 max_bytes = throw_if (not (max_bytes == 0)) unexpected_max_bytes
validate_column_type boolean max_bytes = throw_if (not (max_bytes == 0)) unexpected_max_bytes
validate_column_type varchar max_bytes =
    throw_if ((max_bytes == 0) || ltb max_varchar_bytes max_bytes) varchar_bounds

abbrev pub type_eq : DataType → DataType → Bool
type_eq uint32 uint32 = true
type_eq int64 int64 = true
type_eq boolean boolean = true
type_eq varchar varchar = true
type_eq _ _ = false

abbrev has_value {ℓ} : {A : Type ℓ} → Option A → Bool
has_value none = false
has_value (some a) = true

-- The tests on a primary-key column, and the new value of `primaryKey`.
unfoldable pub note_primary_key : Option ℕ → ℕ → ColumnDefinition → Result Error (Option ℕ)
note_primary_key primary_key index column =
    if column.primary_key
    then (do
      throw_if (has_value primary_key) second_primary_key
      throw_if column.nullable nullable_primary_key
      throw_if (not (type_eq column.type uint32)) primary_key_type
      ok (some index))
    else ok primary_key

-- The loop over the columns: each name is normalized in place and added to `names`.
unfoldable pub create_loop :
    List (List ℕ) → Option ℕ → ℕ → List ColumnDefinition → Result Error (List ColumnDefinition)
create_loop names primary_key index [] = ok []
create_loop names primary_key index (column ∷ columns) = do
  normalized ← normalize_identifier column.name
  throw_if (text_member normalized names) duplicate_name
  validate_column_type column.type column.varchar_max_bytes
  noted ← note_primary_key primary_key index column
  rest ← create_loop (normalized ∷ names) noted (index + 1) columns
  ok (record column { name = normalized } ∷ rest)

-- Schema::create; a schema is the list of its columns.
unfoldable pub create : List ColumnDefinition → Result Error (List ColumnDefinition)
create columns = do
  throw_if
      (is_empty columns
        || ltb max_schema_columns (length columns)
        || ltb max_uint16 (length columns))
      column_count
  create_loop [] none 0 columns

unfoldable pub column : List ColumnDefinition → ℕ → Result Error ColumnDefinition
column columns index = elim (get_elem? columns index) [
  | none ↦ err index_out_of_range
  | some found ↦ ok found
]

-- std::find_if and std::distance over `column.name == normalized`.
unfoldable pub find_named : List ColumnDefinition → List ℕ → ℕ → Option ℕ
find_named [] normalized index = none
find_named (column ∷ columns) normalized index =
    let rest = find_named columns normalized (index + 1) in
    if text_eq column.name normalized then some index else rest

unfoldable pub find_column : List ColumnDefinition → List ℕ → Result Error (Option ℕ)
find_column columns name = do
  normalized ← normalize_identifier name
  ok (find_named columns normalized 0)

unfoldable pub primary_key_from : List ColumnDefinition → ℕ → Option ℕ
primary_key_from [] index = none
primary_key_from (column ∷ columns) index =
    let rest = primary_key_from columns (index + 1) in
    if column.primary_key then some index else rest

abbrev pub primary_key_column : List ColumnDefinition → Option ℕ
primary_key_column columns = primary_key_from columns 0

-- One round of the loop of Schema::validateValues.
unfoldable pub validate_value : ColumnDefinition → Value → Result Error (Unit {0})
validate_value column null = throw_if (not column.nullable) null_in_column
validate_value column (uint32_value n) = throw_if (not (type_eq column.type uint32)) type_mismatch
validate_value column (int64_value n) = throw_if (not (type_eq column.type int64)) type_mismatch
validate_value column (bool_value b) = throw_if (not (type_eq column.type boolean)) type_mismatch
validate_value column (string_value s) = do
  throw_if (not (type_eq column.type varchar)) type_mismatch
  throw_if (ltb column.varchar_max_bytes (length s)) varchar_too_long

unfoldable pub validate_loop : List ColumnDefinition → List Value → Result Error (Unit {0})
validate_loop (column ∷ columns) (value ∷ values) = do
  validate_value column value
  validate_loop columns values
validate_loop _ _ = ok tt

unfoldable pub validate_values : List ColumnDefinition → List Value → Result Error (Unit {0})
validate_values columns values = do
  throw_if (not (length values == length columns)) value_count
  validate_loop columns values
