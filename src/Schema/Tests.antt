-- ===== src/Schema/Tests.antt =====
-- schema.cpp on a table of users.
use minidb_cpp.Prelude.{
  ℕ, ◌≤◌, ◌≡◌, refl, true, false, some, List, [], ◌∷◌, ok, err, length, All, ◌↔◌,
}
use minidb_cpp.Schema.{
  ColumnDefinition, uint32, varchar, null, uint32_value, create, create_loop, find_column,
  primary_key_column, normalize_identifier, normalize_loop, is_identifier_start,
  is_identifier_continue, lower, validate_column_type, note_primary_key, validate_values,
  validate_loop, validate_value, null_in_column,
}
use minidb_cpp.Schema.Names.{IsNormalByte, StartsName, LowerOf, normalize_identifier-fixed}
use minidb_cpp.Schema.Columns.{create-fixed}
use minidb_cpp.Schema.Lookup.{find_column-create, primary_key_column-create}
use minidb_cpp.Schema.Values.{RowFits, validate_values-RowFits}

abbrev id_text : List ℕ
id_text = b'I' ∷ b'd' ∷ []

abbrev id_column : List ℕ → ColumnDefinition
id_column t = record {
  name = t;
  type = uint32;
  nullable = false;
  primary_key = true;
  varchar_max_bytes = 0;
}

abbrev mail_column : List ℕ → ColumnDefinition
mail_column t = record {
  name = t;
  type = varchar;
  nullable = true;
  primary_key = false;
  varchar_max_bytes = 5;
}

abbrev users : List ColumnDefinition
users = mail_column (b'M' ∷ b'_' ∷ b'1' ∷ []) ∷ id_column id_text ∷ []

abbrev users_made : List ColumnDefinition
users_made = mail_column (b'm' ∷ b'_' ∷ b'1' ∷ []) ∷ id_column (b'i' ∷ b'd' ∷ []) ∷ []

users-create : create users ≡ ok users_made
unfolding create create_loop normalize_identifier normalize_loop is_identifier_start
    is_identifier_continue lower validate_column_type note_primary_key
users-create = refl

id_normal : normalize_identifier id_text ≡ ok (b'i' ∷ b'd' ∷ [])
unfolding normalize_identifier normalize_loop is_identifier_start is_identifier_continue lower
id_normal = refl

null_refused : validate_values users_made (null ∷ null ∷ []) ≡ err null_in_column
unfolding validate_values validate_loop validate_value
null_refused = refl

normalize_identifier-fixed_example :
    LowerOf id_text (b'i' ∷ b'd' ∷ [])
    × (1 ≤ 2)
    × (2 ≤ 63)
    × StartsName (b'i' ∷ b'd' ∷ [])
    × All IsNormalByte (b'i' ∷ b'd' ∷ [])
    × (normalize_identifier (b'i' ∷ b'd' ∷ []) ≡ ok (b'i' ∷ b'd' ∷ []))
normalize_identifier-fixed_example = normalize_identifier-fixed id_text (b'i' ∷ b'd' ∷ []) id_normal

create-fixed_example :
    (length users_made ≡ length users) × (1 ≤ 2) × (2 ≤ 1024) × (create users_made ≡ ok users_made)
create-fixed_example = create-fixed users users_made users-create

find_column-create_example : find_column users_made (b'i' ∷ b'd' ∷ []) ≡ ok (some 1)
find_column-create_example =
    find_column-create users users_made 1 (id_column (b'i' ∷ b'd' ∷ [])) users-create refl

primary_key_column-create_example :
    (primary_key_column users_made ≡ some 1) × (false ≡ false) × (uint32 ≡ uint32)
primary_key_column-create_example =
    primary_key_column-create users users_made 1 (id_column (b'i' ∷ b'd' ∷ [])) users-create refl
      refl

validate_values-RowFits_example :
    (validate_values users_made (null ∷ uint32_value 7 ∷ []) ≡ ok tt)
    ↔ RowFits users_made (null ∷ uint32_value 7 ∷ [])
validate_values-RowFits_example = validate_values-RowFits users_made (null ∷ uint32_value 7 ∷ [])
