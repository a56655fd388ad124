-- ===== src/Schema/Columns.antt =====
-- schema.cpp, Schema::create.
use minidb_cpp.Prelude.{
  ℕ, suc, ◌+◌, ◌≤◌, ◌≡◌, refl, ap, false, ◌||◌, Option, none, List, [], ◌∷◌, ok, bind-ok,
  throw_if-ok, arith, length, ltb,
}
use minidb_cpp.Prelude.Texts.{text_member}
use minidb_cpp.Schema.{
  ColumnDefinition, create_loop, create, normalize_identifier, validate_column_type,
  note_primary_key, duplicate_name, is_empty, column_count, max_schema_columns, max_uint16,
}
use minidb_cpp.Schema.Names.{normalize_identifier_lem}

-- What one round of the loop has tested, and what it leaves to the rest.
pub create_loop-cons :
    (names : List (List ℕ)) (key : Option ℕ) (index : ℕ) (column : ColumnDefinition)
    (columns made : List ColumnDefinition)
    → create_loop names key index (column ∷ columns) ≡ ok made
    → (normal : List ℕ) × (noted : Option ℕ) × (rest : List ColumnDefinition)
      × (normalize_identifier column.name ≡ ok normal)
      × (text_member normal names ≡ false)
      × (validate_column_type column.type column.varchar_max_bytes ≡ ok tt)
      × (note_primary_key key index column ≡ ok noted)
      × (create_loop (normal ∷ names) noted (index + 1) columns ≡ ok rest)
      × (record column { name = normal } ∷ rest ≡ made)
unfolding create_loop
create_loop-cons names key index column columns made h =
    let (normal, e0, h0) = bind-ok (normalize_identifier column.name) _ made h in
    let (e1, h1) = throw_if-ok (text_member normal names) duplicate_name _ made h0 in
    let (u, e2, h2) =
      bind-ok (validate_column_type column.type column.varchar_max_bytes) _ made h1 in
    let (noted, e3, h3) = bind-ok (note_primary_key key index column) _ made h2 in
    let (rest, e4, h4) =
      bind-ok (create_loop (normal ∷ names) noted (index + 1) columns) _ made h3 in
    (normal, noted, rest, e0, e1, e2, e3, e4, ground arith)

renamed_key :
    (key : Option ℕ) (index : ℕ) (column : ColumnDefinition) (normal : List ℕ)
    → note_primary_key key index (record column { name = normal })
      ≡ note_primary_key key index column
unfolding note_primary_key
renamed_key key index column normal = refl

create_loop-fixed :
    (names : List (List ℕ)) (key : Option ℕ) (index : ℕ) (columns made : List ColumnDefinition)
    → create_loop names key index columns ≡ ok made
    → (create_loop names key index made ≡ ok made) × (length made ≡ length columns)
unfolding create_loop
create_loop-fixed names key index [] made h = ground arith
create_loop-fixed names key index (column ∷ columns) made h =
    let (normal, noted, rest, e0, e1, e2, e3, e4, e5) =
      create_loop-cons names key index column columns made h in
    let (again, same) = create_loop-fixed (normal ∷ names) noted (index + 1) columns rest e4 in
    let (l, a, b, c, fixed) = normalize_identifier_lem column.name normal e0 in
    rw (← e5) (rw (fixed, e1, e2, renamed_key key index column normal, e3, again) refl, ap suc same)

-- A schema that Schema::create returns has as many columns as were given, from 1 to 1024, and
-- creating it again returns it unchanged.
pub create-fixed :
    (columns made : List ColumnDefinition)
    → create columns ≡ ok made
    → (length made ≡ length columns)
      × (1 ≤ length made)
      × (length made ≤ 1024)
      × (create made ≡ ok made)
unfolding create
create-fixed columns made h =
    let (short, loop) =
      throw_if-ok
        (is_empty columns
          || ltb max_schema_columns (length columns)
          || ltb max_uint16 (length columns))
        column_count _ made h in
    let (again, same) = create_loop-fixed [] none 0 columns made loop in
    let few : length made ≤ 1024 = ground (arith, same, short) in
    (
      same,
      nonempty columns made same short,
      few,
      rw (nonempty_too made (nonempty columns made same short), few_too made few, again) refl,
    )
  where
    nonempty :
        (given kept : List ColumnDefinition)
        → length kept ≡ length given
        → is_empty given || ltb max_schema_columns (length given) || ltb max_uint16 (length given)
          ≡ false
        → 1 ≤ length kept
    nonempty [] kept e t = cc
    nonempty (c ∷ cs) kept e t = omega (arith, e)

    nonempty_too : (kept : List ColumnDefinition) → 1 ≤ length kept → is_empty kept ≡ false
    nonempty_too [] t = absurd (omega arith)
    nonempty_too (c ∷ cs) t = refl

    few_too :
        (kept : List ColumnDefinition)
        → length kept ≤ 1024
        → ltb max_schema_columns (length kept) || ltb max_uint16 (length kept) ≡ false
    few_too kept t = ground arith
