-- ===== src/Schema/Lookup.antt =====
-- schema.cpp, Schema::findColumn and Schema::primaryKeyColumn on a schema that Schema::create returned.
use minidb_cpp.Prelude.{
  ℕ, zero, suc, ◌+◌, ◌≡◌, refl, ap, sym, ok-injective, true, false, not, ◌||◌, Option, none, some,
  some-injective, ◌∙◌, List, [], ◌∷◌, ok, ◌>>◌, throw_if, throw_if-ok, Bool-cases, inl, inr, arith,
  length, ltb, get_elem?,
}
use minidb_cpp.Prelude.Texts.{text_member, text_eq, text_eq-sym, text_eq_refl}
use minidb_cpp.Schema.{
  ColumnDefinition, DataType, uint32, create_loop, create, normalize_identifier, note_primary_key,
  is_empty, column_count, max_schema_columns, max_uint16, find_named, find_column, primary_key_from,
  primary_key_column, type_eq, int64, boolean, varchar, nullable_primary_key, primary_key_type,
}
use minidb_cpp.Schema.Names.{not-false, normalize_identifier_lem}
use minidb_cpp.Schema.Columns.{create_loop-cons}

apart :
    (t u : List ℕ) (us : List (List ℕ))
    → text_member t (u ∷ us) ≡ false
    → (text_eq t u ≡ false) × (text_member t us ≡ false)
apart t u us h = ground arith

create_loop-fresh :
    (names : List (List ℕ)) (key : Option ℕ) (index : ℕ) (columns made : List ColumnDefinition)
    (i : ℕ) (found : ColumnDefinition)
    → create_loop names key index columns ≡ ok made
    → get_elem? made i ≡ some found
    → (text_member found.name names ≡ false) × (normalize_identifier found.name ≡ ok found.name)
unfolding create_loop
create_loop-fresh names key index [] made i found h g = ground arith
create_loop-fresh names key index (column ∷ columns) made zero found h g =
    let (normal, noted, rest, e0, e1, e2, e3, e4, e5) =
      create_loop-cons names key index column columns made h in
    let (l, a, b, c, fixed) = normalize_identifier_lem column.name normal e0 in
    let same : some (record column { name = normal }) ≡ some found =
      ap (λ (t : List ColumnDefinition). get_elem? t 0) e5 ∙ g in
    rw (← some-injective (record column { name = normal }) found same) (e1, fixed)
create_loop-fresh names key index (column ∷ columns) made (suc i) found h g =
    let (normal, noted, rest, e0, e1, e2, e3, e4, e5) =
      create_loop-cons names key index column columns made h in
    let later : get_elem? rest i ≡ some found =
      ap (λ (t : List ColumnDefinition). get_elem? t (suc i)) e5 ∙ g in
    let (fresh, fixed) =
      create_loop-fresh (normal ∷ names) noted (index + 1) columns rest i found e4 later in
    ((apart found.name normal names fresh).1, fixed)

create_loop-find :
    (names : List (List ℕ)) (key : Option ℕ) (index : ℕ) (columns made : List ColumnDefinition)
    (i : ℕ) (found : ColumnDefinition) (start : ℕ)
    → create_loop names key index columns ≡ ok made
    → get_elem? made i ≡ some found
    → find_named made found.name start ≡ some (start + i)
unfolding create_loop find_named
create_loop-find names key index [] made i found start h g = ground arith
create_loop-find names key index (column ∷ columns) made zero found start h g =
    let (normal, noted, rest, e0, e1, e2, e3, e4, e5) =
      create_loop-cons names key index column columns made h in
    let same : some (record column { name = normal }) ≡ some found =
      ap (λ (t : List ColumnDefinition). get_elem? t 0) e5 ∙ g in
    rw (← e5, ← some-injective (record column { name = normal }) found same, text_eq_refl normal)
      (ap some (omega arith))
create_loop-find names key index (column ∷ columns) made (suc i) found start h g =
    let (normal, noted, rest, e0, e1, e2, e3, e4, e5) =
      create_loop-cons names key index column columns made h in
    let later : get_elem? rest i ≡ some found =
      ap (λ (t : List ColumnDefinition). get_elem? t (suc i)) e5 ∙ g in
    let (fresh, fixed) =
      create_loop-fresh (normal ∷ names) noted (index + 1) columns rest i found e4 later in
    let differs : text_eq normal found.name ≡ false =
      text_eq-sym normal found.name ∙ (apart found.name normal names fresh).0 in
    let deeper : find_named rest found.name (start + 1) ≡ some (start + 1 + i) =
      create_loop-find (normal ∷ names) noted (index + 1) columns rest i found (start + 1) e4
        later in
    rw (← e5, differs) (deeper ∙ ap some (omega arith))

-- In a schema that Schema::create returns, findColumn maps the name of each column to the index of
-- that column.
pub find_column-create :
    (columns made : List ColumnDefinition) (i : ℕ) (found : ColumnDefinition)
    → create columns ≡ ok made
    → get_elem? made i ≡ some found
    → find_column made found.name ≡ ok (some i)
unfolding create find_column
find_column-create columns made i found h g =
    let (short, loop) =
      throw_if-ok
        (is_empty columns
          || ltb max_schema_columns (length columns)
          || ltb max_uint16 (length columns))
        column_count _ made h in
    let (fresh, fixed) = create_loop-fresh [] none 0 columns made i found loop g in
    rw fixed
      (ap ok (create_loop-find [] none 0 columns made i found 0 loop g ∙ ap some (omega arith)))

type_eq-uint32 : (t : DataType) → type_eq t uint32 ≡ true → t ≡ uint32
type_eq-uint32 uint32 h = refl
type_eq-uint32 int64 h = cc
type_eq-uint32 boolean h = cc
type_eq-uint32 varchar h = cc

-- What the tests on a primary-key column have found.
note_primary_key-ok :
    (key noted : Option ℕ) (index : ℕ) (column : ColumnDefinition)
    → column.primary_key ≡ true
    → note_primary_key key index column ≡ ok noted
    → (key ≡ none) × (noted ≡ some index) × (column.nullable ≡ false) × (column.type ≡ uint32)
unfolding note_primary_key
note_primary_key-ok (some k) noted index column p h = absurd (ground arith)
note_primary_key-ok none noted index column p h =
    let (t1, h1) =
      throw_if-ok column.nullable nullable_primary_key
        (throw_if (not (type_eq column.type uint32)) primary_key_type >> ok (some index)) noted
        (rw p at h) in
    let (t2, h2) =
      throw_if-ok (not (type_eq column.type uint32)) primary_key_type (ok (some index)) noted h1 in
    (
      refl,
      sym (ok-injective (some index) noted h2),
      t1,
      type_eq-uint32 column.type (not-false _ t2),
    )

note_primary_key-plain :
    (key noted : Option ℕ) (index : ℕ) (column : ColumnDefinition)
    → column.primary_key ≡ false
    → note_primary_key key index column ≡ ok noted
    → noted ≡ key
unfolding note_primary_key
note_primary_key-plain key noted index column p h = ok-injective noted key (sym h ∙ rw p refl)

create_loop-key :
    (names : List (List ℕ)) (key : Option ℕ) (index : ℕ) (columns made : List ColumnDefinition)
    (i : ℕ) (found : ColumnDefinition)
    → create_loop names key index columns ≡ ok made
    → get_elem? made i ≡ some found
    → found.primary_key ≡ true
    → (key ≡ none)
      × (primary_key_from made index ≡ some (index + i))
      × (found.nullable ≡ false)
      × (found.type ≡ uint32)
unfolding create_loop primary_key_from
create_loop-key names key index [] made i found h g p = ground arith
create_loop-key names key index (column ∷ columns) made zero found h g p =
    let (normal, noted, rest, e0, e1, e2, e3, e4, e5) =
      create_loop-cons names key index column columns made h in
    let same : some (record column { name = normal }) ≡ some found =
      ap (λ (t : List ColumnDefinition). get_elem? t 0) e5 ∙ g in
    let this = some-injective (record column { name = normal }) found same in
    let key_set : column.primary_key ≡ true =
      ap (λ (c : ColumnDefinition). c.primary_key) this ∙ p in
    let (free, now, strict, narrow) = note_primary_key-ok key noted index column key_set e3 in
    (free, rw (← e5, key_set) (ap some (omega arith)), rw (← this) strict, rw (← this) narrow)
create_loop-key names key index (column ∷ columns) made (suc i) found h g p =
    let (normal, noted, rest, e0, e1, e2, e3, e4, e5) =
      create_loop-cons names key index column columns made h in
    let later : get_elem? rest i ≡ some found =
      ap (λ (t : List ColumnDefinition). get_elem? t (suc i)) e5 ∙ g in
    let (free, first, strict, narrow) =
      create_loop-key (normal ∷ names) noted (index + 1) columns rest i found e4 later p in
    elim (Bool-cases column.primary_key) [
      | inl set ↦
          absurd
            (none≢some index (sym free ∙ (note_primary_key-ok key noted index column set e3).1))
      | inr plain ↦ (
        sym (note_primary_key-plain key noted index column plain e3) ∙ free,
        rw (← e5, plain) (first ∙ ap some (omega arith)),
        strict,
        narrow,
      )
    ]
  where
    none≢some : (k : ℕ) → none ≡ some k → ⊥
    none≢some k e = cc

-- In a schema that Schema::create returns, a primary-key column is the one that primaryKeyColumn
-- finds, so there is no second one; it is a UINT32 column that is not nullable.
pub primary_key_column-create :
    (columns made : List ColumnDefinition) (i : ℕ) (found : ColumnDefinition)
    → create columns ≡ ok made
    → get_elem? made i ≡ some found
    → found.primary_key ≡ true
    → (primary_key_column made ≡ some i) × (found.nullable ≡ false) × (found.type ≡ uint32)
unfolding create
primary_key_column-create columns made i found h g p =
    let (short, loop) =
      throw_if-ok
        (is_empty columns
          || ltb max_schema_columns (length columns)
          || ltb max_uint16 (length columns))
        column_count _ made h in
    let (free, first, strict, narrow) = create_loop-key [] none 0 columns made i found loop g p in
    (first ∙ ap some (omega arith), strict, narrow)
