-- ===== src/Schema/Values.antt =====
-- schema.cpp, Schema::validateValues, against a description of the rows that fit a schema.
use minidb_cpp.Prelude.{
  ℕ, suc, ◌≤◌, ◌≡◌, refl, ap, Bool, true, not, List, [], ◌∷◌, ok, ◌==◌, bind-ok, throw_if-ok, arith,
  length, ◌↔◌, ==_iff,
}
use minidb_cpp.Schema.{
  ColumnDefinition, DataType, uint32, int64, boolean, varchar, Value, null, uint32_value,
  int64_value, bool_value, string_value, validate_value, validate_loop, validate_values,
  value_count,
}
use minidb_cpp.Schema.Names.{not-false}

-- A value of the type of the column, within its bound.
abbrev pub Fits : DataType → ℕ → Bool → Value → Type 0
Fits type max_bytes nullable null = nullable ≡ true
Fits uint32 max_bytes nullable (uint32_value n) = Unit
Fits int64 max_bytes nullable (int64_value n) = Unit
Fits boolean max_bytes nullable (bool_value b) = Unit
Fits varchar max_bytes nullable (string_value s) = length s ≤ max_bytes
Fits _ _ _ _ = ⊥

abbrev pub RowFits : List ColumnDefinition → List Value → Type 0
RowFits [] [] = Unit
RowFits (c ∷ cs) (v ∷ vs) = Fits c.type c.varchar_max_bytes c.nullable v × RowFits cs vs
RowFits _ _ = ⊥

validate_value-Fits :
    (column : ColumnDefinition) (value : Value)
    → (validate_value column value ≡ ok tt)
      ↔ Fits column.type column.varchar_max_bytes column.nullable value
unfolding validate_value
validate_value-Fits column null = ground arith
validate_value-Fits column (uint32_value n) = ground arith
validate_value-Fits column (int64_value n) = ground arith
validate_value-Fits column (bool_value b) = ground arith
validate_value-Fits column (string_value s) = ground arith

validate_loop-RowFits :
    (columns : List ColumnDefinition) (values : List Value)
    → length values ≡ length columns
    → (validate_loop columns values ≡ ok tt) ↔ RowFits columns values
unfolding validate_loop
validate_loop-RowFits [] [] e = ground arith
validate_loop-RowFits [] (v ∷ vs) e = absurd (omega (arith, e))
validate_loop-RowFits (c ∷ cs) [] e = absurd (omega (arith, e))
validate_loop-RowFits (c ∷ cs) (v ∷ vs) e = (
  λ h.
      let (u, here, rest) = bind-ok (validate_value c v) (λ _. validate_loop cs vs) tt h in
      ((validate_value-Fits c v).0 here, (validate_loop-RowFits cs vs (omega (arith, e))).0 rest),
  λ (here, rest).
      rw ((validate_value-Fits c v).1 here, (validate_loop-RowFits cs vs (omega (arith, e))).1 rest)
        refl,
)

pub RowFits-length :
    (columns : List ColumnDefinition) (values : List Value)
    → RowFits columns values
    → length values ≡ length columns
RowFits-length [] [] h = refl
RowFits-length [] (v ∷ vs) h = absurd h
RowFits-length (c ∷ cs) [] h = absurd h
RowFits-length (c ∷ cs) (v ∷ vs) h = ap suc (RowFits-length cs vs h.1)

-- validateValues accepts exactly the rows that have one value for each column, where a value is NULL
-- only in a nullable column, and otherwise of the column's type and no longer than a VARCHAR allows.
pub validate_values-RowFits :
    (columns : List ColumnDefinition) (values : List Value)
    → (validate_values columns values ≡ ok tt) ↔ RowFits columns values
unfolding validate_values
validate_values-RowFits columns values = (
  λ h.
      let (same, rest) =
        throw_if-ok (not (length values == length columns)) value_count
          (validate_loop columns values) tt h in
      (validate_loop-RowFits columns values ((==_iff _ _).0 (not-false _ same))).0 rest,
  λ fits.
      let same = RowFits-length columns values fits in
      rw ((==_iff (length values) (length columns)).1 same)
        ((validate_loop-RowFits columns values same).1 fits),
)
