-- ===== src/Sql/Parser/Columns.antt =====
-- sql_parser.cpp: parseTypeSpecification, parseColumnSpecification, parseCreateTable.
use minidb_cpp.Prelude.{ℕ, zero, suc, Bool, true, false, not, none, some, [], ◌∷◌, if◌then◌else◌}
use minidb_cpp.Prelude.Stateful.{◌>>=◌, ◌>>◌, returns, get_state}
use minidb_cpp.Sql.Source.{SourceLocation}
use minidb_cpp.Sql.Token.{
  uint32_kind, int64_kind, boolean_kind, varchar_kind, left_paren_kind, right_paren_kind,
  integer_kind, identifier_kind, primary_kind, key_kind, not_kind, null_kind, table_kind,
}
use minidb_cpp.Sql.Ast.{
  SqlTypeSpecification, SqlTypeKind, uint32_type, int64_type, boolean_type, varchar_type,
  NullConstraint, unspecified, null_allowed, not_null, ColumnSpecification, CreateTableStatement,
}
use minidb_cpp.Sql.Parser.{
  Parses, peeks, previous, match_kind, consume, refuse, fail_here, ensure, comma_list, rounds,
  exhausted, varchar_open, varchar_size, varchar_close, unknown_type, column_name,
  duplicate_primary_key, key_after_primary, null_after_not, duplicate_null, table_after_create,
  table_name, columns_open, no_columns, trailing_comma, columns_close,
}

-- A type with no size, whose word has been matched.
abbrev plain_type : SqlTypeKind → SourceLocation → Parses SqlTypeSpecification
plain_type kind begin = do
  t ← previous
  returns (record {
    kind = kind;
    varchar_size_magnitude = none;
    span = record { begin = begin; end = t.span.end };
  })

unfoldable pub parse_varchar : SourceLocation → Parses SqlTypeSpecification
parse_varchar begin = do
  consume left_paren_kind varchar_open
  size ← consume integer_kind varchar_size
  consume right_paren_kind varchar_close
  t ← previous
  returns (record {
    kind = varchar_type;
    varchar_size_magnitude = some size.value;
    span = record { begin = begin; end = t.span.end };
  })

unfoldable pub parse_type_specification : Parses SqlTypeSpecification
parse_type_specification = do
  first ← peeks
  let begin = first.span.begin
  unsigned ← match_kind uint32_kind
  (if unsigned then plain_type uint32_type begin else (do
    signed ← match_kind int64_kind
    (if signed then plain_type int64_type begin else (do
      truth ← match_kind boolean_kind
      (if truth then plain_type boolean_type begin else (do
        text ← match_kind varchar_kind
        (if text then parse_varchar begin else fail_here unknown_type)))))))

-- The local variables of parseColumnSpecification.
pub record Constraints : Type 0 where
  pub null_constraint : NullConstraint
  pub primary_key : Bool
  pub end : SourceLocation

abbrev is_unspecified : NullConstraint → Bool
is_unspecified unspecified = true
is_unspecified _ = false

unfoldable pub primary_constraint : Constraints → Parses Constraints
primary_constraint c = do
  t ← previous
  ensure (not c.primary_key) t duplicate_primary_key
  consume key_kind key_after_primary
  last ← previous
  returns (record c { primary_key = true; end = last.span.end })

unfoldable pub not_constraint : Constraints → Parses Constraints
not_constraint c = do
  not_token ← previous
  consume null_kind null_after_not
  ensure (is_unspecified c.null_constraint) not_token duplicate_null
  last ← previous
  returns (record c { null_constraint = not_null; end = last.span.end })

unfoldable pub null_constraint_of : Constraints → Parses Constraints
null_constraint_of c = do
  t ← previous
  ensure (is_unspecified c.null_constraint) t duplicate_null
  returns (record c { null_constraint = null_allowed; end = t.span.end })

-- The loop over the constraints. Its test and its last branch together match NULL.
unfoldable pub constraint_loop : ℕ → Constraints → Parses Constraints
constraint_loop zero c = fail_here exhausted
constraint_loop (suc fuel) c = do
  primary ← match_kind primary_kind
  (if primary then (do next ← primary_constraint c; constraint_loop fuel next) else (do
    negated ← match_kind not_kind
    (if negated then (do next ← not_constraint c; constraint_loop fuel next) else (do
      nullable ← match_kind null_kind
      (if nullable
          then (do next ← null_constraint_of c; constraint_loop fuel next)
          else returns c)))))

unfoldable pub parse_column_specification : Parses ColumnSpecification
parse_column_specification = do
  name ← consume identifier_kind column_name
  type ← parse_type_specification
  p ← get_state
  c ←
      constraint_loop (rounds p)
        (record { null_constraint = unspecified; primary_key = false; end = type.span.end })
  returns (record {
    name = name.value;
    type = type;
    null_constraint = c.null_constraint;
    primary_key = c.primary_key;
    span = record { begin = name.span.begin; end = c.end };
  })

unfoldable pub parse_create_table : Parses CreateTableStatement
parse_create_table = do
  consume table_kind table_after_create
  table ← consume identifier_kind table_name
  consume left_paren_kind columns_open
  refuse right_paren_kind no_columns
  first ← parse_column_specification
  columns ←
      comma_list (refuse right_paren_kind trailing_comma) parse_column_specification (first ∷ [])
  consume right_paren_kind columns_close
  returns (record { table_name = table.value; columns = columns; table_name_span = table.span })
