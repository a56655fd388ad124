-- ===== src/Sql/Ast.antt =====
-- include/minidb/sql_ast.hpp: expressions and statements. An expression holds its span in each node,
-- and an absent condition is `none`.
use minidb_cpp.Prelude.{ℕ, Bool, List, Option}
use minidb_cpp.Sql.Source.{SourceSpan}
use minidb_cpp.Sql.Literal.{SqlLiteral}

pub data BinaryOperator : Type 0 where
  equal not_equal less less_equal greater greater_equal and_operator or_operator : BinaryOperator

pub data Expression : Type 0 where
  identifier_expression : (span : SourceSpan) → (name : List ℕ) → Expression
  literal_expression : (span : SourceSpan) → (literal : SqlLiteral) → Expression
  not_expression : (span : SourceSpan) → (operand : Expression) → Expression
  binary_expression :
      (span : SourceSpan)
      → (op : BinaryOperator) → (left : Expression) → (right : Expression) → Expression

abbrev pub span_of : Expression → SourceSpan
span_of (identifier_expression span name) = span
span_of (literal_expression span literal) = span
span_of (not_expression span operand) = span
span_of (binary_expression span op left right) = span

-- `expression->span = span;`
abbrev pub with_span : SourceSpan → Expression → Expression
with_span span (identifier_expression old name) = identifier_expression span name
with_span span (literal_expression old literal) = literal_expression span literal
with_span span (not_expression old operand) = not_expression span operand
with_span span (binary_expression old op left right) = binary_expression span op left right

pub data SqlTypeKind : Type 0 where
  uint32_type int64_type boolean_type varchar_type : SqlTypeKind

pub record SqlTypeSpecification : Type 0 where
  pub kind : SqlTypeKind
  pub varchar_size_magnitude : Option (List ℕ)
  pub span : SourceSpan

pub data NullConstraint : Type 0 where
  unspecified null_allowed not_null : NullConstraint

pub record ColumnSpecification : Type 0 where
  pub name : List ℕ
  pub type : SqlTypeSpecification
  pub null_constraint : NullConstraint
  pub primary_key : Bool
  pub span : SourceSpan

pub record CreateTableStatement : Type 0 where
  pub table_name : List ℕ
  pub columns : List ColumnSpecification
  pub table_name_span : SourceSpan

pub record InsertStatement : Type 0 where
  pub table_name : List ℕ
  pub columns : Option (List (List ℕ))
  pub values : List SqlLiteral
  pub table_name_span : SourceSpan
  pub column_spans : Option (List SourceSpan)

pub record SelectStatement : Type 0 where
  pub select_all : Bool
  pub columns : List (List ℕ)
  pub table_name : List ℕ
  pub condition : Option Expression
  pub table_name_span : SourceSpan
  pub column_spans : List SourceSpan

pub record Assignment : Type 0 where
  pub column_name : List ℕ
  pub value : SqlLiteral
  pub span : SourceSpan
  pub column_name_span : SourceSpan

pub record UpdateStatement : Type 0 where
  pub table_name : List ℕ
  pub assignments : List Assignment
  pub condition : Option Expression
  pub table_name_span : SourceSpan

pub record DeleteStatement : Type 0 where
  pub table_name : List ℕ
  pub condition : Option Expression
  pub table_name_span : SourceSpan

pub data TransactionAccessMode : Type 0 where
  mode_read_write mode_read_only : TransactionAccessMode

pub data StatementNode : Type 0 where
  create_table_statement : CreateTableStatement → StatementNode
  insert_statement : InsertStatement → StatementNode
  select_statement : SelectStatement → StatementNode
  update_statement : UpdateStatement → StatementNode
  delete_statement : DeleteStatement → StatementNode
  begin_statement : TransactionAccessMode → StatementNode
  commit_statement rollback_statement : StatementNode

pub record Statement : Type 0 where
  pub span : SourceSpan
  pub node : StatementNode
