-- ===== src/Sql/Parser/Statements.antt =====
-- sql_parser.cpp: parseInsert, parseSelect, parseUpdate, parseDelete, parseStatement and parse.
use minidb_cpp.Prelude.{
  ℕ, Bool, Option, none, some, List, [], ◌∷◌, if◌then◌else◌, map, Result, ok, err, ◌⊎◌, inl, inr,
}
use minidb_cpp.Prelude.Stateful.{◌>>=◌, ◌>>◌, returns}
use minidb_cpp.Sql.Source.{SourceSpan}
use minidb_cpp.Sql.Token.{
  TokenKind, Token, identifier_kind, left_paren_kind, right_paren_kind, star_kind, semicolon_kind,
  end_of_file_kind, equal_kind, into_kind, values_kind, from_kind, where_kind, set_kind,
  create_kind, insert_kind, select_kind, update_kind, delete_kind, begin_kind, transaction_kind,
  read_kind, only_kind, write_kind, commit_kind, rollback_kind,
}
use minidb_cpp.Sql.Literal.{SqlLiteral}
use minidb_cpp.Sql.Lexer.{SqlError, tokenize}
use minidb_cpp.Sql.Ast.{
  Expression, InsertStatement, SelectStatement, Assignment, UpdateStatement, DeleteStatement,
  Statement, StatementNode, TransactionAccessMode, mode_read_only, mode_read_write,
  create_table_statement, insert_statement, select_statement, update_statement, delete_statement,
  begin_statement, commit_statement, rollback_statement,
}
use minidb_cpp.Sql.Parser.{
  Parses, Parser, ParserError, make_parser, peeks, previous, advance_token, match_kind, consume,
  refuse, insist, fail_here, comma_list, parse_literal, empty_list, identifier_in_list,
  trailing_comma, table_name, into_after_insert, column_list_close, values_expected, values_open,
  values_close, projection, star_mixed, column_after_comma, from_expected, set_after_table,
  no_assignment, assignment_column, equal_expected, assignment_after_comma, only_or_write,
  unknown_statement, end_expected,
}
use minidb_cpp.Sql.Parser.Columns.{parse_create_table}
use minidb_cpp.Sql.Parser.Expressions.{parse_expression}

abbrev token_value : Token → List ℕ
token_value t = t.value

abbrev token_span : Token → SourceSpan
token_span t = t.span

-- The identifiers' tokens, of which the callers take the values and the spans.
unfoldable pub parse_identifier_list : Parses (List Token)
parse_identifier_list = do
  refuse right_paren_kind empty_list
  first ← consume identifier_kind identifier_in_list
  comma_list (refuse right_paren_kind trailing_comma) (consume identifier_kind identifier_in_list)
      (first ∷ [])

unfoldable pub parse_literal_list : Parses (List SqlLiteral)
parse_literal_list = do
  refuse right_paren_kind empty_list
  first ← parse_literal
  comma_list (refuse right_paren_kind trailing_comma) parse_literal (first ∷ [])

-- The optional list of columns of INSERT.
unfoldable pub parse_insert_columns : Parses (Option (List Token))
parse_insert_columns = do
  listed ← match_kind left_paren_kind
  (if listed
      then (do
        names ← parse_identifier_list
        consume right_paren_kind column_list_close
        returns (some names))
      else returns none)

abbrev map_option : {A B : Type 0} → (A → B) → Option A → Option B
map_option f none = none
map_option f (some a) = some (f a)

unfoldable pub parse_insert : Parses InsertStatement
parse_insert = do
  consume into_kind into_after_insert
  table ← consume identifier_kind table_name
  names ← parse_insert_columns
  consume values_kind values_expected
  consume left_paren_kind values_open
  values ← parse_literal_list
  consume right_paren_kind values_close
  returns (record {
    table_name = table.value;
    columns = map_option (map token_value) names;
    values = values;
    table_name_span = table.span;
    column_spans = map_option (map token_span) names;
  })

-- The named columns of SELECT.
unfoldable pub parse_projection : Parses (List Token)
parse_projection = do
  insist identifier_kind projection
  first ← advance_token
  comma_list (refuse star_kind star_mixed) (consume identifier_kind column_after_comma) (first ∷ [])

-- `if (match(Where)) where = parseExpression();`
unfoldable pub parse_condition : Parses (Option Expression)
parse_condition = do
  found ← match_kind where_kind
  (if found then (do expression ← parse_expression; returns (some expression)) else returns none)

unfoldable pub parse_select : Parses SelectStatement
parse_select = do
  all ← match_kind star_kind
  names ← (if all then returns [] else parse_projection)
  consume from_kind from_expected
  table ← consume identifier_kind table_name
  condition ← parse_condition
  returns (record {
    select_all = all;
    columns = map token_value names;
    table_name = table.value;
    condition = condition;
    table_name_span = table.span;
    column_spans = map token_span names;
  })

-- One round of the loop of parseUpdate.
unfoldable pub parse_assignment : Parses Assignment
parse_assignment = do
  column ← consume identifier_kind assignment_column
  consume equal_kind equal_expected
  value ← parse_literal
  last ← previous
  returns (record {
    column_name = column.value;
    value = value;
    span = record { begin = column.span.begin; end = last.span.end };
    column_name_span = column.span;
  })

unfoldable pub parse_update : Parses UpdateStatement
parse_update = do
  table ← consume identifier_kind table_name
  consume set_kind set_after_table
  insist identifier_kind no_assignment
  first ← parse_assignment
  assignments ←
      comma_list (insist identifier_kind assignment_after_comma) parse_assignment (first ∷ [])
  condition ← parse_condition
  returns (record {
    table_name = table.value;
    assignments = assignments;
    condition = condition;
    table_name_span = table.span;
  })

unfoldable pub parse_delete : Parses DeleteStatement
parse_delete = do
  consume from_kind from_expected
  table ← consume identifier_kind table_name
  condition ← parse_condition
  returns (record { table_name = table.value; condition = condition; table_name_span = table.span })

-- What follows BEGIN.
unfoldable pub parse_begin : Parses TransactionAccessMode
parse_begin = do
  match_kind transaction_kind
  reads ← match_kind read_kind
  (if reads
      then (do
        only ← match_kind only_kind
        (if only then returns mode_read_only else (do
          write ← match_kind write_kind
          (if write then returns mode_read_write else fail_here only_or_write))))
      else returns mode_read_write)

-- One alternative of parseStatement, and what is tried after it.
abbrev alternative : TokenKind → Parses StatementNode → Parses StatementNode → Parses StatementNode
alternative kind body others = do found ← match_kind kind; (if found then body else others)

abbrev wrapped : {A : Type 0} → (A → StatementNode) → Parses A → Parses StatementNode
wrapped f body = do a ← body; returns (f a)

unfoldable pub parse_node : Parses StatementNode
parse_node = alternative create_kind (wrapped create_table_statement parse_create_table) (
    alternative insert_kind (wrapped insert_statement parse_insert) (
      alternative select_kind (wrapped select_statement parse_select) (
        alternative update_kind (wrapped update_statement parse_update) (
          alternative delete_kind (wrapped delete_statement parse_delete) (
            alternative begin_kind (wrapped begin_statement parse_begin) (
              alternative commit_kind (returns commit_statement) (
                alternative rollback_kind (returns rollback_statement)
                  (fail_here unknown_statement))))))))

abbrev pub statement_of : Token → StatementNode → Token → Bool → Token → Statement
statement_of first node last semicolon closing = record {
  span = record {
    begin = first.span.begin;
    end = if semicolon then closing.span.end else last.span.end;
  };
  node = node;
}

-- parseStatement from the semicolon on, and from the node on.
unfoldable pub end_statement : Token → StatementNode → Token → Bool → Parses Statement
end_statement first node last semicolon = do
  closing ← previous
  consume end_of_file_kind end_expected
  returns (statement_of first node last semicolon closing)

unfoldable pub close_statement : Token → StatementNode → Parses Statement
close_statement first node = do
  last ← previous
  semicolon ← match_kind semicolon_kind
  end_statement first node last semicolon

unfoldable pub parse_statement : Parses Statement
parse_statement = do first ← peeks; node ← parse_node; close_statement first node

abbrev on_tokens : Result ParserError Parser → Result (SqlError ⊎ ParserError) Statement
on_tokens (err e) = err (inr e)
on_tokens (ok p) = elim ((parse_statement p).1) [ err e ↦ err (inr e) | ok s ↦ ok s ]

-- Parser::parse: the errors of the lexer and of the parser are both SqlError.
unfoldable pub parse : List ℕ → Result (SqlError ⊎ ParserError) Statement
parse source = elim (tokenize source) [
  | err e ↦ err (inl e)
  | ok tokens ↦ on_tokens (make_parser tokens)
]
