-- ===== src/Sql/Parser/Tests.antt =====
-- sql_parser.cpp on `commit;`.
use minidb_cpp.Prelude.{ℕ, ◌+◌, ◌⊎◌, true, [], ◌∷◌, ◌≡◌, refl, ok}
use minidb_cpp.Sql.Token.{Token, TokenKind, commit_kind, semicolon_kind, end_of_file_kind, code_of}
use minidb_cpp.Sql.Source.{SourceLocation}
use minidb_cpp.Sql.Ast.{Statement, commit_statement}
use minidb_cpp.Sql.Parser.{
  Parser, peek_token, previous_token, advance_token, match_kind, consume, same_kind,
}
use minidb_cpp.Sql.Parser.Statements.{parse_statement, parse_node, close_statement, end_statement}
use minidb_cpp.Sql.Parser.Whole.{parse_statement-whole}

abbrev at : ℕ → SourceLocation
at n = record { offset = n; line = 1; column = n }

abbrev token : TokenKind → ℕ → ℕ → Token
token kind from to = record {
  kind = kind;
  lexeme = [];
  value = [];
  span = record { begin = at from; end = at to };
}

abbrev parser_at : ℕ → Parser
parser_at n = record {
  tokens = token commit_kind 0 6 ∷ token semicolon_kind 6 7 ∷ token end_of_file_kind 7 7 ∷ [];
  position = n;
}

abbrev committed : Statement
committed = record { span = record { begin = at 0; end = at 7 }; node = commit_statement }

commit-parsed : parse_statement (parser_at 0) ≡ (parser_at 2, ok committed)
unfolding parse_statement close_statement end_statement parse_node match_kind consume advance_token
    peek_token previous_token code_of
commit-parsed = refl

parse_statement-whole_example :
    (r : Parser) × (parse_node (parser_at 0) ≡ (r, ok commit_statement))
    × ((parser_at 2 ≡ r)
        ⊎ ((same_kind (peek_token r).kind semicolon_kind ≡ true)
            × (parser_at 2 ≡ record r { position = r.position + 1 })))
    × (same_kind (peek_token (parser_at 2)).kind end_of_file_kind ≡ true)
parse_statement-whole_example =
    parse_statement-whole (parser_at 0) (parser_at 2) committed commit-parsed
