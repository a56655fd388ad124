-- ===== src/Sql/Parser.antt =====
-- src/sql_parser.cpp: the cursor over the tokens and the literals. The messages of SqlError are
-- constructors; `exhausted` reports the end of the fuel of a loop.
pub mod Columns
pub mod Expressions
pub mod Statements
pub mod Whole
mod Tests
use minidb_cpp.Prelude.{
  ℕ, zero, suc, ◌+◌, ◌-◌, Bool, true, false, not, ◌||◌, List, [], ◌∷◌, ◌++◌, Result, ok, err, ltb,
  ◌==◌, if◌then◌else◌, length, get_or,
}
use minidb_cpp.Prelude.Stateful.{
  Method, ◌>>=◌, ◌>>◌, returns, throws, get_state, put_state, throw_when,
}
use minidb_cpp.Sql.Source.{SourceLocation, SourceSpan}
use minidb_cpp.Sql.Token.{
  TokenKind, Token, code_of, end_of_file_kind, minus_kind, integer_kind, string_kind, true_kind,
  false_kind, null_kind, comma_kind,
}
use minidb_cpp.Sql.Literal.{
  SqlLiteral, null_literal, boolean_literal, integer_literal, string_literal,
}

pub data ParserMessage : Type 0 where
  missing_eof exhausted : ParserMessage
  table_after_create table_name columns_open no_columns trailing_comma columns_close : ParserMessage
  column_name duplicate_primary_key key_after_primary null_after_not duplicate_null : ParserMessage
  varchar_open varchar_size varchar_close unknown_type : ParserMessage
  empty_list identifier_in_list into_after_insert column_list_close : ParserMessage
  values_expected values_open values_close : ParserMessage
  projection star_mixed column_after_comma from_expected set_after_table : ParserMessage
  no_assignment assignment_column equal_expected assignment_after_comma : ParserMessage
  integer_after_minus literal_expected nesting_limit chained_comparison : ParserMessage
  close_parenthesis primary_expected only_or_write unknown_statement end_expected : ParserMessage

pub record ParserError : Type 0 where
  pub message : ParserMessage
  pub span : SourceSpan

pub record Parser : Type 0 where
  pub tokens : List Token
  pub position : ℕ

abbrev pub Parses {ℓ} : Type ℓ → Type ℓ
Parses A = Method Parser ParserError A

abbrev origin : SourceLocation
origin = record { offset = 0; line = 1; column = 1 }

-- What a read of an empty vector would find; the constructor refuses one.
abbrev no_token : Token
no_token = record {
  kind = end_of_file_kind;
  lexeme = [];
  value = [];
  span = record { begin = origin; end = origin };
}

abbrev pub same_kind : TokenKind → TokenKind → Bool
same_kind a b = code_of a == code_of b

-- The constructor.
unfoldable pub make_parser : List Token → Result ParserError Parser
make_parser tokens =
    if (length tokens == 0)
      || not (same_kind (get_or tokens (length tokens - 1) no_token).kind end_of_file_kind)
    then err (record { message = missing_eof; span = record { begin = origin; end = origin } })
    else ok (record { tokens = tokens; position = 0 })

unfoldable pub peek_token : Parser → Token
peek_token p =
    get_or p.tokens (if ltb p.position (length p.tokens) then p.position else length p.tokens - 1)
      no_token

unfoldable pub previous_token : Parser → Token
previous_token p = get_or p.tokens (if p.position == 0 then 0 else p.position - 1) no_token

abbrev pub peeks : Parses Token
peeks p = (p, ok (peek_token p))

abbrev pub previous : Parses Token
previous p = (p, ok (previous_token p))

abbrev pub check : TokenKind → Parses Bool
check kind p = (p, ok (same_kind (peek_token p).kind kind))

unfoldable pub advance_token : Parses Token
advance_token = do
  ended ← check end_of_file_kind
  p ← get_state
  put_state (if ended then p else record p { position = p.position + 1 })
  previous

unfoldable pub match_kind : TokenKind → Parses Bool
match_kind kind = do
  found ← check kind
  (if found then (do advance_token; returns true) else returns false)

abbrev pub fail_at {ℓ} : {A : Type ℓ} → Token → ParserMessage → Parses A
fail_at token message = throws (record { message = message; span = token.span })

-- `if (!holds) failAt(token, message);`
abbrev pub ensure : Bool → Token → ParserMessage → Parses (Unit {0})
ensure true token message = returns tt
ensure false token message = fail_at token message

-- `failAt(peek(), message)`
abbrev pub fail_here {ℓ} : {A : Type ℓ} → ParserMessage → Parses A
fail_here message p = fail_at (peek_token p) message p

-- `if (check(kind)) failAt(peek(), message);`
unfoldable pub refuse : TokenKind → ParserMessage → Parses (Unit {0})
refuse kind message = do found ← check kind; (if found then fail_here message else returns tt)

-- `if (!check(kind)) failAt(peek(), message);`
unfoldable pub insist : TokenKind → ParserMessage → Parses (Unit {0})
insist kind message = do found ← check kind; (if found then returns tt else fail_here message)

unfoldable pub consume : TokenKind → ParserMessage → Parses Token
consume kind message = do found ← check kind; (if found then advance_token else fail_here message)

-- `while (match(Comma)) { guard; items.push_back(item); }`
unfoldable pub comma_loop {ℓ} :
    {A : Type ℓ} → ℕ → Parses (Unit {0}) → Parses A → List A → Parses (List A)
comma_loop zero guard item items = fail_here exhausted
comma_loop (suc fuel) guard item items = do
  found ← match_kind comma_kind
  (if not found
      then returns items
      else (do guard; next ← item; comma_loop fuel guard item (items ++ (next ∷ []))))

-- A loop advances past a token in each round.
abbrev pub rounds : Parser → ℕ
rounds p = suc (length p.tokens - p.position)

abbrev pub comma_list {ℓ} : {A : Type ℓ} → Parses (Unit {0}) → Parses A → List A → Parses (List A)
comma_list guard item items p = comma_loop (rounds p) guard item items p

abbrev span_from : SourceLocation → SourceSpan → SourceSpan
span_from begin last = record { begin = begin; end = last.end }

-- The alternatives after the integers.
unfoldable pub parse_word_literal : Parses SqlLiteral
parse_word_literal = do
  string ← match_kind string_kind
  (if string
      then (do t ← previous; returns (record { span = t.span; value = string_literal t.value }))
      else (do
        yes_word ← match_kind true_kind
        (if yes_word
            then (do t ← previous; returns (record { span = t.span; value = boolean_literal true }))
            else (do
              no_word ← match_kind false_kind
              (if no_word
                  then (do
                    t ← previous
                    returns (record { span = t.span; value = boolean_literal false }))
                  else (do
                    null_word ← match_kind null_kind
                    (if null_word
                        then (do
                          t ← previous
                          returns (record { span = t.span; value = null_literal }))
                        else fail_here literal_expected)))))))

unfoldable pub parse_literal : Parses SqlLiteral
parse_literal = do
  first ← peeks
  negative ← match_kind minus_kind
  (if negative then insist integer_kind integer_after_minus else returns tt)
  integer ← match_kind integer_kind
  (if integer
      then (do
        t ← previous
        returns (record {
          span = span_from first.span.begin t.span;
          value = integer_literal negative t.value;
        }))
      else (if negative then fail_here integer_after_minus else parse_word_literal))
