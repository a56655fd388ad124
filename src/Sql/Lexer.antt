-- ===== src/Sql/Lexer.antt =====
-- src/sql_lexer.cpp: the lexer as a state and one function per method. A loop that advances has the
-- bytes that are left as fuel; the loop over the tokens has one round more than there are bytes, and
-- reports `exhausted` where these did not suffice.
pub mod Advance
pub mod Rounds
pub mod Longest
pub mod Gaps
pub mod Skips
pub mod Munch
pub mod Scans
pub mod Spans
pub mod Strings
mod Tests
use minidb_cpp.Prelude.{
  ℕ, zero, suc, ◌+◌, ◌-◌, ◌<◌, Bool, true, false, not, ◌&&◌, ◌||◌, List, [], ◌∷◌, ◌++◌, Result, ok,
  err, ◌>>=◌, ◌>>◌, ltb, leb, ◌==◌, if◌then◌else◌, length, get_or, take, drop, map,
}
use minidb_cpp.Prelude.Texts.{text_eq}
use minidb_cpp.Sql.Source.{SourceLocation, SourceSpan}
use minidb_cpp.Sql.Token.{
  TokenKind, Token, Keyword, keywords, identifier_kind, integer_kind, string_kind, end_of_file_kind,
  left_paren_kind, right_paren_kind, comma_kind, semicolon_kind, star_kind, equal_kind, minus_kind,
  bang_equal_kind, less_equal_kind, less_greater_kind, less_kind, greater_equal_kind, greater_kind,
}

pub record Lexer : Type 0 where
  pub source : List ℕ
  pub current : ℕ
  pub line : ℕ
  pub column : ℕ
  pub previous_was_carriage_return : Bool

-- The messages of SqlError, and the end of the fuel.
pub data Message : Type 0 where
  unterminated_comment integer_too_long unterminated_string lone_bang : Message
  unexpected_character exhausted : Message

pub record SqlError : Type 0 where
  pub message : Message
  pub span : SourceSpan

abbrev pub max_integer_digits : ℕ
max_integer_digits = 1024

abbrev tab : ℕ
tab = 9

abbrev line_feed : ℕ
line_feed = 10

abbrev carriage_return : ℕ
carriage_return = 13

abbrev pub quote : ℕ
quote = 39

abbrev within : ℕ → ℕ → ℕ → Bool
within low value high = leb low value && leb value high

unfoldable pub is_identifier_start : ℕ → Bool
is_identifier_start value = within b'A' value b'Z' || within b'a' value b'z' || (value == b'_')

unfoldable pub is_identifier_continue : ℕ → Bool
is_identifier_continue value = is_identifier_start value || within b'0' value b'9'

unfoldable pub is_digit : ℕ → Bool
is_digit value = within b'0' value b'9'

unfoldable pub ascii_upper : ℕ → ℕ
ascii_upper value = if within b'a' value b'z' then value - b'a' + b'A' else value

unfoldable pub keyword_in : List Keyword → List ℕ → TokenKind
keyword_in [] lexeme = identifier_kind
keyword_in (keyword ∷ rest) lexeme =
    let others = keyword_in rest lexeme in
    if text_eq (map ascii_upper lexeme) keyword.spelling then keyword.kind else others

abbrev pub keyword_kind : List ℕ → TokenKind
keyword_kind = keyword_in keywords

abbrev pub at_end : Lexer → Bool
at_end s = leb (length s.source) s.current

abbrev pub remaining : Lexer → ℕ
remaining s = length s.source - s.current

-- A read past the end gives '\0'.
abbrev pub peek : ℕ → Lexer → ℕ
peek lookahead s = get_or s.source (s.current + lookahead) 0

abbrev pub location : Lexer → SourceLocation
location s = record { offset = s.current; line = s.line; column = s.column }

-- The state after `advance`, whose value is `peek 0` before it.
unfoldable pub advance : Lexer → Lexer
advance s =
    let value = peek 0 s in
    if value == carriage_return
    then record s {
      current = s.current + 1;
      line = s.line + 1;
      column = 1;
      previous_was_carriage_return = true;
    }
    else (if value == line_feed
        then record s {
          current = s.current + 1;
          line = if s.previous_was_carriage_return then s.line else s.line + 1;
          column = 1;
          previous_was_carriage_return = false;
        }
        else record s {
          current = s.current + 1;
          column = s.column + 1;
          previous_was_carriage_return = false;
        })

unfoldable pub match_char : ℕ → Lexer → Lexer × Bool
match_char expected s =
    if at_end s || not (peek 0 s == expected) then (s, false) else (advance s, true)

abbrev pub lexeme_between : List ℕ → ℕ → ℕ → List ℕ
lexeme_between source from to = take (to - from) (drop from source)

unfoldable pub make_token : TokenKind → SourceLocation → Lexer → Token
make_token kind begin s =
    let lexeme = lexeme_between s.source begin.offset s.current in
    record {
      kind = kind;
      lexeme = lexeme;
      value = lexeme;
      span = record { begin = begin; end = location s };
    }

abbrev pub fail {ℓ} : {A : Type ℓ} → Message → SourceLocation → Lexer → Result SqlError A
fail message begin s =
    err (record { message = message; span = record { begin = begin; end = location s } })

-- `while (test) advance();`, where the test fails at the end.
unfoldable pub advance_while : (Lexer → Bool) → ℕ → Lexer → Lexer
advance_while test zero s = s
advance_while test (suc fuel) s =
    let rest = advance_while test fuel (advance s) in if test s then rest else s

abbrev pub in_line : Lexer → Bool
in_line s = not (at_end s) && not (peek 0 s == carriage_return) && not (peek 0 s == line_feed)

abbrev pub in_comment : Lexer → Bool
in_comment s = not (at_end s) && not ((peek 0 s == b'*') && (peek 1 s == b'/'))

abbrev pub skip_line : Lexer → Lexer
skip_line s = advance_while in_line (remaining s) s

abbrev pub skip_comment : Lexer → Lexer
skip_comment s = advance_while in_comment (remaining s) s

abbrev pub is_blank : ℕ → Bool
is_blank value =
    (value == b' ') || (value == tab) || (value == carriage_return) || (value == line_feed)

-- What the loop of skipIgnored does with what it sees: go on from a state, stop, or throw.
pub data Skipped : Type 0 where
  again : Lexer → Skipped
  stops : Skipped
  throws : SqlError → Skipped

unfoldable pub skip_one : Lexer → Skipped
skip_one s =
    if at_end s
    then stops
    else (if is_blank (peek 0 s)
        then again (advance s)
        else (if (peek 0 s == b'-') && (peek 1 s == b'-')
            then again (skip_line (advance (advance s)))
            else (if (peek 0 s == b'/') && (peek 1 s == b'*')
                then (let inside = skip_comment (advance (advance s)) in
                    if at_end inside
                    then throws (record {
                      message = unterminated_comment;
                      span = record { begin = location s; end = location inside };
                    })
                    else again (advance (advance inside)))
                else stops)))

unfoldable pub skip_ignored : ℕ → Lexer → Result SqlError Lexer
skip_ignored zero s = fail exhausted (location s) s
skip_ignored (suc fuel) s = elim (skip_one s) [
  | again next ↦ skip_ignored fuel next
  | stops ↦ ok s
  | throws e ↦ err e
]

abbrev pub continues : Lexer → Bool
continues s = is_identifier_continue (peek 0 s)

abbrev pub in_digits : Lexer → Bool
in_digits s = is_digit (peek 0 s)

unfoldable pub scan_identifier : SourceLocation → Lexer → Result SqlError (Token × Lexer)
scan_identifier begin s =
    let after = advance_while continues (remaining s) s in
    ok (
      make_token (keyword_kind (lexeme_between after.source begin.offset after.current)) begin
          after,
      after,
    )

unfoldable pub scan_integer : SourceLocation → Lexer → Result SqlError (Token × Lexer)
scan_integer begin s =
    let after = advance_while in_digits (remaining s) s in
    if ltb max_integer_digits (after.current - begin.offset)
    then fail integer_too_long begin after
    else ok (make_token integer_kind begin after, after)

-- One round of the loop of scanString: a byte is decoded, the string is closed, or the text ends.
pub data StringStep : Type 0 where
  pushes : ℕ → Lexer → StringStep
  closes : Lexer → StringStep
  runs_out : StringStep

unfoldable pub string_step : Lexer → StringStep
string_step s =
    let next = advance s in
    if at_end s
    then runs_out
    else (if not (peek 0 s == quote)
        then pushes (peek 0 s) next
        else (if peek 0 next == quote then pushes quote (advance next) else closes next))

unfoldable pub scan_string_from :
    ℕ → List ℕ → SourceLocation → Lexer → Result SqlError (Token × Lexer)
scan_string_from zero decoded begin s = fail exhausted begin s
scan_string_from (suc fuel) decoded begin s = elim (string_step s) [
  | pushes value next ↦ scan_string_from fuel (decoded ++ (value ∷ [])) begin next
  | closes next ↦ ok (record (make_token string_kind begin next) { value = decoded }, next)
  | runs_out ↦ fail unterminated_string begin s
]

abbrev pub scan_string : SourceLocation → Lexer → Result SqlError (Token × Lexer)
scan_string begin s = scan_string_from (suc (remaining s)) [] begin s

abbrev pub emit : TokenKind → SourceLocation → Lexer → Result SqlError (Token × Lexer)
emit kind begin s = ok (make_token kind begin s, s)

-- The cases '!', '<' and '>'.
unfoldable pub scan_comparison : ℕ → SourceLocation → Lexer → Result SqlError (Token × Lexer)
scan_comparison value begin s =
    let (after, equals) = match_char b'=' s in
    let (beyond, greater) = match_char b'>' s in
    if value == b'!'
    then (if equals then emit bang_equal_kind begin after else fail lone_bang begin s)
    else (if value == b'<'
        then (if equals
            then emit less_equal_kind begin after
            else (if greater then emit less_greater_kind begin beyond else emit less_kind begin s))
        else (if value == b'>'
            then (if equals then emit greater_equal_kind begin after else emit greater_kind begin s)
            else fail unexpected_character begin s))

-- The token that begins with `value`, which has been advanced past.
unfoldable pub scan_token : ℕ → SourceLocation → Lexer → Result SqlError (Token × Lexer)
scan_token value begin s =
    if is_identifier_start value
    then scan_identifier begin s
    else (if is_digit value
        then scan_integer begin s
        else (if value == quote
            then scan_string begin s
            else (if value == b'('
                then emit left_paren_kind begin s
                else (if value == b')'
                    then emit right_paren_kind begin s
                    else (if value == b','
                        then emit comma_kind begin s
                        else (if value == b';'
                            then emit semicolon_kind begin s
                            else (if value == b'*'
                                then emit star_kind begin s
                                else (if value == b'='
                                    then emit equal_kind begin s
                                    else (if value == b'-'
                                        then emit minus_kind begin s
                                        else scan_comparison value begin s)))))))))

abbrev pub end_token : Lexer → Token
end_token s = record {
  kind = end_of_file_kind;
  lexeme = [];
  value = [];
  span = record { begin = location s; end = location s };
}

unfoldable pub tokenize_from : ℕ → Lexer → Result SqlError (List Token)
tokenize_from zero s = fail exhausted (location s) s
tokenize_from (suc fuel) s = do
  skipped ← skip_ignored (suc (remaining s)) s
  elim (at_end skipped) [
    | true ↦ ok (end_token skipped ∷ [])
    | false ↦ (do
      (token, next) ← scan_token (peek 0 skipped) (location skipped) (advance skipped)
      tokens ← tokenize_from fuel next
      ok (token ∷ tokens))
  ]

abbrev pub start : List ℕ → Lexer
start source = record {
  source = source;
  current = 0;
  line = 1;
  column = 1;
  previous_was_carriage_return = false;
}

abbrev pub tokenize : List ℕ → Result SqlError (List Token)
tokenize source = tokenize_from (suc (length source)) (start source)
