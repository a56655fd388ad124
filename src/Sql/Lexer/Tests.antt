-- ===== src/Sql/Lexer/Tests.antt =====
-- sql_lexer.cpp on `a<>'b''`, whose string is not closed, and on a statement.
use minidb_cpp.Prelude.{ℕ, false, arith, List, [], ◌∷◌, ◌≡◌, refl, err}
use minidb_cpp.Sql.Lexer.{
  Lexer, scan_string, start, location, tokenize, tokenize_from, skip_ignored, skip_one, scan_token,
  scan_comparison, scan_identifier, scan_integer, scan_string_from, string_step, advance,
  advance_while, match_char, make_token, is_identifier_start, is_identifier_continue, is_digit,
  keyword_in, ascii_upper, unterminated_string, quote,
}
use minidb_cpp.Sql.Lexer.Munch.{WordFrom, IntegerFrom, scan-Longest}
use minidb_cpp.Sql.Lexer.Strings.{Spells, scan_string-doubled}
use minidb_cpp.Sql.Lexer.Spans.{Lexed, tokenize-Lexed}

abbrev unclosed : List ℕ
unclosed = b'a' ∷ b'<' ∷ b'>' ∷ quote ∷ b'b' ∷ quote ∷ quote ∷ []

abbrev statement : List ℕ
statement =
    b's' ∷ b'e' ∷ b't' ∷ b' ' ∷ b'<' ∷ b'=' ∷ 10 ∷ quote ∷ b'a' ∷ quote ∷ quote ∷ quote ∷ b'1' ∷ []

unclosed_throws :
    tokenize unclosed
    ≡ err (record {
      message = unterminated_string;
      span = record {
        begin = record { offset = 3; line = 1; column = 4 };
        end = record { offset = 7; line = 1; column = 8 };
      };
    })
unfolding tokenize_from skip_ignored skip_one scan_token scan_comparison scan_identifier
    scan_integer scan_string_from string_step advance advance_while match_char make_token
    is_identifier_start is_identifier_continue is_digit keyword_in ascii_upper
unclosed_throws = refl

tokenize-Lexed_example : Lexed statement 0 (tokenize statement)
tokenize-Lexed_example = tokenize-Lexed statement

scan-Longest_example :
    WordFrom
      (location (start statement))
      (start statement)
      (scan_identifier (location (start statement)) (start statement))
    × IntegerFrom
        (location (start statement))
        (start statement)
        (scan_integer (location (start statement)) (start statement))
scan-Longest_example = scan-Longest (location (start statement)) (start statement)

-- `it's` behind its first quote, before a comma.
abbrev spelled : Lexer
spelled = record {
  source = quote ∷ b'i' ∷ b't' ∷ quote ∷ quote ∷ b's' ∷ quote ∷ b',' ∷ [];
  current = 1;
  line = 1;
  column = 2;
  previous_was_carriage_return = false;
}

scan_string-doubled_example :
    Spells
      (b'i' ∷ b't' ∷ quote ∷ b's' ∷ [])
      (b',' ∷ [])
      (scan_string (location (start spelled.source)) spelled)
scan_string-doubled_example =
    scan_string-doubled (b'i' ∷ b't' ∷ quote ∷ b's' ∷ []) (b',' ∷ [])
      (location (start spelled.source)) spelled refl (omega arith)
