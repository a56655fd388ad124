-- ===== src/Sql/Token.antt =====
-- include/minidb/sql_token.hpp, and the tables of src/sql_lexer.cpp. A text is the list of its bytes.
use minidb_cpp.Prelude.{ℕ, List, [], ◌∷◌}
use minidb_cpp.Sql.Source.{SourceSpan}

pub data TokenKind : Type 0 where
  end_of_file_kind identifier_kind integer_kind string_kind create_kind table_kind : TokenKind
  insert_kind into_kind values_kind select_kind from_kind where_kind : TokenKind
  update_kind set_kind delete_kind primary_kind key_kind not_kind : TokenKind
  null_kind uint32_kind int64_kind boolean_kind varchar_kind true_kind : TokenKind
  false_kind and_kind or_kind begin_kind read_kind only_kind : TokenKind
  write_kind transaction_kind commit_kind rollback_kind left_paren_kind right_paren_kind : TokenKind
  comma_kind semicolon_kind star_kind equal_kind bang_equal_kind less_greater_kind : TokenKind
  less_kind less_equal_kind greater_kind greater_equal_kind minus_kind : TokenKind

-- The value of the enumerator.
unfoldable pub code_of : TokenKind → ℕ
code_of end_of_file_kind = 0
code_of identifier_kind = 1
code_of integer_kind = 2
code_of string_kind = 3
code_of create_kind = 4
code_of table_kind = 5
code_of insert_kind = 6
code_of into_kind = 7
code_of values_kind = 8
code_of select_kind = 9
code_of from_kind = 10
code_of where_kind = 11
code_of update_kind = 12
code_of set_kind = 13
code_of delete_kind = 14
code_of primary_kind = 15
code_of key_kind = 16
code_of not_kind = 17
code_of null_kind = 18
code_of uint32_kind = 19
code_of int64_kind = 20
code_of boolean_kind = 21
code_of varchar_kind = 22
code_of true_kind = 23
code_of false_kind = 24
code_of and_kind = 25
code_of or_kind = 26
code_of begin_kind = 27
code_of transaction_kind = 28
code_of commit_kind = 29
code_of rollback_kind = 30
code_of read_kind = 31
code_of only_kind = 32
code_of write_kind = 33
code_of left_paren_kind = 34
code_of right_paren_kind = 35
code_of comma_kind = 36
code_of semicolon_kind = 37
code_of star_kind = 38
code_of equal_kind = 39
code_of bang_equal_kind = 40
code_of less_greater_kind = 41
code_of less_kind = 42
code_of less_equal_kind = 43
code_of greater_kind = 44
code_of greater_equal_kind = 45
code_of minus_kind = 46

pub record Token : Type 0 where
  pub kind : TokenKind
  pub lexeme : List ℕ
  pub value : List ℕ
  pub span : SourceSpan

pub record Keyword : Type 0 where
  pub spelling : List ℕ
  pub kind : TokenKind

abbrev entry : List ℕ → TokenKind → Keyword
entry spelling kind = record { spelling = spelling; kind = kind }

abbrev pub keywords : List Keyword
keywords =
    entry (b'C' ∷ b'R' ∷ b'E' ∷ b'A' ∷ b'T' ∷ b'E' ∷ []) create_kind
    ∷ entry (b'T' ∷ b'A' ∷ b'B' ∷ b'L' ∷ b'E' ∷ []) table_kind
    ∷ entry (b'I' ∷ b'N' ∷ b'S' ∷ b'E' ∷ b'R' ∷ b'T' ∷ []) insert_kind
    ∷ entry (b'I' ∷ b'N' ∷ b'T' ∷ b'O' ∷ []) into_kind
    ∷ entry (b'V' ∷ b'A' ∷ b'L' ∷ b'U' ∷ b'E' ∷ b'S' ∷ []) values_kind
    ∷ entry (b'S' ∷ b'E' ∷ b'L' ∷ b'E' ∷ b'C' ∷ b'T' ∷ []) select_kind
    ∷ entry (b'F' ∷ b'R' ∷ b'O' ∷ b'M' ∷ []) from_kind
    ∷ entry (b'W' ∷ b'H' ∷ b'E' ∷ b'R' ∷ b'E' ∷ []) where_kind
    ∷ entry (b'U' ∷ b'P' ∷ b'D' ∷ b'A' ∷ b'T' ∷ b'E' ∷ []) update_kind
    ∷ entry (b'S' ∷ b'E' ∷ b'T' ∷ []) set_kind
    ∷ entry (b'D' ∷ b'E' ∷ b'L' ∷ b'E' ∷ b'T' ∷ b'E' ∷ []) delete_kind
    ∷ entry (b'P' ∷ b'R' ∷ b'I' ∷ b'M' ∷ b'A' ∷ b'R' ∷ b'Y' ∷ []) primary_kind
    ∷ entry (b'K' ∷ b'E' ∷ b'Y' ∷ []) key_kind
    ∷ entry (b'N' ∷ b'O' ∷ b'T' ∷ []) not_kind
    ∷ entry (b'N' ∷ b'U' ∷ b'L' ∷ b'L' ∷ []) null_kind
    ∷ entry (b'U' ∷ b'I' ∷ b'N' ∷ b'T' ∷ b'3' ∷ b'2' ∷ []) uint32_kind
    ∷ entry (b'I' ∷ b'N' ∷ b'T' ∷ b'6' ∷ b'4' ∷ []) int64_kind
    ∷ entry (b'B' ∷ b'O' ∷ b'O' ∷ b'L' ∷ b'E' ∷ b'A' ∷ b'N' ∷ []) boolean_kind
    ∷ entry (b'V' ∷ b'A' ∷ b'R' ∷ b'C' ∷ b'H' ∷ b'A' ∷ b'R' ∷ []) varchar_kind
    ∷ entry (b'T' ∷ b'R' ∷ b'U' ∷ b'E' ∷ []) true_kind
    ∷ entry (b'F' ∷ b'A' ∷ b'L' ∷ b'S' ∷ b'E' ∷ []) false_kind
    ∷ entry (b'A' ∷ b'N' ∷ b'D' ∷ []) and_kind
    ∷ entry (b'O' ∷ b'R' ∷ []) or_kind
    ∷ entry (b'B' ∷ b'E' ∷ b'G' ∷ b'I' ∷ b'N' ∷ []) begin_kind
    ∷ entry (b'R' ∷ b'E' ∷ b'A' ∷ b'D' ∷ []) read_kind
    ∷ entry (b'O' ∷ b'N' ∷ b'L' ∷ b'Y' ∷ []) only_kind
    ∷ entry (b'W' ∷ b'R' ∷ b'I' ∷ b'T' ∷ b'E' ∷ []) write_kind
    ∷ entry (b'T' ∷ b'R' ∷ b'A' ∷ b'N' ∷ b'S' ∷ b'A' ∷ b'C' ∷ b'T' ∷ b'I' ∷ b'O' ∷ b'N' ∷ [])
        transaction_kind
    ∷ entry (b'C' ∷ b'O' ∷ b'M' ∷ b'M' ∷ b'I' ∷ b'T' ∷ []) commit_kind
    ∷ entry (b'R' ∷ b'O' ∷ b'L' ∷ b'L' ∷ b'B' ∷ b'A' ∷ b'C' ∷ b'K' ∷ []) rollback_kind
    ∷ []

unfoldable pub token_kind_name : TokenKind → List ℕ
token_kind_name end_of_file_kind =
    b'e' ∷ b'n' ∷ b'd' ∷ b' ' ∷ b'o' ∷ b'f' ∷ b' ' ∷ b'i' ∷ b'n' ∷ b'p' ∷ b'u' ∷ b't' ∷ []
token_kind_name identifier_kind =
    b'i' ∷ b'd' ∷ b'e' ∷ b'n' ∷ b't' ∷ b'i' ∷ b'f' ∷ b'i' ∷ b'e' ∷ b'r' ∷ []
token_kind_name integer_kind = b'i' ∷ b'n' ∷ b't' ∷ b'e' ∷ b'g' ∷ b'e' ∷ b'r' ∷ []
token_kind_name string_kind = b's' ∷ b't' ∷ b'r' ∷ b'i' ∷ b'n' ∷ b'g' ∷ []
token_kind_name create_kind = b'C' ∷ b'R' ∷ b'E' ∷ b'A' ∷ b'T' ∷ b'E' ∷ []
token_kind_name table_kind = b'T' ∷ b'A' ∷ b'B' ∷ b'L' ∷ b'E' ∷ []
token_kind_name insert_kind = b'I' ∷ b'N' ∷ b'S' ∷ b'E' ∷ b'R' ∷ b'T' ∷ []
token_kind_name into_kind = b'I' ∷ b'N' ∷ b'T' ∷ b'O' ∷ []
token_kind_name values_kind = b'V' ∷ b'A' ∷ b'L' ∷ b'U' ∷ b'E' ∷ b'S' ∷ []
token_kind_name select_kind = b'S' ∷ b'E' ∷ b'L' ∷ b'E' ∷ b'C' ∷ b'T' ∷ []
token_kind_name from_kind = b'F' ∷ b'R' ∷ b'O' ∷ b'M' ∷ []
token_kind_name where_kind = b'W' ∷ b'H' ∷ b'E' ∷ b'R' ∷ b'E' ∷ []
token_kind_name update_kind = b'U' ∷ b'P' ∷ b'D' ∷ b'A' ∷ b'T' ∷ b'E' ∷ []
token_kind_name set_kind = b'S' ∷ b'E' ∷ b'T' ∷ []
token_kind_name delete_kind = b'D' ∷ b'E' ∷ b'L' ∷ b'E' ∷ b'T' ∷ b'E' ∷ []
token_kind_name primary_kind = b'P' ∷ b'R' ∷ b'I' ∷ b'M' ∷ b'A' ∷ b'R' ∷ b'Y' ∷ []
token_kind_name key_kind = b'K' ∷ b'E' ∷ b'Y' ∷ []
token_kind_name not_kind = b'N' ∷ b'O' ∷ b'T' ∷ []
token_kind_name null_kind = b'N' ∷ b'U' ∷ b'L' ∷ b'L' ∷ []
token_kind_name uint32_kind = b'U' ∷ b'I' ∷ b'N' ∷ b'T' ∷ b'3' ∷ b'2' ∷ []
token_kind_name int64_kind = b'I' ∷ b'N' ∷ b'T' ∷ b'6' ∷ b'4' ∷ []
token_kind_name boolean_kind = b'B' ∷ b'O' ∷ b'O' ∷ b'L' ∷ b'E' ∷ b'A' ∷ b'N' ∷ []
token_kind_name varchar_kind = b'V' ∷ b'A' ∷ b'R' ∷ b'C' ∷ b'H' ∷ b'A' ∷ b'R' ∷ []
token_kind_name true_kind = b'T' ∷ b'R' ∷ b'U' ∷ b'E' ∷ []
token_kind_name false_kind = b'F' ∷ b'A' ∷ b'L' ∷ b'S' ∷ b'E' ∷ []
token_kind_name and_kind = b'A' ∷ b'N' ∷ b'D' ∷ []
token_kind_name or_kind = b'O' ∷ b'R' ∷ []
token_kind_name begin_kind = b'B' ∷ b'E' ∷ b'G' ∷ b'I' ∷ b'N' ∷ []
token_kind_name read_kind = b'R' ∷ b'E' ∷ b'A' ∷ b'D' ∷ []
token_kind_name only_kind = b'O' ∷ b'N' ∷ b'L' ∷ b'Y' ∷ []
token_kind_name write_kind = b'W' ∷ b'R' ∷ b'I' ∷ b'T' ∷ b'E' ∷ []
token_kind_name transaction_kind =
    b'T' ∷ b'R' ∷ b'A' ∷ b'N' ∷ b'S' ∷ b'A' ∷ b'C' ∷ b'T' ∷ b'I' ∷ b'O' ∷ b'N' ∷ []
token_kind_name commit_kind = b'C' ∷ b'O' ∷ b'M' ∷ b'M' ∷ b'I' ∷ b'T' ∷ []
token_kind_name rollback_kind = b'R' ∷ b'O' ∷ b'L' ∷ b'L' ∷ b'B' ∷ b'A' ∷ b'C' ∷ b'K' ∷ []
token_kind_name left_paren_kind = b'(' ∷ []
token_kind_name right_paren_kind = b')' ∷ []
token_kind_name comma_kind = b',' ∷ []
token_kind_name semicolon_kind = b';' ∷ []
token_kind_name star_kind = b'*' ∷ []
token_kind_name equal_kind = b'=' ∷ []
token_kind_name bang_equal_kind = b'!' ∷ b'=' ∷ []
token_kind_name less_greater_kind = b'<' ∷ b'>' ∷ []
token_kind_name less_kind = b'<' ∷ []
token_kind_name less_equal_kind = b'<' ∷ b'=' ∷ []
token_kind_name greater_kind = b'>' ∷ []
token_kind_name greater_equal_kind = b'>' ∷ b'=' ∷ []
token_kind_name minus_kind = b'-' ∷ []
