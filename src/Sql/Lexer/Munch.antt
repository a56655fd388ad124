-- ===== src/Sql/Lexer/Munch.antt =====
-- sql_lexer.cpp: words and numbers are as long as they can be.
use minidb_cpp.Prelude.{
  ℕ, ◌-◌, ◌≤◌, ◌<◌, ◌≡◌, refl, subst, ◌⊎◌, true, false, List, Result, ok, err, ltb, get_or, take,
  drop, Bool-cases, inl, inr, arith,
}
use minidb_cpp.Sql.Source.{SourceLocation}
use minidb_cpp.Sql.Token.{Token, integer_kind}
use minidb_cpp.Sql.Lexer.{
  Lexer, SqlError, advance_while, peek, remaining, continues, in_digits, scan_identifier,
  scan_integer, max_integer_digits, integer_too_long, make_token, is_identifier_continue,
  is_identifier_start, is_digit,
}
use minidb_cpp.Sql.Lexer.Advance.{continues-inside, in_digits-inside}
use minidb_cpp.Sql.Lexer.Longest.{Longest, peek-here, advance_while-Longest}

abbrev IsDigitByte : ℕ → Type 0
IsDigitByte c = (b'0' ≤ c) × (c ≤ b'9')

-- A letter, a digit or an underscore.
abbrev IsWordByte : ℕ → Type 0
IsWordByte c =
    ((b'A' ≤ c) × (c ≤ b'Z')) ⊎ (((b'a' ≤ c) × (c ≤ b'z')) ⊎ (IsDigitByte c ⊎ (c ≡ b'_')))

-- The byte at an index satisfies `P`.
abbrev At : (ℕ → Type 0) → List ℕ → ℕ → Type 0
At P text i = P (get_or text i 0)

-- `lexeme` is the text from `begin` to `t`.
abbrev IsText : List ℕ → SourceLocation → Lexer → Type 0
IsText lexeme begin t = lexeme ≡ take (t.current - begin.offset) (drop begin.offset t.source)

abbrev pub WordFrom : SourceLocation → Lexer → Result SqlError (Token × Lexer) → Type 0
WordFrom begin s (ok (token, t)) = Longest (At IsWordByte) s t × IsText token.lexeme begin t
WordFrom begin s (err e) = ⊥

abbrev pub IntegerFrom : SourceLocation → Lexer → Result SqlError (Token × Lexer) → Type 0
IntegerFrom begin s (ok (token, t)) =
    Longest (At IsDigitByte) s t
    × IsText token.lexeme begin t
    × (token.kind ≡ integer_kind)
    × (t.current - begin.offset ≤ 1024)
IntegerFrom begin s (err e) =
    (t : Lexer) × Longest (At IsDigitByte) s t
    × (1024 < t.current - begin.offset)
    × (e.message ≡ integer_too_long)

word_yes : (c : ℕ) → is_identifier_continue c ≡ true → IsWordByte c
unfolding is_identifier_continue is_identifier_start
word_yes c h = ground (arith, h)

word_no : (c : ℕ) → is_identifier_continue c ≡ false → ¬ IsWordByte c
unfolding is_identifier_continue is_identifier_start
word_no c h w = ground (arith, h, w)

digit_yes : (c : ℕ) → is_digit c ≡ true → IsDigitByte c
unfolding is_digit
digit_yes c h = ground (arith, h)

digit_no : (c : ℕ) → is_digit c ≡ false → ¬ IsDigitByte c
unfolding is_digit
digit_no c h w = ground (arith, h, w)

word-Longest : (s : Lexer) → Longest (At IsWordByte) s (advance_while continues (remaining s) s)
word-Longest s =
    advance_while-Longest continues (At IsWordByte)
      (λ t h. subst IsWordByte (peek-here t) (word_yes (peek 0 t) h))
      (λ t h. subst (λ (c : ℕ). ¬ IsWordByte c) (peek-here t) (word_no (peek 0 t) h))
      continues-inside (remaining s) s (omega arith)

digits-Longest : (s : Lexer) → Longest (At IsDigitByte) s (advance_while in_digits (remaining s) s)
digits-Longest s =
    advance_while-Longest in_digits (At IsDigitByte)
      (λ t h. subst IsDigitByte (peek-here t) (digit_yes (peek 0 t) h))
      (λ t h. subst (λ (c : ℕ). ¬ IsDigitByte c) (peek-here t) (digit_no (peek 0 t) h))
      in_digits-inside (remaining s) s (omega arith)

-- From every state scanIdentifier returns a token and reads all the letters, digits and underscores that
-- follow, and nothing else; scanInteger reads all the digits that follow, and nothing else, and returns
-- an integer where there are at most 1024 bytes from the begin of the token on, and the error that it
-- is too long otherwise. The lexeme of either token is the text from its begin to where it ends.
pub scan-Longest :
    (begin : SourceLocation) (s : Lexer)
    → WordFrom begin s (scan_identifier begin s) × IntegerFrom begin s (scan_integer begin s)
unfolding scan_identifier scan_integer make_token
scan-Longest begin s = (
  (word-Longest s, refl),
  elim (Bool-cases (ltb max_integer_digits (after.current - begin.offset))) [
    | inl e ↦ rw e (after, digits-Longest s, ground (arith, e), refl)
    | inr e ↦ rw e (digits-Longest s, refl, refl, ground (arith, e))
  ],
)
  where
    after : Lexer
    after = advance_while in_digits (remaining s) s
