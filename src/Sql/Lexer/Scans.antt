-- ===== src/Sql/Lexer/Scans.antt =====
-- sql_lexer.cpp: what each scanning method returns.
use minidb_cpp.Prelude.{
  ℕ, zero, suc, ◌+◌, ◌≤◌, ◌<◌, ◌≡◌, ◌≢◌, refl, ap, ◌∙◌, Bool, true, false, List, [], ◌∷◌, ◌++◌,
  Result, ok, err, ◌==◌, if◌then◌else◌, length, Bool-cases, inl, inr, arith,
}
use minidb_cpp.Sql.Source.{SourceLocation}
use minidb_cpp.Sql.Token.{Token, TokenKind, string_kind}
use minidb_cpp.Sql.Lexer.{
  Lexer, SqlError, exhausted, unterminated_string, advance, advance_while, at_end, remaining, peek,
  location, continues, in_digits, lexeme_between, make_token, fail, integer_too_long, lone_bang,
  unexpected_character, StringStep, pushes, closes, runs_out, string_step, scan_string_from, quote,
  scan_identifier, scan_integer, match_char, scan_comparison, scan_token,
}
use minidb_cpp.Sql.Lexer.Advance.{
  Later, Later-trans, advance-Later, advance_while-Later, continues-inside, in_digits-inside,
  advance-current, advance-source,
}
use minidb_cpp.Sql.Lexer.Rounds.{
  Beyond, within_text, advance-Beyond, Later-self, read_inside, twice-Beyond,
}

-- A token that begins at `begin`, ends at the state `t`, and holds the text between.
abbrev pub Spells : List ℕ → SourceLocation → Token → Lexer → Type 0
Spells source begin token t =
    (token.span.begin ≡ begin)
    × (token.span.end ≡ location t)
    × (token.lexeme ≡ lexeme_between source begin.offset t.current)

-- What a scanning method may return that is called in the state `s`.
abbrev pub Scans : SourceLocation → Lexer → Result SqlError (Token × Lexer) → Type 0
Scans begin s (ok (token, t)) = Later s t × Spells s.source begin token t
Scans begin s (err e) = e.message ≢ exhausted

make_token-Scans :
    (kind : TokenKind) (begin : SourceLocation) (s t : Lexer)
    → Later s t
    → Scans begin s (ok (make_token kind begin t, t))
unfolding make_token
make_token-Scans kind begin s t l =
    (l, (refl, refl, ap (λ (b : List ℕ). lexeme_between b begin.offset t.current) l.0))

match_char-Later :
    (expected : ℕ) (s : Lexer) → s.current ≤ length s.source → Later s (match_char expected s).0
unfolding match_char
match_char-Later expected s h = elim (Bool-cases (at_end s)) [
  | inl e ↦ rw e (Later-self s h)
  | inr e ↦ elim (Bool-cases (peek 0 s == expected)) [
    | inl same ↦ rw (e, same) (advance-Later s e)
    | inr differs ↦ rw (e, differs) (Later-self s h)
  ]
]

if-Scans :
    (begin : SourceLocation) (s : Lexer) (t : Bool) (a b : Result SqlError (Token × Lexer))
    → Scans begin s a
    → Scans begin s b
    → Scans begin s (if t then a else b)
if-Scans begin s true a b h k = h
if-Scans begin s false a b h k = k

scan_comparison-Scans :
    (value : ℕ) (begin : SourceLocation) (s : Lexer)
    → s.current ≤ length s.source
    → Scans begin s (scan_comparison value begin s)
unfolding scan_comparison
scan_comparison-Scans value begin s h =
    let equals = match_char-Later b'=' s h in
    let greater = match_char-Later b'>' s h in
    let none_so = Later-self s h in
    let bang : Scans begin s (fail lone_bang begin s) = λ e. cc in
    let odd : Scans begin s (fail unexpected_character begin s) = λ e. cc in
    search (if-Scans, make_token-Scans, equals, greater, none_so, bang, odd)

-- What one round of scanString may answer.
abbrev Steps : Lexer → StringStep → Type 0
Steps s (pushes value t) = Beyond s t
Steps s (closes t) = Later s t
Steps s runs_out = Unit

string_step-Beyond : (s : Lexer) → s.current ≤ length s.source → Steps s (string_step s)
unfolding string_step
string_step-Beyond s h = elim (Bool-cases (at_end s)) [
  | inl e ↦ rw e tt
  | inr e ↦ elim (Bool-cases (peek 0 s == quote)) [
    | inr plain ↦ rw (e, plain) (advance-Beyond s e)
    | inl closing ↦ elim (Bool-cases (peek 0 (advance s) == quote)) [
      | inl doubled ↦ rw (e, closing, doubled) (twice-Beyond s (second s e doubled))
      | inr ended ↦ rw (e, closing, ended) (advance-Later s e)
    ]
  ]
]
  where
    second :
        (s : Lexer)
        → at_end s ≡ false
        → peek 0 (advance s) == quote ≡ true
        → s.current + 1 < length s.source
    second s e d = omega (
      arith,
      read_inside (advance s) 0 (nonzero (peek 0 (advance s)) d),
      advance-current s,
      ap (λ (b : List ℕ). length b) (advance-source s),
    )
      where
        nonzero : (c : ℕ) → c == quote ≡ true → c ≢ 0
        nonzero c e z = ground (arith, e, z)

from_Later :
    (begin : SourceLocation) (s t : Lexer)
    → Later s t
    → (r : Result SqlError (Token × Lexer)) → Scans begin t r
    → Scans begin s r
from_Later begin s t l (ok (token, u)) (m, (b, e, x)) = (
  Later-trans s t u l m,
  (b, e, x ∙ ap (λ (y : List ℕ). lexeme_between y begin.offset u.current) l.0),
)
from_Later begin s t l (err e) h = h

scan_string_from-Scans :
    (fuel : ℕ) (decoded : List ℕ) (begin : SourceLocation) (s : Lexer)
    → s.current ≤ length s.source
    → remaining s < fuel
    → Scans begin s (scan_string_from fuel decoded begin s)
unfolding scan_string_from make_token
scan_string_from-Scans zero decoded begin s h f = absurd (omega (arith, f))
scan_string_from-Scans (suc fuel) decoded begin s h f =
    answered (string_step s) (string_step-Beyond s h) (λ d t b.
      scan_string_from-Scans fuel d begin t (within_text s t b.0)
        (omega (arith, f, b, ap (λ (l : List ℕ). length l) b.0.0)))
  where
    answered :
        (a : StringStep)
        → Steps s a
        → ((d : List ℕ) (t : Lexer) → Beyond s t → Scans begin t (scan_string_from fuel d begin t))
        → Scans begin s (elim a [
          | pushes value next ↦ scan_string_from fuel (decoded ++ (value ∷ [])) begin next
          | closes next ↦ ok (record (make_token string_kind begin next) { value = decoded }, next)
          | runs_out ↦ fail unterminated_string begin s
        ])
    answered (pushes value t) b later =
        from_Later begin s t b.0 _ (later (decoded ++ (value ∷ [])) t b)
    answered (closes t) b later =
        (b, (refl, refl, ap (λ (l : List ℕ). lexeme_between l begin.offset t.current) b.0))
    answered runs_out b later = λ e. cc

pub scan_token-Scans :
    (value : ℕ) (begin : SourceLocation) (s : Lexer)
    → s.current ≤ length s.source
    → Scans begin s (scan_token value begin s)
unfolding scan_token scan_identifier scan_integer
scan_token-Scans value begin s h =
    let none_so = Later-self s h in
    let word = advance_while-Later continues (remaining s) s continues-inside h in
    let number = advance_while-Later in_digits (remaining s) s in_digits-inside h in
    let long : Scans begin s
        (fail integer_too_long begin (advance_while in_digits (remaining s) s)) =
      λ e. cc in
    let text = scan_string_from-Scans (suc (remaining s)) [] begin s h (omega arith) in
    let other = scan_comparison-Scans value begin s h in
    search (if-Scans, make_token-Scans, none_so, word, number, long, text, other) depth 16
