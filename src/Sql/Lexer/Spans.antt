-- ===== src/Sql/Lexer/Spans.antt =====
-- sql_lexer.cpp, Lexer::tokenize: the spans of the tokens, and an end on every text.
use minidb_cpp.Prelude.{
  ℕ, zero, suc, ◌≤◌, ◌<◌, ◌≡◌, ◌≢◌, refl, ap, ◌∙◌, Bool, true, false, List, [], ◌∷◌, Result, ok,
  err, leb→le, length, arith, ◌>>=◌, ◌⊎◌, inl, inr, subst, sym, false≢true,
}
use minidb_cpp.Sql.Source.{SourceLocation}
use minidb_cpp.Sql.Token.{Token, end_of_file_kind}
use minidb_cpp.Sql.Lexer.{
  Lexer, SqlError, exhausted, advance, at_end, remaining, peek, location, lexeme_between,
  scan_token, tokenize_from, tokenize, end_token, start, skip_ignored,
}
use minidb_cpp.Sql.Lexer.Advance.{Later, advance-Later, advance-current, advance-source}
use minidb_cpp.Sql.Lexer.Rounds.{SkippedTo, skip_ignored-Later, within_text, not_at_end}
use minidb_cpp.Sql.Lexer.Gaps.{Ignored, Solid}
use minidb_cpp.Sql.Lexer.Skips.{Gap, GapTo, skip_ignored-Gap}
use minidb_cpp.Sql.Lexer.Scans.{Scans, scan_token-Scans}

-- Tokens that tile a text from the offset `from` on: the text up to the begin of each is ignored, and
-- nothing that is ignored stands there; it holds the bytes between its ends, of which there is at least
-- one; the last is the end, and the text before it is ignored too.
abbrev pub Tiles : List ℕ → ℕ → List Token → Type 0
Tiles source from [] = ⊥
Tiles source from (token ∷ []) =
    (token.kind ≡ end_of_file_kind)
    × (token.span.begin.offset ≡ length source)
    × (token.span.end ≡ token.span.begin)
    × Ignored source (length source) from
Tiles source from (token ∷ (next ∷ tokens)) =
    (from ≤ token.span.begin.offset)
    × Ignored source token.span.begin.offset from
    × Solid source token.span.begin.offset
    × (token.span.begin.offset < token.span.end.offset)
    × (token.lexeme ≡ lexeme_between source token.span.begin.offset token.span.end.offset)
    × Tiles source token.span.end.offset (next ∷ tokens)

abbrev pub Lexed : List ℕ → ℕ → Result SqlError (List Token) → Type 0
Lexed source from (ok tokens) = Tiles source from tokens
Lexed source from (err e) = e.message ≢ exhausted

Tiles-cons :
    (source : List ℕ) (from : ℕ) (token : Token) (tokens : List Token)
    → from ≤ token.span.begin.offset
    → Ignored source token.span.begin.offset from
    → Solid source token.span.begin.offset
    → token.span.begin.offset < token.span.end.offset
    → token.lexeme ≡ lexeme_between source token.span.begin.offset token.span.end.offset
    → Tiles source token.span.end.offset tokens
    → Tiles source from (token ∷ tokens)
Tiles-cons source from token [] a b c d e f = absurd f
Tiles-cons source from token (next ∷ tokens) a b c d e f = (a, b, c, d, e, f)

-- One token in front of the rest.
one_more :
    (source : List ℕ) (s : Lexer) (from : ℕ) (result : Result SqlError (Token × Lexer))
    (rest : Lexer → Result SqlError (List Token))
    → s.source ≡ source
    → from ≤ s.current
    → Ignored source s.current from
    → Solid source s.current
    → s.current < length source
    → Scans (location s) (advance s) result
    → ((t : Lexer)
        → t.source ≡ source
        → s.current < t.current
        → t.current ≤ length source
        → Lexed source t.current (rest t))
    → Lexed source from (result >>= λ (token, next). rest next >>= λ tokens. ok (token ∷ tokens))
one_more source s from (err e) rest a b gap solid c d later = d
one_more source s from (ok (token, t)) rest a b gap solid c d later =
    joined (rest t) (later t (d.0.0 ∙ advance-source s ∙ a) further inside)
  where
    further : s.current < t.current
    further = omega (arith, d.0, advance-current s)

    inside : t.current ≤ length source
    inside = omega (
      arith,
      d.0,
      ap (λ (l : List ℕ). length l) (advance-source s),
      ap (λ (l : List ℕ). length l) a,
    )

    begins : token.span.begin.offset ≡ s.current
    begins = ap (λ (l : SourceLocation). l.offset) d.1.0

    ends : token.span.end.offset ≡ t.current
    ends = ap (λ (l : SourceLocation). l.offset) d.1.1

    joined :
        (r : Result SqlError (List Token))
        → Lexed source t.current r
        → Lexed source from (r >>= λ tokens. ok (token ∷ tokens))
    joined (err e) l = l
    joined (ok tokens) l =
        Tiles-cons source from token tokens (omega (arith, b, begins))
          (subst (λ (n : ℕ). Ignored source n from) (sym begins) gap)
          (subst (Solid source) (sym begins) solid) (omega (arith, begins, ends, further))
          (rw (begins, ends)
            (d.1.2
              ∙ ap (λ (y : List ℕ). lexeme_between y s.current t.current) (advance-source s ∙ a)))
          (rw ends l)

-- The round of tokenize after the blanks.
chosen :
    (source : List ℕ) (s t : Lexer) (fuel : ℕ)
    → s.source ≡ source
    → Later s t
    → Gap s t
    → ((u : Lexer)
        → u.source ≡ source
        → s.current < u.current
        → u.current ≤ length source
        → Lexed source u.current (tokenize_from fuel u))
    → (b : Bool) → at_end t ≡ b
    → Lexed source s.current (elim b [
      | true ↦ ok (end_token t ∷ [])
      | false ↦ scan_token (peek 0 t) (location t) (advance t) >>= λ (token, next).
          tokenize_from fuel next >>= λ tokens. ok (token ∷ tokens)
    ])
chosen source s t fuel a k gap later true e = (
  refl,
  last,
  refl,
  subst (λ (n : ℕ). Ignored source n s.current) last
      (subst (λ (b : List ℕ). Ignored b t.current s.current) a gap.0),
)
  where
    last : t.current ≡ length source
    last = omega (
      arith,
      leb→le (length t.source) t.current e,
      k,
      ap (λ (l : List ℕ). length l) a,
      ap (λ (l : List ℕ). length l) k.0,
    )
chosen source s t fuel a k gap later false e =
    one_more source t s.current (scan_token (peek 0 t) (location t) (advance t))
      (tokenize_from fuel) (k.0 ∙ a) k.1
      (subst (λ (b : List ℕ). Ignored b t.current s.current) a gap.0) (solid gap.1) before scanned
      (λ u h i j. later u h (omega (arith, k, i)) j)
  where
    solid : (at_end t ≡ true) ⊎ Solid t.source t.current → Solid source t.current
    solid (inl ended) = absurd (false≢true (sym e ∙ ended))
    solid (inr here) = subst (λ (b : List ℕ). Solid b t.current) (k.0 ∙ a) here

    before : t.current < length source
    before = omega (arith, not_at_end t e, ap (λ (l : List ℕ). length l) (k.0 ∙ a))

    scanned : Scans (location t) (advance t) (scan_token (peek 0 t) (location t) (advance t))
    scanned =
        scan_token-Scans (peek 0 t) (location t) (advance t)
          (within_text t (advance t) (advance-Later t e))

tokenize_from-Lexed :
    (source : List ℕ) (fuel : ℕ) (s : Lexer)
    → s.source ≡ source
    → s.current ≤ length source
    → remaining s < fuel
    → Lexed source s.current (tokenize_from fuel s)
unfolding tokenize_from
tokenize_from-Lexed source zero s a h f = absurd (omega (arith, f))
tokenize_from-Lexed source (suc fuel) s a h f =
    after (skip_ignored (suc (remaining s)) s)
      (skip_ignored-Later (suc (remaining s)) s (omega (arith, h, ap (λ (l : List ℕ). length l) a))
        (omega arith))
      (skip_ignored-Gap (suc (remaining s)) s)
      (λ t e k i.
        tokenize_from-Lexed source fuel t e i (
          omega (arith, f, k, i, ap (λ (l : List ℕ). length l) a, ap (λ (l : List ℕ). length l) e)))
  where
    after :
        (r : Result SqlError Lexer)
        → SkippedTo s r
        → GapTo s r
        → ((t : Lexer)
            → t.source ≡ source
            → s.current < t.current
            → t.current ≤ length source
            → Lexed source t.current (tokenize_from fuel t))
        → Lexed source s.current (
            r >>= λ skipped. elim (at_end skipped) [
              | true ↦ ok (end_token skipped ∷ [])
              | false ↦
                  scan_token (peek 0 skipped) (location skipped) (advance skipped)
                  >>= λ (token, next). tokenize_from fuel next >>= λ tokens. ok (token ∷ tokens)
            ])
    after (err e) k gap later = k
    after (ok t) k gap later = chosen source s t fuel a k gap later (at_end t) refl

-- Every text is lexed within the fuel that tokenize has: either a SqlError is thrown, or the tokens
-- tile the text. Before each token stand only blanks, comments from two dashes to the end of their line,
-- and comments from a slash and a star to the first star and slash behind them, and none of these begins
-- where the token does. Its lexeme is the text between its ends, of at least one byte. The last token is
-- the end of the input, at the end.
pub tokenize-Lexed : (source : List ℕ) → Lexed source 0 (tokenize source)
tokenize-Lexed source =
    tokenize_from-Lexed source (suc (length source)) (start source) refl (omega arith) (omega arith)
