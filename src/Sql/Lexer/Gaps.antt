-- ===== src/Sql/Lexer/Gaps.antt =====
-- sql_lexer.cpp, `skipIgnored`: what is skipped, and what is not.
use minidb_cpp.Prelude.{
  ℕ, ◌+◌, ◌<◌, ◌≡◌, ◌≢◌, ◌∙◌, subst, ◌⊎◌, Bool, true, false, not, ◌&&◌, List, leb, ◌==◌, length,
  get_or, Bool-cases, inl, inr, arith,
}
use minidb_cpp.Sql.Lexer.{
  Lexer, advance, at_end, remaining, peek, in_line, in_comment, skip_line, skip_comment,
}
use minidb_cpp.Sql.Lexer.Advance.{advance-current, advance-source}
use minidb_cpp.Sql.Lexer.Rounds.{in_line-inside, in_comment-inside}
use minidb_cpp.Sql.Lexer.Longest.{Extent, Longest, peek-here, advance_while-Longest}

-- A space, a tab, a line feed or a carriage return.
abbrev pub IsBlank : ℕ → Type 0
IsBlank c = (c ≡ 32) ⊎ ((c ≡ 9) ⊎ ((c ≡ 10) ⊎ (c ≡ 13)))

-- The bytes `a` and `b` stand at an index.
abbrev pub Pair : ℕ → ℕ → List ℕ → ℕ → Type 0
Pair a b text i = (get_or text i 0 ≡ a) × (get_or text (i + 1) 0 ≡ b)

-- A byte of the text that ends no line.
abbrev pub InLine : List ℕ → ℕ → Type 0
InLine text i = (i < length text) × (get_or text i 0 ≢ 13) × (get_or text i 0 ≢ 10)

-- A byte of the text that does not begin the mark that closes a comment.
abbrev pub InComment : List ℕ → ℕ → Type 0
InComment text i = (i < length text) × (¬ Pair b'*' b'/' text i)

-- The text up to `to` from an index consists of blanks, of comments from two dashes to the end of the
-- line, and of comments from a slash and a star to the first star and slash behind them.
pub data Ignored (text : List ℕ) (to : ℕ) : ℕ → Type 0 where
  no_gap : Ignored text to to
  blank_byte : {i : ℕ} → IsBlank (get_or text i 0) → Ignored text to (i + 1) → Ignored text to i
  line_comment :
      {i : ℕ} (j : ℕ)
      → Pair b'-' b'-' text i
      → Extent InLine text (i + 2) j
      → Ignored text to j
      → Ignored text to i
  block_comment :
      {i : ℕ} (j : ℕ)
      → Pair b'/' b'*' text i
      → Extent InComment text (i + 2) j
      → Pair b'*' b'/' text j
      → Ignored text to (j + 2)
      → Ignored text to i

-- Neither a blank nor a comment begins at the index.
abbrev pub Solid : List ℕ → ℕ → Type 0
Solid text i = (¬ IsBlank (get_or text i 0)) × (¬ Pair b'-' b'-' text i) × (¬ Pair b'/' b'*' text i)

line_yes : (s : Lexer) → in_line s ≡ true → InLine s.source s.current
line_yes s h = go (peek 0 s) (peek-here s) (length s.source) h
  where
    go :
        (c : ℕ)
        → c ≡ get_or s.source s.current 0
        → (n : ℕ) → not (leb n s.current) && not (c == 13) && not (c == 10) ≡ true
        → (s.current < n) × (get_or s.source s.current 0 ≢ 13) × (get_or s.source s.current 0 ≢ 10)
    go c e n t = ground (arith, e, t)

line_no : (s : Lexer) → in_line s ≡ false → ¬ InLine s.source s.current
line_no s h = go (peek 0 s) (peek-here s) (length s.source) h
  where
    go :
        (c : ℕ)
        → c ≡ get_or s.source s.current 0
        → (n : ℕ) → not (leb n s.current) && not (c == 13) && not (c == 10) ≡ false
        → ¬ (
            (s.current < n)
            × (get_or s.source s.current 0 ≢ 13)
            × (get_or s.source s.current 0 ≢ 10))
    go c e n t w = ground (arith, e, t, w)

pub two_bytes_met :
    (a b : ℕ) (s : Lexer) → (peek 0 s == a) && (peek 1 s == b) ≡ true → Pair a b s.source s.current
two_bytes_met a b s h = go (peek 0 s) (peek 1 s) (peek-here s) h
  where
    go :
        (c d : ℕ)
        → c ≡ get_or s.source s.current 0
        → (c == a) && (d == b) ≡ true
        → (get_or s.source s.current 0 ≡ a) × (d ≡ b)
    go c d e t = ground (arith, e, t)

pub two_bytes_missed :
    (a b : ℕ) (s : Lexer)
    → (peek 0 s == a) && (peek 1 s == b) ≡ false
    → ¬ Pair a b s.source s.current
two_bytes_missed a b s h = go (peek 0 s) (peek 1 s) (peek-here s) h
  where
    go :
        (c d : ℕ)
        → c ≡ get_or s.source s.current 0
        → (c == a) && (d == b) ≡ false
        → ¬ ((get_or s.source s.current 0 ≡ a) × (d ≡ b))
    go c d e t w = ground (arith, e, t, w)

comment_yes : (s : Lexer) → in_comment s ≡ true → InComment s.source s.current
comment_yes s h = elim (Bool-cases ((peek 0 s == b'*') && (peek 1 s == b'/'))) [
  | inl e ↦ absurd (go (at_end s) _ h e)
  | inr e ↦ (ground (arith, in_comment-inside s h), two_bytes_missed b'*' b'/' s e)
]
  where
    go : (a b : Bool) → not a && not b ≡ true → b ≡ true → ⊥
    go a b e f = ground (arith, e, f)

-- A comment that stops before the end of the text has met the mark that closes it.
pub comment_end :
    (s : Lexer) → in_comment s ≡ false → at_end s ≡ false → Pair b'*' b'/' s.source s.current
comment_end s h e = two_bytes_met b'*' b'/' s (go (at_end s) _ h e)
  where
    go : (a b : Bool) → not a && not b ≡ false → a ≡ false → b ≡ true
    go a b e f = ground (arith, e, f)

comment_no : (s : Lexer) → in_comment s ≡ false → ¬ InComment s.source s.current
comment_no s h (within, unclosed) = elim (Bool-cases (at_end s)) [
  | inl e ↦ ground (arith, e, within)
  | inr e ↦ unclosed (comment_end s h e)
]

pub twice-source : (s : Lexer) → (advance (advance s)).source ≡ s.source
twice-source s = advance-source (advance s) ∙ advance-source s

pub twice-current : (s : Lexer) → (advance (advance s)).current ≡ s.current + 2
twice-current s = omega (arith, advance-current (advance s), advance-current s)

-- A loop from behind the two bytes that open a comment.
pub Longest-twice :
    (P : List ℕ → ℕ → Type 0) (s t : Lexer)
    → Longest P (advance (advance s)) t
    → (t.source ≡ s.source) × Extent P s.source (s.current + 2) t.current
Longest-twice P s t (same, extent) = (
  same ∙ twice-source s,
  subst (λ (n : ℕ). Extent P s.source n t.current) (twice-current s)
      (subst (λ (b : List ℕ). Extent P b (advance (advance s)).current t.current) (twice-source s)
        extent),
)

pub line-Longest : (s : Lexer) → Longest InLine s (skip_line s)
line-Longest s =
    advance_while-Longest in_line InLine line_yes line_no in_line-inside (remaining s) s
      (omega arith)

pub comment-Longest : (s : Lexer) → Longest InComment s (skip_comment s)
comment-Longest s =
    advance_while-Longest in_comment InComment comment_yes comment_no in_comment-inside
      (remaining s) s (omega arith)
