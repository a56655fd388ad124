-- ===== src/Sql/Lexer/Rounds.antt =====
-- sql_lexer.cpp: what is skipped, and each token, moves the state on, and the fuel of each loop is enough.
use minidb_cpp.Prelude.{
  ℕ, zero, suc, ◌+◌, ◌≤◌, ◌<◌, ◌≡◌, ◌≢◌, refl, sym, ap, ◌∙◌, Bool, true, false, not, ◌&&◌, List, [],
  ◌∷◌, Result, ok, err, false≢true, ◌==◌, if◌then◌else◌, length, get_or, Bool-cases, inl, inr,
  arith,
}
use minidb_cpp.Sql.Lexer.{
  Lexer, SqlError, exhausted, unterminated_comment, advance, advance_while, at_end, remaining, peek,
  location, in_line, in_comment, Skipped, again, stops, throws, skip_one, skip_ignored, skip_line,
  skip_comment, is_blank,
}
use minidb_cpp.Sql.Lexer.Advance.{
  Later, Later-trans, advance-Later, advance_while-Later, advance-current, advance-source,
}

-- Further on than `s`.
abbrev pub Beyond : Lexer → Lexer → Type 0
Beyond s t = Later s t × (s.current < t.current)

pub Later-self : (s : Lexer) → s.current ≤ length s.source → Later s s
Later-self s h = (refl, omega arith, h)

pub not_at_end : (s : Lexer) → at_end s ≡ false → s.current < length s.source
not_at_end s h = ground (arith, h)

pub advance-Beyond : (s : Lexer) → at_end s ≡ false → Beyond s (advance s)
advance-Beyond s h = (advance-Later s h, omega (arith, advance-current s))

pub Beyond-Later : (s t u : Lexer) → Beyond s t → Later t u → Beyond s u
Beyond-Later s t u b l = (Later-trans s t u b.0 l, omega (arith, b.1, l.1))

-- A byte that is not '\0' was read inside the text.
pub read_inside : (s : Lexer) (i : ℕ) → peek i s ≢ 0 → s.current + i < length s.source
read_inside s i h = inside s.source (s.current + i) h
  where
    inside : (bytes : List ℕ) (n : ℕ) → get_or bytes n 0 ≢ 0 → n < length bytes
    inside [] n e = absurd (e refl)
    inside (b ∷ bs) zero e = omega arith
    inside (b ∷ bs) (suc n) e = omega (arith, inside bs n e)

-- Two bytes that are in the text are advanced past.
pub twice-Beyond : (s : Lexer) → s.current + 1 < length s.source → Beyond s (advance (advance s))
twice-Beyond s h = (
  (
    advance-source (advance s) ∙ advance-source s,
    omega (arith, advance-current (advance s), advance-current s),
    omega (arith, h, advance-current (advance s), advance-current s),
  ),
  omega (arith, advance-current (advance s), advance-current s),
)

pub in_line-inside : (s : Lexer) → in_line s ≡ true → at_end s ≡ false
in_line-inside s h = front (at_end s) _ _ h
  where
    front : (a b c : Bool) → not a && b && c ≡ true → a ≡ false
    front true b c e = absurd (false≢true e)
    front false b c e = refl

pub in_comment-inside : (s : Lexer) → in_comment s ≡ true → at_end s ≡ false
in_comment-inside s h = front (at_end s) _ h
  where
    front : (a b : Bool) → not a && b ≡ true → a ≡ false
    front true b e = absurd (false≢true e)
    front false b e = refl

-- The text of the rest of a loop is the same.
pub within_text : (s t : Lexer) → Later s t → t.current ≤ length t.source
within_text s t l = omega (arith, l, ap (λ (b : List ℕ). length b) l.0)

pub advance_while-stops :
    (test : Lexer → Bool) (fuel : ℕ) (s : Lexer)
    → ((t : Lexer) → test t ≡ true → at_end t ≡ false)
    → remaining s ≤ fuel
    → test (advance_while test fuel s) ≡ false
unfolding advance_while
advance_while-stops test zero s inside h = elim (Bool-cases (test s)) [
  | inl more ↦ absurd (omega (arith, h, not_at_end s (inside s more)))
  | inr done ↦ done
]
advance_while-stops test (suc fuel) s inside h = elim (Bool-cases (test s)) [
  | inl more ↦ rw more (
      advance_while-stops test fuel (advance s) inside (
        omega (
          arith,
          h,
          advance-current s,
          ap (λ (b : List ℕ). length b) (advance-source s),
          not_at_end s (inside s more),
        )))
  | inr done ↦ rw done done
]

-- What one round of skipIgnored may answer.
abbrev Skips : Lexer → Skipped → Type 0
Skips s (again t) = Beyond s t
Skips s stops = Unit
Skips s (throws e) = e.message ≢ exhausted

second_byte :
    (s : Lexer) (a b : ℕ)
    → (peek 0 s == a) && (peek 1 s == b) ≡ true
    → 1 ≤ b
    → s.current + 1 < length s.source
second_byte s a b h p = read_inside s 1 (λ z. absurd (apart (peek 0 s == a) (peek 1 s) b h z p))
  where
    apart : (t : Bool) (c d : ℕ) → t && (c == d) ≡ true → c ≡ 0 → 1 ≤ d → ⊥
    apart t c d e z q = ground (arith, e, z, q)

comment_closed :
    (s inside : Lexer)
    → Beyond s inside
    → in_comment inside ≡ false
    → Skips s (
        if at_end inside
        then throws (record {
          message = unterminated_comment;
          span = record { begin = location s; end = location inside };
        })
        else again (advance (advance inside)))
comment_closed s inside b halted = elim (Bool-cases (at_end inside)) [
  | inl e ↦ rw e (λ c. cc)
  | inr e ↦ rw e (
      Beyond-Later s inside (advance (advance inside)) b
        (twice-Beyond inside
          (second_byte inside b'*' b'/' (closing (at_end inside) _ e halted) (omega arith))).0)
]
  where
    closing : (t u : Bool) → t ≡ false → not t && not u ≡ false → u ≡ true
    closing true u e f = absurd (false≢true (sym e))
    closing false true e f = refl
    closing false false e f = absurd (false≢true (sym f))

comment-Skips :
    (s : Lexer)
    → s.current + 1 < length s.source
    → Skips s (
        let inside = skip_comment (advance (advance s)) in
        if at_end inside
        then throws (record {
          message = unterminated_comment;
          span = record { begin = location s; end = location inside };
        })
        else again (advance (advance inside)))
comment-Skips s h =
    let second : Lexer = advance (advance s) in
    let two = twice-Beyond s h in
    let reached =
      advance_while-Later in_comment (remaining second) second in_comment-inside
        (within_text s second two.0) in
    let halted =
      advance_while-stops in_comment (remaining second) second in_comment-inside (omega arith) in
    comment_closed s (skip_comment second) (Beyond-Later s second (skip_comment second) two reached)
      halted

line-Beyond :
    (s : Lexer) → s.current + 1 < length s.source → Beyond s (skip_line (advance (advance s)))
line-Beyond s h =
    let second : Lexer = advance (advance s) in
    let two = twice-Beyond s h in
    Beyond-Later s second (skip_line second) two (
      advance_while-Later in_line (remaining second) second in_line-inside
        (within_text s second two.0))

skip_one-Skips : (s : Lexer) → Skips s (skip_one s)
unfolding skip_one
skip_one-Skips s = elim (Bool-cases (at_end s)) [
  | inl ended ↦ rw ended tt
  | inr more ↦ elim (Bool-cases (is_blank (peek 0 s))) [
    | inl blank ↦ rw (more, blank) (advance-Beyond s more)
    | inr solid ↦ elim (Bool-cases ((peek 0 s == b'-') && (peek 1 s == b'-'))) [
      | inl dashes ↦
          rw (more, solid, dashes) (line-Beyond s (second_byte s b'-' b'-' dashes (omega arith)))
      | inr other ↦ elim (Bool-cases ((peek 0 s == b'/') && (peek 1 s == b'*'))) [
        | inl opened ↦
            rw (more, solid, other, opened)
              (comment-Skips s (second_byte s b'/' b'*' opened (omega arith)))
        | inr nothing ↦ rw (more, solid, other, nothing) tt
      ]
    ]
  ]
]

-- What skipIgnored may return.
abbrev pub SkippedTo : Lexer → Result SqlError Lexer → Type 0
SkippedTo s (ok t) = Later s t
SkippedTo s (err e) = e.message ≢ exhausted

pub skip_ignored-Later :
    (fuel : ℕ) (s : Lexer)
    → s.current ≤ length s.source
    → remaining s < fuel
    → SkippedTo s (skip_ignored fuel s)
unfolding skip_ignored
skip_ignored-Later zero s h f = absurd (omega (arith, f))
skip_ignored-Later (suc fuel) s h f = answered (skip_one s) (skip_one-Skips s) (λ t b.
    skip_ignored-Later fuel t (within_text s t b.0)
      (omega (arith, f, b, ap (λ (l : List ℕ). length l) b.0.0)))
  where
    further : (t : Lexer) → Beyond s t → (r : Result SqlError Lexer) → SkippedTo t r → SkippedTo s r
    further t b (ok u) l = Later-trans s t u b.0 l
    further t b (err e) l = l

    answered :
        (a : Skipped)
        → Skips s a
        → ((t : Lexer) → Beyond s t → SkippedTo t (skip_ignored fuel t))
        → SkippedTo s
            (elim a [ again next ↦ skip_ignored fuel next | stops ↦ ok s | throws e ↦ err e ])
    answered (again t) b later = further t b (skip_ignored fuel t) (later t b)
    answered stops b later = Later-self s h
    answered (throws e) b later = b
