-- ===== src/Sql/Lexer/Skips.antt =====
-- sql_lexer.cpp, `skipIgnored`: it skips what is ignored, and stops at what is not.
use minidb_cpp.Prelude.{
  ℕ, zero, suc, ◌≡◌, ◌∙◌, subst, ◌⊎◌, true, false, ◌&&◌, List, Result, ok, err, ◌==◌, if◌then◌else◌,
  Bool-cases, inl, inr, arith,
}
use minidb_cpp.Sql.Lexer.{
  Lexer, SqlError, unterminated_comment, advance, at_end, remaining, peek, location, in_comment,
  Skipped, again, stops, throws, skip_one, skip_ignored, skip_line, skip_comment, is_blank,
}
use minidb_cpp.Sql.Lexer.Advance.{advance-current, advance-source}
use minidb_cpp.Sql.Lexer.Rounds.{advance_while-stops, in_comment-inside}
use minidb_cpp.Sql.Lexer.Longest.{peek-here}
use minidb_cpp.Sql.Lexer.Gaps.{
  IsBlank, Pair, InLine, InComment, Ignored, no_gap, blank_byte, line_comment, block_comment, Solid,
  two_bytes_met, two_bytes_missed, comment_end, twice-source, twice-current, Longest-twice,
  line-Longest, comment-Longest,
}

-- `t` stands behind something that is ignored.
abbrev Prepends : Lexer → Lexer → Type 0
Prepends s t =
    (t.source ≡ s.source)
    × ((to : ℕ) → Ignored s.source to t.current → Ignored s.source to s.current)

-- What one round of skipIgnored has seen.
abbrev Sees : Lexer → Skipped → Type 0
Sees s (again t) = Prepends s t
Sees s stops = (at_end s ≡ true) ⊎ Solid s.source s.current
Sees s (throws e) = Unit

is_blank-IsBlank : (c : ℕ) → is_blank c ≡ true → IsBlank c
is_blank-IsBlank c h = ground (arith, h)

solid_byte : (c : ℕ) → is_blank c ≡ false → ¬ IsBlank c
solid_byte c h w = ground (arith, h, w)

blank-Prepends : (s : Lexer) → is_blank (peek 0 s) ≡ true → Prepends s (advance s)
blank-Prepends s h = (
  advance-source s,
  λ to rest.
      blank_byte (subst IsBlank (peek-here s) (is_blank-IsBlank (peek 0 s) h))
        (subst (Ignored s.source to) (advance-current s) rest),
)

line-Prepends :
    (s : Lexer) → Pair b'-' b'-' s.source s.current → Prepends s (skip_line (advance (advance s)))
line-Prepends s dashes =
    let t : Lexer = skip_line (advance (advance s)) in
    let (same, extent) = Longest-twice InLine s t (line-Longest (advance (advance s))) in
    (same, λ to rest. line_comment t.current dashes extent rest)

comment-Prepends :
    (s : Lexer)
    → Pair b'/' b'*' s.source s.current
    → at_end (skip_comment (advance (advance s))) ≡ false
    → Prepends s (advance (advance (skip_comment (advance (advance s)))))
comment-Prepends s opened more =
    let second : Lexer = advance (advance s) in
    let t : Lexer = skip_comment second in
    let (same, extent) = Longest-twice InComment s t (comment-Longest second) in
    let halted =
      advance_while-stops in_comment (remaining second) second in_comment-inside (omega arith) in
    let closed : Pair b'*' b'/' s.source t.current =
      subst (λ (b : List ℕ). Pair b'*' b'/' b t.current) same (comment_end t halted more) in
    (
      twice-source t ∙ same,
      λ to rest.
          block_comment t.current opened extent closed
            (subst (Ignored s.source to) (twice-current t) rest),
    )

comment-Sees :
    (s : Lexer)
    → Pair b'/' b'*' s.source s.current
    → Sees s (
        let inside = skip_comment (advance (advance s)) in
        if at_end inside
        then throws (record {
          message = unterminated_comment;
          span = record { begin = location s; end = location inside };
        })
        else again (advance (advance inside)))
comment-Sees s opened = elim (Bool-cases (at_end (skip_comment (advance (advance s))))) [
  | inl e ↦ rw e tt
  | inr e ↦ rw e (comment-Prepends s opened e)
]

skip_one-Sees : (s : Lexer) → Sees s (skip_one s)
unfolding skip_one
skip_one-Sees s = elim (Bool-cases (at_end s)) [
  | inl ended ↦ rw ended (inl ended)
  | inr more ↦ elim (Bool-cases (is_blank (peek 0 s))) [
    | inl blank ↦ rw (more, blank) (blank-Prepends s blank)
    | inr solid ↦ elim (Bool-cases ((peek 0 s == b'-') && (peek 1 s == b'-'))) [
      | inl dashes ↦ rw (more, solid, dashes) (line-Prepends s (two_bytes_met b'-' b'-' s dashes))
      | inr other ↦ elim (Bool-cases ((peek 0 s == b'/') && (peek 1 s == b'*'))) [
        | inl opened ↦
            rw (more, solid, other, opened) (comment-Sees s (two_bytes_met b'/' b'*' s opened))
        | inr nothing ↦
            rw (more, solid, other, nothing)
              (inr (
                subst (λ (c : ℕ). ¬ IsBlank c) (peek-here s) (solid_byte (peek 0 s) solid),
                two_bytes_missed b'-' b'-' s other,
                two_bytes_missed b'/' b'*' s nothing,
              ))
      ]
    ]
  ]
]

-- Between `s` and `t` the text is ignored, and at `t` it ends or is not.
abbrev pub Gap : Lexer → Lexer → Type 0
Gap s t = Ignored s.source t.current s.current × ((at_end t ≡ true) ⊎ Solid t.source t.current)

abbrev pub GapTo : Lexer → Result SqlError Lexer → Type 0
GapTo s (ok t) = Gap s t
GapTo s (err e) = Unit

pub skip_ignored-Gap : (fuel : ℕ) (s : Lexer) → GapTo s (skip_ignored fuel s)
unfolding skip_ignored
skip_ignored-Gap zero s = tt
skip_ignored-Gap (suc fuel) s =
    answered (skip_one s) (skip_one-Sees s) (λ t. skip_ignored-Gap fuel t)
  where
    further : (t : Lexer) → Prepends s t → (r : Result SqlError Lexer) → GapTo t r → GapTo s r
    further t b (ok u) (ignored, solid) =
        (b.1 u.current (subst (λ (x : List ℕ). Ignored x u.current t.current) b.0 ignored), solid)
    further t b (err e) l = tt

    answered :
        (a : Skipped)
        → Sees s a
        → ((t : Lexer) → GapTo t (skip_ignored fuel t))
        → GapTo s (elim a [ again next ↦ skip_ignored fuel next | stops ↦ ok s | throws e ↦ err e ])
    answered (again t) b later = further t b (skip_ignored fuel t) (later t)
    answered stops b later = (no_gap, b)
    answered (throws e) b later = tt
