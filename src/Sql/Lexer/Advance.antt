-- ===== src/Sql/Lexer/Advance.antt =====
-- sql_lexer.cpp: the state only moves forward, and never past the end of the text.
use minidb_cpp.Prelude.{
  ℕ, zero, suc, ◌+◌, ◌≤◌, ◌<◌, ◌≡◌, refl, ap, ◌∙◌, Bool, true, false, List, [], ◌∷◌, leb, length,
  get_or, Bool-cases, inl, inr, arith,
}
use minidb_cpp.Sql.Lexer.{
  Lexer, advance, advance_while, at_end, peek, continues, in_digits, is_identifier_continue,
  is_identifier_start, is_digit,
}

-- `t` is a state that the lexer can reach from `s`: the same text, no earlier, within the text.
abbrev pub Later : Lexer → Lexer → Type 0
Later s t = (t.source ≡ s.source) × (s.current ≤ t.current) × (t.current ≤ length s.source)

pub Later-trans : (s t u : Lexer) → Later s t → Later t u → Later s u
Later-trans s t u (e, h, k) (f, i, j) =
    (f ∙ e, omega (arith, h, i), omega (arith, j, ap (λ (l : List ℕ). length l) e))

pub advance-source : (s : Lexer) → (advance s).source ≡ s.source
unfolding advance
advance-source s = ground arith

pub advance-current : (s : Lexer) → (advance s).current ≡ s.current + 1
unfolding advance
advance-current s = ground arith

pub advance-Later : (s : Lexer) → at_end s ≡ false → Later s (advance s)
advance-Later s h = (
  advance-source s,
  omega (arith, advance-current s),
  omega (arith, advance-current s, inside (length s.source) s.current h),
)
  where
    inside : (l c : ℕ) → leb l c ≡ false → c < l
    inside l c e = ground arith

pub advance_while-Later :
    (test : Lexer → Bool) (fuel : ℕ) (s : Lexer)
    → ((t : Lexer) → test t ≡ true → at_end t ≡ false)
    → s.current ≤ length s.source
    → Later s (advance_while test fuel s)
unfolding advance_while
advance_while-Later test zero s inside h = (refl, omega arith, h)
advance_while-Later test (suc fuel) s inside h = elim (Bool-cases (test s)) [
  | inl more ↦
      let one = advance-Later s (inside s more) in
      rw more (
        Later-trans s (advance s) (advance_while test fuel (advance s)) one (
          advance_while-Later test fuel (advance s) inside
            (omega (arith, one, ap (λ (l : List ℕ). length l) one.0))))
  | inr done ↦ rw done (refl, omega arith, h)
]

get_or-beyond : (bytes : List ℕ) (i : ℕ) → length bytes ≤ i → get_or bytes i 0 ≡ 0
get_or-beyond [] i h = refl
get_or-beyond (b ∷ bs) zero h = absurd (omega (arith, h))
get_or-beyond (b ∷ bs) (suc i) h = get_or-beyond bs i (omega (arith, h))

peek-end : (s : Lexer) → at_end s ≡ true → peek 0 s ≡ 0
peek-end s h = get_or-beyond s.source (s.current + 0) (ground (arith, h))

pub continues-inside : (s : Lexer) → continues s ≡ true → at_end s ≡ false
unfolding is_identifier_continue is_identifier_start
continues-inside s h = elim (Bool-cases (at_end s)) [
  | inl e ↦ absurd (nothing (peek 0 s) (peek-end s e) h)
  | inr e ↦ e
]
  where
    nothing : (c : ℕ) → c ≡ 0 → is_identifier_continue c ≡ true → ⊥
    nothing c z t = ground (arith, z, t)

pub in_digits-inside : (s : Lexer) → in_digits s ≡ true → at_end s ≡ false
unfolding is_digit
in_digits-inside s h = elim (Bool-cases (at_end s)) [
  | inl e ↦ absurd (nothing (peek 0 s) (peek-end s e) h)
  | inr e ↦ e
]
  where
    nothing : (c : ℕ) → c ≡ 0 → is_digit c ≡ true → ⊥
    nothing c z t = ground (arith, z, t)
