-- ===== src/Sql/Lexer/Longest.antt =====
-- sql_lexer.cpp: how far a loop that advances goes.
use minidb_cpp.Prelude.{
  ℕ, zero, suc, ◌≤◌, ◌<◌, ◌≡◌, refl, ap, ◌∙◌, subst, Bool, true, false, List, ltb, length, get_or,
  Bool-cases, inl, inr, arith,
}
use minidb_cpp.Sql.Lexer.{Lexer, advance, advance_while, at_end, peek, remaining}
use minidb_cpp.Sql.Lexer.Advance.{advance-source, advance-current}
use minidb_cpp.Sql.Lexer.Rounds.{not_at_end}

-- `P` holds of the text at each index from `low` up to `high`, and not at `high`.
abbrev pub Extent : (List ℕ → ℕ → Type 0) → List ℕ → ℕ → ℕ → Type 0
Extent P text low high = (low ≤ high) × ((i : ℕ) → low ≤ i → i < high → P text i) × (¬ P text high)

-- `t` is `s` moved on over the bytes that satisfy `P`, and no further.
abbrev pub Longest : (List ℕ → ℕ → Type 0) → Lexer → Lexer → Type 0
Longest P s t = (t.source ≡ s.source) × Extent P s.source s.current t.current

pub peek-here : (s : Lexer) → peek 0 s ≡ get_or s.source s.current 0
peek-here s = ap (λ (n : ℕ). get_or s.source n 0) (omega arith)

module _ (test : Lexer → Bool) (P : List ℕ → ℕ → Type 0)
    (yes : (t : Lexer) → test t ≡ true → P t.source t.current)
    (no : (t : Lexer) → test t ≡ false → ¬ P t.source t.current)
    (inside : (t : Lexer) → test t ≡ true → at_end t ≡ false) where
  Longest-self : (s : Lexer) → test s ≡ false → Longest P s s
  Longest-self s h =
      (refl, (omega arith, (λ i low high. absurd (omega (arith, low, high))), no s h))

  Longest-advance : (s t : Lexer) → test s ≡ true → Longest P (advance s) t → Longest P s t
  Longest-advance s t h (same, (later, all, halts)) = (
    same ∙ advance-source s,
    (
      omega (arith, later, advance-current s),
      (λ i low high. elim (Bool-cases (ltb s.current i)) [
        | inl further ↦
            subst (λ (b : List ℕ). P b i) (advance-source s)
              (all i (ground (arith, further, advance-current s)) high)
        | inr here ↦
            let this : s.current ≡ i = ground (arith, here, low) in
            subst (P s.source) this (yes s h)
      ]),
      subst (λ (b : List ℕ). ¬ P b t.current) (advance-source s) halts,
    ),
  )

  pub advance_while-Longest :
      (fuel : ℕ) (s : Lexer) → remaining s ≤ fuel → Longest P s (advance_while test fuel s)
  unfolding advance_while
  advance_while-Longest zero s h = elim (Bool-cases (test s)) [
    | inl more ↦ absurd (omega (arith, h, not_at_end s (inside s more)))
    | inr done ↦ Longest-self s done
  ]
  advance_while-Longest (suc fuel) s h = elim (Bool-cases (test s)) [
    | inl more ↦ rw more (
        Longest-advance s (advance_while test fuel (advance s)) more (
          advance_while-Longest fuel (advance s) (
            omega (
              arith,
              h,
              advance-current s,
              ap (λ (b : List ℕ). length b) (advance-source s),
              not_at_end s (inside s more),
            ))))
    | inr done ↦ rw done (Longest-self s done)
  ]
