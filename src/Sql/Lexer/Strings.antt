-- ===== src/Sql/Lexer/Strings.antt =====
-- sql_lexer.cpp, `scanString`: what a string literal spells.
use minidb_cpp.Prelude.{
  ℕ, zero, suc, ◌+◌, ◌-◌, ◌≤◌, ◌<◌, ◌≡◌, ◌≢◌, refl, ap, ◌∙◌, subst, false, List, [], ◌∷◌, ◌++◌,
  Result, ok, err, ◌==◌, if◌then◌else◌, leb, length, get_or, drop, Bool-cases, inl, inr, arith,
  length-append,
}
use minidb_cpp.Sql.Source.{SourceLocation}
use minidb_cpp.Sql.Token.{Token, string_kind}
use minidb_cpp.Sql.Lexer.{
  Lexer, SqlError, advance, at_end, peek, quote, make_token, pushes, closes, string_step,
  scan_string_from, scan_string, remaining,
}
use minidb_cpp.Sql.Lexer.Advance.{advance-source, advance-current}
use minidb_cpp.Sql.Lexer.Longest.{peek-here}

-- A text as it is written between quotes: each quote of it is doubled.
abbrev pub doubled : List ℕ → List ℕ
doubled [] = []
doubled (c ∷ cs) = if c == 39 then 39 ∷ (39 ∷ doubled cs) else c ∷ doubled cs

-- The text that is left.
abbrev left_of : Lexer → List ℕ
left_of s = drop s.current s.source

drop-cons :
    (n : ℕ) (xs : List ℕ) (b : ℕ) (bs : List ℕ)
    → drop n xs ≡ b ∷ bs
    → (n < length xs) × (get_or xs n 0 ≡ b) × (drop (suc n) xs ≡ bs)
drop-cons zero [] b bs h = cc
drop-cons (suc n) [] b bs h = cc
drop-cons zero (x ∷ xs) b bs h = (omega arith, cc, cc)
drop-cons (suc n) (x ∷ xs) b bs h =
    let (within, same, rest) = drop-cons n xs b bs h in (omega (arith, within), same, rest)

get_or-drop : (n : ℕ) (xs : List ℕ) → get_or xs n 0 ≡ get_or (drop n xs) 0 0
get_or-drop zero [] = refl
get_or-drop zero (x ∷ xs) = refl
get_or-drop (suc n) [] = refl
get_or-drop (suc n) (x ∷ xs) = get_or-drop n xs

length-drop : (n : ℕ) (xs : List ℕ) → length (drop n xs) ≡ length xs - n
length-drop zero [] = refl
length-drop zero (x ∷ xs) = omega arith
length-drop (suc n) [] = omega arith
length-drop (suc n) (x ∷ xs) = omega (arith, length-drop n xs)

-- The byte that `advance` takes.
taken :
    (s : Lexer) (b : ℕ) (bs : List ℕ)
    → left_of s ≡ b ∷ bs
    → (at_end s ≡ false) × (peek 0 s ≡ b) × (left_of (advance s) ≡ bs)
taken s b bs h =
    let (within, same, rest) = drop-cons s.current s.source b bs h in
    (
      inside (length s.source) s.current within,
      peek-here s ∙ same,
      rw (advance-source s, advance-current s) (subst (λ (n : ℕ). drop n s.source ≡ bs) next rest),
    )
  where
    next : suc s.current ≡ s.current + 1
    next = omega arith

    inside : (n c : ℕ) → c < n → leb n c ≡ false
    inside n c h = ground (arith, h)

peek-left : (s : Lexer) → peek 0 s ≡ get_or (left_of s) 0 0
peek-left s = peek-here s ∙ get_or-drop s.current s.source

append-cons : (xs : List ℕ) (c : ℕ) (cs : List ℕ) → (xs ++ c ∷ []) ++ cs ≡ xs ++ (c ∷ cs)
append-cons [] c cs = refl
append-cons (x ∷ xs) c cs = ap (λ (l : List ℕ). x ∷ l) (append-cons xs c cs)

append-nil : (xs : List ℕ) → xs ++ [] ≡ xs
append-nil [] = refl
append-nil (x ∷ xs) = ap (λ (l : List ℕ). x ∷ l) (append-nil xs)

step-plain :
    (s : Lexer) (c : ℕ) (bs : List ℕ)
    → left_of s ≡ c ∷ bs
    → c == 39 ≡ false
    → string_step s ≡ pushes c (advance s)
unfolding string_step
step-plain s c bs h other =
    let (within, here, rest) = taken s c bs h in rw (within, here, other) refl

step-doubled :
    (s : Lexer) (bs : List ℕ)
    → left_of s ≡ 39 ∷ (39 ∷ bs)
    → string_step s ≡ pushes quote (advance (advance s))
unfolding string_step
step-doubled s bs h =
    let (within, here, rest) = taken s 39 (39 ∷ bs) h in
    let (within', here', rest') = taken (advance s) 39 bs rest in rw (within, here, here') refl

step-closes :
    (s : Lexer) (post : List ℕ)
    → left_of s ≡ 39 ∷ post
    → get_or post 0 0 ≢ 39
    → string_step s ≡ closes (advance s)
unfolding string_step
step-closes s post h apart =
    let (within, here, rest) = taken s 39 post h in
    let next : peek 0 (advance s) ≡ get_or post 0 0 =
      peek-left (advance s) ∙ ap (λ (l : List ℕ). get_or l 0 0) rest in
    rw (within, here, next, other (get_or post 0 0) apart) refl
  where
    other : (c : ℕ) → c ≢ 39 → c == 39 ≡ false
    other c h = ground (arith, h)

-- The result is a string token with the value `text`, and `post` is left behind it.
abbrev pub Spells : List ℕ → List ℕ → Result SqlError (Token × Lexer) → Type 0
Spells text post (ok (token, t)) =
    (token.kind ≡ string_kind) × (token.value ≡ text) × (left_of t ≡ post)
Spells text post (err e) = ⊥

scan_string_from-Spells :
    (text : List ℕ) (fuel : ℕ) (decoded : List ℕ) (begin : SourceLocation) (s : Lexer)
    (post : List ℕ)
    → left_of s ≡ doubled text ++ 39 ∷ post
    → get_or post 0 0 ≢ 39
    → length text < fuel
    → Spells (decoded ++ text) post (scan_string_from fuel decoded begin s)
unfolding scan_string_from make_token
scan_string_from-Spells text zero decoded begin s post h apart few = absurd (omega (arith, few))
scan_string_from-Spells [] (suc fuel) decoded begin s post h apart few =
    rw (append-nil decoded, step-closes s post h apart, scan_string_from)
      (refl, refl, (taken s 39 post h).2)
scan_string_from-Spells (c ∷ cs) (suc fuel) decoded begin s post h apart few =
    elim (Bool-cases (c == 39)) [
      | inr other ↦
          let here : left_of s ≡ c ∷ (doubled cs ++ 39 ∷ post) = rw other at h in
          rw
            (
              step-plain s c (doubled cs ++ 39 ∷ post) here other,
              ← append-cons decoded c cs,
              scan_string_from,
            )
            (scan_string_from-Spells cs fuel (decoded ++ c ∷ []) begin (advance s) post
              ((taken s c (doubled cs ++ 39 ∷ post) here).2) apart (omega (arith, few)))
      | inl same ↦
          let here : left_of s ≡ 39 ∷ (39 ∷ (doubled cs ++ 39 ∷ post)) = rw same at h in
          let rest = (taken s 39 (39 ∷ (doubled cs ++ 39 ∷ post)) here).2 in
          let this : c ≡ 39 = ground (arith, same) in
          rw
            (
              this,
              step-doubled s (doubled cs ++ 39 ∷ post) here,
              ← append-cons decoded 39 cs,
              scan_string_from,
            )
            (scan_string_from-Spells cs fuel (decoded ++ 39 ∷ []) begin (advance (advance s)) post
              ((taken (advance s) 39 (doubled cs ++ 39 ∷ post) rest).2) apart (omega (arith, few)))
    ]

length-doubled : (text : List ℕ) → length text ≤ length (doubled text)
length-doubled [] = omega arith
length-doubled (c ∷ cs) = elim (Bool-cases (c == 39)) [
  | inl e ↦ rw e (omega (arith, length-doubled cs))
  | inr e ↦ rw e (omega (arith, length-doubled cs))
]

-- Where a text with each of its quotes doubled stands behind the quote that opens a literal, and before
-- one quote that no other follows, scanString returns a string token whose value is that text, and goes
-- on behind the quote that closes it.
pub scan_string-doubled :
    (text post : List ℕ) (begin : SourceLocation) (s : Lexer)
    → left_of s ≡ doubled text ++ 39 ∷ post
    → get_or post 0 0 ≢ 39
    → Spells text post (scan_string begin s)
scan_string-doubled text post begin s h apart =
    scan_string_from-Spells text (suc (remaining s)) [] begin s post h apart enough
  where
    enough : length text < suc (remaining s)
    enough = omega (
      arith,
      length-drop s.current s.source,
      ap (λ (l : List ℕ). length l) h,
      length-append (doubled text) (39 ∷ post),
      length-doubled text,
    )
