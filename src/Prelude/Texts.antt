-- ===== src/Prelude/Texts.antt =====
-- Texts are lists of bytes, compared as std::string compares them.
use Prim.Native.Nat.{ℕ}
use mathlib.Core.Path.{◌≡◌, refl}
use mathlib.Core.Bool.{Bool, true, false, ◌&&◌, false≢true}
use mathlib.Core.List.{List, [], ◌∷◌}
use minidb_cpp.Prelude.Tests.{◌==◌, ==_iff, if◌then◌else◌}
use native.Mathlib.Omega.{arith}

abbrev pub text_eq : List ℕ → List ℕ → Bool
text_eq [] [] = true
text_eq [] (y ∷ ys) = false
text_eq (x ∷ xs) [] = false
text_eq (x ∷ xs) (y ∷ ys) = (x == y) && text_eq xs ys

pub text_eq_refl : (xs : List ℕ) → text_eq xs xs ≡ true
text_eq_refl [] = refl
text_eq_refl (x ∷ xs) = rw ((==_iff x x).1 refl) (text_eq_refl xs)

pub text_eq→≡ : (xs ys : List ℕ) → text_eq xs ys ≡ true → xs ≡ ys
text_eq→≡ [] [] h = refl
text_eq→≡ [] (y ∷ ys) h = absurd (false≢true h)
text_eq→≡ (x ∷ xs) [] h = absurd (false≢true h)
text_eq→≡ (x ∷ xs) (y ∷ ys) h = ground (arith, text_eq→≡ xs ys)

pub text_eq-sym : (xs ys : List ℕ) → text_eq xs ys ≡ text_eq ys xs
text_eq-sym [] [] = refl
text_eq-sym [] (y ∷ ys) = refl
text_eq-sym (x ∷ xs) [] = refl
text_eq-sym (x ∷ xs) (y ∷ ys) = ground (arith, text_eq-sym xs ys)

-- std::unordered_set::contains
abbrev pub text_member : List ℕ → List (List ℕ) → Bool
text_member t [] = false
text_member t (u ∷ us) = if text_eq t u then true else text_member t us
