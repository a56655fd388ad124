-- ===== src/Prelude/Stateful.antt =====
-- A method of an object that returns or throws. A call that throws leaves the object as it is at the
-- throw, so the state is part of both outcomes.
use minidb_cpp.Prelude.Results.{Result, ok, err}
use mathlib.Core.Path.{◌≡◌, refl, ap}
use mathlib.Core.Bool.{Bool, true, false}

abbrev pub Method {ℓ} : Type 0 → Type 0 → Type ℓ → Type ℓ
Method S E A = S → S × Result E A

abbrev pub returns {ℓ} : {S E : Type 0} {A : Type ℓ} → A → Method S E A
returns a s = (s, ok a)

abbrev pub throws {ℓ} : {S E : Type 0} {A : Type ℓ} → E → Method S E A
throws e s = (s, err e)

abbrev pub on_result {ℓ κ} :
    {S E : Type 0} {A : Type ℓ} {B : Type κ} → (A → Method S E B) → S × Result E A → S × Result E B
on_result f (s, ok a) = f a s
on_result f (s, err e) = (s, err e)

infixl 5 ◌>>=◌ ◌>>◌
abbrev pub ◌>>=◌ {ℓ κ} :
    {S E : Type 0} {A : Type ℓ} {B : Type κ} → Method S E A → (A → Method S E B) → Method S E B
◌>>=◌ m f s = on_result f (m s)

abbrev pub ◌>>◌ {ℓ κ} :
    {S E : Type 0} {A : Type ℓ} {B : Type κ} → Method S E A → Method S E B → Method S E B
m >> k = m >>= λ _. k

abbrev pub get_state : {S E : Type 0} → Method S E S
get_state s = (s, ok s)

abbrev pub put_state : {S E : Type 0} → S → Method S E (Unit {0})
put_state s' s = (s', ok tt)

abbrev pub throw_when : {S E : Type 0} → Bool → E → Method S E (Unit {0})
throw_when true e s = (s, err e)
throw_when false e s = (s, ok tt)

-- `if (b) m;`
abbrev pub when : {S E : Type 0} → Bool → Method S E (Unit {0}) → Method S E (Unit {0})
when true m s = m s
when false m s = (s, ok tt)

-- A call of a const member function.
abbrev pub observe {ℓ} : {S E : Type 0} {A : Type ℓ} → (S → Result E A) → Method S E A
observe f s = (s, f s)

-- A block that returned: its first step did, and the rest did after it.
pub bind-returned {ℓ κ} :
    {S E : Type 0} {A : Type ℓ} {B : Type κ} (m : Method S E A) (f : A → Method S E B) (s t : S)
    (b : B)
    → (m >>= f) s ≡ (t, ok b)
    → (u : S) × (a : A) × (m s ≡ (u, ok a)) × (f a u ≡ (t, ok b))
bind-returned {S = S} {E = E} {A = A} {B = B} m f s t b h = split (m s) refl h
  where
    split :
        (r : S × Result E A)
        → m s ≡ r
        → on_result f r ≡ (t, ok b)
        → (u : S) × (a : A) × (m s ≡ (u, ok a)) × (f a u ≡ (t, ok b))
    split (u, ok a) e g = (u, a, e, g)
    split (u, err x) e g = absurd (err≢ok (ap (λ (p : S × Result E B). p.1) g))
      where
        err≢ok : err x ≡ ok b → ⊥
        err≢ok c = cc

-- A call that threw did not return.
pub threw≢returned {ℓ} :
    {S E : Type 0} {A : Type ℓ} (s t : S) (e : E) (a : A)
    → ◌≡◌ {A = S × Result E A} (s, err e) (t, ok a)
    → ⊥
threw≢returned {S = S} {E = E} {A = A} s t e a h = apart (ap (λ (p : S × Result E A). p.1) h)
  where
    apart : ◌≡◌ {A = Result E A} (err e) (ok a) → ⊥
    apart c = cc
