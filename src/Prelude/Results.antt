-- ===== src/Prelude/Results.antt =====
-- A C++ call that returns or throws.
use mathlib.Core.Path.{◌≡◌, refl}
use mathlib.Core.Logic.{◌⊎◌, inl, inr}
use mathlib.Core.Bool.{Bool, true, false}
use minidb_cpp.Prelude.Tests.{if◌then◌else◌}

pub data Result {ℓ} (E : Type 0) (A : Type ℓ) : Type ℓ where
  ok : A → Result E A
  err : E → Result E A

infixl 5 ◌>>=◌ ◌>>◌
abbrev pub ◌>>=◌ {ℓ κ} :
    {E : Type 0} {A : Type ℓ} {B : Type κ} → Result E A → (A → Result E B) → Result E B
ok a >>= f = f a
err e >>= f = err e

abbrev pub ◌>>◌ {ℓ} : {E : Type 0} {B : Type ℓ} → Result E (Unit {0}) → Result E B → Result E B
m >> k = m >>= λ _. k

-- `if (bad) throw e;`
abbrev pub throw_if : {E : Type 0} → Bool → E → Result E (Unit {0})
throw_if true e = err e
throw_if false e = ok tt

pub Result-cases {ℓ} :
    {E : Type 0} {A : Type ℓ} (r : Result E A) → ((a : A) × (r ≡ ok a)) ⊎ ((e : E) × (r ≡ err e))
Result-cases (ok a) = inl (a, refl)
Result-cases (err e) = inr (e, refl)

-- A block that returned: each of its steps did.
pub bind-ok {ℓ κ} :
    {E : Type 0} {A : Type ℓ} {B : Type κ} (m : Result E A) (f : A → Result E B) (b : B)
    → (m >>= f) ≡ ok b
    → (a : A) × (m ≡ ok a) × (f a ≡ ok b)
bind-ok (ok a) f b h = (a, refl, h)
bind-ok (err e) f b h = cc

pub throw_if-ok {ℓ} :
    {E : Type 0} {B : Type ℓ} (t : Bool) (e : E) (k : Result E B) (b : B)
    → (throw_if t e >> k) ≡ ok b
    → (t ≡ false) × (k ≡ ok b)
throw_if-ok true e k b h = cc
throw_if-ok false e k b h = (refl, h)

pub ok-injective {ℓ} :
    {E : Type 0} {A : Type ℓ} (a b : A) → ◌≡◌ {A = Result E A} (ok a) (ok b) → a ≡ b
ok-injective a b h = cc

-- A guarded value that was returned.
pub guarded-ok {ℓ} :
    {E : Type 0} {A : Type ℓ} (t : Bool) (e : E) (a b : A)
    → (if t then ok a else err e) ≡ ok b
    → (t ≡ true) × (a ≡ b)
guarded-ok true e a b h = (refl, ok-injective a b h)
guarded-ok false e a b h = cc

pub err≢ok {ℓ} : {E : Type 0} {A : Type ℓ} (e : E) (a : A) → ◌≡◌ {A = Result E A} (err e) (ok a) → ⊥
err≢ok e a h = cc

-- A call that is refused under a test, and returned.
pub refused-ok {ℓ} :
    {E : Type 0} {A : Type ℓ} (t : Bool) (e : E) (k : Result E A) (a : A)
    → (if t then err e else k) ≡ ok a
    → (t ≡ false) × (k ≡ ok a)
refused-ok true e k a h = cc
refused-ok false e k a h = (refl, h)

-- A call of another component, whose exception passes, or is caught and thrown as another one.
abbrev pub calls {ℓ} : {E F : Type 0} {A : Type ℓ} → (E → F) → Result E A → Result F A
calls f (ok a) = ok a
calls f (err e) = err (f e)

pub calls-returned {ℓ} :
    {E F : Type 0} {A : Type ℓ} (f : E → F) (r : Result E A) (a : A) → calls f r ≡ ok a → r ≡ ok a
calls-returned f (ok x) a h = cc
calls-returned f (err e) a h = cc
