-- ===== src/Prelude/Runs.antt =====
-- Runs of C code that can fault: a read through NULL or outside an array.
use mathlib.Core.Path.{◌≡◌, refl}
use mathlib.Core.Logic.{◌⊎◌, inl, inr}

pub data Exec {ℓ} (A : Type ℓ) : Type ℓ where
  ok : A → Exec A
  fault : Exec A

infixl 5 ◌>>=◌
abbrev pub ◌>>=◌ {ℓ κ} : {A : Type ℓ} {B : Type κ} → Exec A → (A → Exec B) → Exec B
ok a >>= f = f a
fault >>= f = fault

pub Exec-cases {ℓ} : {A : Type ℓ} (e : Exec A) → (e ≡ fault) ⊎ ((a : A) × (e ≡ ok a))
Exec-cases (ok a) = inr (a, refl)
Exec-cases fault = inl refl

-- Whatever a run returns has the property; a run that faults returns nothing.
abbrev pub Returns {ℓ} : {A : Type ℓ} → (A → Type 0) → Exec A → Type 0
Returns P (ok a) = P a
Returns P fault = Unit

pub Returns-bind {ℓ κ} :
    {A : Type ℓ} {B : Type κ} (P : A → Type 0) (Q : B → Type 0) (e : Exec A) (f : A → Exec B)
    → Returns P e
    → ((a : A) → P a → Returns Q (f a))
    → Returns Q (e >>= f)
Returns-bind P Q (ok a) f h k = k a h
Returns-bind P Q fault f h k = tt

pub Returns-all {ℓ} : {A : Type ℓ} (P : A → Type 0) (e : Exec A) → ((a : A) → P a) → Returns P e
Returns-all P (ok a) h = h a
Returns-all P fault h = tt

-- The `int` results of the code: 0, -1 and 1.
pub data Rc : Type 0 where
  success failure one : Rc
