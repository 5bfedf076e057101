-- ===== src/Base/Outcomes.antt =====
-- How a Go call can end: with a value, with an error, by a panic, or never.

use mathlib.Core.Path.{◌≡◌, refl, subst}
use mathlib.Core.Logic.{◌⊎◌, inl, inr}

-- A call that returns a value and an error: the value on success, the error otherwise.
pub data Outcome {ℓ κ} (E : Type ℓ) (A : Type κ) : Type (ℓ ⊔ κ) where
  ok : A → Outcome E A
  err : E → Outcome E A

-- What ends a goroutine or stops it for good.
pub data Fault : Type 0 where
  panic deadlock : Fault

-- Code that sends on channels or closes them.
abbrev pub Go {ℓ} : Type ℓ → Type ℓ
Go A = Outcome Fault A

infixl 5 ◌>>=◌
abbrev pub ◌>>=◌ {ℓ κ μ} :
    {E : Type ℓ} {A : Type κ} {B : Type μ} → Outcome E A → (A → Outcome E B) → Outcome E B
ok a >>= f = f a
err e >>= f = err e

abbrev pub Outcome-cases {ℓ κ} :
    {E : Type ℓ} {A : Type κ} (x : Outcome E A) → ((e : E) × (x ≡ err e)) ⊎ ((a : A) × (x ≡ ok a))
Outcome-cases (ok a) = inr (a, refl)
Outcome-cases (err e) = inl (e, refl)

-- What holds of the value, if there is one.
abbrev pub Holds {ℓ κ μ} : {E : Type ℓ} {A : Type κ} → (A → Type μ) → Outcome E A → Type μ
Holds P (ok a) = P a
Holds P (err e) = Unit

pub of_ok {ℓ κ μ} :
    {E : Type ℓ} {A : Type κ} (P : A → Type μ) (x : Outcome E A) (a : A)
    → Holds P x
    → x ≡ ok a
    → P a
of_ok P x a h p = subst (Holds P) p h
