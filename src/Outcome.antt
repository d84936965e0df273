-- ===== src/Outcome.antt =====
-- How a Go call ends: with a value, with an error, or in a run-time panic. An error is its text;
-- what a foreign library's error says is not modelled.
use redis_orchestrator.Base.{◌≡◌, refl, ◌⊎◌, inl, inr, Option, none, some}
use redis_orchestrator.Base.Text.{Bytes}

pub data Error : Type 0 where
  -- an error of a library that the code calls
  external : Error
  -- `fmt.Errorf(text)`
  message : Bytes → Error
  -- `fmt.Errorf(text + ": %w", err)`
  wrap : Bytes → Error → Error

pub data Outcome {ℓ} (A : Type ℓ) : Type ℓ where
  ok : A → Outcome A
  err : Error → Outcome A
  panic : Outcome A

infixl 5 ◌>>=◌
abbrev pub ◌>>=◌ {ℓ κ} : {A : Type ℓ} {B : Type κ} → Outcome A → (A → Outcome B) → Outcome B
ok a >>= f = f a
err e >>= f = err e
panic >>= f = panic

pub >>=-ext {ℓ κ} :
    {A : Type ℓ} {B : Type κ} (o : Outcome A) (f g : A → Outcome B)
    → ((a : A) → f a ≡ g a)
    → (o >>= f) ≡ (o >>= g)
>>=-ext (ok a) f g e = e a
>>=-ext (err x) f g e = refl
>>=-ext panic f g e = refl

-- A slice expression out of bounds panics.
abbrev pub or_panic {ℓ} : {A : Type ℓ} → Option A → Outcome A
or_panic none = panic
or_panic (some a) = ok a

pub Outcome-cases {ℓ} :
    {A : Type ℓ} (o : Outcome A)
    → ((a : A) × (o ≡ ok a)) ⊎ ((e : Error) × (o ≡ err e)) ⊎ (o ≡ panic)
Outcome-cases (ok a) = inl (a, refl)
Outcome-cases (err e) = inr (inl (e, refl))
Outcome-cases panic = inr (inr refl)
