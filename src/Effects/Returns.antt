-- ===== src/Effects/Returns.antt =====
-- What a program returns, if it returns.
use redis_orchestrator.Outcome.{Outcome, ok, err, panic, ◌>>=◌}
use redis_orchestrator.Effects.{History, M, resume}

-- The value that a program returns, if it returns one, has the property.
abbrev pub Returns {ℓ} : {A : Type ℓ} → (A → Type 0) → Outcome A → Type 0
Returns P (ok a) = P a
Returns P (err e) = Unit
Returns P panic = Unit

pub Returns-resume {ℓ κ} :
    {A : Type ℓ} {B : Type κ} (P : A → Type 0) (Q : B → Type 0) (r : Outcome A) (f : A → M B)
    (h : History)
    → Returns P r
    → ((a : A) → P a → Returns Q (f a h).0)
    → Returns Q (resume r f h).0
Returns-resume P Q (ok a) f h p k = k a p
Returns-resume P Q (err e) f h p k = tt
Returns-resume P Q panic f h p k = tt

pub Returns-bind {ℓ κ} :
    {A : Type ℓ} {B : Type κ} (P : A → Type 0) (Q : B → Type 0) (r : Outcome A) (f : A → Outcome B)
    → Returns P r
    → ((a : A) → P a → Returns Q (f a))
    → Returns Q (r >>= f)
Returns-bind P Q (ok a) f p k = k a p
Returns-bind P Q (err e) f p k = tt
Returns-bind P Q panic f p k = tt

pub Returns-any {ℓ} : {A : Type ℓ} (r : Outcome A) → Returns (λ _. Unit) r
Returns-any (ok a) = tt
Returns-any (err e) = tt
Returns-any panic = tt

pub Returns-imp {ℓ} :
    {A : Type ℓ} (P Q : A → Type 0) (r : Outcome A)
    → ((a : A) → P a → Q a)
    → Returns P r
    → Returns Q r
Returns-imp P Q (ok a) i p = i a p
Returns-imp P Q (err e) i p = tt
Returns-imp P Q panic i p = tt
