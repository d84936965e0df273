-- ===== src/Effects/Panics.antt =====
-- Programs that do not panic, whatever the surroundings answer.
use redis_orchestrator.Base.{Bool, true, false, ◌≢◌, if◌then◌else◌, refl}
use redis_orchestrator.Base.Text.{Bytes}
use redis_orchestrator.Outcome.{Outcome, Error, ok, err, panic}
use redis_orchestrator.Effects.{
  Call, History, M, pure, fail, perform, lift, resume, wrapping, wrap_outcome, attempt, caught,
  ◌>>=◌,
}

pub record NoPanic {ℓ} {A : Type ℓ} (m : M A) : Type ℓ where
  pub ends : (h : History) → (m h).0 ≢ panic

pub pure-NoPanic {ℓ} : {A : Type ℓ} (a : A) → NoPanic (pure a)
pure-NoPanic a = record { ends = λ h e. cc }

pub fail-NoPanic {ℓ} : {A : Type ℓ} (e : Error) → NoPanic (fail {A = A} e)
fail-NoPanic x = record { ends = λ h e. cc }

pub perform-NoPanic {ℓ} :
    {A : Type ℓ} (c : Call) (answer : History → A) → NoPanic (perform c answer)
perform-NoPanic c answer = record { ends = λ h e. cc }

pub lift-NoPanic {ℓ} : {A : Type ℓ} (r : Outcome A) → r ≢ panic → NoPanic (lift r)
lift-NoPanic r p = record { ends = λ h. p }

pub if-NoPanic {ℓ} :
    {A : Type ℓ} {m n : M A} (b : Bool) → NoPanic m → NoPanic n → NoPanic (if b then m else n)
if-NoPanic true p q = p
if-NoPanic false p q = q

module _ {ℓ} {A : Type ℓ} where
  pub wrap_outcome-ends : (text : Bytes) (r : Outcome A) → r ≢ panic → wrap_outcome text r ≢ panic
  wrap_outcome-ends text (ok a) p e = cc
  wrap_outcome-ends text (err x) p e = cc
  wrap_outcome-ends text panic p e = p refl

  pub caught-ends : (r : Outcome A) → r ≢ panic → caught r ≢ panic
  caught-ends (ok a) p e = cc
  caught-ends (err x) p e = cc
  caught-ends panic p e = p refl

  pub wrapping-NoPanic : (text : Bytes) (m : M A) → NoPanic m → NoPanic (wrapping text m)
  wrapping-NoPanic text m p = record { ends = λ h. wrap_outcome-ends text (m h).0 (p.ends h) }

  pub attempt-NoPanic : (m : M A) → NoPanic m → NoPanic (attempt m)
  attempt-NoPanic m p = record { ends = λ h. caught-ends (m h).0 (p.ends h) }

module _ {ℓ κ} {A : Type ℓ} {B : Type κ} (m : M A) (f : A → M B) where
  resume-ends :
      (r : Outcome A) (h : History)
      → r ≢ panic
      → ((a : A) → NoPanic (f a))
      → (resume r f h).0 ≢ panic
  resume-ends (ok a) h p k = (k a).ends h
  resume-ends (err x) h p k = λ e. cc
  resume-ends panic h p k = absurd (p refl)

  pub >>=-NoPanic : NoPanic m → ((a : A) → NoPanic (f a)) → NoPanic (m >>= f)
  >>=-NoPanic p k = record { ends = λ h. resume-ends (m h).0 (m h).1 (p.ends h) k }
