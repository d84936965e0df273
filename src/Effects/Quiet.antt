-- ===== src/Effects/Quiet.antt =====
-- Programs that leave Redis alone, whether or not they panic.
use redis_orchestrator.Base.{Bool, true, false, ◌∷◌, if◌then◌else◌}
use redis_orchestrator.Base.Text.{Bytes}
use redis_orchestrator.Outcome.{Outcome, Error, ok, err, panic}
use redis_orchestrator.Effects.{
  Call, History, Env, M, pure, fail, lift, perform, resume, wrapping, attempt, ◌>>=◌,
}
use redis_orchestrator.Effects.Acts.{quiet, Acts, Acts-refl, Acts-trans}
use redis_orchestrator.Effects.Gentle.{Gentle}

pub record IsQuiet {ℓ} {A : Type ℓ} (env : Env) (m : M A) : Type ℓ where
  pub acts : (h : History) → Acts env quiet h (m h).1

module _ (env : Env) where
  pub lift-IsQuiet {ℓ} : {A : Type ℓ} (o : Outcome A) → IsQuiet env (lift o)
  lift-IsQuiet o = record { acts = Acts-refl env }

  pub fail-IsQuiet {ℓ} : {A : Type ℓ} (e : Error) → IsQuiet env (fail {A = A} e)
  fail-IsQuiet e = record { acts = Acts-refl env }

  pub pure-IsQuiet {ℓ} : {A : Type ℓ} (a : A) → IsQuiet env (pure a)
  pure-IsQuiet a = record { acts = Acts-refl env }

  pub perform-IsQuiet {ℓ} :
      {A : Type ℓ} (c : Call) (answer : History → A)
      → ((h : History) → Acts env quiet h (c ∷ h))
      → IsQuiet env (perform c answer)
  perform-IsQuiet c answer q = record { acts = q }

  pub if-IsQuiet {ℓ} :
      {A : Type ℓ} {m n : M A} (b : Bool)
      → IsQuiet env m
      → IsQuiet env n
      → IsQuiet env (if b then m else n)
  if-IsQuiet true p q = p
  if-IsQuiet false p q = q

  pub wrapping-IsQuiet {ℓ} :
      {A : Type ℓ} (text : Bytes) {m : M A} → IsQuiet env m → IsQuiet env (wrapping text m)
  wrapping-IsQuiet text q = record { acts = q.acts }

  pub attempt-IsQuiet {ℓ} : {A : Type ℓ} {m : M A} → IsQuiet env m → IsQuiet env (attempt m)
  attempt-IsQuiet q = record { acts = q.acts }

  -- Its outcome, errors included, as a value.
  pub outcome-IsQuiet {ℓ} :
      {A : Type ℓ} {m : M A} → IsQuiet env m → IsQuiet env (λ h. (ok (m h).0, (m h).1))
  outcome-IsQuiet q = record { acts = q.acts }

  pub Gentle-IsQuiet {ℓ} : {A : Type ℓ} {m : M A} → Gentle env m → IsQuiet env m
  Gentle-IsQuiet g = record { acts = g.acts }

  module _ {ℓ κ} {A : Type ℓ} {B : Type κ} where
    resume-quiet :
        (f : A → M B) (h : History) (r : Outcome A) (h' : History)
        → Acts env quiet h h'
        → ((a : A) → IsQuiet env (f a))
        → Acts env quiet h (resume r f h').1
    resume-quiet f h (ok a) h' q k = Acts-trans env q ((k a).acts h')
    resume-quiet f h (err e) h' q k = q
    resume-quiet f h panic h' q k = q

    pub >>=-IsQuiet :
        {m : M A} {f : A → M B}
        → IsQuiet env m
        → ((a : A) → IsQuiet env (f a))
        → IsQuiet env (m >>= f)
    >>=-IsQuiet {m} {f} q k = record { acts = λ h. resume-quiet f h (m h).0 (m h).1 (q.acts h) k }
