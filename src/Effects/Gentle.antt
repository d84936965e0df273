-- ===== src/Effects/Gentle.antt =====
-- Programs by what they do to Redis, with a rule for each way to build one.
use redis_orchestrator.Base.{
  Bool, true, false, ◌∷◌, ◌≡◌, ◌≢◌, inl, inr, refl, if◌then◌else◌, Option, none, some,
}
use redis_orchestrator.Base.Text.{Bytes}
use redis_orchestrator.Outcome.{Outcome, Error, ok, err, panic, Outcome-cases}
use redis_orchestrator.Effects.{
  Call, History, Env, M, pure, fail, perform, resume, wrapping, attempt, caught, ◌>>=◌,
}
use redis_orchestrator.Effects.Panics.{NoPanic, caught-ends, wrap_outcome-ends}
use redis_orchestrator.Effects.Acts.{Effect, quiet, Acts, Acts-refl, Acts-trans, trans-Acts}

-- Whatever the history, the program has this effect on Redis.
abbrev pub Does {ℓ} : {A : Type ℓ} → Env → Effect → M A → Type 0
Does env e m = (h : History) → Acts env e h (m h).1

-- It leaves Redis alone, and does not panic.
pub record Gentle {ℓ} {A : Type ℓ} (env : Env) (m : M A) : Type ℓ where
  pub acts : (h : History) → Acts env quiet h (m h).1
  pub ends : (h : History) → (m h).0 ≢ panic

module _ (env : Env) where
  pub Does-pure {ℓ} : {A : Type ℓ} (a : A) → Does env quiet (pure a)
  Does-pure a h = Acts-refl env h

  pub Does-if {ℓ} :
      {A : Type ℓ} {e : Effect} (m n : M A) (b : Bool)
      → Does env e m
      → Does env e n
      → Does env e (if b then m else n)
  Does-if m n true d _ = d
  Does-if m n false _ d = d

  pub Does-wrapping {ℓ} :
      {A : Type ℓ} {e : Effect} (text : Bytes) (m : M A)
      → Does env e m
      → Does env e (wrapping text m)
  Does-wrapping text m d h = d h

  pub Gentle-NoPanic {ℓ} : {A : Type ℓ} {m : M A} → Gentle env m → NoPanic m
  Gentle-NoPanic g = record { ends = g.ends }

  pub Gentle-pure {ℓ} : {A : Type ℓ} (a : A) → Gentle env (pure a)
  Gentle-pure a = record { acts = λ h. Acts-refl env h; ends = λ h p. cc }

  pub Gentle-fail {ℓ} : {A : Type ℓ} (e : Error) → Gentle env (fail {A = A} e)
  Gentle-fail e = record { acts = λ h. Acts-refl env h; ends = λ h p. cc }

  pub Gentle-if {ℓ} :
      {A : Type ℓ} {m n : M A} (b : Bool)
      → Gentle env m
      → Gentle env n
      → Gentle env (if b then m else n)
  Gentle-if true g _ = g
  Gentle-if false _ g = g

  pub Gentle-perform {ℓ} :
      {A : Type ℓ} (c : Call) (answer : History → A)
      → ((h : History) → Acts env quiet h (c ∷ h))
      → Gentle env (perform c answer)
  Gentle-perform c answer q = record { acts = q; ends = λ h p. cc }

  module _ {ℓ} {A : Type ℓ} where
    pub Gentle-attempt : (m : M A) → Gentle env m → Gentle env (attempt m)
    Gentle-attempt m g = record { acts = λ h. g.acts h; ends = λ h. caught-ends (m h).0 (g.ends h) }

    pub Gentle-wrapping : (text : Bytes) (m : M A) → Gentle env m → Gentle env (wrapping text m)
    Gentle-wrapping text m g = record {
      acts = λ h. g.acts h;
      ends = λ h. wrap_outcome-ends text (m h).0 (g.ends h);
    }

  module _ {ℓ κ} {A : Type ℓ} {B : Type κ} (m : M A) (f : A → M B) (g : Gentle env m) where
    resume-quiet :
        (h : History) (r : Outcome A) (h' : History)
        → Acts env quiet h h'
        → r ≢ panic
        → ((a : A) → Gentle env (f a))
        → Acts env quiet h (resume r f h').1 × ((resume r f h').0 ≢ panic)
    resume-quiet h (ok a) h' q p k = (Acts-trans env q ((k a).acts h'), (k a).ends h')
    resume-quiet h (err y) h' q p k = (q, λ e. cc)
    resume-quiet h panic h' q p k = absurd (p refl)

    pub Gentle-bind : ((a : A) → Gentle env (f a)) → Gentle env (m >>= f)
    Gentle-bind k = record {
      acts = λ h. (resume-quiet h (m h).0 (m h).1 (g.acts h) (g.ends h) k).0;
      ends = λ h. (resume-quiet h (m h).0 (m h).1 (g.acts h) (g.ends h) k).1;
    }

  module _ {ℓ κ} {A : Type ℓ} {B : Type κ} {e : Effect} (m : M A) (f : Option A → M B) where
    resume-caught-Acts :
        (h : History) (r : Outcome A) (h' : History)
        → Acts env quiet h h'
        → r ≢ panic
        → ((a : Option A) → Does env e (f a))
        → Acts env e h (resume (caught r) f h').1
    resume-caught-Acts h (ok a) h' q p k = Acts-trans env q (k (some a) h')
    resume-caught-Acts h (err y) h' q p k = Acts-trans env q (k none h')
    resume-caught-Acts h panic h' q p k = absurd (p refl)

    -- An attempted gentle step in front changes nothing of the effect.
    pub Does-attempt :
        Gentle env m → ((a : Option A) → Does env e (f a)) → Does env e (attempt m >>= f)
    Does-attempt g k h = resume-caught-Acts h (m h).0 (m h).1 (g.acts h) (g.ends h) k

  module _ {ℓ κ} {A : Type ℓ} {B : Type κ} {e : Effect} (m : M A) (f : A → M B) where
    resume-Does :
        (h : History) (r : Outcome A) (h' : History)
        → Acts env e h h'
        → ((a : A) → Does env quiet (f a))
        → Acts env e h (resume r f h').1
    resume-Does h (ok a) h' d k = trans-Acts env d (k a h')
    resume-Does h (err y) h' d k = d
    resume-Does h panic h' d k = d

    -- What follows is quiet, and is reached only if the first step succeeds.
    pub Does-bind : Does env e m → ((a : A) → Does env quiet (f a)) → Does env e (m >>= f)
    Does-bind d k h = resume-Does h (m h).0 (m h).1 (d h) k

  module _ {ℓ κ} {A : Type ℓ} {B : Type κ} (m : M A) (f : Option A → M B) where
    resume-caught :
        (h : History) (r : Outcome A) (h' : History)
        → r ≢ panic
        → (a : Option A) × (resume (caught r) f h' ≡ f a h')
    resume-caught h (ok a) h' p = (some a, refl)
    resume-caught h (err y) h' p = (none, refl)
    resume-caught h panic h' p = absurd (p refl)

    -- An attempted gentle step hands some value on.
    pub attempt-runs :
        Gentle env m
        → (h : History)
        → (a : Option A) × (Acts env quiet h (m h).1) × ((attempt m >>= f) h ≡ f a (m h).1)
    attempt-runs g h = let (a, e) = resume-caught h (m h).0 (m h).1 (g.ends h) in (a, g.acts h, e)

  -- An attempted step at the end has its effect, whether or not it fails.
  pub Does-attempt_last {ℓ} :
      {A : Type ℓ} {e : Effect} (m : M A)
      → Does env e m
      → Does env e (attempt m >>= λ _. pure (tt {0}))
  Does-attempt_last m d h = elim (Outcome-cases (m h).0) [
    | inl (a, q) ↦ rw q (d h)
    | inr (inl (x, q)) ↦ rw q (d h)
    | inr (inr q) ↦ rw q (d h)
  ]
