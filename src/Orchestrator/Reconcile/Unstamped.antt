-- ===== src/Orchestrator/Reconcile/Unstamped.antt =====
-- States that differ at most in when they were seen: `getLocalState` stamps the state anew on each
-- call, and `reconcile` does not read the stamp.
use mathlib.Core.List.{map}
use mathlib.Core.List.Memᴰ
use mathlib.Core.Path.{◌≡◌, refl, ap}
use redis_orchestrator.Base.{List, [], ◌∷◌, inl, inr, Bool-cases}
use redis_orchestrator.Base.Lists.{select, SameMembers}
use redis_orchestrator.State.{PodState}
use redis_orchestrator.Election.Order.{pod_less}
use redis_orchestrator.Election.Order.Agreement.{IsFirst}
use redis_orchestrator.Orchestrator.Reconcile.{mastering}
use redis_orchestrator.Orchestrator.Reconcile.Masters.{or_else, contenders, contenders-SameMembers}

abbrev pub unstamped : PodState → PodState
unstamped p = record p { last_seen = 0 }

-- The same states, but for the stamps.
abbrev pub SameView : List PodState → List PodState → Type 0
SameView l r = SameMembers (map unstamped l) (map unstamped r)

select-unstamped :
    (l : List PodState) → select mastering (map unstamped l) ≡ map unstamped (select mastering l)
unfolding select
select-unstamped [] = refl
select-unstamped (x ∷ l) = elim (Bool-cases x.is_master) [
  | inl m ↦ simp (m, select-unstamped l) refl
  | inr m ↦ simp (m, select-unstamped l) refl
]

contenders-unstamped :
    (l : List PodState) → contenders (map unstamped l) ≡ map unstamped (contenders l)
contenders-unstamped l = rw (select-unstamped l) (go (select mastering l))
  where
    go :
        (ms : List PodState)
        → or_else (map unstamped ms) (map unstamped l) ≡ map unstamped (or_else ms l)
    go [] = refl
    go (m ∷ ms) = refl

unstamped-IsFirst :
    {m : PodState} (l : List PodState) → IsFirst m l → IsFirst (unstamped m) (map unstamped l)
unfolding pod_less
unstamped-IsFirst l first = record {
  candidate = Memᴰ.map unstamped first.candidate;
  least = λ x q. let (y, k, e) = Memᴰ.of_map unstamped l q in rw (← e) (first.least y k);
}

IsFirst-unstamped :
    {m : PodState} (l : List PodState)
    → IsFirst m (map unstamped l)
    → (n : PodState) × IsFirst n l × (n.pod_uid ≡ m.pod_uid)
unfolding pod_less
IsFirst-unstamped {m} l first =
    let (n, k, e) = Memᴰ.of_map unstamped l first.candidate in
    (
      n,
      record {
        candidate = k;
        least = λ x q. rw (← e) at (first.least (unstamped x) (Memᴰ.map unstamped q));
      },
      ap (λ (p : PodState). p.pod_uid) e,
    )

-- Two views that are the same but for the stamps put pods with the same UID first.
pub IsFirst-SameView :
    {m : PodState} (l r : List PodState)
    → SameView l r
    → IsFirst m (contenders l)
    → (n : PodState) × IsFirst n (contenders r) × (n.pod_uid ≡ m.pod_uid)
IsFirst-SameView {m} l r same first =
    let moved : IsFirst (unstamped m) (map unstamped (contenders r)) =
      rw (← contenders-unstamped r) (
        let members = contenders-SameMembers same in
        let f : IsFirst (unstamped m) (contenders (map unstamped l)) =
          rw (contenders-unstamped l) (unstamped-IsFirst (contenders l) first) in
        record {
          candidate = (members (unstamped m)).0 f.candidate;
          least = λ x q. f.least x ((members x).1 q);
        }) in
    IsFirst-unstamped (contenders r) moved
