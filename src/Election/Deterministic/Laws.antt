-- ===== src/Election/Deterministic/Laws.antt =====
-- What `ElectLeader` does, and that nodes with the same candidates agree.
use redis_orchestrator.Base.{true, false, List, [], ◌∷◌, ◌≡◌, ◌≢◌, ◌↔◌, refl, sym, ◌∙◌, arith, some}
use redis_orchestrator.Base.Lists.{SameMembers}
use redis_orchestrator.Base.Text.{str_eq_iff}
use redis_orchestrator.State.{PodState}
use redis_orchestrator.Outcome.{ok}
use redis_orchestrator.Election.Order.{sort_pods}
use redis_orchestrator.Election.Order.Laws.{SameKey}
use redis_orchestrator.Election.Order.Agreement.{
  IsFirst, head-IsFirst, IsFirst-SameKey, sort_pods-cons,
}
use redis_orchestrator.Election.Deterministic.{
  DeterministicStrategy, is_leader, choose_leader, elect_leader,
}

-- A call of `ElectLeader` on candidates `l` that returned pod `m` and left the strategy in `after`.
pub record Elects (d : DeterministicStrategy) (l : List PodState) : Type 0 where
  pub elected : PodState
  pub sorted : List PodState
  pub after : DeterministicStrategy
  pub returned : elect_leader d l ≡ (ok (elected, sorted), after)

choose_leader-ok :
    (d : DeterministicStrategy) (l : List PodState) {m : PodState} {s : List PodState}
    {d' : DeterministicStrategy}
    → choose_leader d l ≡ (ok (m, s), d')
    → (rest : List PodState) × (l ≡ m ∷ rest)
      × (s ≡ l)
      × (d' ≡ record d { current_leader = some m })
unfolding choose_leader
choose_leader-ok d [] h = absurd (ground arith)
choose_leader-ok d (x ∷ xs) h = (xs, ground arith, ground arith, ground arith)

elect_leader-ok :
    (d : DeterministicStrategy) (l : List PodState) {m : PodState} {s : List PodState}
    {d' : DeterministicStrategy}
    → elect_leader d l ≡ (ok (m, s), d')
    → (rest : List PodState) × (sort_pods l ≡ m ∷ rest)
      × (s ≡ sort_pods l)
      × (d' ≡ record d { current_leader = some m })
unfolding elect_leader
elect_leader-ok d [] h = absurd (ground arith)
elect_leader-ok d (x ∷ xs) h = choose_leader-ok d (sort_pods (x ∷ xs)) h

-- A successful election returns a candidate that no candidate comes before, leaves the caller's
-- slice sorted, and records the elected pod as the current leader, changing nothing else.
pub elect_leader-IsFirst :
    (d : DeterministicStrategy) (l : List PodState) {m : PodState} {s : List PodState}
    {d' : DeterministicStrategy}
    → elect_leader d l ≡ (ok (m, s), d')
    → IsFirst m l × (s ≡ sort_pods l) × (d' ≡ record d { current_leader = some m })
elect_leader-IsFirst d l h =
    let (rest, e, sorted, after) = elect_leader-ok d l h in (head-IsFirst l e, sorted, after)

-- Without debug logging an election with a candidate always succeeds.
pub elect_leader_total :
    (d : DeterministicStrategy) (l : List PodState) → d.debug ≡ false → l ≢ [] → Elects d l
unfolding elect_leader choose_leader
elect_leader_total d [] q h = absurd (h refl)
elect_leader_total d (x ∷ xs) q h =
    let (m, rest, e) = sort_pods-cons (x ∷ xs) h in
    record {
      elected = m;
      sorted = m ∷ rest;
      after = record d { current_leader = some m };
      returned = rw (e, choose_leader, q);
    }

-- Two strategies that elect among the same candidates, held in any order, elect pods with the same
-- startup time, name and UID.
pub elect_leader-agree :
    (d₁ d₂ : DeterministicStrategy) (l₁ l₂ : List PodState)
    → SameMembers l₁ l₂
    → (e₁ : Elects d₁ l₁) (e₂ : Elects d₂ l₂) → SameKey e₁.elected e₂.elected
elect_leader-agree d₁ d₂ l₁ l₂ same e₁ e₂ =
    IsFirst-SameKey l₁ l₂ same (elect_leader-IsFirst d₁ l₁ e₁.returned).0
      (elect_leader-IsFirst d₂ l₂ e₂.returned).0

after-is_leader :
    (d : DeterministicStrategy) (l : List PodState) (e : Elects d l)
    → (is_leader e.after ≡ true) ↔ (e.elected.pod_uid ≡ d.local_pod_uid)
unfolding is_leader
after-is_leader d l e =
    rw (elect_leader-IsFirst d l e.returned).2 (str_eq_iff e.elected.pod_uid d.local_pod_uid)

-- After elections among the same candidates, two strategies that both say that they lead belong to
-- one pod UID; and a strategy says that it leads exactly when the elected UID is its own.
pub one_leader :
    (d₁ d₂ : DeterministicStrategy) (l₁ l₂ : List PodState)
    → SameMembers l₁ l₂
    → (e₁ : Elects d₁ l₁) (e₂ : Elects d₂ l₂)
    → ((is_leader e₁.after ≡ true) ↔ (e₁.elected.pod_uid ≡ d₁.local_pod_uid))
      × (is_leader e₁.after ≡ true
          → is_leader e₂.after ≡ true
          → d₁.local_pod_uid ≡ d₂.local_pod_uid)
one_leader d₁ d₂ l₁ l₂ same e₁ e₂ = (
  after-is_leader d₁ l₁ e₁,
  λ a b.
      sym ((after-is_leader d₁ l₁ e₁).0 a)
      ∙ (elect_leader-agree d₁ d₂ l₁ l₂ same e₁ e₂).pod_uid
      ∙ (after-is_leader d₂ l₂ e₂).0 b,
)
