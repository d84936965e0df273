-- ===== src/Orchestrator/Reconcile/Masters.antt =====
-- The masters among the healthy pods, and the pod that should be the only one.
use mathlib.Core.List.{Memᴰ}
use mathlib.Core.List.Memᴰ
use redis_orchestrator.Base.{List, [], ◌∷◌, ◌≡◌, ◌≢◌, inl, inr, refl, arith, none, some, Bool-cases}
use redis_orchestrator.Base.Lists.{select, mem-select, select-mem, SameMembers}
use redis_orchestrator.State.{PodState}
use redis_orchestrator.Orchestrator.Reconcile.{mastering, last_master}

abbrev pub or_else : List PodState → List PodState → List PodState
or_else [] all_states = all_states
or_else (x ∷ masters) all_states = x ∷ masters

-- Among whom the order decides: the masters, or all healthy pods if there is no master.
abbrev pub contenders : List PodState → List PodState
contenders all_states = or_else (select mastering all_states) all_states

last_master-none : (l : List PodState) → select mastering l ≡ [] → last_master l ≡ none
unfolding select last_master
last_master-none [] e = refl
last_master-none (x ∷ l) e = ground (arith, last_master-none l)

-- With one master the loop of `reconcile` leaves that one in `currentMaster`.
pub last_master-select :
    (l : List PodState) {c : PodState} → select mastering l ≡ c ∷ [] → last_master l ≡ some c
unfolding select last_master
last_master-select [] e = absurd (ground arith)
last_master-select (x ∷ l) {c} e = elim (Bool-cases x.is_master) [
  | inl m ↦ ground (arith, last_master-none l)
  | inr m ↦ ground (arith, last_master-select l {c = c})
]

-- Nodes that see the same healthy pods see the same contenders.
pub contenders-SameMembers :
    {l r : List PodState} → SameMembers l r → SameMembers (contenders l) (contenders r)
contenders-SameMembers {l} {r} same x = (
  move l r same (select mastering l) (select mastering r) refl refl x,
  move r l (λ y. ((same y).1, (same y).0)) (select mastering r) (select mastering l) refl refl x,
)
  where
    move :
        (a b : List PodState)
        → SameMembers a b
        → (ms ns : List PodState) → select mastering a ≡ ms
        → select mastering b ≡ ns
        → (z : PodState) → Memᴰ z (or_else ms a)
        → Memᴰ z (or_else ns b)
    move a b s [] [] p q z k = (s z).0 k
    move a b s [] (n ∷ ns) p q z k =
        let (seen, master) = mem-select mastering b (rw q (Memᴰ.head refl)) in
        absurd (Memᴰ.not-nil (rw p at (select-mem mastering a ((s n).1 seen) master)))
    move a b s (m ∷ ms) [] p q z k =
        let (seen, master) = mem-select mastering a (rw p k) in
        absurd (Memᴰ.not-nil (rw q at (select-mem mastering b ((s z).0 seen) master)))
    move a b s (m ∷ ms) (n ∷ ns) p q z k =
        let (seen, master) = mem-select mastering a (rw p k) in
        rw q at (select-mem mastering b ((s z).0 seen) master)

pub contenders-ne-nil : {l : List PodState} → l ≢ [] → contenders l ≢ []
contenders-ne-nil {l} h = go (select mastering l)
  where
    go : (ms : List PodState) → or_else ms l ≢ []
    go [] = h
    go (m ∷ ms) = λ e. cc

pub mem-contenders : (l : List PodState) {x : PodState} → Memᴰ x (contenders l) → Memᴰ x l
mem-contenders l {x} k = go (select mastering l) refl k
  where
    go : (ms : List PodState) → select mastering l ≡ ms → Memᴰ x (or_else ms l) → Memᴰ x l
    go [] e k = k
    go (m ∷ ms) e k = (mem-select mastering l (rw e k)).0
