-- ===== src/Election/Order/Agreement.antt =====
-- The head of the sorted candidates: every node that sees the same candidates elects the same pod.
use mathlib.Core.List.{Memᴰ}
use mathlib.Core.List.Memᴰ
use redis_orchestrator.Base.{List, [], ◌∷◌, ◌≡◌, ◌≢◌, refl, inl, inr}
use redis_orchestrator.Base.Lists.{SameMembers}
use redis_orchestrator.State.{PodState}
use redis_orchestrator.Election.Order.{pod_less, sort_pods}
use redis_orchestrator.Election.Order.Laws.{
  SameKey, pod_less_irrefl, pod_less_asymm, pod_less_trans, pod_less_connex,
}
use redis_orchestrator.Election.Order.Sorting.{
  IsOrder, IsBelow, IsSorted, sort_slice-SameMembers, sort_slice-IsSorted,
}

pub pod_less-IsOrder : IsOrder pod_less
pod_less-IsOrder = record { asymm = pod_less_asymm; trans = pod_less_trans }

-- `m` is a candidate that no candidate comes before.
pub record IsFirst (m : PodState) (l : List PodState) : Type 0 where
  pub candidate : Memᴰ m l
  pub least : IsBelow pod_less m l

-- Two first candidates of the same candidates agree.
pub IsFirst-SameKey :
    {m n : PodState} (l r : List PodState)
    → SameMembers l r
    → IsFirst m l
    → IsFirst n r
    → SameKey m n
IsFirst-SameKey {m} {n} l r same f g =
    pod_less_connex m n (g.least m ((same m).0 f.candidate)) (f.least n ((same n).1 g.candidate))

pub head-IsFirst :
    {m : PodState} {rest : List PodState} (l : List PodState) → sort_pods l ≡ m ∷ rest → IsFirst m l
head-IsFirst {m} {rest} l e =
    let same = rw e at (sort_slice-SameMembers pod_less l) in
    let s : IsSorted pod_less (m ∷ rest) =
      rw e at (sort_slice-IsSorted pod_less pod_less-IsOrder l) in
    record {
      candidate = (same m).0 (Memᴰ.head refl);
      least = λ x k. elim (Memᴰ.cases_cons ((same x).1 k)) [
        | inl q ↦ rw q (pod_less_irrefl m)
        | inr t ↦ s.0 x t
      ];
    }

-- Sorting keeps a list of candidates from being empty.
pub sort_pods-cons :
    (l : List PodState)
    → l ≢ []
    → (m : PodState) × (rest : List PodState) × (sort_pods l ≡ m ∷ rest)
sort_pods-cons [] h = absurd (h refl)
sort_pods-cons (x ∷ l) _ = go (sort_pods (x ∷ l)) refl
  where
    go :
        (s : List PodState)
        → sort_pods (x ∷ l) ≡ s
        → (m : PodState) × (rest : List PodState) × (sort_pods (x ∷ l) ≡ m ∷ rest)
    go [] e =
        absurd
          (Memᴰ.not-nil (rw e at ((sort_slice-SameMembers pod_less (x ∷ l) x).1 (Memᴰ.head refl))))
    go (m ∷ rest) e = (m, rest, e)
