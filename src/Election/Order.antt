-- ===== src/Election/Order.antt =====
-- The order that `sort.Slice` is given in pkg/election/deterministic.go and, twice, in
-- pkg/orchestrator/orchestrator.go, and the sort itself. `sort.Slice` belongs to the standard
-- library, which promises a sorted rearrangement; it is an insertion sort here, as it is in Go
-- for short slices.
pub mod Laws
pub mod Agreement
pub mod Sorting
use redis_orchestrator.Base.{
  ℕ, Bool, true, false, List, [], ◌∷◌, Option, none, some, arith, ltb, ◌==◌, if◌then◌else◌,
}
use redis_orchestrator.Base.Text.{str_eq, str_ltb}
use redis_orchestrator.State.{PodState}

-- The comparison passed to `sort.Slice`.
unfoldable pub pod_less : PodState → PodState → Bool
pod_less a b =
    if a.startup_time == b.startup_time
    then (if str_eq a.pod_name b.pod_name
        then str_ltb a.pod_uid b.pod_uid
        else str_ltb a.pod_name b.pod_name)
    else ltb a.startup_time b.startup_time

module _ {ℓ} {A : Type ℓ} (less : A → A → Bool) where
  -- One round of the sort: `x` goes in front of the first element that it is less than.
  pub insert_sorted : A → List A → List A
  insert_sorted x [] = x ∷ []
  insert_sorted x (y ∷ ys) = if less x y then x ∷ y ∷ ys else y ∷ insert_sorted x ys

  sort_onto : List A → List A → List A
  sort_onto [] out = out
  sort_onto (x ∷ xs) out = sort_onto xs (insert_sorted x out)

  -- `sort.Slice(xs, less)`
  unfoldable pub sort_slice : List A → List A
  unfolding sort_onto insert_sorted
  sort_slice xs = sort_onto xs []

-- The candidates in the order of the election.
abbrev pub sort_pods : List PodState → List PodState
sort_pods = sort_slice pod_less
