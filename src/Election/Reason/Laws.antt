-- ===== src/Election/Reason/Laws.antt =====
-- The reason that is logged is the reason of the order.
use redis_orchestrator.Base.{
  ℕ, zero, suc, ◌<◌, true, false, List, [], ◌∷◌, ◌≡◌, ◌↔◌, ◌⊎◌, refl, arith, none, some,
}
use mathlib.Core.List.{Memᴰ}
use redis_orchestrator.Base.Lists.{length}
use redis_orchestrator.Base.Text.{Bytes, str_eq_iff, str_ltb, str_ltb_connex, slice_to}
use redis_orchestrator.State.{PodState}
use redis_orchestrator.Outcome.{ok, panic}
use redis_orchestrator.Election.Order.{pod_less, sort_pods}
use redis_orchestrator.Election.Order.Agreement.{pod_less-IsOrder}
use redis_orchestrator.Election.Order.Sorting.{sort_slice-IsSorted, IsSorted}
use redis_orchestrator.Election.Reason.{
  Reason, only_candidate, oldest_startup, name_tie_breaker, uid_tie_breaker, get_election_reason,
}

pub slice_to-none : (n : ℕ) (s : Bytes) → (slice_to n s ≡ none) ↔ (length s < n)
unfolding slice_to
slice_to-none zero s = ground arith
slice_to-none (suc n) [] = ground arith
slice_to-none (suc n) (c ∷ s) = ground (arith, slice_to-none n s)

-- What a reason says of the elected pod and the runner-up.
abbrev pub Explains : PodState → PodState → Reason → Type 0
Explains e r only_candidate = ⊥
Explains e r (oldest_startup a b) = (a ≡ e.startup_time) × (b ≡ r.startup_time) × (a < b)
Explains e r (name_tie_breaker a b) =
    (e.startup_time ≡ r.startup_time) × (a ≡ e.pod_name) × (b ≡ r.pod_name) × (str_ltb a b ≡ true)
Explains e r (uid_tie_breaker a b) =
    (e.startup_time ≡ r.startup_time)
    × (e.pod_name ≡ r.pod_name)
    × (slice_to 8 e.pod_uid ≡ some a)
    × (slice_to 8 r.pod_uid ≡ some b)
    × (str_ltb r.pod_uid e.pod_uid ≡ false)

reason_of_order :
    (e r : PodState) (rest : List PodState) (q : Reason)
    → pod_less r e ≡ false
    → get_election_reason (e ∷ r ∷ rest) ≡ ok q
    → Explains e r q
unfolding get_election_reason pod_less
reason_of_order e r rest only_candidate h g = ground arith
reason_of_order e r rest (oldest_startup a b) h g = ground arith
reason_of_order e r rest (name_tie_breaker a b) h g = ground (
  arith,
  str_eq_iff e.pod_name r.pod_name,
  str_eq_iff r.pod_name e.pod_name,
  str_ltb_connex e.pod_name r.pod_name,
)
reason_of_order e r rest (uid_tie_breaker a b) h g =
    ground (arith, str_eq_iff e.pod_name r.pod_name, str_eq_iff r.pod_name e.pod_name)

-- For the candidates in election order, with a runner-up, a reason that is given is true: an older
-- startup time, or an equal one and a smaller name, or both equal and a UID that is not larger.
pub get_election_reason-Explains :
    (l : List PodState) {e r : PodState} {rest : List PodState} {q : Reason}
    → sort_pods l ≡ e ∷ r ∷ rest
    → get_election_reason (sort_pods l) ≡ ok q
    → Explains e r q
get_election_reason-Explains l {e} {r} {rest} {q} s g =
    let sorted : IsSorted pod_less (e ∷ r ∷ rest) =
      rw s at (sort_slice-IsSorted pod_less pod_less-IsOrder l) in
    reason_of_order e r rest q (sorted.0 r (Memᴰ.head refl)) (rw s at g)

-- Giving the reason panics exactly when the first two candidates tie in startup time and name, and
-- the UID of one of them has fewer than eight bytes.
pub get_election_reason-panic :
    (e r : PodState) (rest : List PodState)
    → (get_election_reason (e ∷ r ∷ rest) ≡ panic) ↔ (
        (e.startup_time ≡ r.startup_time)
        × (e.pod_name ≡ r.pod_name)
        × ((length e.pod_uid < 8) ⊎ (length r.pod_uid < 8)))
unfolding get_election_reason
get_election_reason-panic e r rest =
    ground (
      arith,
      str_eq_iff e.pod_name r.pod_name,
      slice_to-none 8 e.pod_uid,
      slice_to-none 8 r.pod_uid,
    )
