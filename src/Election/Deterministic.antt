-- ===== src/Election/Deterministic.antt =====
-- pkg/election/deterministic.go. The lock makes each method one step; logging is left out, but
-- for the reason that debug logging computes, which can panic.
pub mod Laws
use redis_orchestrator.Base.{Bool, true, false, List, [], ◌∷◌, if◌then◌else◌, Option, none, some}
use redis_orchestrator.Base.Text.{Bytes, codes, str_eq}
use redis_orchestrator.State.{PodState}
use redis_orchestrator.Outcome.{Outcome, Error, message, ok, err, panic}
use redis_orchestrator.Election.Order.{sort_pods}
use redis_orchestrator.Election.Reason.{Reason, get_election_reason}

pub record DeterministicStrategy : Type 0 where
  pub local_pod_name : Bytes
  pub local_pod_uid : Bytes
  pub debug : Bool
  pub current_leader : Option PodState

unfoldable pub new_deterministic_strategy : Bytes → Bytes → Bool → DeterministicStrategy
new_deterministic_strategy pod_name pod_uid debug = record {
  local_pod_name = pod_name;
  local_pod_uid = pod_uid;
  debug = debug;
  current_leader = none;
}

unfoldable pub is_leader : DeterministicStrategy → Bool
is_leader d = elim d.current_leader [ none ↦ false | some l ↦ str_eq l.pod_uid d.local_pod_uid ]

unfoldable pub get_leader : DeterministicStrategy → Outcome (Bytes × Bytes)
get_leader d = elim d.current_leader [
  | none ↦ err (message (codes "no leader elected"))
  | some l ↦ ok (l.pod_name, l.pod_uid)
]

-- The end of `ElectLeader`, on the sorted candidates.
choose_leader :
    DeterministicStrategy
    → List PodState
    → Outcome (PodState × List PodState) × DeterministicStrategy
choose_leader d [] = (panic, d)
choose_leader d (elected ∷ rest) =
    let done : Outcome (PodState × List PodState) × DeterministicStrategy =
      (ok (elected, elected ∷ rest), record d { current_leader = some elected }) in
    if d.debug
    then elim (get_election_reason (elected ∷ rest)) [
      | ok _ ↦ done
      | err e ↦ (err e, d)
      | panic ↦ (panic, d)
    ]
    else done

-- The elected pod, the caller's slice, which is sorted in place, and the new state.
unfoldable pub elect_leader :
    DeterministicStrategy
    → List PodState
    → Outcome (PodState × List PodState) × DeterministicStrategy
unfolding choose_leader
elect_leader d [] = (err (message (codes "no healthy pods available for election")), d)
elect_leader d (x ∷ xs) = choose_leader d (sort_pods (x ∷ xs))

abbrev pub name : DeterministicStrategy → Bytes
name d = codes "deterministic"

-- `Start` and `Stop` only log.
abbrev pub start : DeterministicStrategy → Outcome (Unit {0})
start d = ok tt

abbrev pub stop : DeterministicStrategy → Outcome (Unit {0})
stop d = ok tt
