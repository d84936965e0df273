-- ===== src/Election/Reason.antt =====
-- `getElectionReason`, which pkg/election/deterministic.go and pkg/orchestrator/orchestrator.go
-- both hold. The reason keeps the values that the Go text prints; times are not rendered.
pub mod Laws
use redis_orchestrator.Base.{
  ℕ, ◌+◌, Bool, true, false, not, List, [], ◌∷◌, ◌==◌, if◌then◌else◌, Option, none, some,
}
use redis_orchestrator.Base.Text.{Bytes, str_eq, slice_to}
use redis_orchestrator.State.{PodState}
use redis_orchestrator.Outcome.{Outcome, ok, err, panic, ◌>>=◌, or_panic}

pub data Reason : Type 0 where
  only_candidate : Reason
  oldest_startup : ℕ → ℕ → Reason
  name_tie_breaker : Bytes → Bytes → Reason
  uid_tie_breaker : Bytes → Bytes → Reason

-- Both UIDs are cut to eight bytes; a shorter one is a run-time panic.
unfoldable pub uid_reason : PodState → PodState → Outcome Reason
uid_reason elected runner = do
  a ← or_panic (slice_to 8 elected.pod_uid)
  b ← or_panic (slice_to 8 runner.pod_uid)
  ok (uid_tie_breaker a b)

unfoldable pub get_election_reason : List PodState → Outcome Reason
unfolding uid_reason
get_election_reason [] = ok only_candidate
get_election_reason (elected ∷ []) = ok only_candidate
get_election_reason (elected ∷ runner ∷ _) =
    if not (elected.startup_time == runner.startup_time)
    then ok (oldest_startup elected.startup_time runner.startup_time)
    else if not (str_eq elected.pod_name runner.pod_name)
    then ok (name_tie_breaker elected.pod_name runner.pod_name)
    else uid_reason elected runner
