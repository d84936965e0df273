-- ===== src/Election/Raft/AutoJoin.antt =====
-- pkg/election/raft.go: `autoJoinCluster`, which `Start` runs beside everything else, and `Stop`.
-- The sleeps are left out.
pub mod Requests
pub mod Laws
pub mod Panics
use redis_orchestrator.Base.{
  ℕ, zero, suc, Option, none, some, Bool, true, false, not, ◌||◌, if◌then◌else◌, [],
}
use redis_orchestrator.Base.Text.{Bytes, codes, str_eq, slice_to}
use redis_orchestrator.Outcome.{Outcome, ok, err, panic, or_panic, external}
use redis_orchestrator.Effects.{
  raft_read, History, M, pure, fail, lift, perform, attempt, ◌>>=◌, ◌>>◌,
}
use redis_orchestrator.Orchestrator.Peers.{Setting}
use redis_orchestrator.Election.Raft.{RaftStrategy}
use redis_orchestrator.Election.Raft.Handlers.{AddVoterRequest, RaftClusterInfo, Codec}
use redis_orchestrator.Election.Raft.Joining.{discover_cluster, join_cluster}

-- `raft.Follower`
abbrev pub follower_state : Bytes
follower_state = codes "Follower"

abbrev pub max_attempts : ℕ
max_attempts = 18

-- Whether the context is cancelled may be asked at any time.
module _ (s : Setting) (codec : Codec) (encode_request : AddVoterRequest → Bytes)
    (cancelled : History → Bool) (r : RaftStrategy) where
  -- The reads of the two log lines that name the state.
  abbrev pub log_state : M (Unit {0})
  log_state = do _ ← perform raft_read s.env.raft_state; pure tt

  abbrev pub verify_join : M (Unit {0})
  verify_join = do _ ← perform raft_read s.env.raft_leader; log_state

  abbrev pub after_join : Option (Unit {0}) → M (Unit {0}) → M (Unit {0})
  after_join none rest = rest
  after_join (some _) rest = verify_join

  -- The leader's ID is cut to eight bytes for the log.
  abbrev pub join_found_cluster : Option RaftClusterInfo → M (Unit {0}) → M (Unit {0})
  join_found_cluster none rest = rest
  join_found_cluster (some info) rest = do
    _ ← lift (or_panic (slice_to 8 info.leader_id))
    joined ← attempt (join_cluster s codec encode_request r info.leader_addr)
    after_join joined rest

  abbrev pub search_and_join : M (Unit {0}) → M (Unit {0})
  search_and_join rest = do
    log_state
    found ← attempt (discover_cluster s codec encode_request r r.peers)
    join_found_cluster found rest

  abbrev pub in_cluster : Bytes → Bytes → Bool
  in_cluster leader_addr state = not (str_eq state follower_state) || not (str_eq leader_addr [])

  -- One attempt, in front of the others.
  abbrev pub attempt_join : M (Unit {0}) → M (Unit {0})
  attempt_join rest = do
    leader ← perform raft_read s.env.raft_leader
    state ← perform raft_read s.env.raft_state
    if in_cluster leader.0 state then log_state else search_and_join rest

  unfoldable pub auto_join : ℕ → M (Unit {0})
  auto_join zero = pure tt
  auto_join (suc left) = do
    stop ← λ h. (ok (cancelled h), h)
    if stop then pure tt else attempt_join (auto_join left)

  unfoldable pub auto_join_cluster : M (Unit {0})
  auto_join_cluster = auto_join max_attempts
