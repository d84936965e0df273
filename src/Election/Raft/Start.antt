-- ===== src/Election/Raft/Start.antt =====
-- pkg/election/raft.go: `Start`. What os and hashicorp/raft do before Raft runs is an outcome. The
-- error of the bootstrap is logged only.
pub mod Search
pub mod Bootstrap
pub mod Quiet
pub mod Panics
use redis_orchestrator.Base.{
  ℕ, List, [], ◌∷◌, ◌++◌, Option, none, some, Bool, true, false, not, ◌||◌, ◌&&◌, ltb,
  if◌then◌else◌,
}
use redis_orchestrator.Base.Text.{Bytes, codes}
use redis_orchestrator.Outcome.{Outcome, wrap, external}
use redis_orchestrator.Effects.{
  raft_read, raft_bootstrap, Env, M, pure, fail, perform, lift, attempt, ◌>>=◌, ◌>>◌,
}
use redis_orchestrator.Orchestrator.Peers.{Setting}
use redis_orchestrator.Election.Raft.{RaftStrategy}
use redis_orchestrator.Election.Raft.Handlers.{
  AddVoterRequest, RaftClusterInfo, Codec, log_id_if_debug,
}
use redis_orchestrator.Election.Raft.Joining.{
  contains, net_split_host_port, discover_cluster, join_cluster,
}

-- `net.JoinHostPort`
abbrev pub join_host_port : Bytes → Bytes → Bytes
join_host_port host port =
    if contains b':' host then b'[' ∷ (host ++ (b']' ∷ b':' ∷ port)) else host ++ (b':' ∷ port)

abbrev pub is_empty : List Bytes → Bool
is_empty [] = true
is_empty (peer ∷ peers) = false

-- The guard of the bootstrap, and that of `autoJoinCluster`.
abbrev pub may_bootstrap : RaftStrategy → Bool → Bool
may_bootstrap r has_existing_state =
    not has_existing_state && (r.bootstrap && (not (is_empty r.peers) && not r.standalone))

abbrev pub auto_joins : RaftStrategy → Bool → Bool
auto_joins r has_existing_state =
    if not has_existing_state && (not r.bootstrap && not (is_empty r.peers))
    then true
    else r.standalone && (not has_existing_state && not (is_empty r.peers))

abbrev is_some : Option (Unit {0}) → Bool
is_some none = false
is_some (some _) = true

module _ (s : Setting) (codec : Codec) (encode_request : AddVoterRequest → Bytes) where
  -- Whether an existing cluster was joined.
  abbrev pub join_found : RaftStrategy → Option RaftClusterInfo → M Bool
  join_found r none = pure false
  join_found r (some info) = do
    joined ← attempt (join_cluster s codec encode_request r info.leader_addr)
    pure (is_some joined)

  abbrev pub bootstrap_cluster : RaftStrategy → Bytes → M (Unit {0})
  bootstrap_cluster r port = do
    log_id_if_debug s.env codec r r.local_pod_uid
    perform (raft_bootstrap r.local_pod_uid (join_host_port r.local_pod_ip port)) (λ h. tt)

  abbrev pub join_or_bootstrap : RaftStrategy → Bytes → M (Unit {0})
  join_or_bootstrap r port = do
    found ← attempt (discover_cluster s codec encode_request r r.peers)
    joined ← join_found r found
    if joined then pure tt else bootstrap_cluster r port

  abbrev pub choose_cluster : RaftStrategy → Bytes → Bool → M (RaftStrategy × Bool)
  choose_cluster r port has_existing_state = do
    if may_bootstrap r has_existing_state then join_or_bootstrap r port else pure tt
    pure (r, auto_joins r has_existing_state)

  -- The log reads the index again.
  abbrev pub log_index : M (Unit {0})
  log_index = do _ ← perform raft_read s.env.raft_last_index; pure tt

  -- Behind `raft.NewRaft`.
  abbrev pub run_raft : RaftStrategy → Bytes → M (RaftStrategy × Bool)
  run_raft r port = do
    index ← perform raft_read s.env.raft_last_index
    if r.debug then log_index else pure tt
    choose_cluster r port (ltb 0 index)

  abbrev pub start_at :
      Outcome (Unit {0}) → RaftStrategy → Option (Bytes × Bytes) → M (RaftStrategy × Bool)
  start_at created r none = fail (wrap (codes "failed to parse bind address") external)
  start_at created r (some (host, port)) = do
    lift created
    run_raft (record r { started = true }) port

  -- The strategy with a running Raft, and whether `autoJoinCluster` was started.
  unfoldable pub start :
      Outcome (Unit {0}) → Outcome (Unit {0}) → RaftStrategy → M (RaftStrategy × Bool)
  start directory created r = do
    lift directory
    start_at created r (net_split_host_port r.bind_addr)
