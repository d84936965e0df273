-- ===== src/Orchestrator/Reconcile.antt =====
-- `reconcile` and its four handlers. `range` over `peerStates` goes in the dictionary's order.
pub mod Handlers
pub mod Masters
pub mod Unstamped
pub mod Role
pub mod RaftMode
pub mod Panics
pub mod Safety
use redis_orchestrator.Base.{
  ℕ, zero, suc, ◌+◌, Bool, true, false, not, ◌&&◌, ◌||◌, List, [], ◌∷◌, ◌==◌, Option, none, some,
  ltb, if◌then◌else◌,
}
use redis_orchestrator.Base.Text.{Bytes, codes, str_eq, slice_to}
use redis_orchestrator.Base.Dict.{Dict}
use redis_orchestrator.Base.Lists.{length, select}
use redis_orchestrator.Config.{election_mode_raft}
use redis_orchestrator.State.{PodState}
use redis_orchestrator.Outcome.{Outcome, ok, err, panic, or_panic}
use redis_orchestrator.Effects.{Env, M, History, pure, lift, wrapping, attempt, caught, ◌>>=◌, ◌>>◌}
use redis_orchestrator.Election.Order.{sort_pods}
use redis_orchestrator.Election.Reason.{Reason}
use redis_orchestrator.Election.Reason
use redis_orchestrator.Orchestrator.{Orchestrator, Strategy}
use redis_orchestrator.Orchestrator.Labels.{ensure_master_label}
use redis_orchestrator.Orchestrator.Replication.{
  promote_to_master, demote_to_replica, check_and_fix_replication,
}

-- The same text as in pkg/election/deterministic.go.
abbrev pub get_election_reason : List PodState → Outcome Reason
get_election_reason = Reason.get_election_reason

-- The values of the map, in the order of `range`.
unfoldable pub states_of : Dict PodState → List PodState
states_of [] = []
states_of ((_, st) ∷ m) = st ∷ states_of m

abbrev pub healthy : PodState → Bool
healthy st = st.is_healthy

abbrev pub mastering : PodState → Bool
mastering st = st.is_master

-- `allStates` of `reconcile`.
unfoldable pub healthy_states : Orchestrator → List PodState
healthy_states o = select healthy (states_of o.peer_states)

-- `currentMaster`: the last master that the loop meets, a nil pointer if there is none.
unfoldable pub last_master : List PodState → Option PodState
last_master [] = none
last_master (st ∷ sts) = elim (last_master sts) [
  | none ↦ if st.is_master then some st else none
  | some m ↦ some m
]

module _ (env : Env) (o : Orchestrator) where
  -- The end of `handleNoMaster`, behind the sort.
  unfoldable pub act_on_election : PodState → PodState → M (Unit {0})
  act_on_election elected local =
      if str_eq elected.pod_uid o.pod_uid
      then (if o.config.no_promote
          then pure tt
          else wrapping (codes "failed to promote to master") (promote_to_master env o))
      else if local.is_master
      then wrapping (codes "failed to demote to replica") (demote_to_replica env o)
      else pure tt

  -- Only debug logging computes the reason.
  unfoldable pub log_reason : List PodState → M (Unit {0})
  log_reason sorted =
      if o.config.debug then (do _ ← lift (get_election_reason sorted); pure tt) else pure tt

  unfoldable pub elect_and_act : List PodState → PodState → M (Unit {0})
  elect_and_act [] local = lift panic
  elect_and_act (elected ∷ rest) local = do
    log_reason (elected ∷ rest)
    act_on_election elected local

  unfoldable pub handle_no_master : List PodState → PodState → M (Unit {0})
  handle_no_master all_states local =
      if o.config.standalone
      then pure tt
      else if o.config.no_promote
      then (if local.is_master
          then demote_to_replica env o
          else check_and_fix_replication env o local)
      else elect_and_act (sort_pods all_states) local

  unfoldable pub handle_single_master : PodState → PodState → M (Unit {0})
  handle_single_master master local =
      if o.config.standalone
      then pure tt
      else if str_eq master.pod_uid o.pod_uid
      then (if o.config.no_promote then demote_to_replica env o else ensure_master_label env o)
      else if local.is_master
      then demote_to_replica env o
      else check_and_fix_replication env o local

  -- `masterCount == 1` with a nil `currentMaster` cannot be: both come from one loop.
  abbrev pub with_current_master : Option PodState → PodState → M (Unit {0})
  with_current_master none local = lift panic
  with_current_master (some current_master) local = handle_single_master current_master local

  -- The end of `handleSplitBrain`, behind the sort of the masters.
  unfoldable pub keep_or_demote : List PodState → PodState → M (Unit {0})
  keep_or_demote [] local = lift panic
  keep_or_demote (keep_master ∷ rest) local = do
    log_reason (keep_master ∷ rest)
    if local.is_master && (not (str_eq local.pod_uid keep_master.pod_uid) || o.config.no_promote)
        then demote_to_replica env o
        else if not local.is_master
        then check_and_fix_replication env o local
        else pure tt

  unfoldable pub handle_split_brain : List PodState → PodState → M (Unit {0})
  handle_split_brain all_states local =
      if o.config.standalone
      then pure tt
      else keep_or_demote (sort_pods (select mastering all_states)) local

  -- The leader's name is logged; in debug mode its UID is cut to eight bytes.
  unfoldable pub log_leader : Outcome (Bytes × Bytes) → M (Unit {0})
  log_leader (ok (leader_name, leader_uid)) =
      if o.config.debug then (do _ ← lift (or_panic (slice_to 8 leader_uid)); pure tt) else pure tt
  log_leader (err _) = pure tt
  log_leader panic = lift panic

  module _ (strategy : Strategy env) where
    -- The leader is asked for only to log its name.
    abbrev pub follow : M (Unit {0})
    follow = do
      leader ← λ h. (ok (strategy.get_leader h).0, (strategy.get_leader h).1)
      log_leader leader
      demote_to_replica env o

    -- `handleRaftMode` behind `IsLeader`.
    unfoldable pub act_on_leadership : PodState → Bool → M (Unit {0})
    act_on_leadership local is_raft_leader =
        if o.config.no_promote
        then (if local.is_master then demote_to_replica env o else pure tt)
        else if is_raft_leader
        then (if not local.is_master then promote_to_master env o else ensure_master_label env o)
        else if local.is_master
        then follow
        else check_and_fix_replication env o local

    unfoldable pub handle_raft_mode : PodState → M (Unit {0})
    handle_raft_mode local =
        if o.config.standalone
        then pure tt
        else do is_raft_leader ← strategy.is_leader; act_on_leadership local is_raft_leader

    unfoldable pub handle_masters : List PodState → PodState → M (Unit {0})
    handle_masters all_states local =
        let master_count = length (select mastering all_states) in
        if master_count == 0
        then handle_no_master all_states local
        else if master_count == 1
        then with_current_master (last_master all_states) local
        else handle_split_brain all_states local

    unfoldable pub reconcile : PodState → M (Unit {0})
    reconcile local =
        let all_states = healthy_states o in
        if length all_states == 0
        then pure tt
        else if str_eq o.config.election_mode election_mode_raft
        then handle_raft_mode local
        else handle_masters all_states local
