-- ===== src/Election/Raft.antt =====
-- pkg/election/raft.go: the strategy that asks hashicorp/raft who leads. `started` says that
-- `r.raft` is not nil. A read of Raft may answer differently each time.
pub mod Handlers
pub mod Membership
pub mod Leader
pub mod Joining
pub mod Start
pub mod AutoJoin
pub mod Monitor
pub mod Fsm
use redis_orchestrator.Base.{
  List, [], ◌∷◌, Option, none, some, Bool, true, false, not, if◌then◌else◌,
}
use redis_orchestrator.Base.Text.{Bytes, codes, str_eq}
use redis_orchestrator.Base.Dict.{Dict, insert}
use redis_orchestrator.State.{PodState}
use redis_orchestrator.Outcome.{Outcome, ok, err, panic, message, external}
use redis_orchestrator.Effects.{raft_read, raft_shutdown, Env, M, pure, fail, perform, lift, ◌>>=◌}
use redis_orchestrator.Auth.{Authenticator}

pub record RaftStrategy : Type 0 where
  pub local_pod_name : Bytes
  pub local_pod_uid : Bytes
  pub local_pod_ip : Bytes
  pub bind_addr : Bytes
  pub peers : List Bytes
  pub data_dir : Bytes
  pub debug : Bool
  pub bootstrap : Bool
  pub standalone : Bool
  pub authenticator : Authenticator
  pub started : Bool
  pub current_leader : Option PodState
  pub all_states : Dict PodState

-- `raft.Leader`
abbrev pub leader_state : Bytes
leader_state = codes "Leader"

-- The first pod in the map with the leader's ID; without one, the ID stands for the name.
unfoldable pub leader_in : Bytes → Dict PodState → Bytes × Bytes
leader_in leader_id [] = (leader_id, leader_id)
leader_in leader_id ((uid, st) ∷ states) =
    if str_eq st.pod_uid leader_id then (st.pod_name, st.pod_uid) else leader_in leader_id states

-- `r.allStates[st.PodUID] = st`, for each state.
unfoldable pub remember : List PodState → Dict PodState → Dict PodState
remember [] states = states
remember (st ∷ more) states = remember more (insert st.pod_uid st states)

unfoldable pub find_uid : Bytes → List PodState → Option PodState
find_uid uid [] = none
find_uid uid (st ∷ states) = if str_eq st.pod_uid uid then some st else find_uid uid states

-- What `ElectLeader` returns, and the strategy as it leaves it, errors included.
abbrev pub Election : Type 0
Election = Outcome PodState × RaftStrategy

abbrev pub elected : RaftStrategy → PodState → Election
elected r st = (ok st, record r { current_leader = some st })

abbrev pub name : RaftStrategy → Bytes
name r = codes "raft"

module _ (env : Env) where
  unfoldable pub stop : RaftStrategy → M (Unit {0})
  stop r =
      if r.started
      then (do
        done ← perform raft_shutdown env.raft_shutdown
        if done then pure tt else fail external)
      else pure tt

  unfoldable pub is_leader : RaftStrategy → M Bool
  is_leader r =
      if not r.started
      then pure false
      else (do state ← perform raft_read env.raft_state; pure (str_eq state leader_state))

  unfoldable pub get_leader : RaftStrategy → M (Bytes × Bytes)
  get_leader r = if not r.started then fail (message (codes "Raft not initialized")) else (do
    leader ← perform raft_read env.raft_leader
    if str_eq leader.0 []
        then fail (message (codes "no Raft leader elected"))
        else pure (leader_in leader.1 r.all_states))

  abbrev pub or_local : RaftStrategy → PodState → Option PodState → M Election
  or_local r local (some st) = pure (elected r st)
  or_local r local none = do
    leads ← is_leader r
    pure (
        if leads
        then elected r local
        else (err (message (codes "Raft leader not found in pod states")), r))

  -- The call of a nil Raft panics.
  unfoldable pub elect_leader : RaftStrategy → List PodState → PodState → M Election
  elect_leader r all_states local = if not r.started then lift panic else (do
    let next = record r { all_states = remember all_states r.all_states }
    leader ← perform raft_read env.raft_leader
    if str_eq leader.0 []
        then pure (err (message (codes "no Raft leader")), next)
        else or_local next local (find_uid leader.1 all_states))
