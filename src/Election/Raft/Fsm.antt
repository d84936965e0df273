-- ===== src/Election/Raft/Fsm.antt =====
-- pkg/election/raft.go: `raftFSM`, the state machine that hashicorp/raft replicates. Raft serves the
-- election only, so its log, its streams and its sinks are any types, and nothing is kept of them.
use redis_orchestrator.Base.{Option, none}
use redis_orchestrator.Outcome.{Outcome, ok}
use redis_orchestrator.Election.Raft.{RaftStrategy}

pub record RaftFsm : Type 0 where
  pub strategy : RaftStrategy

-- `raftFSMSnapshot`
pub record RaftFsmSnapshot : Type 0 where

-- `Apply` answers nil.
abbrev pub apply : {Log Answer : Type 0} → RaftFsm → Log → Option Answer
apply f log = none

abbrev pub snapshot : RaftFsm → Outcome RaftFsmSnapshot
snapshot f = ok (record {})

abbrev pub restore : {Stream : Type 0} → RaftFsm → Stream → Outcome (Unit {0})
restore f stream = ok tt

-- With the sink's `Cancel`.
abbrev pub persist :
    {Sink : Type 0} → (Sink → Outcome (Unit {0})) → RaftFsmSnapshot → Sink → Outcome (Unit {0})
persist cancel s sink = cancel sink

abbrev pub release : RaftFsmSnapshot → Unit {0}
release s = tt
