-- ===== src/Election/Raft/AutoJoin/Panics.antt =====
-- When `autoJoinCluster` does not panic: the leaders that peers name must have IDs to cut.
use mathlib.Core.Path.{◌≡◌}
use redis_orchestrator.Base.{◌≤◌, Option, none, some}
use redis_orchestrator.Base.Lists.{length}
use redis_orchestrator.Base.Text.{Bytes}
use redis_orchestrator.Outcome.{Outcome}
use redis_orchestrator.Effects.Returns.{Returns}
use redis_orchestrator.Orchestrator.Peers.{Setting}
use redis_orchestrator.Election.Raft.{RaftStrategy}
use redis_orchestrator.Election.Raft.Handlers.{AddVoterRequest, RaftClusterInfo, Codec}

module _ (s : Setting) (codec : Codec) (encode_request : AddVoterRequest → Bytes)
    (r : RaftStrategy) where
  abbrev IsNamed : RaftClusterInfo → Type 0
  IsNamed info = 8 ≤ length info.leader_id

  -- Whatever body a peer sends, the answer that it decodes to names a leader by eight bytes or more.
  abbrev pub NameLeaders : Type 0
  NameLeaders =
      (body : Bytes) (info : RaftClusterInfo)
      → codec.decode_info body ≡ some info
      → 8 ≤ length info.leader_id

  abbrev IsNamedIf : Option RaftClusterInfo → Type 0
  IsNamedIf none = Unit
  IsNamedIf (some info) = IsNamed info
