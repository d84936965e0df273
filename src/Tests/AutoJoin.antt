-- ===== src/Tests/AutoJoin.antt =====
-- A node that waits for a cluster, and one that finds a leader who has no ID.
use redis_orchestrator.Base.{◌+◌, ◌≤◌, false, [], ◌∷◌, some, ◌≡◌}
use redis_orchestrator.Base.Text.{codes}
use redis_orchestrator.Orchestrator.Peers.{Setting}
use redis_orchestrator.Election.Raft.{RaftStrategy}
use redis_orchestrator.Election.Raft.Handlers.{RaftClusterInfo, Codec}
use redis_orchestrator.Election.Raft.Start.Search.{bootstraps}
use redis_orchestrator.Election.Raft.AutoJoin.{auto_join_cluster}
use redis_orchestrator.Election.Raft.AutoJoin.Requests.{join_requests}
use redis_orchestrator.Election.Raft.AutoJoin.Laws.{auto_join_cluster_lem}
use redis_orchestrator.Tests.Peers.{setting}
use redis_orchestrator.Tests.Raft.{strategy, codec}

abbrev waiting : RaftStrategy
waiting = record strategy { bootstrap = false; peers = codes "redis-1:7000" ∷ [] }

-- Raft follows, and knows no leader.
abbrev lonely : Setting
lonely = record setting {
  env = record setting.env { raft_state = λ _. codes "Follower"; raft_leader = λ _. ([], []) };
}

abbrev nameless : RaftClusterInfo
nameless = record {
  leader_addr = codes "10.0.0.2:7000";
  leader_id = [];
  state = codes "Leader";
  pod_name = codes "redis-1";
  pod_uid = codes "uid-0001-b";
  peers = [];
}

abbrev telling : Codec
telling = record codec { decode_info = λ body. some nameless }

auto_join_cluster_lem_example :
    (join_requests
        (auto_join_cluster lonely telling (λ request. request.id) (λ h. false) waiting []).1
      ≤ join_requests [] + 18)
    × (bootstraps
          (auto_join_cluster lonely telling (λ request. request.id) (λ h. false) waiting []).1
        ≡ bootstraps [])
auto_join_cluster_lem_example =
    auto_join_cluster_lem lonely telling (λ request. request.id) (λ h. false) waiting []

-- Every peer names a leader by its UID.
abbrev naming : Codec
naming = record codec {
  decode_info = λ body. some (record nameless { leader_id = codes "uid-0001-b" });
}
