-- ===== src/Tests/Start.antt =====
-- A node that starts alone.
use redis_orchestrator.Base.{[], ◌∷◌, ◌≡◌, ◌⊎◌}
use redis_orchestrator.Base.Text.{codes}
use redis_orchestrator.Outcome.{ok}
use redis_orchestrator.Election.Raft.{RaftStrategy}
use redis_orchestrator.Election.Raft.Start.{start}
use redis_orchestrator.Election.Raft.Start.Search.{bootstraps}
use redis_orchestrator.Election.Raft.Start.Bootstrap.{Founds, start-Founds}
use redis_orchestrator.Tests.Raft.{strategy, codec}
use redis_orchestrator.Tests.Peers.{setting}

abbrev starting : RaftStrategy
starting = record strategy { peers = codes "redis-1:7000" ∷ [] }

start-Founds_example :
    (bootstraps (start setting codec (λ request. request.id) (ok tt) (ok tt) starting []).1
      ≡ bootstraps [])
    ⊎ Founds setting codec
        (λ request. request.id)
        starting
        []
        (start setting codec (λ request. request.id) (ok tt) (ok tt) starting []).1
start-Founds_example =
    start-Founds setting codec (λ request. request.id) (ok tt) (ok tt) starting []
