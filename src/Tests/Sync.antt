-- ===== src/Tests/Sync.antt =====
-- A process of a few cycles.
use redis_orchestrator.Base.{[], ◌≡◌, refl, arith}
use redis_orchestrator.Outcome.{ok}
use redis_orchestrator.Orchestrator.Sync.{run}
use redis_orchestrator.Orchestrator.Sync.Panics.{run-ends}
use redis_orchestrator.Tests.Data.{follower}
use redis_orchestrator.Tests.Peers.{setting, own}

run-ends_example : (run setting follower (ok tt) 3 own []).outcome ≡ ok tt
run-ends_example = run-ends setting follower 3 own [] refl (omega arith) (omega arith)
