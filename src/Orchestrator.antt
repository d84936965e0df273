-- ===== src/Orchestrator.antt =====
-- pkg/orchestrator/orchestrator.go. This file has its state; the modules below it have its
-- methods. `New` puts the parts together; locks make the accesses to `peerStates` single steps.
pub mod Labels
pub mod Replication
pub mod Reconcile
pub mod Cluster
pub mod Peers
pub mod Sync
pub mod Server
pub mod LoadBalancer
pub mod Construction
use redis_orchestrator.Base.{ℕ, Bool, List, ◌≡◌}
use redis_orchestrator.Base.Text.{Bytes, codes}
use redis_orchestrator.Base.Dict.{Dict}
use redis_orchestrator.Config.{Config}
use redis_orchestrator.State.{PodState}
use redis_orchestrator.Outcome.{ok}
use redis_orchestrator.Effects.{Env, History, M}
use redis_orchestrator.Effects.Acts.{quiet, Acts}
use redis_orchestrator.Effects.Gentle.{Gentle}

abbrev pub master_label : Bytes
master_label = codes "redis-role"

abbrev pub master_label_value : Bytes
master_label_value = codes "master"

abbrev pub http_port : ℕ
http_port = 8080

pub record Orchestrator : Type 0 where
  pub config : Config
  pub startup_time : ℕ
  pub pod_ip : Bytes
  pub pod_uid : Bytes
  pub peer_states : Dict PodState

-- What the orchestrator asks of an `election.Strategy` (pkg/election/strategy.go) once it has
-- started, and what it relies on: `IsLeader` returns, no call panics, and none is a command to Redis.
pub record Strategy (env : Env) : Type 0 where
  pub is_leader : M Bool
  pub get_leader : M (Bytes × Bytes)
  pub is_leader_answers : (h : History) → (leads : Bool) × ((is_leader h).0 ≡ ok leads)
  pub is_leader_quiet : (h : History) → Acts env quiet h (is_leader h).1
  pub get_leader_gentle : Gentle env get_leader
  pub stop : M (Unit {0})
  pub stop_gentle : Gentle env stop
