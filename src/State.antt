-- ===== src/State.antt =====
-- pkg/orchestrator/state/state.go: what a pod reports of itself. A `time.Time` is its number of
-- nanoseconds, which is all that `Equal` and `Before` read.
use redis_orchestrator.Base.{ℕ, Bool}
use redis_orchestrator.Base.Text.{Bytes}

pub record PodState : Type 0 where
  pub pod_name : Bytes
  pub pod_ip : Bytes
  pub pod_uid : Bytes
  pub namespace : Bytes
  pub is_master : Bool
  pub is_healthy : Bool
  pub is_witness : Bool
  pub startup_time : ℕ
  pub last_seen : ℕ
