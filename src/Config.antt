-- ===== src/Config.antt =====
-- pkg/config/config.go. `ElectionMode` is a string type with two named constants; a
-- `time.Duration` is its number of nanoseconds.
use redis_orchestrator.Base.{ℕ, Bool, List}
use redis_orchestrator.Base.Text.{Bytes, codes}

abbrev pub ElectionMode : Type 0
ElectionMode = Bytes

abbrev pub election_mode_deterministic : ElectionMode
election_mode_deterministic = codes "deterministic"

abbrev pub election_mode_raft : ElectionMode
election_mode_raft = codes "raft"

pub record Config : Type 0 where
  pub redis_host : Bytes
  pub redis_port : ℕ
  pub redis_password : Bytes
  pub redis_tls : Bool
  pub redis_tls_skip_verify : Bool
  pub redis_service_name : Bytes
  pub master_service_name : Bytes
  pub sync_interval : ℕ
  pub pod_name : Bytes
  pub namespace : Bytes
  pub label_selector : Bytes
  pub election_mode : ElectionMode
  pub raft_bind_addr : Bytes
  pub raft_peers : List Bytes
  pub raft_data_dir : Bytes
  pub raft_bootstrap : Bool
  pub discover_lb_service : Bool
  pub shared_secret : Bytes
  pub standalone : Bool
  pub no_promote : Bool
  pub debug : Bool
