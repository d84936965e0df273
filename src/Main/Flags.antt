-- ===== src/Main/Flags.antt =====
-- The flags of main.go: their defaults, and what a command line leaves.
use redis_orchestrator.Base.{ℕ, ◌*◌, ◌^◌, Bool, false, List, [], ◌∷◌}
use redis_orchestrator.Base.Text.{Bytes, codes}
use redis_orchestrator.Config.{Config}

-- What `flag.Parse` fills in: the configuration, and the three variables of `main`.
pub record Flags : Type 0 where
  pub cfg : Config
  pub election_mode : Bytes
  pub raft_peers_str : Bytes
  pub raft_bootstrap_set : Bool

-- A flag with its value.
pub data Arg : Type 0 where
  redis_host : Bytes → Arg
  redis_port : ℕ → Arg
  redis_password : Bytes → Arg
  redis_tls : Bool → Arg
  redis_tls_skip_verify : Bool → Arg
  redis_service : Bytes → Arg
  master_service : Bytes → Arg
  sync_interval : ℕ → Arg
  pod_name : Bytes → Arg
  namespace : Bytes → Arg
  label_selector : Bytes → Arg
  election_mode : Bytes → Arg
  raft_bind : Bytes → Arg
  raft_peers : Bytes → Arg
  raft_data_dir : Bytes → Arg
  raft_bootstrap : Bool → Arg
  lb_service : Bool → Arg
  shared_secret : Bytes → Arg
  standalone : Bool → Arg
  no_promote : Bool → Arg
  debug : Bool → Arg

-- `15 * time.Second`
abbrev pub default_sync_interval : ℕ
default_sync_interval = 15 * 10 ^ 9

-- The defaults, with `os.Getenv`, which gives an empty string for a variable that is not set.
unfoldable pub default_flags : (Bytes → Bytes) → Flags
default_flags getenv = record {
  cfg = record {
    redis_host = codes "localhost";
    redis_port = 6379;
    redis_password = [];
    redis_tls = false;
    redis_tls_skip_verify = false;
    redis_service_name = codes "redis";
    master_service_name = [];
    sync_interval = default_sync_interval;
    pod_name = getenv (codes "POD_NAME");
    namespace = getenv (codes "POD_NAMESPACE");
    label_selector = codes "app=redis";
    election_mode = [];
    raft_bind_addr = codes "0.0.0.0:7000";
    raft_peers = [];
    raft_data_dir = codes "/var/lib/redis-orchestrator/raft";
    raft_bootstrap = false;
    discover_lb_service = false;
    shared_secret = getenv (codes "SHARED_SECRET");
    standalone = false;
    no_promote = false;
    debug = false;
  };
  election_mode = codes "deterministic";
  raft_peers_str = [];
  raft_bootstrap_set = false;
}

unfoldable pub set_flag : Arg → Flags → Flags
set_flag (redis_host v) f = record f { cfg = record f.cfg { redis_host = v } }
set_flag (redis_port v) f = record f { cfg = record f.cfg { redis_port = v } }
set_flag (redis_password v) f = record f { cfg = record f.cfg { redis_password = v } }
set_flag (redis_tls v) f = record f { cfg = record f.cfg { redis_tls = v } }
set_flag (redis_tls_skip_verify v) f = record f { cfg = record f.cfg { redis_tls_skip_verify = v } }
set_flag (redis_service v) f = record f { cfg = record f.cfg { redis_service_name = v } }
set_flag (master_service v) f = record f { cfg = record f.cfg { master_service_name = v } }
set_flag (sync_interval v) f = record f { cfg = record f.cfg { sync_interval = v } }
set_flag (pod_name v) f = record f { cfg = record f.cfg { pod_name = v } }
set_flag (namespace v) f = record f { cfg = record f.cfg { namespace = v } }
set_flag (label_selector v) f = record f { cfg = record f.cfg { label_selector = v } }
set_flag (election_mode v) f = record f { election_mode = v }
set_flag (raft_bind v) f = record f { cfg = record f.cfg { raft_bind_addr = v } }
set_flag (raft_peers v) f = record f { raft_peers_str = v }
set_flag (raft_data_dir v) f = record f { cfg = record f.cfg { raft_data_dir = v } }
set_flag (raft_bootstrap v) f = record f { raft_bootstrap_set = v }
set_flag (lb_service v) f = record f { cfg = record f.cfg { discover_lb_service = v } }
set_flag (shared_secret v) f = record f { cfg = record f.cfg { shared_secret = v } }
set_flag (standalone v) f = record f { cfg = record f.cfg { standalone = v } }
set_flag (no_promote v) f = record f { cfg = record f.cfg { no_promote = v } }
set_flag (debug v) f = record f { cfg = record f.cfg { debug = v } }

-- `flag.Parse`: the flags are set from left to right.
unfoldable pub parse : List Arg → Flags → Flags
parse [] f = f
parse (arg ∷ args) f = parse args (set_flag arg f)
