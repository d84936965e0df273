-- ===== src/Tests/Data.antt =====
-- Pods, configurations and surroundings for the runs.
use redis_orchestrator.Base.{ℕ, Bool, true, false, [], ◌∷◌, none, some, refl}
use redis_orchestrator.Base.Text.{Bytes, codes}
use redis_orchestrator.Config.{Config, election_mode_deterministic}
use redis_orchestrator.State.{PodState}
use redis_orchestrator.Effects.{Env, Pod, pure}
use redis_orchestrator.Effects.Acts.{Acts-refl}
use redis_orchestrator.Effects.Gentle.{Gentle-pure}
use redis_orchestrator.Orchestrator.{Orchestrator, Strategy}

abbrev pub pod_state : Bytes → Bytes → ℕ → Bool → PodState
pod_state name uid startup master = record {
  pod_name = name;
  pod_ip = codes "10.0.0.1";
  pod_uid = uid;
  namespace = codes "default";
  is_master = master;
  is_healthy = true;
  is_witness = false;
  startup_time = startup;
  last_seen = 100;
}

abbrev pub older : PodState
older = pod_state (codes "redis-1") (codes "uid-0001-b") 3 true

abbrev pub younger : PodState
younger = pod_state (codes "redis-0") (codes "uid-0000-a") 5 true

abbrev pub base_config : Config
base_config = record {
  redis_host = codes "localhost";
  redis_port = 6379;
  redis_password = [];
  redis_tls = false;
  redis_tls_skip_verify = false;
  redis_service_name = codes "redis";
  master_service_name = [];
  sync_interval = 15;
  pod_name = codes "redis-0";
  namespace = codes "default";
  label_selector = codes "app=redis";
  election_mode = election_mode_deterministic;
  raft_bind_addr = codes "0.0.0.0:7000";
  raft_peers = [];
  raft_data_dir = codes "/var/lib/raft";
  raft_bootstrap = false;
  discover_lb_service = false;
  shared_secret = codes "secret";
  standalone = false;
  no_promote = false;
  debug = false;
}

abbrev pub a_pod : Pod
a_pod = record {
  pod_name = codes "redis-0";
  phase = codes "Running";
  pod_ip = codes "10.0.0.1";
  uid = codes "uid-0000-a";
  labels = none;
}

-- Every call succeeds; the link of a replica is down.
abbrev pub working : Env
working = record {
  redis_info = λ _. some (codes "role:slave\r\nmaster_link_status:down\r\n");
  redis_ping = λ _. true;
  redis_do = λ _ _. true;
  pod_get = λ _ _ _. some a_pod;
  pod_update = λ _ _ _. true;
  pod_list = λ _ _ _. some (a_pod ∷ []);
  http_do = λ _ _. none;
  read_clock = λ _. 100;
  raft_state = λ _. codes "Leader";
  raft_last_index = λ _. 0;
  raft_leader = λ _. (codes "10.0.0.1:7000", codes "uid-0000-a");
  raft_shutdown = λ _. true;
  http_shutdown = λ _. true;
  raft_configuration = λ _. some [];
  raft_add = λ _ _ _ _. true;
}

-- A strategy that does not lead, in any surroundings.
abbrev pub follower : {env : Env} → Strategy env
follower {env} = record {
  is_leader = pure false;
  get_leader = pure (codes "redis-1", codes "uid-0001-b");
  is_leader_answers = λ h. (false, refl);
  is_leader_quiet = Acts-refl env;
  get_leader_gentle = Gentle-pure env _;
  stop = pure tt;
  stop_gentle = Gentle-pure env _;
}

-- The orchestrator of a pod that has seen both pods.
abbrev pub node_of : Config → PodState → PodState → PodState → Orchestrator
node_of config own a b = record {
  config = record config { pod_name = own.pod_name };
  startup_time = own.startup_time;
  pod_ip = own.pod_ip;
  pod_uid = own.pod_uid;
  peer_states = (a.pod_name, a) ∷ (b.pod_name, b) ∷ [];
}
