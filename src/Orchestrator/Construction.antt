-- ===== src/Orchestrator/Construction.antt =====
-- `New`: the parts of the orchestrator, and the retries that wait for a load balancer's address.
-- The sleep between two attempts is left out, since any time may pass between two calls.
pub mod Laws
pub mod Strategies
pub mod Retries
pub mod Quiet
pub mod Panics
use redis_orchestrator.Base.{
  ℕ, suc, zero, List, [], ◌∷◌, ◌++◌, ◌==◌, Option, none, some, Bool, true, false, not, ◌||◌,
  if◌then◌else◌,
}
use redis_orchestrator.Base.Text.{Bytes, codes, str_eq}
use redis_orchestrator.Config.{Config, election_mode_deterministic, election_mode_raft}
use redis_orchestrator.Outcome.{Outcome, Error, ok, err, panic, message, wrap, external}
use redis_orchestrator.Effects.{
  Pod, redis_ping, pod_get, service_list, History, Env, M, pure, fail, perform, lift, wrapping,
  ◌>>=◌, ◌>>◌,
}
use redis_orchestrator.Auth.{new_authenticator}
use redis_orchestrator.Election.Deterministic.{DeterministicStrategy, new_deterministic_strategy}
use redis_orchestrator.Election.Raft.{RaftStrategy}
use redis_orchestrator.Redis.Client
use redis_orchestrator.Orchestrator.{Orchestrator}
use redis_orchestrator.Orchestrator.LoadBalancer.{Service, discover_load_balancer_ip}
use redis_orchestrator.Orchestrator.Peers.{now}

pub data ElectionStrategy : Type 0 where
  deterministic_strategy : DeterministicStrategy → ElectionStrategy
  raft_strategy : RaftStrategy → ElectionStrategy

-- `NewRaftStrategy`
unfoldable pub new_raft_strategy : Config → Pod → Bytes → RaftStrategy
new_raft_strategy cfg pod node_ip = record {
  local_pod_name = cfg.pod_name;
  local_pod_uid = pod.uid;
  local_pod_ip = node_ip;
  bind_addr = cfg.raft_bind_addr;
  peers = cfg.raft_peers;
  data_dir = cfg.raft_data_dir;
  debug = cfg.debug;
  bootstrap = cfg.raft_bootstrap;
  standalone = cfg.standalone;
  authenticator = new_authenticator cfg.shared_secret;
  started = false;
  current_leader = none;
  all_states = [];
}

-- The `switch` on the election mode.
unfoldable pub choose_strategy : Config → Pod → Bytes → Outcome ElectionStrategy
choose_strategy cfg pod node_ip =
    if str_eq cfg.election_mode election_mode_deterministic || str_eq cfg.election_mode []
    then ok (deterministic_strategy (new_deterministic_strategy cfg.pod_name pod.uid cfg.debug))
    else if str_eq cfg.election_mode election_mode_raft
    then ok (raft_strategy (new_raft_strategy cfg pod node_ip))
    else err (message (codes "unknown election mode: " ++ cfg.election_mode))

abbrev pub max_retries : ℕ
max_retries = 12

-- The services that the Kubernetes API lists are given besides the other surroundings.
module _ (env : Env) (list_services : History → Option (List Service)) (cfg : Config) where
  abbrev get : M (Option Pod)
  get = perform (pod_get cfg.namespace cfg.pod_name) (λ h. env.pod_get h cfg.namespace cfg.pod_name)

  abbrev pub services_for : Option Pod → M (Bytes × Bytes)
  services_for none = lift (discover_load_balancer_ip cfg.pod_name none none)
  services_for (some pod) = do
    services ← perform (service_list cfg.namespace) list_services
    lift (discover_load_balancer_ip cfg.pod_name (some pod) services)

  unfoldable pub discover : M (Bytes × Bytes)
  discover = do pod ← get; services_for pod

  -- An attempt, with the attempts left behind it: an address ends the loop, an error ends it in
  -- the last attempt, and a service without an address does not end it.
  abbrev pub next_ip : ℕ → Bytes → Outcome (Bytes × Bytes) → M Bytes → M Bytes
  next_ip left pod_ip (ok (lb_ip, svc_name)) rest =
      if not (str_eq lb_ip [])
      then pure lb_ip
      else if not (str_eq svc_name [])
      then rest
      else pure pod_ip
  next_ip left pod_ip (err e) rest =
      if left == 0
      then fail (wrap (codes "failed to discover LoadBalancer IP after 12 attempts") e)
      else rest
  next_ip left pod_ip panic rest = lift panic

  unfoldable pub discover_node_ip : ℕ → Bytes → M Bytes
  discover_node_ip zero pod_ip = pure pod_ip
  discover_node_ip (suc left) pod_ip = do
    r ← λ h. (ok (discover h).0, (discover h).1)
    next_ip left pod_ip r (discover_node_ip left pod_ip)

  abbrev found_own : Option Pod → M Pod
  found_own none = fail (wrap (codes "failed to get pod") external)
  found_own (some pod) = pure pod

  abbrev pub made : Pod → ElectionStrategy → ℕ → Orchestrator × ElectionStrategy
  made pod strategy startup_time = (
    record {
      config = cfg;
      startup_time = startup_time;
      pod_ip = pod.pod_ip;
      pod_uid = pod.uid;
      peer_states = [];
    },
    strategy,
  )

  -- The address for Raft.
  abbrev pub node_ip_of : Pod → M Bytes
  node_ip_of pod =
      if cfg.discover_lb_service then discover_node_ip max_retries pod.pod_ip else pure pod.pod_ip

  abbrev pub assemble : Pod → Bytes → M (Orchestrator × ElectionStrategy)
  assemble pod node_ip = do
    strategy ← lift (choose_strategy cfg pod node_ip)
    startup_time ← now env
    pure (made pod strategy startup_time)

  abbrev pub assemble_found : Option Pod → M (Orchestrator × ElectionStrategy)
  assemble_found reply = do pod ← found_own reply; node_ip ← node_ip_of pod; assemble pod node_ip

  abbrev pub dial : M (Unit {0})
  dial = do
    _ ←
        Client.new_client env cfg.redis_host cfg.redis_port cfg.redis_password cfg.redis_tls
          cfg.redis_tls_skip_verify
    pure tt

  -- A witness has no Redis client.
  abbrev pub connect : M (Unit {0})
  connect =
      if cfg.standalone then pure tt else wrapping (codes "failed to create Redis client") dial

  unfoldable pub new : M (Orchestrator × ElectionStrategy)
  new = do connect; reply ← get; assemble_found reply
