-- ===== src/Tests/Construction.antt =====
-- An orchestrator that `New` makes.
use redis_orchestrator.Base.{List, [], ◌∷◌, Option, some, ◌≡◌, refl}
use redis_orchestrator.Base.Text.{codes, str_eq}
use redis_orchestrator.Outcome.{ok}
use redis_orchestrator.Effects.{redis_ping, pod_get, read_clock, History}
use redis_orchestrator.Election.Deterministic.{new_deterministic_strategy}
use redis_orchestrator.Orchestrator.{Orchestrator}
use redis_orchestrator.Orchestrator.LoadBalancer.{Service}
use redis_orchestrator.Redis.Client
use redis_orchestrator.Orchestrator.Construction.{
  ElectionStrategy, deterministic_strategy, choose_strategy, discover_node_ip, new,
}
use redis_orchestrator.Orchestrator.Construction.Laws.{Uses, new-Made}
use redis_orchestrator.Orchestrator.Construction.Retries.{Decided, discover_node_ip-Decided}
use redis_orchestrator.Tests.Data.{base_config, working}

abbrev no_services : History → Option (List Service)
no_services h = some []

abbrev fresh : Orchestrator
fresh = record {
  config = base_config;
  startup_time = 100;
  pod_ip = codes "10.0.0.1";
  pod_uid = codes "uid-0000-a";
  peer_states = [];
}

abbrev chosen : ElectionStrategy
chosen =
    deterministic_strategy
      (new_deterministic_strategy (codes "redis-0") (codes "uid-0000-a") base_config.debug)

abbrev calls : History
calls = read_clock ∷ pod_get (codes "default") (codes "redis-0") ∷ redis_ping ∷ []

makes : new working no_services base_config [] ≡ (ok (fresh, chosen), calls)
unfolding new Client.new_client choose_strategy str_eq
makes = refl

discover_node_ip-Decided_example :
    Decided working no_services base_config
      (codes "10.0.0.1")
      12
      []
      (discover_node_ip working no_services base_config 12 (codes "10.0.0.1") [])
discover_node_ip-Decided_example =
    discover_node_ip-Decided working no_services base_config (codes "10.0.0.1") 11 []

new-Made_example :
    (fresh.config ≡ base_config) × (fresh.peer_states ≡ []) × Uses base_config.election_mode chosen
new-Made_example = new-Made working no_services base_config [] calls fresh chosen makes
