-- ===== src/Orchestrator/Construction/Panics.antt =====
-- `New` does not panic, and passes --debug on to the strategy.
use mathlib.Core.Path.{◌≡◌, refl}
use redis_orchestrator.Base.{List, [], Option, none, some, ◌≢◌, ◌||◌, inl, inr, Bool, Bool-cases}
use redis_orchestrator.Base.Text.{Bytes, codes, str_eq}
use redis_orchestrator.Config.{Config, election_mode_deterministic, election_mode_raft}
use redis_orchestrator.Outcome.{panic, wrap, external}
use redis_orchestrator.Effects.{Pod, redis_ping, History, Env, perform}
use redis_orchestrator.Effects.Returns.{Returns}
use redis_orchestrator.Effects.Panics.{
  NoPanic, pure-NoPanic, fail-NoPanic, perform-NoPanic, lift-NoPanic, if-NoPanic, wrapping-NoPanic,
  >>=-NoPanic,
}
use redis_orchestrator.Redis.Client
use redis_orchestrator.Orchestrator.LoadBalancer.{Service}
use redis_orchestrator.Orchestrator.Peers.{now}
use redis_orchestrator.Orchestrator.Construction.{
  ElectionStrategy, deterministic_strategy, raft_strategy, new_raft_strategy, choose_strategy, dial,
  max_retries, discover_node_ip, assemble, assemble_found, connect, made, new,
}
use redis_orchestrator.Orchestrator.Construction.Retries.{discover_node_ip-ends}

-- The strategy logs as the configuration says.
abbrev pub Logs : Bool → ElectionStrategy → Type 0
Logs debug (deterministic_strategy d) = Unit
Logs debug (raft_strategy r) = r.debug ≡ debug

-- The strategy that is chosen logs exactly if --debug is set, and choosing it does not panic.
pub choose_strategy-Logs :
    (cfg : Config) (pod : Pod) (node_ip : Bytes)
    → Returns (Logs cfg.debug) (choose_strategy cfg pod node_ip)
      × (choose_strategy cfg pod node_ip ≢ panic)
unfolding choose_strategy new_raft_strategy
choose_strategy-Logs cfg pod node_ip =
    elim (Bool-cases
      (str_eq cfg.election_mode election_mode_deterministic || str_eq cfg.election_mode [])) [
        | inl d ↦ simp d (tt, λ e. cc)
        | inr d ↦ elim (Bool-cases (str_eq cfg.election_mode election_mode_raft)) [
          | inl r ↦ simp (d, r) (refl, λ e. cc)
          | inr r ↦ simp (d, r) (tt, λ e. cc)
        ]
      ]

module _ (env : Env) (list_services : History → Option (List Service)) (cfg : Config) where
  discover_node_ip-NoPanic :
      (pod_ip : Bytes) → NoPanic (discover_node_ip env list_services cfg max_retries pod_ip)
  discover_node_ip-NoPanic pod_ip = record {
    ends = discover_node_ip-ends env list_services cfg pod_ip 11;
  }

  assemble-NoPanic :
      (pod : Pod) (node_ip : Bytes) → NoPanic (assemble env list_services cfg pod node_ip)
  assemble-NoPanic pod node_ip =
      >>=-NoPanic _ _
        (lift-NoPanic (choose_strategy cfg pod node_ip) (choose_strategy-Logs cfg pod node_ip).1)
        (λ strategy.
          >>=-NoPanic (now env) _ (perform-NoPanic _ _)
            (λ t. pure-NoPanic (made env list_services cfg pod strategy t)))

  assemble_found-NoPanic :
      (reply : Option Pod) → NoPanic (assemble_found env list_services cfg reply)
  assemble_found-NoPanic none = fail-NoPanic _
  assemble_found-NoPanic (some pod) =
      >>=-NoPanic _ _
        (if-NoPanic cfg.discover_lb_service (discover_node_ip-NoPanic pod.pod_ip)
          (pure-NoPanic pod.pod_ip))
        (assemble-NoPanic pod)

  dial-NoPanic : NoPanic (dial env list_services cfg)
  unfolding Client.new_client
  dial-NoPanic =
      >>=-NoPanic _ _
        (>>=-NoPanic (perform redis_ping env.redis_ping) _
          (perform-NoPanic redis_ping env.redis_ping)
          (λ up.
            if-NoPanic up
              (pure-NoPanic (
                Client.made_client cfg.redis_host cfg.redis_port cfg.redis_password cfg.redis_tls
                  cfg.redis_tls_skip_verify))
              (fail-NoPanic (wrap (codes "failed to connect to Redis") external))))
        (λ _. pure-NoPanic tt)

  -- `New` returns, with or without an error, whatever the surroundings answer.
  pub new-NoPanic : NoPanic (new env list_services cfg)
  unfolding new
  new-NoPanic =
      >>=-NoPanic (connect env list_services cfg) _
        (if-NoPanic cfg.standalone (pure-NoPanic tt)
          (wrapping-NoPanic _ (dial env list_services cfg) dial-NoPanic))
        (λ _. >>=-NoPanic _ _ (perform-NoPanic _ _) assemble_found-NoPanic)
