-- ===== src/Orchestrator/Construction/Quiet.antt =====
-- `New` sends no command to Redis.
use redis_orchestrator.Base.{ℕ, suc, zero, List, [], Option, none, some, ◌==◌, not}
use redis_orchestrator.Base.Text.{Bytes, codes, str_eq}
use redis_orchestrator.Config.{Config}
use redis_orchestrator.Outcome.{Outcome, ok, err, panic, wrap, external}
use redis_orchestrator.Effects.{Pod, redis_ping, pod_get, service_list, History, Env, M, perform}
use redis_orchestrator.Effects.Acts.{Acts-redis_ping, Acts-pod_get, Acts-service_list}
use redis_orchestrator.Effects.Quiet.{
  IsQuiet, lift-IsQuiet, fail-IsQuiet, pure-IsQuiet, perform-IsQuiet, if-IsQuiet, wrapping-IsQuiet,
  outcome-IsQuiet, Gentle-IsQuiet, >>=-IsQuiet,
}
use redis_orchestrator.Redis.Client
use redis_orchestrator.Orchestrator.LoadBalancer.{Service, discover_load_balancer_ip}
use redis_orchestrator.Orchestrator.Sync.Gathering.{now-Gentle}
use redis_orchestrator.Orchestrator.Construction.{
  made, dial, services_for, discover, next_ip, discover_node_ip, node_ip_of, assemble,
  assemble_found, connect, new, choose_strategy, max_retries,
}

module _ (env : Env) (list_services : History → Option (List Service)) (cfg : Config) where
  dial-IsQuiet : IsQuiet env (dial env list_services cfg)
  unfolding Client.new_client
  dial-IsQuiet =
      >>=-IsQuiet env
        (>>=-IsQuiet env (perform-IsQuiet env redis_ping env.redis_ping (Acts-redis_ping env))
          (λ up.
            if-IsQuiet env up
              (pure-IsQuiet env (
                Client.made_client cfg.redis_host cfg.redis_port cfg.redis_password cfg.redis_tls
                  cfg.redis_tls_skip_verify))
              (fail-IsQuiet env (wrap (codes "failed to connect to Redis") external))))
        (λ _. pure-IsQuiet env tt)

  connect-IsQuiet : IsQuiet env (connect env list_services cfg)
  connect-IsQuiet =
      if-IsQuiet env cfg.standalone (pure-IsQuiet env tt) (wrapping-IsQuiet env _ dial-IsQuiet)

  get-IsQuiet :
      IsQuiet env (
        perform
          (pod_get cfg.namespace cfg.pod_name)
          (λ h. env.pod_get h cfg.namespace cfg.pod_name))
  get-IsQuiet = perform-IsQuiet env _ _ (Acts-pod_get env cfg.namespace cfg.pod_name)

  services_for-IsQuiet : (pod : Option Pod) → IsQuiet env (services_for env list_services cfg pod)
  services_for-IsQuiet none = lift-IsQuiet env _
  services_for-IsQuiet (some pod) =
      >>=-IsQuiet env
        (perform-IsQuiet env (service_list cfg.namespace) list_services
          (Acts-service_list env cfg.namespace))
        (λ services. lift-IsQuiet env (discover_load_balancer_ip cfg.pod_name (some pod) services))

  discover-IsQuiet : IsQuiet env (discover env list_services cfg)
  unfolding discover
  discover-IsQuiet = >>=-IsQuiet env get-IsQuiet services_for-IsQuiet

  next_ip-IsQuiet :
      (left : ℕ) (pod_ip : Bytes) (r : Outcome (Bytes × Bytes)) (rest : M Bytes)
      → IsQuiet env rest
      → IsQuiet env (next_ip env list_services cfg left pod_ip r rest)
  next_ip-IsQuiet left pod_ip (ok (lb_ip, svc_name)) rest q =
      if-IsQuiet env (not (str_eq lb_ip [])) (pure-IsQuiet env lb_ip)
        (if-IsQuiet env (not (str_eq svc_name [])) q (pure-IsQuiet env pod_ip))
  next_ip-IsQuiet left pod_ip (err e) rest q = if-IsQuiet env (left == 0) (lift-IsQuiet env _) q
  next_ip-IsQuiet left pod_ip panic rest q = lift-IsQuiet env _

  discover_node_ip-IsQuiet :
      (left : ℕ) (pod_ip : Bytes) → IsQuiet env (discover_node_ip env list_services cfg left pod_ip)
  unfolding discover_node_ip
  discover_node_ip-IsQuiet zero pod_ip = pure-IsQuiet env pod_ip
  discover_node_ip-IsQuiet (suc left) pod_ip =
      >>=-IsQuiet env (outcome-IsQuiet env discover-IsQuiet)
        (λ r. next_ip-IsQuiet left pod_ip r _ (discover_node_ip-IsQuiet left pod_ip))

  node_ip_of-IsQuiet : (pod : Pod) → IsQuiet env (node_ip_of env list_services cfg pod)
  node_ip_of-IsQuiet pod =
      if-IsQuiet env cfg.discover_lb_service (discover_node_ip-IsQuiet max_retries pod.pod_ip)
        (pure-IsQuiet env pod.pod_ip)

  assemble-IsQuiet :
      (pod : Pod) (node_ip : Bytes) → IsQuiet env (assemble env list_services cfg pod node_ip)
  assemble-IsQuiet pod node_ip =
      >>=-IsQuiet env (lift-IsQuiet env (choose_strategy cfg pod node_ip)) (λ strategy.
        >>=-IsQuiet env (Gentle-IsQuiet env (now-Gentle env))
          (λ startup_time. pure-IsQuiet env (made env list_services cfg pod strategy startup_time)))

  assemble_found-IsQuiet :
      (reply : Option Pod) → IsQuiet env (assemble_found env list_services cfg reply)
  assemble_found-IsQuiet none = lift-IsQuiet env _
  assemble_found-IsQuiet (some pod) =
      >>=-IsQuiet env (node_ip_of-IsQuiet pod) (λ node_ip. assemble-IsQuiet pod node_ip)

  -- `New` sends no command to Redis, whatever the surroundings answer.
  pub new-IsQuiet : IsQuiet env (new env list_services cfg)
  unfolding new
  new-IsQuiet =
      >>=-IsQuiet env connect-IsQuiet (λ _. >>=-IsQuiet env get-IsQuiet assemble_found-IsQuiet)
