-- ===== src/Orchestrator/Sync/Gathering.antt =====
-- What `syncState` does before it reconciles.
use redis_orchestrator.Base.{◌/◌, List, [], ◌∷◌, Option, none, some}
use redis_orchestrator.Base.Text.{Bytes, str_eq}
use redis_orchestrator.Base.Dict.{Dict}
use redis_orchestrator.State.{PodState}
use redis_orchestrator.Effects.{Pod, HttpRequest, HttpResponse, http_do, Env, attempt}
use redis_orchestrator.Effects.Acts.{Acts-redis_ping, Acts-read_clock, Acts-pod_list, Acts-http_do}
use redis_orchestrator.Effects.Gentle.{
  Gentle, Gentle-pure, Gentle-fail, Gentle-if, Gentle-perform, Gentle-bind, Gentle-attempt,
  Gentle-wrapping,
}
use redis_orchestrator.Auth.{second, sign_request}
use redis_orchestrator.Redis.Client.{get_replication_info, is_healthy}
use redis_orchestrator.Redis.Client.Laws.{get_replication_info-Gentle}
use redis_orchestrator.Orchestrator.{Orchestrator, Strategy}
use redis_orchestrator.Orchestrator.Peers.{
  Setting, now, witness_state, redis_state, get_local_state, sign, query_peer, is_queried,
  record_peer, visit, query_pods, with_pods, read_response, read_state, state_request,
  discover_and_query_peers,
}
use redis_orchestrator.Orchestrator.Sync.{or_nil, gather}

-- Gathering the states leaves Redis alone and does not panic.
module _ (env : Env) where
  pub now-Gentle : Gentle env (now env)
  now-Gentle = Gentle-perform env _ _ (Acts-read_clock env)

  is_healthy-Gentle : Gentle env (is_healthy env)
  unfolding is_healthy
  is_healthy-Gentle = Gentle-perform env _ _ (Acts-redis_ping env)

  get_local_state-Gentle : (o : Orchestrator) → Gentle env (get_local_state env o)
  unfolding get_local_state
  get_local_state-Gentle o =
      Gentle-if env o.config.standalone
        (Gentle-bind env (now env) _ now-Gentle (λ t. Gentle-pure env (witness_state o t)))
        (Gentle-bind env (get_replication_info env) _ (get_replication_info-Gentle env) (λ info.
          Gentle-bind env (is_healthy env) _ is_healthy-Gentle (λ healthy.
            Gentle-bind env (now env) _ now-Gentle
              (λ t. Gentle-pure env (redis_state o info healthy t)))))

module _ (s : Setting) where
  pub sign-Gentle : (req : HttpRequest) → Gentle s.env (sign s req)
  unfolding sign
  sign-Gentle req =
      Gentle-if s.env (str_eq s.authenticator.shared_secret []) (Gentle-pure s.env req) (
        Gentle-bind s.env (now s.env) _ (now-Gentle s.env)
          (λ t. Gentle-pure s.env (sign_request s.hmac s.authenticator (t / second) req)))

  read_state-Gentle : (r : Option PodState) → Gentle s.env (read_state s r)
  read_state-Gentle none = Gentle-fail s.env _
  read_state-Gentle (some st) = Gentle-pure s.env st

  read_response-Gentle : (r : Option HttpResponse) → Gentle s.env (read_response s r)
  read_response-Gentle none = Gentle-fail s.env _
  read_response-Gentle (some resp) =
      Gentle-if s.env _ (Gentle-fail s.env _) (read_state-Gentle (s.decode_state resp.body))

  query_peer-Gentle : (ip : Bytes) → Gentle s.env (query_peer s ip)
  unfolding query_peer
  query_peer-Gentle ip =
      Gentle-bind s.env (sign s (state_request s ip)) _ (sign-Gentle (state_request s ip)) (λ req.
        Gentle-bind s.env _ _
          (Gentle-perform s.env (http_do req) (λ h. s.env.http_do h req) (Acts-http_do s.env req))
          read_response-Gentle)

  module _ (o : Orchestrator) where
    visit-Gentle : (pod : Pod) (states : Dict PodState) → Gentle s.env (visit s o pod states)
    unfolding visit
    visit-Gentle pod states =
        Gentle-if s.env (is_queried s o pod)
          (Gentle-bind s.env (attempt (query_peer s pod.pod_ip)) _
            (Gentle-attempt s.env _ (query_peer-Gentle pod.pod_ip))
            (λ r. Gentle-pure s.env (record_peer s o pod r states)))
          (Gentle-pure s.env states)

    query_pods-Gentle :
        (pods : List Pod) (states : Dict PodState) → Gentle s.env (query_pods s o pods states)
    unfolding query_pods
    query_pods-Gentle [] states = Gentle-pure s.env states
    query_pods-Gentle (pod ∷ pods) states =
        Gentle-bind s.env (visit s o pod states) _ (visit-Gentle pod states)
          (λ next. query_pods-Gentle pods next)

    with_pods-Gentle : (r : Option (List Pod)) → Gentle s.env (with_pods s o r)
    with_pods-Gentle none = Gentle-fail s.env _
    with_pods-Gentle (some pods) = query_pods-Gentle pods []

    discover-Gentle : Gentle s.env (discover_and_query_peers s o)
    unfolding discover_and_query_peers
    discover-Gentle =
        Gentle-bind s.env _ _
          (Gentle-perform s.env _ _
            (Acts-pod_list s.env o.config.namespace o.config.label_selector))
          with_pods-Gentle

  pub gather-Gentle :
      (strategy : Strategy s.env) (o : Orchestrator) → Gentle s.env (gather s strategy o)
  unfolding gather
  gather-Gentle strategy o =
      Gentle-bind s.env _ _ (Gentle-wrapping s.env _ _ (get_local_state-Gentle s.env o)) (λ local.
        Gentle-bind s.env _ _ (Gentle-attempt s.env _ (discover-Gentle o)) (λ peers.
          Gentle-bind s.env (now s.env) _ (now-Gentle s.env)
            (λ t. Gentle-pure s.env (local, or_nil peers, t))))
