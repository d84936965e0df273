-- ===== src/Election/Raft/Start/Quiet.antt =====
-- `Start` sends no command to Redis.
use redis_orchestrator.Base.{true, false, List, [], ◌∷◌, Option, none, some, ◌==◌, not, ltb}
use redis_orchestrator.Base.Text.{Bytes, str_eq, slice_to}
use redis_orchestrator.Outcome.{Outcome, or_panic}
use redis_orchestrator.Effects.{HttpRequest, HttpResponse, http_do, raft_read, M, perform}
use redis_orchestrator.Effects.Acts.{Acts-raft_read, Acts-raft_bootstrap, Acts-http_do}
use redis_orchestrator.Effects.Quiet.{
  IsQuiet, lift-IsQuiet, pure-IsQuiet, perform-IsQuiet, if-IsQuiet, attempt-IsQuiet, Gentle-IsQuiet,
  >>=-IsQuiet,
}
use redis_orchestrator.Orchestrator.Peers.{Setting}
use redis_orchestrator.Orchestrator.Sync.Gathering.{sign-Gentle}
use redis_orchestrator.Election.Raft.{RaftStrategy, leader_state}
use redis_orchestrator.Election.Raft.Handlers.{
  AddVoterRequest, RaftClusterInfo, Codec, log_id_if_debug,
}
use redis_orchestrator.Election.Raft.Joining.{
  net_split_host_port, split_host_port, query_host, read_info, accept, discover_cluster,
  read_joined, request_join, join_cluster,
}
use redis_orchestrator.Election.Raft.Start.{
  may_bootstrap, auto_joins, join_found, bootstrap_cluster, join_or_bootstrap, run_raft, log_index,
  start_at, start,
}

module _ (s : Setting) (codec : Codec) (encode_request : AddVoterRequest → Bytes) where
  log_id_if_debug-IsQuiet :
      (r : RaftStrategy) (id : Bytes) → IsQuiet s.env (log_id_if_debug s.env codec r id)
  log_id_if_debug-IsQuiet r id =
      if-IsQuiet s.env r.debug
        (>>=-IsQuiet s.env (lift-IsQuiet s.env (or_panic (slice_to 8 id)))
          (λ _. pure-IsQuiet s.env tt))
        (pure-IsQuiet s.env tt)

  ask-IsQuiet :
      (req : HttpRequest) → IsQuiet s.env (perform (http_do req) (λ h. s.env.http_do h req))
  ask-IsQuiet req = perform-IsQuiet s.env _ _ (Acts-http_do s.env req)

  module _ (r : RaftStrategy) where
    query_host-IsQuiet :
        (host : Option (Bytes × Bytes)) → IsQuiet s.env (query_host s codec encode_request r host)
    query_host-IsQuiet none = pure-IsQuiet s.env none
    query_host-IsQuiet (some (host, port)) =
        >>=-IsQuiet s.env (Gentle-IsQuiet s.env (sign-Gentle s _)) (λ req.
          >>=-IsQuiet s.env (ask-IsQuiet req)
            (λ resp. pure-IsQuiet s.env (read_info s codec encode_request r resp)))

    accept-IsQuiet :
        (peer_addr : Bytes) (info : Option RaftClusterInfo) (rest : M RaftClusterInfo)
        → IsQuiet s.env rest
        → IsQuiet s.env (accept s codec encode_request r peer_addr info rest)
    accept-IsQuiet peer_addr none rest q = q
    accept-IsQuiet peer_addr (some info) rest q =
        if-IsQuiet s.env (not (str_eq info.leader_addr [])) (pure-IsQuiet s.env info)
          (if-IsQuiet s.env (str_eq info.state leader_state) (pure-IsQuiet s.env _) q)

    pub discover_cluster-IsQuiet :
        (peers : List Bytes) → IsQuiet s.env (discover_cluster s codec encode_request r peers)
    unfolding discover_cluster
    discover_cluster-IsQuiet [] = lift-IsQuiet s.env _
    discover_cluster-IsQuiet (peer ∷ peers) =
        >>=-IsQuiet s.env (query_host-IsQuiet (split_host_port peer))
          (λ info. accept-IsQuiet peer info _ (discover_cluster-IsQuiet peers))

    read_joined-IsQuiet :
        (resp : Option HttpResponse) → IsQuiet s.env (read_joined s codec encode_request r resp)
    read_joined-IsQuiet none = lift-IsQuiet s.env _
    read_joined-IsQuiet (some resp) =
        if-IsQuiet s.env (not (resp.status_code == 200)) (lift-IsQuiet s.env _)
          (pure-IsQuiet s.env tt)

    request_join-IsQuiet :
        (leader_addr : Bytes) → IsQuiet s.env (request_join s codec encode_request r leader_addr)
    request_join-IsQuiet leader_addr =
        >>=-IsQuiet s.env (Gentle-IsQuiet s.env (sign-Gentle s _))
          (λ req. >>=-IsQuiet s.env (ask-IsQuiet req) read_joined-IsQuiet)

    pub join_cluster-IsQuiet :
        (leader_addr : Bytes) → IsQuiet s.env (join_cluster s codec encode_request r leader_addr)
    unfolding join_cluster
    join_cluster-IsQuiet leader_addr = if-IsQuiet s.env (not r.started) (lift-IsQuiet s.env _) (
        >>=-IsQuiet s.env (log_id_if_debug-IsQuiet r r.local_pod_uid)
          (λ _. request_join-IsQuiet leader_addr))

    join_found-IsQuiet :
        (found : Option RaftClusterInfo) → IsQuiet s.env (join_found s codec encode_request r found)
    join_found-IsQuiet none = pure-IsQuiet s.env false
    join_found-IsQuiet (some info) =
        >>=-IsQuiet s.env (attempt-IsQuiet s.env (join_cluster-IsQuiet info.leader_addr))
          (λ joined. pure-IsQuiet s.env _)

    bootstrap_cluster-IsQuiet :
        (port : Bytes) → IsQuiet s.env (bootstrap_cluster s codec encode_request r port)
    bootstrap_cluster-IsQuiet port =
        >>=-IsQuiet s.env (log_id_if_debug-IsQuiet r r.local_pod_uid)
          (λ _. perform-IsQuiet s.env _ _ (Acts-raft_bootstrap s.env r.local_pod_uid _))

    join_or_bootstrap-IsQuiet :
        (port : Bytes) → IsQuiet s.env (join_or_bootstrap s codec encode_request r port)
    join_or_bootstrap-IsQuiet port =
        >>=-IsQuiet s.env (attempt-IsQuiet s.env (discover_cluster-IsQuiet r.peers)) (λ found.
          >>=-IsQuiet s.env (join_found-IsQuiet found) (λ joined.
            if-IsQuiet s.env joined (pure-IsQuiet s.env tt) (bootstrap_cluster-IsQuiet port)))

    log_index-IsQuiet : IsQuiet s.env (log_index s codec encode_request)
    log_index-IsQuiet =
        >>=-IsQuiet s.env
          (perform-IsQuiet s.env raft_read s.env.raft_last_index (Acts-raft_read s.env))
          (λ _. pure-IsQuiet s.env tt)

    run_raft-IsQuiet : (port : Bytes) → IsQuiet s.env (run_raft s codec encode_request r port)
    run_raft-IsQuiet port =
        >>=-IsQuiet s.env (perform-IsQuiet s.env _ _ (Acts-raft_read s.env)) (λ index.
          >>=-IsQuiet s.env (if-IsQuiet s.env r.debug log_index-IsQuiet (pure-IsQuiet s.env tt))
            (λ _.
              >>=-IsQuiet s.env
                (if-IsQuiet s.env (may_bootstrap r (ltb 0 index)) (join_or_bootstrap-IsQuiet port)
                  (pure-IsQuiet s.env tt))
                (λ _. pure-IsQuiet s.env (r, auto_joins r (ltb 0 index)))))

  start_at-IsQuiet :
      (created : Outcome (Unit {0})) (r : RaftStrategy) (address : Option (Bytes × Bytes))
      → IsQuiet s.env (start_at s codec encode_request created r address)
  start_at-IsQuiet created r none = lift-IsQuiet s.env _
  start_at-IsQuiet created r (some (host, port)) =
      >>=-IsQuiet s.env (lift-IsQuiet s.env created)
        (λ _. run_raft-IsQuiet (record r { started = true }) port)

  -- `Start` sends no command to Redis, whatever the surroundings answer.
  pub start-IsQuiet :
      (directory created : Outcome (Unit {0})) (r : RaftStrategy)
      → IsQuiet s.env (start s codec encode_request directory created r)
  unfolding start
  start-IsQuiet directory created r =
      >>=-IsQuiet s.env (lift-IsQuiet s.env directory)
        (λ _. start_at-IsQuiet created r (net_split_host_port r.bind_addr))
