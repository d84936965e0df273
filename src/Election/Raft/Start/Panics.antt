-- ===== src/Election/Raft/Start/Panics.antt =====
-- Without debug logging `Start` does not panic, unless what it calls does.
use redis_orchestrator.Base.{
  true, false, List, [], ◌∷◌, Option, none, some, ◌==◌, ◌≡◌, ◌≢◌, not, ltb,
}
use redis_orchestrator.Base.Text.{Bytes, str_eq}
use redis_orchestrator.Outcome.{Outcome, panic}
use redis_orchestrator.Effects.{HttpRequest, HttpResponse, http_do, raft_read, M, perform}
use redis_orchestrator.Effects.Panics.{
  NoPanic, pure-NoPanic, fail-NoPanic, perform-NoPanic, lift-NoPanic, if-NoPanic, attempt-NoPanic,
  >>=-NoPanic,
}
use redis_orchestrator.Effects.Gentle.{Gentle-NoPanic}
use redis_orchestrator.Orchestrator.Peers.{Setting}
use redis_orchestrator.Orchestrator.Sync.Gathering.{sign-Gentle}
use redis_orchestrator.Election.Raft.{RaftStrategy, leader_state}
use redis_orchestrator.Election.Raft.Handlers.{
  AddVoterRequest, RaftClusterInfo, Codec, log_id_if_debug,
}
use redis_orchestrator.Election.Raft.Joining.{
  net_split_host_port, split_host_port, query_host, read_info, accept, discover_cluster,
  read_joined, request_join, join_cluster,
}
use redis_orchestrator.Election.Raft.Start.{
  may_bootstrap, auto_joins, join_found, join_or_bootstrap, run_raft, log_index, start_at, start,
}

module _ (s : Setting) (codec : Codec) (encode_request : AddVoterRequest → Bytes) where
  ask-NoPanic : (req : HttpRequest) → NoPanic (perform (http_do req) (λ h. s.env.http_do h req))
  ask-NoPanic req = perform-NoPanic _ _

  module _ (r : RaftStrategy) (silent : r.debug ≡ false) where
    log_id_if_debug-NoPanic : (id : Bytes) → NoPanic (log_id_if_debug s.env codec r id)
    log_id_if_debug-NoPanic id = simp silent (pure-NoPanic tt)

    query_host-NoPanic :
        (host : Option (Bytes × Bytes)) → NoPanic (query_host s codec encode_request r host)
    query_host-NoPanic none = pure-NoPanic none
    query_host-NoPanic (some (host, port)) =
        >>=-NoPanic _ _ (Gentle-NoPanic s.env (sign-Gentle s _)) (λ req.
          >>=-NoPanic _ _ (ask-NoPanic req)
            (λ resp. pure-NoPanic (read_info s codec encode_request r resp)))

    accept-NoPanic :
        (peer_addr : Bytes) (info : Option RaftClusterInfo) (rest : M RaftClusterInfo)
        → NoPanic rest
        → NoPanic (accept s codec encode_request r peer_addr info rest)
    accept-NoPanic peer_addr none rest q = q
    accept-NoPanic peer_addr (some info) rest q =
        if-NoPanic (not (str_eq info.leader_addr [])) (pure-NoPanic info)
          (if-NoPanic (str_eq info.state leader_state) (pure-NoPanic _) q)

    pub discover_cluster-NoPanic :
        (peers : List Bytes) → NoPanic (discover_cluster s codec encode_request r peers)
    unfolding discover_cluster
    discover_cluster-NoPanic [] = fail-NoPanic _
    discover_cluster-NoPanic (peer ∷ peers) =
        >>=-NoPanic _ _ (query_host-NoPanic (split_host_port peer))
          (λ info. accept-NoPanic peer info _ (discover_cluster-NoPanic peers))

    read_joined-NoPanic :
        (resp : Option HttpResponse) → NoPanic (read_joined s codec encode_request r resp)
    read_joined-NoPanic none = fail-NoPanic _
    read_joined-NoPanic (some resp) =
        if-NoPanic (not (resp.status_code == 200)) (fail-NoPanic _) (pure-NoPanic tt)

    request_join-NoPanic :
        (leader_addr : Bytes) → NoPanic (request_join s codec encode_request r leader_addr)
    request_join-NoPanic leader_addr =
        >>=-NoPanic _ _ (Gentle-NoPanic s.env (sign-Gentle s _))
          (λ req. >>=-NoPanic _ _ (ask-NoPanic req) read_joined-NoPanic)

    pub join_cluster-NoPanic :
        (leader_addr : Bytes) → NoPanic (join_cluster s codec encode_request r leader_addr)
    unfolding join_cluster
    join_cluster-NoPanic leader_addr = if-NoPanic (not r.started) (fail-NoPanic _) (
        >>=-NoPanic _ _ (log_id_if_debug-NoPanic r.local_pod_uid)
          (λ _. request_join-NoPanic leader_addr))

    join_found-NoPanic :
        (found : Option RaftClusterInfo) → NoPanic (join_found s codec encode_request r found)
    join_found-NoPanic none = pure-NoPanic false
    join_found-NoPanic (some info) =
        >>=-NoPanic _ _ (attempt-NoPanic _ (join_cluster-NoPanic info.leader_addr))
          (λ joined. pure-NoPanic _)

    join_or_bootstrap-NoPanic :
        (port : Bytes) → NoPanic (join_or_bootstrap s codec encode_request r port)
    join_or_bootstrap-NoPanic port =
        >>=-NoPanic _ _ (attempt-NoPanic _ (discover_cluster-NoPanic r.peers)) (λ found.
          >>=-NoPanic _ _ (join_found-NoPanic found) (λ joined.
            if-NoPanic joined (pure-NoPanic tt) (
              >>=-NoPanic _ _ (log_id_if_debug-NoPanic r.local_pod_uid)
                (λ _. perform-NoPanic _ _))))

    log_index-NoPanic : NoPanic (log_index s codec encode_request)
    log_index-NoPanic =
        >>=-NoPanic (perform raft_read s.env.raft_last_index) _ (perform-NoPanic _ _)
          (λ _. pure-NoPanic tt)

    run_raft-NoPanic : (port : Bytes) → NoPanic (run_raft s codec encode_request r port)
    run_raft-NoPanic port =
        >>=-NoPanic (perform raft_read s.env.raft_last_index) _ (perform-NoPanic _ _) (λ index.
          >>=-NoPanic _ _ (if-NoPanic r.debug log_index-NoPanic (pure-NoPanic tt)) (λ _.
            >>=-NoPanic _ _
              (if-NoPanic (may_bootstrap r (ltb 0 index)) (join_or_bootstrap-NoPanic port)
                (pure-NoPanic tt))
              (λ _. pure-NoPanic (r, auto_joins r (ltb 0 index)))))

  module _ (directory created : Outcome (Unit {0})) (made : directory ≢ panic)
      (running : created ≢ panic) (r : RaftStrategy) (silent : r.debug ≡ false) where
    start_at-NoPanic :
        (address : Option (Bytes × Bytes))
        → NoPanic (start_at s codec encode_request created r address)
    start_at-NoPanic none = fail-NoPanic _
    start_at-NoPanic (some (host, port)) =
        >>=-NoPanic _ _ (lift-NoPanic created running)
          (λ _. run_raft-NoPanic (record r { started = true }) silent port)

    -- Without debug logging `Start` does not panic, if what os and hashicorp/raft do before Raft
    -- runs does not.
    pub start-NoPanic : NoPanic (start s codec encode_request directory created r)
    unfolding start
    start-NoPanic =
        >>=-NoPanic _ _ (lift-NoPanic directory made)
          (λ _. start_at-NoPanic (net_split_host_port r.bind_addr))
