-- ===== src/Election/Raft/Joining.antt =====
-- pkg/election/raft_discovery.go: the search for a cluster, and the request to join it. A URL that
-- net/http refuses counts as a peer that does not answer. The timeouts are the transport's.
use redis_orchestrator.Base.{
  ℕ, List, [], ◌∷◌, ◌++◌, Option, none, some, Bool, true, false, not, ◌||◌, ◌==◌, if◌then◌else◌,
}
use redis_orchestrator.Base.Text.{Bytes, codes, str_eq}
use redis_orchestrator.Base.Decimal.{itoa}
use redis_orchestrator.Outcome.{message, wrap, external}
use redis_orchestrator.Effects.{
  HttpRequest, HttpResponse, http_do, M, pure, fail, perform, ◌>>=◌, ◌>>◌,
}
use redis_orchestrator.Orchestrator.Peers.{Setting, sign}
use redis_orchestrator.Election.Raft.{RaftStrategy, leader_state}
use redis_orchestrator.Election.Raft.Handlers.{
  AddVoterRequest, RaftClusterInfo, Codec, log_id_if_debug,
}

-- A byte in a string.
unfoldable pub contains : ℕ → Bytes → Bool
contains c [] = false
contains c (d ∷ s) = if d == c then true else contains c s

abbrev push : ℕ → Option (Bytes × Bytes) → Option (Bytes × Bytes)
push c none = none
push c (some (before, after)) = some (c ∷ before, after)

-- The string before and behind the first such byte.
unfoldable pub cut : ℕ → Bytes → Option (Bytes × Bytes)
cut c [] = none
cut c (d ∷ s) = if d == c then some ([], s) else push d (cut c s)

-- `net.SplitHostPort`: a host in brackets may have colons, and nothing else may have brackets.
abbrev bracketed : Option (Bytes × Bytes) → Option (Bytes × Bytes)
bracketed none = none
bracketed (some (host, [])) = none
bracketed (some (host, c ∷ port)) =
    if not (c == b':')
      || (contains b':' port || (contains b'[' port || (contains b']' port || contains b'[' host)))
    then none
    else some (host, port)

abbrev unbracketed : Option (Bytes × Bytes) → Option (Bytes × Bytes)
unbracketed none = none
unbracketed (some (host, port)) =
    if contains b':' port
      || ((contains b'[' host || contains b']' host) || (contains b'[' port || contains b']' port))
    then none
    else some (host, port)

unfoldable pub net_split_host_port : Bytes → Option (Bytes × Bytes)
net_split_host_port [] = none
net_split_host_port (c ∷ s) =
    if c == b'[' then bracketed (cut b']' s) else unbracketed (cut b':' (c ∷ s))

-- `splitHostPort`
unfoldable pub split_host_port : Bytes → Option (Bytes × Bytes)
split_host_port addr =
    if not (contains b':' addr) then some (addr, codes "7000") else net_split_host_port addr

-- `_, port, _ := splitHostPort(addr)`: an error leaves the port empty.
abbrev pub port_or_empty : Option (Bytes × Bytes) → Bytes
port_or_empty none = []
port_or_empty (some (host, port)) = port

-- `strings.Split(addr, ":")[0]`
abbrev first_part : Option (Bytes × Bytes) → Bytes → Bytes
first_part none addr = addr
first_part (some (host, port)) addr = host

module _ (s : Setting) (codec : Codec) (encode_request : AddVoterRequest → Bytes)
    (r : RaftStrategy) where
  abbrev pub status_request : Bytes → HttpRequest
  status_request host = record {
    method = codes "GET";
    url_host = host ++ codes ":8080";
    url_path = codes "/raft/status";
    headers = [];
    body = [];
  }

  -- A peer that gives no cluster information is passed over.
  abbrev pub read_info : Option HttpResponse → Option RaftClusterInfo
  read_info none = none
  read_info (some resp) =
      if not (resp.status_code == 200) then none else codec.decode_info resp.body

  abbrev pub query_host : Option (Bytes × Bytes) → M (Option RaftClusterInfo)
  query_host none = pure none
  query_host (some (host, port)) = do
    req ← sign s (status_request host)
    resp ← perform (http_do req) (λ h. s.env.http_do h req)
    pure (read_info resp)

  abbrev pub accept : Bytes → Option RaftClusterInfo → M RaftClusterInfo → M RaftClusterInfo
  accept peer_addr none rest = rest
  accept peer_addr (some info) rest =
      if not (str_eq info.leader_addr [])
      then pure info
      else if str_eq info.state leader_state
      then pure (record info { leader_addr = peer_addr })
      else rest

  unfoldable pub discover_cluster : List Bytes → M RaftClusterInfo
  discover_cluster [] = fail (message (codes "no existing Raft cluster found"))
  discover_cluster (peer_addr ∷ peer_addrs) = do
    info ← query_host (split_host_port peer_addr)
    accept peer_addr info (discover_cluster peer_addrs)

  -- A witness joins without a vote.
  unfoldable pub join_request : Bytes → HttpRequest
  join_request leader_addr = record {
    method = codes "POST";
    url_host = first_part (cut b':' leader_addr) leader_addr ++ codes ":8080";
    url_path = if r.standalone then codes "/raft/add-nonvoter" else codes "/raft/add-voter";
    headers = (codes "Content-Type", codes "application/json") ∷ [];
    body = encode_request (record {
      id = r.local_pod_uid;
      address = r.local_pod_ip ++ (b':' ∷ port_or_empty (split_host_port r.bind_addr));
    });
  }

  abbrev pub read_joined : Option HttpResponse → M (Unit {0})
  read_joined none = fail (wrap (codes "failed to contact leader") external)
  read_joined (some resp) =
      if not (resp.status_code == 200)
      then fail (message (codes "join request failed with status " ++ itoa resp.status_code))
      else pure tt

  abbrev pub request_join : Bytes → M (Unit {0})
  request_join leader_addr = do
    req ← sign s (join_request leader_addr)
    resp ← perform (http_do req) (λ h. s.env.http_do h req)
    read_joined resp

  unfoldable pub join_cluster : Bytes → M (Unit {0})
  join_cluster leader_addr =
      if not r.started
      then fail (message (codes "Raft not initialized"))
      else do log_id_if_debug s.env codec r r.local_pod_uid; request_join leader_addr
