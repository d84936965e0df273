-- ===== src/Orchestrator/Peers.antt =====
-- Gathering the states: `getLocalState`, `queryPeer`, `discoverAndQueryPeers`, `updatePeerStates`.
-- encoding/json is a parameter: a decoder of the reply, which may refuse it.
pub mod Update
pub mod Discovery
use redis_orchestrator.Base.{
  ℕ, ◌+◌, ◌*◌, ◌/◌, Bool, true, false, not, ◌&&◌, ◌||◌, List, [], ◌∷◌, ◌++◌, Option, none, some,
  ltb, ◌==◌, if◌then◌else◌,
}
use redis_orchestrator.Base.Text.{Bytes, codes, str_eq}
use redis_orchestrator.Base.Dict.{Dict, insert}
use redis_orchestrator.Base.Lists.{select}
use redis_orchestrator.State.{PodState}
use redis_orchestrator.Outcome.{external, message, wrap}
use redis_orchestrator.Effects.{
  Pod, HttpRequest, HttpResponse, pod_list, http_do, read_clock, Env, M, pure, fail, perform,
  attempt, ◌>>=◌,
}
use redis_orchestrator.Auth.{Authenticator, second, sign_request}
use redis_orchestrator.Redis.Client
use redis_orchestrator.Redis.Info.{ReplicationInfo}
use redis_orchestrator.Orchestrator.{Orchestrator, http_port}
use redis_orchestrator.Base.Decimal.{itoa}

-- What the rest of the process gives: the surroundings, the signature function, the decoder.
pub record Setting : Type 0 where
  pub env : Env
  pub hmac : Bytes → Bytes → Bytes
  pub authenticator : Authenticator
  pub decode_state : Bytes → Option PodState

-- `time.Now()`, in nanoseconds.
abbrev pub now : Env → M ℕ
now env = perform read_clock env.read_clock

-- The state of a witness, and of a pod with a Redis.
abbrev pub witness_state : Orchestrator → ℕ → PodState
witness_state o seen = record {
  pod_name = o.config.pod_name;
  pod_ip = o.pod_ip;
  pod_uid = o.pod_uid;
  namespace = o.config.namespace;
  is_master = false;
  is_healthy = true;
  is_witness = true;
  startup_time = o.startup_time;
  last_seen = seen;
}

abbrev pub redis_state : Orchestrator → ReplicationInfo → Bool → ℕ → PodState
redis_state o info healthy seen = record {
  pod_name = o.config.pod_name;
  pod_ip = o.pod_ip;
  pod_uid = o.pod_uid;
  namespace = o.config.namespace;
  is_master = str_eq info.role (codes "master");
  is_healthy = healthy;
  is_witness = false;
  startup_time = o.startup_time;
  last_seen = seen;
}

unfoldable pub get_local_state : Env → Orchestrator → M PodState
get_local_state env o =
    if o.config.standalone then (do seen ← now env; pure (witness_state o seen)) else (do
      info ← Client.get_replication_info env
      healthy ← Client.is_healthy env
      seen ← now env
      pure (redis_state o info healthy seen))

module _ (s : Setting) where
  -- `SignRequest` reads the clock only if there is a secret.
  unfoldable pub sign : HttpRequest → M HttpRequest
  sign req =
      if str_eq s.authenticator.shared_secret []
      then pure req
      else (do t ← now s.env; pure (sign_request s.hmac s.authenticator (t / second) req))

  abbrev pub state_request : Bytes → HttpRequest
  state_request peer_ip = record {
    method = codes "GET";
    url_host = peer_ip ++ b':' ∷ itoa http_port;
    url_path = codes "/state";
    headers = [];
    body = [];
  }

  abbrev pub read_state : Option PodState → M PodState
  read_state none = fail external
  read_state (some st) = pure st

  abbrev pub read_response : Option HttpResponse → M PodState
  read_response none = fail external
  read_response (some resp) =
      if not (resp.status_code == 200)
      then fail (message (codes "unexpected status code"))
      else read_state (s.decode_state resp.body)

  unfoldable pub query_peer : Bytes → M PodState
  query_peer peer_ip = do
    req ← sign (state_request peer_ip)
    resp ← perform (http_do req) (λ h. s.env.http_do h req)
    read_response resp

  module _ (o : Orchestrator) where
    -- The two tests at the head of the loop.
    unfoldable pub is_queried : Pod → Bool
    is_queried pod =
        not (str_eq pod.pod_name o.config.pod_name) && str_eq pod.phase (codes "Running")

    abbrev pub record_peer : Pod → Option PodState → Dict PodState → Dict PodState
    record_peer pod none states = states
    record_peer pod (some st) states = insert pod.pod_name st states

    -- One round of the loop; a failed query is logged only.
    unfoldable pub visit : Pod → Dict PodState → M (Dict PodState)
    visit pod states =
        if is_queried pod
        then (do r ← attempt (query_peer pod.pod_ip); pure (record_peer pod r states))
        else pure states

    unfoldable pub query_pods : List Pod → Dict PodState → M (Dict PodState)
    query_pods [] states = pure states
    query_pods (pod ∷ pods) states = do next ← visit pod states; query_pods pods next

    abbrev pub with_pods : Option (List Pod) → M (Dict PodState)
    with_pods none = fail (wrap (codes "failed to list pods") external)
    with_pods (some pods) = query_pods pods []

    unfoldable pub discover_and_query_peers : M (Dict PodState)
    discover_and_query_peers = do
      pods ←
          perform (pod_list o.config.namespace o.config.label_selector)
            (λ h. s.env.pod_list h o.config.namespace o.config.label_selector)
      with_pods pods

-- `for podName, state := range peerStates { o.peerStates[podName] = state }`
unfoldable pub merge : Dict PodState → Dict PodState → Dict PodState
merge [] m = m
merge ((name, st) ∷ peers) m = merge peers (insert name st m)

-- Sixty seconds, in nanoseconds.
abbrev pub stale_after : ℕ
stale_after = 60 * second

-- `state.LastSeen.Before(time.Now().Add(-60 * time.Second))`
abbrev pub is_stale : ℕ → PodState → Bool
is_stale t st = ltb (st.last_seen + stale_after) t

abbrev pub is_kept : Bytes → ℕ → Bytes × PodState → Bool
is_kept own t (name, st) = str_eq name own || not (is_stale t st)

unfoldable pub update_peer_states : ℕ → PodState → Dict PodState → Orchestrator → Orchestrator
update_peer_states t local peers o = record o {
  peer_states =
      select (is_kept o.config.pod_name t)
        (merge peers (insert o.config.pod_name local o.peer_states));
}
