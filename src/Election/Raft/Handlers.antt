-- ===== src/Election/Raft/Handlers.antt =====
-- pkg/election/raft_handlers.go: the Raft endpoints. The two handlers that add a member differ in
-- the call that adds and in a log text. encoding/json is a parameter; the texts of its errors and
-- of hashicorp/raft's are left out of the answers.
use redis_orchestrator.Base.{
  ℕ, List, [], ◌∷◌, ◌++◌, Option, none, some, Bool, true, false, not, ◌||◌, if◌then◌else◌,
}
use redis_orchestrator.Base.Text.{Bytes, codes, str_eq, slice_to}
use redis_orchestrator.Outcome.{or_panic}
use redis_orchestrator.Effects.{
  Suffrage, voter, nonvoter, RaftServer, HttpRequest, HttpResponse, raft_read, raft_add, Env, M,
  pure, perform, lift, ◌>>=◌, ◌>>◌,
}
use redis_orchestrator.Election.Raft.{RaftStrategy, leader_state}

pub record AddVoterRequest : Type 0 where
  pub id : Bytes
  pub address : Bytes

pub record RaftClusterInfo : Type 0 where
  pub leader_addr : Bytes
  pub leader_id : Bytes
  pub state : Bytes
  pub pod_name : Bytes
  pub pod_uid : Bytes
  pub peers : List Bytes

-- encoding/json
pub record Codec : Type 0 where
  pub decode_request : Bytes → Option AddVoterRequest
  pub encode_status : Bytes → Bytes
  pub encode_info : RaftClusterInfo → Bytes
  pub decode_info : Bytes → Option RaftClusterInfo
  pub encode_servers : List RaftServer → Bytes

abbrev pub answer : ℕ → Bytes → HttpResponse
answer status_code body = record { status_code = status_code; body = body }

abbrev not_initialized : HttpResponse
not_initialized = answer 503 (codes "Raft not initialized\n")

abbrev no_configuration : HttpResponse
no_configuration = answer 500 (codes "Failed to get configuration")

unfoldable pub is_member : Bytes → List RaftServer → Bool
is_member id [] = false
is_member id (server ∷ servers) = if str_eq server.server_id id then true else is_member id servers

module _ (env : Env) (codec : Codec) (r : RaftStrategy) where
  unfoldable pub handle_raft_status : HttpRequest → M HttpResponse
  handle_raft_status req = if not r.started then pure not_initialized else (do
    leader ← perform raft_read env.raft_leader
    state ← perform raft_read env.raft_state
    pure (
        answer 200 (
          codec.encode_info (record {
            leader_addr = leader.0;
            leader_id = leader.1;
            state = state;
            pod_name = r.local_pod_name;
            pod_uid = r.local_pod_uid;
            peers = r.peers;
          }))))

  abbrev servers_response : Option (List RaftServer) → HttpResponse
  servers_response none = no_configuration
  servers_response (some servers) = answer 200 (codec.encode_servers servers)

  unfoldable pub handle_raft_peers : HttpRequest → M HttpResponse
  handle_raft_peers req =
      if not r.started
      then pure not_initialized
      else (do servers ← perform raft_read env.raft_configuration; pure (servers_response servers))

  -- `request.ID[:8]`, as an argument of a log call.
  abbrev pub log_id : Bytes → M Bytes
  log_id id = lift (or_panic (slice_to 8 id))

  abbrev pub log_id_if_debug : Bytes → M (Unit {0})
  log_id_if_debug id = if r.debug then (do _ ← log_id id; pure tt) else pure tt

  module _ (suffrage : Suffrage) where
    abbrev pub add_member : AddVoterRequest → M HttpResponse
    add_member request = do
      done ←
          perform (raft_add suffrage request.id request.address)
            (λ h. env.raft_add h suffrage request.id request.address)
      _ ← log_id request.id
      if done
          then pure (answer 200 (codec.encode_status (codes "added")))
          else pure (answer 500 (codes "Failed to add"))

    abbrev pub add_to : AddVoterRequest → Option (List RaftServer) → M HttpResponse
    add_to request none = pure no_configuration
    add_to request (some servers) =
        if is_member request.id servers
        then (do
          log_id_if_debug request.id
          pure (answer 200 (codec.encode_status (codes "already_member"))))
        else add_member request

    abbrev pub add_requested : Option AddVoterRequest → M HttpResponse
    add_requested none = pure (answer 400 (codes "Invalid request"))
    add_requested (some request) =
        if str_eq request.id [] || str_eq request.address []
        then pure (answer 400 (codes "ID and Address are required\n"))
        else (do
          log_id_if_debug request.id
          servers ← perform raft_read env.raft_configuration
          add_to request servers)

    abbrev pub refuse : M HttpResponse
    refuse = do
      leader ← perform raft_read env.raft_leader
      pure (answer 400 (codes "Not the leader, leader is: " ++ leader.0))

    unfoldable pub handle_add : HttpRequest → M HttpResponse
    handle_add req = if not r.started then pure not_initialized else (do
      state ← perform raft_read env.raft_state
      if not (str_eq state leader_state)
          then refuse
          else add_requested (codec.decode_request req.body))

  abbrev pub handle_add_voter : HttpRequest → M HttpResponse
  handle_add_voter = handle_add voter

  abbrev pub handle_add_nonvoter : HttpRequest → M HttpResponse
  handle_add_nonvoter = handle_add nonvoter
