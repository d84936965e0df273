-- ===== src/Tests/Server.antt =====
-- A server, a request without a signature, and a peer that asks for the state.
use redis_orchestrator.Base.{[], ◌∷◌, none, some, ◌≡◌, ◌≢◌, ◌⊎◌, refl, true, arith}
use redis_orchestrator.Base.Text.{Bytes, codes}
use redis_orchestrator.Outcome.{ok}
use redis_orchestrator.State.{PodState}
use redis_orchestrator.Effects.{Suffrage, read_clock}
use redis_orchestrator.Auth.{validate_request}
use redis_orchestrator.Auth.Laws.{validate_request-unparsed}
use redis_orchestrator.Election.Raft.Membership.{additions, Adds}
use redis_orchestrator.Orchestrator.{Orchestrator}
use redis_orchestrator.Orchestrator.Peers.{Setting, witness_state, get_local_state, query_peer}
use redis_orchestrator.Orchestrator.Server.{serve}
use redis_orchestrator.Orchestrator.Server.Laws.{Refuses, serve-invalid, answered, query_peer-serve}
use redis_orchestrator.Orchestrator.Server.Raft.{raft_endpoints, serve-Adds}
use redis_orchestrator.Tests.Data.{working, base_config}
use redis_orchestrator.Tests.Auth.{joined, keeper, asking, keeper_secret, asking_unparsed}
use redis_orchestrator.Tests.Peers.{own}
use redis_orchestrator.Tests.Raft.{strategy, codec}

abbrev witness : Orchestrator
witness = record own { config = record base_config { standalone = true } }

abbrev witness_now : PodState
witness_now = witness_state witness 100

abbrev encode : PodState → Bytes
encode st = st.pod_name

abbrev server : Setting
server = record {
  env = working;
  hmac = joined;
  authenticator = keeper;
  decode_state = λ body. some witness_now;
}

-- The client's transport reaches the server.
abbrev client : Setting
client = record server {
  env = record working {
    http_do = λ h req. answered (serve server encode witness none 20 req []).0;
  };
}

refused : validate_request server.hmac server.authenticator 20 asking ≢ ok tt
refused = validate_request-unparsed joined keeper 20 asking keeper_secret asking_unparsed

state_path : asking.url_path ≢ codes "/health"
state_path e = cc

serve-invalid_example :
    Refuses server encode witness 20 asking [] refused (serve server encode witness none 20)
serve-invalid_example = serve-invalid server encode witness 20 asking [] refused none state_path

local_state : get_local_state working witness [] ≡ (ok witness_now, read_clock ∷ [])
unfolding get_local_state
local_state = refl

query_peer-serve_example : (query_peer client (codes "10.0.0.2") []).0 ≡ ok witness_now
query_peer-serve_example =
    query_peer-serve client (codes "10.0.0.2") [] working encode witness none 20 [] witness_now
      (read_clock ∷ []) (omega arith) (omega arith) (omega arith) (omega arith) local_state
      (λ h req. refl) refl

serve-Adds_example :
    (additions
        (serve server encode witness (some (raft_endpoints working codec strategy)) 20 asking []).1
      ≡ additions [])
    ⊎ ((validate_request server.hmac server.authenticator 20 asking ≡ ok tt)
        × ((suffrage : Suffrage) × Adds working codec strategy suffrage asking []
              (serve server encode witness
                (some (raft_endpoints working codec strategy))
                20
                asking
                []).1))
serve-Adds_example = serve-Adds server encode witness codec strategy 20 asking []
