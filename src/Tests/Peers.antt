-- ===== src/Tests/Peers.antt =====
-- Two pods, of which one answers.
use redis_orchestrator.Base.{◌∷◌, [], ◌≡◌, refl, some, none, if◌then◌else◌}
use redis_orchestrator.Base.Text.{codes, str_eq}
use redis_orchestrator.Base.Dict.{Dict, lookup, insert}
use redis_orchestrator.Base.Dict.Laws.{IsDict}
use redis_orchestrator.State.{PodState}
use redis_orchestrator.Outcome.{ok}
use redis_orchestrator.Effects.{History, Pod, Env, pod_list, http_do}
use redis_orchestrator.Auth.{new_authenticator}
use redis_orchestrator.Orchestrator.{Orchestrator}
use redis_orchestrator.Orchestrator.Peers.{
  Setting, state_request, sign, is_queried, visit, query_pods, query_peer, discover_and_query_peers,
  update_peer_states,
}
use redis_orchestrator.Orchestrator.Peers.Discovery.{IsPeers, discover_and_query_peers-IsPeers}
use redis_orchestrator.Orchestrator.Peers.Update.{
  refreshed, lookup-update_peer_states, update_peer_states-IsDict,
}
use redis_orchestrator.Tests.Data.{older, younger, base_config, working, a_pod, node_of}

abbrev other_pod : Pod
other_pod = record a_pod { pod_name = codes "redis-1"; pod_ip = codes "10.0.0.2" }

abbrev answering : Env
answering = record working {
  pod_list = λ _ _ _. some (a_pod ∷ other_pod ∷ []);
  http_do = λ _ _. some (record { status_code = 200; body = codes "older" });
}

-- Without a secret, and with a decoder that reads one state.
abbrev pub setting : Setting
setting = record {
  env = answering;
  hmac = λ secret text. text;
  authenticator = new_authenticator [];
  decode_state = λ body. some older;
}

abbrev pub own : Orchestrator
own = record (node_of base_config younger younger older) {
  peer_states = (codes "redis-9", older) ∷ [];
}

abbrev answers : Dict PodState
answers = (codes "redis-1", older) ∷ []

abbrev visited : History
visited =
    http_do (state_request setting (codes "10.0.0.2"))
    ∷ pod_list (codes "default") (codes "app=redis")
    ∷ []

discovered : discover_and_query_peers setting own [] ≡ (ok answers, visited)
unfolding discover_and_query_peers query_pods visit is_queried query_peer sign str_eq insert
discovered = refl

discover_and_query_peers-IsPeers_example : IsPeers setting own answers
discover_and_query_peers-IsPeers_example =
    discover_and_query_peers-IsPeers setting own [] visited answers discovered

answers-IsDict : IsDict answers
unfolding lookup
answers-IsDict = (refl, tt)

pub own-IsDict : IsDict own.peer_states
unfolding lookup
own-IsDict = (refl, tt)

own-absent : lookup own.config.pod_name answers ≡ none
unfolding lookup str_eq
own-absent = refl

lookup-update_peer_states_example :
    lookup (codes "redis-1") (update_peer_states 100 younger answers own).peer_states ≡ (
      if str_eq (codes "redis-1") own.config.pod_name
      then some younger
      else refreshed (codes "redis-1") 100 answers own.peer_states)
lookup-update_peer_states_example =
    lookup-update_peer_states 100 younger answers own (codes "redis-1") answers-IsDict own-absent
      own-IsDict

update_peer_states-IsDict_example : IsDict (update_peer_states 100 younger answers own).peer_states
update_peer_states-IsDict_example = update_peer_states-IsDict 100 younger answers own own-IsDict
