-- ===== src/Tests/Raft.antt =====
-- A cluster of one leader that a second node asks to join.
use redis_orchestrator.Base.{if◌then◌else◌, [], ◌∷◌, none, some, ◌≡◌, ◌≢◌, refl, true, false, arith}
use redis_orchestrator.Base.Text.{codes}
use redis_orchestrator.Outcome.{panic}
use redis_orchestrator.Effects.{voter}
use redis_orchestrator.Election.Raft.{RaftStrategy, elect_leader}
use redis_orchestrator.Election.Raft.Handlers.{AddVoterRequest, Codec, is_member, handle_add}
use redis_orchestrator.Election.Raft.Membership.{additions, handle_add-panic}
use redis_orchestrator.Election.Raft.Leader.{Leads, elect_leader-Leads}
use redis_orchestrator.Tests.Data.{working, older, younger}
use redis_orchestrator.Tests.Auth.{keeper, asking}

abbrev pub strategy : RaftStrategy
strategy = record {
  local_pod_name = codes "redis-0";
  local_pod_uid = codes "uid-0000-a";
  local_pod_ip = codes "10.0.0.1";
  bind_addr = codes "0.0.0.0:7000";
  peers = [];
  data_dir = codes "/var/lib/raft";
  debug = false;
  bootstrap = true;
  standalone = false;
  authenticator = keeper;
  started = true;
  current_leader = none;
  all_states = [];
}

abbrev short_request : AddVoterRequest
short_request = record { id = codes "b"; address = codes "10.0.0.2:7000" }

abbrev pub codec : Codec
codec = record {
  decode_request = λ body. some short_request;
  encode_status = λ status. status;
  encode_info = λ info. info.state;
  decode_info = λ body. none;
  encode_servers = λ servers. [];
}

short_id : short_request.id ≢ []
short_id e = cc

short_address : short_request.address ≢ []
short_address e = cc

no_member : is_member short_request.id [] ≡ false
unfolding is_member
no_member = refl

handle_add-panic_example :
    ((handle_add working codec strategy voter asking []).0 ≡ panic)
    × (additions (handle_add working codec strategy voter asking []).1 ≡ (
        if strategy.debug
        then additions []
        else (voter, short_request.id, short_request.address) ∷ additions []))
handle_add-panic_example =
    handle_add-panic working codec strategy voter asking [] short_request [] refl refl refl short_id
      short_address (omega arith) refl no_member

elect_leader-Leads_example :
    Leads working strategy
      (younger ∷ older ∷ [])
      younger
      []
      (elect_leader working strategy (younger ∷ older ∷ []) younger []).0
elect_leader-Leads_example =
    elect_leader-Leads working strategy (younger ∷ older ∷ []) younger [] refl
