-- ===== src/Tests/RaftRound.antt =====
-- A round of two pods in Raft mode, of which Raft names one.
use mathlib.Core.Bool.{false≢true}
use mathlib.Core.List.{Memᴰ}
use mathlib.Core.List.Memᴰ
use redis_orchestrator.Base.{true, List, [], ◌∷◌, ◌≡◌, ◌↔◌, refl}
use redis_orchestrator.Base.Text.{codes, str_eq, str_eq_iff}
use redis_orchestrator.Config.{election_mode_raft}
use redis_orchestrator.State.{PodState}
use redis_orchestrator.Effects.{Env}
use redis_orchestrator.Effects.Trace.{redis_role}
use redis_orchestrator.Election.Raft
use redis_orchestrator.Orchestrator.Reconcile.{states_of, healthy_states}
use redis_orchestrator.Orchestrator.Construction.Strategies.{raft_queries}
use redis_orchestrator.Orchestrator.Cluster.{Node, role_after}
use redis_orchestrator.Orchestrator.Cluster.RaftRound.{Ready, Leads, raft_one_master}
use redis_orchestrator.Base.Lists.{select}
use redis_orchestrator.Tests.Data.{older, younger, base_config, working, node_of}
use redis_orchestrator.Tests.Raft.{strategy}

abbrev following : Env
following = record working { raft_state = λ _. codes "Follower" }

-- Both are masters when the round starts.
abbrev node_in : Env → PodState → Node
node_in env own = record {
  env = env;
  orchestrator =
      node_of (record base_config { election_mode = election_mode_raft }) own younger older;
  strategy = raft_queries env strategy;
  local = own;
  start = true;
  history = [];
}

abbrev chief : Node
chief = node_in working younger

abbrev second : Node
second = node_in following older

abbrev pair : List Node
pair = chief ∷ second ∷ []

chief-Ready : Ready chief
unfolding str_eq redis_role healthy_states states_of select
chief-Ready = record {
  reliable = λ h args. refl;
  manages = record {
    standalone = refl;
    no_promote = refl;
    debug = refl;
    election_mode = refl;
    somebody = refl;
  };
  reported = refl;
}

second-Ready : Ready second
unfolding str_eq redis_role healthy_states states_of select
second-Ready = record {
  reliable = λ h args. refl;
  manages = record {
    standalone = refl;
    no_promote = refl;
    debug = refl;
    election_mode = refl;
    somebody = refl;
  };
  reported = refl;
}

all-Ready : (n : Node) → Memᴰ n pair → Ready n
all-Ready n (Memᴰ.head e) = rw e chief-Ready
all-Ready n (Memᴰ.tail m) = rw (Memᴰ.eq_of_singleton m) second-Ready

chief-Leads : Leads chief
unfolding raft_queries Raft.is_leader str_eq
chief-Leads = refl

second_follows : Leads second → chief.orchestrator.pod_uid ≡ second.orchestrator.pod_uid
unfolding raft_queries Raft.is_leader str_eq
second_follows l = cc

other_uid : chief.orchestrator.pod_uid ≡ second.orchestrator.pod_uid → Leads second
unfolding str_eq
other_uid e = absurd (false≢true ((str_eq_iff younger.pod_uid older.pod_uid).1 e))

all_agree :
    (n : Node) → Memᴰ n pair → Leads n ↔ (chief.orchestrator.pod_uid ≡ n.orchestrator.pod_uid)
all_agree n (Memᴰ.head e) = rw e (λ _. refl, λ _. chief-Leads)
all_agree n (Memᴰ.tail m) = rw (Memᴰ.eq_of_singleton m) (second_follows, other_uid)

raft_one_master_example :
    (role_after chief ≡ true)
    × ((n : Node)
        → Memᴰ n pair
        → (role_after n ≡ true) ↔ (chief.orchestrator.pod_uid ≡ n.orchestrator.pod_uid))
raft_one_master_example = raft_one_master pair chief (Memᴰ.head refl) all-Ready all_agree
