-- ===== src/Tests/Cycle.antt =====
-- A cycle of two replicas, of which the older pod becomes the master.
use mathlib.Core.Bool.{false≢true}
use mathlib.Core.List.{Memᴰ}
use mathlib.Core.List.Memᴰ
use redis_orchestrator.Base.{
  ℕ, true, false, List, [], ◌∷◌, some, none, ◌≡◌, ◌≢◌, ◌↔◌, inl, inr, refl, sym, ap, Bool-cases,
}
use redis_orchestrator.Base.Text.{Bytes, codes, str_eq, str_eq_iff}
use redis_orchestrator.Base.Dict.{lookup, insert}
use redis_orchestrator.State.{PodState}
use redis_orchestrator.Outcome.{ok}
use redis_orchestrator.Effects.{Env}
use redis_orchestrator.Effects.Trace.{redis_role}
use redis_orchestrator.Auth.{new_authenticator}
use redis_orchestrator.Redis.Client
use redis_orchestrator.Redis.Info
use redis_orchestrator.Election.Order.Agreement.{IsFirst}
use redis_orchestrator.Orchestrator.{Orchestrator}
use redis_orchestrator.Orchestrator.Peers
use redis_orchestrator.Orchestrator.Peers.{Setting}
use redis_orchestrator.Orchestrator.Reconcile.Unstamped.{unstamped}
use redis_orchestrator.Orchestrator.Reconcile.Masters.{contenders}
use redis_orchestrator.Orchestrator.Sync.{gather}
use redis_orchestrator.Orchestrator.Cluster.Schedule.{UniqueUids}
use redis_orchestrator.Orchestrator.Cluster.View.{Holds}
use redis_orchestrator.Orchestrator.Cluster.Cycle.{
  Cycle, Sees, role_after_cycle, states, cycle_one_master,
}
use redis_orchestrator.Tests.Data.{pod_state, base_config, a_pod, working, follower, node_of}

abbrev first : PodState
first = pod_state (codes "redis-0") (codes "uid-0000-a") 5 false

abbrev second : PodState
second = record (pod_state (codes "redis-1") (codes "uid-0001-b") 3 false) { last_seen = 104 }

-- Each pod has a clock of its own.
abbrev up_at : ℕ → Env
up_at time = record working {
  read_clock = λ _. time;
  pod_list = λ _ _ _. some (a_pod ∷ record a_pod { pod_name = codes "redis-1" } ∷ []);
  http_do = λ _ _. some (record { status_code = 200; body = [] });
}

-- What the other pod answers, some time before or after.
abbrev answer : PodState → PodState
answer other = record other { last_seen = 99 }

abbrev setting_with : PodState → PodState → Setting
setting_with own other = record {
  env = up_at own.last_seen;
  hmac = λ secret text. text;
  authenticator = new_authenticator [];
  decode_state = λ body. some (answer other);
}

abbrev newcomer : PodState → Orchestrator
newcomer own = record (node_of base_config own own own) { peer_states = [] }

abbrev cycle_of : PodState → PodState → Cycle
cycle_of own other = record {
  setting = setting_with own other;
  orchestrator = newcomer own;
  strategy = follower;
  start = false;
  history = [];
  local = own;
  peers = (other.pod_name, answer other) ∷ [];
  time = own.last_seen;
  gathered = (gather (setting_with own other) follower (newcomer own) []).1;
}

gathers_first : gather (setting_with first second) follower (newcomer first) [] ≡ (
  ok (first, (second.pod_name, answer second) ∷ [], 100),
  (gather (setting_with first second) follower (newcomer first) []).1,
)
unfolding gather Peers.get_local_state Peers.discover_and_query_peers Peers.query_pods Peers.visit
    Peers.is_queried Peers.query_peer Peers.sign str_eq insert Client.get_replication_info
    Client.is_healthy Info.parse_replication_info Info.read_lines Info.split_lines Info.read_line
    Info.split_colon Info.set_field Info.trim_space
gathers_first = refl

gathers_second : gather (setting_with second first) follower (newcomer second) [] ≡ (
  ok (second, (first.pod_name, answer first) ∷ [], 104),
  (gather (setting_with second first) follower (newcomer second) []).1,
)
unfolding gather Peers.get_local_state Peers.discover_and_query_peers Peers.query_pods Peers.visit
    Peers.is_queried Peers.query_peer Peers.sign str_eq insert Client.get_replication_info
    Client.is_healthy Info.parse_replication_info Info.read_lines Info.split_lines Info.read_line
    Info.split_colon Info.set_field Info.trim_space
gathers_second = refl

reported_first : redis_role (up_at 100) false (cycle_of first second).gathered ≡ false
unfolding gather Peers.get_local_state Peers.discover_and_query_peers Peers.query_pods Peers.visit
    Peers.is_queried Peers.query_peer Peers.sign str_eq insert Client.get_replication_info
    Client.is_healthy Info.parse_replication_info Info.read_lines Info.split_lines Info.read_line
    Info.split_colon Info.set_field Info.trim_space redis_role
reported_first = refl

reported_second : redis_role (up_at 104) false (cycle_of second first).gathered ≡ false
unfolding gather Peers.get_local_state Peers.discover_and_query_peers Peers.query_pods Peers.visit
    Peers.is_queried Peers.query_peer Peers.sign str_eq insert Client.get_replication_info
    Client.is_healthy Info.parse_replication_info Info.read_lines Info.split_lines Info.read_line
    Info.split_colon Info.set_field Info.trim_space redis_role
reported_second = refl

abbrev pair : List PodState
pair = first ∷ second ∷ []

-- The only answer.
only :
    (other x : PodState) (k : Bytes) → lookup k ((other.pod_name, other) ∷ []) ≡ some x → x ≡ other
unfolding lookup
only other x k e = elim (Bool-cases (str_eq other.pod_name k)) [
  | inl own ↦ sym (injective (rw own at e))
  | inr no_own ↦ absurd (nothing (rw no_own at e))
]
  where
    injective : {a b : PodState} → some a ≡ some b → a ≡ b
    injective e = cc

    nothing : {b : PodState} → none ≡ some b → ⊥
    nothing e = cc

answers : (other : PodState) → Holds ((other.pod_name, other) ∷ []) other
answers other =
    (other.pod_name, unfold lookup in rw ((str_eq_iff other.pod_name other.pod_name).1 refl) refl)

first-Sees : Sees (cycle_of first second) pair
unfolding lookup str_eq
first-Sees = record {
  gathers = gathers_first;
  reliable = λ h args. refl;
  standalone = refl;
  no_promote = refl;
  debug = refl;
  election_mode = refl;
  reported = reported_first;
  remembered = tt;
  fresh = λ k x e. rw (only (answer second) x k e) refl;
  forgotten = λ k x e n f. absurd (cc);
  heard = λ x q. elim (Memᴰ.cases_cons q) [
    | inl e ↦ (first, inl refl, ap unstamped (sym e))
    | inr t ↦
        (answer second, inr (answers (answer second)), ap unstamped (sym (Memᴰ.eq_of_singleton t)))
  ];
  genuine = λ y h. elim h [
    | inl e ↦ (first, Memᴰ.head refl, ap unstamped (sym e))
    | inr p ↦
        (second, Memᴰ.tail (Memᴰ.head refl), ap unstamped (sym (only (answer second) y p.0 p.1)))
  ];
}

second-Sees : Sees (cycle_of second first) pair
unfolding lookup str_eq
second-Sees = record {
  gathers = gathers_second;
  reliable = λ h args. refl;
  standalone = refl;
  no_promote = refl;
  debug = refl;
  election_mode = refl;
  reported = reported_second;
  remembered = tt;
  fresh = λ k x e. rw (only (answer first) x k e) refl;
  forgotten = λ k x e n f. absurd (cc);
  heard = λ x q. elim (Memᴰ.cases_cons q) [
    | inl e ↦ (answer first, inr (answers (answer first)), ap unstamped (sym e))
    | inr t ↦ (second, inl refl, ap unstamped (sym (Memᴰ.eq_of_singleton t)))
  ];
  genuine = λ y h. elim h [
    | inl e ↦ (second, Memᴰ.tail (Memᴰ.head refl), ap unstamped (sym e))
    | inr p ↦ (first, Memᴰ.head refl, ap unstamped (sym (only (answer first) y p.0 p.1)))
  ];
}

abbrev cycles : List Cycle
cycles = cycle_of first second ∷ cycle_of second first ∷ []

cycles-ne-nil : cycles ≢ []
cycles-ne-nil e = cc

uids_differ : first.pod_uid ≢ second.pod_uid
unfolding str_eq
uids_differ e = false≢true ((str_eq_iff first.pod_uid second.pod_uid).1 e)

pair-UniqueUids : UniqueUids (states cycles)
pair-UniqueUids x y (Memᴰ.head a) (Memᴰ.head b) e = cc
pair-UniqueUids x y (Memᴰ.head a) (Memᴰ.tail q) e =
    let b = Memᴰ.eq_of_singleton q in absurd (uids_differ (cc))
pair-UniqueUids x y (Memᴰ.tail p) (Memᴰ.head b) e =
    let a = Memᴰ.eq_of_singleton p in absurd (uids_differ (cc))
pair-UniqueUids x y (Memᴰ.tail p) (Memᴰ.tail q) e =
    let a = Memᴰ.eq_of_singleton p in let b = Memᴰ.eq_of_singleton q in cc

all_healthy : (x : PodState) → Memᴰ x (states cycles) → x.is_healthy ≡ true
all_healthy x (Memᴰ.head e) = rw e refl
all_healthy x (Memᴰ.tail t) = rw (Memᴰ.eq_of_singleton t) refl

all_see : (c : Cycle) → Memᴰ c cycles → Sees c (states cycles)
all_see c (Memᴰ.head e) = rw e first-Sees
all_see c (Memᴰ.tail t) = rw (Memᴰ.eq_of_singleton t) second-Sees

cycle_one_master_example :
    (m : PodState) × IsFirst m (contenders (states cycles))
    × ((c : Cycle) → Memᴰ c cycles → (role_after_cycle c ≡ true) ↔ (m.pod_uid ≡ c.local.pod_uid))
    × ((c : Cycle) × Memᴰ c cycles × (role_after_cycle c ≡ true))
cycle_one_master_example = cycle_one_master cycles cycles-ne-nil pair-UniqueUids all_healthy all_see
