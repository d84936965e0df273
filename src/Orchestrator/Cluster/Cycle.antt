-- ===== src/Orchestrator/Cluster/Cycle.antt =====
-- A cycle of the whole cluster: every pod runs `syncState` once, in a cluster whose pods all answer.
use mathlib.Core.List.{Memᴰ, map}
use mathlib.Core.List.Memᴰ
use mathlib.Core.Path.{◌≡◌, refl, sym, ap, ◌∙◌}
use redis_orchestrator.Base.{ℕ, Bool, true, false, List, [], ◌∷◌, none, some, ◌≢◌, ◌↔◌, ◌⊎◌, inl}
use redis_orchestrator.Base.Text.{Bytes, str_eq, str_eq_iff}
use redis_orchestrator.Base.Dict.{Dict, lookup}
use redis_orchestrator.Base.Dict.Laws.{IsDict}
use redis_orchestrator.Base.Lists.{mem-select, select-mem}
use redis_orchestrator.Config.{election_mode_raft}
use redis_orchestrator.State.{PodState}
use redis_orchestrator.Outcome.{ok}
use redis_orchestrator.Effects.{History}
use redis_orchestrator.Effects.Acts.{IsReliable}
use redis_orchestrator.Effects.Trace.{redis_role}
use redis_orchestrator.Election.Order.Agreement.{IsFirst, head-IsFirst, sort_pods-cons}
use redis_orchestrator.Orchestrator.{Orchestrator, Strategy}
use redis_orchestrator.Orchestrator.Peers.{Setting, is_stale, update_peer_states}
use redis_orchestrator.Orchestrator.Reconcile.{healthy, healthy_states, states_of}
use redis_orchestrator.Orchestrator.Reconcile.Masters.{
  contenders, contenders-ne-nil, mem-contenders,
}
use redis_orchestrator.Orchestrator.Sync.{gather, sync_state}
use redis_orchestrator.Orchestrator.Cluster.{Node, Ready, role_after-first}
use redis_orchestrator.Orchestrator.Sync.Gathered.{gather_lem}
use redis_orchestrator.Orchestrator.Reconcile.Unstamped.{unstamped, SameView}
use redis_orchestrator.Orchestrator.Cluster.View.{Holds, IsCurrent, mem-update_peer_states}
use redis_orchestrator.Orchestrator.Cluster.Schedule.{UniqueUids}

-- A pod with its surroundings, its strategy, the role that its Redis starts with, and what the pod
-- gathers.
pub record Cycle : Type 0 where
  pub setting : Setting
  pub orchestrator : Orchestrator
  pub strategy : Strategy setting.env
  pub start : Bool
  pub history : History
  pub local : PodState
  pub peers : Dict PodState
  pub time : ℕ
  pub gathered : History

-- Whether the pod's Redis is a master behind one call of `syncState`.
abbrev pub role_after_cycle : Cycle → Bool
role_after_cycle c =
    redis_role c.setting.env c.start
      (sync_state c.setting c.strategy c.orchestrator c.history).history

-- The pod manages its Redis outside Raft mode, without --no-promote and debug logging, reaches it,
-- and reports its role; its peers' answers and its own state are exactly these states, but for when
-- they were seen; its answers are at most sixty seconds old, and what it remembers of other pods is
-- older.
pub record Sees (c : Cycle) (all : List PodState) : Type 0 where
  pub gathers :
      gather c.setting c.strategy c.orchestrator c.history
      ≡ (ok (c.local, c.peers, c.time), c.gathered)
  pub reliable : IsReliable c.setting.env
  pub standalone : c.orchestrator.config.standalone ≡ false
  pub no_promote : c.orchestrator.config.no_promote ≡ false
  pub debug : c.orchestrator.config.debug ≡ false
  pub election_mode : str_eq c.orchestrator.config.election_mode election_mode_raft ≡ false
  pub reported : redis_role c.setting.env c.start c.gathered ≡ c.local.is_master
  pub remembered : IsDict c.orchestrator.peer_states
  pub fresh : (k : Bytes) (x : PodState) → lookup k c.peers ≡ some x → is_stale c.time x ≡ false
  pub forgotten :
      (k : Bytes) (x : PodState)
      → lookup k c.orchestrator.peer_states ≡ some x
      → k ≢ c.orchestrator.config.pod_name
      → lookup k c.peers ≡ none
      → is_stale c.time x ≡ true
  pub heard :
      (x : PodState)
      → Memᴰ x all
      → (y : PodState) × ((y ≡ c.local) ⊎ Holds c.peers y) × (unstamped y ≡ unstamped x)
  pub genuine :
      (y : PodState)
      → (y ≡ c.local) ⊎ Holds c.peers y
      → (x : PodState) × Memᴰ x all × (unstamped x ≡ unstamped y)

module _ (all : List PodState) (unique : UniqueUids all)
    (healthy_all : (x : PodState) → Memᴰ x all → x.is_healthy ≡ true) (c : Cycle)
    (sees : Sees c all) where
  own : c.local.pod_uid ≡ c.orchestrator.pod_uid
  own =
      (gather_lem c.setting c.strategy c.orchestrator c.history c.gathered c.local c.peers c.time
        sees.gathers).0

  current : IsCurrent c.time c.local c.peers c.orchestrator
  current =
      let (answers, others) =
        (gather_lem c.setting c.strategy c.orchestrator c.history c.gathered c.local c.peers c.time
          sees.gathers).1 in
      record {
        answers = answers;
        others = others;
        remembered = sees.remembered;
        fresh = sees.fresh;
        forgotten = sees.forgotten;
      }

  next : Orchestrator
  next = update_peer_states c.time c.local c.peers c.orchestrator

  -- Every state that the pod sees is that of a pod of the cluster, which is healthy.
  known :
      (y : PodState)
      → Memᴰ y (states_of next.peer_states)
      → (x : PodState) × Memᴰ x all × (unstamped x ≡ unstamped y)
  unfolding next
  known y q =
      sees.genuine y ((mem-update_peer_states c.time c.local c.peers c.orchestrator current y).0 q)

  sees_healthy : (y : PodState) → (y ≡ c.local) ⊎ Holds c.peers y → Memᴰ y (healthy_states next)
  unfolding next healthy_states
  sees_healthy y h =
      let (x, q, e) = sees.genuine y h in
      select-mem healthy (states_of next.peer_states)
        ((mem-update_peer_states c.time c.local c.peers c.orchestrator current y).1 h)
        (ap (λ (p : PodState). p.is_healthy) (sym e) ∙ healthy_all x q)

  view : SameView all (healthy_states next)
  unfolding healthy_states
  view z = (
    λ q.
        let (x, k, e) = Memᴰ.of_map unstamped all q in
        let (y, h, f) = sees.heard x k in rw (f ∙ e) at (Memᴰ.map unstamped (sees_healthy y h)),
    λ q.
        let (y, k, e) = Memᴰ.of_map unstamped (healthy_states next) q in
        let (seen, _) = mem-select healthy (states_of next.peer_states) k in
        let (x, j, f) = known y seen in rw (f ∙ e) at (Memᴰ.map unstamped j),
  )

  -- The pod where it calls `reconcile`.
  node : Node
  node = record {
    env = c.setting.env;
    orchestrator = next;
    strategy = c.strategy;
    local = c.local;
    start = c.start;
    history = c.gathered;
  }

  node-Ready : Ready node
  unfolding node next update_peer_states healthy_states
  node-Ready = record {
    reliable = sees.reliable;
    manages = record {
      standalone = sees.standalone;
      no_promote = sees.no_promote;
      debug = sees.debug;
      election_mode = sees.election_mode;
      own = own;
      seen = sees_healthy c.local (inl refl);
      unique = alone;
    };
    reported = sees.reported;
  }
    where
      alone :
          (x : PodState)
          → Memᴰ x (healthy_states next)
          → x.pod_uid ≡ c.orchestrator.pod_uid
          → unstamped x ≡ unstamped c.local
      alone x q u =
          let (seen, _) = mem-select healthy (states_of next.peer_states) q in
          let (y, k, e) = known x seen in
          let (z, j, f) = sees.genuine c.local (inl refl) in
          let same = unique y z k j (
            ap (λ (p : PodState). p.pod_uid) e
            ∙ u
            ∙ sym own
            ∙ ap (λ (p : PodState). p.pod_uid) (sym f)) in
          sym e ∙ ap unstamped same ∙ f

  pub role_after_cycle-first :
      {m : PodState}
      → IsFirst m (contenders all)
      → role_after_cycle c ≡ str_eq m.pod_uid c.local.pod_uid
  unfolding sync_state node next update_peer_states
  role_after_cycle-first {m} first =
      rw sees.gathers
        (role_after-first all first node node-Ready view ∙ ap (λ u. str_eq m.pod_uid u) (sym own))

-- The states of the pods, as they gather them.
abbrev pub states : List Cycle → List PodState
states = map (λ c. c.local)

-- Whatever the roles were, one cycle of a cluster leaves exactly one master, in which every pod runs
-- `syncState` once, in any order in which each gathers the roles as they were before the cycle: let
-- the pods have different UIDs and be healthy; let each pod manage its Redis outside Raft mode,
-- without --standalone, --no-promote and debug logging, reach it, so that its commands succeed, and
-- report its role; and let each gather its own state and exactly those of the others, which may differ from what those gather of
-- themselves in when they were seen, at most sixty seconds ago, and remember no others that young.
-- Then a pod's Redis is a master exactly if the pod has the UID of the first among the masters, or
-- among all pods if there was no master, and there is such a pod.
pub cycle_one_master :
    (cs : List Cycle)
    → cs ≢ []
    → UniqueUids (states cs)
    → ((x : PodState) → Memᴰ x (states cs) → x.is_healthy ≡ true)
    → ((c : Cycle) → Memᴰ c cs → Sees c (states cs))
    → (m : PodState) × IsFirst m (contenders (states cs))
      × ((c : Cycle) → Memᴰ c cs → (role_after_cycle c ≡ true) ↔ (m.pod_uid ≡ c.local.pod_uid))
      × ((c : Cycle) × Memᴰ c cs × (role_after_cycle c ≡ true))
cycle_one_master cs some_pod unique healthy_all sees =
    let (m, rest, s) =
      sort_pods-cons (contenders (states cs)) (contenders-ne-nil (states-ne-nil cs some_pod)) in
    let first = head-IsFirst _ s in
    let role : (c : Cycle) → Memᴰ c cs → role_after_cycle c ≡ str_eq m.pod_uid c.local.pod_uid =
      λ c q. role_after_cycle-first (states cs) unique healthy_all c (sees c q) first in
    let (c, q, e) =
      Memᴰ.of_map (λ (c : Cycle). c.local) cs (mem-contenders (states cs) first.candidate) in
    (
      m,
      first,
      λ d j. rw (role d j) (str_eq_iff m.pod_uid d.local.pod_uid),
      (c, q, role c q ∙ (str_eq_iff _ _).1 (ap (λ (p : PodState). p.pod_uid) (sym e))),
    )
  where
    states-ne-nil : (cs : List Cycle) → cs ≢ [] → states cs ≢ []
    states-ne-nil [] h = absurd (h refl)
    states-ne-nil (c ∷ cs) h = λ e. cc
