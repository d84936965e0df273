-- ===== src/Tests/Reconcile.antt =====
-- Rounds of `reconcile` at two pods.
use mathlib.Core.Bool.{false≢true}
use mathlib.Core.List.{Memᴰ}
use mathlib.Core.List.Memᴰ
use redis_orchestrator.Base.{
  true, false, [], ◌∷◌, ◌≡◌, ◌≢◌, ◌⊎◌, inl, inr, refl, sym, ap, ◌∙◌, arith, ◌<◌,
}
use redis_orchestrator.Base.Text.{str_eq, str_eq_iff}
use redis_orchestrator.Base.Lists.{select}
use redis_orchestrator.Config.{election_mode_raft}
use redis_orchestrator.State.{PodState}
use redis_orchestrator.Effects.Trace.{redis_role, promotions}
use redis_orchestrator.Base.Decimal.{itoa}
use redis_orchestrator.Base.Text.{str_ltb}
use redis_orchestrator.Effects.Trace.{is_promotion}
use redis_orchestrator.Redis.Client
use redis_orchestrator.Election.Order.{sort_pods, sort_slice, pod_less}
use redis_orchestrator.Election.Order.Agreement.{IsFirst, head-IsFirst}
use redis_orchestrator.Orchestrator.Labels.{ensure_master_label, remove_master_label}
use redis_orchestrator.Orchestrator.Replication.{
  master_service, promote_to_master, demote_to_replica,
}
use redis_orchestrator.Orchestrator.{Orchestrator}
use redis_orchestrator.Orchestrator.Reconcile.{
  states_of, healthy_states, log_reason, act_on_election, elect_and_act, handle_no_master,
  handle_single_master, keep_or_demote, handle_split_brain, handle_masters, reconcile,
}
use redis_orchestrator.Orchestrator.Reconcile.Role.{reconcile-redis_role}
use redis_orchestrator.Orchestrator.Reconcile.Unstamped.{unstamped}
use redis_orchestrator.Orchestrator.Reconcile.Masters.{contenders}
use redis_orchestrator.Orchestrator.Reconcile.Safety.{
  Entitled, reconcile-Entitled, no_promote_blocks,
}
use redis_orchestrator.Orchestrator.Cluster.{Node, role_after, Ready}
use redis_orchestrator.Tests.Data.{older, younger, base_config, working, follower, node_of}

abbrev pub node : PodState → Node
node own = record {
  env = working;
  orchestrator = node_of base_config own younger older;
  strategy = follower;
  local = own;
  start = true;
  history = [];
}

pub view :
    (own : PodState) → healthy_states (node_of base_config own younger older) ≡ younger ∷ older ∷ []
unfolding healthy_states states_of select
view own = refl

among :
    (own x : PodState)
    → Memᴰ x (healthy_states (node_of base_config own younger older))
    → (x ≡ younger) ⊎ (x ≡ older)
among own x m = elim (Memᴰ.cases_cons (rw view at m)) [
  | inl e ↦ inl e
  | inr t ↦ inr (Memᴰ.eq_of_singleton t)
]

uids_differ : younger.pod_uid ≡ older.pod_uid → ⊥
unfolding str_eq
uids_differ e = false≢true ((str_eq_iff younger.pod_uid older.pod_uid).1 e)

younger_only :
    (x : PodState)
    → Memᴰ x (healthy_states (node_of base_config younger younger older))
    → x.pod_uid ≡ younger.pod_uid
    → x ≡ younger
younger_only x m e = elim (among younger x m) [
  | inl y ↦ y
  | inr o ↦ absurd (uids_differ (sym e ∙ ap (λ (p : PodState). p.pod_uid) o))
]

older_only :
    (x : PodState)
    → Memᴰ x (healthy_states (node_of base_config older younger older))
    → x.pod_uid ≡ older.pod_uid
    → x ≡ older
older_only x m e = elim (among older x m) [
  | inl y ↦ absurd (uids_differ (sym (ap (λ (p : PodState). p.pod_uid) y) ∙ e))
  | inr o ↦ o
]

pub younger-Ready : Ready (node younger)
unfolding str_eq redis_role
younger-Ready = record {
  reliable = λ h args. refl;
  manages = record {
    standalone = refl;
    no_promote = refl;
    debug = refl;
    election_mode = refl;
    own = refl;
    seen = rw view (Memᴰ.head refl);
    unique = λ x q u. ap unstamped (younger_only x q u);
  };
  reported = refl;
}

pub older-Ready : Ready (node older)
unfolding str_eq redis_role
older-Ready = record {
  reliable = λ h args. refl;
  manages = record {
    standalone = refl;
    no_promote = refl;
    debug = refl;
    election_mode = refl;
    own = refl;
    seen = rw view (Memᴰ.tail (Memᴰ.head refl));
    unique = λ x q u. ap unstamped (older_only x q u);
  };
  reported = refl;
}

-- Both are masters, and the older pod keeps the role.
pub split_brain : (role_after (node older) ≡ true) × (role_after (node younger) ≡ false)
unfolding reconcile healthy_states states_of select handle_masters handle_single_master
    handle_split_brain keep_or_demote log_reason sort_slice pod_less str_eq demote_to_replica
    remove_master_label master_service Client.set_replica_of itoa redis_role is_promotion
split_brain = (refl, refl)

-- One pod, which is no master yet.
abbrev lone : PodState
lone = record younger { is_master = false }

abbrev lone_orchestrator : Orchestrator
lone_orchestrator = node_of base_config lone lone lone

abbrev standby : Orchestrator
standby = node_of (record base_config { no_promote = true }) lone lone lone

lone_promotes : promotions [] < promotions (reconcile working lone_orchestrator follower lone []).1
unfolding reconcile healthy_states states_of select handle_masters handle_no_master elect_and_act
    act_on_election log_reason sort_slice pod_less str_eq promote_to_master Client.promote_to_master
    ensure_master_label promotions is_promotion str_ltb
lone_promotes = omega arith

reconcile-Entitled_example : Entitled lone_orchestrator (follower {env = working}) [] lone
reconcile-Entitled_example =
    reconcile-Entitled working lone_orchestrator follower lone [] lone_promotes

deterministic : standby.config.election_mode ≢ election_mode_raft
unfolding str_eq
deterministic e = false≢true ((str_eq_iff standby.config.election_mode election_mode_raft).1 e)

lone-IsFirst : IsFirst lone (healthy_states standby)
unfolding healthy_states states_of select
lone-IsFirst = head-IsFirst (lone ∷ lone ∷ []) lone_sorted
  where
    lone_sorted : sort_pods (lone ∷ lone ∷ []) ≡ lone ∷ lone ∷ []
    lone_sorted = unfold sort_slice pod_less str_eq str_ltb in refl

no_promote_blocks_example :
    promotions (reconcile working standby follower lone []).1 ≡ promotions []
no_promote_blocks_example =
    no_promote_blocks working standby follower lone [] deterministic lone-IsFirst (λ _. refl)

older-IsFirst :
    IsFirst older (contenders (healthy_states (node_of base_config younger younger older)))
unfolding healthy_states states_of select
older-IsFirst = head-IsFirst (younger ∷ older ∷ []) both_sorted
  where
    both_sorted : sort_pods (younger ∷ older ∷ []) ≡ older ∷ younger ∷ []
    both_sorted = unfold sort_slice pod_less str_eq str_ltb in refl

reconcile-redis_role_example :
    redis_role working true
      (reconcile working (node_of base_config younger younger older) follower younger []).1
    ≡ str_eq older.pod_uid younger.pod_uid
reconcile-redis_role_example =
    reconcile-redis_role working younger-Ready.reliable (node_of base_config younger younger older)
      younger younger-Ready.manages true [] younger-Ready.reported older-IsFirst follower
