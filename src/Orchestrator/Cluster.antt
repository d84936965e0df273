-- ===== src/Orchestrator/Cluster.antt =====
-- The pods of a cluster, each with its own surroundings, where they run `reconcile`.
pub mod RaftRound
pub mod Schedule
pub mod View
pub mod Cycle
use mathlib.Core.List.{Memᴰ, map}
use mathlib.Core.List.Memᴰ
use redis_orchestrator.Base.{Bool, true, List, [], ◌∷◌, ◌≡◌, ◌≢◌, ◌↔◌, refl, sym, ap, ◌∙◌}
use redis_orchestrator.Base.Lists.{SameMembers}
use redis_orchestrator.Base.Text.{Bytes, str_eq, str_eq_iff}
use redis_orchestrator.State.{PodState}
use redis_orchestrator.Effects.{Env, History}
use redis_orchestrator.Effects.Acts.{IsReliable}
use redis_orchestrator.Effects.Trace.{redis_role}
use redis_orchestrator.Election.Order.Agreement.{IsFirst, head-IsFirst, sort_pods-cons}
use redis_orchestrator.Orchestrator.{Orchestrator, Strategy}
use redis_orchestrator.Orchestrator.Reconcile.{healthy_states, reconcile}
use redis_orchestrator.Orchestrator.Reconcile.Masters.{
  contenders, contenders-SameMembers, contenders-ne-nil, mem-contenders,
}
use redis_orchestrator.Orchestrator.Reconcile.Unstamped.{SameView, IsFirst-SameView}
use redis_orchestrator.Orchestrator.Reconcile.Role.{Manages, reconcile-redis_role}

-- A pod of the cluster, with its surroundings, and the role and history of its Redis.
pub record Node : Type 0 where
  pub env : Env
  pub orchestrator : Orchestrator
  pub strategy : Strategy env
  pub local : PodState
  pub start : Bool
  pub history : History

-- Whether the node's Redis is a master behind one call of `reconcile`.
abbrev pub role_after : Node → Bool
role_after n =
    redis_role n.env n.start (reconcile n.env n.orchestrator n.strategy n.local n.history).1

-- The node reaches its Redis, whose role is the one that it reports, and manages it.
pub record Ready (n : Node) : Type 0 where
  pub reliable : IsReliable n.env
  pub manages : Manages n.orchestrator n.local
  pub reported : redis_role n.env n.start n.history ≡ n.local.is_master

-- The role of a node that sees as healthy exactly these states, but for when they were seen.
pub role_after-first :
    (states : List PodState) {m : PodState}
    → IsFirst m (contenders states)
    → (n : Node) → Ready n
    → SameView states (healthy_states n.orchestrator)
    → role_after n ≡ str_eq m.pod_uid n.orchestrator.pod_uid
role_after-first states {m} first n ready same =
    let (seen, leads, e) = IsFirst-SameView states (healthy_states n.orchestrator) same first in
    reconcile-redis_role n.env ready.reliable n.orchestrator n.local ready.manages n.start n.history
      ready.reported leads n.strategy
    ∙ ap (λ u. str_eq u n.orchestrator.pod_uid) e
