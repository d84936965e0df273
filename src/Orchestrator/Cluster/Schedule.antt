-- ===== src/Orchestrator/Cluster/Schedule.antt =====
-- The pods of a cluster that run `reconcile` one after the other, in any order and as often as it
-- happens, each from the states as they then are.
pub mod Standing
pub mod Settles
use mathlib.Core.List.{Memᴰ, map}
use redis_orchestrator.Base.{Bool, List, [], ◌∷◌, ◌≡◌, if◌then◌else◌}
use redis_orchestrator.Base.Text.{Bytes, str_eq}
use redis_orchestrator.State.{PodState}
use redis_orchestrator.Orchestrator.Reconcile.{healthy_states}
use redis_orchestrator.Orchestrator.Reconcile.Unstamped.{SameView}
use redis_orchestrator.Orchestrator.Cluster.{Node, Ready, role_after}

-- The state that a pod reports behind its `reconcile`.
abbrev pub with_role : Bytes → Bool → PodState → PodState
with_role uid master p = if str_eq p.pod_uid uid then record p { is_master = master } else p

abbrev pub set_role : Bytes → Bool → List PodState → List PodState
set_role uid master = map (with_role uid master)

-- One pod runs: it is ready, sees as healthy exactly the states of the cluster, whenever it saw
-- them, and its role in them becomes that of its Redis behind `reconcile`.
pub data Step : List PodState → Bytes → List PodState → Type 0 where
  reconciles :
      (ps : List PodState) (n : Node)
      → Ready n
      → SameView ps (healthy_states n.orchestrator)
      → Step ps n.orchestrator.pod_uid (set_role n.orchestrator.pod_uid (role_after n) ps)

-- A schedule, with the UIDs of the pods that ran, the last one first.
pub data Runs (ps : List PodState) : List Bytes → List PodState → Type 0 where
  here : Runs ps [] ps
  next :
      {uids : List Bytes} {uid : Bytes} {qs rs : List PodState}
      → Runs ps uids qs
      → Step qs uid rs
      → Runs ps (uid ∷ uids) rs

-- No two pods have the same UID.
abbrev pub UniqueUids : List PodState → Type 0
UniqueUids ps = (x y : PodState) → Memᴰ x ps → Memᴰ y ps → x.pod_uid ≡ y.pod_uid → x ≡ y
