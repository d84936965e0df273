-- ===== src/Tests/Schedule.antt =====
-- Two masters, of which the older pod runs first.
use mathlib.Core.Bool.{false≢true}
use mathlib.Core.List.{Memᴰ}
use mathlib.Core.List.Memᴰ
use redis_orchestrator.Base.{true, List, [], ◌∷◌, ◌≡◌, ◌≢◌, ◌↔◌, refl}
use redis_orchestrator.Base.Text.{str_eq, str_eq_iff}
use redis_orchestrator.State.{PodState}
use redis_orchestrator.Election.Order.Agreement.{IsFirst}
use redis_orchestrator.Orchestrator.Reconcile.{healthy_states}
use redis_orchestrator.Orchestrator.Reconcile.Unstamped.{SameView}
use redis_orchestrator.Orchestrator.Reconcile.Masters.{contenders}
use redis_orchestrator.Orchestrator.Cluster.{role_after}
use redis_orchestrator.Orchestrator.Cluster.Schedule.{
  set_role, Step, reconciles, Runs, here, next, UniqueUids,
}
use redis_orchestrator.Orchestrator.Cluster.Schedule.Settles.{Runs-one_master}
use redis_orchestrator.Tests.Data.{older, younger, base_config, node_of}
use redis_orchestrator.Tests.Reconcile.{node, view, younger-Ready, older-Ready, split_brain}

-- As they were seen, which is not when the pods saw them.
abbrev masters : List PodState
masters = record younger { last_seen = 97 } ∷ record older { last_seen = 103 } ∷ []

seen : (own : PodState) → SameView masters (healthy_states (node_of base_config own younger older))
seen own = rw view (λ x. (λ m. m, λ m. m))

keeps : set_role older.pod_uid true masters ≡ masters
unfolding str_eq
keeps = refl

older_runs : Step masters older.pod_uid masters
older_runs =
    rw keeps at (rw (split_brain.0) at (reconciles masters (node older) older-Ready (seen older)))

abbrev ended : List PodState
ended = set_role younger.pod_uid (role_after (node younger)) masters

schedule : Runs masters (younger.pod_uid ∷ older.pod_uid ∷ []) ended
schedule =
    next (next here older_runs) (reconciles masters (node younger) younger-Ready (seen younger))

all_run : (p : PodState) → Memᴰ p masters → Memᴰ p.pod_uid (younger.pod_uid ∷ older.pod_uid ∷ [])
all_run p m = Memᴰ.map (λ (q : PodState). q.pod_uid) m

uids_differ : younger.pod_uid ≢ older.pod_uid
unfolding str_eq
uids_differ e = false≢true ((str_eq_iff younger.pod_uid older.pod_uid).1 e)

masters-UniqueUids : UniqueUids masters
masters-UniqueUids x y (Memᴰ.head a) (Memᴰ.head b) e = cc
masters-UniqueUids x y (Memᴰ.head a) (Memᴰ.tail q) e =
    let b = Memᴰ.eq_of_singleton q in absurd (uids_differ (cc))
masters-UniqueUids x y (Memᴰ.tail p) (Memᴰ.head b) e =
    let a = Memᴰ.eq_of_singleton p in absurd (uids_differ (cc))
masters-UniqueUids x y (Memᴰ.tail p) (Memᴰ.tail q) e =
    let a = Memᴰ.eq_of_singleton p in let b = Memᴰ.eq_of_singleton q in cc

masters-ne-nil : masters ≢ []
masters-ne-nil e = cc

Runs-one_master_example :
    (m : PodState) × IsFirst m (contenders masters)
    × ((x : PodState) → Memᴰ x ended → (x.is_master ≡ true) ↔ (m.pod_uid ≡ x.pod_uid))
    × ((x : PodState) × Memᴰ x ended × (x.is_master ≡ true))
Runs-one_master_example =
    Runs-one_master masters ended (younger.pod_uid ∷ older.pod_uid ∷ []) masters-ne-nil
      masters-UniqueUids schedule all_run
