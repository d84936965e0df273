-- ===== src/Orchestrator/Cluster/Schedule/Settles.antt =====
-- Schedules in which every pod runs.
use mathlib.Core.List.{Memᴰ}
use mathlib.Core.List.Memᴰ
use redis_orchestrator.Base.{Bool, true, List, [], ◌∷◌, ◌≡◌, ◌≢◌, ◌↔◌, refl, sym, ap, ◌∙◌}
use redis_orchestrator.Base.Text.{Bytes, str_eq, str_eq_iff}
use redis_orchestrator.State.{PodState}
use redis_orchestrator.Election.Order.Agreement.{IsFirst, head-IsFirst, sort_pods-cons}
use redis_orchestrator.Orchestrator.Reconcile.Masters.{
  contenders, contenders-ne-nil, mem-contenders,
}
use redis_orchestrator.Orchestrator.Cluster.{role_after-first}
use redis_orchestrator.Orchestrator.Cluster.Schedule.{
  with_role, set_role, Step, reconciles, Runs, here, next, UniqueUids,
}
use redis_orchestrator.Orchestrator.Cluster.Schedule.Standing.{
  with_role-uid, Standing, IsFirst-Standing, Standing-IsFirst, set_role-UniqueUids,
  set_role-Standing, set_role-settled,
}

-- What the steps keep: the pods, the one that comes first, and the roles of those that have run.
record Kept (ps : List PodState) (uid : Bytes) (uids : List Bytes) (qs : List PodState)
    : Type 0 where
  pub unique : UniqueUids qs
  pub standing : Standing uid qs
  pub settled :
      (x : PodState) → Memᴰ x qs → Memᴰ x.pod_uid uids → x.is_master ≡ str_eq uid x.pod_uid
  pub from : (x : PodState) → Memᴰ x qs → (p : PodState) × Memᴰ p ps × (x.pod_uid ≡ p.pod_uid)
  pub onto : (p : PodState) → Memᴰ p ps → (x : PodState) × Memᴰ x qs × (x.pod_uid ≡ p.pod_uid)

Kept-here :
    {ps : List PodState} {m : PodState}
    → UniqueUids ps
    → IsFirst m (contenders ps)
    → Kept ps m.pod_uid [] ps
Kept-here {ps} u first = record {
  unique = u;
  standing = IsFirst-Standing ps first;
  settled = λ x q r. absurd (Memᴰ.not-nil r);
  from = λ x q. (x, q, refl);
  onto = λ p q. (p, q, refl);
}

Kept-role :
    {ps qs : List PodState} {uid w : Bytes} {uids : List Bytes} (role : Bool)
    → role ≡ str_eq uid w
    → Kept ps uid uids qs
    → Kept ps uid (w ∷ uids) (set_role w role qs)
Kept-role {ps} {qs} {uid} {w} {uids} role e k = rw e (record {
  unique = set_role-UniqueUids uid w qs k.unique;
  standing = set_role-Standing uid w qs k.unique k.standing;
  settled = set_role-settled uid w qs k.unique uids k.settled;
  from = λ x q.
      let (y, j, f) = Memᴰ.of_map (with_role w (str_eq uid w)) qs q in
      let (p, i, g) = k.from y j in
      (p, i, ap (λ (z : PodState). z.pod_uid) (sym f) ∙ with_role-uid w _ y ∙ g);
  onto = λ p q.
      let (y, j, g) = k.onto p q in
      (with_role w (str_eq uid w) y, Memᴰ.map _ j, with_role-uid w _ y ∙ g);
})

Kept-step :
    {ps qs : List PodState} {uid w : Bytes} {rs : List PodState} {uids : List Bytes}
    → Step qs w rs
    → Kept ps uid uids qs
    → Kept ps uid (w ∷ uids) rs
Kept-step (reconciles qs n ready same) k =
    let (m, first, e) = Standing-IsFirst qs k.standing in
    Kept-role _
      (role_after-first qs first n ready same ∙ ap (λ u. str_eq u n.orchestrator.pod_uid) e) k

Kept-runs :
    {ps qs : List PodState} {m : PodState} {uids : List Bytes}
    → UniqueUids ps
    → IsFirst m (contenders ps)
    → Runs ps uids qs
    → Kept ps m.pod_uid uids qs
Kept-runs u first here = Kept-here u first
Kept-runs u first (next runs step) = Kept-step step (Kept-runs u first runs)

-- Let pods with different UIDs run `reconcile` outside Raft mode, without --standalone, --no-promote
-- and debug logging, one after the other, in any order and any number of times. Let each, where it
-- runs, reach its Redis, whose commands all succeed, report the role that it has, and see all pods
-- of the cluster as healthy, in the roles that they then have, whenever it saw them. Once every pod
-- has run, whatever the roles were, exactly one master is left: a pod is a master exactly if it has
-- the UID of the pod that came first among the masters at the start, or among all pods if there was
-- no master, and there is such a pod.
pub Runs-one_master :
    (ps qs : List PodState) (uids : List Bytes)
    → ps ≢ []
    → UniqueUids ps
    → Runs ps uids qs
    → ((p : PodState) → Memᴰ p ps → Memᴰ p.pod_uid uids)
    → (m : PodState) × IsFirst m (contenders ps)
      × ((x : PodState) → Memᴰ x qs → (x.is_master ≡ true) ↔ (m.pod_uid ≡ x.pod_uid))
      × ((x : PodState) × Memᴰ x qs × (x.is_master ≡ true))
Runs-one_master ps qs uids some_pod unique runs all =
    let (m, rest, s) = sort_pods-cons (contenders ps) (contenders-ne-nil some_pod) in
    let first = head-IsFirst _ s in
    let kept = Kept-runs unique first runs in
    let role : (x : PodState) → Memᴰ x qs → x.is_master ≡ str_eq m.pod_uid x.pod_uid =
      λ x q. let (p, i, e) = kept.from x q in kept.settled x q (rw e (all p i)) in
    let (x, q, e) = kept.onto m (mem-contenders ps first.candidate) in
    (
      m,
      first,
      λ y j. rw (role y j) (str_eq_iff m.pod_uid y.pod_uid),
      (x, q, role x q ∙ (str_eq_iff _ _).1 (sym e)),
    )
