-- ===== src/Orchestrator/Reconcile/Role.antt =====
-- Convergence of one pod: behind a round of `reconcile` outside Raft mode, its Redis is a master
-- exactly if it is the pod that the order puts first.
use mathlib.Core.Bool.{false≢true}
use mathlib.Core.List.{Memᴰ, cons-ne-nil}
use mathlib.Core.List.Memᴰ
use redis_orchestrator.Base.{
  Bool, true, false, List, [], ◌∷◌, ◌≡◌, ◌↔◌, inl, inr, refl, sym, ap, ◌∙◌, arith, ◌==◌, Bool-cases,
}
use redis_orchestrator.Base.Lists.{length, select, mem-select, select-mem}
use redis_orchestrator.Base.Text.{str_eq, str_eq_iff}
use redis_orchestrator.Config.{election_mode_raft}
use redis_orchestrator.State.{PodState}
use redis_orchestrator.Effects.{Env, History, M, pure}
use redis_orchestrator.Effects.Acts.{Effect, Acts, IsReliable, role_of}
use redis_orchestrator.Effects.Trace.{redis_role}
use redis_orchestrator.Election.Order.Agreement.{
  IsFirst, head-IsFirst, IsFirst-SameKey, sort_pods-cons,
}
use redis_orchestrator.Orchestrator.{Orchestrator, Strategy}
use redis_orchestrator.Orchestrator.Labels.{ensure_master_label}
use redis_orchestrator.Orchestrator.Labels.Laws.{ensure_master_label-Gentle}
use redis_orchestrator.Orchestrator.Replication.{
  promote_to_master, demote_to_replica, check_and_fix_replication,
}
use redis_orchestrator.Orchestrator.Replication.Laws.{
  promote_to_master-Does, demote_to_replica-Does, check_and_fix_replication-Does,
}
use redis_orchestrator.Orchestrator.Reconcile.{
  healthy_states, mastering, last_master, log_reason, act_on_election, elect_and_act,
  handle_no_master, with_current_master, handle_single_master, keep_or_demote, handle_split_brain,
  handle_masters, reconcile,
}
use redis_orchestrator.Orchestrator.Reconcile.Masters.{contenders, last_master-select}
use redis_orchestrator.Orchestrator.Reconcile.Unstamped.{unstamped}

-- A pod that manages its Redis outside Raft mode, with the state that it sees of itself among the
-- healthy ones, and no other healthy pod with its UID.
pub record Manages (o : Orchestrator) (local : PodState) : Type 0 where
  pub standalone : o.config.standalone ≡ false
  pub no_promote : o.config.no_promote ≡ false
  pub debug : o.config.debug ≡ false
  pub election_mode : str_eq o.config.election_mode election_mode_raft ≡ false
  pub own : local.pod_uid ≡ o.pod_uid
  pub seen : Memᴰ local (healthy_states o)
  pub unique :
      (x : PodState)
      → Memᴰ x (healthy_states o)
      → x.pod_uid ≡ o.pod_uid
      → unstamped x ≡ unstamped local

SameMembers-refl : (l : List PodState) (x : PodState) → Memᴰ x l ↔ Memᴰ x l
SameMembers-refl l x = (λ m. m, λ m. m)

not_none : (x y : PodState) (more : List PodState) → (length (x ∷ y ∷ more) == 0) ≡ false
not_none x y more = ground arith

not_one : (x y : PodState) (more : List PodState) → (length (x ∷ y ∷ more) == 1) ≡ false
not_one x y more = ground arith

module _ (env : Env) (reliable : IsReliable env) (o : Orchestrator) (local : PodState)
    (node : Manages o local) (start : Bool) (h : History)
    (base : redis_role env start h ≡ local.is_master) where
  -- Behind the program, Redis has this role.
  abbrev Ends : Bool → M (Unit {0}) → Type 0
  Ends role k = redis_role env start (k h).1 ≡ role

  Acts-Ends :
      {e : Effect} {h' : History}
      → Acts env e h h'
      → redis_role env start h' ≡ role_of e local.is_master
  Acts-Ends {e} a = a.role reliable start ∙ ap (role_of e) base

  idle-Ends : Ends local.is_master (pure tt)
  idle-Ends = base

  label-Ends : Ends local.is_master (ensure_master_label env o)
  label-Ends = Acts-Ends ((ensure_master_label-Gentle env o).acts h)

  demote-Ends : Ends false (demote_to_replica env o)
  demote-Ends = Acts-Ends (demote_to_replica-Does env o h)

  promote-Ends : Ends true (promote_to_master env o)
  promote-Ends = Acts-Ends (promote_to_master-Does env o node.no_promote h)

  repair-Ends : local.is_master ≡ false → Ends false (check_and_fix_replication env o local)
  repair-Ends m = elim (check_and_fix_replication-Does env o local h) [
    | inl a ↦ Acts-Ends a ∙ m
    | inr a ↦ Acts-Ends a
  ]

  act_on_election-Ends :
      (elected : PodState)
      → local.is_master ≡ false
      → Ends (str_eq elected.pod_uid o.pod_uid) (act_on_election env o elected local)
  act_on_election-Ends elected m =
      unfold act_on_election in
      elim (Bool-cases (str_eq elected.pod_uid o.pod_uid)) [
        | inl own ↦ simp (own, node.no_promote) promote-Ends
        | inr other ↦ simp (other, m) (idle-Ends ∙ m)
      ]

  handle_single_master-Ends :
      (master : PodState)
      → Memᴰ master (healthy_states o)
      → master.is_master ≡ true
      → Ends (str_eq master.pod_uid o.pod_uid) (handle_single_master env o master local)
  handle_single_master-Ends master k m =
      unfold handle_single_master in
      elim (Bool-cases (str_eq master.pod_uid o.pod_uid)) [
        | inl own ↦
            let same = node.unique master k ((str_eq_iff _ _).0 own) in
            simp (node.standalone, own, node.no_promote)
              (label-Ends ∙ ap (λ (p : PodState). p.is_master) (sym same) ∙ m)
        | inr other ↦ elim (Bool-cases local.is_master) [
          | inl r ↦ simp (node.standalone, other, r) demote-Ends
          | inr r ↦ simp (node.standalone, other, r) (repair-Ends r)
        ]
      ]

  keep_or_demote-Ends :
      (keep : PodState) (rest : List PodState)
      → Memᴰ keep (healthy_states o)
      → keep.is_master ≡ true
      → Ends (str_eq keep.pod_uid o.pod_uid) (keep_or_demote env o (keep ∷ rest) local)
  keep_or_demote-Ends keep rest k m =
      unfold keep_or_demote log_reason in
      elim (Bool-cases (str_eq keep.pod_uid o.pod_uid)) [
        | inl own ↦
            let same = node.unique keep k ((str_eq_iff _ _).0 own) in
            let master : local.is_master ≡ true =
              ap (λ (p : PodState). p.is_master) (sym same) ∙ m in
            let equal =
              (str_eq_iff local.pod_uid keep.pod_uid).1
                (ap (λ (p : PodState). p.pod_uid) (sym same)) in
            simp (node.debug, master, equal, node.no_promote, own) (idle-Ends ∙ master)
        | inr other ↦ elim (Bool-cases local.is_master) [
          | inl r ↦ simp (node.debug, r, differs keep other, other) demote-Ends
          | inr r ↦ simp (node.debug, r, other) (repair-Ends r)
        ]
      ]
    where
      differs :
          (keep : PodState)
          → str_eq keep.pod_uid o.pod_uid ≡ false
          → str_eq local.pod_uid keep.pod_uid ≡ false
      differs keep other = elim (Bool-cases (str_eq local.pod_uid keep.pod_uid)) [
        | inl e ↦
            absurd
              (false≢true (sym other ∙ (str_eq_iff _ _).1 (sym ((str_eq_iff _ _).0 e) ∙ node.own)))
        | inr e ↦ e
      ]

  module _ {m : PodState} (first : IsFirst m (contenders (healthy_states o))) where
    no_master-Ends :
        select mastering (healthy_states o) ≡ []
        → Ends (str_eq m.pod_uid o.pod_uid) (handle_no_master env o (healthy_states o) local)
    no_master-Ends e =
        let (k, rest, s) =
          sort_pods-cons (healthy_states o) (λ nil. Memᴰ.not-nil (rw nil at node.seen)) in
        let among : IsFirst m (healthy_states o) = rw e at first in
        let same =
          IsFirst-SameKey (healthy_states o) (healthy_states o) (SameMembers-refl _)
            (head-IsFirst _ s) among in
        unfold handle_no_master elect_and_act log_reason in
        simp (node.standalone, node.no_promote, s, node.debug, sym same.pod_uid)
          (act_on_election-Ends k (not_master e))
      where
        not_master : select mastering (healthy_states o) ≡ [] → local.is_master ≡ false
        not_master e = elim (Bool-cases local.is_master) [
          | inl r ↦
              absurd (Memᴰ.not-nil (rw e at (select-mem mastering (healthy_states o) node.seen r)))
          | inr r ↦ r
        ]

    single_master-Ends :
        (c : PodState)
        → select mastering (healthy_states o) ≡ c ∷ []
        → Ends
            (str_eq m.pod_uid o.pod_uid)
            (with_current_master env o (last_master (healthy_states o)) local)
    single_master-Ends c e =
        let (k, r) = mem-select mastering (healthy_states o) (rw e (Memᴰ.head refl)) in
        let among : IsFirst m (c ∷ []) = rw e at first in
        simp (last_master-select (healthy_states o) e, Memᴰ.eq_of_singleton among.candidate)
          (handle_single_master-Ends c k r)

    split_brain-Ends :
        (x y : PodState) (more : List PodState)
        → select mastering (healthy_states o) ≡ x ∷ y ∷ more
        → Ends (str_eq m.pod_uid o.pod_uid) (handle_split_brain env o (healthy_states o) local)
    split_brain-Ends x y more e =
        let masters = select mastering (healthy_states o) in
        let (k, rest, s) = sort_pods-cons masters (λ nil. cons-ne-nil x _ (sym e ∙ nil)) in
        let among : IsFirst m masters = rw e (rw e at first) in
        let kept = head-IsFirst masters s in
        let (seen, master) = mem-select mastering (healthy_states o) kept.candidate in
        let same = IsFirst-SameKey masters masters (SameMembers-refl _) kept among in
        unfold handle_split_brain in
        simp (node.standalone, s, sym same.pod_uid) (keep_or_demote-Ends k rest seen master)

    handle_masters-Ends :
        (strategy : Strategy env) (masters : List PodState)
        → select mastering (healthy_states o) ≡ masters
        → Ends (str_eq m.pod_uid o.pod_uid) (handle_masters env o strategy (healthy_states o) local)
    handle_masters-Ends strategy [] e = unfold handle_masters in simp e (no_master-Ends e)
    handle_masters-Ends strategy (x ∷ []) e =
        unfold handle_masters in simp e (single_master-Ends x e)
    handle_masters-Ends strategy (x ∷ y ∷ more) e =
        unfold handle_masters in
        simp (e, not_none x y more, not_one x y more) (split_brain-Ends x y more e)

    nobody : (length (healthy_states o) == 0) ≡ false
    nobody = some_member (healthy_states o) node.seen
      where
        some_member : (l : List PodState) → Memᴰ local l → (length l == 0) ≡ false
        some_member [] k = absurd (Memᴰ.not-nil k)
        some_member (x ∷ l) k = ground arith

    -- Let a pod run outside Raft mode, without --standalone, --no-promote and debug logging, reach
    -- its Redis, whose commands all succeed, report the role that it has, and see itself as healthy
    -- and no other healthy pod with its UID. Then one round of `reconcile` leaves its Redis a master exactly if its UID is that of the
    -- pod that comes first: first among the masters, or among all healthy pods if there is no
    -- master. This holds whatever Kubernetes answers.
    pub reconcile-redis_role :
        (strategy : Strategy env)
        → redis_role env start (reconcile env o strategy local h).1 ≡ str_eq m.pod_uid o.pod_uid
    reconcile-redis_role strategy =
        unfold reconcile in simp (nobody, node.election_mode) (handle_masters-Ends strategy _ refl)
