-- ===== src/Orchestrator/Reconcile/RaftMode.antt =====
-- `handleRaftMode`: what it can do to Redis in any surroundings, and the role that it leaves.
use redis_orchestrator.Base.{Bool, true, false, ◌≡◌, ◌≢◌, inl, inr, refl, ap, ◌∙◌, ◌==◌, Bool-cases}
use redis_orchestrator.State.{PodState}
use redis_orchestrator.Base.Lists.{length}
use redis_orchestrator.Base.Text.{Bytes, str_eq}
use redis_orchestrator.Config.{election_mode_raft}
use redis_orchestrator.Outcome.{Outcome, ok, err, panic}
use redis_orchestrator.Effects.{Env, History, M, ◌>>◌}
use redis_orchestrator.Effects.Acts.{Effect, quiet, Acts, Acts-trans, IsReliable, role_of}
use redis_orchestrator.Effects.Trace.{redis_role}
use redis_orchestrator.Orchestrator.{Orchestrator, Strategy}
use redis_orchestrator.Orchestrator.Reconcile.{
  healthy_states, act_on_leadership, handle_raft_mode, log_leader, follow, reconcile,
}
use redis_orchestrator.Orchestrator.Reconcile.Handlers.{
  Runs, idle-Runs, label-Runs, demote-Runs, repair-Runs, promote-Runs, log_leader-Runs,
}
use redis_orchestrator.Orchestrator.Labels.Laws.{ensure_master_label-Gentle}
use redis_orchestrator.Orchestrator.Replication.{demote_to_replica}
use redis_orchestrator.Orchestrator.Replication.Laws.{
  promote_to_master-Does, demote_to_replica-Does, check_and_fix_replication-Does,
}

module _ {ℓ} (env : Env) (o : Orchestrator) (J : Type ℓ) (strategy : Strategy env) where
  -- A quiet step in front.
  Runs-after :
      (m : M (Unit {0})) {h h' : History}
      → Acts env quiet h h'
      → Runs env J m h'
      → Runs env J (λ _. m h') h
  Runs-after m q r = (r.0, Acts-trans env q r.1, r.2)

  follow-Runs : (h : History) → Runs env J (follow env o strategy) h
  follow-Runs h =
      let g = strategy.get_leader h in
      Runs-after (log_leader env o g.0 >> demote_to_replica env o)
        (strategy.get_leader_gentle.acts h)
        (log_leader-Runs env o J g.1 g.0 (demote_to_replica env o) (demote-Runs env o J g.1))

  act_on_leadership-Runs :
      (h : History) (local : PodState) (leads : Bool)
      → (o.config.no_promote ≡ false → leads ≡ true → local.is_master ≡ false → J)
      → Runs env J (act_on_leadership env o strategy local leads) h
  act_on_leadership-Runs h local leads j =
      unfold act_on_leadership in
      elim (Bool-cases o.config.no_promote) [
        | inl n ↦ elim (Bool-cases local.is_master) [
          | inl m ↦ simp (n, m) (demote-Runs env o J h)
          | inr m ↦ simp (n, m) (idle-Runs env o J h)
        ]
        | inr n ↦ elim (Bool-cases local.is_master) [
          | inl m ↦ elim (Bool-cases leads) [
            | inl l ↦ simp (n, m, l) (label-Runs env o J h)
            | inr l ↦ simp (n, m, l) (follow-Runs h)
          ]
          | inr m ↦ elim (Bool-cases leads) [
            | inl l ↦ simp (n, m, l) (promote-Runs env o J h n (j n l m))
            | inr l ↦ simp (n, m, l) (repair-Runs env o J h local)
          ]
        ]
      ]

  pub handle_raft_mode-Runs :
      (h : History) (local : PodState)
      → (o.config.standalone ≡ false
          → o.config.no_promote ≡ false
          → (strategy.is_leader h).0 ≡ ok true
          → local.is_master ≡ false
          → J)
      → Runs env J (handle_raft_mode env o strategy local) h
  handle_raft_mode-Runs h local j =
      let (leads, e) = strategy.is_leader_answers h in
      unfold handle_raft_mode in
      elim (Bool-cases o.config.standalone) [
        | inl s ↦ simp s (idle-Runs env o J h)
        | inr s ↦
            simp (s, e)
              (Runs-after (act_on_leadership env o strategy local leads)
                (strategy.is_leader_quiet h)
                (act_on_leadership-Runs (strategy.is_leader h).1 local leads
                  (λ n l m. j s n (e ∙ ap ok l) m)))
      ]

-- A pod that manages its Redis in Raft mode, and sees some healthy pod.
pub record Manages (o : Orchestrator) : Type 0 where
  pub standalone : o.config.standalone ≡ false
  pub no_promote : o.config.no_promote ≡ false
  pub debug : o.config.debug ≡ false
  pub election_mode : str_eq o.config.election_mode election_mode_raft ≡ true
  pub somebody : (length (healthy_states o) == 0) ≡ false

module _ (env : Env) (reliable : IsReliable env) (o : Orchestrator) (node : Manages o)
    (strategy : Strategy env) (start : Bool) where
  -- Behind the program, Redis has this role.
  abbrev Ends : Bool → History → M (Unit {0}) → Type 0
  Ends role h m = redis_role env start (m h).1 ≡ role

  Acts-Ends :
      {e : Effect} {h h' : History} {before : Bool}
      → redis_role env start h ≡ before
      → Acts env e h h'
      → redis_role env start h' ≡ role_of e before
  Acts-Ends {e} base a = a.role reliable start ∙ ap (role_of e) base

  log_leader-Ends :
      (leader : Outcome (Bytes × Bytes)) (h : History)
      → leader ≢ panic
      → Ends false h (log_leader env o leader >> demote_to_replica env o)
  unfolding log_leader
  log_leader-Ends (ok (leader_name, leader_uid)) h p =
      simp node.debug (Acts-Ends refl (demote_to_replica-Does env o h))
  log_leader-Ends (err e) h p = Acts-Ends refl (demote_to_replica-Does env o h)
  log_leader-Ends panic h p = absurd (p refl)

  act_on_leadership-Ends :
      (h : History) (local : PodState) (leads : Bool)
      → redis_role env start h ≡ local.is_master
      → Ends leads h (act_on_leadership env o strategy local leads)
  act_on_leadership-Ends h local leads base =
      unfold act_on_leadership in
      elim (Bool-cases local.is_master) [
        | inl m ↦ elim (Bool-cases leads) [
          | inl l ↦
              simp (node.no_promote, m, l)
                (Acts-Ends base ((ensure_master_label-Gentle env o).acts h) ∙ m)
          | inr l ↦
              simp (node.no_promote, m, l)
                (log_leader-Ends (strategy.get_leader h).0 (strategy.get_leader h).1
                  (strategy.get_leader_gentle.ends h))
        ]
        | inr m ↦ elim (Bool-cases leads) [
          | inl l ↦
              simp (node.no_promote, m, l)
                (Acts-Ends base (promote_to_master-Does env o node.no_promote h))
          | inr l ↦
              simp (node.no_promote, m, l)
                (elim (check_and_fix_replication-Does env o local h) [
                  | inl a ↦ Acts-Ends base a ∙ m
                  | inr a ↦ Acts-Ends base a
                ])
        ]
      ]

  -- With Redis reachable, one round of `reconcile` in Raft mode, without --no-promote and debug
  -- logging, leaves the pod's Redis a master exactly if the strategy says that the pod leads,
  -- provided that the pod sees some healthy pod and the role that it reports is that of its Redis.
  -- This holds whatever Kubernetes answers.
  pub reconcile-leads :
      (local : PodState) (h : History) (leads : Bool)
      → redis_role env start h ≡ local.is_master
      → (strategy.is_leader h).0 ≡ ok leads
      → redis_role env start (reconcile env o strategy local h).1 ≡ leads
  reconcile-leads local h leads base e =
      unfold reconcile handle_raft_mode in
      simp (node.somebody, node.election_mode, node.standalone, e)
        (act_on_leadership-Ends (strategy.is_leader h).1 local leads
          (Acts-Ends base (strategy.is_leader_quiet h)))
