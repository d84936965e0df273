-- ===== src/Orchestrator/Reconcile/Panics.antt =====
-- Without debug logging `reconcile` does not panic: no index is out of range, and `currentMaster` is
-- not nil where it is read.
use mathlib.Core.List.{cons-ne-nil}
use redis_orchestrator.Base.{
  Bool, false, not, ◌&&◌, ◌||◌, List, [], ◌∷◌, ◌≡◌, ◌≢◌, inl, inr, refl, sym, ◌∙◌, ◌==◌, Bool-cases,
  arith,
}
use redis_orchestrator.Base.Lists.{length, select}
use redis_orchestrator.Base.Text.{Bytes, str_eq}
use redis_orchestrator.Config.{election_mode_raft}
use redis_orchestrator.State.{PodState}
use redis_orchestrator.Outcome.{Outcome, ok, err, panic}
use redis_orchestrator.Effects.{Env}
use redis_orchestrator.Effects.Panics.{
  NoPanic, pure-NoPanic, if-NoPanic, wrapping-NoPanic, >>=-NoPanic,
}
use redis_orchestrator.Effects.Gentle.{Gentle-NoPanic}
use redis_orchestrator.Election.Order.Agreement.{sort_pods-cons}
use redis_orchestrator.Orchestrator.{Orchestrator, Strategy}
use redis_orchestrator.Orchestrator.Labels.Laws.{ensure_master_label-Gentle}
use redis_orchestrator.Orchestrator.Replication.{promote_to_master, demote_to_replica}
use redis_orchestrator.Orchestrator.Labels.{ensure_master_label}
use redis_orchestrator.Orchestrator.Replication.Panics.{
  promote_to_master-NoPanic, demote_to_replica-NoPanic, check_and_fix_replication-NoPanic,
}
use redis_orchestrator.Orchestrator.Reconcile.{
  healthy_states, mastering, log_reason, act_on_election, elect_and_act, handle_no_master,
  handle_single_master, keep_or_demote, handle_split_brain, log_leader, act_on_leadership, follow,
  handle_raft_mode, handle_masters, reconcile,
}
use redis_orchestrator.Orchestrator.Reconcile.Masters.{last_master-select}

module _ (env : Env) (o : Orchestrator) (silent : o.config.debug ≡ false) where
  log_reason-NoPanic : (sorted : List PodState) → NoPanic (log_reason env o sorted)
  log_reason-NoPanic sorted = unfold log_reason in simp silent (pure-NoPanic tt)

  label-NoPanic : NoPanic (ensure_master_label env o)
  label-NoPanic = Gentle-NoPanic env (ensure_master_label-Gentle env o)

  act_on_election-NoPanic :
      (elected local : PodState) → NoPanic (act_on_election env o elected local)
  unfolding act_on_election
  act_on_election-NoPanic elected local =
      if-NoPanic (str_eq elected.pod_uid o.pod_uid)
        (if-NoPanic o.config.no_promote (pure-NoPanic tt)
          (wrapping-NoPanic _ (promote_to_master env o) (promote_to_master-NoPanic env o)))
        (if-NoPanic local.is_master
          (wrapping-NoPanic _ (demote_to_replica env o) (demote_to_replica-NoPanic env o))
          (pure-NoPanic tt))

  elect_and_act-NoPanic :
      (elected : PodState) (rest : List PodState) (local : PodState)
      → NoPanic (elect_and_act env o (elected ∷ rest) local)
  unfolding elect_and_act
  elect_and_act-NoPanic elected rest local =
      >>=-NoPanic (log_reason env o (elected ∷ rest)) _ (log_reason-NoPanic (elected ∷ rest))
        (λ _. act_on_election-NoPanic elected local)

  handle_no_master-NoPanic :
      (all_states : List PodState) (local : PodState)
      → all_states ≢ []
      → NoPanic (handle_no_master env o all_states local)
  unfolding handle_no_master
  handle_no_master-NoPanic all_states local some_pod =
      let (elected, rest, e) = sort_pods-cons all_states some_pod in
      if-NoPanic o.config.standalone (pure-NoPanic tt) (
        if-NoPanic o.config.no_promote
          (if-NoPanic local.is_master (demote_to_replica-NoPanic env o)
            (check_and_fix_replication-NoPanic env o local))
          (rw e (elect_and_act-NoPanic elected rest local)))

  handle_single_master-NoPanic :
      (master local : PodState) → NoPanic (handle_single_master env o master local)
  unfolding handle_single_master
  handle_single_master-NoPanic master local = if-NoPanic o.config.standalone (pure-NoPanic tt) (
      if-NoPanic (str_eq master.pod_uid o.pod_uid)
        (if-NoPanic o.config.no_promote (demote_to_replica-NoPanic env o) label-NoPanic)
        (if-NoPanic local.is_master (demote_to_replica-NoPanic env o)
          (check_and_fix_replication-NoPanic env o local)))

  keep_or_demote-NoPanic :
      (keep : PodState) (rest : List PodState) (local : PodState)
      → NoPanic (keep_or_demote env o (keep ∷ rest) local)
  unfolding keep_or_demote
  keep_or_demote-NoPanic keep rest local =
      >>=-NoPanic (log_reason env o (keep ∷ rest)) _ (log_reason-NoPanic (keep ∷ rest)) (λ _.
        if-NoPanic
          (local.is_master && (not (str_eq local.pod_uid keep.pod_uid) || o.config.no_promote))
          (demote_to_replica-NoPanic env o)
          (if-NoPanic (not local.is_master) (check_and_fix_replication-NoPanic env o local)
            (pure-NoPanic tt)))

  handle_split_brain-NoPanic :
      (all_states : List PodState) (local : PodState)
      → select mastering all_states ≢ []
      → NoPanic (handle_split_brain env o all_states local)
  unfolding handle_split_brain
  handle_split_brain-NoPanic all_states local some_master =
      let (keep, rest, e) = sort_pods-cons (select mastering all_states) some_master in
      if-NoPanic o.config.standalone (pure-NoPanic tt)
        (rw e (keep_or_demote-NoPanic keep rest local))

  log_leader-NoPanic :
      (leader : Outcome (Bytes × Bytes)) → leader ≢ panic → NoPanic (log_leader env o leader)
  unfolding log_leader
  log_leader-NoPanic (ok (leader_name, leader_uid)) p = simp silent (pure-NoPanic tt)
  log_leader-NoPanic (err e) p = pure-NoPanic tt
  log_leader-NoPanic panic p = absurd (p refl)

  module _ (strategy : Strategy env) where
    follow-NoPanic : NoPanic (follow env o strategy)
    follow-NoPanic = record {
      ends = λ h.
          let g = strategy.get_leader h in
          (>>=-NoPanic (log_leader env o g.0) _
              (log_leader-NoPanic g.0 (strategy.get_leader_gentle.ends h))
              (λ _. demote_to_replica-NoPanic env o)).ends
            g.1;
    }

    act_on_leadership-NoPanic :
        (local : PodState) (leads : Bool) → NoPanic (act_on_leadership env o strategy local leads)
    unfolding act_on_leadership
    act_on_leadership-NoPanic local leads =
        if-NoPanic o.config.no_promote
          (if-NoPanic local.is_master (demote_to_replica-NoPanic env o) (pure-NoPanic tt))
          (if-NoPanic leads
            (if-NoPanic (not local.is_master) (promote_to_master-NoPanic env o) label-NoPanic)
            (if-NoPanic local.is_master follow-NoPanic
              (check_and_fix_replication-NoPanic env o local)))

    handle_raft_mode-NoPanic : (local : PodState) → NoPanic (handle_raft_mode env o strategy local)
    unfolding handle_raft_mode
    handle_raft_mode-NoPanic local = if-NoPanic o.config.standalone (pure-NoPanic tt) (
        >>=-NoPanic strategy.is_leader _
          (record { ends = λ h p. let (leads, e) = strategy.is_leader_answers h in absurd (cc) })
          (act_on_leadership-NoPanic local))

    handle_masters-NoPanic :
        (all_states : List PodState) (local : PodState)
        → all_states ≢ []
        → NoPanic (handle_masters env o strategy all_states local)
    handle_masters-NoPanic all_states local some_pod = by_masters (select mastering all_states) refl
      where
        more :
            (x y : PodState) (rest : List PodState)
            → ((length (x ∷ y ∷ rest) == 0) ≡ false) × ((length (x ∷ y ∷ rest) == 1) ≡ false)
        more x y rest = (ground arith, ground arith)

        by_masters :
            (masters : List PodState)
            → select mastering all_states ≡ masters
            → NoPanic (handle_masters env o strategy all_states local)
        by_masters [] e =
            unfold handle_masters in simp e (handle_no_master-NoPanic all_states local some_pod)
        by_masters (x ∷ []) e =
            unfold handle_masters in
            simp (e, last_master-select all_states e) (handle_single_master-NoPanic x local)
        by_masters (x ∷ y ∷ rest) e =
            let (n, m) = more x y rest in
            unfold handle_masters in
            simp (e, n, m)
              (handle_split_brain-NoPanic all_states local (λ nil. cons-ne-nil x _ (sym e ∙ nil)))

    -- Without debug logging, `reconcile` returns, with or without an error: it does not panic,
    -- whatever it sees and whatever the surroundings answer.
    pub reconcile-NoPanic : (local : PodState) → NoPanic (reconcile env o strategy local)
    reconcile-NoPanic local =
        unfold reconcile in
        elim (Bool-cases (length (healthy_states o) == 0)) [
          | inl nobody ↦ simp nobody (pure-NoPanic tt)
          | inr somebody ↦ simp somebody (
              if-NoPanic (str_eq o.config.election_mode election_mode_raft)
                (handle_raft_mode-NoPanic local)
                (handle_masters-NoPanic (healthy_states o) local
                  (filled (healthy_states o) somebody)))
        ]
      where
        filled : (l : List PodState) → (length l == 0) ≡ false → l ≢ []
        filled [] f = absurd (ground arith)
        filled (x ∷ l) f = λ e. cc
