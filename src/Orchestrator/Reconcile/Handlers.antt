-- ===== src/Orchestrator/Reconcile/Handlers.antt =====
-- What each handler of `reconcile` can do to Redis, in any surroundings: one effect, and a promotion
-- only under the conditions that its branch has tested.
use redis_orchestrator.Base.{
  Bool, true, false, not, List, [], ◌∷◌, ◌≡◌, inl, inr, refl, if◌then◌else◌, Bool-cases,
}
use redis_orchestrator.Base.Lists.{select}
use redis_orchestrator.Base.Text.{Bytes, str_eq, str_eq_iff, slice_to}
use redis_orchestrator.State.{PodState}
use redis_orchestrator.Outcome.{Outcome, ok, err, panic, Outcome-cases, or_panic}
use redis_orchestrator.Effects.{Env, History, M, pure, lift, ◌>>◌}
use redis_orchestrator.Effects.Acts.{Effect, quiet, promoted, demoted, Acts, Acts-refl}
use redis_orchestrator.Election.Order.{sort_pods}
use redis_orchestrator.Orchestrator.{Orchestrator}
use redis_orchestrator.Orchestrator.Labels.{ensure_master_label}
use redis_orchestrator.Orchestrator.Labels.Laws.{ensure_master_label-Gentle}
use redis_orchestrator.Orchestrator.Replication.{
  promote_to_master, demote_to_replica, check_and_fix_replication,
}
use redis_orchestrator.Orchestrator.Replication.Laws.{
  promote_to_master-Does, demote_to_replica-Does, check_and_fix_replication-Does,
}
use redis_orchestrator.Orchestrator.Reconcile.{
  get_election_reason, mastering, act_on_election, log_reason, elect_and_act, handle_no_master,
  handle_single_master, keep_or_demote, handle_split_brain, log_leader,
}

-- The step had one effect, and a promotion only where `J` holds.
abbrev pub Runs {ℓ} : Env → Type ℓ → M (Unit {0}) → History → Type ℓ
Runs env J m h = (e : Effect) × Acts env e h (m h).1 × (e ≡ promoted → J)

module _ {ℓ} (env : Env) (o : Orchestrator) (J : Type ℓ) (h : History) where
  pub idle-Runs : Runs env J (pure tt) h
  idle-Runs = (quiet, Acts-refl env h, λ e. cc)

  pub panic-Runs : Runs env J (lift panic) h
  panic-Runs = (quiet, Acts-refl env h, λ e. cc)

  pub label-Runs : Runs env J (ensure_master_label env o) h
  label-Runs = (quiet, (ensure_master_label-Gentle env o).acts h, λ e. cc)

  pub demote-Runs : Runs env J (demote_to_replica env o) h
  demote-Runs = (demoted, demote_to_replica-Does env o h, λ e. cc)

  pub repair-Runs : (local : PodState) → Runs env J (check_and_fix_replication env o local) h
  repair-Runs local = elim (check_and_fix_replication-Does env o local h) [
    | inl a ↦ (quiet, a, λ e. cc)
    | inr a ↦ (demoted, a, λ e. cc)
  ]

  pub promote-Runs : o.config.no_promote ≡ false → J → Runs env J (promote_to_master env o) h
  promote-Runs n j = (promoted, promote_to_master-Does env o n h, λ _. j)

  pub log_reason-Runs :
      (sorted : List PodState) (k : M (Unit {0}))
      → Runs env J k h
      → Runs env J (log_reason env o sorted >> k) h
  log_reason-Runs sorted k r =
      unfold log_reason in
      elim (Bool-cases o.config.debug) [
        | inl d ↦ simp d (elim (Outcome-cases (get_election_reason sorted)) [
          | inl (q, e) ↦ simp e r
          | inr (inl (x, e)) ↦ simp e idle-Runs
          | inr (inr e) ↦ simp e idle-Runs
        ])
        | inr d ↦ simp d r
      ]

  pub act_on_election-Runs :
      (elected local : PodState)
      → (o.config.no_promote ≡ false → elected.pod_uid ≡ o.pod_uid → J)
      → Runs env J (act_on_election env o elected local) h
  act_on_election-Runs elected local j =
      unfold act_on_election in
      elim (Bool-cases (str_eq elected.pod_uid o.pod_uid)) [
        | inl own ↦ elim (Bool-cases o.config.no_promote) [
          | inl n ↦ simp (own, n) idle-Runs
          | inr n ↦ simp (own, n) (promote-Runs n (j n ((str_eq_iff _ _).0 own)))
        ]
        | inr other ↦ elim (Bool-cases local.is_master) [
          | inl m ↦ simp (other, m) demote-Runs
          | inr m ↦ simp (other, m) idle-Runs
        ]
      ]

  pub elect_and_act-Runs :
      (sorted : List PodState) (local : PodState)
      → ((m : PodState) (rest : List PodState)
          → sorted ≡ m ∷ rest
          → o.config.no_promote ≡ false
          → m.pod_uid ≡ o.pod_uid
          → J)
      → Runs env J (elect_and_act env o sorted local) h
  unfolding elect_and_act
  elect_and_act-Runs [] local j = panic-Runs
  elect_and_act-Runs (m ∷ rest) local j =
      log_reason-Runs (m ∷ rest) _ (act_on_election-Runs m local (j m rest refl))

  pub handle_no_master-Runs :
      (all_states : List PodState) (local : PodState)
      → (o.config.standalone ≡ false
          → (m : PodState) (rest : List PodState) → sort_pods all_states ≡ m ∷ rest
          → o.config.no_promote ≡ false
          → m.pod_uid ≡ o.pod_uid
          → J)
      → Runs env J (handle_no_master env o all_states local) h
  handle_no_master-Runs all_states local j =
      unfold handle_no_master in
      elim (Bool-cases o.config.standalone) [
        | inl s ↦ simp s idle-Runs
        | inr s ↦ elim (Bool-cases o.config.no_promote) [
          | inl n ↦ elim (Bool-cases local.is_master) [
            | inl m ↦ simp (s, n, m) demote-Runs
            | inr m ↦ simp (s, n, m) (repair-Runs local)
          ]
          | inr n ↦ simp (s, n) (elect_and_act-Runs (sort_pods all_states) local (j s))
        ]
      ]

  pub handle_single_master-Runs :
      (master local : PodState) → Runs env J (handle_single_master env o master local) h
  handle_single_master-Runs master local =
      unfold handle_single_master in
      elim (Bool-cases o.config.standalone) [
        | inl s ↦ simp s idle-Runs
        | inr s ↦ elim (Bool-cases (str_eq master.pod_uid o.pod_uid)) [
          | inl own ↦ elim (Bool-cases o.config.no_promote) [
            | inl n ↦ simp (s, own, n) demote-Runs
            | inr n ↦ simp (s, own, n) label-Runs
          ]
          | inr other ↦ elim (Bool-cases local.is_master) [
            | inl m ↦ simp (s, other, m) demote-Runs
            | inr m ↦ simp (s, other, m) (repair-Runs local)
          ]
        ]
      ]

  pub keep_or_demote-Runs :
      (sorted : List PodState) (local : PodState) → Runs env J (keep_or_demote env o sorted local) h
  unfolding keep_or_demote
  keep_or_demote-Runs [] local = panic-Runs
  keep_or_demote-Runs (keep ∷ rest) local = log_reason-Runs (keep ∷ rest) _ (decide _)
    where
      decide :
          (b : Bool)
          → Runs env J
              (if b
                then demote_to_replica env o
                else if not local.is_master
                then check_and_fix_replication env o local
                else pure tt)
              h
      decide true = demote-Runs
      decide false = elim (Bool-cases local.is_master) [
        | inl m ↦ simp m idle-Runs
        | inr m ↦ simp m (repair-Runs local)
      ]

  pub handle_split_brain-Runs :
      (all_states : List PodState) (local : PodState)
      → Runs env J (handle_split_brain env o all_states local) h
  handle_split_brain-Runs all_states local =
      unfold handle_split_brain in
      elim (Bool-cases o.config.standalone) [
        | inl s ↦ simp s idle-Runs
        | inr s ↦ simp s (keep_or_demote-Runs (sort_pods (select mastering all_states)) local)
      ]

  pub log_leader-Runs :
      (leader : Outcome (Bytes × Bytes)) (k : M (Unit {0}))
      → Runs env J k h
      → Runs env J (log_leader env o leader >> k) h
  unfolding log_leader
  log_leader-Runs (ok (name, uid)) k r = elim (Bool-cases o.config.debug) [
    | inl d ↦ simp d (elim (Outcome-cases (or_panic (slice_to 8 uid))) [
      | inl (q, e) ↦ simp e r
      | inr (inl (x, e)) ↦ simp e idle-Runs
      | inr (inr e) ↦ simp e idle-Runs
    ])
    | inr d ↦ simp d r
  ]
  log_leader-Runs (err x) k r = r
  log_leader-Runs panic k r = panic-Runs
