-- ===== src/Orchestrator/Replication/Laws.antt =====
-- What promotion, demotion and repair do to the local Redis.
use redis_orchestrator.Base.{true, false, ◌≡◌, ◌⊎◌, inl, inr, refl, Option, none, some, Bool-cases}
use redis_orchestrator.Base.Text.{codes, str_eq}
use redis_orchestrator.State.{PodState}
use redis_orchestrator.Outcome.{ok}
use redis_orchestrator.Effects.{Env, History, attempt, ◌>>=◌}
use redis_orchestrator.Effects.Acts.{
  Acts, quiet, promoted, demoted, Acts-refl, Acts-trans, Acts-promoted, Acts-demoted,
}
use redis_orchestrator.Effects.Gentle.{
  Does, Does-attempt, Does-attempt_last, Does-bind, attempt-runs,
}
use redis_orchestrator.Effects.Trace.{is_promotion}
use redis_orchestrator.Redis.Client
use redis_orchestrator.Redis.Info.{ReplicationInfo}
use redis_orchestrator.Redis.Client.Laws.{
  promote_to_master-history, set_replica_of-history, get_replication_info-Gentle,
  replicaof-is_promotion,
}
use redis_orchestrator.Orchestrator.{Orchestrator}
use redis_orchestrator.Orchestrator.Labels.{remove_master_label}
use redis_orchestrator.Orchestrator.Labels.Laws.{
  ensure_master_label-Gentle, remove_master_label-Gentle,
}
use redis_orchestrator.Orchestrator.Replication.{
  master_service, fix_link, promote_to_master, demote_to_replica, check_and_fix_replication,
}

module _ (env : Env) (o : Orchestrator) where
  client_promotes : Does env promoted (Client.promote_to_master env)
  unfolding is_promotion
  client_promotes h = rw promote_to_master-history (Acts-promoted env _ h refl)

  client_demotes :
      Does env demoted (Client.set_replica_of env (master_service o) o.config.redis_port)
  client_demotes h =
      rw set_replica_of-history
        (Acts-demoted env _ h (replicaof-is_promotion (master_service o) o.config.redis_port))

  -- Without --no-promote, promotion is one REPLICAOF NO ONE.
  pub promote_to_master-Does :
      o.config.no_promote ≡ false → Does env promoted (promote_to_master env o)
  promote_to_master-Does e =
      unfold promote_to_master in
      simp e (
        Does-bind env (Client.promote_to_master env) _ client_promotes
          (λ _. (ensure_master_label-Gentle env o).acts))

  -- With it, promotion does nothing at all.
  pub promote_to_master_refused :
      (h : History) → o.config.no_promote ≡ true → promote_to_master env o h ≡ (ok tt, h)
  promote_to_master_refused h e = unfold promote_to_master in rw e

  pub demote_to_replica-Does : Does env demoted (demote_to_replica env o)
  demote_to_replica-Does =
      unfold demote_to_replica in
      Does-attempt env (remove_master_label env o) _ (remove_master_label-Gentle env o)
        (λ _. client_demotes)

  fix_link-Does :
      (r : Option ReplicationInfo) (h : History)
      → Acts env quiet h (fix_link env o r h).1 ⊎ Acts env demoted h (fix_link env o r h).1
  fix_link-Does none h = inl (Acts-refl env h)
  fix_link-Does (some i) h = elim (Bool-cases (str_eq i.master_link_status (codes "down"))) [
    | inl e ↦ rw e (
        inr (
          Does-attempt_last env (Client.set_replica_of env (master_service o) o.config.redis_port)
            client_demotes h))
    | inr e ↦ rw e (inl (Acts-refl env h))
  ]

  check_link :
      (h : History)
      → let m = attempt (Client.get_replication_info env) >>= fix_link env o in
        Acts env quiet h (m h).1 ⊎ Acts env demoted h (m h).1
  check_link h =
      let (a, q, e) = attempt-runs env _ (fix_link env o) (get_replication_info-Gentle env) h in
      rw e (elim (fix_link-Does a _) [
        | inl d ↦ inl (Acts-trans env q d)
        | inr d ↦ inr (Acts-trans env q d)
      ])

  -- A repair leaves Redis alone or makes it a replica.
  pub check_and_fix_replication-Does :
      (local : PodState) (h : History)
      → Acts env quiet h (check_and_fix_replication env o local h).1
        ⊎ Acts env demoted h (check_and_fix_replication env o local h).1
  check_and_fix_replication-Does local h =
      unfold check_and_fix_replication in
      elim (Bool-cases local.is_master) [
        | inl e ↦ simp e (inl (Acts-refl env h))
        | inr e ↦ elim (Bool-cases o.config.standalone) [
          | inl s ↦ simp (e, s) (inl (Acts-refl env h))
          | inr s ↦ simp (e, s) (check_link h)
        ]
      ]
