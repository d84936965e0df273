-- ===== src/Orchestrator/Replication/Panics.antt =====
-- Promotion, demotion and repair do not panic.
use redis_orchestrator.Base.{List, ℕ, Option, none, some}
use redis_orchestrator.Base.Text.{Bytes, codes, str_eq}
use redis_orchestrator.State.{PodState}
use redis_orchestrator.Outcome.{wrap, external}
use redis_orchestrator.Effects.{redis_do, Env, attempt}
use redis_orchestrator.Effects.Panics.{
  NoPanic, pure-NoPanic, fail-NoPanic, perform-NoPanic, if-NoPanic, attempt-NoPanic, >>=-NoPanic,
}
use redis_orchestrator.Effects.Gentle.{Gentle-NoPanic}
use redis_orchestrator.Redis.Client
use redis_orchestrator.Redis.Info.{ReplicationInfo}
use redis_orchestrator.Redis.Client.Laws.{get_replication_info-Gentle}
use redis_orchestrator.Orchestrator.{Orchestrator}
use redis_orchestrator.Orchestrator.Labels.{remove_master_label}
use redis_orchestrator.Orchestrator.Labels.Laws.{
  ensure_master_label-Gentle, remove_master_label-Gentle,
}
use redis_orchestrator.Orchestrator.Replication.{
  master_service, fix_link, promote_to_master, demote_to_replica, check_and_fix_replication,
}

module _ (env : Env) where
  command-NoPanic : (text : Bytes) (args : List Bytes) → NoPanic (Client.command env text args)
  command-NoPanic text args =
      >>=-NoPanic _ _ (perform-NoPanic (redis_do args) (λ h. env.redis_do h args))
        (λ done. if-NoPanic done (pure-NoPanic tt) (fail-NoPanic (wrap text external)))

  set_replica_of-NoPanic : (host : Bytes) (port : ℕ) → NoPanic (Client.set_replica_of env host port)
  unfolding Client.set_replica_of
  set_replica_of-NoPanic host port = command-NoPanic _ _

  module _ (o : Orchestrator) where
    pub promote_to_master-NoPanic : NoPanic (promote_to_master env o)
    unfolding promote_to_master Client.promote_to_master
    promote_to_master-NoPanic = if-NoPanic o.config.no_promote (pure-NoPanic tt) (
        >>=-NoPanic (Client.promote_to_master env) _ (command-NoPanic _ _)
          (λ _. Gentle-NoPanic env (ensure_master_label-Gentle env o)))

    pub demote_to_replica-NoPanic : NoPanic (demote_to_replica env o)
    unfolding demote_to_replica
    demote_to_replica-NoPanic =
        >>=-NoPanic (attempt (remove_master_label env o)) _
          (attempt-NoPanic _ (Gentle-NoPanic env (remove_master_label-Gentle env o)))
          (λ _. set_replica_of-NoPanic (master_service o) o.config.redis_port)

    fix_link-NoPanic : (r : Option ReplicationInfo) → NoPanic (fix_link env o r)
    fix_link-NoPanic none = pure-NoPanic tt
    fix_link-NoPanic (some info) =
        if-NoPanic (str_eq info.master_link_status (codes "down"))
          (>>=-NoPanic _ _
            (attempt-NoPanic (Client.set_replica_of env (master_service o) o.config.redis_port)
              (set_replica_of-NoPanic (master_service o) o.config.redis_port))
            (λ _. pure-NoPanic tt))
          (pure-NoPanic tt)

    pub check_and_fix_replication-NoPanic :
        (local : PodState) → NoPanic (check_and_fix_replication env o local)
    unfolding check_and_fix_replication
    check_and_fix_replication-NoPanic local = if-NoPanic local.is_master (pure-NoPanic tt) (
        if-NoPanic o.config.standalone (pure-NoPanic tt) (
          >>=-NoPanic (attempt (Client.get_replication_info env)) _
            (attempt-NoPanic _ (Gentle-NoPanic env (get_replication_info-Gentle env)))
            fix_link-NoPanic))
