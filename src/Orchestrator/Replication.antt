-- ===== src/Orchestrator/Replication.antt =====
-- `promoteToMaster`, `demoteToReplica` and `checkAndFixReplication`.
pub mod Laws
pub mod Panics
use redis_orchestrator.Base.{Bool, true, false, List, [], ◌∷◌, Option, none, some, if◌then◌else◌}
use redis_orchestrator.Base.Text.{Bytes, codes, str_eq}
use redis_orchestrator.State.{PodState}
use redis_orchestrator.Effects.{Env, M, pure, attempt, ◌>>=◌, ◌>>◌}
use redis_orchestrator.Redis.Client
use redis_orchestrator.Redis.Info.{ReplicationInfo}
use redis_orchestrator.Orchestrator.{Orchestrator}
use redis_orchestrator.Orchestrator.Labels.{ensure_master_label, remove_master_label}

-- `MasterServiceName` if it is set, otherwise `RedisServiceName`.
unfoldable pub master_service : Orchestrator → Bytes
unfolding str_eq
master_service o =
    if str_eq o.config.master_service_name []
    then o.config.redis_service_name
    else o.config.master_service_name

module _ (env : Env) (o : Orchestrator) where
  unfoldable pub promote_to_master : M (Unit {0})
  promote_to_master =
      if o.config.no_promote
      then pure tt
      else do Client.promote_to_master env; ensure_master_label env o

  -- An error of the label is logged only.
  unfoldable pub demote_to_replica : M (Unit {0})
  demote_to_replica = do
    _ ← attempt (remove_master_label env o)
    Client.set_replica_of env (master_service o) o.config.redis_port

  abbrev reinitialize : M (Unit {0})
  reinitialize = do
    _ ← attempt (Client.set_replica_of env (master_service o) o.config.redis_port)
    pure tt

  abbrev fix_link : Option ReplicationInfo → M (Unit {0})
  fix_link none = pure tt
  fix_link (some info) =
      if str_eq info.master_link_status (codes "down") then reinitialize else pure tt

  unfoldable pub check_and_fix_replication : PodState → M (Unit {0})
  check_and_fix_replication local =
      if local.is_master
      then pure tt
      else if o.config.standalone
      then pure tt
      else do info ← attempt (Client.get_replication_info env); fix_link info
