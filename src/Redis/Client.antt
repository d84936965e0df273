-- ===== src/Redis/Client.antt =====
-- pkg/redis/client.go: `NewClient` and the methods of `Client`. go-redis carries the commands; what
-- the code hands it is the options of the connection.
pub mod Laws
use redis_orchestrator.Base.{
  ℕ, Bool, true, false, List, [], ◌∷◌, ◌++◌, Option, none, some, if◌then◌else◌,
}
use redis_orchestrator.Base.Text.{Bytes, codes}
use redis_orchestrator.Base.Decimal.{format_int}
use redis_orchestrator.Outcome.{external, wrap}
use redis_orchestrator.Effects.{
  Call, redis_info, redis_ping, redis_do, redis_close, Env, M, pure, fail, lift, perform, ◌>>=◌,
}
use redis_orchestrator.Redis.Info.{ReplicationInfo, parse_replication_info}

abbrev pub replicaof_no_one : List Bytes
replicaof_no_one = codes "REPLICAOF" ∷ codes "NO" ∷ codes "ONE" ∷ []

abbrev pub replicaof : Bytes → ℕ → List Bytes
replicaof host port = codes "REPLICAOF" ∷ host ∷ format_int port ∷ []

abbrev pub read_reply : Option Bytes → M ReplicationInfo
read_reply none = fail (wrap (codes "failed to get replication info") external)
read_reply (some info) = lift (parse_replication_info info)

-- `tls.VersionTLS12` and `tls.Config`
abbrev pub version_tls12 : ℕ
version_tls12 = 771

pub record TlsConfig : Type 0 where
  pub min_version : ℕ
  pub insecure_skip_verify : Bool

-- `redis.Options`
pub record Options : Type 0 where
  pub addr : Bytes
  pub password : Bytes
  pub db : ℕ
  pub tls_config : Option TlsConfig

pub record Client : Type 0 where
  pub client : Options
  pub use_tls : Bool

abbrev pub options : Bytes → ℕ → Bytes → Bool → Bool → Options
options host port password use_tls skip_verify = record {
  addr = host ++ (b':' ∷ format_int port);
  password = password;
  db = 0;
  tls_config =
      if use_tls
      then some (record { min_version = version_tls12; insecure_skip_verify = skip_verify })
      else none;
}

-- `&Client{…}`
abbrev pub made_client : Bytes → ℕ → Bytes → Bool → Bool → Client
made_client host port password use_tls skip_verify = record {
  client = options host port password use_tls skip_verify;
  use_tls = use_tls;
}

module _ (env : Env) where
  -- `NewClient` connects once.
  unfoldable pub new_client : Bytes → ℕ → Bytes → Bool → Bool → M Client
  new_client host port password use_tls skip_verify = do
    up ← perform redis_ping env.redis_ping
    if up
        then pure (made_client host port password use_tls skip_verify)
        else fail (wrap (codes "failed to connect to Redis") external)

  unfoldable pub get_replication_info : M ReplicationInfo
  get_replication_info = do reply ← perform redis_info env.redis_info; read_reply reply

  abbrev pub command : Bytes → List Bytes → M (Unit {0})
  command text args = do
    done ← perform (redis_do args) (λ h. env.redis_do h args)
    if done then pure tt else fail (wrap text external)

  unfoldable pub promote_to_master : M (Unit {0})
  promote_to_master = command (codes "failed to promote to master") replicaof_no_one

  unfoldable pub set_replica_of : Bytes → ℕ → M (Unit {0})
  set_replica_of host port = command (codes "failed to set replica") (replicaof host port)

  unfoldable pub is_healthy : M Bool
  is_healthy = perform redis_ping env.redis_ping

  abbrev pub close : M (Unit {0})
  close = perform redis_close (λ h. tt)
