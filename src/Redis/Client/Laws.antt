-- ===== src/Redis/Client/Laws.antt =====
-- What the client's methods do to the history of Redis.
use redis_orchestrator.Base.{
  ℕ, false, [], ◌∷◌, ◌≡◌, ◌≢◌, refl, arith, Option, none, some, Option-cases, Bool-cases, ltb, inl,
  inr,
}
use redis_orchestrator.Base.Text.{Bytes, codes, str_eq}
use redis_orchestrator.Base.Decimal.{two_63, itoa, format_int}
use redis_orchestrator.Base.Decimal.Laws.{AllDigits, itoa-AllDigits}
use redis_orchestrator.Outcome.{panic}
use redis_orchestrator.Effects.{redis_info, redis_do, Env, History}
use redis_orchestrator.Effects.Trace.{is_promotion}
use redis_orchestrator.Effects.Acts.{Acts-redis_info}
use redis_orchestrator.Effects.Gentle.{Gentle}
use redis_orchestrator.Redis.Info.{parse_replication_info}
use redis_orchestrator.Redis.Client.{
  read_reply, replicaof_no_one, replicaof, get_replication_info, promote_to_master, set_replica_of,
}

digits_differ : (s : Bytes) → AllDigits s → str_eq s (codes "ONE") ≡ false
unfolding str_eq
digits_differ [] a = refl
digits_differ (c ∷ s) a = ground arith

-- A command with a host and a port is never the one that promotes, whatever the host's name.
pub replicaof-is_promotion : (host : Bytes) (port : ℕ) → is_promotion (replicaof host port) ≡ false
unfolding is_promotion
replicaof-is_promotion host port = ground (arith, formatted port)
  where
    formatted : (port : ℕ) → str_eq (format_int port) (codes "ONE") ≡ false
    formatted port =
        unfold format_int in
        elim (Bool-cases (ltb port two_63)) [
          | inl e ↦ rw e (digits_differ (itoa port) (itoa-AllDigits port))
          | inr e ↦ rw e (unfold str_eq in refl)
        ]

module _ (env : Env) (h : History) where
  pub get_replication_info-history : (get_replication_info env h).1 ≡ redis_info ∷ h
  unfolding get_replication_info
  get_replication_info-history = elim (Option-cases (env.redis_info h)) [
    | inl e ↦ rw e
    | inr (text, e) ↦ rw e
  ]

  pub promote_to_master-history : (promote_to_master env h).1 ≡ redis_do replicaof_no_one ∷ h
  unfolding promote_to_master
  promote_to_master-history = ground arith

  pub set_replica_of-history :
      (host : Bytes) (port : ℕ)
      → (set_replica_of env host port h).1 ≡ redis_do (replicaof host port) ∷ h
  unfolding set_replica_of
  set_replica_of-history host port = ground arith

parsing_ends : (r : Option Bytes) (h : History) → (read_reply r h).0 ≢ panic
parsing_ends none h e = cc
parsing_ends (some text) h e = unfold parse_replication_info in absurd (ground arith)

pub get_replication_info-Gentle : (env : Env) → Gentle env (get_replication_info env)
get_replication_info-Gentle env = record {
  acts = λ h. rw get_replication_info-history (Acts-redis_info env h);
  ends = λ h. unfold get_replication_info in parsing_ends (env.redis_info h) (redis_info ∷ h);
}
