-- ===== src/Effects/Trace.antt =====
-- What a history says of the local Redis and of the pod's label.
use redis_orchestrator.Base.{ℕ, suc, ◌+◌, Bool, false, ◌&&◌, List, [], ◌∷◌, if◌then◌else◌}
use redis_orchestrator.Base.Text.{Bytes, codes, str_eq}
use redis_orchestrator.Effects.{redis_do, History, Env}

-- `REPLICAOF NO ONE`, the command that makes a master.
unfoldable pub is_promotion : List Bytes → Bool
unfolding str_eq
is_promotion (a ∷ b ∷ c ∷ []) =
    str_eq a (codes "REPLICAOF") && str_eq b (codes "NO") && str_eq c (codes "ONE")
is_promotion _ = false

-- The number of commands sent to Redis that can change its role: REPLICAOF, which is all that the
-- code sends by `Do`. INFO and PING are not among them.
unfoldable pub role_commands : History → ℕ
role_commands [] = 0
role_commands (redis_do args ∷ h) = suc (role_commands h)
role_commands (_ ∷ h) = role_commands h

-- The number of promotions among them, whether or not they succeeded.
unfoldable pub promotions : History → ℕ
promotions [] = 0
promotions (redis_do args ∷ h) = (if is_promotion args then 1 else 0) + promotions h
promotions (_ ∷ h) = promotions h

-- Whether Redis is a master behind the history. Redis documents that REPLICAOF NO ONE makes a
-- master, that REPLICAOF with a host makes a replica, and that a failed command changes nothing.
unfoldable pub redis_role : Env → Bool → History → Bool
redis_role env start [] = start
redis_role env start (redis_do args ∷ h) =
    if env.redis_do h args then is_promotion args else redis_role env start h
redis_role env start (_ ∷ h) = redis_role env start h
