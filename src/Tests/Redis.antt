-- ===== src/Tests/Redis.antt =====
-- A reply of Redis.
use redis_orchestrator.Base.{Bool, true, not, ◌&&◌, ◌==◌, List, [], ◌∷◌, ◌≡◌, refl, arith}
use redis_orchestrator.Base.Text.{Bytes, codes}
use redis_orchestrator.Redis.Info.{parse_replication_info}
use redis_orchestrator.Redis.Info.Lines.{join_lines, NoReturn, AllNoReturn}
use redis_orchestrator.Redis.Info.Laws.{Says, parse_replication_info-Says}

abbrev reply : List Bytes
reply = codes "# Replication" ∷ codes "role:slave" ∷ codes "master_link_status:down" ∷ []

abbrev no_return : Bytes → Bool
no_return [] = true
no_return (c ∷ s) = not (c == b'\r') && no_return s

no_return-NoReturn : (s : Bytes) → no_return s ≡ true → NoReturn s
no_return-NoReturn [] e = tt
no_return-NoReturn (c ∷ s) e = (ground arith, no_return-NoReturn s (ground arith))

reply-AllNoReturn : AllNoReturn reply
reply-AllNoReturn = (
  no_return-NoReturn (codes "# Replication") refl,
  (
    no_return-NoReturn (codes "role:slave") refl,
    (no_return-NoReturn (codes "master_link_status:down") refl, tt),
  ),
)

parse_replication_info-Says_example : Says reply (parse_replication_info (join_lines reply))
parse_replication_info-Says_example =
    parse_replication_info-Says (codes "# Replication")
      (codes "role:slave" ∷ codes "master_link_status:down" ∷ []) reply-AllNoReturn
