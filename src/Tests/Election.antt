-- ===== src/Tests/Election.antt =====
-- The election at two pods.
use redis_orchestrator.Base.{true, false, List, [], ◌∷◌, ◌≡◌, ◌≢◌, ◌↔◌, ◌⊎◌, refl, none, some, ◌<◌}
use redis_orchestrator.Base.Text.{codes}
use redis_orchestrator.Base.Lists.{SameMembers, length}
use mathlib.Core.List.{Memᴰ}
use mathlib.Core.List.Memᴰ
use redis_orchestrator.State.{PodState}
use redis_orchestrator.Outcome.{ok, panic}
use redis_orchestrator.Election.Order.{sort_pods, pod_less, sort_slice}
use redis_orchestrator.Election.Order.Laws.{SameKey}
use redis_orchestrator.Election.Order.Agreement.{IsFirst}
use redis_orchestrator.Election.Deterministic.{DeterministicStrategy, is_leader}
use redis_orchestrator.Election.Deterministic.Laws.{
  Elects, elect_leader-IsFirst, elect_leader_total, elect_leader-agree, one_leader,
}
use redis_orchestrator.Election.Reason.{get_election_reason, oldest_startup}
use redis_orchestrator.Election.Reason.Laws.{
  Explains, get_election_reason-Explains, get_election_reason-panic,
}
use redis_orchestrator.Tests.Data.{older, younger, pod_state}

abbrev here : DeterministicStrategy
here = record {
  local_pod_name = codes "redis-0";
  local_pod_uid = codes "uid-0000-a";
  debug = false;
  current_leader = none;
}

abbrev there : DeterministicStrategy
there = record here { local_pod_name = codes "redis-1"; local_pod_uid = codes "uid-0001-b" }

abbrev ab : List PodState
ab = younger ∷ older ∷ []

abbrev ba : List PodState
ba = older ∷ younger ∷ []

sorted_ab : sort_pods ab ≡ ba
unfolding sort_slice pod_less
sorted_ab = refl

same_pods : SameMembers ab ba
same_pods x = (flip, flip)
  where
    flip : {a b : PodState} → Memᴰ x (a ∷ b ∷ []) → Memᴰ x (b ∷ a ∷ [])
    flip (Memᴰ.head e) = Memᴰ.tail (Memᴰ.head e)
    flip (Memᴰ.tail m) = Memᴰ.head (Memᴰ.eq_of_singleton m)

ab-ne-nil : ab ≢ []
ab-ne-nil e = cc

ba-ne-nil : ba ≢ []
ba-ne-nil e = cc

abbrev here_elects : Elects here ab
here_elects = elect_leader_total here ab refl ab-ne-nil

abbrev there_elects : Elects there ba
there_elects = elect_leader_total there ba refl ba-ne-nil

elect_leader-IsFirst_example :
    IsFirst here_elects.elected ab
    × (here_elects.sorted ≡ sort_pods ab)
    × (here_elects.after ≡ record here { current_leader = some here_elects.elected })
elect_leader-IsFirst_example = elect_leader-IsFirst here ab here_elects.returned

elect_leader-agree_example : SameKey here_elects.elected there_elects.elected
elect_leader-agree_example = elect_leader-agree here there ab ba same_pods here_elects there_elects

one_leader_example :
    ((is_leader here_elects.after ≡ true) ↔ (here_elects.elected.pod_uid ≡ here.local_pod_uid))
    × (is_leader here_elects.after ≡ true
        → is_leader there_elects.after ≡ true
        → here.local_pod_uid ≡ there.local_pod_uid)
one_leader_example = one_leader here there ab ba same_pods here_elects there_elects

reason_ab : get_election_reason (sort_pods ab) ≡ ok (oldest_startup 3 5)
unfolding sort_slice pod_less get_election_reason
reason_ab = refl

get_election_reason-Explains_example : Explains older younger (oldest_startup 3 5)
get_election_reason-Explains_example = get_election_reason-Explains ab sorted_ab reason_ab

-- Two pods of one name and age, one with a short UID.
abbrev short : PodState
short = pod_state (codes "redis-1") (codes "u") 3 true

get_election_reason-panic_example : (get_election_reason (short ∷ older ∷ []) ≡ panic) ↔ (
    (short.startup_time ≡ older.startup_time)
    × (short.pod_name ≡ older.pod_name)
    × ((length short.pod_uid < 8) ⊎ (length older.pod_uid < 8)))
get_election_reason-panic_example = get_election_reason-panic short older []
