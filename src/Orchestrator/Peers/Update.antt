-- ===== src/Orchestrator/Peers/Update.antt =====
-- The orchestrator's map of states after `updatePeerStates`.
use mathlib.Core.Path.{◌≡◌, refl}
use redis_orchestrator.Base.{ℕ, Bool, not, ◌||◌, [], ◌∷◌, Option, none, some, if◌then◌else◌, arith}
use redis_orchestrator.Base.Text.{Bytes, str_eq, str_eq_iff}
use redis_orchestrator.Base.Dict.{Dict, lookup, insert, lookup-insert}
use redis_orchestrator.Base.Dict.Laws.{
  IsDict, insert-IsDict, select-IsDict, lookup-select, filter_value,
}
use redis_orchestrator.State.{PodState}
use redis_orchestrator.Orchestrator.{Orchestrator}
use redis_orchestrator.Orchestrator.Peers.{merge, is_kept, is_stale, update_peer_states}

abbrev pub or_else : Option PodState → Option PodState → Option PodState
or_else none r = r
or_else (some st) r = some st

lookup-merge :
    (k : Bytes) (peers m : Dict PodState)
    → IsDict peers
    → lookup k (merge peers m) ≡ or_else (lookup k peers) (lookup k m)
unfolding merge lookup
lookup-merge k [] m d = refl
lookup-merge k ((j, st) ∷ peers) m (n, d) =
    ground
      (arith, lookup-merge k peers (insert j st m) d, lookup-insert j k st m, str_eq_iff j k, n)

merge-IsDict : (peers m : Dict PodState) → IsDict m → IsDict (merge peers m)
unfolding merge
merge-IsDict [] m d = d
merge-IsDict ((j, st) ∷ peers) m d = merge-IsDict peers (insert j st m) (insert-IsDict j st m d)

-- A pod other than this one has, after the update, the state that it just sent, or else the state
-- it had, and in both cases only if the state was sent in the last sixty seconds.
abbrev pub refreshed : Bytes → ℕ → Dict PodState → Dict PodState → Option PodState
refreshed k t peers old =
    filter_value (λ st. not (is_stale t st)) (or_else (lookup k peers) (lookup k old))

private_if :
    (b : Bool) (keep : PodState → Bool) (r : Option PodState)
    → filter_value (λ st. b || keep st) r ≡ (if b then r else filter_value keep r)
private_if b keep none = ground arith
private_if b keep (some st) = ground arith

-- Let both maps have one entry for each key, and let no peer have answered under the
-- orchestrator's own name. After `updatePeerStates` a name k is looked up as follows: the own name
-- gives the local state; any other name gives the state that it just sent, or else the one kept
-- from before, and nothing if that state is more than sixty seconds old.
pub lookup-update_peer_states :
    (t : ℕ) (local : PodState) (peers : Dict PodState) (o : Orchestrator) (k : Bytes)
    → IsDict peers
    → lookup o.config.pod_name peers ≡ none
    → IsDict o.peer_states
    → lookup k (update_peer_states t local peers o).peer_states
      ≡ (if str_eq k o.config.pod_name then some local else refreshed k t peers o.peer_states)
unfolding update_peer_states
lookup-update_peer_states t local peers o k dp n d =
    rw
      (
        lookup-select (is_kept o.config.pod_name t) k (merge peers start) all,
        private_if (str_eq k o.config.pod_name) (λ st. not (is_stale t st))
            (lookup k (merge peers start)),
        lookup-merge k peers start dp,
        lookup-insert o.config.pod_name k local o.peer_states,
      )
      (ground (arith, n, str_eq_iff k o.config.pod_name, str_eq_iff o.config.pod_name k))
  where
    start : Dict PodState
    start = insert o.config.pod_name local o.peer_states

    all : IsDict (merge peers start)
    all = merge-IsDict peers start (insert-IsDict o.config.pod_name local o.peer_states d)

-- `updatePeerStates` keeps the map a map: one entry for each key.
pub update_peer_states-IsDict :
    (t : ℕ) (local : PodState) (peers : Dict PodState) (o : Orchestrator)
    → IsDict o.peer_states
    → IsDict (update_peer_states t local peers o).peer_states
unfolding update_peer_states
update_peer_states-IsDict t local peers o d =
    select-IsDict (is_kept o.config.pod_name t)
      (merge peers (insert o.config.pod_name local o.peer_states))
      (merge-IsDict peers (insert o.config.pod_name local o.peer_states)
        (insert-IsDict o.config.pod_name local o.peer_states d))
