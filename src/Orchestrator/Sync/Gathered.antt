-- ===== src/Orchestrator/Sync/Gathered.antt =====
-- What `syncState` has gathered when it writes the states.
use mathlib.Core.Path.{◌≡◌, refl, subst}
use redis_orchestrator.Base.{ℕ, inl, inr, Bool-cases}
use redis_orchestrator.Base.Text.{Bytes, codes}
use redis_orchestrator.Base.Dict.{Dict, lookup}
use redis_orchestrator.State.{PodState}
use redis_orchestrator.Outcome.{Outcome, ok, err, panic}
use redis_orchestrator.Effects.{History, wrapping, wrap_outcome, attempt, caught}
use redis_orchestrator.Effects.Returns.{Returns, Returns-resume, Returns-any}
use redis_orchestrator.Redis.Client
use redis_orchestrator.Orchestrator.{Orchestrator, Strategy}
use redis_orchestrator.Orchestrator.Peers.{Setting, get_local_state, discover_and_query_peers}
use redis_orchestrator.Orchestrator.Peers.Discovery.{IsPeers, discover_and_query_peers-IsPeers}
use redis_orchestrator.Orchestrator.Sync.{or_nil, gather}

module _ (s : Setting) (strategy : Strategy s.env) (o : Orchestrator) where
  abbrev IsOwn : PodState → Type 0
  IsOwn st = st.pod_uid ≡ o.pod_uid

  get_local_state-IsOwn : (h : History) → Returns IsOwn (get_local_state s.env o h).0
  get_local_state-IsOwn h =
      unfold get_local_state in
      elim (Bool-cases o.config.standalone) [
        | inl w ↦ simp w refl
        | inr r ↦ simp r (
            Returns-resume (λ _. Unit) IsOwn (Client.get_replication_info s.env h).0 _
              (Client.get_replication_info s.env h).1 (Returns-any _)
              (λ info _.
                Returns-resume (λ _. Unit) IsOwn
                  (Client.is_healthy s.env (Client.get_replication_info s.env h).1).0 _ _
                  (Returns-any _) (λ healthy _. refl)))
      ]

  Returns-wrap_outcome :
      (text : Bytes) (r : Outcome PodState) → Returns IsOwn r → Returns IsOwn (wrap_outcome text r)
  Returns-wrap_outcome text (ok st) p = p
  Returns-wrap_outcome text (err e) p = tt
  Returns-wrap_outcome text panic p = tt

  found-IsPeers :
      (h : History)
      → Returns (λ r. IsPeers s o (or_nil r)) (attempt (discover_and_query_peers s o) h).0
  found-IsPeers h = found (discover_and_query_peers s o h).0 (discover_and_query_peers s o h).1 refl
    where
      found :
          (r : Outcome (Dict PodState)) (k : History)
          → discover_and_query_peers s o h ≡ (r, k)
          → Returns (λ q. IsPeers s o (or_nil q)) (caught r)
      found (ok peers) k e = discover_and_query_peers-IsPeers s o h k peers e
      found (err x) k e = (tt, unfold lookup in refl)
      found panic k e = tt

  abbrev IsGathered : PodState × Dict PodState × ℕ → Type 0
  IsGathered (local, peers, t) = IsOwn local × IsPeers s o peers

  gather-Returns : (h : History) → Returns IsGathered (gather s strategy o h).0
  gather-Returns h =
      let local_state = wrapping (codes "failed to get local state") (get_local_state s.env o) in
      let k = (local_state h).1 in
      let discovered = attempt (discover_and_query_peers s o) in
      unfold gather in
      Returns-resume IsOwn IsGathered (local_state h).0 _ k
        (Returns-wrap_outcome _ (get_local_state s.env o h).0 (get_local_state-IsOwn h))
        (λ local own.
          Returns-resume (λ r. IsPeers s o (or_nil r)) IsGathered (discovered k).0 _
            (discovered k).1 (found-IsPeers k) (λ peers p. (own, p)))

  -- What a pod gathers is a state with its own UID, and answers with one entry for each name and none
  -- for its own.
  pub gather_lem :
      (h h' : History) (local : PodState) (peers : Dict PodState) (t : ℕ)
      → gather s strategy o h ≡ (ok (local, peers, t), h')
      → (local.pod_uid ≡ o.pod_uid) × IsPeers s o peers
  gather_lem h h' local peers t e = subst (λ r. Returns IsGathered r.0) e (gather-Returns h)
