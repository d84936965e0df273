-- ===== src/Election/Raft/AutoJoin/Laws.antt =====
-- What `autoJoinCluster` asks for: at most one join for each attempt, and never a new cluster.
use redis_orchestrator.Base.{
  ℕ, zero, suc, ◌+◌, ◌≤◌, ◌<◌, [], ◌∷◌, Option, none, some, Bool, false, ◌≡◌, inl, inr, refl, arith,
  Bool-cases,
}
use redis_orchestrator.Base.Lists.{length}
use redis_orchestrator.Base.Text.{Bytes, str_eq_refl, slice_to}
use redis_orchestrator.Outcome.{ok, panic, or_panic}
use redis_orchestrator.Effects.{raft_read, History, M, pure, perform, attempt}
use redis_orchestrator.Orchestrator.Peers.{Setting}
use redis_orchestrator.Election.Raft.{RaftStrategy}
use redis_orchestrator.Election.Raft.Handlers.{AddVoterRequest, RaftClusterInfo, Codec}
use redis_orchestrator.Election.Reason.Laws.{slice_to-none}
use redis_orchestrator.Election.Raft.Start.Search.{
  bootstraps, Keeps, resume-Keeps, discover_cluster-Keeps, join_cluster-Keeps,
}
use redis_orchestrator.Election.Raft.Joining.{discover_cluster, join_cluster}
use redis_orchestrator.Election.Raft.AutoJoin.{
  follower_state, in_cluster, log_state, verify_join, after_join, join_found_cluster,
  search_and_join, attempt_join, auto_join, auto_join_cluster, max_attempts,
}
use redis_orchestrator.Election.Raft.AutoJoin.Requests.{
  join_requests, AtMost, pure-AtMost, perform-AtMost, if-AtMost, more-AtMost, attempt-AtMost,
  >>=-AtMost, then-AtMost, discover_cluster-AtMost, join_cluster-AtMost,
}

module _ (s : Setting) (codec : Codec) (encode_request : AddVoterRequest → Bytes)
    (cancelled : History → Bool) (r : RaftStrategy) where
  log_state-AtMost : AtMost 0 (log_state s codec encode_request cancelled r)
  log_state-AtMost =
      then-AtMost (perform raft_read s.env.raft_state) (λ _. pure tt) 0
        (perform-AtMost raft_read s.env.raft_state refl) (λ _. pure-AtMost (ok tt))

  verify_join-AtMost : AtMost 0 (verify_join s codec encode_request cancelled r)
  verify_join-AtMost =
      then-AtMost (perform raft_read s.env.raft_leader) _ 0
        (perform-AtMost raft_read s.env.raft_leader refl) (λ _. log_state-AtMost)

  module _ (n : ℕ) (rest : M (Unit {0})) (p : AtMost n rest) where
    after_join-AtMost :
        (joined : Option (Unit {0}))
        → AtMost n (after_join s codec encode_request cancelled r joined rest)
    after_join-AtMost none = p
    after_join-AtMost (some _) = more-AtMost 0 n (omega arith) verify_join-AtMost

    join_found_cluster-AtMost :
        (found : Option RaftClusterInfo)
        → AtMost (1 + n) (join_found_cluster s codec encode_request cancelled r found rest)
    join_found_cluster-AtMost none = more-AtMost n (1 + n) (omega arith) p
    join_found_cluster-AtMost (some info) =
        then-AtMost _ _ (1 + n) (pure-AtMost (or_panic (slice_to 8 info.leader_id))) (λ _.
          >>=-AtMost (attempt (join_cluster s codec encode_request r info.leader_addr)) _ 1 n
            (attempt-AtMost _ 1 (join_cluster-AtMost s codec encode_request r info.leader_addr))
            after_join-AtMost)

    search_and_join-AtMost :
        AtMost (1 + n) (search_and_join s codec encode_request cancelled r rest)
    search_and_join-AtMost =
        then-AtMost (log_state s codec encode_request cancelled r) _ (1 + n) log_state-AtMost (λ _.
          then-AtMost (attempt (discover_cluster s codec encode_request r r.peers)) _ (1 + n)
            (attempt-AtMost _ 0 (discover_cluster-AtMost s codec encode_request r r.peers))
            join_found_cluster-AtMost)

    attempt_join-AtMost : AtMost (1 + n) (attempt_join s codec encode_request cancelled r rest)
    attempt_join-AtMost =
        then-AtMost (perform raft_read s.env.raft_leader) _ (1 + n)
          (perform-AtMost raft_read s.env.raft_leader refl)
          (λ leader.
            then-AtMost (perform raft_read s.env.raft_state) _ (1 + n)
              (perform-AtMost raft_read s.env.raft_state refl)
              (λ state.
                if-AtMost (1 + n) (in_cluster s codec encode_request cancelled r leader.0 state)
                  (more-AtMost 0 (1 + n) (omega arith) log_state-AtMost) search_and_join-AtMost))

  auto_join-AtMost :
      (attempts : ℕ) → AtMost attempts (auto_join s codec encode_request cancelled r attempts)
  unfolding auto_join
  auto_join-AtMost zero = pure-AtMost (ok tt)
  auto_join-AtMost (suc left) = record {
    bound = λ h. elim (Bool-cases (cancelled h)) [
      | inl e ↦ rw e (omega arith)
      | inr e ↦ rw e (omega (arith, (attempt_join-AtMost left _ (auto_join-AtMost left)).bound h))
    ];
  }

  -- The reads of Raft in front of a search.
  abbrev pub before_search : History → History
  before_search h = raft_read ∷ raft_read ∷ raft_read ∷ h

  -- If an attempt, while Raft follows and knows no leader, finds a cluster whose leader_id has fewer
  -- than eight bytes, then it panics where its search ends, before it asks to join, with or without debug logging.
  pub auto_join-panic :
      (left : ℕ) (h : History) (info : RaftClusterInfo)
      → cancelled h ≡ false
      → (s.env.raft_leader h).0 ≡ []
      → s.env.raft_state (raft_read ∷ h) ≡ follower_state
      → (discover_cluster s codec encode_request r r.peers (before_search h)).0 ≡ ok info
      → length info.leader_id < 8
      → auto_join s codec encode_request cancelled r (suc left) h
        ≡ (panic, (discover_cluster s codec encode_request r r.peers (before_search h)).1)
  unfolding auto_join
  auto_join-panic left h info c l f e short =
      simp
        (
          c,
          f,
          l,
          str_eq_refl follower_state,
          str_eq_refl [],
          e,
          (slice_to-none 8 info.leader_id).1 short,
        )
        refl

  module _ (rest : M (Unit {0})) (p : Keeps rest) where
    after_join-Keeps :
        (joined : Option (Unit {0}))
        → Keeps (after_join s codec encode_request cancelled r joined rest)
    unfolding bootstraps
    after_join-Keeps none h = p h
    after_join-Keeps (some _) h = refl

    join_found_cluster-Keeps :
        (found : Option RaftClusterInfo)
        → Keeps (join_found_cluster s codec encode_request cancelled r found rest)
    join_found_cluster-Keeps none h = p h
    join_found_cluster-Keeps (some info) h =
        resume-Keeps (or_panic (slice_to 8 info.leader_id)) _ h h refl (λ _ k.
          let joining = attempt (join_cluster s codec encode_request r info.leader_addr) in
          resume-Keeps (joining k).0
            (λ joined. after_join s codec encode_request cancelled r joined rest) k (joining k).1
            (join_cluster-Keeps s codec encode_request r info.leader_addr k) after_join-Keeps)

    attempt_join-Keeps : Keeps (attempt_join s codec encode_request cancelled r rest)
    unfolding bootstraps
    attempt_join-Keeps h =
        elim (Bool-cases (
          in_cluster s codec encode_request cancelled r (s.env.raft_leader h).0
            (s.env.raft_state (raft_read ∷ h)))) [
              | inl joined ↦ rw joined refl
              | inr outside ↦
                  let k = before_search h in
                  let searching = attempt (discover_cluster s codec encode_request r r.peers) in
                  rw outside (
                    resume-Keeps (searching k).0
                      (λ found. join_found_cluster s codec encode_request cancelled r found rest) k
                      (searching k).1 (discover_cluster-Keeps s codec encode_request r r.peers k)
                      join_found_cluster-Keeps)
            ]

  auto_join-Keeps : (attempts : ℕ) → Keeps (auto_join s codec encode_request cancelled r attempts)
  unfolding auto_join
  auto_join-Keeps zero h = refl
  auto_join-Keeps (suc left) h = elim (Bool-cases (cancelled h)) [
    | inl e ↦ rw e refl
    | inr e ↦ rw e (attempt_join-Keeps _ (auto_join-Keeps left) h)
  ]

  -- Whatever the peers and Raft answer, `autoJoinCluster` sends at most 18 requests to join, and
  -- never makes a cluster of its own.
  pub auto_join_cluster_lem :
      (h : History)
      → (join_requests (auto_join_cluster s codec encode_request cancelled r h).1
          ≤ join_requests h + 18)
        × (bootstraps (auto_join_cluster s codec encode_request cancelled r h).1 ≡ bootstraps h)
  unfolding auto_join_cluster
  auto_join_cluster_lem h =
      ((auto_join-AtMost max_attempts).bound h, auto_join-Keeps max_attempts h)
