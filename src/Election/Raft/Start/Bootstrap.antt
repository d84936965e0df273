-- ===== src/Election/Raft/Start/Bootstrap.antt =====
-- Which nodes make a new cluster.
use mathlib.Core.Path.{◌≡◌, refl}
use redis_orchestrator.Base.{
  ◌+◌, List, [], ◌∷◌, Option, none, some, Bool, true, false, ltb, if◌then◌else◌, ◌⊎◌, inl, inr, ◌≢◌,
  arith, Bool-cases,
}
use redis_orchestrator.Base.Text.{Bytes}
use redis_orchestrator.Outcome.{Outcome}
use redis_orchestrator.Effects.{raft_read, History, M, pure, attempt, resume, ◌>>=◌}
use redis_orchestrator.Orchestrator.Peers.{Setting}
use redis_orchestrator.Election.Raft.{RaftStrategy}
use redis_orchestrator.Election.Raft.Handlers.{AddVoterRequest, Codec, log_id_if_debug}
use redis_orchestrator.Election.Raft.Membership.{resume-history}
use redis_orchestrator.Election.Raft.Joining.{net_split_host_port, discover_cluster}
use redis_orchestrator.Election.Raft.Start.{
  may_bootstrap, is_empty, join_found, bootstrap_cluster, join_or_bootstrap, run_raft,
  choose_cluster, log_index, start_at, start,
}
use redis_orchestrator.Election.Raft.Start.Search.{
  bootstraps, Keeps, log-Keeps, discover_cluster-Keeps, join_found-Keeps,
}

module _ (s : Setting) (codec : Codec) (encode_request : AddVoterRequest → Bytes)
    (r : RaftStrategy) where
  -- At most one cluster is made.
  abbrev Once : {A : Type 0} → M A → Type 0
  Once m =
      (h : History) → (bootstraps (m h).1 ≡ bootstraps h) ⊎ (bootstraps (m h).1 ≡ 1 + bootstraps h)

  resume-Once :
      {A : Type 0} {B : Type 0} (m : M A) (f : A → M B) (h : History)
      → Keeps m
      → ((a : A) → Once (f a))
      → (bootstraps (resume (m h).0 f (m h).1).1 ≡ bootstraps h)
        ⊎ (bootstraps (resume (m h).0 f (m h).1).1 ≡ 1 + bootstraps h)
  resume-Once m f h k o =
      resume-history (λ x. (bootstraps x ≡ bootstraps h) ⊎ (bootstraps x ≡ 1 + bootstraps h))
        (m h).0 f (m h).1 (inl (k h)) (λ a. rw (← k h) (o a (m h).1))

  bootstrap_cluster-Once : (port : Bytes) → Once (bootstrap_cluster s codec encode_request r port)
  bootstrap_cluster-Once port h =
      resume-Once (log_id_if_debug s.env codec r r.local_pod_uid) _ h
        (log-Keeps s codec encode_request r r.local_pod_uid)
        (λ _ k. inr (unfold bootstraps in omega arith))

  join_or_bootstrap-Once : (port : Bytes) → Once (join_or_bootstrap s codec encode_request r port)
  join_or_bootstrap-Once port h =
      let search = attempt (discover_cluster s codec encode_request r r.peers) in
      resume-Once search
        (λ found. do
          joined ← join_found s codec encode_request r found
          if joined then pure tt else bootstrap_cluster s codec encode_request r port)
        h (discover_cluster-Keeps s codec encode_request r r.peers)
        (λ found k.
          resume-Once (join_found s codec encode_request r found) _ k
            (join_found-Keeps s codec encode_request r found) (λ joined. unless joined))
    where
      unless :
          (joined : Bool)
          → Once (if joined then pure tt else bootstrap_cluster s codec encode_request r port)
      unless true k = inl refl
      unless false k = bootstrap_cluster-Once port k

module _ (s : Setting) (codec : Codec) (encode_request : AddVoterRequest → Bytes) where
  -- The node made a cluster, once, and it may: it has no state of Raft yet, it is told to and has
  -- peers, and it is no witness.
  pub record Founds (r : RaftStrategy) (h h' : History) : Type 0 where
    pub once : bootstraps h' ≡ 1 + bootstraps h
    pub fresh : s.env.raft_last_index h ≡ 0
    pub told : r.bootstrap ≡ true
    pub has_peers : r.peers ≢ []
    pub votes : r.standalone ≡ false

  abbrev Founding : RaftStrategy → History → History → Type 0
  Founding r h h' = (bootstraps h' ≡ bootstraps h) ⊎ Founds r h h'

  some_peers : (peers : List Bytes) → is_empty peers ≡ false → peers ≢ []
  some_peers [] e q = absurd (ground arith)
  some_peers (peer ∷ peers) e q = absurd cc

  allowed :
      (r : RaftStrategy) (h h' : History)
      → may_bootstrap r (ltb 0 (s.env.raft_last_index h)) ≡ true
      → (bootstraps h' ≡ bootstraps h) ⊎ (bootstraps h' ≡ 1 + bootstraps h)
      → Founding r h h'
  allowed r h h' may (inl e) = inl e
  allowed r h h' may (inr e) = inr (record {
    once = e;
    fresh = ground arith;
    told = ground arith;
    has_peers = some_peers r.peers (ground arith);
    votes = ground arith;
  })

  choose_cluster-Founding :
      (r : RaftStrategy) (port : Bytes) (h k : History)
      → bootstraps k ≡ bootstraps h
      → Founding r h
          (choose_cluster s codec encode_request r port (ltb 0 (s.env.raft_last_index h)) k).1
  choose_cluster-Founding r port h k same =
      elim (Bool-cases (may_bootstrap r (ltb 0 (s.env.raft_last_index h)))) [
        | inr may_not ↦ rw may_not (inl same)
        | inl may ↦ rw may (
            let make = join_or_bootstrap s codec encode_request r port k in
            let made =
              allowed r h make.1 may
                (rw (← same) (join_or_bootstrap-Once s codec encode_request r port k)) in
            resume-history (Founding r h) make.0 _ make.1 made (λ _. made))
      ]

  run_raft-Founding :
      (r : RaftStrategy) (port : Bytes) (h : History)
      → Founding r h (run_raft s codec encode_request r port h).1
  run_raft-Founding r port h = logged r.debug
    where
      logged :
          (b : Bool)
          → Founding r h
              (((if b then log_index s codec encode_request else pure tt) >>= λ _.
                  choose_cluster s codec encode_request r port (ltb 0 (s.env.raft_last_index h)))
                (raft_read ∷ h)).1
      logged true =
          choose_cluster-Founding r port h (raft_read ∷ raft_read ∷ h) (unfold bootstraps in refl)
      logged false = choose_cluster-Founding r port h (raft_read ∷ h) (unfold bootstraps in refl)

  start_at-Founding :
      (created : Outcome (Unit {0})) (r : RaftStrategy) (parts : Option (Bytes × Bytes))
      (h : History)
      → Founding r h (start_at s codec encode_request created r parts h).1
  start_at-Founding created r none h = inl refl
  start_at-Founding created r (some (host, port)) h =
      resume-history (Founding r h) created _ h (inl refl)
        (λ _. carry (run_raft-Founding running port h))
    where
      running : RaftStrategy
      running = record r { started = true }

      carry : {h' : History} → Founding running h h' → Founding r h h'
      carry (inl e) = inl e
      carry (inr f) = inr (record {
        once = f.once;
        fresh = f.fresh;
        told = f.told;
        has_peers = f.has_peers;
        votes = f.votes;
      })

  -- `Start` makes a new cluster at most once, and only on a node that has no state of Raft, is told
  -- to make one, has peers to search for a cluster first, and is no witness.
  pub start-Founds :
      (directory created : Outcome (Unit {0})) (r : RaftStrategy) (h : History)
      → (bootstraps (start s codec encode_request directory created r h).1 ≡ bootstraps h)
        ⊎ Founds r h (start s codec encode_request directory created r h).1
  start-Founds directory created r h =
      unfold start in
      resume-history (Founding r h) directory _ h (inl refl)
        (λ _. start_at-Founding created r (net_split_host_port r.bind_addr) h)
