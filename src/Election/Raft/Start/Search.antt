-- ===== src/Election/Raft/Start/Search.antt =====
-- Searching for a cluster and joining it makes no cluster.
use mathlib.Core.Path.{◌≡◌, refl, ◌∙◌}
use redis_orchestrator.Base.{
  ℕ, suc, List, [], ◌∷◌, Option, none, some, ◌==◌, inl, inr, Bool-cases, Option-cases,
}
use redis_orchestrator.Base.Text.{Bytes, str_eq, slice_to}
use redis_orchestrator.Outcome.{Outcome}
use redis_orchestrator.Effects.{
  HttpRequest, HttpResponse, raft_bootstrap, http_do, History, M, pure, attempt, resume,
}
use redis_orchestrator.Orchestrator.Peers.{Setting, sign}
use redis_orchestrator.Election.Raft.{RaftStrategy, leader_state}
use redis_orchestrator.Election.Raft.Handlers.{
  AddVoterRequest, RaftClusterInfo, Codec, log_id_if_debug,
}
use redis_orchestrator.Election.Raft.Membership.{resume-history}
use redis_orchestrator.Election.Raft.Joining.{
  read_info, split_host_port, query_host, accept, discover_cluster, join_request, request_join,
  read_joined, join_cluster, status_request,
}
use redis_orchestrator.Election.Raft.Start.{join_found}

-- The number of clusters that were made.
unfoldable pub bootstraps : History → ℕ
bootstraps [] = 0
bootstraps (raft_bootstrap id address ∷ h) = suc (bootstraps h)
bootstraps (_ ∷ h) = bootstraps h

-- The program makes no cluster.
abbrev pub Keeps {ℓ} : {A : Type ℓ} → M A → Type 0
Keeps m = (h : History) → bootstraps (m h).1 ≡ bootstraps h

pub resume-Keeps {ℓ κ} :
    {A : Type ℓ} {B : Type κ} (r : Outcome A) (f : A → M B) (h h' : History)
    → bootstraps h' ≡ bootstraps h
    → ((a : A) → Keeps (f a))
    → bootstraps (resume r f h').1 ≡ bootstraps h
resume-Keeps r f h h' e k =
    resume-history (λ x. bootstraps x ≡ bootstraps h) r f h' e (λ a. k a h' ∙ e)

module _ (s : Setting) (codec : Codec) (encode_request : AddVoterRequest → Bytes)
    (r : RaftStrategy) where
  sign-Keeps : (req : HttpRequest) → Keeps (sign s req)
  sign-Keeps req h =
      unfold sign in
      elim (Bool-cases (str_eq s.authenticator.shared_secret [])) [
        | inl e ↦ simp e refl
        | inr e ↦ simp e (unfold bootstraps in refl)
      ]

  ask-Keeps {ℓ} :
      {A : Type ℓ} (req : HttpRequest) (f : Option HttpResponse → M A)
      → ((a : Option HttpResponse) → Keeps (f a))
      → (h : History)
      → bootstraps
          (resume
            (sign s req h).0
            (λ q. (λ k. f (s.env.http_do k q) (http_do q ∷ k)))
            (sign s req h).1).1
        ≡ bootstraps h
  ask-Keeps req f k h =
      resume-Keeps (sign s req h).0 _ h (sign s req h).1 (sign-Keeps req h)
        (λ q x. k (s.env.http_do x q) (http_do q ∷ x) ∙ (unfold bootstraps in refl))

  query_host-Keeps :
      (parts : Option (Bytes × Bytes)) → Keeps (query_host s codec encode_request r parts)
  query_host-Keeps none h = refl
  query_host-Keeps (some (host, port)) h =
      ask-Keeps (status_request s codec encode_request r host)
        (λ a. pure (read_info s codec encode_request r a)) (λ a x. refl) h

  accept-Keeps :
      (peer : Bytes) (info : Option RaftClusterInfo) (rest : M RaftClusterInfo)
      → Keeps rest
      → Keeps (accept s codec encode_request r peer info rest)
  accept-Keeps peer none rest k h = k h
  accept-Keeps peer (some info) rest k h = elim (Bool-cases (str_eq info.leader_addr [])) [
    | inr named ↦ rw named refl
    | inl unnamed ↦ elim (Bool-cases (str_eq info.state leader_state)) [
      | inl leads ↦ simp (unnamed, leads) refl
      | inr follows ↦ simp (unnamed, follows) (k h)
    ]
  ]

  pub discover_cluster-Keeps :
      (peers : List Bytes) → Keeps (discover_cluster s codec encode_request r peers)
  unfolding discover_cluster
  discover_cluster-Keeps [] h = refl
  discover_cluster-Keeps (peer ∷ peers) h =
      let query = query_host s codec encode_request r (split_host_port peer) in
      resume-Keeps (query h).0 _ h (query h).1 (query_host-Keeps (split_host_port peer) h)
        (λ info. accept-Keeps peer info _ (discover_cluster-Keeps peers))

  read_joined-Keeps : (a : Option HttpResponse) → Keeps (read_joined s codec encode_request r a)
  read_joined-Keeps none h = refl
  read_joined-Keeps (some resp) h = elim (Bool-cases (resp.status_code == 200)) [
    | inl e ↦ rw e refl
    | inr e ↦ rw e refl
  ]

  pub log-Keeps : (id : Bytes) → Keeps (log_id_if_debug s.env codec r id)
  log-Keeps id h = elim (Bool-cases r.debug) [
    | inr quiet ↦ rw quiet refl
    | inl loud ↦ elim (Option-cases (slice_to 8 id)) [
      | inl short ↦ rw (loud, short) refl
      | inr (prefix, long) ↦ rw (loud, long) refl
    ]
  ]

  pub join_cluster-Keeps :
      (leader_addr : Bytes) → Keeps (join_cluster s codec encode_request r leader_addr)
  join_cluster-Keeps leader_addr h =
      unfold join_cluster in
      elim (Bool-cases r.started) [
        | inr stopped ↦ simp stopped refl
        | inl started ↦ simp started (
            resume-Keeps (log_id_if_debug s.env codec r r.local_pod_uid h).0
              (λ _. request_join s codec encode_request r leader_addr) h
              (log_id_if_debug s.env codec r r.local_pod_uid h).1 (log-Keeps r.local_pod_uid h)
              (λ _ k.
                ask-Keeps (join_request s codec encode_request r leader_addr)
                  (read_joined s codec encode_request r) read_joined-Keeps k))
      ]

  pub join_found-Keeps :
      (found : Option RaftClusterInfo) → Keeps (join_found s codec encode_request r found)
  join_found-Keeps none h = refl
  join_found-Keeps (some info) h =
      let joining = attempt (join_cluster s codec encode_request r info.leader_addr) in
      resume-Keeps (joining h).0 _ h (joining h).1 (join_cluster-Keeps info.leader_addr h)
        (λ _ k. refl)
