-- ===== src/Election/Raft/AutoJoin/Requests.antt =====
-- Programs by the number of requests to join that they send.
use redis_orchestrator.Base.{
  ℕ, suc, ◌+◌, ◌≤◌, ◌/◌, List, [], ◌∷◌, Option, none, some, Bool, true, false, not, ◌==◌, ◌≡◌, inl,
  inr, refl, arith, Bool-cases, if◌then◌else◌,
}
use redis_orchestrator.Base.Text.{Bytes, codes, str_eq, slice_to}
use redis_orchestrator.Outcome.{Outcome, ok, err, or_panic}
use redis_orchestrator.Effects.{
  HttpRequest, HttpResponse, Call, http_do, History, M, pure, perform, attempt, ◌>>=◌,
}
use redis_orchestrator.Auth.{second, sign_request, set_header}
use redis_orchestrator.Orchestrator.Peers.{Setting, sign}
use redis_orchestrator.Election.Raft.{RaftStrategy, leader_state}
use redis_orchestrator.Election.Raft.Handlers.{
  AddVoterRequest, RaftClusterInfo, Codec, log_id_if_debug,
}
use redis_orchestrator.Election.Raft.Membership.{resume-history}
use redis_orchestrator.Election.Raft.Joining.{
  split_host_port, status_request, read_info, query_host, accept, discover_cluster, join_request,
  read_joined, join_cluster,
}

-- A request to join is a POST; a search only sends GET.
abbrev pub is_join : Call → Bool
is_join (http_do req) = str_eq req.method (codes "POST")
is_join _ = false

unfoldable pub join_requests : History → ℕ
join_requests [] = 0
join_requests (c ∷ h) = if is_join c then suc (join_requests h) else join_requests h

-- The program sends at most so many requests to join.
pub record AtMost {ℓ} {A : Type ℓ} (n : ℕ) (m : M A) : Type ℓ where
  pub bound : (h : History) → join_requests (m h).1 ≤ join_requests h + n

pub pure-AtMost {ℓ} : {A : Type ℓ} (o : Outcome A) → AtMost 0 (λ h. (o, h))
pure-AtMost o = record { bound = λ h. omega arith }

pub perform-AtMost {ℓ} :
    {A : Type ℓ} (c : Call) (answer : History → A) → is_join c ≡ false → AtMost 0 (perform c answer)
perform-AtMost c answer e = record { bound = λ h. unfold join_requests in rw e (omega arith) }

pub if-AtMost {ℓ} :
    {A : Type ℓ} {m n : M A} (k : ℕ) (b : Bool)
    → AtMost k m
    → AtMost k n
    → AtMost k (if b then m else n)
if-AtMost k true p q = p
if-AtMost k false p q = q

pub more-AtMost {ℓ} : {A : Type ℓ} {m : M A} (k n : ℕ) → k ≤ n → AtMost k m → AtMost n m
more-AtMost k n le p = record { bound = λ h. omega (arith, p.bound h, le) }

pub attempt-AtMost {ℓ} : {A : Type ℓ} (m : M A) (k : ℕ) → AtMost k m → AtMost k (attempt m)
attempt-AtMost m k p = record { bound = p.bound }

pub >>=-AtMost {ℓ κ} :
    {A : Type ℓ} {B : Type κ} (m : M A) (f : A → M B) (k n : ℕ)
    → AtMost k m
    → ((a : A) → AtMost n (f a))
    → AtMost (k + n) (m >>= f)
>>=-AtMost m f k n p q = record {
  bound = λ h.
      resume-history (λ x. join_requests x ≤ join_requests h + (k + n)) (m h).0 f (m h).1
        (omega (arith, p.bound h)) (λ a. omega (arith, p.bound h, (q a).bound (m h).1));
}

-- In front of a program that sends none.
pub then-AtMost {ℓ κ} :
    {A : Type ℓ} {B : Type κ} (m : M A) (f : A → M B) (n : ℕ)
    → AtMost 0 m
    → ((a : A) → AtMost n (f a))
    → AtMost n (m >>= f)
then-AtMost m f n p q = more-AtMost (0 + n) n (omega arith) (>>=-AtMost m f 0 n p q)

asked-once :
    (req : HttpRequest) (h : History) → join_requests (http_do req ∷ h) ≤ join_requests h + 1
unfolding join_requests
asked-once req h = elim (Bool-cases (str_eq req.method (codes "POST"))) [
  | inl e ↦ rw e (omega arith)
  | inr e ↦ rw e (omega arith)
]

asked-nothing :
    (req : HttpRequest) (h : History)
    → req.method ≡ codes "GET"
    → join_requests (http_do req ∷ h) ≤ join_requests h + 0
unfolding join_requests str_eq
asked-nothing req h e = rw e (omega arith)

module _ (s : Setting) (codec : Codec) (encode_request : AddVoterRequest → Bytes) where
  -- A signature does not change the method.
  sign-method :
      (req : HttpRequest) (h : History)
      → (signed : HttpRequest) × ((sign s req h).0 ≡ ok signed)
        × (signed.method ≡ req.method)
        × (join_requests (sign s req h).1 ≡ join_requests h)
  sign-method req h =
      unfold sign in
      elim (Bool-cases (str_eq s.authenticator.shared_secret [])) [
        | inl e ↦ simp e (req, refl, refl, refl)
        | inr e ↦ simp e (
          sign_request s.hmac s.authenticator (s.env.read_clock h / second) req,
          refl,
          unfold sign_request set_header in simp e refl,
          unfold join_requests in refl,
        )
      ]

  -- A signed request, with the way its answer is read.
  ask-AtMost {ℓ} :
      {A : Type ℓ} (req : HttpRequest) (f : Option HttpResponse → M A) (n : ℕ)
      → ((signed : HttpRequest) (h : History)
          → signed.method ≡ req.method
          → join_requests (http_do signed ∷ h) ≤ join_requests h + n)
      → ((a : Option HttpResponse) → AtMost 0 (f a))
      → AtMost n
          (sign s req >>= λ signed. perform (http_do signed) (λ h. s.env.http_do h signed) >>= f)
  ask-AtMost req f n sends p = record {
    bound = λ h.
        let (signed, e, m, j) = sign-method req h in
        let k = (sign s req h).1 in
        rw e (
          omega
            (arith, sends signed k m, j, (p (s.env.http_do k signed)).bound (http_do signed ∷ k)));
  }

  log_id_if_debug-AtMost :
      (r : RaftStrategy) (id : Bytes) → AtMost 0 (log_id_if_debug s.env codec r id)
  log_id_if_debug-AtMost r id =
      if-AtMost 0 r.debug
        (then-AtMost _ (λ _. pure tt) 0 (pure-AtMost (or_panic (slice_to 8 id)))
          (λ _. pure-AtMost (ok tt)))
        (pure-AtMost (ok tt))

  module _ (r : RaftStrategy) where
    query_host-AtMost :
        (host : Option (Bytes × Bytes)) → AtMost 0 (query_host s codec encode_request r host)
    query_host-AtMost none = pure-AtMost (ok none)
    query_host-AtMost (some (host, port)) =
        ask-AtMost (status_request s codec encode_request r host)
          (λ resp. pure (read_info s codec encode_request r resp)) 0 asked-nothing
          (λ resp. pure-AtMost (ok (read_info s codec encode_request r resp)))

    accept-AtMost :
        (peer : Bytes) (info : Option RaftClusterInfo) (rest : M RaftClusterInfo)
        → AtMost 0 rest
        → AtMost 0 (accept s codec encode_request r peer info rest)
    accept-AtMost peer none rest p = p
    accept-AtMost peer (some info) rest p =
        if-AtMost 0 (not (str_eq info.leader_addr [])) (pure-AtMost (ok info)) (
          if-AtMost 0 (str_eq info.state leader_state)
            (pure-AtMost (ok (record info { leader_addr = peer }))) p)

    pub discover_cluster-AtMost :
        (peers : List Bytes) → AtMost 0 (discover_cluster s codec encode_request r peers)
    unfolding discover_cluster
    discover_cluster-AtMost [] = pure-AtMost (err _)
    discover_cluster-AtMost (peer ∷ peers) =
        then-AtMost (query_host s codec encode_request r (split_host_port peer)) _ 0
          (query_host-AtMost (split_host_port peer))
          (λ info. accept-AtMost peer info _ (discover_cluster-AtMost peers))

    read_joined-AtMost :
        (resp : Option HttpResponse) → AtMost 0 (read_joined s codec encode_request r resp)
    read_joined-AtMost none = pure-AtMost (err _)
    read_joined-AtMost (some resp) =
        if-AtMost 0 (not (resp.status_code == 200)) (pure-AtMost (err _)) (pure-AtMost (ok tt))

    pub join_cluster-AtMost :
        (leader_addr : Bytes) → AtMost 1 (join_cluster s codec encode_request r leader_addr)
    unfolding join_cluster
    join_cluster-AtMost leader_addr =
        if-AtMost 1 (not r.started) (more-AtMost 0 1 (omega arith) (pure-AtMost (err _))) (
          then-AtMost (log_id_if_debug s.env codec r r.local_pod_uid) _ 1
            (log_id_if_debug-AtMost r r.local_pod_uid)
            (λ _.
              ask-AtMost (join_request s codec encode_request r leader_addr)
                (read_joined s codec encode_request r) 1 (λ signed h _. asked-once signed h)
                read_joined-AtMost))
