-- ===== src/Election/Raft/Membership.antt =====
-- Who becomes a member of the cluster through the handlers.
use mathlib.Core.Bool.{false≢true}
use mathlib.Core.Path.{◌≡◌, refl, sym, ◌∙◌}
use redis_orchestrator.Base.{
  List, [], ◌∷◌, Option, none, some, Bool, true, false, if◌then◌else◌, ◌⊎◌, inl, inr, ◌≢◌,
  Bool-cases, ◌<◌, Option-cases,
}
use redis_orchestrator.Base.Text.{Bytes, str_eq, str_eq_iff, slice_to}
use redis_orchestrator.Base.Lists.{length}
use redis_orchestrator.Election.Reason.Laws.{slice_to-none}
use redis_orchestrator.Outcome.{Outcome, ok, err, panic, or_panic}
use redis_orchestrator.Effects.{
  Suffrage, RaftServer, HttpRequest, HttpResponse, raft_read, raft_add, History, Env, M, pure,
  resume, ◌>>=◌,
}
use redis_orchestrator.Election.Raft.{RaftStrategy, leader_state}
use redis_orchestrator.Election.Raft.Handlers.{
  AddVoterRequest, Codec, is_member, log_id_if_debug, add_member, add_to, add_requested, handle_add,
}

-- The calls that add a member, newest first.
unfoldable pub additions : History → List (Suffrage × Bytes × Bytes)
additions [] = []
additions (raft_add suffrage id address ∷ h) = (suffrage, id, address) ∷ additions h
additions (_ ∷ h) = additions h

-- Behind an outcome, what holds of the history and of every way on.
pub resume-history {ℓ κ} :
    {A : Type ℓ} {B : Type κ} (P : History → Type 0) (r : Outcome A) (f : A → M B) (h : History)
    → P h
    → ((a : A) → P (f a h).1)
    → P (resume r f h).1
resume-history P (ok a) f h p k = k a
resume-history P (err e) f h p k = p
resume-history P panic f h p k = p

module _ (env : Env) (codec : Codec) (r : RaftStrategy) (suffrage : Suffrage) where
  -- The handler asked for the member of a request that it may ask for: Raft says that this node
  -- leads, the request has an ID and an address, and the configuration has no such ID.
  pub record Adds (req : HttpRequest) (h h' : History) : Type 0 where
    pub request : AddVoterRequest
    pub decoded : codec.decode_request req.body ≡ some request
    pub has_id : request.id ≢ []
    pub has_address : request.address ≢ []
    pub leads : env.raft_state h ≡ leader_state
    pub fresh :
        (servers : List RaftServer) × (env.raft_configuration (raft_read ∷ h) ≡ some servers)
        × (is_member request.id servers ≡ false)
    pub asked : additions h' ≡ (suffrage, request.id, request.address) ∷ additions h

  -- Nothing was added, or the member of the request was.
  abbrev Spares : HttpRequest → History → History → Type 0
  Spares req h h' = (additions h' ≡ additions h) ⊎ Adds req h h'

  add_member-asked :
      (request : AddVoterRequest) (h : History)
      → additions (add_member env codec r suffrage request h).1
        ≡ (suffrage, request.id, request.address) ∷ additions h
  add_member-asked request h =
      unfold additions in
      resume-history (λ x. additions x ≡ (suffrage, request.id, request.address) ∷ additions h)
        (or_panic (slice_to 8 request.id)) _ (raft_add suffrage request.id request.address ∷ h) refl
        (λ id.
          either (env.raft_add h suffrage request.id request.address) _ _
            (raft_add suffrage request.id request.address ∷ h) refl)
    where
      either :
          (done : Bool) (m n : HttpResponse) (x : History) {l : List (Suffrage × Bytes × Bytes)}
          → additions x ≡ l
          → additions ((if done then pure m else pure n) x).1 ≡ l
      either true m n x e = e
      either false m n x e = e

  log_id_if_debug-history :
      {B : Type 0} (P : History → Type 0) (id : Bytes) (f : Unit {0} → M B) (h : History)
      → P h
      → P (f tt h).1
      → P ((log_id_if_debug env codec r id >>= f) h).1
  log_id_if_debug-history P id f h p k = elim (Bool-cases r.debug) [
    | inr quiet ↦ rw quiet k
    | inl loud ↦ elim (Option-cases (slice_to 8 id)) [
      | inl short ↦ rw (loud, short) p
      | inr (prefix, long) ↦ rw (loud, long) k
    ]
  ]

  module _ (req : HttpRequest) (h : History) (leads : env.raft_state h ≡ leader_state)
      (request : AddVoterRequest) (decoded : codec.decode_request req.body ≡ some request)
      (has_id : request.id ≢ []) (has_address : request.address ≢ []) where
    add_to-Spares :
        (servers : Option (List RaftServer))
        → env.raft_configuration (raft_read ∷ h) ≡ servers
        → Spares req h (add_to env codec r suffrage request servers (raft_read ∷ raft_read ∷ h)).1
    add_to-Spares none e = inl (unfold additions in refl)
    add_to-Spares (some servers) e = elim (Bool-cases (is_member request.id servers)) [
      | inl member ↦ rw member (
          log_id_if_debug-history (Spares req h) request.id _ (raft_read ∷ raft_read ∷ h)
            (inl (unfold additions in refl)) (inl (unfold additions in refl)))
      | inr fresh ↦ rw fresh (
          inr (record {
            request = request;
            decoded = decoded;
            has_id = has_id;
            has_address = has_address;
            leads = leads;
            fresh = (servers, e, fresh);
            asked =
                add_member-asked request (raft_read ∷ raft_read ∷ h) ∙ (unfold additions in refl);
          }))
    ]

  add_requested-Spares :
      (req : HttpRequest) (h : History)
      → env.raft_state h ≡ leader_state
      → (decoded : Option AddVoterRequest) → codec.decode_request req.body ≡ decoded
      → Spares req h (add_requested env codec r suffrage decoded (raft_read ∷ h)).1
  add_requested-Spares req h leads none d = inl (unfold additions in refl)
  add_requested-Spares req h leads (some request) d = elim (Bool-cases (str_eq request.id [])) [
    | inl no_id ↦ rw no_id (inl (unfold additions in refl))
    | inr some_id ↦ elim (Bool-cases (str_eq request.address [])) [
      | inl no_address ↦ rw (some_id, no_address) (inl (unfold additions in refl))
      | inr some_address ↦
          rw (some_id, some_address)
            (log_id_if_debug-history (Spares req h) request.id _ (raft_read ∷ h)
              (inl (unfold additions in refl))
              (add_to-Spares req h leads request d (given request.id some_id)
                (given request.address some_address) _ refl))
    ]
  ]
    where
      given : (b : Bytes) → str_eq b [] ≡ false → b ≢ []
      given b e q = false≢true (sym e ∙ (str_eq_iff b []).1 q)

  -- A request to add a member either adds none, or Raft said that this node leads, the request
  -- decodes and has an ID and an address, the configuration that was read has no member with that
  -- ID, and exactly that member was asked for, once and with the endpoint's right to vote.
  pub handle_add-Adds :
      (req : HttpRequest) (h : History)
      → (additions (handle_add env codec r suffrage req h).1 ≡ additions h)
        ⊎ Adds req h (handle_add env codec r suffrage req h).1
  handle_add-Adds req h =
      unfold handle_add in
      elim (Bool-cases r.started) [
        | inr stopped ↦ simp stopped (inl refl)
        | inl started ↦ elim (Bool-cases (str_eq (env.raft_state h) leader_state)) [
          | inr follows ↦ simp (started, follows) (inl (unfold additions in refl))
          | inl leads ↦
              simp (started, leads)
                (add_requested-Spares req h ((str_eq_iff (env.raft_state h) leader_state).0 leads)
                  (codec.decode_request req.body) refl)
        ]
      ]

  add_member-short :
      (request : AddVoterRequest) (h : History)
      → slice_to 8 request.id ≡ none
      → (add_member env codec r suffrage request h).0 ≡ panic
  add_member-short request h short = rw short refl

  -- A leader that has started, can read its configuration, and is asked for a new member by an
  -- address and an ID of fewer than eight bytes, panics on a slice of the ID for its log. Without
  -- debug logging it has asked Raft to add the member by then, whether or not Raft does, so that a
  -- new member gets no answer; with debug logging it has not.
  pub handle_add-panic :
      (req : HttpRequest) (h : History) (request : AddVoterRequest) (servers : List RaftServer)
      → r.started ≡ true
      → env.raft_state h ≡ leader_state
      → codec.decode_request req.body ≡ some request
      → request.id ≢ []
      → request.address ≢ []
      → length request.id < 8
      → env.raft_configuration (raft_read ∷ h) ≡ some servers
      → is_member request.id servers ≡ false
      → ((handle_add env codec r suffrage req h).0 ≡ panic)
        × (additions (handle_add env codec r suffrage req h).1 ≡ (
            if r.debug then additions h else (suffrage, request.id, request.address) ∷ additions h))
  handle_add-panic req h request servers started leads decoded has_id has_address short config
        fresh =
      let no_id = refused request.id has_id in
      let no_address = refused request.address has_address in
      let at_leader = (str_eq_iff (env.raft_state h) leader_state).1 leads in
      let run = raft_read ∷ raft_read ∷ h in
      unfold handle_add in
      let cut = (slice_to-none 8 request.id).1 short in
      elim (Bool-cases r.debug) [
        | inr quiet ↦
            simp (started, at_leader, decoded, no_id, no_address, quiet, config, fresh)
              (
                add_member-short request run cut,
                add_member-asked request run ∙ (unfold additions in refl),
              )
        | inl loud ↦
            simp (started, at_leader, decoded, no_id, no_address, loud, cut)
              (refl, unfold additions in refl)
      ]
    where
      refused : (b : Bytes) → b ≢ [] → str_eq b [] ≡ false
      refused b n = elim (Bool-cases (str_eq b [])) [
        | inl e ↦ absurd (n ((str_eq_iff b []).0 e))
        | inr e ↦ e
      ]
