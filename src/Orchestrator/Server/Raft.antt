-- ===== src/Orchestrator/Server/Raft.antt =====
-- The server in Raft mode, with the endpoints of the Raft strategy.
use mathlib.Core.Path.{◌≡◌, refl}
use redis_orchestrator.Base.{ℕ, [], ◌∷◌, some, not, ◌&&◌, ◌⊎◌, inl, inr, Bool-cases}
use redis_orchestrator.Base.Text.{Bytes, codes, str_eq}
use redis_orchestrator.Base.Dict.{Dict, lookup}
use redis_orchestrator.Config.{election_mode_raft}
use redis_orchestrator.State.{PodState}
use redis_orchestrator.Outcome.{ok}
use redis_orchestrator.Effects.{
  Suffrage, voter, nonvoter, HttpRequest, redis_ping, read_clock, History, Env, attempt,
}
use redis_orchestrator.Auth.{validate_request}
use redis_orchestrator.Auth.Laws.{middleware_lem}
use redis_orchestrator.Election.Raft.{RaftStrategy}
use redis_orchestrator.Election.Raft.Handlers.{
  Codec, handle_raft_status, handle_raft_peers, handle_add, handle_add_voter, handle_add_nonvoter,
}
use redis_orchestrator.Election.Raft.Membership.{additions, resume-history, Adds, handle_add-Adds}
use redis_orchestrator.Redis.Client
use redis_orchestrator.Redis.Client.Laws.{get_replication_info-history}
use redis_orchestrator.Redis.Info.{ReplicationInfo}
use redis_orchestrator.Orchestrator.{Orchestrator}
use redis_orchestrator.Orchestrator.Peers.{Setting, get_local_state}
use redis_orchestrator.Orchestrator.Server.{
  Handler, RaftEndpoints, handle_state_request, guard, raft_routes, setup_http_server, is_clean,
  serve_by, serve,
}

-- The strategy gives the four endpoints that the server asks for.
abbrev pub raft_endpoints : Env → Codec → RaftStrategy → RaftEndpoints
raft_endpoints env codec r = record {
  handle_raft_status = handle_raft_status env codec r;
  handle_add_voter = handle_add_voter env codec r;
  handle_add_nonvoter = handle_add_nonvoter env codec r;
  handle_raft_peers = handle_raft_peers env codec r;
}

module _ (s : Setting) (encode_state : PodState → Bytes) (o : Orchestrator) (codec : Codec)
    (r : RaftStrategy) (now : ℕ) (req : HttpRequest) (h : History) where
  -- The handler adds no member, or the request is valid and adds its member.
  abbrev Admits : Handler → Type 0
  Admits handler =
      (additions (handler req h).1 ≡ additions h)
      ⊎ ((validate_request s.hmac s.authenticator now req ≡ ok tt)
          × ((suffrage : Suffrage) × Adds s.env codec r suffrage req h (handler req h).1))

  guard-Admits :
      (handler : Handler)
      → (additions (handler req h).1 ≡ additions h)
        ⊎ ((suffrage : Suffrage) × Adds s.env codec r suffrage req h (handler req h).1)
      → Admits (guard s encode_state o now handler)
  guard-Admits handler a = elim (middleware_lem s.hmac s.authenticator handler now req h) [
    | inr (_, e) ↦ rw e (inl refl)
    | inl (valid, e) ↦ rw e (elim a [ inl same ↦ inl same | inr adds ↦ inr (valid, adds) ])
  ]

  status-additions : additions (handle_raft_status s.env codec r req h).1 ≡ additions h
  status-additions =
      unfold handle_raft_status in
      elim (Bool-cases r.started) [
        | inl e ↦ simp e (unfold additions in refl)
        | inr e ↦ simp e refl
      ]

  peers-additions : additions (handle_raft_peers s.env codec r req h).1 ≡ additions h
  peers-additions =
      unfold handle_raft_peers in
      elim (Bool-cases r.started) [
        | inl e ↦ simp e (unfold additions in refl)
        | inr e ↦ simp e refl
      ]

  local-additions : additions (get_local_state s.env o h).1 ≡ additions h
  local-additions =
      unfold get_local_state in
      elim (Bool-cases o.config.standalone) [
        | inl e ↦ simp e (unfold additions in refl)
        | inr e ↦ simp e (
            resume-history (λ x. additions x ≡ additions h) (Client.get_replication_info s.env h).0
              _ (Client.get_replication_info s.env h).1 info
              (λ i. unfold Client.is_healthy in asked i))
      ]
    where
      info : additions (Client.get_replication_info s.env h).1 ≡ additions h
      info = rw (get_replication_info-history s.env h) (unfold additions in refl)

      asked :
          (i : ReplicationInfo)
          → additions (read_clock ∷ redis_ping ∷ (Client.get_replication_info s.env h).1)
            ≡ additions h
      asked i = unfold additions in info

  state-additions : additions (handle_state_request s encode_state o req h).1 ≡ additions h
  state-additions =
      unfold handle_state_request in
      resume-history (λ x. additions x ≡ additions h) (attempt (get_local_state s.env o) h).0 _
        (attempt (get_local_state s.env o) h).1 local-additions (λ _. local-additions)

  abbrev AllAdmit : Dict Handler → Type 0
  AllAdmit [] = Unit
  AllAdmit ((path, handler) ∷ table) = Admits handler × AllAdmit table

  AllAdmit-Admits :
      (path : Bytes) (table : Dict Handler)
      → AllAdmit table
      → Admits (serve_by s encode_state o (lookup path table))
  unfolding lookup
  AllAdmit-Admits path [] a = inl refl
  AllAdmit-Admits path ((own, handler) ∷ table) (p, a) = elim (Bool-cases (str_eq own path)) [
    | inl e ↦ rw e p
    | inr e ↦ rw e (AllAdmit-Admits path table a)
  ]

  adds :
      (suffrage : Suffrage)
      → Admits (guard s encode_state o now (handle_add s.env codec r suffrage))
  adds suffrage = guard-Admits _ (elim (handle_add-Adds s.env codec r suffrage req h) [
    | inl same ↦ inl same
    | inr a ↦ inr (suffrage, a)
  ])

  routes-AllAdmit :
      AllAdmit (raft_routes s encode_state o now (some (raft_endpoints s.env codec r)))
  routes-AllAdmit = (
    guard-Admits _ (inl status-additions),
    (adds voter, (adds nonvoter, (guard-Admits _ (inl peers-additions), tt))),
  )

  routed-Admits : Admits (
      serve_by s encode_state o (
        lookup req.url_path
          (setup_http_server s encode_state o now (some (raft_endpoints s.env codec r)))))
  routed-Admits =
      unfold setup_http_server in
      AllAdmit-Admits req.url_path _ (
        guard-Admits _ (inl state-additions),
        (
          inl refl,
          (elim (Bool-cases (str_eq o.config.election_mode election_mode_raft)) [
            | inl e ↦ simp e routes-AllAdmit
            | inr e ↦ simp e tt
          ]),
        ),
      )

  -- Whatever request reaches the server, it asks Raft for no member, or the request is valid, Raft
  -- said that this node leads, and the one member asked for is that of the request, which was not
  -- yet a member.
  pub serve-Adds :
      let h' = (serve s encode_state o (some (raft_endpoints s.env codec r)) now req h).1 in
      (additions h' ≡ additions h)
      ⊎ ((validate_request s.hmac s.authenticator now req ≡ ok tt)
          × ((suffrage : Suffrage) × Adds s.env codec r suffrage req h h'))
  serve-Adds =
      unfold serve in
      elim (Bool-cases (str_eq req.url_path (codes "*"))) [
        | inl star ↦ simp star (inl refl)
        | inr path ↦
            elim (Bool-cases
              (not (str_eq req.method (codes "CONNECT")) && not (is_clean req.url_path))) [
                | inl moves ↦ simp (path, moves) (inl refl)
                | inr stays ↦ simp (path, stays) routed-Admits
              ]
      ]
