-- ===== src/Orchestrator/Server/Laws.antt =====
-- Which requests the server lets through, and a query of a peer that runs it.
use mathlib.Core.Path.{◌≡◌, refl, sym, ◌∙◌}
use redis_orchestrator.Base.{
  ℕ, ◌<◌, ◌≤◌, ◌+◌, ◌/◌, [], ◌∷◌, ◌≢◌, ◌⊎◌, inl, inr, Option, none, some, true, false, not, ◌&&◌,
  Bool-cases,
}
use redis_orchestrator.Base.Text.{Bytes, codes, str_eq, str_eq_iff, str_eq_refl}
use redis_orchestrator.Base.Decimal.{two_63}
use redis_orchestrator.Base.Dict.{Dict, lookup}
use redis_orchestrator.Config.{election_mode_raft}
use redis_orchestrator.State.{PodState}
use redis_orchestrator.Outcome.{Outcome, ok, err, panic}
use redis_orchestrator.Effects.{Env, HttpRequest, HttpResponse, History}
use redis_orchestrator.Auth.{
  middleware, set_header, validate_request, unauthorized, sign_request, second,
}
use redis_orchestrator.Auth.Laws.{middleware_lem, validate_request-sign_request}
use redis_orchestrator.Orchestrator.{Orchestrator}
use redis_orchestrator.Orchestrator.Peers.{
  Setting, get_local_state, query_peer, sign, state_request,
}
use redis_orchestrator.Orchestrator.Server.{
  Handler, RaftEndpoints, guard, not_found, moved_permanently, bad_request, is_clean, are_clean,
  handle_state_request, setup_http_server, serve_by, serve, raft_routes,
}

module _ (s : Setting) (encode_state : PodState → Bytes) (o : Orchestrator) (now : ℕ)
    (req : HttpRequest) (h : History)
    (invalid : validate_request s.hmac s.authenticator now req ≢ ok tt) where
  -- Refused: the history is as it was.
  abbrev pub Refuses : Handler → Type 0
  Refuses handler =
      (handler req h ≡ (ok unauthorized, h))
      ⊎ ((handler req h ≡ (ok not_found, h))
          ⊎ ((handler req h ≡ (ok moved_permanently, h)) ⊎ (handler req h ≡ (ok bad_request, h))))

  guard-Refuses : (handler : Handler) → Refuses (guard s encode_state o now handler)
  guard-Refuses handler = elim (middleware_lem s.hmac s.authenticator handler now req h) [
    | inl (valid, _) ↦ absurd (invalid valid)
    | inr (_, e) ↦ inl e
  ]

  -- A table all of whose handlers refuse, refuses.
  abbrev AllRefuse : Dict Handler → Type 0
  AllRefuse [] = Unit
  AllRefuse ((path, handler) ∷ table) = Refuses handler × AllRefuse table

  AllRefuse-Refuses :
      (path : Bytes) (table : Dict Handler)
      → AllRefuse table
      → Refuses (serve_by s encode_state o (lookup path table))
  unfolding lookup
  AllRefuse-Refuses path [] a = inr (inl refl)
  AllRefuse-Refuses path ((own, handler) ∷ table) (r, a) = elim (Bool-cases (str_eq own path)) [
    | inl e ↦ rw e r
    | inr e ↦ rw e (AllRefuse-Refuses path table a)
  ]

  raft_routes-AllRefuse :
      (raft : Option RaftEndpoints) → AllRefuse (raft_routes s encode_state o now raft)
  raft_routes-AllRefuse none = tt
  raft_routes-AllRefuse (some raft) = (
    guard-Refuses raft.handle_raft_status,
    (
      guard-Refuses raft.handle_add_voter,
      (guard-Refuses raft.handle_add_nonvoter, (guard-Refuses raft.handle_raft_peers, tt)),
    ),
  )

  routed-Refuses :
      (raft : Option RaftEndpoints)
      → req.url_path ≢ codes "/health"
      → Refuses (
          serve_by s encode_state o
            (lookup req.url_path (setup_http_server s encode_state o now raft)))
  routed-Refuses raft other =
      unfold setup_http_server lookup in
      elim (Bool-cases (str_eq (codes "/state") req.url_path)) [
        | inl e ↦ rw e (guard-Refuses (handle_state_request s encode_state o))
        | inr e ↦ elim (Bool-cases (str_eq (codes "/health") req.url_path)) [
          | inl q ↦ absurd (other (sym ((str_eq_iff (codes "/health") req.url_path).0 q)))
          | inr q ↦
              rw (e, q)
                (elim (Bool-cases (str_eq o.config.election_mode election_mode_raft)) [
                  | inl m ↦ rw m (AllRefuse-Refuses req.url_path _ (raft_routes-AllRefuse raft))
                  | inr m ↦ rw m (AllRefuse-Refuses req.url_path [] tt)
                ])
        ]
      ]

  -- A request that is not valid reaches no handler but the one for /health: on any other path,
  -- in any mode, the answer of the multiplexer is the status 401, 404, 301 or 400, and the history
  -- is as it was.
  pub serve-invalid :
      (raft : Option RaftEndpoints)
      → req.url_path ≢ codes "/health"
      → Refuses (serve s encode_state o raft now)
  serve-invalid raft other =
      unfold serve in
      elim (Bool-cases (str_eq req.url_path (codes "*"))) [
        | inl star ↦ simp star (inr (inr (inr refl)))
        | inr path ↦
            elim (Bool-cases
              (not (str_eq req.method (codes "CONNECT")) && not (is_clean req.url_path))) [
                | inl moves ↦ simp (path, moves) (inr (inr (inl refl)))
                | inr stays ↦ simp (path, stays) (routed-Refuses raft other)
              ]
      ]

-- The path /state is answered behind the middleware.
serve-state :
    (s : Setting) (encode_state : PodState → Bytes) (o : Orchestrator) (raft : Option RaftEndpoints)
    (now : ℕ) (req : HttpRequest) (h : History)
    → req.url_path ≡ codes "/state"
    → serve s encode_state o raft now req h
      ≡ middleware s.hmac s.authenticator (handle_state_request s encode_state o) now req h
serve-state s encode_state o raft now req h e =
    unfold serve setup_http_server lookup in
    elim (Bool-cases (str_eq req.method (codes "CONNECT"))) [
      | inl c ↦ simp (e, c, apart, clean, str_eq_refl (codes "/state")) refl
      | inr c ↦ simp (e, c, apart, clean, str_eq_refl (codes "/state")) refl
    ]
  where
    apart : str_eq (codes "/state") (codes "*") ≡ false
    apart = unfold str_eq in refl

    clean : is_clean (codes "/state") ≡ true
    clean = unfold is_clean are_clean str_eq in refl

-- What the transport hands back of a response.
abbrev pub answered : Outcome HttpResponse → Option HttpResponse
answered (ok response) = some response
answered (err e) = none
answered panic = none

module _ (s : Setting) (ip : Bytes) (h : History) where
  -- The request that `queryPeer` sends.
  abbrev signed : HttpRequest
  signed = sign_request s.hmac s.authenticator (s.env.read_clock h / second) (state_request s ip)

  sign-signed : (sign s (state_request s ip) h).0 ≡ ok signed
  sign-signed =
      unfold sign sign_request in
      elim (Bool-cases (str_eq s.authenticator.shared_secret [])) [
        | inl e ↦ simp e
        | inr e ↦ simp e
      ]

  signed-url_path : signed.url_path ≡ codes "/state"
  signed-url_path =
      unfold sign_request set_header in
      elim (Bool-cases (str_eq s.authenticator.shared_secret [])) [
        | inl e ↦ simp e
        | inr e ↦ simp e
      ]

  module _ (peer_env : Env) (encode_state : PodState → Bytes) (o : Orchestrator)
      (raft : Option RaftEndpoints) (later : ℕ) (peer_h : History) where
    -- The peer: another process with the same secret, in its own surroundings.
    abbrev pub peer : Setting
    peer = record s { env = peer_env }

    module _ (st : PodState) (h' : History) (clock : s.env.read_clock h / second < two_63)
        (peer_clock : later < two_63) (not_late : s.env.read_clock h / second ≤ later + 30)
        (not_early : later ≤ s.env.read_clock h / second + 30)
        (state : get_local_state peer_env o peer_h ≡ (ok st, h')) where
      serve-signed :
          serve peer encode_state o raft later signed peer_h
          ≡ (ok (record { status_code = 200; body = encode_state st }), h')
      serve-signed =
          serve-state peer encode_state o raft later signed peer_h signed-url_path
          ∙ elim (middleware_lem s.hmac s.authenticator (handle_state_request peer encode_state o)
              later signed peer_h) [
                | inl (_, e) ↦ e ∙ (unfold handle_state_request in rw state refl)
                | inr (refused, _) ↦ absurd (
                    refused (
                      validate_request-sign_request s.hmac s.authenticator
                        (s.env.read_clock h / second) later (state_request s ip) clock peer_clock
                        not_late not_early))
              ]

      -- A query of a peer that runs the server with the same secret gives the peer's own state:
      -- if the clocks differ by at most 30 seconds, the peer can read its state, the transport
      -- hands on the server's answer, and the decoder reads what the encoder wrote of that state.
      pub query_peer-serve :
          ((h : History) (req : HttpRequest)
            → s.env.http_do h req ≡ answered (serve peer encode_state o raft later req peer_h).0)
          → s.decode_state (encode_state st) ≡ some st
          → (query_peer s ip h).0 ≡ ok st
      query_peer-serve transport decodes =
          unfold query_peer in rw (sign-signed, transport, serve-signed, decodes) refl
