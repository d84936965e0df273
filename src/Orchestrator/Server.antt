-- ===== src/Orchestrator/Server.antt =====
-- The HTTP server of the process: `setupHTTPServer`, `handleStateRequest`, `handleHealthRequest`.
-- The multiplexer of net/http redirects a path that is not clean to the clean one, unless the method
-- is CONNECT, answers a clean path of the table with its handler, and any other with 404; the texts
-- of its own answers but the last are left out. The encoder of encoding/json is a parameter.
pub mod Laws
pub mod Raft
use redis_orchestrator.Base.{
  ℕ, List, [], ◌∷◌, ◌++◌, Option, none, some, Bool, true, false, not, ◌&&◌, ◌||◌, ◌==◌,
  if◌then◌else◌,
}
use redis_orchestrator.Base.Text.{Bytes, codes, str_eq}
use redis_orchestrator.Base.Dict.{Dict, lookup}
use redis_orchestrator.Config.{election_mode_raft}
use redis_orchestrator.State.{PodState}
use redis_orchestrator.Effects.{HttpRequest, HttpResponse, M, pure, attempt, ◌>>=◌}
use redis_orchestrator.Auth.{middleware}
use redis_orchestrator.Orchestrator.{Orchestrator}
use redis_orchestrator.Orchestrator.Peers.{Setting, get_local_state}

abbrev pub Handler : Type 0
Handler = HttpRequest → M HttpResponse

-- What `setupHTTPServer` asks of a Raft strategy.
pub record RaftEndpoints : Type 0 where
  pub handle_raft_status : Handler
  pub handle_add_voter : Handler
  pub handle_add_nonvoter : Handler
  pub handle_raft_peers : Handler

abbrev pub handle_health_request : Handler
handle_health_request req = pure (record { status_code = 200; body = codes "OK" })

abbrev pub not_found : HttpResponse
not_found = record { status_code = 404; body = codes "404 page not found\n" }

abbrev pub moved_permanently : HttpResponse
moved_permanently = record { status_code = 301; body = [] }

abbrev pub bad_request : HttpResponse
bad_request = record { status_code = 400; body = [] }

-- A path is clean if it is rooted, and no part of it is empty, but perhaps the last, or a dot or
-- two; with the part that is read so far.
abbrev is_dots : Bytes → Bool
is_dots part = str_eq part (codes ".") || str_eq part (codes "..")

unfoldable pub are_clean : Bytes → Bytes → Bool
are_clean part [] = not (is_dots part)
are_clean part (c ∷ path) = elim (c == b'/') [
  | true ↦ not (str_eq part []) && (not (is_dots part) && are_clean [] path)
  | false ↦ are_clean (part ++ c ∷ []) path
]

-- `cleanPath(path) == path`
unfoldable pub is_clean : Bytes → Bool
unfolding are_clean
is_clean [] = false
is_clean (c ∷ path) = c == b'/' && are_clean [] path

module _ (s : Setting) (encode_state : PodState → Bytes) (o : Orchestrator) where
  abbrev state_response : Option PodState → HttpResponse
  state_response none = record { status_code = 500; body = codes "Failed to get state\n" }
  state_response (some st) = record { status_code = 200; body = encode_state st }

  unfoldable pub handle_state_request : Handler
  handle_state_request req = do st ← attempt (get_local_state s.env o); pure (state_response st)

  -- `authenticator.Middleware(handler)`, with the clock's value.
  abbrev pub guard : ℕ → Handler → Handler
  guard now handler = middleware s.hmac s.authenticator handler now

  -- A strategy may have no Raft endpoints.
  abbrev raft_routes : ℕ → Option RaftEndpoints → Dict Handler
  raft_routes now none = []
  raft_routes now (some raft) =
      (codes "/raft/status", guard now raft.handle_raft_status)
      ∷ (codes "/raft/add-voter", guard now raft.handle_add_voter)
      ∷ (codes "/raft/add-nonvoter", guard now raft.handle_add_nonvoter)
      ∷ (codes "/raft/peers", guard now raft.handle_raft_peers)
      ∷ []

  unfoldable pub setup_http_server : ℕ → Option RaftEndpoints → Dict Handler
  setup_http_server now raft =
      (codes "/state", guard now handle_state_request)
      ∷ (codes "/health", handle_health_request)
      ∷ (if str_eq o.config.election_mode election_mode_raft then raft_routes now raft else [])

  abbrev pub serve_by : Option Handler → Handler
  serve_by none req = pure not_found
  serve_by (some handler) req = handler req

  -- One request at the server, at a clock's value in seconds.
  unfoldable pub serve : Option RaftEndpoints → ℕ → Handler
  serve raft now req =
      if str_eq req.url_path (codes "*")
      then pure bad_request
      else if not (str_eq req.method (codes "CONNECT")) && not (is_clean req.url_path)
      then pure moved_permanently
      else serve_by (lookup req.url_path (setup_http_server now raft)) req
