-- ===== src/Tests/Auth.antt =====
-- Signed requests with a small signature function.
use redis_orchestrator.Base.{
  ◌+◌, ◌^◌, ◌≤◌, [], ◌∷◌, ◌++◌, ◌≡◌, ◌≢◌, ◌↔◌, ◌⊎◌, refl, arith, none, some,
}
use redis_orchestrator.Base.Text.{Bytes, codes, str_eq}
use redis_orchestrator.Base.Decimal.{parse_int}
use redis_orchestrator.Outcome.{ok}
use redis_orchestrator.Effects.{HttpRequest, HttpResponse, M, pure}
use redis_orchestrator.Auth.{
  Authenticator, new_authenticator, header_timestamp, get_header, generate_signature, sign_request,
  validate_request, unauthorized, middleware, header_signature,
}
use redis_orchestrator.Auth.Laws.{
  validate_request_iff, validate_request-sign_request, validate_request-wraps, middleware_lem,
}

abbrev pub joined : Bytes → Bytes → Bytes
joined secret text = secret ++ text

abbrev pub keeper : Authenticator
keeper = new_authenticator (codes "secret")

abbrev pub asking : HttpRequest
asking = record {
  method = codes "GET";
  url_host = codes "10.0.0.2:8080";
  url_path = codes "/state";
  headers = [];
  body = [];
}

abbrev stamped : HttpRequest
stamped = record asking { headers = (header_timestamp, codes "1000") ∷ [] }

abbrev answering : HttpRequest → M HttpResponse
answering req = pure (record { status_code = 200; body = codes "OK" })

pub keeper_secret : keeper.shared_secret ≢ []
keeper_secret e = cc

stamped_parses : parse_int (get_header header_timestamp stamped) ≡ some 1000
unfolding parse_int get_header str_eq
stamped_parses = refl

pub asking_unparsed : parse_int (get_header header_timestamp asking) ≡ none
unfolding parse_int get_header
asking_unparsed = refl

validate_request_iff_example : (validate_request joined keeper 1020 stamped ≡ ok tt) ↔ (
    (1020 ≤ 1000 + 30)
    × (1000 ≤ 1020 + 30)
    × (generate_signature joined keeper stamped.method stamped.url_path 1000
        ≡ get_header header_signature stamped))
validate_request_iff_example =
    validate_request_iff joined keeper 1020 1000 stamped keeper_secret stamped_parses (omega arith)
      (omega arith)

validate_request-sign_request_example :
    validate_request joined keeper 1020 (sign_request joined keeper 1000 asking) ≡ ok tt
validate_request-sign_request_example =
    validate_request-sign_request joined keeper 1000 1020 asking (omega arith) (omega arith)
      (omega arith) (omega arith)

validate_request-wraps_example :
    validate_request joined keeper 1000 (sign_request joined keeper (1000 + 2 ^ 55) asking) ≡ ok tt
validate_request-wraps_example = validate_request-wraps joined keeper 1000 asking (omega arith)

middleware_lem_example :
    ((validate_request joined keeper 1020 stamped ≡ ok tt)
      × (middleware joined keeper answering 1020 stamped [] ≡ answering stamped []))
    ⊎ ((validate_request joined keeper 1020 stamped ≢ ok tt)
        × (middleware joined keeper answering 1020 stamped [] ≡ (ok unauthorized, [])))
middleware_lem_example = middleware_lem joined keeper answering 1020 stamped []
