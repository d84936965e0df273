-- ===== src/Auth.antt =====
-- pkg/auth/auth.go: signed requests. HMAC-SHA256 is a parameter, any function of the secret and
-- the message; `hmac.Equal` compares its arguments. A time is its `Unix()` value, an int64.
pub mod Laws
pub mod Window
use redis_orchestrator.Base.{
  ℕ, ◌+◌, ◌-◌, ◌*◌, ◌/◌, ◌%◌, ◌^◌, Bool, true, false, not, ◌&&◌, List, [], ◌∷◌, ◌++◌, Option, none,
  some, ltb, leb, if◌then◌else◌,
}
use redis_orchestrator.Base.Text.{Bytes, codes, str_eq}
use redis_orchestrator.Base.Decimal.{two_63, two_64, format_int, parse_int}
use redis_orchestrator.Base.Dict.{Dict, lookup, insert}
use redis_orchestrator.Outcome.{Outcome, external, message, wrap, ok, err, panic}
use redis_orchestrator.Effects.{HttpRequest, HttpResponse, M, pure, lift}

abbrev pub header_timestamp : Bytes
header_timestamp = codes "X-Orchestrator-Timestamp"

abbrev pub header_signature : Bytes
header_signature = codes "X-Orchestrator-Signature"

-- `time.Second` and `MaxClockSkew`, in nanoseconds.
abbrev pub second : ℕ
second = 1000000000

abbrev pub max_clock_skew : ℕ
max_clock_skew = 30 * second

pub record Authenticator : Type 0 where
  pub shared_secret : Bytes

abbrev pub new_authenticator : Bytes → Authenticator
new_authenticator shared_secret = record { shared_secret = shared_secret }

-- `req.Header.Get(key)`: a missing header reads as the empty string.
abbrev text_or_empty : Option Bytes → Bytes
text_or_empty none = []
text_or_empty (some value) = value

unfoldable pub get_header : Bytes → HttpRequest → Bytes
unfolding lookup
get_header key req = text_or_empty (lookup key req.headers)

-- `req.Header.Set(key, value)`
unfoldable pub set_header : Bytes → Bytes → HttpRequest → HttpRequest
unfolding insert
set_header key value req = record req { headers = insert key value req.headers }

abbrev hex_digit : ℕ → ℕ
hex_digit n = if ltb n 10 then b'0' + n else b'a' + (n - 10)

unfoldable pub hex_encode : Bytes → Bytes
hex_encode [] = []
hex_encode (c ∷ s) = hex_digit (c / 16) ∷ hex_digit (c % 16) ∷ hex_encode s

-- `fmt.Sprintf("%s:%s:%d", method, path, timestamp)`
unfoldable pub signed_message : Bytes → Bytes → ℕ → Bytes
unfolding format_int
signed_message method path timestamp = method ++ (b':' ∷ (path ++ (b':' ∷ format_int timestamp)))

-- The distance of two int64 times: a difference that wraps, and a negation that wraps.
unfoldable pub skew : ℕ → ℕ → ℕ
skew now timestamp =
    let diff = (now + two_64 - timestamp) % two_64 in
    if leb two_63 diff then (two_64 - diff) % two_64 else diff

-- `time.Duration(diff)*time.Second > MaxClockSkew`, on int64.
unfoldable pub outside_window : ℕ → Bool
outside_window diff =
    let duration = (diff * second) % two_64 in ltb duration two_63 && ltb max_clock_skew duration

-- `http.Error(w, …, http.StatusUnauthorized)`, without the text of the error.
abbrev pub unauthorized : HttpResponse
unauthorized = record { status_code = 401; body = codes "Authentication failed" }

abbrev guarded : Outcome (Unit {0}) → M HttpResponse → M HttpResponse
guarded (ok _) next = next
guarded (err _) next = pure unauthorized
guarded panic next = lift panic

module _ (hmac : Bytes → Bytes → Bytes) (a : Authenticator) where
  unfoldable pub generate_signature : Bytes → Bytes → ℕ → Bytes
  unfolding hex_encode signed_message
  generate_signature method path timestamp =
      hex_encode (hmac a.shared_secret (signed_message method path timestamp))

  -- The clock's value is an argument.
  unfoldable pub sign_request : ℕ → HttpRequest → HttpRequest
  sign_request now req =
      if str_eq a.shared_secret []
      then req
      else (let stamped = set_header header_timestamp (format_int now) req in
          set_header header_signature (generate_signature stamped.method stamped.url_path now)
            stamped)

  -- The end of `ValidateRequest`, with the parsed timestamp.
  unfoldable pub check_timestamp : ℕ → HttpRequest → ℕ → Outcome (Unit {0})
  unfolding outside_window skew generate_signature get_header str_eq
  check_timestamp now req timestamp =
      if outside_window (skew now timestamp)
      then err (message (codes "timestamp outside allowed window"))
      else if not (
          str_eq (generate_signature req.method req.url_path timestamp)
            (get_header header_signature req))
      then err (message (codes "invalid signature"))
      else ok tt

  abbrev pub with_timestamp : ℕ → HttpRequest → Option ℕ → Outcome (Unit {0})
  with_timestamp now req none = err (wrap (codes "invalid timestamp") external)
  with_timestamp now req (some timestamp) = check_timestamp now req timestamp

  unfoldable pub validate_request : ℕ → HttpRequest → Outcome (Unit {0})
  unfolding check_timestamp get_header parse_int str_eq
  validate_request now req =
      if str_eq a.shared_secret []
      then ok tt
      else if str_eq (get_header header_timestamp req) []
      then err (message (codes "missing timestamp header"))
      else with_timestamp now req (parse_int (get_header header_timestamp req))

  -- `Middleware`: the handler runs behind a valid request only. The clock is read per request.
  unfoldable pub middleware : (HttpRequest → M HttpResponse) → ℕ → HttpRequest → M HttpResponse
  middleware next now req = guarded (validate_request now req) (next req)
