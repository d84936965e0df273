-- ===== src/Auth/Laws.antt =====
-- Signed requests validate within the window, and what a valid request proves.
use mathlib.Core.Bool.{false≢true}
use redis_orchestrator.Base.{
  ◌⊎◌, ℕ, ◌+◌, ◌^◌, ◌≤◌, ◌<◌, true, false, [], ◌≡◌, ◌≢◌, ◌↔◌, refl, sym, ap, ◌∙◌, arith, none, some,
  if◌then◌else◌, Bool-cases, inl, inr,
}
use redis_orchestrator.Base.Text.{Bytes, str_eq, str_eq_iff, str_eq_refl}
use redis_orchestrator.Base.Decimal.{two_63, two_64, format_int, parse_int}
use redis_orchestrator.Base.Decimal.Laws.{parse_int-format_int}
use redis_orchestrator.Base.Dict.{lookup-insert}
use redis_orchestrator.Outcome.{Outcome-cases, ok, panic}
use redis_orchestrator.Effects.{HttpRequest, HttpResponse, M, History}
use redis_orchestrator.Auth.Window.{outside_window-exact, skew-le, wrapped}
use redis_orchestrator.Auth.{
  header_timestamp, header_signature, Authenticator, get_header, set_header, skew, outside_window,
  generate_signature, sign_request, check_timestamp, validate_request, unauthorized, middleware,
}

get_header-set_header :
    (k j v : Bytes) (req : HttpRequest)
    → get_header j (set_header k v req) ≡ (if str_eq k j then v else get_header j req)
get_header-set_header k j v req =
    unfold get_header set_header in ground (arith, lookup-insert k j v req.headers)

module _ (hmac : Bytes → Bytes → Bytes) (a : Authenticator) where
  -- With a secret and a timestamp that parses, only the window and the signature decide.
  validate_parsed :
      (now : ℕ) (req : HttpRequest) {timestamp : ℕ}
      → a.shared_secret ≢ []
      → parse_int (get_header header_timestamp req) ≡ some timestamp
      → validate_request hmac a now req ≡ check_timestamp hmac a now req timestamp
  validate_parsed now req {timestamp} s p =
      unfold validate_request in
      elim (Bool-cases (str_eq a.shared_secret [])) [
        | inl e ↦ absurd (s ((str_eq_iff _ _).0 e))
        | inr e ↦ elim (Bool-cases (str_eq (get_header header_timestamp req) [])) [
          | inl n ↦ absurd (
              no_number
                (sym (ap parse_int ((str_eq_iff (get_header header_timestamp req) []).0 n)) ∙ p))
          | inr n ↦ simp (e, n, p)
        ]
      ]
    where
      no_number : parse_int [] ≡ some timestamp → ⊥
      no_number q = unfold parse_int in ground arith

  check_iff :
      (now : ℕ) (req : HttpRequest) (timestamp : ℕ)
      → (check_timestamp hmac a now req timestamp ≡ ok tt) ↔ (
          (outside_window (skew now timestamp) ≡ false)
          × (generate_signature hmac a req.method req.url_path timestamp
              ≡ get_header header_signature req))
  check_iff now req timestamp =
      unfold check_timestamp in
      ground (
        arith,
        str_eq_iff (generate_signature hmac a req.method req.url_path timestamp)
            (get_header header_signature req),
      )

  -- With a secret configured and a timestamp header that parses, at times below nine billion
  -- seconds, a request is valid exactly if its time is at most 30 seconds from the clock's, either
  -- way, and its signature header is the signature of its method, its path and its time.
  pub validate_request_iff :
      (now timestamp : ℕ) (req : HttpRequest)
      → a.shared_secret ≢ []
      → parse_int (get_header header_timestamp req) ≡ some timestamp
      → now < 9000000000
      → timestamp < 9000000000
      → (validate_request hmac a now req ≡ ok tt) ↔ (
          (now ≤ timestamp + 30)
          × (timestamp ≤ now + 30)
          × (generate_signature hmac a req.method req.url_path timestamp
              ≡ get_header header_signature req))
  validate_request_iff now timestamp req s p hn ht =
      let near = skew-le now timestamp 30 (omega arith) (omega arith) in
      let wide =
        (skew-le now timestamp 8999999999 (omega arith) (omega arith)).1
          (omega arith, omega arith) in
      let exact = outside_window-exact (skew now timestamp) (omega arith) in
      let both = check_iff now req timestamp in
      rw (validate_parsed now req s p) (
        (λ v. let (w, g) = both.0 v in ((near.0 (exact.0 w)).0, (near.0 (exact.0 w)).1, g)),
        (λ (n, t, g). both.1 (exact.1 (near.1 (n, t)), g)),
      )

  -- With a secret configured, a request whose timestamp header is missing or no int64 is refused.
  pub validate_request-unparsed :
      (now : ℕ) (req : HttpRequest)
      → a.shared_secret ≢ []
      → parse_int (get_header header_timestamp req) ≡ none
      → validate_request hmac a now req ≢ ok tt
  validate_request-unparsed now req s p =
      unfold validate_request in
      elim (Bool-cases (str_eq a.shared_secret [])) [
        | inl e ↦ absurd (s ((str_eq_iff _ _).0 e))
        | inr e ↦ elim (Bool-cases (str_eq (get_header header_timestamp req) [])) [
          | inl n ↦ simp (e, n) (λ q. cc)
          | inr n ↦ simp (e, n, p) (λ q. cc)
        ]
      ]

  headers_differ : str_eq header_signature header_timestamp ≡ false
  unfolding str_eq
  headers_differ = refl

  headers_same : str_eq header_signature header_signature ≡ true
  headers_same = str_eq_refl header_signature

  -- The request with both headers set.
  abbrev stamped : ℕ → HttpRequest → HttpRequest
  stamped now req = set_header header_timestamp (format_int now) req

  abbrev signed : ℕ → HttpRequest → HttpRequest
  signed now req =
      set_header header_signature (generate_signature hmac a req.method req.url_path now)
        (stamped now req)

  sign_request-signed :
      (now : ℕ) (req : HttpRequest)
      → a.shared_secret ≢ []
      → sign_request hmac a now req ≡ signed now req
  sign_request-signed now req s =
      unfold sign_request in
      elim (Bool-cases (str_eq a.shared_secret [])) [
        | inl e ↦ absurd (s ((str_eq_iff _ _).0 e))
        | inr e ↦ simp e (unfold set_header in refl)
      ]

  signed-timestamp :
      (now : ℕ) (req : HttpRequest) → get_header header_timestamp (signed now req) ≡ format_int now
  signed-timestamp now req =
      rw
        (get_header-set_header, headers_differ, get_header-set_header, str_eq_refl header_timestamp)

  signed-signature :
      (now : ℕ) (req : HttpRequest)
      → generate_signature hmac a (signed now req).method (signed now req).url_path now
        ≡ get_header header_signature (signed now req)
  signed-signature now req = rw (get_header-set_header, headers_same) (unfold set_header in refl)

  -- A signed request whose time the validator takes to be within the window.
  signed_valid :
      (now later : ℕ) (req : HttpRequest)
      → now < two_64
      → outside_window (skew later now) ≡ false
      → validate_request hmac a later (sign_request hmac a now req) ≡ ok tt
  signed_valid now later req h w = elim (Bool-cases (str_eq a.shared_secret [])) [
    | inl e ↦ unfold validate_request in simp e
    | inr e ↦
        let s : a.shared_secret ≢ [] =
          λ q. false≢true (sym e ∙ (str_eq_iff a.shared_secret []).1 q) in
        let parsed = ap parse_int (signed-timestamp now req) ∙ parse_int-format_int now h in
        rw (sign_request-signed now req s) (
          validate_parsed later (signed now req) s parsed
          ∙ (check_iff later (signed now req) now).1 (w, signed-signature now req))
  ]

  -- A request signed at one time is valid at every time up to 30 seconds before or after, for a
  -- validator with the same secret, whatever the request and its earlier headers are.
  pub validate_request-sign_request :
      (now later : ℕ) (req : HttpRequest)
      → now < two_63
      → later < two_63
      → now ≤ later + 30
      → later ≤ now + 30
      → validate_request hmac a later (sign_request hmac a now req) ≡ ok tt
  validate_request-sign_request now later req hn hl p q =
      let near = (skew-le later now 30 hl hn).1 (q, p) in
      signed_valid now later req (omega arith)
        ((outside_window-exact (skew later now) (omega arith)).1 near)

  -- The window is computed in int64 nanoseconds, which wrap: a request signed 2 ^ 55 seconds ahead
  -- of the validator's clock, more than a billion years, is valid.
  pub validate_request-wraps :
      (now : ℕ) (req : HttpRequest)
      → now < 9000000000
      → validate_request hmac a now (sign_request hmac a (now + 2 ^ 55) req) ≡ ok tt
  validate_request-wraps now req h =
      signed_valid (now + 2 ^ 55) now req (omega arith) (wrapped now h)

  validate_request-ends : (now : ℕ) (req : HttpRequest) → validate_request hmac a now req ≢ panic
  validate_request-ends now req = unfold validate_request check_timestamp in ground arith

  -- A handler behind the middleware runs exactly if the request is valid: otherwise the answer is
  -- the status 401, and the history is as it was.
  pub middleware_lem :
      (next : HttpRequest → M HttpResponse) (now : ℕ) (req : HttpRequest) (h : History)
      → ((validate_request hmac a now req ≡ ok tt)
          × (middleware hmac a next now req h ≡ next req h))
        ⊎ ((validate_request hmac a now req ≢ ok tt)
            × (middleware hmac a next now req h ≡ (ok unauthorized, h)))
  middleware_lem next now req h =
      unfold middleware in
      elim (Outcome-cases (validate_request hmac a now req)) [
        | inl (_, e) ↦ inl (e, rw e)
        | inr (inl (x, e)) ↦ inr (rw e (λ q. cc), rw e)
        | inr (inr e) ↦ absurd (validate_request-ends now req e)
      ]
