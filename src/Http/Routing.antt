-- ===== src/Http/Routing.antt =====
-- The handlers around the routes, in `HttpServer::setupRoutes` of src/HttpServer.cpp: the
-- pre-routing handler and `decrementActiveRequests`. The rate limiter, which may be missing, is an
-- interface: what checkAndConsume answers, and the limiter after it. The id of a request is given,
-- and logging is left out; the request is the one of `Client` with its path.
use strfry_http.Base.{
  ℕ, ◌+◌, ◌-◌, ◌%◌, Bool, true, false, not, ◌&&◌, ◌||◌, Bytes, List, [], ◌∷◌, ◌++◌, Option, none,
  some, ◌==◌, if◌then◌else◌, bytes_eq, codes,
}
use strfry_http.Base.Json.{Json, object, member, done, boolean, string}
use strfry_http.Http.Client.{Request, get_client_ip, extract_pubkey_from_request}
use strfry_http.Http.Metrics.{
  HttpMetrics, increment_request_total, increment_rate_limit_hits, increment_rate_limit_blocks,
}
pub mod Requests

-- What the handler reads of the configuration.
pub record Settings : Type 0 where
  pub enable_cors : Bool
  pub cors_origin : Bytes
  pub trust_proxy : Bool

pub record Decision {ℓ} (L : Type ℓ) : Type ℓ where
  pub allowed : Bool
  pub reason : Bytes
  pub limiter : L

pub record Server {ℓ} (L : Type ℓ) : Type ℓ where
  pub active_requests : ℕ
  pub shutting_down : Bool
  pub notified : Bool
  pub metrics : HttpMetrics
  pub rate_limiter : Option L

-- A response that the handler gives itself, or none.
pub data Handled : Type 0 where
  handled : (status : ℕ) → (retry_after : Option Bytes) → (content : Option Json) → Handled
  unhandled : Handled

-- Whether a path is one that the limiter is asked about.
unfoldable pub is_limited : Bytes → Bool
is_limited path = not (bytes_eq path (codes "/health")) && not (bytes_eq path (codes "/metrics"))

-- The headers that every response gets.
unfoldable pub setup_cors_headers : Settings → List (Bytes × Bytes)
setup_cors_headers settings =
    if settings.enable_cors
    then (codes "Access-Control-Allow-Origin", settings.cors_origin)
      ∷ (codes "Access-Control-Allow-Methods", codes "POST, GET, OPTIONS")
      ∷ (codes "Access-Control-Allow-Headers", codes "Content-Type")
      ∷ []
    else []

unfoldable pub setup_security_headers : List (Bytes × Bytes)
setup_security_headers =
    (codes "X-Content-Type-Options", codes "nosniff")
    ∷ (codes "X-Frame-Options", codes "DENY")
    ∷ (codes "Content-Security-Policy", codes "default-src 'none'; frame-ancestors 'none'")
    ∷ (codes "X-XSS-Protection", codes "1; mode=block")
    ∷ (codes "Referrer-Policy", codes "no-referrer")
    ∷ []

module _ {ℓ} {L : Type ℓ} where
  -- `activeRequests_` is an `int`: a decrement of 0, which would leave it negative, is
  -- 4294967295 here.
  unfoldable pub decrement_active_requests : Server L → Server L
  decrement_active_requests s = record s {
    active_requests = (s.active_requests + 4294967295) % 4294967296;
    notified = s.notified || (s.active_requests == 1 && s.shutting_down);
  }

  unfoldable pub increment_active_requests : Server L → Server L
  increment_active_requests s = record s { active_requests = (s.active_requests + 1) % 4294967296 }

  unfoldable pub count_total : Bytes → ℕ → Server L → Server L
  count_total method status s = record s {
    metrics = increment_request_total method status s.metrics;
  }

  -- A request that the limiter refuses.
  unfoldable pub refuse_request : Bytes → Bytes → Server L → Handled × Server L
  refuse_request method reason s =
      let blocked = record s { metrics = increment_rate_limit_blocks s.metrics } in
      (
        handled 429 (some (codes "60")) (
            some (
              object (
                member (codes "ok") (boolean false)
                  (member (codes "message") (string reason) done)))),
        decrement_active_requests (count_total method 429 blocked),
      )

  module _ (check_and_consume : Bytes → Bytes → L → Decision L) where
    -- The check of the rate limit.
    unfoldable pub limit_request : Bytes → Request → L → Server L → Handled × Server L
    limit_request client_ip req limiter s =
        let decision = check_and_consume client_ip (extract_pubkey_from_request req) limiter in
        let asked = record s {
          metrics = increment_rate_limit_hits s.metrics;
          rate_limiter = some decision.limiter;
        } in
        if not decision.allowed
        then refuse_request req.method decision.reason asked
        else (unhandled, asked)

    -- What the handler does behind the headers.
    unfoldable pub route_request : Settings → Bytes → Request → Server L → Handled × Server L
    route_request settings path req server =
        let s = increment_active_requests server in
        let limited : Handled × Server L = elim s.rate_limiter [
          | none ↦ (unhandled, s)
          | some limiter ↦ limit_request (get_client_ip settings.trust_proxy req) req limiter s
        ] in
        if bytes_eq req.method (codes "OPTIONS") && settings.enable_cors
        then (
          handled 200 none none,
          decrement_active_requests (count_total (codes "OPTIONS") 200 s),
        )
        else if is_limited path
        then limited
        else (unhandled, s)

    unfoldable pub pre_routing :
        Settings → Bytes → Bytes → Request → Server L → List (Bytes × Bytes) × (Handled × Server L)
    pre_routing settings req_id path req server = (
      (codes "X-Request-ID", req_id) ∷ setup_cors_headers settings ++ setup_security_headers,
      route_request settings path req server,
    )
