-- ===== src/Http/Routing/Requests.antt =====
-- How the pre-routing handler keeps count of the active requests, and when it answers itself.
use strfry_http.Base.{
  ◌+◌, ◌<◌, ◌≡◌, Bool, true, false, not, ◌&&◌, Bytes, Option, none, some, if◌then◌else◌, bytes_eq,
  codes, arith, Option-cases, inl, inr,
}
use strfry_http.Http.Client.{Request, get_client_ip, extract_pubkey_from_request}
use strfry_http.Http.Metrics.{
  increment_request_total, increment_rate_limit_hits, increment_rate_limit_blocks, plus,
}
use strfry_http.Http.Routing.{
  Settings, Decision, Server, Handled, handled, unhandled, decrement_active_requests,
  increment_active_requests, count_total, refuse_request, is_limited, limit_request, route_request,
  pre_routing,
}

abbrev pub is_handled : Handled → Bool
is_handled (handled status retry content) = true
is_handled unhandled = false

module _ {ℓ} {L : Type ℓ} (check_and_consume : Bytes → Bytes → L → Decision L) where
  -- Whether the handler answers a request itself: a preflight request, or one that is refused.
  abbrev pub refuses : Settings → Request → Option L → Bool
  refuses settings req none = false
  refuses settings req (some limiter) =
      not
        (check_and_consume (get_client_ip settings.trust_proxy req)
          (extract_pubkey_from_request req) limiter).allowed

  abbrev pub answers_itself : Settings → Bytes → Request → Server L → Bool
  answers_itself settings path req s =
      let refused = is_limited path && refuses settings req s.rate_limiter in
      if bytes_eq req.method (codes "OPTIONS") && settings.enable_cors then true else refused

  pub record Keeps (itself : Bool) (s : Server L) (out : Handled × Server L) : Type ℓ where
    pub answered : is_handled out.0 ≡ itself
    pub active :
        out.1.active_requests ≡ (if itself then s.active_requests else s.active_requests + 1)
    pub requests :
        out.1.metrics.total_requests
        ≡ (if itself then plus s.metrics.total_requests 1 else s.metrics.total_requests)

  -- With fewer than 2^31 - 1 active requests, the handler answers a request itself exactly if it is a preflight request under CORS, or the
  -- limiter is there, is asked about the path, and refuses. Then the request is counted among the
  -- totals and no longer among the active ones; otherwise it is counted among the active ones only.
  pub pre_routing-Keeps :
      (settings : Settings) (req_id path : Bytes) (req : Request) (s : Server L)
      → s.active_requests < 2147483647
      → Keeps
          (answers_itself settings path req s)
          s
          (pre_routing check_and_consume settings req_id path req s).1
  unfolding pre_routing route_request limit_request refuse_request decrement_active_requests
      increment_active_requests count_total increment_request_total increment_rate_limit_hits
      increment_rate_limit_blocks
  pre_routing-Keeps settings req_id path req s few = elim (Option-cases s.rate_limiter) [
    | inl missing ↦ record {
      answered = ground (arith, missing);
      active = ground (arith, missing, few);
      requests = ground (arith, missing);
    }
    | inr (limiter, there) ↦ record {
      answered = ground (arith, there);
      active = ground (arith, there, few);
      requests = ground (arith, there);
    }
  ]
