-- ===== src/Http/Metrics/Totals.antt =====
-- The total of requests and the counts by method and status.
use strfry_http.Base.{ℕ, ◌+◌, ◌%◌, ◌≡◌, List, [], ◌∷◌, Bytes, arith}
use strfry_http.Http.Metrics.{
  HttpMetrics, RequestKey, count_request, increment_request_total, method_from_string,
}

abbrev pub sum_of : List (RequestKey × ℕ) → ℕ
sum_of [] = 0
sum_of ((k, n) ∷ counts) = n + sum_of counts

-- The counts by method and status add up to the total, modulo 2^64.
abbrev pub Agrees : HttpMetrics → Type 0
Agrees m = m.total_requests ≡ sum_of m.request_counts % 18446744073709551616

sum_of-count_request :
    (key : RequestKey) (counts : List (RequestKey × ℕ))
    → sum_of (count_request key counts) % 18446744073709551616
      ≡ (sum_of counts + 1) % 18446744073709551616
unfolding count_request
sum_of-count_request key [] = omega arith
sum_of-count_request key ((k, n) ∷ counts) = ground (arith, sum_of-count_request key counts)

-- Counting a request keeps the total equal to the sum of the counts by method and status, modulo
-- 2^64.
pub increment_request_total-Agrees :
    (method : Bytes) (status_code : ℕ) (m : HttpMetrics)
    → Agrees m
    → Agrees (increment_request_total method status_code m)
unfolding increment_request_total
increment_request_total-Agrees method status_code m h = omega (
  arith,
  h,
  sum_of-count_request (record { method = method_from_string method; status_code = status_code })
      m.request_counts,
)
