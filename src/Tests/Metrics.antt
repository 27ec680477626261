-- ===== src/Tests/Metrics.antt =====
-- Counters after some requests.
use strfry_http.Base.{refl, [], ◌∷◌, codes, Bytes, List, ℕ}
use strfry_http.Http.Metrics.{api_query, increment_request_total, reset}
use strfry_http.Http.Metrics.Durations.{
  Counts, observe_all, durations_of, observe_request_duration-Counts,
}
use strfry_http.Http.Metrics.Totals.{Agrees, increment_request_total-Agrees}

abbrev calls : List (Bytes × ℕ)
calls = (codes "/api/query", 70) ∷ (codes "/health", 3) ∷ (codes "/api/query", 9) ∷ []

observe_request_duration-Counts_example :
    Counts (durations_of api_query calls) ((observe_all calls).request_durations api_query)
observe_request_duration-Counts_example = observe_request_duration-Counts calls api_query

reset-Agrees : Agrees reset
unfolding reset
reset-Agrees = refl

increment_request_total-Agrees_example : Agrees (increment_request_total (codes "GET") 200 reset)
increment_request_total-Agrees_example =
    increment_request_total-Agrees (codes "GET") 200 reset reset-Agrees
