-- ===== src/Http/Metrics/Durations.antt =====
-- What the histograms of durations hold.
use strfry_http.Base.{
  ℕ, suc, ◌+◌, ◌%◌, ◌≡◌, refl, List, [], ◌∷◌, Bytes, leb, ◌==◌, if◌then◌else◌, arith, length,
  Bool-cases, inl, inr,
}
use strfry_http.Http.Metrics.{
  HttpMetrics, Endpoint, HistogramData, endpoint_number, endpoint_from_string, observe,
  observe_request_duration, reset,
}

-- The calls for an endpoint, the latest first.
abbrev pub observe_all : List (Bytes × ℕ) → HttpMetrics
unfolding reset
observe_all [] = reset
observe_all ((endpoint, duration) ∷ calls) =
    observe_request_duration endpoint duration (observe_all calls)

-- The durations observed for one endpoint.
abbrev pub durations_of : Endpoint → List (Bytes × ℕ) → List ℕ
durations_of e [] = []
durations_of e ((endpoint, duration) ∷ calls) =
    let rest = durations_of e calls in
    if endpoint_number e == endpoint_number (endpoint_from_string endpoint)
    then duration ∷ rest
    else rest

abbrev pub number_within : ℕ → List ℕ → ℕ
number_within bound [] = 0
number_within bound (d ∷ ds) =
    let rest = number_within bound ds in if leb d bound then suc rest else rest

abbrev pub total : List ℕ → ℕ
total [] = 0
total (d ∷ ds) = d + total ds

-- A histogram counts the durations `ds`, on 64 bits.
pub record Counts (ds : List ℕ) (h : HistogramData) : Type 0 where
  pub counted : h.count ≡ length ds % 18446744073709551616
  pub summed : h.sum ≡ total ds % 18446744073709551616
  pub within_10 : h.le_10 ≡ number_within 10 ds % 18446744073709551616
  pub within_50 : h.le_50 ≡ number_within 50 ds % 18446744073709551616
  pub within_100 : h.le_100 ≡ number_within 100 ds % 18446744073709551616
  pub within_500 : h.le_500 ≡ number_within 500 ds % 18446744073709551616
  pub within_1000 : h.le_1000 ≡ number_within 1000 ds % 18446744073709551616
  pub within_5000 : h.le_5000 ≡ number_within 5000 ds % 18446744073709551616

observe-Counts :
    (d : ℕ) (ds : List ℕ) (h : HistogramData) → Counts ds h → Counts (d ∷ ds) (observe d h)
unfolding observe
observe-Counts d ds h c = record {
  counted = omega (arith, c.counted);
  summed = omega (arith, c.summed);
  within_10 = ground (arith, c.within_10);
  within_50 = ground (arith, c.within_50);
  within_100 = ground (arith, c.within_100);
  within_500 = ground (arith, c.within_500);
  within_1000 = ground (arith, c.within_1000);
  within_5000 = ground (arith, c.within_5000);
}

-- After any sequence of calls of observeRequestDuration on fresh metrics, the histogram of each
-- endpoint holds the number and the sum of the durations observed for it, and in each bucket the
-- number of those within its bound, all modulo 2^64.
pub observe_request_duration-Counts :
    (calls : List (Bytes × ℕ)) (e : Endpoint)
    → Counts (durations_of e calls) ((observe_all calls).request_durations e)
unfolding observe_request_duration observe_all reset
observe_request_duration-Counts [] e = record {
  counted = refl;
  summed = refl;
  within_10 = refl;
  within_50 = refl;
  within_100 = refl;
  within_500 = refl;
  within_1000 = refl;
  within_5000 = refl;
}
observe_request_duration-Counts ((endpoint, d) ∷ calls) e =
    let before = observe_request_duration-Counts calls e in
    elim (Bool-cases (endpoint_number e == endpoint_number (endpoint_from_string endpoint))) [
      | inl same ↦ rw same (observe-Counts d (durations_of e calls) _ before)
      | inr other ↦ rw other before
    ]
