-- ===== src/Http/Metrics.antt =====
-- src/HttpMetrics.h: the counters of the HTTP interface, 64-bit numbers, in the state that the mutex
-- guards and the atomics beside it. A map holds a key once; one that is missing reads as all zero.
use strfry_http.Base.{
  ℕ, ◌+◌, ◌%◌, Bool, true, false, ◌&&◌, List, [], ◌∷◌, Bytes, leb, ◌==◌, if◌then◌else◌, bytes_eq,
  codes,
}
pub mod Durations
pub mod Totals

pub data Method : Type 0 where
  get post options other_method : Method

pub data Endpoint : Type 0 where
  api_quotes api_query health metrics other_endpoint : Endpoint

unfoldable pub method_from_string : Bytes → Method
method_from_string method =
    if bytes_eq method (codes "GET")
    then get
    else if bytes_eq method (codes "POST")
    then post
    else if bytes_eq method (codes "OPTIONS")
    then options
    else other_method

unfoldable pub method_to_string : Method → Bytes
method_to_string get = codes "GET"
method_to_string post = codes "POST"
method_to_string options = codes "OPTIONS"
method_to_string other_method = codes "OTHER"

unfoldable pub endpoint_from_string : Bytes → Endpoint
endpoint_from_string endpoint =
    if bytes_eq endpoint (codes "/api/quotes")
    then api_quotes
    else if bytes_eq endpoint (codes "/api/query")
    then api_query
    else if bytes_eq endpoint (codes "/health")
    then health
    else if bytes_eq endpoint (codes "/metrics")
    then metrics
    else other_endpoint

unfoldable pub endpoint_to_string : Endpoint → Bytes
endpoint_to_string api_quotes = codes "/api/quotes"
endpoint_to_string api_query = codes "/api/query"
endpoint_to_string health = codes "/health"
endpoint_to_string metrics = codes "/metrics"
endpoint_to_string other_endpoint = codes "/other"

-- The numbers of the enumerators.
abbrev pub method_number : Method → ℕ
method_number get = 0
method_number post = 1
method_number options = 2
method_number other_method = 3

abbrev pub endpoint_number : Endpoint → ℕ
endpoint_number api_quotes = 0
endpoint_number api_query = 1
endpoint_number health = 2
endpoint_number metrics = 3
endpoint_number other_endpoint = 4

pub record RequestKey : Type 0 where
  pub method : Method
  pub status_code : ℕ

pub record HistogramData : Type 0 where
  pub count : ℕ
  pub sum : ℕ
  pub le_10 : ℕ
  pub le_50 : ℕ
  pub le_100 : ℕ
  pub le_500 : ℕ
  pub le_1000 : ℕ
  pub le_5000 : ℕ

pub record SummaryData : Type 0 where
  pub count : ℕ
  pub sum : ℕ

pub record HttpMetrics : Type 0 where
  pub request_counts : List (RequestKey × ℕ)
  pub request_durations : Endpoint → HistogramData
  pub total_requests : ℕ
  pub query_result_counts : SummaryData
  pub rate_limit_hits : ℕ
  pub rate_limit_blocks : ℕ
  pub events_accepted : ℕ
  pub events_rejected : ℕ

abbrev pub no_durations : HistogramData
no_durations = record {
  count = 0;
  sum = 0;
  le_10 = 0;
  le_50 = 0;
  le_100 = 0;
  le_500 = 0;
  le_1000 = 0;
  le_5000 = 0;
}

-- The constructor resets.
unfoldable pub reset : HttpMetrics
reset = record {
  request_counts = [];
  request_durations = λ e. no_durations;
  total_requests = 0;
  query_result_counts = record { count = 0; sum = 0 };
  rate_limit_hits = 0;
  rate_limit_blocks = 0;
  events_accepted = 0;
  events_rejected = 0;
}

-- Addition on 64 bits.
abbrev pub plus : ℕ → ℕ → ℕ
plus a b = (a + b) % 18446744073709551616

abbrev pub same_key : RequestKey → RequestKey → Bool
same_key a b = method_number a.method == method_number b.method && a.status_code == b.status_code

-- `requestCounts_[key]++`: a key that is new starts from 0.
unfoldable pub count_request : RequestKey → List (RequestKey × ℕ) → List (RequestKey × ℕ)
count_request key [] = (key, 1) ∷ []
count_request key ((k, n) ∷ counts) =
    let rest = (k, n) ∷ count_request key counts in
    if same_key k key then (k, plus n 1) ∷ counts else rest

unfoldable pub increment_request_total : Bytes → ℕ → HttpMetrics → HttpMetrics
increment_request_total method status_code m = record m {
  request_counts =
      count_request (record { method = method_from_string method; status_code = status_code })
        m.request_counts;
  total_requests = plus m.total_requests 1;
}

-- `if (durationMs <= bound) bucket++;`
abbrev pub bump : ℕ → ℕ → ℕ → ℕ
bump bound duration n = if leb duration bound then plus n 1 else n

unfoldable pub observe : ℕ → HistogramData → HistogramData
observe duration hist = record {
  count = plus hist.count 1;
  sum = plus hist.sum duration;
  le_10 = bump 10 duration hist.le_10;
  le_50 = bump 50 duration hist.le_50;
  le_100 = bump 100 duration hist.le_100;
  le_500 = bump 500 duration hist.le_500;
  le_1000 = bump 1000 duration hist.le_1000;
  le_5000 = bump 5000 duration hist.le_5000;
}

unfoldable pub observe_request_duration : Bytes → ℕ → HttpMetrics → HttpMetrics
observe_request_duration endpoint duration m = record m {
  request_durations = λ e.
      if endpoint_number e == endpoint_number (endpoint_from_string endpoint)
      then observe duration (m.request_durations e)
      else m.request_durations e;
}

unfoldable pub increment_rate_limit_hits : HttpMetrics → HttpMetrics
increment_rate_limit_hits m = record m { rate_limit_hits = plus m.rate_limit_hits 1 }

unfoldable pub increment_rate_limit_blocks : HttpMetrics → HttpMetrics
increment_rate_limit_blocks m = record m { rate_limit_blocks = plus m.rate_limit_blocks 1 }

unfoldable pub increment_events_accepted : HttpMetrics → HttpMetrics
increment_events_accepted m = record m { events_accepted = plus m.events_accepted 1 }

unfoldable pub increment_events_rejected : HttpMetrics → HttpMetrics
increment_events_rejected m = record m { events_rejected = plus m.events_rejected 1 }

unfoldable pub observe_query_results : ℕ → HttpMetrics → HttpMetrics
observe_query_results result_count m = record m {
  query_result_counts = record {
    count = plus m.query_result_counts.count 1;
    sum = plus m.query_result_counts.sum result_count;
  };
}
