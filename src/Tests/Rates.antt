-- ===== src/Tests/Rates.antt =====
-- A limiter on small numbers.
use strfry_http.Base.{ℕ, ◌+◌, ◌≡◌, ◌⊎◌, refl, true, false, [], ◌∷◌, codes, arith}
use strfry_http.Rate.Lru.{size}
use strfry_http.Rate.Lru.Invariant.{IsConsistent, keys}
use strfry_http.Rate.Bucket.{TokenBucket, Cache, refill, erase_stale}
use strfry_http.Rate.Bucket.Stale.{erase_stale-keeps}
use strfry_http.Rate.Bucket.Capacity.{refill-le-capacity}
use strfry_http.Rate.Limiter.{Config, RateLimiter, check_and_consume, passed, u64}
use strfry_http.Rate.Limiter.Caches.{IsValid, Fits, check_and_consume-IsValid}
use strfry_http.Rate.Limiter.Counters.{
  Answers, first_reason, refused_globally, refused_ip, refused_pubkey, check_and_consume-Answers,
}
use strfry_http.Tests.Instances.{whole_tokens}

abbrev settings : Config whole_tokens
settings = record {
  enabled = true;
  per_ip_per_minute = 60;
  per_pubkey_per_minute = 100;
  global_per_minute = 1000;
  burst_multiplier = 2;
  cleanup_interval_seconds = 60;
  max_ip_buckets = 2;
  max_pubkey_buckets = 2;
  stale_bucket_seconds = 60;
}

abbrev no_buckets : Cache whole_tokens
no_buckets = record { lru_order = []; buckets = [] }

abbrev fresh_bucket : TokenBucket whole_tokens
fresh_bucket = record {
  tokens = 4;
  capacity = 4;
  refill_rate = 1;
  last_refill = 10;
  request_count = 0;
}

abbrev started : RateLimiter whole_tokens
started = record {
  config = settings;
  ip_cache = no_buckets;
  pubkey_cache = no_buckets;
  global_bucket = fresh_bucket;
  total_requests = 0;
  rate_limited_requests = 0;
}

abbrev clock : ℕ → ℕ
clock i = 20 + i

no_buckets-IsConsistent : IsConsistent no_buckets
no_buckets-IsConsistent = record { same = λ _. refl; once = λ _. omega arith; sizes = refl }

no_buckets-Fits : Fits whole_tokens 2 no_buckets
unfolding size
no_buckets-Fits = record { consistent = no_buckets-IsConsistent; bounded = omega arith }

check_and_consume-IsValid_example :
    IsValid whole_tokens
      (check_and_consume whole_tokens clock (codes "10.0.0.1") (codes "ab") started).1
check_and_consume-IsValid_example =
    check_and_consume-IsValid whole_tokens clock (codes "10.0.0.1") (codes "ab") started (record {
      ips = no_buckets-Fits;
      pubkeys = no_buckets-Fits;
      room_for_ip = omega arith;
      room_for_pubkey = omega arith;
    })

check_and_consume-Answers_example :
    ((started.config.enabled ≡ false)
      × (check_and_consume whole_tokens clock (codes "10.0.0.1") [] started ≡ (passed, started)))
    ⊎ ((started.config.enabled ≡ true)
        × Answers whole_tokens
            (first_reason whole_tokens (refused_globally whole_tokens (clock 0) started) (
              first_reason whole_tokens
                (refused_ip whole_tokens clock (codes "10.0.0.1") started)
                (refused_pubkey whole_tokens clock [] started)))
            (record started { total_requests = u64 1 })
            (check_and_consume whole_tokens clock (codes "10.0.0.1") [] started))
check_and_consume-Answers_example =
    check_and_consume-Answers whole_tokens clock (codes "10.0.0.1") [] started

-- A cache with one bucket that was last used long ago.
abbrev old_cache : Cache whole_tokens
old_cache = record { lru_order = codes "a" ∷ []; buckets = (codes "a", fresh_bucket) ∷ [] }

old_cache-IsConsistent : IsConsistent old_cache
old_cache-IsConsistent = record { same = λ _. refl; once = λ o. ground arith; sizes = refl }

erase_stale-keeps_example :
    let r = erase_stale whole_tokens (λ i. 5000 + i) 5000 60 old_cache in
    (r.1 ≡ 0) × (r.0.lru_order ≡ old_cache.lru_order) × (keys r.0.buckets ≡ keys old_cache.buckets)
erase_stale-keeps_example =
    erase_stale-keeps whole_tokens (λ i. 5000 + i) 5000 60 old_cache old_cache-IsConsistent
      (omega arith)

refill-le-capacity_example :
    whole_tokens.lt fresh_bucket.capacity (refill whole_tokens 12 fresh_bucket).tokens ≡ false
refill-le-capacity_example = refill-le-capacity whole_tokens 12 fresh_bucket
