-- ===== src/Rate/Limiter.antt =====
-- `RateLimiter::checkBucket`, `checkAndConsume`, `cleanup` and `getStats` of src/RateLimiter.cpp.
-- Each of them runs under the mutex `mutex_`, so a call is one step. The readings of the clock that a
-- call makes are an argument.
use strfry_http.Base.{
  ℕ, zero, suc, ◌+◌, ◌%◌, ◌≤◌, ◌<◌, ◌≡◌, Bool, true, false, not, ◌&&◌, ◌||◌, List, [], ◌∷◌, ◌++◌,
  Option, none, some, Bytes, codes, length, ltb, leb, ◌==◌, if◌then◌else◌,
}
use strfry_http.Rate.Lru.{LruBucketCache, find, write, get, insert, evict_oldest, size}
use strfry_http.Rate.Bucket.{Double, TokenBucket, Cache, token_bucket, consume, erase_stale}
pub mod Caches
pub mod Counters

abbrev pub u64 : ℕ → ℕ
u64 n = n % 18446744073709551616

abbrev pub is_empty : Bytes → Bool
is_empty s = length s == 0

pub record CheckResult : Type 0 where
  pub allowed : Bool
  pub reason : Bytes

abbrev pub passed : CheckResult
passed = record { allowed = true; reason = [] }

pub record Stats : Type 0 where
  pub total_requests : ℕ
  pub rate_limited_requests : ℕ
  pub ip_buckets : ℕ
  pub pubkey_buckets : ℕ

module _ (double : Double) where
  open double use {D, mul, div, of_nat}

  pub record Config : Type 0 where
    pub enabled : Bool
    pub per_ip_per_minute : ℕ
    pub per_pubkey_per_minute : ℕ
    pub global_per_minute : ℕ
    pub burst_multiplier : D
    pub cleanup_interval_seconds : ℕ
    pub max_ip_buckets : ℕ
    pub max_pubkey_buckets : ℕ
    pub stale_bucket_seconds : ℕ

  pub record RateLimiter : Type 0 where
    pub config : Config
    pub ip_cache : Cache double
    pub pubkey_cache : Cache double
    pub global_bucket : TokenBucket double
    pub total_requests : ℕ
    pub rate_limited_requests : ℕ

  abbrev pub capacity_of : Config → ℕ → D
  capacity_of c n = mul (of_nat n) c.burst_multiplier

  abbrev pub rate_of : ℕ → D
  rate_of n = div (of_nat n) (of_nat 60)

  -- The constructor, without the start of the clean-up thread.
  unfoldable pub rate_limiter : ℕ → Config → RateLimiter
  rate_limiter now c = record {
    config = c;
    ip_cache = record { lru_order = []; buckets = [] };
    pubkey_cache = record { lru_order = []; buckets = [] };
    global_bucket =
        token_bucket double now (capacity_of c c.global_per_minute) (rate_of c.global_per_minute);
    total_requests = 0;
    rate_limited_requests = 0;
  }

  -- The pointer that `checkBucket` works on: the bucket of the key, made where there is none.
  unfoldable pub bucket_for :
      ℕ → Bytes → D → D → ℕ → Cache double → TokenBucket double × Cache double
  bucket_for created key capacity refill_rate max_buckets c = elim (find key c.buckets) [
    | none ↦
        let room = if leb max_buckets (size c) then evict_oldest c else c in
        let fresh = token_bucket double created capacity refill_rate in
        (fresh, insert key fresh room)
    | some b ↦ (b, (get key c).1)
  ]

  -- `checkBucket`; a bucket that is made reads the clock first, and the consumption after it.
  unfoldable pub check_bucket :
      ℕ → ℕ → Bytes → D → D → Bytes → ℕ → Cache double → Bytes × Cache double
  check_bucket created now key capacity refill_rate limit_type max_buckets c =
      let (bucket, c') = bucket_for created key capacity refill_rate max_buckets c in
      let (taken, bucket') = consume double now (of_nat 1) bucket in
      (
        if taken then [] else codes "rate_limit_exceeded: " ++ limit_type,
        record c' { buckets = write key bucket' c'.buckets },
      )

  -- A refusal with its reason, counted.
  unfoldable pub refuse : Bytes → RateLimiter → CheckResult × RateLimiter
  refuse reason r = (
    record { allowed = false; reason = reason },
    record r { rate_limited_requests = u64 (r.rate_limited_requests + 1) },
  )

  -- The calls of `checkBucket` for the public key and for the address.
  unfoldable pub ask_pubkey : (ℕ → ℕ) → Bytes → RateLimiter → Bytes × Cache double
  ask_pubkey clock pubkey r =
      let limit = r.config.per_pubkey_per_minute in
      check_bucket (clock 3) (clock 4) pubkey (capacity_of r.config limit) (rate_of limit)
        (codes "per_pubkey") r.config.max_pubkey_buckets r.pubkey_cache

  unfoldable pub ask_ip : (ℕ → ℕ) → Bytes → RateLimiter → Bytes × Cache double
  ask_ip clock ip_address r =
      let limit = r.config.per_ip_per_minute in
      check_bucket (clock 1) (clock 2) ip_address (capacity_of r.config limit) (rate_of limit)
        (codes "per_ip") r.config.max_ip_buckets r.ip_cache

  -- The last part of `checkAndConsume`, on the public key.
  unfoldable pub check_pubkey : (ℕ → ℕ) → Bytes → RateLimiter → CheckResult × RateLimiter
  unfolding refuse
  check_pubkey clock pubkey r =
      let (reason, cache) = ask_pubkey clock pubkey r in
      let r' = record r { pubkey_cache = cache } in
      if ltb 0 r.config.per_pubkey_per_minute && not (is_empty pubkey)
      then if not (is_empty reason) then refuse reason r' else (passed, r')
      else (passed, r)

  -- The part on the address, and what follows it.
  unfoldable pub check_ip : (ℕ → ℕ) → Bytes → Bytes → RateLimiter → CheckResult × RateLimiter
  unfolding refuse
  check_ip clock ip_address pubkey r =
      let (reason, cache) = ask_ip clock ip_address r in
      let r' = record r { ip_cache = cache } in
      if ltb 0 r.config.per_ip_per_minute && not (is_empty ip_address)
      then if not (is_empty reason) then refuse reason r' else check_pubkey clock pubkey r'
      else check_pubkey clock pubkey r

  unfoldable pub check_and_consume :
      (ℕ → ℕ) → Bytes → Bytes → RateLimiter → CheckResult × RateLimiter
  unfolding refuse
  check_and_consume clock ip_address pubkey r =
      let counted = record r { total_requests = u64 (r.total_requests + 1) } in
      let (taken, bucket) = consume double (clock 0) (of_nat 1) counted.global_bucket in
      let paid = record counted { global_bucket = bucket } in
      if not r.config.enabled
      then (passed, r)
      else if ltb 0 r.config.global_per_minute
      then if not taken
        then refuse (codes "rate_limit_exceeded: global") paid
        else check_ip clock ip_address pubkey paid
      else check_ip clock ip_address pubkey counted

  -- `cleanup`, with the readings of the clock for either cache; the log line is left out.
  unfoldable pub cleanup : (ℕ → ℕ) → ℕ → (ℕ → ℕ) → ℕ → RateLimiter → RateLimiter
  cleanup ip_clock ip_now pubkey_clock pubkey_now r = record r {
    ip_cache = (erase_stale double ip_clock ip_now r.config.stale_bucket_seconds r.ip_cache).0;
    pubkey_cache =
        (erase_stale double pubkey_clock pubkey_now r.config.stale_bucket_seconds r.pubkey_cache).0;
  }

  unfoldable pub get_stats : RateLimiter → Stats
  get_stats r = record {
    total_requests = r.total_requests;
    rate_limited_requests = r.rate_limited_requests;
    ip_buckets = size r.ip_cache;
    pubkey_buckets = size r.pubkey_cache;
  }
