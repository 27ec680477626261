-- ===== src/Rate/Limiter/Caches.antt =====
-- The caches of the limiter stay consistent and within their bounds.
use strfry_http.Base.{
  ℕ, ◌+◌, ◌≤◌, ◌<◌, ◌≡◌, none, Bytes, if◌then◌else◌, if_both, ltb, leb, arith, Bool-cases,
  Option-cases, inl, inr, not, ◌&&◌, codes,
}
use strfry_http.Rate.Lru.{LruBucketCache, find, get, evict_oldest, size, touch}
use strfry_http.Rate.Lru.Invariant.{
  IsConsistent, touch-IsConsistent, insert-IsConsistent, evict_oldest-IsConsistent,
  write-IsConsistent, length-write, find-evict_oldest, size-insert, get-touch,
}
use strfry_http.Rate.Bucket.{Double, TokenBucket, Cache, consume, token_bucket}
use strfry_http.Rate.Limiter.{
  CheckResult, RateLimiter, ask_ip, ask_pubkey, u64, bucket_for, check_bucket, check_pubkey,
  check_ip, check_and_consume, refuse, is_empty, passed,
}

size-touch :
    {B : Type 0} (key : Bytes) (c : LruBucketCache B) (n : ℕ) → size c ≤ n → size (touch key c) ≤ n
unfolding touch size
size-touch key c n h = h

module _ (double : Double) where
  -- A consistent cache of no more than `n` buckets.
  pub record Fits (n : ℕ) (c : Cache double) : Type 0 where
    pub consistent : IsConsistent c
    pub bounded : size c ≤ n

  -- Before an insertion there is room for a bucket.
  room-Fits :
      (key : Bytes) (n : ℕ) (c : Cache double)
      → 0 < n
      → Fits n c
      → find key c.buckets ≡ none
      → let room = if leb n (size c) then evict_oldest c else c in
        IsConsistent room × (find key room.buckets ≡ none) × (size room < n)
  room-Fits key n c pos h absent = elim (Bool-cases (leb n (size c))) [
    | inl full ↦
        let (kept, less) = evict_oldest-IsConsistent c h.consistent in
        rw full (kept, find-evict_oldest key c absent, omega (arith, h.bounded))
    | inr some_room ↦ rw some_room (h.consistent, absent, ground (arith, h.bounded, some_room))
  ]

  bucket_for-Fits :
      (created : ℕ) (key : Bytes) (cap rate : double.D) (n : ℕ) (c : Cache double)
      → 0 < n
      → Fits n c
      → Fits n (bucket_for double created key cap rate n c).1
  unfolding bucket_for get
  bucket_for-Fits created key cap rate n c pos h = elim (Option-cases (find key c.buckets)) [
    | inl absent ↦
        let (kept, still, small) = room-Fits key n c pos h absent in
        let fresh = token_bucket double created cap rate in
        rw (absent, bucket_for)
          (record {
            consistent = insert-IsConsistent _ kept key fresh still;
            bounded =
                rw (size-insert key fresh (if leb n (size c) then evict_oldest c else c) still)
                  (omega (arith, small));
          })
    | inr (b, found) ↦
        rw (found, bucket_for, get-touch c h.consistent key b found)
          (record {
            consistent = touch-IsConsistent c h.consistent key found;
            bounded = size-touch key c n h.bounded;
          })
  ]

  check_bucket-Fits :
      (created now : ℕ) (key : Bytes) (cap rate : double.D) (label : Bytes) (n : ℕ)
      (c : Cache double)
      → 0 < n
      → Fits n c
      → Fits n (check_bucket double created now key cap rate label n c).1
  unfolding check_bucket size
  check_bucket-Fits created now key cap rate label n c pos h =
      let h' = bucket_for-Fits created key cap rate n c pos h in
      record {
        consistent = write-IsConsistent _ h'.consistent key _;
        bounded = rw (length-write) h'.bounded;
      }

  -- Both caches fit, and neither bound is 0.
  pub record IsValid (r : RateLimiter double) : Type 0 where
    pub ips : Fits r.config.max_ip_buckets r.ip_cache
    pub pubkeys : Fits r.config.max_pubkey_buckets r.pubkey_cache
    pub room_for_ip : 0 < r.config.max_ip_buckets
    pub room_for_pubkey : 0 < r.config.max_pubkey_buckets

  record Valid (out : CheckResult × RateLimiter double) : Type 0 where
    kept : IsValid out.1

  with_pubkeys :
      (clock : ℕ → ℕ) (pubkey : Bytes) (r : RateLimiter double)
      → IsValid r
      → IsValid (record r { pubkey_cache = (ask_pubkey double clock pubkey r).1 })
  unfolding ask_pubkey
  with_pubkeys clock pubkey r h =
      let cache =
        check_bucket-Fits (clock 3) (clock 4) pubkey _ _ (codes "per_pubkey")
          r.config.max_pubkey_buckets r.pubkey_cache h.room_for_pubkey h.pubkeys in
      record {
        ips = h.ips;
        pubkeys = cache;
        room_for_ip = h.room_for_ip;
        room_for_pubkey = h.room_for_pubkey;
      }

  with_ips :
      (clock : ℕ → ℕ) (ip : Bytes) (r : RateLimiter double)
      → IsValid r
      → IsValid (record r { ip_cache = (ask_ip double clock ip r).1 })
  unfolding ask_ip
  with_ips clock ip r h =
      let cache =
        check_bucket-Fits (clock 1) (clock 2) ip _ _ (codes "per_ip") r.config.max_ip_buckets
          r.ip_cache h.room_for_ip h.ips in
      record {
        ips = cache;
        pubkeys = h.pubkeys;
        room_for_ip = h.room_for_ip;
        room_for_pubkey = h.room_for_pubkey;
      }

  refuse-IsValid :
      (reason : Bytes) (r : RateLimiter double) → IsValid r → Valid (refuse double reason r)
  unfolding refuse
  refuse-IsValid reason r h = record {
    kept = record {
      ips = h.ips;
      pubkeys = h.pubkeys;
      room_for_ip = h.room_for_ip;
      room_for_pubkey = h.room_for_pubkey;
    };
  }

  check_pubkey-IsValid :
      (clock : ℕ → ℕ) (pubkey : Bytes) (r : RateLimiter double)
      → IsValid r
      → Valid (check_pubkey double clock pubkey r)
  unfolding check_pubkey
  check_pubkey-IsValid clock pubkey r h =
      let h' = with_pubkeys clock pubkey r h in
      let (reason, cache) = ask_pubkey double clock pubkey r in
      if_both Valid (ltb 0 r.config.per_pubkey_per_minute && not (is_empty pubkey)) _ (passed, r)
        (if_both Valid (not (is_empty reason)) _ (passed, record r { pubkey_cache = cache })
          (refuse-IsValid reason _ h') (record { kept = h' }))
        (record { kept = h })

  check_ip-IsValid :
      (clock : ℕ → ℕ) (ip pubkey : Bytes) (r : RateLimiter double)
      → IsValid r
      → Valid (check_ip double clock ip pubkey r)
  unfolding check_ip
  check_ip-IsValid clock ip pubkey r h =
      let h' = with_ips clock ip r h in
      let (reason, cache) = ask_ip double clock ip r in
      if_both Valid (ltb 0 r.config.per_ip_per_minute && not (is_empty ip)) _ _
        (if_both Valid (not (is_empty reason)) _ _ (refuse-IsValid reason _ h')
          (check_pubkey-IsValid clock pubkey _ h'))
        (check_pubkey-IsValid clock pubkey r h)

  same_caches :
      (r : RateLimiter double) (total : ℕ) (bucket : TokenBucket double)
      → IsValid r
      → IsValid (record r { total_requests = total; global_bucket = bucket })
  same_caches r total bucket h = record {
    ips = h.ips;
    pubkeys = h.pubkeys;
    room_for_ip = h.room_for_ip;
    room_for_pubkey = h.room_for_pubkey;
  }

  check_and_consume-Valid :
      (clock : ℕ → ℕ) (ip pubkey : Bytes) (r : RateLimiter double)
      → IsValid r
      → Valid (check_and_consume double clock ip pubkey r)
  unfolding check_and_consume
  check_and_consume-Valid clock ip pubkey r h =
      let total = u64 (r.total_requests + 1) in
      let bucket = (consume double (clock 0) (double.of_nat 1) r.global_bucket).1 in
      let counted = same_caches r total r.global_bucket h in
      let paid = same_caches r total bucket h in
      let taken = (consume double (clock 0) (double.of_nat 1) r.global_bucket).0 in
      if_both Valid (not r.config.enabled) (passed, r) _ (record { kept = h })
        (if_both Valid (ltb 0 r.config.global_per_minute) _ _
          (if_both Valid (not taken) _ _
            (refuse-IsValid (codes "rate_limit_exceeded: global") _ paid)
            (check_ip-IsValid clock ip pubkey _ paid))
          (check_ip-IsValid clock ip pubkey _ counted))

  -- Every request keeps both caches consistent, with their lists and maps agreeing, and within their
  -- configured bounds, if these are not 0.
  pub check_and_consume-IsValid :
      (clock : ℕ → ℕ) (ip pubkey : Bytes) (r : RateLimiter double)
      → IsValid r
      → IsValid (check_and_consume double clock ip pubkey r).1
  check_and_consume-IsValid clock ip pubkey r h = (check_and_consume-Valid clock ip pubkey r h).kept
