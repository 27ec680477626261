-- ===== src/Rate/Bucket.antt =====
-- `TokenBucket` of src/RateLimiter.h and `LRUBucketCache::eraseStale`. The `double`s of C++ and the
-- clock's durations are a parameter, with the few facts of IEEE comparison that are needed; a time is
-- a number of ticks of the steady clock, given to each call that reads it.
use strfry_http.Base.{
  ℕ, zero, suc, ◌+◌, ◌%◌, ◌≤◌, ◌<◌, ◌≡◌, Bool, true, false, not, ◌&&◌, List, [], ◌∷◌, Option, none,
  some, Bytes, length, if◌then◌else◌,
}
use strfry_http.Rate.Lru.{LruBucketCache, find, erase, write, back, pop_back}
pub mod Stale
pub mod Capacity

pub record Double : Type 1 where
  pub D : Type 0
  pub add : D → D → D
  pub sub : D → D → D
  pub mul : D → D → D
  pub div : D → D → D
  pub lt : D → D → Bool
  pub ge : D → D → Bool
  pub of_nat : ℕ → D
  pub staleness : D  -- the literal 0.95
  -- `duration<double>(later - earlier).count()`, of ticks
  pub seconds : ℕ → ℕ → D
  -- A comparison is not true in both directions, nor of a value and itself.
  pub lt_asym : (a b : D) → lt a b ≡ true → lt b a ≡ false
  pub lt_irrefl : (a : D) → lt a a ≡ false
  -- A duration that is not positive is not above a whole number.
  pub seconds_le :
      (later earlier n : ℕ) → later ≤ earlier → lt (of_nat n) (seconds later earlier) ≡ false

module _ (double : Double) where
  open double use {D, add, sub, mul, lt, ge, of_nat, staleness, seconds}

  pub record TokenBucket : Type 0 where
    pub tokens : D
    pub capacity : D
    pub refill_rate : D
    pub last_refill : ℕ
    pub request_count : ℕ  -- uint64

  -- The constructor, at the time `now`.
  unfoldable pub token_bucket : ℕ → D → D → TokenBucket
  token_bucket now cap rate = record {
    tokens = cap;
    capacity = cap;
    refill_rate = rate;
    last_refill = now;
    request_count = 0;
  }

  -- `std::min`
  unfoldable pub min_double : D → D → D
  min_double a b = if lt b a then b else a

  unfoldable pub refill : ℕ → TokenBucket → TokenBucket
  unfolding min_double
  refill now b = record b {
    tokens = min_double b.capacity (add b.tokens (mul (seconds now b.last_refill) b.refill_rate));
    last_refill = now;
  }

  -- `consume` with its result first.
  unfoldable pub consume : ℕ → D → TokenBucket → Bool × TokenBucket
  unfolding refill
  consume now amount b =
      let b' = refill now b in
      if ge b'.tokens amount
      then (
        true,
        record b' {
          tokens = sub b'.tokens amount;
          request_count = (b'.request_count + 1) % 18446744073709551616;
        },
      )
      else (false, b')

  abbrev pub Cache : Type 0
  Cache = LruBucketCache TokenBucket

  -- The test of the loop of `eraseStale` on a bucket that was refilled.
  unfoldable pub is_stale : ℕ → ℕ → TokenBucket → Bool
  is_stale now stale_seconds b =
      ge b.tokens (mul b.capacity staleness)
      && lt (of_nat stale_seconds) (seconds now b.last_refill)

  -- `eraseStale` and what it adds to `removedCount`. `now` is read once at the start, and the `i`-th
  -- refill reads the clock at `clock i`. The fuel is the length of the list: a round shortens it.
  unfoldable pub erase_stale_loop : (ℕ → ℕ) → ℕ → ℕ → ℕ → ℕ → ℕ → Cache → Cache × ℕ
  erase_stale_loop clock now stale_seconds zero i removed c = (c, removed)
  erase_stale_loop clock now stale_seconds (suc fuel) i removed c = elim (back c.lru_order) [
    | none ↦ (c, removed)
    | some key ↦ elim (find key c.buckets) [
      | none ↦
          erase_stale_loop clock now stale_seconds fuel i removed
            (record c { lru_order = pop_back c.lru_order })
      | some b ↦
          let b' = refill (clock i) b in
          let next =
            erase_stale_loop clock now stale_seconds fuel (i + 1) (removed + 1)
              (record { lru_order = pop_back c.lru_order; buckets = erase key c.buckets }) in
          if is_stale now stale_seconds b'
          then next
          else (record c { buckets = write key b' c.buckets }, removed)
    ]
  ]

  unfoldable pub erase_stale : (ℕ → ℕ) → ℕ → ℕ → Cache → Cache × ℕ
  erase_stale clock now stale_seconds c =
      erase_stale_loop clock now stale_seconds (length c.lru_order) 0 0 c
