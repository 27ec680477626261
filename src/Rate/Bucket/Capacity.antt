-- ===== src/Rate/Bucket/Capacity.antt =====
-- The bound on the tokens of a bucket of src/RateLimiter.cpp.
use strfry_http.Base.{ℕ, ◌≡◌, false, Bool-cases, inl, inr}
use strfry_http.Rate.Bucket.{Double, TokenBucket, refill}

module _ (double : Double) where
  open double use {lt, lt_asym, lt_irrefl}

  -- A bucket that has been refilled, at any time and from any state, holds no more tokens than
  -- its capacity: the capacity is not below them.
  pub refill-le-capacity :
      (now : ℕ) (b : TokenBucket double) → lt b.capacity (refill double now b).tokens ≡ false
  unfolding refill
  refill-le-capacity now b =
      elim (Bool-cases (
        lt (double.add b.tokens (double.mul (double.seconds now b.last_refill) b.refill_rate))
          b.capacity)) [
            | inl below ↦ rw below (lt_asym _ _ below)
            | inr above ↦ rw above (lt_irrefl b.capacity)
          ]
