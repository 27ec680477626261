-- ===== src/Rate/Bucket/Stale.antt =====
-- The clean-up of stale buckets.
use strfry_http.Base.{ℕ, zero, suc, ◌≤◌, ◌≡◌, refl, false, length, arith, Option-cases, inl, inr}
use strfry_http.Rate.Lru.{back}
use strfry_http.Rate.Lru.Invariant.{IsConsistent, keys, keys-write, find-back}
use strfry_http.Rate.Bucket.{
  Double, TokenBucket, Cache, refill, is_stale, erase_stale_loop, erase_stale,
}

module _ (double : Double) where
  -- A refill at or after `now` leaves no time since the refill.
  is_stale-refill :
      (t now stale_seconds : ℕ) (b : TokenBucket double)
      → now ≤ t
      → is_stale double now stale_seconds (refill double t b) ≡ false
  unfolding is_stale refill
  is_stale-refill t now n b h = rw (double.seconds_le now t n h) (ground arith)

  erase_stale_loop-keeps :
      (clock : ℕ → ℕ) (now stale_seconds fuel removed : ℕ) (c : Cache double)
      → IsConsistent c
      → now ≤ clock 0
      → let r = erase_stale_loop double clock now stale_seconds fuel 0 removed c in
        (r.1 ≡ removed) × (r.0.lru_order ≡ c.lru_order) × (keys r.0.buckets ≡ keys c.buckets)
  unfolding erase_stale_loop
  erase_stale_loop-keeps clock now n zero removed c h le = (refl, refl, refl)
  erase_stale_loop-keeps clock now n (suc fuel) removed c h le =
      elim (Option-cases (back c.lru_order)) [
        | inl e ↦ rw (e, erase_stale_loop) (refl, refl, refl)
        | inr (key, e) ↦
            let (b, found) = find-back c h key e in
            rw (e, erase_stale_loop, found, is_stale-refill (clock 0) now n b le)
              (refl, refl, keys-write key (refill double (clock 0) b) c.buckets)
      ]

  -- The clean-up removes no bucket: on a cache whose list and map agree, with a clock that does not
  -- run backwards, the count of removed buckets is 0 and the list of keys and the keys of the map are
  -- unchanged, however old the buckets are.
  pub erase_stale-keeps :
      (clock : ℕ → ℕ) (now stale_seconds : ℕ) (c : Cache double)
      → IsConsistent c
      → now ≤ clock 0
      → let r = erase_stale double clock now stale_seconds c in
        (r.1 ≡ 0) × (r.0.lru_order ≡ c.lru_order) × (keys r.0.buckets ≡ keys c.buckets)
  unfolding erase_stale
  erase_stale-keeps clock now n c h le =
      erase_stale_loop-keeps clock now n (length c.lru_order) 0 c h le
