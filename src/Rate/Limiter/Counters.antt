-- ===== src/Rate/Limiter/Counters.antt =====
-- What a request is answered, and what it does to the counters.
use strfry_http.Base.{
  ℕ, ◌+◌, ◌≡◌, ◌∙◌, ◌⊎◌, refl, sym, ap, subst₂, inl, inr, Bool, true, false, not, ◌&&◌, [], ◌++◌,
  none, some, Bytes, codes, ltb, if◌then◌else◌, arith, Bool-cases, Option-cases,
}
use strfry_http.Rate.Lru.{find}
use strfry_http.Rate.Bucket.{Double, TokenBucket, Cache, token_bucket, refill, consume}
use strfry_http.Rate.Limiter.{
  Config, CheckResult, RateLimiter, capacity_of, rate_of, bucket_for, check_bucket, ask_ip,
  ask_pubkey, check_pubkey, check_ip, check_and_consume, refuse, u64, passed, is_empty,
}

module _ (double : Double) where
  -- The bucket holds a token at the time `now`.
  abbrev pub has_token : ℕ → TokenBucket double → Bool
  has_token now b = double.ge (refill double now b).tokens (double.of_nat 1)

  -- The bucket of a key, full where there is none yet.
  abbrev pub held : ℕ → Bytes → ℕ → Config double → Cache double → TokenBucket double
  held created key limit config c = elim (find key c.buckets) [
    | none ↦ token_bucket double created (capacity_of double config limit) (rate_of double limit)
    | some b ↦ b
  ]

  -- The reason for which a key is refused, empty if it is not: there is a limit, the key is not
  -- empty, and its bucket holds no token.
  abbrev pub refused_for : ℕ → ℕ → Bytes → ℕ → Bytes → Config double → Cache double → Bytes
  refused_for created now key limit limit_type config c =
      if ltb 0 limit && not (is_empty key)
      then (if has_token now (held created key limit config c)
          then []
          else codes "rate_limit_exceeded: " ++ limit_type)
      else []

  abbrev pub refused_globally : ℕ → RateLimiter double → Bytes
  refused_globally now r =
      if ltb 0 r.config.global_per_minute && not (has_token now r.global_bucket)
      then codes "rate_limit_exceeded: global"
      else []

  abbrev pub first_reason : Bytes → Bytes → Bytes
  first_reason a b = if is_empty a then b else a

  abbrev pub refused_pubkey : (ℕ → ℕ) → Bytes → RateLimiter double → Bytes
  refused_pubkey clock pubkey r =
      refused_for (clock 3) (clock 4) pubkey r.config.per_pubkey_per_minute (codes "per_pubkey")
        r.config r.pubkey_cache

  abbrev pub refused_ip : (ℕ → ℕ) → Bytes → RateLimiter double → Bytes
  refused_ip clock ip r =
      refused_for (clock 1) (clock 2) ip r.config.per_ip_per_minute (codes "per_ip") r.config
        r.ip_cache

  -- The answer `out` on a limiter `r` whose totals were counted, for the reason `why`: with no reason
  -- it is an acceptance, which is not counted as limited, and else a refusal with the reason, which
  -- is; nothing else of the counters changes.
  pub record Answers (why : Bytes) (r : RateLimiter double) (out : CheckResult × RateLimiter double)
      : Type 0 where
    pub reason : out.0.reason ≡ why
    pub allowed : out.0.allowed ≡ is_empty why
    pub total : out.1.total_requests ≡ r.total_requests
    pub config : out.1.config ≡ r.config
    pub limited :
        out.1.rate_limited_requests
        ≡ (if is_empty why then r.rate_limited_requests else u64 (r.rate_limited_requests + 1))

  check_bucket-reason :
      (created now : ℕ) (key : Bytes) (limit : ℕ) (limit_type : Bytes) (max : ℕ)
      (config : Config double) (c : Cache double)
      → (check_bucket double created now key
          (capacity_of double config limit)
          (rate_of double limit)
          limit_type
          max
          c).0
        ≡ (if has_token now (held created key limit config c)
            then []
            else codes "rate_limit_exceeded: " ++ limit_type)
  unfolding check_bucket bucket_for consume
  check_bucket-reason created now key limit limit_type max config c =
      elim (Option-cases (find key c.buckets)) [
        | inl absent ↦ ground (arith, absent)
        | inr (b, there) ↦ ground (arith, there)
      ]

  pubkey_reason :
      (clock : ℕ → ℕ) (pubkey : Bytes) (r : RateLimiter double)
      → (ask_pubkey double clock pubkey r).0 ≡ (
          if has_token
            (clock 4)
            (held (clock 3) pubkey r.config.per_pubkey_per_minute r.config r.pubkey_cache)
          then []
          else codes "rate_limit_exceeded: per_pubkey")
  unfolding ask_pubkey
  pubkey_reason clock pubkey r =
      check_bucket-reason (clock 3) (clock 4) pubkey r.config.per_pubkey_per_minute
        (codes "per_pubkey") r.config.max_pubkey_buckets r.config r.pubkey_cache

  ip_reason :
      (clock : ℕ → ℕ) (ip : Bytes) (r : RateLimiter double)
      → (ask_ip double clock ip r).0 ≡ (
          if has_token (clock 2) (held (clock 1) ip r.config.per_ip_per_minute r.config r.ip_cache)
          then []
          else codes "rate_limit_exceeded: per_ip")
  unfolding ask_ip
  ip_reason clock ip r =
      check_bucket-reason (clock 1) (clock 2) ip r.config.per_ip_per_minute (codes "per_ip")
        r.config.max_ip_buckets r.config r.ip_cache

  check_pubkey-Answers :
      (clock : ℕ → ℕ) (pubkey : Bytes) (r : RateLimiter double)
      → Answers (refused_pubkey clock pubkey r) r (check_pubkey double clock pubkey r)
  unfolding check_pubkey refuse
  check_pubkey-Answers clock pubkey r =
      let b = held (clock 3) pubkey r.config.per_pubkey_per_minute r.config r.pubkey_cache in
      let e = pubkey_reason clock pubkey r in
      elim (Bool-cases (ltb 0 r.config.per_pubkey_per_minute && not (is_empty pubkey))) [
        | inr unlimited ↦
            rw (check_pubkey, unlimited)
              (record {
                reason = refl;
                allowed = refl;
                total = refl;
                config = refl;
                limited = refl;
              })
        | inl limited ↦ elim (Bool-cases (has_token (clock 4) b)) [
          | inl full ↦
              let e' : (ask_pubkey double clock pubkey r).0 ≡ [] = e ∙ rw full refl in
              rw (check_pubkey, limited, full, e')
                (record {
                  reason = refl;
                  allowed = refl;
                  total = refl;
                  config = refl;
                  limited = refl;
                })
          | inr bare ↦
              let e' : (ask_pubkey double clock pubkey r).0
                  ≡ codes "rate_limit_exceeded: per_pubkey" =
                e ∙ rw bare refl in
              rw (check_pubkey, limited, bare, e')
                (record {
                  reason = refl;
                  allowed = refl;
                  total = refl;
                  config = refl;
                  limited = refl;
                })
        ]
      ]

  check_ip-Answers :
      (clock : ℕ → ℕ) (ip pubkey : Bytes) (r : RateLimiter double)
      → Answers
          (first_reason (refused_ip clock ip r) (refused_pubkey clock pubkey r))
          r
          (check_ip double clock ip pubkey r)
  unfolding check_ip refuse
  check_ip-Answers clock ip pubkey r =
      let b = held (clock 1) ip r.config.per_ip_per_minute r.config r.ip_cache in
      let e = ip_reason clock ip r in
      let r' = record r { ip_cache = (ask_ip double clock ip r).1 } in
      let next = check_pubkey-Answers clock pubkey r in
      let next' = check_pubkey-Answers clock pubkey r' in
      elim (Bool-cases (ltb 0 r.config.per_ip_per_minute && not (is_empty ip))) [
        | inr unlimited ↦ rw (check_ip, unlimited) next
        | inl limited ↦ elim (Bool-cases (has_token (clock 2) b)) [
          | inl full ↦
              let e' : (ask_ip double clock ip r).0 ≡ [] = e ∙ rw full refl in
              rw (check_ip, limited, full, e')
                (record {
                  reason = next'.reason;
                  allowed = next'.allowed;
                  total = next'.total;
                  config = next'.config;
                  limited = next'.limited;
                })
          | inr bare ↦
              let e' : (ask_ip double clock ip r).0 ≡ codes "rate_limit_exceeded: per_ip" =
                e ∙ rw bare refl in
              rw (check_ip, limited, bare, e')
                (record {
                  reason = refl;
                  allowed = refl;
                  total = refl;
                  config = refl;
                  limited = refl;
                })
        ]
      ]

  -- A request on a limiter that is switched off is accepted and changes nothing. On one that is on, it
  -- is counted among all requests. It is refused for the first of these reasons that applies: a global
  -- limit is set and the global bucket, refilled, holds less than one token; a limit for addresses is
  -- set and the bucket of the address, full if it is new, does; the same of the public key. A refusal
  -- has its reason and is counted as one; where none applies the request is accepted, with no reason,
  -- and not counted as refused.
  pub check_and_consume-Answers :
      (clock : ℕ → ℕ) (ip pubkey : Bytes) (r : RateLimiter double)
      → ((r.config.enabled ≡ false) × (check_and_consume double clock ip pubkey r ≡ (passed, r)))
        ⊎ ((r.config.enabled ≡ true)
            × Answers
                (first_reason
                  (refused_globally (clock 0) r)
                  (first_reason (refused_ip clock ip r) (refused_pubkey clock pubkey r)))
                (record r { total_requests = u64 (r.total_requests + 1) })
                (check_and_consume double clock ip pubkey r))
  unfolding check_and_consume refuse consume
  check_and_consume-Answers clock ip pubkey r =
      let counted = record r { total_requests = u64 (r.total_requests + 1) } in
      let bucket = (consume double (clock 0) (double.of_nat 1) counted.global_bucket).1 in
      let paid = record counted { global_bucket = bucket } in
      let out = check_and_consume double clock ip pubkey r in
      let others = first_reason (refused_ip clock ip r) (refused_pubkey clock pubkey r) in
      elim (Bool-cases r.config.enabled) [
        | inr off ↦ inl (off, ground (arith, off))
        | inl on ↦ inr (
          on,
          elim (Bool-cases (ltb 0 r.config.global_per_minute)) [
            | inr unlimited ↦
                let e : out ≡ check_ip double clock ip pubkey counted =
                  ground (arith, on, unlimited) in
                let none_applies : refused_globally (clock 0) r ≡ [] = rw unlimited refl in
                subst₂ (λ w o. Answers w counted o)
                  (sym (ap (λ w. first_reason w others) none_applies)) (sym e)
                  (check_ip-Answers clock ip pubkey counted)
            | inl limited ↦ elim (Bool-cases (has_token (clock 0) r.global_bucket)) [
              | inl full ↦
                  let e : out ≡ check_ip double clock ip pubkey paid =
                    ground (arith, on, limited, full) in
                  let none_applies : refused_globally (clock 0) r ≡ [] = rw (limited, full) refl in
                  let next = check_ip-Answers clock ip pubkey paid in
                  subst₂ (λ w o. Answers w counted o)
                    (sym (ap (λ w. first_reason w others) none_applies)) (sym e)
                    (record {
                      reason = next.reason;
                      allowed = next.allowed;
                      total = next.total;
                      config = next.config;
                      limited = next.limited;
                    })
              | inr bare ↦
                  let e : out ≡ refuse double (codes "rate_limit_exceeded: global") paid =
                    ground (arith, on, limited, bare) in
                  let applies : refused_globally (clock 0) r ≡ codes "rate_limit_exceeded: global" =
                    rw (limited, bare) refl in
                  subst₂ (λ w o. Answers w counted o)
                    (sym (ap (λ w. first_reason w others) applies)) (sym e)
                    (record {
                      reason = refl;
                      allowed = refl;
                      total = refl;
                      config = refl;
                      limited = refl;
                    })
            ]
          ],
        )
      ]
