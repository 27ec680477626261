-- ===== src/Event/Times.antt =====
-- `verifyEventTimestamp` of src/events.cpp, on the times of a packed event. The arithmetic is that
-- of 64-bit numbers.
use strfry_http.Base.{
  ℕ, ◌+◌, ◌-◌, ◌%◌, ◌≡◌, ◌≤◌, ◌<◌, ◌↔◌, false, ◌&&◌, Result, ok, ◌>>◌, throw_if, ltb, leb, ◌==◌,
  if◌then◌else◌, arith, ephemeral_expired, too_early, too_late, event_expired,
}
use strfry_http.Packed.{Encoding, PackedEventView, created_at, expiration, max_u64}

-- The settings that the function reads.
pub record Window : Type 0 where
  pub reject_ephemeral_events_older_than_seconds : ℕ
  pub reject_events_older_than_seconds : ℕ
  pub reject_events_newer_than_seconds : ℕ

abbrev wrap : ℕ → ℕ
wrap n = n % 18446744073709551616

-- The difference of 64-bit numbers.
abbrev wrap_sub : ℕ → ℕ → ℕ
wrap_sub a b = wrap (a + (18446744073709551616 - b))

unfoldable pub verify_times : Window → ℕ → ℕ → ℕ → Result (Unit {0})
verify_times w now ts expires =
    let is_ephemeral = expires == 1 in
    let older =
      if is_ephemeral
      then w.reject_ephemeral_events_older_than_seconds
      else w.reject_events_older_than_seconds in
    let earliest = wrap_sub now older in
    let latest = wrap (now + w.reject_events_newer_than_seconds) in
    let earliest' = if ltb now earliest then 0 else earliest in
    let latest' = if ltb latest now then max_u64 - 1 else latest in
    throw_if (ltb ts earliest') (if is_ephemeral then ephemeral_expired else too_early)
    >> (throw_if (ltb latest' ts) too_late
        >> throw_if (ltb 1 expires && leb expires now) event_expired)

unfoldable pub verify_event_timestamp : Encoding → Window → ℕ → PackedEventView → Result (Unit {0})
verify_event_timestamp enc w now packed =
    verify_times w now (created_at enc packed) (expiration enc packed)

-- How old an event may be.
abbrev pub max_age : Window → ℕ → ℕ
max_age w expires =
    if expires == 1
    then w.reject_ephemeral_events_older_than_seconds
    else w.reject_events_older_than_seconds

-- For a clock and settings of 64 bits, a time is accepted exactly when the event is not older than
-- allowed and not newer than allowed, both taken without wrap-around, is not expired, and, where the
-- upper end of the window would leave the 64 bits, is below 2^64 - 1.
pub verify_times_iff :
    (w : Window) (now ts expires : ℕ)
    → now < 18446744073709551616
    → max_age w expires < 18446744073709551616
    → w.reject_events_newer_than_seconds < 18446744073709551616
    → (verify_times w now ts expires ≡ ok tt) ↔ (
        (now ≤ ts + max_age w expires)
        × (ts ≤ (
            if ltb (now + w.reject_events_newer_than_seconds) 18446744073709551616
            then now + w.reject_events_newer_than_seconds
            else 18446744073709551614))
        × ((ltb 1 expires && leb expires now) ≡ false))
unfolding verify_times
verify_times_iff w now ts expires hn ha hw = ground arith
