-- ===== src/Subscription/Ids.antt =====
-- Subscription ids read back as they were written, whatever the memory held.
use strfry_http.Base.{
  ◌≡◌, ◌≤◌, Bytes, ok, length, ltb, ◌==◌, arith, take-append_length, drop, ◌+◌, with_passed,
  ok-injective, any, sub_id_too_long, sub_id_too_short, bad_sub_id_char,
}
use strfry_http.Subscription.{SubId, sub_id, sv, bad_char}

-- An id that is accepted has 1 to 71 bytes, and reads back as the text that it was made from,
-- whatever the memory held before.
pub sub_id-sv :
    (memory val : Bytes) (s : SubId)
    → sub_id memory val ≡ ok s
    → (sv s ≡ val) × (1 ≤ length val) × (length val ≤ 71)
unfolding sub_id sv
sub_id-sv memory val s h = with_passed (ltb 71 (length val)) sub_id_too_long _ h (λ short h1.
    with_passed (length val == 0) sub_id_too_short _ h1 (λ long h2.
      with_passed (any bad_char val) bad_sub_id_char _ h2 (λ good h3. (
        rw (← ok-injective h3) (take-append_length val (drop (length val + 1) memory)),
        ground (arith, long),
        ground (arith, short),
      ))))
