-- ===== src/Http/Events/Batch.antt =====
-- What a batch of events does: how many of them are handed to the event processor, and what is
-- counted. The events in front of one that fails stay processed.
use strfry_http.Base.{
  ℕ, suc, ◌+◌, ◌%◌, ◌≡◌, refl, sym, subst, Bool, false, ◌&&◌, List, [], ◌∷◌, Bytes, Option, none,
  some, Option-cases, not, ◌||◌, length, ltb, ◌==◌, if◌then◌else◌, arith, Bool-cases, inl, inr,
}
use strfry_http.Base.Json.{Json}
use strfry_http.Http.Metrics.{
  HttpMetrics, increment_request_total, observe_request_duration, increment_events_accepted,
  increment_events_rejected,
}
use strfry_http.Http.Events.{
  Outcome, Answer, submit, respond, batch_loop, batch_accepted, batch_rejected,
  handle_event_post_batch, has_fields, batch_failed, members_of, value, events_of,
}

module _ {ℓ} {P : Type ℓ} (event_processor : Option (Bytes → P → Answer P))
    (to_string : Json → Bytes) where
  -- Whether an event may be handed to the processor.
  abbrev pub is_proper : Json → Bool
  is_proper v = elim (members_of v) [ none ↦ false | some ms ↦ has_fields ms ]

  -- The number of events that are accepted before the first one that is not.
  abbrev pub accepted_events : List Json → P → ℕ
  accepted_events [] p = 0
  accepted_events (v ∷ vs) p =
      let answer = submit event_processor (to_string v) p in
      let rest = accepted_events vs answer.state in
      if is_proper v && (not answer.thrown && answer.accepted) then suc rest else 0

  -- Whether the processor throws on the first event that it does not accept.
  abbrev pub throws : List Json → P → Bool
  throws [] p = false
  throws (v ∷ vs) p =
      let answer = submit event_processor (to_string v) p in
      let rest = throws vs answer.state in
      is_proper v && (answer.thrown || (answer.accepted && rest))

  -- The processor's state after those events and, where the next was handed over too, after it.
  abbrev pub state_after : List Json → P → P
  state_after [] p = p
  state_after (v ∷ vs) p =
      let answer = submit event_processor (to_string v) p in
      let rest = state_after vs answer.state in
      if is_proper v
      then (if not answer.thrown && answer.accepted then rest else answer.state)
      else p

  -- What a batch answers, from the metrics `m` and the state `p`.
  pub record Handles (events : List Json) (m : HttpMetrics) (p : P) (out : Outcome event_processor)
      : Type ℓ where
    pub answered : out.response.status ≡ (
        if accepted_events events p == length events
        then 201
        else if throws events p
        then 500
        else 400)
    pub counted :
        out.metrics.events_accepted % 18446744073709551616
        ≡ (m.events_accepted + accepted_events events p) % 18446744073709551616
    pub requests : out.metrics.total_requests ≡ (m.total_requests + 1) % 18446744073709551616
    pub state : out.state ≡ state_after events p

  batch_loop-Handles :
      (elapsed event_count i : ℕ) (events : List Json) (m : HttpMetrics) (p : P)
      → Handles events m p (batch_loop event_processor to_string elapsed event_count i events m p)
  unfolding batch_loop batch_failed batch_accepted batch_rejected respond increment_request_total
      observe_request_duration increment_events_accepted increment_events_rejected
  batch_loop-Handles elapsed event_count i [] m p = record {
    answered = refl;
    counted = omega arith;
    requests = refl;
    state = refl;
  }
  batch_loop-Handles elapsed event_count i (v ∷ vs) m p =
      let answer = submit event_processor (to_string v) p in
      let rest =
        batch_loop-Handles elapsed event_count (i + 1) vs (increment_events_accepted m)
          answer.state in
      elim (Option-cases (members_of v)) [
        | inl other ↦ record {
          answered = ground (arith, other);
          counted = ground (arith, other);
          requests = ground (arith, other);
          state = ground (arith, other);
        }
        | inr (ms, there) ↦ elim (Bool-cases (has_fields ms)) [
          | inr other ↦ record {
            answered = ground (arith, there, other);
            counted = ground (arith, there, other);
            requests = ground (arith, there, other);
            state = ground (arith, there, other);
          }
          | inl proper ↦ elim (Bool-cases answer.thrown) [
            | inl thrown ↦ record {
              answered = ground (arith, there, proper, thrown);
              counted = ground (arith, there, proper, thrown);
              requests = ground (arith, there, proper, thrown);
              state = ground (arith, there, proper, thrown);
            }
            | inr returned ↦ elim (Bool-cases answer.accepted) [
              | inr refused ↦ record {
                answered = ground (arith, there, proper, returned, refused);
                counted = ground (arith, there, proper, returned, refused);
                requests = ground (arith, there, proper, returned, refused);
                state = ground (arith, there, proper, returned, refused);
              }
              | inl accepted ↦ record {
                answered = ground (arith, there, proper, returned, accepted, rest.answered);
                counted = ground (arith, there, proper, returned, accepted, rest.counted);
                requests = ground (arith, there, proper, returned, accepted, rest.requests);
                state = ground (arith, there, proper, returned, accepted, rest.state);
              }
            ]
          ]
        ]
      ]

  -- A batch of 1 to 1000 events is answered 201 if the processor accepts all of them, 500 if it throws
  -- on the first that it does not accept, and 400 otherwise. The events are handed over in order, each
  -- in the state that the one before left, up to the first that is not well-formed or not accepted, so
  -- that those before it stay processed; each accepted one is counted, modulo 2^64, and the request is
  -- counted once.
  pub handle_event_post_batch-Handles :
      (elapsed : ℕ) (v : Json) (events : List Json) (m : HttpMetrics) (p : P)
      → events_of v ≡ some events
      → (length events == 0) ≡ false
      → ltb 1000 (length events) ≡ false
      → Handles events m p (handle_event_post_batch event_processor to_string (value v) elapsed m p)
  unfolding handle_event_post_batch
  handle_event_post_batch-Handles elapsed v events m p h some_events few =
      let loop = batch_loop event_processor to_string elapsed (length events) 0 events m p in
      let e : handle_event_post_batch event_processor to_string (value v) elapsed m p ≡ loop =
        rw (h, handle_event_post_batch, some_events, few) refl in
      subst (Handles events m p) (sym e) (batch_loop-Handles elapsed (length events) 0 events m p)
