-- ===== src/Http/Events.antt =====
-- `HttpServer::handleEventPost` and `HttpServer::handleEventPostBatch` of src/HttpServer.cpp. What
-- they change is the metrics and whatever the event processor keeps; the response has a status and
-- a JSON content. The parsers and printers of JSON are parameters, and so is the event processor, a
-- callback that may be missing or throw; src/apps/relay/cmd_relay.cpp sets one that hands the event to
-- the threads of the relay. Each handler reads the time that has passed once for the metrics.
use strfry_http.Base.{
  ℕ, zero, suc, ◌+◌, ◌-◌, ◌/◌, ◌%◌, Bool, true, false, not, ◌&&◌, ◌||◌, List, [], ◌∷◌, ◌++◌, Bytes,
  Option, none, some, length, ltb, ◌==◌, if◌then◌else◌, bytes_eq, codes,
}
use strfry_http.Base.Json.{
  Json, null, boolean, unsigned, other_number, string, array, object, Members, done, member,
  to_list,
}
use strfry_http.Http.Text.{sanitize_error_for_client}
use strfry_http.Http.Metrics.{
  HttpMetrics, increment_request_total, observe_request_duration, increment_events_accepted,
  increment_events_rejected,
}
pub mod Single
pub mod Batch

pub record Response : Type 0 where
  pub status : ℕ
  pub content : Json

-- What a parser returns: a value, or the message of the exception.
pub data Parsed : Type 0 where
  value : Json → Parsed
  failed : Bytes → Parsed

-- `std::to_string` of a number of 64 bits, which has at most 20 digits.
unfoldable pub digits : ℕ → ℕ → Bytes → Bytes
digits zero n s = s
digits (suc fuel) n s =
    let rest = digits fuel (n / 10) ((48 + n % 10) ∷ s) in
    if ltb n 10 then (48 + n % 10) ∷ s else rest

abbrev pub to_text : ℕ → Bytes
to_text n = digits 20 n []

-- `v.find(key)` on an object, which is a null pointer, `none`, for a missing key.
unfoldable pub find_key : Bytes → Members → Option Json
find_key key done = none
find_key key (member k v ms) = let rest = find_key key ms in if bytes_eq k key then some v else rest

-- The members of an object. `find` throws on any other value.
unfoldable pub members_of : Json → Option Members
members_of (object ms) = some ms
members_of _ = none

unfoldable pub is_string : Option Json → Bool
is_string (some (string s)) = true
is_string _ = false

unfoldable pub is_number : Option Json → Bool
is_number (some (unsigned n)) = true
is_number (some other_number) = true
is_number _ = false

unfoldable pub is_array : Option Json → Bool
is_array (some (array vs)) = true
is_array _ = false

-- The validation of the required fields of an event.
unfoldable pub has_fields : Members → Bool
has_fields event_json =
    is_string (find_key (codes "id") event_json)
    && (is_string (find_key (codes "pubkey") event_json)
        && (is_number (find_key (codes "created_at") event_json)
            && (is_number (find_key (codes "kind") event_json)
                && (is_array (find_key (codes "tags") event_json)
                    && (is_string (find_key (codes "content") event_json)
                        && is_string (find_key (codes "sig") event_json))))))

-- The text of a field that is known to hold one.
unfoldable pub text_of : Option Json → Bytes
text_of (some (string s)) = s
text_of _ = []

abbrev pub refusal : Bytes → Json
refusal message =
    object (member (codes "ok") (boolean false) (member (codes "message") (string message) done))

-- The array of events: the body itself, or its field "events".
unfoldable pub events_of : Json → Option (List Json)
events_of (array vs) = some (to_list vs)
events_of (object ms) = elim (find_key (codes "events") ms) [
  | some (array vs) ↦ some (to_list vs)
  | _ ↦ none
]
events_of _ = none

-- What a call of the event processor comes to: whether an exception left it, whether it accepts, a
-- message, and its state.
pub record Answer {ℓ} (P : Type ℓ) : Type ℓ where
  pub thrown : Bool
  pub accepted : Bool
  pub error_msg : Bytes
  pub state : P

module _ {ℓ} {P : Type ℓ} (event_processor : Option (Bytes → P → Answer P)) where
  -- What a handler returns, and the state that it changes.
  pub record Outcome : Type ℓ where
    pub response : Response
    pub metrics : HttpMetrics
    pub state : P

  -- The response, counted with its status and duration.
  unfoldable pub respond : Bytes → ℕ → ℕ → Json → HttpMetrics → P → Outcome
  respond path elapsed status content metrics p = record {
    response = record { status = status; content = content };
    metrics =
        observe_request_duration path elapsed
          (increment_request_total (codes "POST") status metrics);
    state = p;
  }

  -- The call of the event processor.
  unfoldable pub submit : Bytes → P → Answer P
  submit event p = elim event_processor [
    | none ↦ record { thrown = false; accepted = false; error_msg = []; state = p }
    | some process ↦ process event p
  ]

  -- What the handler does where an exception arrives behind the parser.
  unfoldable pub internal_error : ℕ → HttpMetrics → P → Outcome
  internal_error elapsed metrics p =
      respond (codes "/api/quotes") elapsed 500 (refusal (codes "Internal server error")) metrics p

  unfoldable pub event_post_answered : ℕ → Bytes → Answer P → HttpMetrics → Outcome
  event_post_answered elapsed event_id answer metrics =
      let taken =
        respond (codes "/api/quotes") elapsed 200
          (object (
            member (codes "ok") (boolean true) (
              member (codes "message") (string (codes "Quote accepted"))
                (member (codes "id") (string event_id) done))))
          (increment_events_accepted metrics) answer.state in
      let refused =
        respond (codes "/api/quotes") elapsed 400
          (refusal
            (if length answer.error_msg == 0 then codes "Quote rejected" else answer.error_msg))
          (increment_events_rejected metrics) answer.state in
      if answer.thrown
      then internal_error elapsed metrics answer.state
      else if answer.accepted
      then taken
      else refused

  -- The parser's result is given with the body that it was read from.
  unfoldable pub handle_event_post : Parsed → ℕ → Bytes → HttpMetrics → P → Outcome
  handle_event_post (failed message) elapsed body metrics p =
      respond (codes "/api/quotes") elapsed 400
        (refusal (codes "Invalid JSON: " ++ sanitize_error_for_client message)) metrics p
  handle_event_post (value event_json) elapsed body metrics p = elim (members_of event_json) [
    | none ↦ internal_error elapsed metrics p
    | some ms ↦
        let invalid =
          respond (codes "/api/quotes") elapsed 400
            (refusal (codes "Invalid event structure: missing or invalid required fields")) metrics
            p in
        let asked =
          event_post_answered elapsed (text_of (find_key (codes "id") ms)) (submit body p)
            metrics in
        if not (has_fields ms) then invalid else asked
  ]

  module _ (to_string : Json → Bytes) where
    abbrev pub batch_path : Bytes
    batch_path = codes "/api/quotes/batch"

    unfoldable pub batch_accepted : ℕ → ℕ → HttpMetrics → P → Outcome
    batch_accepted elapsed event_count metrics p =
        respond batch_path elapsed 201
          (object (
            member (codes "success") (boolean true) (
              member (codes "published") (unsigned event_count) (
                member (codes "failed") (unsigned 0)
                  (member (codes "message") (string (codes "Batch accepted")) done)))))
          metrics p

    unfoldable pub batch_rejected : ℕ → ℕ → Bytes → Answer P → HttpMetrics → Outcome
    batch_rejected elapsed i event_id answer metrics =
        let reason =
          if length answer.error_msg == 0 then codes "validation failed" else answer.error_msg in
        respond batch_path elapsed 400
          (object (
            member (codes "ok") (boolean false) (
              member (codes "message")
                (string (codes "Event at index " ++ (to_text i ++ (codes " rejected: " ++ reason))))
                (member (codes "failed_index") (unsigned i)
                  (member (codes "failed_id") (string event_id) done)))))
          (increment_events_rejected metrics) answer.state

    -- What the handler does where an exception arrives behind the parser.
    unfoldable pub batch_failed : ℕ → HttpMetrics → P → Outcome
    batch_failed elapsed metrics p =
        respond batch_path elapsed 500
          (object (
            member (codes "success") (boolean false) (
              member (codes "published") (unsigned 0) (
                member (codes "failed") (unsigned 0)
                  (member (codes "message") (string (codes "Internal server error")) done)))))
          metrics p

    -- The loop over the events of a batch, from the index `i` on.
    unfoldable pub batch_loop : ℕ → ℕ → ℕ → List Json → HttpMetrics → P → Outcome
    batch_loop elapsed event_count i [] metrics p = batch_accepted elapsed event_count metrics p
    batch_loop elapsed event_count i (event_json ∷ events) metrics p =
        let at_index = codes "Event at index " ++ to_text i in
        let answer = submit (to_string event_json) p in
        let rest =
          batch_loop elapsed event_count (i + 1) events (increment_events_accepted metrics)
            answer.state in
        elim (members_of event_json) [
          | none ↦
              respond batch_path elapsed 400 (refusal (at_index ++ codes " is not an object"))
                metrics p
          | some ms ↦
              let rejected =
                batch_rejected elapsed i (text_of (find_key (codes "id") ms)) answer metrics in
              if not (has_fields ms)
              then respond batch_path elapsed 400
                  (refusal (at_index ++ codes " has invalid structure")) metrics p
              else if answer.thrown
              then batch_failed elapsed metrics answer.state
              else if not answer.accepted
              then rejected
              else rest
        ]

    unfoldable pub handle_event_post_batch : Parsed → ℕ → HttpMetrics → P → Outcome
    handle_event_post_batch (failed message) elapsed metrics p =
        respond batch_path elapsed 400
          (refusal (codes "Invalid JSON: " ++ sanitize_error_for_client message)) metrics p
    handle_event_post_batch (value batch_json) elapsed metrics p = elim (events_of batch_json) [
      | none ↦
          respond batch_path elapsed 400
            (refusal (codes "Request body must be a JSON array or object with 'events' array"))
            metrics p
      | some events ↦
          if length events == 0
          then respond batch_path elapsed 400 (refusal (codes "Empty event array")) metrics p
          else if ltb 1000 (length events)
          then respond batch_path elapsed 400
              (refusal (codes "Batch size exceeds maximum of 1000 events")) metrics p
          else batch_loop elapsed (length events) 0 events metrics p
    ]
