-- ===== src/Http/Events/Single.antt =====
-- What the handler of a single event answers and counts.
use strfry_http.Base.{◌≡◌, Bool, true, false, none, some, ◌&&◌, Bytes, Option, ◌==◌, if◌then◌else◌}
use strfry_http.Http.Metrics.{HttpMetrics, plus}
use strfry_http.Http.Events.{Outcome, Answer, Parsed, value, failed, submit, has_fields, members_of}

-- Whether the body holds what is handed to the processor.
abbrev pub is_event : Parsed → Bool
is_event (value v) = elim (members_of v) [ none ↦ false | some ms ↦ has_fields ms ]
is_event (failed message) = false

-- Whether the body is JSON but no object, on which the look-up of the fields throws.
abbrev pub is_other : Parsed → Bool
is_other (value v) = elim (members_of v) [ none ↦ true | some ms ↦ false ]
is_other (failed message) = false

module _ {ℓ} {P : Type ℓ} (event_processor : Option (Bytes → P → Answer P)) where
  pub record Settles (parsed : Parsed) (body : Bytes) (m : HttpMetrics) (p : P)
      (out : Outcome event_processor) : Type ℓ where
    pub answered : out.response.status ≡ (
        if is_event parsed
        then (if (submit event_processor body p).thrown
            then 500
            else if (submit event_processor body p).accepted
            then 200
            else 400)
        else if is_other parsed
        then 500
        else 400)
    pub state : out.state ≡ (if is_event parsed then (submit event_processor body p).state else p)
    pub requests : out.metrics.total_requests ≡ plus m.total_requests 1
    pub accepted :
        out.metrics.events_accepted
        ≡ (if out.response.status == 200 then plus m.events_accepted 1 else m.events_accepted)
    pub rejected : out.metrics.events_rejected ≡ (
        if is_event parsed && out.response.status == 400
        then plus m.events_rejected 1
        else m.events_rejected)
