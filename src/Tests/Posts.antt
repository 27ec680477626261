-- ===== src/Tests/Posts.antt =====
-- Events that are posted, to a processor that counts and accepts.
use strfry_http.Base.{ℕ, ◌+◌, ◌≡◌, refl, true, false, [], ◌∷◌, Bytes, Option, some, codes, bytes_eq}
use strfry_http.Base.Json.{Json, null, object, array, unsigned, string, member, done, nil, cons}
use strfry_http.Http.Metrics.{reset}
use strfry_http.Http.Events.{
  Answer, value, handle_event_post_batch, has_fields, members_of, find_key, is_string, is_number,
  is_array, submit, events_of,
}
use strfry_http.Http.Events.Batch.{Handles, handle_event_post_batch-Handles}

program : Unit {0}
unfolding has_fields members_of find_key is_string is_number is_array submit events_of bytes_eq
    reset
program = tt

abbrev counter : Option (Bytes → ℕ → Answer ℕ)
counter =
    some (λ event n. record { thrown = false; accepted = true; error_msg = []; state = n + 1 })

abbrev printer : Json → Bytes
printer v = codes "{}"

abbrev posted : Json
posted = object (
    member (codes "id") (string (codes "ab")) (
      member (codes "pubkey") (string (codes "cd")) (
        member (codes "created_at") (unsigned 1700000000) (
          member (codes "kind") (unsigned 1) (
            member (codes "tags") (array nil)
              (member (codes "content") (string []) (member (codes "sig") (string []) done)))))))

two_events : events_of (array (cons posted (cons null nil))) ≡ some (posted ∷ null ∷ [])
unfolding program
two_events = refl

handle_event_post_batch-Handles_example : Handles counter printer (posted ∷ null ∷ []) reset 0 (
    handle_event_post_batch counter printer (value (array (cons posted (cons null nil)))) 7 reset 0)
handle_event_post_batch-Handles_example =
    handle_event_post_batch-Handles counter printer 7 (array (cons posted (cons null nil)))
      (posted ∷ null ∷ []) reset 0 two_events refl refl
