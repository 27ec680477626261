-- ===== src/Http/Query.antt =====
-- `HttpServer::handleQuery` of src/HttpServer.cpp. Transactions start and end. The query of
-- the database (foreachByFilter with getEventJson) is an interface: the texts of the events that it
-- visits, in order, or the message of what it throws. The parser of JSON is a parameter.
use strfry_http.Base.{
  ℕ, zero, suc, ◌+◌, ◌-◌, ◌*◌, ◌%◌, Bool, true, false, not, ◌&&◌, ◌||◌, List, [], ◌∷◌, ◌++◌, Bytes,
  Option, none, some, length, ltb, leb, ◌==◌, if◌then◌else◌, bytes_eq, codes, map,
}
use strfry_http.Base.Json.{Json, unsigned, string, array, object, Members, done, member, to_items}
use strfry_http.Packed.{max_u64}
use strfry_http.Http.Text.{contains, sanitize_error_for_client}
use strfry_http.Http.Metrics.{HttpMetrics, increment_request_total, observe_query_results}
use strfry_http.Http.Events.{Parsed, value, failed}
pub mod Answers
pub mod Tokens

-- `std::getline(ss, token, ',')` until the end: what stands between the commas, without an empty
-- last token. The token read so far is kept backwards.
unfoldable pub reversed_onto : Bytes → Bytes → Bytes
reversed_onto [] s = s
reversed_onto (c ∷ cs) s = reversed_onto cs (c ∷ s)

unfoldable pub tokens_loop : Bytes → Bytes → List Bytes
tokens_loop token [] = if length token == 0 then [] else reversed_onto token [] ∷ []
tokens_loop token (c ∷ s) =
    let cut = reversed_onto token [] ∷ tokens_loop [] s in
    let on = tokens_loop (c ∷ token) s in if c == b',' then cut else on

abbrev pub tokens : Bytes → List Bytes
tokens s = tokens_loop [] s

-- The digits at the front of a text, as `std::stoull` reads them: their value and their number.
unfoldable pub leading_digits : ℕ → ℕ → Bytes → ℕ × ℕ
leading_digits n count [] = (n, count)
leading_digits n count (c ∷ s) =
    let rest = leading_digits (n * 10 + (c - 48)) (count + 1) s in
    if leb 48 c && leb c 57 then rest else (n, count)

-- A number behind the blanks and the sign: none if there is no digit, or it has more than 64 bits.
unfoldable pub magnitude : Bytes → Option ℕ
magnitude s =
    let (n, count) = leading_digits 0 0 s in
    if count == 0 then none else if ltb max_u64 n then none else some n

unfoldable pub signed_number : Bytes → Option ℕ
signed_number [] = none
signed_number (c ∷ s) =
    let negated : Option ℕ = elim (magnitude s) [
      | none ↦ none
      | some n ↦ some ((18446744073709551616 - n) % 18446744073709551616)
    ] in
    if c == b'-' then negated else if c == b'+' then magnitude s else magnitude (c ∷ s)

-- `std::stoull`, where `none` is an exception: blanks, a sign, digits; what follows is ignored.
unfoldable pub stoull : Bytes → Option ℕ
stoull [] = none
stoull (c ∷ s) =
    let rest = stoull s in if c == 32 || (leb 9 c && leb c 13) then rest else signed_number (c ∷ s)

unfoldable pub numbers : List Bytes → Option (List Json)
numbers [] = some []
numbers (t ∷ ts) = elim (stoull t) [
  | none ↦ none
  | some n ↦ elim (numbers ts) [ none ↦ none | some ns ↦ some (unsigned n ∷ ns) ]
]

-- A member of the filter for a parameter that is not empty.
unfoldable pub with_texts : Bytes → Bytes → Members → Members
with_texts name param rest =
    if length param == 0
    then rest
    else member name (array (to_items (map (λ t. string t) (tokens param)))) rest

unfoldable pub kinds_member : Bytes → Option (Members → Members)
kinds_member param =
    if length param == 0 then some (λ rest. rest) else elim (numbers (tokens param)) [
      | none ↦ none
      | some ns ↦ some (λ rest. member (codes "kinds") (array (to_items ns)) rest)
    ]

unfoldable pub number_member : Bytes → Bytes → Option (Members → Members)
number_member name param =
    if length param == 0
    then some (λ rest. rest)
    else elim (stoull param) [ none ↦ none | some n ↦ some (λ rest. member name (unsigned n) rest) ]

-- The filter of the query parameters, in the order of the object's map, or the message of the first
-- parameter that is refused.
unfoldable pub filter_of_params : (Bytes → Bytes) → Parsed
filter_of_params get_param_value = elim (kinds_member (get_param_value (codes "kinds"))) [
  | none ↦ failed (codes "Invalid kind parameter")
  | some kinds ↦ elim (number_member (codes "since") (get_param_value (codes "since"))) [
    | none ↦ failed (codes "Invalid since parameter")
    | some since ↦ elim (number_member (codes "until") (get_param_value (codes "until"))) [
      | none ↦ failed (codes "Invalid until parameter")
      | some until ↦ elim (number_member (codes "limit") (get_param_value (codes "limit"))) [
        | none ↦ failed (codes "Invalid limit parameter")
        | some limit ↦ value (
            object (
              with_texts (codes "authors") (get_param_value (codes "authors")) (
                with_texts (codes "ids") (get_param_value (codes "ids"))
                  (kinds (limit (since (until done)))))))
      ]
    ]
  ]
]

-- The filter of a request, from the body of a POST or the parameters.
unfoldable pub filter_of : (Bytes → Parsed) → Bytes → Bytes → (Bytes → Bytes) → Parsed
filter_of from_string method body get_param_value =
    let parsed : Parsed = elim (from_string body) [
      | value v ↦ value v
      | failed message ↦
          failed (codes "Invalid JSON in request body: " ++ sanitize_error_for_client message)
    ] in
    if bytes_eq method (codes "POST") && not (length body == 0)
    then parsed
    else filter_of_params get_param_value

-- What a query of the database does.
pub data Found : Type 0 where
  visited : List Bytes → Found
  threw : Bytes → Found

-- The content of a response: a list of events as text, or an error.
pub data Content : Type 0 where
  results : Bytes → Content
  error_of : Bytes → Content

pub record QueryOutcome : Type 0 where
  pub status : ℕ
  pub content : Content
  pub metrics : HttpMetrics

-- The callback on the events visited: the text so far, and the number of results.
unfoldable pub results_loop : ℕ → Bytes → ℕ → Bool → List Bytes → Bytes × ℕ
results_loop max text count first [] = (text, count)
results_loop max text count first (event ∷ events) =
    let skipped = results_loop max text count first events in
    let added =
      results_loop max ((if first then text else text ++ codes ",") ++ event) (count + 1) false
        events in
    if leb max count then skipped else added

abbrev pub max_query_results : ℕ
max_query_results = 10000

module _ (query : Json → Found) (from_string : Bytes → Parsed) where
  unfoldable pub run_query : Bytes → Json → HttpMetrics → QueryOutcome
  run_query method filter_json m = elim (query filter_json) [
    | threw message ↦
        let is_filter_error =
          contains (codes "filter") message || contains (codes "invalid") message in
        let status = if is_filter_error then 400 else 500 in
        record {
          status = status;
          content = error_of (
              if is_filter_error
              then sanitize_error_for_client message
              else codes "Internal server error");
          metrics = increment_request_total method status m;
        }
    | visited events ↦
        let (text, count) = results_loop max_query_results (codes "[") 0 true events in
        record {
          status = 200;
          content = results (text ++ codes "]");
          metrics = increment_request_total method 200 (observe_query_results count m);
        }
  ]

  unfoldable pub handle_query : Bytes → Bytes → (Bytes → Bytes) → HttpMetrics → QueryOutcome
  handle_query method body get_param_value m =
      elim (filter_of from_string method body get_param_value) [
        | failed message ↦ record { status = 400; content = error_of message; metrics = m }
        | value filter_json ↦ run_query method filter_json m
      ]
