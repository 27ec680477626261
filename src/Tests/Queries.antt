-- ===== src/Tests/Queries.antt =====
-- Queries with their parameters.
use strfry_http.Base.{
  ◌≡◌, refl, [], ◌∷◌, ◌++◌, Bytes, List, some, codes, min, length, take, bytes_eq, if◌then◌else◌,
}
use strfry_http.Base.Json.{Json, object, array, unsigned, member, done, nil, cons}
use strfry_http.Http.Events.{Parsed, value, failed}
use strfry_http.Http.Metrics.{reset, increment_request_total, observe_query_results}
use strfry_http.Http.Query.{
  Found, visited, results, handle_query, filter_of, filter_of_params, kinds_member, number_member,
  with_texts, numbers, stoull, signed_number, magnitude, leading_digits, tokens, tokens_loop,
  reversed_onto,
}
use strfry_http.Http.Query.Answers.{joined, handle_query-visited}
use strfry_http.Http.Query.Tokens.{tokens-joined}

program : Unit {0}
unfolding filter_of filter_of_params kinds_member number_member with_texts numbers stoull
    signed_number magnitude leading_digits tokens_loop reversed_onto bytes_eq
program = tt

abbrev params : Bytes → Bytes
params name =
    if bytes_eq name (codes "kinds")
    then codes "1,30078"
    else if bytes_eq name (codes "limit")
    then codes " 5x"
    else []

abbrev parser : Bytes → Parsed
parser s = failed (codes "no JSON")

abbrev filter_json : Json
filter_json = object (
    member (codes "kinds") (array (cons (unsigned 1) (cons (unsigned 30078) nil)))
      (member (codes "limit") (unsigned 5) done))

abbrev stored : List Bytes
stored = codes "{}" ∷ codes "{\"id\":1}" ∷ []

abbrev database : Json → Found
database f = visited stored

filter_read : filter_of parser (codes "GET") [] params ≡ value filter_json
unfolding program
filter_read = refl

minus_one : stoull (codes "-1") ≡ some 18446744073709551615
unfolding program
minus_one = refl

handle_query-visited_example : handle_query database parser (codes "GET") [] params reset ≡ record {
  status = 200;
  content = results ((codes "[" ++ joined (take 10000 stored)) ++ codes "]");
  metrics =
      increment_request_total
        (codes "GET")
        200
        (observe_query_results (min 10000 (length stored)) reset);
}
handle_query-visited_example =
    handle_query-visited database parser (codes "GET") [] params reset filter_json stored
      filter_read refl

tokens-joined_example : tokens (joined (codes "ab" ∷ codes "c" ∷ [])) ≡ codes "ab" ∷ codes "c" ∷ []
tokens-joined_example = tokens-joined (codes "ab" ∷ codes "c" ∷ []) refl
