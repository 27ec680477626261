-- ===== src/Http/Query/Answers.antt =====
-- What a query answers.
use strfry_http.Base.{
  ℕ, zero, suc, ◌+◌, ◌≡◌, refl, ◌∙◌, ap, Bool, true, false, List, [], ◌∷◌, ◌++◌, Bytes, length,
  take, leb, codes, arith, min,
}
use mathlib.Core.List.{append-nil, append_assoc}
use strfry_http.Base.Json.{Json}
use strfry_http.Http.Events.{Parsed, value}
use strfry_http.Http.Metrics.{HttpMetrics, increment_request_total, observe_query_results}
use strfry_http.Http.Query.{
  Found, visited, results, results_loop, max_query_results, run_query, handle_query, filter_of,
}

-- The events with commas between them.
abbrev pub behind_commas : List Bytes → Bytes
behind_commas [] = []
behind_commas (e ∷ es) = codes "," ++ (e ++ behind_commas es)

abbrev pub joined : List Bytes → Bytes
joined [] = []
joined (e ∷ es) = e ++ behind_commas es

results_loop_full :
    (max : ℕ) (text : Bytes) (count : ℕ) (first : Bool) (events : List Bytes)
    → leb max count ≡ true
    → results_loop max text count first events ≡ (text, count)
unfolding results_loop
results_loop_full max text count first [] h = refl
results_loop_full max text count first (e ∷ es) h =
    rw h (results_loop_full max text count first es h)

results_loop_rest :
    (room max : ℕ) (text : Bytes) (count : ℕ) (events : List Bytes)
    → room + count ≡ max
    → results_loop max text count false events
      ≡ (text ++ behind_commas (take room events), count + min room (length events))
unfolding results_loop
results_loop_rest zero max text count [] h =
    rw (append-nil text) (ap (λ n. (text, n)) (omega arith))
results_loop_rest (suc room) max text count [] h =
    rw (append-nil text) (ap (λ n. (text, n)) (omega arith))
results_loop_rest zero max text count (e ∷ es) h =
    let full : leb max count ≡ true = ground (arith, h) in
    let n : count ≡ count + min zero (suc (length es)) = omega arith in
    rw (full, append-nil text)
      (results_loop_full max text count false es full ∙ ap (λ k. (text, k)) n)
results_loop_rest (suc room) max text count (e ∷ es) h =
    let more : leb max count ≡ false = ground (arith, h) in
    let t : ((text ++ codes ",") ++ e) ++ behind_commas (take room es)
        ≡ text ++ (codes "," ++ (e ++ behind_commas (take room es))) =
      append_assoc (text ++ codes ",") e (behind_commas (take room es))
      ∙ append_assoc text (codes ",") (e ++ behind_commas (take room es)) in
    let n : count + 1 + min room (length es) ≡ count + min (suc room) (suc (length es)) =
      omega arith in
    rw more (
      results_loop_rest room max ((text ++ codes ",") ++ e) (count + 1) es (omega (arith, h))
      ∙ ap (λ x. (x, count + 1 + min room (length es))) t
      ∙ ap (λ k. (text ++ (codes "," ++ (e ++ behind_commas (take room es))), k)) n)

results_loop-joined :
    (room : ℕ) (text : Bytes) (events : List Bytes)
    → results_loop (suc room) text 0 true events
      ≡ (text ++ joined (take (suc room) events), min (suc room) (length events))
unfolding results_loop
results_loop-joined room text [] = rw (append-nil text) (ap (λ n. (text, n)) (omega arith))
results_loop-joined room text (e ∷ es) =
    let more : leb (suc room) 0 ≡ false = ground arith in
    let n : 1 + min room (length es) ≡ min (suc room) (suc (length es)) = omega arith in
    rw more (
      results_loop_rest room (suc room) (text ++ e) 1 es (omega arith)
      ∙ ap (λ x. (x, 1 + min room (length es))) (append_assoc text e (behind_commas (take room es)))
      ∙ ap (λ k. (text ++ (e ++ behind_commas (take room es)), k)) n)

module _ (query : Json → Found) (from_string : Bytes → Parsed) where
  -- Where the request has a filter and the query visits some events, the answer is 200 with the JSON
  -- array of the first 10000 of them, in order, and as many are counted as results, once with the
  -- request's method.
  pub handle_query-visited :
      (method body : Bytes) (get_param_value : Bytes → Bytes) (m : HttpMetrics) (f : Json)
      (events : List Bytes)
      → filter_of from_string method body get_param_value ≡ value f
      → query f ≡ visited events
      → handle_query query from_string method body get_param_value m ≡ record {
        status = 200;
        content = results ((codes "[" ++ joined (take 10000 events)) ++ codes "]");
        metrics =
            increment_request_total method 200
              (observe_query_results (min 10000 (length events)) m);
      }
  unfolding handle_query run_query
  handle_query-visited method body get_param_value m f events h k =
      let loop : results_loop max_query_results (codes "[") 0 true events
          ≡ (codes "[" ++ joined (take 10000 events), min 10000 (length events)) =
        results_loop-joined 9999 (codes "[") events in
      rw (h, handle_query, k, run_query, loop) refl
