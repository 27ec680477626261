-- ===== src/Tests/Turns.antt =====
-- A scheduler with a query that is alive and one that was removed.
use strfry_http.Base.{
  ℕ, ◌+◌, ◌-◌, ◌≡◌, refl, sym, ap, ◌∙◌, subst₂, inl, inr, Bool, true, false, none, some, List, [],
  ◌∷◌, arith, ◌==◌, ==_iff, if◌then◌else◌, true-false, Bool-cases, bytes_eq, codes, ok,
}
use mathlib.Core.Option.{some-injective}
use strfry_http.Subscription.{Subscription, SubId, sv, same_sub_id}
use strfry_http.Subscription.Conns.{find_entry, find_conn, find_sub}
use strfry_http.Scheduler.{
  Queries, Options, DbQuery, Heap, Scheduler, Call, add_sub, close_conn, process,
}
use strfry_http.Scheduler.Valid.{IsValid, count}
use strfry_http.Scheduler.Adds.{Adds, add_sub-Adds}
use strfry_http.Scheduler.Closes.{close_conn-IsValid}
use strfry_http.Scheduler.Process.{Processes, process-Processes}
use strfry_http.Scheduler.Rounds.{Reaches, rounds, rounds-Reaches}

-- A query that passes on two numbers in each turn, as often as its scan says.
abbrev short_queries : Queries (List ℕ)
short_queries = record {
  Txn = ℕ;
  Scan = ℕ;
  start = 2;
  process = λ txn sub n. (txn ∷ (txn + 1) ∷ [], n == 0, n - 1);
  most_recent_lev_id = λ txn. txn;
  payload = λ txn i. some (codes "{}");
}

abbrev all_calls : Options
all_calls = record {
  ensure_exists = true;
  on_event = true;
  on_event_batch = true;
  on_complete = true;
  max_subs = 20;
}

abbrev feed : SubId
feed = record { buf = 4 ∷ codes "feed" }

abbrev live_sub : Subscription (List ℕ)
live_sub = record { conn_id = 7; sub_id = feed; filter_group = []; latest_event_id = 100 }

abbrev live_query : DbQuery short_queries all_calls
live_query = record { sub = live_sub; dead = false; scan = 1 }

abbrev dead_query : DbQuery short_queries all_calls
dead_query = record { sub = live_sub; dead = true; scan = 2 }

abbrev two_heap : Heap short_queries all_calls
two_heap a = if a == 0 then some live_query else if a == 1 then some dead_query else none

abbrev two_queries : Scheduler short_queries all_calls
two_queries = record {
  heap = two_heap;
  next = 2;
  conns = (7, (feed, 0) ∷ []) ∷ [];
  running = 1 ∷ 0 ∷ [];
  lev_id_batch = [];
}

alive_is_first :
    (a : ℕ) (q : DbQuery short_queries all_calls)
    → two_heap a ≡ some q
    → q.dead ≡ false
    → (a ≡ 0) × (live_query ≡ q)
alive_is_first a q there alive = elim (Bool-cases (a == 0)) [
  | inl first ↦ ((==_iff a 0).0 first, some-injective _ _ (rw first at there))
  | inr other ↦ elim (Bool-cases (a == 1)) [
    | inl second ↦
        let same = some-injective _ _ (rw (other, second) at there) in
        absurd (true-false (ap (λ (x : DbQuery short_queries all_calls). x.dead) same ∙ alive))
    | inr third ↦ cc (rw (other, third) at there)
  ]
]

two_queries-live :
    (a : ℕ) (q : DbQuery short_queries all_calls)
    → two_heap a ≡ some q
    → q.dead ≡ false
    → find_entry q.sub.conn_id q.sub.sub_id two_queries.conns ≡ some a
unfolding find_entry find_conn find_sub same_sub_id sv bytes_eq
two_queries-live a q there alive =
    let (zeroth, same) = alive_is_first a q there alive in
    subst₂
      (λ (x : ℕ) (p : DbQuery short_queries all_calls).
        find_entry p.sub.conn_id p.sub.sub_id two_queries.conns ≡ some x)
      (sym zeroth) same refl

two_queries-IsValid : IsValid short_queries all_calls two_queries
unfolding count
two_queries-IsValid = record {
  index = record {
    fresh = λ a le. ground arith;
    indexed = (
      (record { query = live_query; there = refl; alive = refl; conn = refl; named = refl }, tt),
      tt,
    );
    live = two_queries-live;
  };
  counted = λ a. ground arith;
  no_batch = refl;
}

-- A new subscription takes the place of the one with its id.
add_sub-Adds_example :
    (out : Bool × Scheduler short_queries all_calls) × (add_sub short_queries all_calls 9 live_sub
        two_queries
      ≡ ok out)
    × Adds short_queries all_calls 9 live_sub two_queries out
add_sub-Adds_example =
    add_sub-Adds short_queries all_calls 9 live_sub two_queries two_queries-IsValid

close_conn-IsValid_example :
    (s : Scheduler short_queries all_calls) × (close_conn short_queries all_calls 7 two_queries
      ≡ ok s)
    × IsValid short_queries all_calls s
    × ((d : ℕ) (k : SubId)
        → find_entry d k s.conns ≡ (if d == 7 then none else find_entry d k two_queries.conns))
    × (s.running ≡ 1 ∷ 0 ∷ [])
close_conn-IsValid_example =
    close_conn-IsValid short_queries all_calls 7 two_queries two_queries-IsValid

process-Processes_example :
    (out : List (Call short_queries all_calls) × Scheduler short_queries all_calls) × (process
        short_queries all_calls 9 two_queries
      ≡ ok out)
    × Processes short_queries all_calls two_queries out
process-Processes_example =
    process-Processes short_queries all_calls 9 two_queries two_queries-IsValid

rounds-Reaches_example :
    (s : Scheduler short_queries all_calls) × (rounds short_queries all_calls (9 ∷ []) two_queries
      ≡ ok s)
    × Reaches short_queries all_calls 0 [] s
rounds-Reaches_example =
    rounds-Reaches short_queries all_calls (9 ∷ []) (1 ∷ []) 0 [] two_queries two_queries-IsValid
      refl refl
