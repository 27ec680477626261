-- ===== src/Tests/Scans.antt =====
-- A query over scans that are lists of event numbers, where 0 is a pause.
use strfry_http.Base.{ℕ, zero, suc, ◌≡◌, refl, Bool, false, none, some, List, [], ◌∷◌, arith, codes}
use strfry_http.Subscription.{Subscription}
use strfry_http.Query.{
  Next, finished, paused, found, Scans, Progress, process, process_filters, scan_loop, handle_event,
  next_filter,
}
use strfry_http.Query.Sends.{ends, pauses, goes_on, Passes, Sends, process-Passes}
use strfry_http.Query.Reads.{Reads, scan_loop-Reads}

abbrev next_number : List ℕ → Next (List ℕ)
next_number [] = finished
next_number (zero ∷ ns) = paused ns
next_number (suc n ∷ ns) = found (suc n) ns

-- A filter is a limit and the events that it finds.
abbrev number_scans : Scans (ℕ × List ℕ)
number_scans = record {
  Txn = ℕ;
  Scanner = List ℕ;
  scan_of = λ f. f.1;
  next = λ txn. next_number;
  limit = λ f. f.0;
}

-- The first filter is past its first event, the second finds one that is newer.
abbrev two_filters : Subscription (List (ℕ × List ℕ))
two_filters = record {
  conn_id = 7;
  sub_id = record { buf = 4 ∷ codes "feed" };
  filter_group = (3, 9 ∷ 8 ∷ 7 ∷ 6 ∷ []) ∷ (5, 20 ∷ 8 ∷ 5 ∷ 0 ∷ 4 ∷ []) ∷ [];
  latest_event_id = 10;
}

abbrev begun : Progress number_scans
begun = record {
  scanner = some (8 ∷ 7 ∷ 6 ∷ []);
  filter_group_index = 0;
  sent_events_full = 9 ∷ [];
  sent_events_curr = 9 ∷ [];
}

abbrev on_pause : Progress number_scans
on_pause = record {
  scanner = some (4 ∷ []);
  filter_group_index = 1;
  sent_events_full = 9 ∷ 8 ∷ 7 ∷ 5 ∷ [];
  sent_events_curr = 8 ∷ 5 ∷ [];
}

process_pauses : process number_scans 6 0 two_filters begun ≡ some (8 ∷ 7 ∷ 5 ∷ [], false, on_pause)
unfolding process process_filters scan_loop handle_event next_filter
process_pauses = refl

process-Passes_example :
    (sent : List ℕ) × (complete : Bool) × (q : Progress number_scans) × (process number_scans 6 0
        two_filters begun
      ≡ some (sent, complete, q))
    × Passes number_scans two_filters begun sent complete q
process-Passes_example = process-Passes number_scans 6 0 two_filters begun (omega arith) (
  record {
    found_ids = 8 ∷ 7 ∷ 6 ∷ [];
    left = none;
    finds = goes_on refl (goes_on refl (goes_on refl (ends refl)));
    few = omega arith;
  },
  (
    record {
      found_ids = 20 ∷ 8 ∷ 5 ∷ [];
      left = some (4 ∷ []);
      finds = goes_on refl (goes_on refl (goes_on refl (pauses refl)));
      few = omega arith;
    },
    tt,
  ),
)

-- The second filter from its start on.
abbrev second : Progress number_scans
second = record {
  scanner = none;
  filter_group_index = 1;
  sent_events_full = 9 ∷ 8 ∷ 7 ∷ [];
  sent_events_curr = [];
}

abbrev second_scanner : List ℕ
second_scanner = 20 ∷ 8 ∷ 5 ∷ 0 ∷ 4 ∷ []

scan_loop-Reads_example :
    (complete : Bool) × (sent : List ℕ) × (q : Progress number_scans) × (scan_loop number_scans 6 0
        (5, second_scanner)
        10
        second_scanner
        second
      ≡ some (complete, sent, q))
    × Sends number_scans 10 second sent q
    × Reads number_scans (5, second_scanner) 10 (20 ∷ 8 ∷ 5 ∷ []) (some (4 ∷ [])) complete q
scan_loop-Reads_example =
    scan_loop-Reads number_scans 6 0 (5, second_scanner) 10 second_scanner second (20 ∷ 8 ∷ 5 ∷ [])
      (some (4 ∷ [])) (goes_on refl (goes_on refl (goes_on refl (pauses refl)))) (omega arith)
      (omega arith)
