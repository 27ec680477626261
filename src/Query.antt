-- ===== src/Query.antt =====
-- src/DBQuery.h: `DBQuery`, a subscription's filters scanned one after the other in slices of time.
-- The scan of one filter, `DBScan`, is an interface. The counters of time and work, which are only
-- logged, are left out.
use strfry_http.Base.{
  ℕ, zero, suc, ◌+◌, ◌-◌, ◌*◌, ◌/◌, ◌%◌, ◌^◌, ◌≤◌, ◌<◌, min, ◌≡◌, refl, sym, ap, ap₂, ◌∙◌, subst,
  subst₂, ◌≢◌, ◌↔◌, ◌⊎◌, inl, inr, Bool, true, false, not, ◌&&◌, ◌||◌, Option, none, some, List, [],
  ◌∷◌, ◌++◌, map, arith, ltb, leb, ◌==◌, ==_iff, if◌then◌else◌, if-true, if-false, true-false,
  Bool-cases, Option-cases, List-cases, Bytes, bytes_lt, bytes_eq, slice, first_of_bytes,
  bytes_eq_refl, eq_of-bytes_eq, codes, length, get_elem?, set, get_or, take, drop, All, any, all,
  filter_by, Result, ok, err, Error, ◌>>=◌, ◌>>◌, throw_if, with_ok, with_passed, Result-cases,
  ok-injective, >>=-eq-ok, mem, Once,
}
use strfry_http.Subscription.{Subscription}
pub mod Sends
pub mod Reads

-- What a scan does next: it is through, its time is over, or it has an event that matches.
pub data Next (Scanner : Type 0) : Type 0 where
  finished : Next Scanner
  paused : (rest : Scanner) → Next Scanner
  found : (lev_id : ℕ) → (rest : Scanner) → Next Scanner

-- `DBScan` over a filter. The transaction holds what a slice reads, the clock included.
pub record Scans (F : Type 0) : Type 1 where
  pub Txn : Type 0
  pub Scanner : Type 0
  pub scan_of : F → Scanner
  pub next : Txn → Scanner → Next Scanner
  pub limit : F → ℕ

module _ {F : Type 0} (scans : Scans F) where
  open scans use {Txn, Scanner, scan_of, next, limit}

  -- The fields of a query that change. The sets of sent events are lists.
  pub record Progress : Type 0 where
    pub scanner : Option Scanner
    pub filter_group_index : ℕ
    pub sent_events_full : List ℕ
    pub sent_events_curr : List ℕ

  -- `set.insert(n)`
  abbrev pub insert : ℕ → List ℕ → List ℕ
  insert n ns = if mem n ns then ns else ns ++ (n ∷ [])

  -- The callback of the scan: whether it ends the scan, and the events passed on.
  unfoldable pub handle_event : F → ℕ → ℕ → Progress → Bool × List ℕ × Progress
  handle_event f latest lev_id q =
      let q' = record q {
        sent_events_full = insert lev_id q.sent_events_full;
        sent_events_curr = insert lev_id q.sent_events_curr;
      } in
      if limit f == 0 then (true, [], q) else if ltb latest lev_id then (false, [], q) else (
        leb (limit f) (length q'.sent_events_curr),
        if mem lev_id q.sent_events_full then [] else lev_id ∷ [],
        q',
      )

  -- `scanner->scan`, with fuel: whether it is complete, and the events passed on.
  unfoldable pub scan_loop :
      ℕ → Txn → F → ℕ → Scanner → Progress → Option (Bool × List ℕ × Progress)
  scan_loop zero txn f latest scanner q = none
  scan_loop (suc fuel) txn f latest scanner q = elim (next txn scanner) [
    | finished ↦ some (true, [], q)
    | paused rest ↦ some (false, [], record q { scanner = some rest })
    | found lev_id rest ↦
        let (done, sent, q') = handle_event f latest lev_id q in
        elim done [
          | true ↦ some (true, sent, q')
          | false ↦ elim (scan_loop fuel txn f latest rest q') [
            | none ↦ none
            | some (complete, more, q'') ↦ some (complete, sent ++ more, q'')
          ]
        ]
  ]

  -- What stands behind a scan that is complete.
  unfoldable pub next_filter : Progress → Progress
  next_filter q = record q {
    scanner = none;
    filter_group_index = q.filter_group_index + 1;
    sent_events_curr = [];
  }

  -- The scan under way, or a new one.
  abbrev pub scanner_of : F → Progress → Scanner
  scanner_of f q = elim q.scanner [ none ↦ scan_of f | some scanner ↦ scanner ]

  -- The loop of `process` over the filters that are left, with the fuel of each scan.
  unfoldable pub process_filters :
      ℕ → Txn → ℕ → List F → Progress → Option (List ℕ × Bool × Progress)
  process_filters fuel txn latest [] q = some ([], true, q)
  process_filters fuel txn latest (f ∷ fs) q =
      elim (scan_loop fuel txn f latest (scanner_of f q) q) [
        | none ↦ none
        | some (complete, sent, q') ↦ elim complete [
          | false ↦ some (sent, false, q')
          | true ↦ elim (process_filters fuel txn latest fs (next_filter q')) [
            | none ↦ none
            | some (more, all, q'') ↦ some (sent ++ more, all, q'')
          ]
        ]
      ]

  unfoldable pub process :
      ℕ → Txn → Subscription (List F) → Progress → Option (List ℕ × Bool × Progress)
  process fuel txn sub q =
      process_filters fuel txn sub.latest_event_id (drop q.filter_group_index sub.filter_group) q
