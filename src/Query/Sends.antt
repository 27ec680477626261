-- ===== src/Query/Sends.antt =====
-- What a query passes on: no event twice, over all slices, and none that is newer than the
-- subscription.
use strfry_http.Base.{
  ℕ, zero, suc, ◌+◌, ◌≤◌, ◌<◌, ◌≡◌, refl, sym, ap, ◌∙◌, subst, inl, inr, Bool, true, false, Option,
  none, some, List, [], ◌∷◌, ◌++◌, arith, ltb, ◌==◌, true-false, Bool-cases, length, drop,
  length-drop, All, mem, Once, Once-append,
}
use mathlib.Core.List.{append_assoc, append-nil}
use strfry_http.Subscription.{Subscription}
use strfry_http.Query.{
  finished, paused, found, Scans, Progress, insert, handle_event, scan_loop, next_filter,
  scanner_of, process_filters, process,
}

All-append : (P : ℕ → Type 0) (ms ns : List ℕ) → All P ms → All P ns → All P (ms ++ ns)
All-append P [] ns hs ks = ks
All-append P (m ∷ ms) ns (h, hs) ks = (h, All-append P ms ns hs ks)

module _ {F : Type 0} (scans : Scans F) where
  -- The events that a scan finds before it ends or pauses, and what is left of it.
  pub data Finds (txn : scans.Txn) : scans.Scanner → List ℕ → Option scans.Scanner → Type 0 where
    ends : {scanner : scans.Scanner} → scans.next txn scanner ≡ finished → Finds txn scanner [] none
    pauses :
        {scanner rest : scans.Scanner}
        → scans.next txn scanner ≡ paused rest
        → Finds txn scanner [] (some rest)
    goes_on :
        {scanner rest : scans.Scanner} {n : ℕ} {ns : List ℕ} {o : Option scans.Scanner}
        → scans.next txn scanner ≡ found n rest
        → Finds txn rest ns o
        → Finds txn scanner (n ∷ ns) o

  -- A slice of a scan finds fewer events than the fuel, and ends or pauses.
  pub record Slice (fuel : ℕ) (txn : scans.Txn) (scanner : scans.Scanner) : Type 0 where
    pub found_ids : List ℕ
    pub left : Option scans.Scanner
    pub finds : Finds txn scanner found_ids left
    pub few : length found_ids < fuel

  -- So does the scan of each filter that is left: the first goes on where it paused.
  abbrev pub Slices : ℕ → scans.Txn → List F → Progress scans → Type 0
  Slices fuel txn [] q = Unit
  Slices fuel txn (f ∷ fs) q =
      Slice fuel txn (scanner_of scans f q) × All (λ g. Slice fuel txn (scans.scan_of g)) fs

  -- The events that were passed on between two states are noted, and were not before.
  pub record Sends (latest : ℕ) (q : Progress scans) (sent : List ℕ) (q' : Progress scans)
      : Type 0 where
    pub noted : q'.sent_events_full ≡ q.sent_events_full ++ sent
    pub once : Once q.sent_events_full → Once q'.sent_events_full
    pub known : All (λ n. n ≤ latest) sent

  pub Sends-nothing :
      (latest : ℕ) (q q' : Progress scans)
      → q'.sent_events_full ≡ q.sent_events_full
      → Sends latest q [] q'
  Sends-nothing latest q q' same = record {
    noted = same ∙ sym (append-nil q.sent_events_full);
    once = λ o. subst Once (sym same) o;
    known = tt;
  }

  pub Sends-both :
      (latest : ℕ) (q q' q'' : Progress scans) (sent more : List ℕ)
      → Sends latest q sent q'
      → Sends latest q' more q''
      → Sends latest q (sent ++ more) q''
  Sends-both latest q q' q'' sent more s t = record {
    noted = t.noted ∙ ap (λ ns. ns ++ more) s.noted ∙ append_assoc q.sent_events_full sent more;
    once = λ o. t.once (s.once o);
    known = All-append (λ n. n ≤ latest) sent more s.known t.known;
  }

  pub handle_event-Sends :
      (f : F) (latest lev_id : ℕ) (q : Progress scans)
      → Sends latest q
          (handle_event scans f latest lev_id q).1
          (handle_event scans f latest lev_id q).2
  unfolding handle_event
  handle_event-Sends f latest lev_id q = elim (Bool-cases (scans.limit f == 0)) [
    | inl no_limit ↦ rw no_limit (Sends-nothing latest q q refl)
    | inr limited ↦ elim (Bool-cases (ltb latest lev_id)) [
      | inl newer ↦ rw (limited, newer) (Sends-nothing latest q q refl)
      | inr known ↦ elim (Bool-cases (mem lev_id q.sent_events_full)) [
        | inl again ↦
            rw (limited, known, again)
              (Sends-nothing latest q
                (record q { sent_events_curr = insert scans lev_id q.sent_events_curr }) refl)
        | inr new ↦
            rw (limited, known, new)
              record {
                noted = refl;
                once = Once-append lev_id q.sent_events_full new;
                known = (ground (arith, known), tt);
              }
      ]
    ]
  ]

  handle_event-index :
      (f : F) (latest lev_id : ℕ) (q : Progress scans)
      → (handle_event scans f latest lev_id q).2.filter_group_index ≡ q.filter_group_index
  unfolding handle_event
  handle_event-index f latest lev_id q = elim (Bool-cases (scans.limit f == 0)) [
    | inl no_limit ↦ rw no_limit refl
    | inr limited ↦ elim (Bool-cases (ltb latest lev_id)) [
      | inl newer ↦ rw (limited, newer) refl
      | inr known ↦ rw (limited, known) refl
    ]
  ]

  -- A scan comes to an end and stays at its filter.
  abbrev Scanned : ℕ → Progress scans → Option (Bool × List ℕ × Progress scans) → Type 0
  Scanned latest q result =
      (complete : Bool) × (sent : List ℕ) × (q' : Progress scans) × (result
        ≡ some (complete, sent, q'))
      × Sends latest q sent q'
      × (q'.filter_group_index ≡ q.filter_group_index)

  scan_loop-Sends :
      (fuel : ℕ) (txn : scans.Txn) (f : F) (latest : ℕ) (scanner : scans.Scanner)
      (q : Progress scans) (ns : List ℕ) (o : Option scans.Scanner)
      → Finds txn scanner ns o
      → length ns < fuel
      → Scanned latest q (scan_loop scans fuel txn f latest scanner q)
  unfolding scan_loop
  scan_loop-Sends zero txn f latest scanner q ns o finds h = elim h [ ]
  scan_loop-Sends (suc fuel) txn f latest scanner q [] none (ends through) h =
      rw (scan_loop, through) (true, [], q, refl, Sends-nothing latest q q refl, refl)
  scan_loop-Sends (suc fuel) txn f latest scanner q [] (some rest) (pauses over) h =
      let q' : Progress scans = record q { scanner = some rest } in
      rw (scan_loop, over) (false, [], q', refl, Sends-nothing latest q q' refl, refl)
  scan_loop-Sends (suc fuel) txn f latest scanner q (n ∷ ns) o (goes_on {rest = rest} met finds) h =
      let r = handle_event scans f latest n q in
      let s = handle_event-Sends f latest n q in
      let at = handle_event-index f latest n q in
      elim (Bool-cases r.0) [
        | inl done ↦ rw (scan_loop, met, done) (true, r.1, r.2, refl, s, at)
        | inr not_done ↦
            let (complete, more, q'', e, t, at') =
              scan_loop-Sends fuel txn f latest rest r.2 ns o finds (omega arith) in
            rw (scan_loop, met, not_done, e)
              (complete, r.1 ++ more, q'', refl, Sends-both latest q r.2 q'' r.1 more s t, at' ∙ at)
      ]

  -- Where a call leaves the query: behind the filters, or at one of them.
  record Processed (latest : ℕ) (q : Progress scans) (filters : List F) (sent : List ℕ)
      (complete : Bool) (q' : Progress scans) : Type 0 where
    sends : Sends latest q sent q'
    behind : complete ≡ true → q'.filter_group_index ≡ q.filter_group_index + length filters
    before : complete ≡ false → q'.filter_group_index < q.filter_group_index + length filters

  -- Behind a filter, the scan of the next one starts.
  Slices-next :
      (fuel : ℕ) (txn : scans.Txn) (fs : List F) (q : Progress scans)
      → All (λ g. Slice fuel txn (scans.scan_of g)) fs
      → Slices fuel txn fs (next_filter scans q)
  unfolding next_filter
  Slices-next fuel txn [] q slices = tt
  Slices-next fuel txn (f ∷ fs) q slices = slices

  process_filters-Processed :
      (fuel : ℕ) (txn : scans.Txn) (latest : ℕ) (fs : List F) (q : Progress scans)
      → Slices fuel txn fs q
      → (sent : List ℕ) × (complete : Bool) × (q' : Progress scans) × (process_filters scans fuel
            txn latest fs q
          ≡ some (sent, complete, q'))
        × Processed latest q fs sent complete q'
  unfolding process_filters next_filter
  process_filters-Processed fuel txn latest [] q slices = (
    [],
    true,
    q,
    refl,
    record {
      sends = Sends-nothing latest q q refl;
      behind = λ e. omega arith;
      before = λ e. absurd (true-false e);
    },
  )
  process_filters-Processed fuel txn latest (f ∷ fs) q (slice, slices) =
      let scanner = scanner_of scans f q in
      let (complete, sent, q', e, s, at) =
        scan_loop-Sends fuel txn f latest scanner q slice.found_ids slice.left slice.finds
          slice.few in
      elim (Bool-cases complete) [
        | inr paused_there ↦
            rw (process_filters, e, paused_there)
              (
                sent,
                false,
                q',
                refl,
                record {
                  sends = s;
                  behind = λ e. absurd (true-false (sym e));
                  before = λ e. omega (arith, at);
                },
              )
        | inl through ↦
            let (more, all, q'', e', p) =
              process_filters-Processed fuel txn latest fs (next_filter scans q')
                (Slices-next fuel txn fs q' slices) in
            rw (process_filters, e, through, e')
              (
                sent ++ more,
                all,
                q'',
                refl,
                record {
                  sends = Sends-both latest q q' q'' sent more s (record {
                    noted = p.sends.noted;
                    once = p.sends.once;
                    known = p.sends.known;
                  });
                  behind = λ d. p.behind d ∙ omega (arith, at);
                  before = λ d. omega (arith, at, p.before d);
                },
              )
      ]

  -- What a call of `process` does.
  pub record Passes (sub : Subscription (List F)) (q : Progress scans) (sent : List ℕ)
      (complete : Bool) (q' : Progress scans) : Type 0 where
    pub sends : Sends sub.latest_event_id q sent q'
    pub behind : complete ≡ true → q'.filter_group_index ≡ length sub.filter_group
    pub before : complete ≡ false → q'.filter_group_index < length sub.filter_group

  -- From an index within the filter group, and where the scan of each filter that is left finds fewer
  -- events than the fuel before it ends or pauses, a call of `process` returns. The events that it
  -- passes on are those that it adds to the sent ones; if those were noted once each they still are, so
  -- that none is passed on twice, and none is newer than the subscription. It answers true exactly when
  -- it is through with the filters.
  pub process-Passes :
      (fuel : ℕ) (txn : scans.Txn) (sub : Subscription (List F)) (q : Progress scans)
      → q.filter_group_index ≤ length sub.filter_group
      → Slices fuel txn (drop q.filter_group_index sub.filter_group) q
      → (sent : List ℕ) × (complete : Bool) × (q' : Progress scans) × (process scans fuel txn sub q
          ≡ some (sent, complete, q'))
        × Passes sub q sent complete q'
  unfolding process
  process-Passes fuel txn sub q h slices =
      let left = drop q.filter_group_index sub.filter_group in
      let (sent, complete, q', e, p) =
        process_filters-Processed fuel txn sub.latest_event_id left q slices in
      let size = length-drop q.filter_group_index sub.filter_group in
      (
        sent,
        complete,
        q',
        e,
        record {
          sends = p.sends;
          behind = λ d. p.behind d ∙ omega (arith, size);
          before = λ d. omega (arith, size, p.before d);
        },
      )
