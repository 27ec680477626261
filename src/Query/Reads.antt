-- ===== src/Query/Reads.antt =====
-- What the scan of one filter passes on: all events that it finds, up to the limit of the filter.
use strfry_http.Base.{
  ℕ, zero, suc, ◌+◌, ◌-◌, ◌≤◌, ◌<◌, ◌≡◌, refl, sym, ap, ◌∙◌, ◌⊎◌, inl, inr, Bool, true, false,
  Option, none, some, List, [], ◌∷◌, ◌++◌, arith, ltb, ◌==◌, true-false, Bool-cases, length,
  length-append, All, mem, mem-append,
}
use strfry_http.Query.{Scans, Progress, insert, handle_event, scan_loop}
use strfry_http.Query.Sends.{
  Finds, ends, pauses, goes_on, Sends, Sends-nothing, Sends-both, handle_event-Sends,
}

mem_append_l : (a : ℕ) (ms ns : List ℕ) → mem a ms ≡ true → mem a (ms ++ ns) ≡ true
mem_append_l a [] ns h = absurd (true-false (sym h))
mem_append_l a (m ∷ ms) ns h = ground (arith, mem_append_l a ms ns)

module _ {F : Type 0} (scans : Scans F) where
  mem-insert : (n : ℕ) (ns : List ℕ) → mem n (insert scans n ns) ≡ true
  mem-insert n ns = elim (Bool-cases (mem n ns)) [
    | inl there ↦ rw there there
    | inr new ↦ rw new (mem-append n n ns ∙ ground arith)
  ]

  length-insert : (n : ℕ) (ns : List ℕ) → length (insert scans n ns) ≤ length ns + 1
  length-insert n ns = elim (Bool-cases (mem n ns)) [
    | inl there ↦ rw there (omega arith)
    | inr new ↦ rw new (omega (arith, length-append ns (n ∷ [])))
  ]

  -- The callback ends the scan exactly at the limit, and else has passed a known event on.
  record Handled (f : F) (latest lev_id : ℕ) (done : Bool) (q' : Progress scans) : Type 0 where
    full : done ≡ true → scans.limit f ≤ length q'.sent_events_curr
    room : done ≡ false → length q'.sent_events_curr ≤ scans.limit f - 1
    within : length q'.sent_events_curr ≤ scans.limit f
    passed : done ≡ false → lev_id ≤ latest → mem lev_id q'.sent_events_full ≡ true

  handle_event-Handled :
      (f : F) (latest lev_id : ℕ) (q : Progress scans)
      → length q.sent_events_curr ≤ scans.limit f - 1
      → Handled f latest lev_id
          (handle_event scans f latest lev_id q).0
          (handle_event scans f latest lev_id q).2
  unfolding handle_event
  handle_event-Handled f latest lev_id q h = elim (Bool-cases (scans.limit f == 0)) [
    | inl no_limit ↦ rw no_limit record {
      full = λ e. ground (arith, no_limit);
      room = λ e. h;
      within = omega arith;
      passed = λ e. absurd (true-false e);
    }
    | inr limited ↦ elim (Bool-cases (ltb latest lev_id)) [
      | inl newer ↦
          rw (limited, newer)
            record {
              full = λ e. absurd (true-false (sym e));
              room = λ e. h;
              within = omega arith;
              passed = λ e known. ground (arith, newer, known);
            }
      | inr known ↦
          let size = length-insert lev_id q.sent_events_curr in
          rw (limited, known)
            record {
              full = λ e. ground (arith, e);
              room = λ e. ground (arith, e);
              within = ground (arith, limited, h, size);
              passed = λ e k. mem-insert lev_id q.sent_events_full;
            }
    ]
  ]

  -- What a slice of the scan of a filter reaches, where `ns` are the events before the scan and `o`
  -- what is left of it: the limit, or the end of the slice.
  pub record Reads (f : F) (latest : ℕ) (ns : List ℕ) (o : Option scans.Scanner) (complete : Bool)
      (q' : Progress scans) : Type 0 where
    pub within : length q'.sent_events_curr ≤ scans.limit f
    pub room : complete ≡ false → length q'.sent_events_curr ≤ scans.limit f - 1
    pub passed :
        ((complete ≡ true) × (scans.limit f ≤ length q'.sent_events_curr))
        ⊎ (All (λ n. n ≤ latest → mem n q'.sent_events_full ≡ true) ns
            × (complete ≡ false → q'.scanner ≡ o)
            × (complete ≡ true → o ≡ none))

  kept :
      (latest n : ℕ) (q q' : Progress scans) (sent : List ℕ)
      → Sends scans latest q sent q'
      → mem n q.sent_events_full ≡ true
      → mem n q'.sent_events_full ≡ true
  kept latest n q q' sent s h = ap (mem n) s.noted ∙ mem_append_l n q.sent_events_full sent h

  Reads-then :
      (f : F) (latest n : ℕ) (ns : List ℕ) (o : Option scans.Scanner) (complete : Bool)
      (q q' : Progress scans) (sent : List ℕ)
      → Sends scans latest q sent q'
      → (n ≤ latest → mem n q.sent_events_full ≡ true)
      → Reads f latest ns o complete q'
      → Reads f latest (n ∷ ns) o complete q'
  Reads-then f latest n ns o complete q q' sent s first reads = record {
    within = reads.within;
    room = reads.room;
    passed = elim reads.passed [
      | inl full ↦ inl full
      | inr (noted, left, gone) ↦
          inr ((λ known. kept latest n q q' sent s (first known), noted), left, gone)
    ];
  }

  -- With a place left under the limit of the filter, a scan that finds `ns` before it ends or pauses
  -- returns. It never notes more events than the limit. Either it is complete and has noted as many
  -- as the limit, or each of `ns` that is not newer than the subscription has been passed on by
  -- then, now or in an earlier slice, and the query keeps what is left of the scan if it pauses.
  pub scan_loop-Reads :
      (fuel : ℕ) (txn : scans.Txn) (f : F) (latest : ℕ) (scanner : scans.Scanner)
      (q : Progress scans) (ns : List ℕ) (o : Option scans.Scanner)
      → Finds scans txn scanner ns o
      → length q.sent_events_curr ≤ scans.limit f - 1
      → length ns < fuel
      → (complete : Bool) × (sent : List ℕ) × (q' : Progress scans) × (scan_loop scans fuel txn f
            latest scanner q
          ≡ some (complete, sent, q'))
        × Sends scans latest q sent q'
        × Reads f latest ns o complete q'
  unfolding scan_loop
  scan_loop-Reads zero txn f latest scanner q ns o finds h enough = elim enough [ ]
  scan_loop-Reads (suc fuel) txn f latest scanner q [] none (ends through) h enough =
      rw (scan_loop, through)
        (
          true,
          [],
          q,
          refl,
          Sends-nothing scans latest q q refl,
          record {
            within = omega arith;
            room = λ e. h;
            passed = inr (tt, λ e. absurd (true-false e), λ e. refl);
          },
        )
  scan_loop-Reads (suc fuel) txn f latest scanner q [] (some rest) (pauses over) h enough =
      let q' : Progress scans = record q { scanner = some rest } in
      rw (scan_loop, over)
        (
          false,
          [],
          q',
          refl,
          Sends-nothing scans latest q q' refl,
          record {
            within = omega arith;
            room = λ e. h;
            passed = inr (tt, λ e. refl, λ e. absurd (true-false (sym e)));
          },
        )
  scan_loop-Reads (suc fuel) txn f latest scanner q (n ∷ ns) o (goes_on {rest = rest} met finds) h
        enough =
      let r = handle_event scans f latest n q in
      let s = handle_event-Sends scans f latest n q in
      let handled = handle_event-Handled f latest n q h in
      elim (Bool-cases r.0) [
        | inl done ↦
            rw (scan_loop, met, done)
              (
                true,
                r.1,
                r.2,
                refl,
                s,
                record {
                  within = handled.within;
                  room = λ e. absurd (true-false e);
                  passed = inl (refl, handled.full done);
                },
              )
        | inr not_done ↦
            let (complete, more, q'', e, t, reads) =
              scan_loop-Reads fuel txn f latest rest r.2 ns o finds (handled.room not_done)
                (omega arith) in
            rw (scan_loop, met, not_done, e)
              (
                complete,
                r.1 ++ more,
                q'',
                refl,
                Sends-both scans latest q r.2 q'' r.1 more s t,
                Reads-then f latest n ns o complete r.2 q'' more t (handled.passed not_done) reads,
              )
      ]
