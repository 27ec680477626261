-- ===== src/Scheduler/Closes.antt =====
-- Closing a connection keeps the scheduler valid.
use strfry_http.Base.{
  if◌then◌else◌, true-false, ℕ, ◌≡◌, refl, sym, ◌∙◌, ap, true, List, [], ◌∷◌, none, some, Bytes, ok,
  ◌==◌, ==_iff, arith, Option-cases, Bool-cases, inl, inr, any, subst,
}
use mathlib.Core.Option.{some-injective}
use strfry_http.Subscription.{SubId, sv, same_sub_id}
use strfry_http.Subscription.Conns.{Conns, find_sub, find_entry, find_conn, erase_conn, entries}
use strfry_http.Subscription.Conns.Lookup.{find_entry-erase_conn, find_sub-entries}
use strfry_http.Subscription.Conns.Entries.{
  AllSubs, AllSubs-map, AllEntries-erase_conn, AllEntries-entries,
}
use strfry_http.Scheduler.{Queries, Options, Heap, Scheduler, close_conn}
use strfry_http.Scheduler.Valid.{IsIndexedAt, IsIndexed, IsValid, expected, count, is_allocated}
use strfry_http.Scheduler.Marks.{
  marked, is_allocated-marked, mark_all-marks, alive-marked, IsIndexedAt-marked,
}
use strfry_http.Scheduler.Removals.{same_place}

module _ {F : Type 0} (queries : Queries F) (options : Options) where
  find_sub-any :
      (k : SubId) (m : List (SubId × ℕ)) (x : ℕ)
      → find_sub k m ≡ some x
      → any (λ e. e.1 == x) m ≡ true
  unfolding find_sub
  find_sub-any k [] x h = cc
  find_sub-any k ((j, v) ∷ m) x h = elim (Bool-cases (same_sub_id j k)) [
    | inl same ↦ let e = some-injective _ _ (rw same at h) in ground (arith, e)
    | inr other ↦ let e = find_sub-any k m x (rw other at h) in ground (arith, e)
  ]

  any-IsIndexedAt :
      (heap : Heap queries options) (c : ℕ) (m : List (SubId × ℕ)) (x : ℕ)
      → AllSubs (IsIndexedAt queries options heap c) m
      → any (λ e. e.1 == x) m ≡ true
      → (b : Bytes) × IsIndexedAt queries options heap c b x
  any-IsIndexedAt heap c [] x all h = cc
  any-IsIndexedAt heap c ((k, a) ∷ m) x (at, all) h = elim (Bool-cases (a == x)) [
    | inl same ↦ (
      sv k,
      subst (λ (y : ℕ). IsIndexedAt queries options heap c (sv k) y) ((==_iff a x).0 same) at,
    )
    | inr other ↦ any-IsIndexedAt heap c m x all (ground (arith, h, other))
  ]

  closed-IsIndexed :
      (c : ℕ) (heap h : Heap queries options) (next : ℕ) (conns : Conns ℕ)
      → IsIndexed queries options heap next conns
      → ((x : ℕ) → h x ≡ marked queries options (any (λ e. e.1 == x) (entries c conns)) (heap x))
      → IsIndexed queries options h next (erase_conn c conns)
  closed-IsIndexed c heap h next conns index marks =
      let here = AllEntries-entries (IsIndexedAt queries options heap) c conns index.indexed in
      record {
        fresh = λ x le. marks x ∙ rw (index.fresh x le) refl;
        indexed =
            AllEntries-erase_conn (IsIndexedAt queries options heap) (IsIndexedAt queries options h)
              c conns
              (λ d b x apart at.
                IsIndexedAt-marked queries options heap h
                  (λ y. any (λ e. e.1 == y) (entries c conns)) d b x marks
                  (elim (Bool-cases (any (λ e. e.1 == x) (entries c conns))) [
                    | inr other ↦ other
                    | inl same ↦
                        let (b', at') = any-IsIndexedAt heap c (entries c conns) x here same in
                        absurd (apart (same_place queries options heap c d b' b x x refl at' at).0)
                  ])
                  at)
              index.indexed;
        live = λ x q there alive.
            let (kept, before) =
              alive-marked queries options (any (λ e. e.1 == x) (entries c conns)) (heap x) q
                (sym (marks x) ∙ there) alive in
            let found = index.live x q before alive in
            find_entry-erase_conn c q.sub.conn_id q.sub.sub_id conns
            ∙ elim (Bool-cases (q.sub.conn_id == c)) [
              | inr other ↦ rw other found
              | inl same ↦
                  let e = (==_iff q.sub.conn_id c).0 same in
                  let hit =
                    find_sub-any q.sub.sub_id (entries c conns) x
                      (find_sub-entries c q.sub.sub_id conns ∙ rw e at found) in
                  absurd (true-false (sym hit ∙ kept))
            ];
      }

  nothing_found :
      (c : ℕ) (conns : Conns ℕ)
      → find_conn c conns ≡ none
      → (d : ℕ) (k : SubId) → find_entry d k conns ≡ (if d == c then none else find_entry d k conns)
  unfolding find_entry
  nothing_found c conns h d k = ground arith

  -- What closing a connection does.
  pub record Closes (c : ℕ) (s s' : Scheduler queries options) : Type 0 where
    pub index : IsIndexed queries options s'.heap s'.next s'.conns
    pub same_running : s'.running ≡ s.running
    pub same_batch : s'.lev_id_batch ≡ s.lev_id_batch
    pub allocated : (x : ℕ) → is_allocated (s'.heap x) ≡ is_allocated (s.heap x)
    pub found :
        (d : ℕ) (k : SubId)
        → find_entry d k s'.conns ≡ (if d == c then none else find_entry d k s.conns)

  pub close_conn-Closes :
      (c : ℕ) (s : Scheduler queries options)
      → IsIndexed queries options s.heap s.next s.conns
      → (s' : Scheduler queries options) × (close_conn queries options c s ≡ ok s') × Closes c s s'
  unfolding close_conn find_entry entries
  close_conn-Closes c s index = elim (Option-cases (find_conn c s.conns)) [
    | inl nothing ↦ (
      s,
      rw (nothing, close_conn) refl,
      record {
        index = index;
        same_running = refl;
        same_batch = refl;
        allocated = λ x. refl;
        found = nothing_found c s.conns nothing;
      },
    )
    | inr (m, found) ↦
        let is_m : entries c s.conns ≡ m = rw (entries, found) refl in
        let all =
          AllSubs-map (IsIndexedAt queries options s.heap c) (λ b a. is_allocated (s.heap a) ≡ true)
            (entries c s.conns) (λ b a at. ap is_allocated at.there)
            (AllEntries-entries (IsIndexedAt queries options s.heap) c s.conns index.indexed) in
        let (h, e, marks) = mark_all-marks queries options (entries c s.conns) s.heap all in
        (
          record s { heap = h; conns = erase_conn c s.conns },
          rw (close_conn, found) (rw (rw is_m at e) refl),
          record {
            index = closed-IsIndexed c s.heap h s.next s.conns index marks;
            same_running = refl;
            same_batch = refl;
            allocated = λ x.
                ap is_allocated (marks x)
                ∙ is_allocated-marked queries options (any (λ e. e.1 == x) (entries c s.conns))
                    (s.heap x);
            found = λ d k. find_entry-erase_conn c d k s.conns;
          },
        )
  ]

  -- From a valid state, closing a connection uses no query that is not allocated and leaves a valid
  -- state: the connection has no query any more, the queries of others stand where they stood, and the
  -- queue is as before.
  pub close_conn-IsValid :
      (c : ℕ) (s : Scheduler queries options)
      → IsValid queries options s
      → (s' : Scheduler queries options) × (close_conn queries options c s ≡ ok s')
        × IsValid queries options s'
        × ((d : ℕ) (k : SubId)
            → find_entry d k s'.conns ≡ (if d == c then none else find_entry d k s.conns))
        × (s'.running ≡ s.running)
  close_conn-IsValid c s valid =
      let (s', e, closes) = close_conn-Closes c s valid.index in
      (
        s',
        e,
        record {
          index = closes.index;
          counted = λ x.
              subst (λ (l : List ℕ). count x l ≡ expected (is_allocated (s'.heap x)))
                (sym closes.same_running)
                (valid.counted x ∙ sym (ap expected (closes.allocated x)));
          no_batch = closes.same_batch ∙ valid.no_batch;
        },
        closes.found,
        closes.same_running,
      )
