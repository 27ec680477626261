-- ===== src/Scheduler/Removals.antt =====
-- Removals keep the index of the scheduler.
use strfry_http.Base.{
  true-false, ℕ, ◌≡◌, refl, sym, ◌∙◌, ap, Bool, true, false, ◌&&◌, Option, none, some, Bytes, ok,
  ◌==◌, ==_iff, arith, Option-cases, Bool-cases, inl, inr,
}
use mathlib.Core.Option.{some-injective}
use strfry_http.Subscription.{SubId, sv, same_sub_id}
use strfry_http.Subscription.Conns.{Conns, find_entry, remove_entry}
use strfry_http.Subscription.Conns.Lookup.{
  find_entry-remove_entry, find_entry_congr, same_sub_id_refl,
}
use strfry_http.Subscription.Conns.Entries.{AllEntries-find_entry, AllEntries-remove_entry}
use strfry_http.Scheduler.{Queries, Options, DbQuery, Heap, Scheduler, find_query, remove_sub}
use strfry_http.Scheduler.Valid.{IsIndexedAt, IsIndexed, is_allocated}
use strfry_http.Scheduler.Marks.{
  marked, is_allocated-marked, mark_dead-marks, alive-marked, IsIndexedAt-marked,
}

module _ {F : Type 0} (queries : Queries F) (options : Options) where
  -- What a removal does.
  pub record Removes (c : ℕ) (k : SubId) (s s' : Scheduler queries options) : Type 0 where
    pub index : IsIndexed queries options s'.heap s'.next s'.conns
    pub same_running : s'.running ≡ s.running
    pub same_batch : s'.lev_id_batch ≡ s.lev_id_batch
    pub same_next : s'.next ≡ s.next
    pub allocated : (x : ℕ) → is_allocated (s'.heap x) ≡ is_allocated (s.heap x)
    pub gone : find_entry c k s'.conns ≡ none
    pub died :
        (a : ℕ) (q : DbQuery queries options)
        → find_entry c k s.conns ≡ some a
        → s'.heap a ≡ some q
        → q.dead ≡ true

  pub same_place :
      (heap : Heap queries options) (c d : ℕ) (b b' : Bytes) (a x : ℕ)
      → a ≡ x
      → IsIndexedAt queries options heap c b a
      → IsIndexedAt queries options heap d b' x
      → (d ≡ c) × (b' ≡ b)
  same_place heap c d b b' a x e at here =
      let same : here.query ≡ at.query =
        some-injective _ _ (sym here.there ∙ (ap heap (sym e) ∙ at.there)) in
      (
        sym here.conn ∙ (ap (λ q. q.sub.conn_id) same ∙ at.conn),
        sym here.named ∙ (ap (λ q. sv q.sub.sub_id) same ∙ at.named),
      )

  removed-IsIndexed :
      (c : ℕ) (k : SubId) (heap h : Heap queries options) (next a : ℕ) (conns : Conns ℕ)
      → IsIndexed queries options heap next conns
      → find_entry c k conns ≡ some a
      → ((x : ℕ) → h x ≡ marked queries options (a == x) (heap x))
      → IsIndexed queries options h next (remove_entry c k conns)
  removed-IsIndexed c k heap h next a conns index found marks =
      let at =
        AllEntries-find_entry (IsIndexedAt queries options heap) c k conns a index.indexed found in
      record {
        fresh = λ x le. marks x ∙ rw (index.fresh x le) refl;
        indexed =
            AllEntries-remove_entry (IsIndexedAt queries options heap)
              (IsIndexedAt queries options h) c k conns
              (λ d b x apart here.
                IsIndexedAt-marked queries options heap h (λ y. a == y) d b x marks
                  (elim (Bool-cases (a == x)) [
                    | inr other ↦ other
                    | inl same ↦
                        absurd
                          (apart (same_place heap c d (sv k) b a x ((==_iff a x).0 same) at here))
                  ])
                  here)
              index.indexed;
        live = λ x q there alive.
            let (kept, before) =
              alive-marked queries options (a == x) (heap x) q (sym (marks x) ∙ there) alive in
            let found_x = index.live x q before alive in
            find_entry-remove_entry c q.sub.conn_id k q.sub.sub_id conns
            ∙ elim (Bool-cases (q.sub.conn_id == c && same_sub_id k q.sub.sub_id)) [
              | inr other ↦ rw other found_x
              | inl same ↦
                  let conn : q.sub.conn_id ≡ c =
                    (==_iff q.sub.conn_id c).0 (ground (arith, same)) in
                  let named : same_sub_id k q.sub.sub_id ≡ true = ground (arith, same) in
                  let e : a ≡ x = some-injective _ _ (
                    sym found
                    ∙ (find_entry_congr c k q.sub.sub_id conns named ∙ rw conn at found_x)) in
                  absurd (true-false (sym ((==_iff a x).1 e) ∙ kept))
            ];
      }

  died-marked :
      (t : Bool) (o : Option (DbQuery queries options)) (q : DbQuery queries options)
      → t ≡ true
      → marked queries options t o ≡ some q
      → q.dead ≡ true
  died-marked false o q e h = cc
  died-marked true none q e h = cc
  died-marked true (some p) q e h = ap (λ x. x.dead) (sym (some-injective _ _ h))

  pub remove_sub-Removes :
      (c : ℕ) (k : SubId) (s : Scheduler queries options)
      → IsIndexed queries options s.heap s.next s.conns
      → (s' : Scheduler queries options) × (remove_sub queries options c k s ≡ ok s')
        × Removes c k s s'
  unfolding remove_sub find_query
  remove_sub-Removes c k s index = elim (Option-cases (find_entry c k s.conns)) [
    | inl nothing ↦ (
      s,
      rw (nothing, remove_sub) refl,
      record {
        index = index;
        same_running = refl;
        same_batch = refl;
        same_next = refl;
        allocated = λ x. refl;
        gone = nothing;
        died = λ a q found there. cc (nothing, found);
      },
    )
    | inr (a, found) ↦
        let at =
          AllEntries-find_entry (IsIndexedAt queries options s.heap) c k s.conns a index.indexed
            found in
        let (h, e, marks) = mark_dead-marks queries options a s.heap at.query at.there in
        (
          record s { heap = h; conns = remove_entry c k s.conns },
          rw (found, remove_sub, e) refl,
          record {
            index = removed-IsIndexed c k s.heap h s.next a s.conns index found marks;
            same_running = refl;
            same_batch = refl;
            same_next = refl;
            allocated = λ x.
                ap is_allocated (marks x) ∙ is_allocated-marked queries options (a == x) (s.heap x);
            died = λ x q found' there.
                let e : a ≡ x = some-injective _ _ (sym found ∙ found') in
                died-marked (a == x) (s.heap x) q ((==_iff a x).1 e) (sym (marks x) ∙ there);
            gone = find_entry-remove_entry c c k k s.conns ∙ rw (same_sub_id_refl k) (ground arith);
          },
        )
  ]
