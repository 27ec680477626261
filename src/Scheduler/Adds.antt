-- ===== src/Scheduler/Adds.antt =====
-- A new subscription keeps the scheduler valid.
use strfry_http.Base.{
  ℕ, ◌+◌, ◌≡◌, refl, sym, ◌∙◌, ap, Bool, true, false, ◌&&◌, List, [], ◌∷◌, none, some, Bytes, ok,
  ◌==◌, ==_iff, length, leb, if◌then◌else◌, arith, Option-cases, Bool-cases, inl, inr, subst,
}
use mathlib.Core.Option.{some-injective}
use strfry_http.Subscription.{Subscription, SubId, same_sub_id}
use strfry_http.Subscription.Conns.{Conns, find_entry, entries, touch_conn, add_entry}
use strfry_http.Subscription.Conns.Lookup.{find_entry_congr, same_sub_id_refl}
use strfry_http.Scheduler.{
  Queries, Options, DbQuery, Heap, Scheduler, put, replace_sub, add_sub, find_query, remove_sub,
}
use strfry_http.Scheduler.Valid.{
  IsIndexedAt, IsIndexed, IsCounted, IsValid, is_allocated, expected, count,
}
use strfry_http.Subscription.Conns.Lookup.{find_entry-add_entry, find_entry-touch_conn}
use strfry_http.Subscription.Conns.Entries.{AllEntries-add_entry, AllEntries-touch_conn}
use strfry_http.Scheduler.Removals.{remove_sub-Removes}

module _ {F : Type 0} (queries : Queries F) (options : Options) where
  remove_sub-nothing :
      (c : ℕ) (k : SubId) (s : Scheduler queries options)
      → find_query queries options c k s ≡ none
      → remove_sub queries options c k s ≡ ok s
  unfolding remove_sub
  remove_sub-nothing c k s h = rw (h, remove_sub) refl

  replace_sub-is :
      (c : ℕ) (k : SubId) (s : Scheduler queries options)
      → replace_sub queries options c k s ≡ remove_sub queries options c k s
  unfolding replace_sub
  replace_sub-is c k s = elim (Option-cases (find_query queries options c k s)) [
    | inl nothing ↦ rw (nothing, replace_sub) (sym (remove_sub-nothing c k s nothing))
    | inr (a, found) ↦ rw (found, replace_sub) refl
  ]

  -- The address of a new query.
  pub put_self :
      (a : ℕ) (q : DbQuery queries options) (heap : Heap queries options)
      → put queries options a q heap a ≡ some q
  unfolding put
  put_self a q heap = ground arith

  pub put_other :
      (a b : ℕ) (q : DbQuery queries options) (heap : Heap queries options)
      → (b == a) ≡ false
      → put queries options a q heap b ≡ heap b
  unfolding put
  put_other a b q heap h = rw h refl

  pub IsIndexedAt-put :
      (heap : Heap queries options) (a : ℕ) (q : DbQuery queries options) (c : ℕ) (b : Bytes)
      (x : ℕ)
      → (x == a) ≡ false
      → IsIndexedAt queries options heap c b x
      → IsIndexedAt queries options (put queries options a q heap) c b x
  IsIndexedAt-put heap a q c b x other at = record {
    query = at.query;
    there = put_other a x q heap other ∙ at.there;
    alive = at.alive;
    conn = at.conn;
    named = at.named;
  }

  -- An entry has an address that is allocated.
  entry-allocated :
      (heap : Heap queries options) (a : ℕ) (c : ℕ) (b : Bytes) (x : ℕ)
      → heap a ≡ none
      → IsIndexedAt queries options heap c b x
      → (x == a) ≡ false
  entry-allocated heap a c b x free_a at = elim (Bool-cases (x == a)) [
    | inr other ↦ other
    | inl same ↦
        let e : heap x ≡ none = ap heap ((==_iff x a).0 same) ∙ free_a in
        let there : heap x ≡ some at.query = at.there in cc
  ]

  added-IsIndexed :
      (heap : Heap queries options) (next : ℕ) (conns : Conns ℕ) (q : DbQuery queries options)
      → IsIndexed queries options heap next conns
      → q.dead ≡ false
      → find_entry q.sub.conn_id q.sub.sub_id conns ≡ none
      → IsIndexed queries options
          (put queries options next q heap)
          (next + 1)
          (add_entry q.sub.conn_id q.sub.sub_id next conns)
  added-IsIndexed heap next conns q index alive gone =
      let free_next = index.fresh next (omega arith) in
      record {
        fresh = λ x le. put_other next x q heap (ground arith) ∙ index.fresh x (omega arith);
        indexed =
            AllEntries-add_entry (IsIndexedAt queries options heap)
              (IsIndexedAt queries options (put queries options next q heap)) q.sub.conn_id
              q.sub.sub_id next conns
              (λ d b x at.
                IsIndexedAt-put heap next q d b x (entry-allocated heap next d b x free_next at) at)
              (record {
                query = q;
                there = put_self next q heap;
                alive = alive;
                conn = refl;
                named = refl;
              })
              index.indexed;
        live = λ x p there live.
            find_entry-add_entry q.sub.conn_id p.sub.conn_id q.sub.sub_id p.sub.sub_id next conns
            ∙ elim (Bool-cases (x == next)) [
              | inl same ↦
                  let e = (==_iff x next).0 same in
                  let pq : q ≡ p = some-injective _ _ (
                    sym (put_self next q heap)
                    ∙ (ap (put queries options next q heap) (sym e) ∙ there)) in
                  subst
                    (λ (p : DbQuery queries options).
                      (if p.sub.conn_id == q.sub.conn_id && same_sub_id q.sub.sub_id p.sub.sub_id
                        then some next
                        else find_entry p.sub.conn_id p.sub.sub_id conns)
                      ≡ some x)
                    pq (rw (same_sub_id_refl q.sub.sub_id) (ground (arith, e)))
              | inr other ↦
                  let found = index.live x p (sym (put_other next x q heap other) ∙ there) live in
                  elim (Bool-cases
                    (p.sub.conn_id == q.sub.conn_id && same_sub_id q.sub.sub_id p.sub.sub_id)) [
                      | inr apart ↦ rw apart found
                      | inl alike ↦
                          let conn : p.sub.conn_id ≡ q.sub.conn_id =
                            (==_iff p.sub.conn_id q.sub.conn_id).0 (ground (arith, alike)) in
                          let named : same_sub_id q.sub.sub_id p.sub.sub_id ≡ true =
                            ground (arith, alike) in
                          let found' : find_entry q.sub.conn_id p.sub.sub_id conns ≡ some x =
                            rw conn at found in
                          cc (
                            find_entry_congr q.sub.conn_id q.sub.sub_id p.sub.sub_id conns named,
                            gone,
                            found',
                          )
                    ]
            ];
      }

  added-IsCounted :
      (heap : Heap queries options) (next : ℕ) (q : DbQuery queries options) (running : List ℕ)
      → heap next ≡ none
      → IsCounted queries options heap running
      → IsCounted queries options (put queries options next q heap) (next ∷ running)
  unfolding count
  added-IsCounted heap next q running free_next counted x = elim (Bool-cases (x == next)) [
    | inl same ↦
        let nowhere : count next running ≡ 0 =
          counted next ∙ ap (λ o. expected (is_allocated o)) free_next in
        let here : expected (is_allocated (put queries options next q heap next)) ≡ 1 =
          ap (λ o. expected (is_allocated o)) (put_self next q heap) in
        subst
          (λ (y : ℕ).
            count y (next ∷ running) ≡ expected (is_allocated (put queries options next q heap y)))
          (sym ((==_iff x next).0 same)) (ground (arith, nowhere, here))
    | inr other ↦
        let there = ap (λ o. expected (is_allocated o)) (put_other next x q heap other) in
        ground (arith, other, counted x, there)
  ]

  abbrev pub latest : queries.Txn → Subscription F → Subscription F
  latest txn sub = record sub { latest_event_id = queries.most_recent_lev_id txn }

  -- What a new subscription does: it is refused, or its query waits at the front of the queue.
  pub record Adds (txn : queries.Txn) (sub : Subscription F) (s : Scheduler queries options)
      (out : Bool × Scheduler queries options) : Type 0 where
    pub valid : IsValid queries options out.1
    pub refused :
        out.0 ≡ false
        → (find_query queries options sub.conn_id sub.sub_id out.1 ≡ none)
          × (out.1.running ≡ s.running)
    pub accepted :
        out.0 ≡ true
        → (a : ℕ) × (find_query queries options sub.conn_id sub.sub_id out.1 ≡ some a)
          × (out.1.heap a
              ≡ some (record { sub = latest txn sub; dead = false; scan = queries.start }))
          × (out.1.running ≡ a ∷ s.running)

  -- From a valid state, a new subscription uses no query that is not allocated and leaves a valid
  -- state: it is refused and has no query, or its query, alive and with the latest event's number,
  -- is found under its id and is in front of the queue.
  pub add_sub-Adds :
      (txn : queries.Txn) (sub : Subscription F) (s : Scheduler queries options)
      → IsValid queries options s
      → (out : Bool × Scheduler queries options) × (add_sub queries options txn sub s ≡ ok out)
        × Adds txn sub s out
  unfolding add_sub find_query
  add_sub-Adds txn sub s valid =
      let c = sub.conn_id in
      let k = sub.sub_id in
      let (s1, e, removes) = remove_sub-Removes queries options c k s valid.index in
      let q : DbQuery queries options = record {
        sub = latest txn sub;
        dead = false;
        scan = queries.start;
      } in
      let counted1 : IsCounted queries options s1.heap s1.running =
        λ x. rw (removes.same_running, removes.allocated x) (valid.counted x) in
      let batch1 : s1.lev_id_batch ≡ [] = removes.same_batch ∙ valid.no_batch in
      elim (Bool-cases (leb options.max_subs (length (entries c s1.conns)))) [
        | inl full ↦ (
          (false, record s1 { conns = touch_conn c s1.conns }),
          rw (replace_sub-is c k s, e, full) refl,
          record {
            valid = record {
              index = record {
                fresh = removes.index.fresh;
                indexed =
                    AllEntries-touch_conn (IsIndexedAt queries options s1.heap) c s1.conns
                      removes.index.indexed;
                live = λ a p there live.
                    find_entry-touch_conn c p.sub.conn_id p.sub.sub_id s1.conns
                    ∙ removes.index.live a p there live;
              };
              counted = counted1;
              no_batch = batch1;
            };
            refused =
                λ r. (find_entry-touch_conn c c k s1.conns ∙ removes.gone, removes.same_running);
            accepted = λ r. cc;
          },
        )
        | inr room ↦ (
          (
            true,
            record s1 {
              heap = put queries options s1.next q s1.heap;
              next = s1.next + 1;
              conns = add_entry c k s1.next s1.conns;
              running = s1.next ∷ s1.running;
            },
          ),
          rw (replace_sub-is c k s, e, room) refl,
          record {
            valid = record {
              index = added-IsIndexed s1.heap s1.next s1.conns q removes.index refl removes.gone;
              counted =
                  added-IsCounted s1.heap s1.next q s1.running
                    (removes.index.fresh s1.next (omega arith)) counted1;
              no_batch = batch1;
            };
            refused = λ r. cc;
            accepted = λ r. (
              s1.next,
              find_entry-add_entry c c k k s1.next s1.conns
                  ∙ rw (same_sub_id_refl k) (ground arith),
              put_self s1.next q s1.heap,
              ap (◌∷◌ s1.next) removes.same_running,
            );
          },
        )
      ]
