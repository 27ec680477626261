-- ===== src/Scheduler/Turns.antt =====
-- The turns that the scheduler gives keep it valid.
use strfry_http.Base.{
  ℕ, ◌≡◌, refl, sym, ◌∙◌, ap, ap₂, Bool, true, false, List, [], ◌∷◌, ◌++◌, none, some, ok, ◌==◌,
  ==_iff, ◌⊎◌, if◌then◌else◌, Option-cases, Bool-cases, inl, inr, subst,
}
use strfry_http.Subscription.{Subscription}
use strfry_http.Subscription.Conns.{find_entry}
use strfry_http.Scheduler.{
  Queries, Options, DbQuery, Call, completed, Heap, Scheduler, put, free, finish, flush, deliver,
  run_live, event_payload,
}
use strfry_http.Scheduler.Valid.{IsIndexed, IsCounted, IsValid, is_allocated, expected, count}
use strfry_http.Scheduler.Removals.{remove_sub-Removes}
use strfry_http.Scheduler.Adds.{put_self, put_other}
use strfry_http.Scheduler.Frees.{
  free_self, rescanned-IsIndexed, freed-IsIndexed, freed-IsCounted, count-append,
}

module _ {F : Type 0} (queries : Queries F) (options : Options) where
  deliver-no_batch :
      (txn : queries.Txn) (sub : Subscription F) (lev_ids : List ℕ)
      → options.on_event_batch ≡ false
      → (deliver queries options txn sub lev_ids).1 ≡ []
  unfolding deliver
  deliver-no_batch txn sub [] off = refl
  deliver-no_batch txn sub (i ∷ lev_ids) off =
      elim (Option-cases (event_payload queries options txn i)) [
        | inl nothing ↦ rw (deliver, nothing) (deliver-no_batch txn sub lev_ids off)
        | inr (p, there) ↦ rw (deliver, there, off) (deliver-no_batch txn sub lev_ids off)
      ]

  -- A flush changes the batch alone, and leaves none.
  flush-no_batch :
      (sub : Subscription F) (s : Scheduler queries options)
      → (options.on_event_batch ≡ false → s.lev_id_batch ≡ [])
      → (flush queries options sub s).1 ≡ record s { lev_id_batch = [] }
  unfolding flush
  flush-no_batch sub s nothing = elim (Bool-cases options.on_event_batch) [
    | inl on ↦ rw on refl
    | inr off ↦ rw off (λ i. record s { lev_id_batch = nothing off i })
  ]

  -- What a turn of the query in front does: it goes to the back, or is deleted.
  pub record Turns (a : ℕ) (rest : List ℕ)
      (out : List (Call queries options) × Scheduler queries options) : Type 0 where
    pub valid : IsValid queries options out.1
    pub moved :
        (out.1.running ≡ rest ++ (a ∷ [])) ⊎ ((out.1.running ≡ rest) × (out.1.heap a ≡ none))

  finish-Turns :
      (a : ℕ) (rest : List ℕ) (q : DbQuery queries options) (calls : List (Call queries options))
      (s : Scheduler queries options)
      → IsIndexed queries options s.heap s.next s.conns
      → IsCounted queries options s.heap (a ∷ rest)
      → s.running ≡ rest
      → s.lev_id_batch ≡ []
      → find_entry q.sub.conn_id q.sub.sub_id s.conns ≡ some a
      → (out : List (Call queries options) × Scheduler queries options) × (finish queries options a
            q.sub calls s
          ≡ ok out)
        × Turns a rest out
  unfolding finish
  finish-Turns a rest q calls s index counted queue batch found =
      let (s1, e, removes) =
        remove_sub-Removes queries options q.sub.conn_id q.sub.sub_id s index in
      (
        (
          calls ++ (if options.on_complete then completed q.sub ∷ [] else []),
          record s1 { heap = free queries options a s1.heap },
        ),
        rw e refl,
        record {
          valid = record {
            index =
                freed-IsIndexed queries options s1.heap s1.next a s1.conns
                  (λ p there. removes.died a p found there) removes.index;
            counted =
                subst
                  (λ (running : List ℕ).
                    IsCounted queries options (free queries options a s1.heap) running)
                  (sym (removes.same_running ∙ queue))
                  (freed-IsCounted queries options s1.heap a rest
                    (λ x. counted x ∙ sym (ap expected (removes.allocated x))));
            no_batch = removes.same_batch ∙ batch;
          };
          moved = inr (removes.same_running ∙ queue, free_self queries options a s1.heap);
        },
      )

  put-allocated :
      (heap : Heap queries options) (a x : ℕ) (q p : DbQuery queries options)
      → heap a ≡ some q
      → is_allocated (put queries options a p heap x) ≡ is_allocated (heap x)
  put-allocated heap a x q p there = elim (Bool-cases (x == a)) [
    | inr other ↦ ap is_allocated (put_other queries options a x p heap other)
    | inl same ↦
        let e = (==_iff x a).0 same in
        let now : put queries options a p heap x ≡ some p =
          ap (put queries options a p heap) e ∙ put_self queries options a p heap in
        let before : heap x ≡ some q = ap heap e ∙ there in
        ap is_allocated now ∙ sym (ap is_allocated before)
  ]

  -- The state behind the scan of a query, before the query is queued again or removed.
  scanned-Turns :
      (complete : Bool) (a : ℕ) (rest : List ℕ) (q : DbQuery queries options)
      (calls : List (Call queries options)) (s : Scheduler queries options)
      → IsIndexed queries options s.heap s.next s.conns
      → IsCounted queries options s.heap (a ∷ rest)
      → s.running ≡ rest
      → s.lev_id_batch ≡ []
      → find_entry q.sub.conn_id q.sub.sub_id s.conns ≡ some a
      → (out : List (Call queries options) × Scheduler queries options) × ((if complete
            then finish queries options a q.sub calls s
            else ok (calls, record s { running = s.running ++ (a ∷ []) }))
          ≡ ok out)
        × Turns a rest out
  scanned-Turns true a rest q calls s index counted queue batch found =
      finish-Turns a rest q calls s index counted queue batch found
  scanned-Turns false a rest q calls s index counted queue batch found = (
    (calls, record s { running = s.running ++ (a ∷ []) }),
    refl,
    record {
      valid = record {
        index = index;
        counted = λ x.
            subst
              (λ (running : List ℕ).
                count x (running ++ (a ∷ [])) ≡ expected (is_allocated (s.heap x)))
              (sym queue) (count-append queries options x a rest ∙ counted x);
        no_batch = batch;
      };
      moved = inl (ap (λ (running : List ℕ). running ++ (a ∷ [])) queue);
    },
  )

  pub run_live-Turns :
      (txn : queries.Txn) (a : ℕ) (rest : List ℕ) (q : DbQuery queries options)
      (s : Scheduler queries options)
      → IsValid queries options (record s { running = a ∷ rest })
      → s.running ≡ rest
      → s.heap a ≡ some q
      → q.dead ≡ false
      → (out : List (Call queries options) × Scheduler queries options) × (run_live queries options
            txn a q s
          ≡ ok out)
        × Turns a rest out
  unfolding run_live
  run_live-Turns txn a rest q s valid queue there alive =
      let ran = queries.process txn q.sub q.scan in
      let q' : DbQuery queries options = record q { scan = ran.2 } in
      let given = deliver queries options txn q.sub ran.0 in
      let s1 : Scheduler queries options = record s {
        heap = put queries options a q' s.heap;
        lev_id_batch = s.lev_id_batch ++ given.1;
      } in
      let flushed = flush queries options q.sub s1 in
      let clear : flushed.1 ≡ record s1 { lev_id_batch = [] } =
        flush-no_batch q.sub s1
          (λ off. ap₂ ◌++◌ valid.no_batch (deliver-no_batch txn q.sub ran.0 off)) in
      let (out, e, turns) =
        scanned-Turns ran.1 a rest q (given.0 ++ flushed.0) (record s1 { lev_id_batch = [] })
          (rescanned-IsIndexed queries options s.heap s.next a s.conns q ran.2 there valid.index)
          (λ x. valid.counted x ∙ sym (ap expected (put-allocated s.heap a x q q' there))) queue
          refl (valid.index.live a q there alive) in
      let same =
        subst
          (λ (t : Scheduler queries options).
            (if ran.1
              then finish queries options a q.sub (given.0 ++ flushed.0) t
              else ok (given.0 ++ flushed.0, record t { running = t.running ++ (a ∷ []) }))
            ≡ ok out)
          (sym clear) e in
      (out, same, turns)
