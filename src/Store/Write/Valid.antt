-- ===== src/Store/Write/Valid.antt =====
-- Writing and deleting events keeps the database valid, and never throws.
use strfry_http.Base.{
  true-false, ℕ, ◌≡◌, refl, ◌∙◌, true, false, not, List, [], ◌∷◌, ◌++◌, Option, none, some, Bytes,
  Result, ok, ◌>>◌, throw_if, ◌==◌, length, All, if_both, if◌then◌else◌, Bool-cases, inl, inr,
  unprocessed_deletion,
}
use strfry_http.Packed.{Encoding, PackedEventView, id, pubkey, kind, packed_event_view}
use strfry_http.Store.Index.{Keys, index_keys}
use strfry_http.Store.Db.{Db}
use strfry_http.Store.Write.{
  EventToWrite, EventWriteStatus, pending, World, view, is_pending, store_event, write_new,
  is_duplicate, write_event, write_loop, write_events, check_views, sort, insert_sorted,
  delete_events, delete_all, find_replaced, find_deleted, duplicate, deleted, written,
}
use strfry_http.Store.Write.Deletes.{holds, delete_all-Removes}
use strfry_http.Store.Write.Replaces.{
  IsValid, HasKey, replaceable, Finds, find_replaced-Finds, find_deleted-found,
  lookup_event_by_id-finds, not_deletion_key,
}
use strfry_http.Store.Write.Inserts.{Removes-IsValid, inserted-IsValid}

module _ {enc : Encoding} (db : Db enc) where
  -- An event that can be written: nothing was decided about it, it is long enough, and its keys can
  -- be computed.
  pub record IsWritable (ev : EventToWrite) : Type 0 where
    pub undecided : ev.status ≡ pending
    pub view_fits : packed_event_view ev.packed_str ≡ ok (view ev)
    pub keys : Keys
    pub indexed : index_keys enc (view ev) ≡ ok keys

  store_event-IsValid :
      (ev : EventToWrite) (k : Keys) (lev_ids : List ℕ) (w : World db)
      → IsValid db w.state
      → index_keys enc (view ev) ≡ ok k
      → ((j : ℕ) (u : PackedEventView)
          → db.lookup_event j w.state ≡ some u
          → id u ≡ id (view ev)
          → ⊥)
      → ((j : ℕ) (u : PackedEventView) (r : Bytes × ℕ)
          → replaceable r.1 ≡ true
          → db.lookup_event j w.state ≡ some u
          → HasKey enc (view ev) r
          → HasKey enc u r
          → holds j lev_ids ≡ true)
      → (out : EventToWrite × World db) × (store_event db ev lev_ids w ≡ ok out)
        × IsValid db out.1.state
        × (is_pending out.0.status ≡ false)
  unfolding store_event
  store_event-IsValid ev k lev_ids w valid h new_id covers =
      let (lev, s1, inserted) = db.insert_throws (view ev) w.state h in
      let w1 : World db = record {
        state = db.put_payload lev (0 ∷ ev.json_str) s1;
        updates = w.updates ++ ((view ev, true) ∷ []);
      } in
      let rm = delete_all-Removes db lev_ids 0 w1 in
      (
        (record ev { status = written; lev_id = lev }, (delete_all db lev_ids 0 w1).1),
        rw (inserted, store_event) refl,
        inserted-IsValid db ev lev_ids w.state s1 _ lev inserted rm valid new_id covers,
        refl,
      )

  write_new-decided :
      (ev : EventToWrite) (w : World db) (lev_ids replacing : List ℕ) (status : EventWriteStatus)
      → find_replaced db (view ev) w.state ≡ ok (replacing, status)
      → find_deleted db (view ev) replacing w.state ≡ ok lev_ids
      → ev.status ≡ pending
      → write_new db (view ev) ev w ≡ (
          if is_pending status
          then store_event db ev lev_ids w
          else throw_if (not (length lev_ids == 0)) unprocessed_deletion
            >> ok (record ev { status = status }, w))
  unfolding write_new
  write_new-decided ev w lev_ids replacing status found d undecided =
      elim (Bool-cases (is_pending status)) [
        | inl goes_on ↦ rw (found, d, undecided, goes_on) refl
        | inr refused ↦ rw (found, d, undecided, refused) refl
      ]

  NewId : EventToWrite → db.State → Type 0
  NewId ev s =
      (j : ℕ) (u : PackedEventView) → db.lookup_event j s ≡ some u → id u ≡ id (view ev) → ⊥

  abbrev Written : EventToWrite → World db → Result (EventToWrite × World db) → Type 0
  Written ev w r =
      (out : EventToWrite × World db) × (r ≡ ok out)
      × IsValid db out.1.state
      × (is_pending out.0.status ≡ false)

  write_found-IsValid :
      (ev : EventToWrite) (w : World db) (lev_ids replacing : List ℕ) (status : EventWriteStatus)
      → IsValid db w.state
      → IsWritable ev
      → NewId ev w.state
      → find_replaced db (view ev) w.state ≡ ok (replacing, status)
      → Finds db w.state (view ev) (replacing, status)
      → find_deleted db (view ev) replacing w.state ≡ ok lev_ids
      → ((kind enc (view ev) == 5) ≡ false → lev_ids ≡ replacing)
      → Written ev w (write_new db (view ev) ev w)
  unfolding NewId
  write_found-IsValid ev w lev_ids replacing status valid good new_id found finds d same =
      let e = write_new-decided ev w lev_ids replacing status found d good.undecided in
      elim (Bool-cases (is_pending status)) [
        | inl goes_on ↦
            let (out, stored, ok_state, done) =
              store_event-IsValid ev good.keys lev_ids w valid good.indexed new_id
                (λ j u r rep there has has'.
                  rw (same (not_deletion_key db (view ev) r rep has))
                    (finds.all goes_on j u r rep there has has')) in
            (out, rw goes_on at e ∙ stored, ok_state, done)
        | inr refused ↦
            let none_left = same (finds.not_deletion refused) ∙ finds.nothing refused in
            ((record ev { status = status }, w), rw (refused, none_left) at e, valid, refused)
      ]

  write_new-IsValid :
      (ev : EventToWrite) (w : World db)
      → IsValid db w.state
      → IsWritable ev
      → NewId ev w.state
      → Written ev w (write_new db (view ev) ev w)
  write_new-IsValid ev w valid good new_id =
      let ((replacing, status), found, finds) =
        find_replaced-Finds db (view ev) good.keys w.state valid good.indexed in
      let (lev_ids, d, same) =
        find_deleted-found db (view ev) good.keys replacing w.state good.indexed in
      write_found-IsValid ev w lev_ids replacing status valid good new_id found finds d same

  not_duplicate-NewId :
      (previous : Option Bytes) (ev : EventToWrite) (s : db.State)
      → is_duplicate db previous (view ev) s ≡ false
      → NewId ev s
  unfolding is_duplicate NewId
  not_duplicate-NewId previous ev s h j u there same =
      let (e, found) = lookup_event_by_id-finds db j u s there in
      true-false (rw (← same, found) at h)

  write_event-IsValid :
      (previous : Option Bytes) (ev : EventToWrite) (w : World db)
      → IsValid db w.state
      → IsWritable ev
      → Written ev w (write_event db previous ev w)
  unfolding write_event
  write_event-IsValid previous ev w valid good =
      elim (Bool-cases (is_duplicate db previous (view ev) w.state)) [
        | inl dup ↦
            ((record ev { status = duplicate }, w), rw (good.view_fits, dup) refl, valid, refl)
        | inr new ↦ elim (Bool-cases (db.has_deletion (id (view ev) ++ pubkey (view ev)) w.state)) [
          | inl gone ↦ (
            (record ev { status = deleted }, w),
            rw (good.view_fits, new, gone) refl,
            valid,
            refl,
          )
          | inr free ↦
              let (out, e, ok_state, done) =
                write_new-IsValid ev w valid good (not_duplicate-NewId previous ev w.state new) in
              (out, rw (good.view_fits, new, free) e, ok_state, done)
        ]
      ]

  write_loop-IsValid :
      (previous : Option Bytes) (evs : List EventToWrite) (w : World db)
      → IsValid db w.state
      → All IsWritable evs
      → (out : List EventToWrite × World db) × (write_loop db previous evs w ≡ ok out)
        × IsValid db out.1.state
        × All (λ ev. is_pending ev.status ≡ false) out.0
  unfolding write_loop
  write_loop-IsValid previous [] w valid good = (([], w), refl, valid, tt)
  write_loop-IsValid previous (ev ∷ evs) w valid (good, goods) =
      let ((ev', w'), e, valid', done) = write_event-IsValid previous ev w valid good in
      let ((evs', w''), e', valid'', dones) =
        write_loop-IsValid (some (id (view ev))) evs w' valid' goods in
      ((ev' ∷ evs', w''), rw (e, e') refl, valid'', (done, dones))

  insert_sorted-IsWritable :
      (ev : EventToWrite) (evs : List EventToWrite)
      → IsWritable ev
      → All IsWritable evs
      → All IsWritable (insert_sorted enc ev evs)
  unfolding insert_sorted
  insert_sorted-IsWritable ev [] h hs = (h, tt)
  insert_sorted-IsWritable ev (e ∷ evs) h (h', hs) =
      if_both (All IsWritable) _ (e ∷ insert_sorted enc ev evs) (ev ∷ e ∷ evs)
        (h', insert_sorted-IsWritable ev evs h hs) (h, (h', hs))

  sort-IsWritable : (evs : List EventToWrite) → All IsWritable evs → All IsWritable (sort enc evs)
  unfolding sort
  sort-IsWritable [] h = tt
  sort-IsWritable (ev ∷ evs) (h, hs) =
      insert_sorted-IsWritable ev (sort enc evs) h (sort-IsWritable evs hs)

  check_views-ok : (evs : List EventToWrite) → All IsWritable evs → check_views evs ≡ ok tt
  unfolding check_views
  check_views-ok [] h = refl
  check_views-ok (ev ∷ evs) (h, hs) = rw (h.view_fits, check_views-ok evs hs) refl

  -- Writing a batch of undecided events whose keys can be computed to a valid database never
  -- throws, "unprocessed deletion" included; it decides about every event and leaves the database
  -- valid: no id is stored twice, there is one event for each key of a replaceable kind, and every
  -- event has a payload.
  pub write_events-IsValid :
      (evs : List EventToWrite) (w : World db)
      → IsValid db w.state
      → All IsWritable evs
      → (out : List EventToWrite × World db) × (write_events db evs w ≡ ok out)
        × IsValid db out.1.state
        × All (λ ev. is_pending ev.status ≡ false) out.0
  unfolding write_events
  write_events-IsValid evs w valid good =
      let (out, e, valid', done) =
        write_loop-IsValid none (sort enc evs) w valid (sort-IsWritable evs good) in
      (out, rw (check_views-ok evs good) e, valid', done)

  -- Deleting events keeps the database valid, and afterwards none of them is there.
  pub delete_events-IsValid :
      (lev_ids : List ℕ) (w : World db)
      → IsValid db w.state
      → IsValid db (delete_events db lev_ids w).1.state
        × ((j : ℕ)
            → db.lookup_event j (delete_events db lev_ids w).1.state
              ≡ (if holds j lev_ids then none else db.lookup_event j w.state))
  unfolding delete_events
  delete_events-IsValid lev_ids w valid =
      let rm = delete_all-Removes db lev_ids 0 w in
      (Removes-IsValid db lev_ids w.state _ rm valid, rm.events)
