-- ===== src/Store/Write.antt =====
-- `lookupEventById`, `deleteEventBasic`, `writeEvents` and `deleteEvents` of src/events.cpp and
-- src/events.h. The updates of the negentropy trees are the list of what is passed to
-- `updateNegentropy`, in order; logging is left out.
use strfry_http.Base.{
  ℕ, zero, suc, ◌+◌, ◌≡◌, Bool, true, false, not, ◌&&◌, ◌||◌, List, [], ◌∷◌, ◌++◌, Option, none,
  some, Bytes, Result, ok, err, ◌>>=◌, ◌>>◌, throw_if, length, ltb, ◌==◌, if◌then◌else◌, bytes_eq,
  bytes_lt, take, unprocessed_deletion, missing_lev_id,
}
use strfry_http.Packed.{
  Encoding, PackedEventView, packed_event_view, id, pubkey, created_at, kind, foreach_tag, Callback,
}
use strfry_http.Event.Json.{is_replaceable_kind, is_param_replaceable_kind}
use strfry_http.Store.Index.{first_d_tag}
use strfry_http.Store.Db.{Db, Entry}
pub mod Deletes
pub mod Replaces
pub mod Inserts
pub mod Valid
pub mod Stored

pub data EventWriteStatus : Type 0 where
  pending written duplicate replaced deleted : EventWriteStatus

pub record EventToWrite : Type 0 where
  pub packed_str : Bytes
  pub json_str : Bytes
  pub status : EventWriteStatus
  pub lev_id : ℕ

abbrev pub view : EventToWrite → PackedEventView
view ev = record { buf = ev.packed_str }

abbrev pub is_pending : EventWriteStatus → Bool
is_pending pending = true
is_pending _ = false

-- `std::sort` by the time, then by the id.
module _ (enc : Encoding) where
  unfoldable pub is_before : EventToWrite → EventToWrite → Bool
  is_before a b =
      if created_at enc (view a) == created_at enc (view b)
      then bytes_lt (id (view a)) (id (view b))
      else ltb (created_at enc (view a)) (created_at enc (view b))

  unfoldable pub insert_sorted : EventToWrite → List EventToWrite → List EventToWrite
  insert_sorted ev [] = ev ∷ []
  insert_sorted ev (e ∷ evs) =
      let rest = e ∷ insert_sorted ev evs in if is_before e ev then rest else ev ∷ e ∷ evs

  unfoldable pub sort : List EventToWrite → List EventToWrite
  sort [] = []
  sort (ev ∷ evs) = insert_sorted ev (sort evs)

-- Every view that the comparison makes is long enough.
unfoldable pub check_views : List EventToWrite → Result (Unit {0})
check_views [] = ok tt
check_views (ev ∷ evs) = do v ← packed_event_view ev.packed_str; check_views evs

module _ {enc : Encoding} (db : Db enc) where
  -- The database, and the updates of the negentropy trees.
  pub record World : Type 0 where
    pub state : db.State
    pub updates : List (PackedEventView × Bool)

  abbrev starts_with : Bytes → Bytes → Bool
  starts_with s prefix = bytes_eq (take (length prefix) s) prefix

  -- The levId and the event.
  unfoldable pub lookup_event_by_id : Bytes → db.State → Option (ℕ × PackedEventView)
  lookup_event_by_id event_id s = elim (db.first_id event_id s) [
    | none ↦ none
    | some e ↦ elim (db.lookup_event e.lev_id s) [
      | none ↦ none
      | some v ↦
          if starts_with (e.key ++ enc.to_sv e.number) event_id then some (e.lev_id, v) else none
    ]
  ]

  unfoldable pub lookup_event_by_lev_id : ℕ → db.State → Result PackedEventView
  lookup_event_by_lev_id lev_id s = elim (db.lookup_event lev_id s) [
    | none ↦ err missing_lev_id
    | some v ↦ ok v
  ]

  unfoldable pub delete_event_basic : ℕ → db.State → Bool × db.State
  delete_event_basic lev_id s =
      let (was_there, s') = db.del_payload lev_id s in (was_there, db.delete_event lev_id s')

  -- The events that are deleted, where they are still there; the number of payloads deleted.
  unfoldable pub delete_all : List ℕ → ℕ → World → ℕ × World
  delete_all [] count w = (count, w)
  delete_all (lev_id ∷ lev_ids) count w = elim (db.lookup_event lev_id w.state) [
    | none ↦ delete_all lev_ids count w
    | some v ↦
        let (was_there, s) = delete_event_basic lev_id w.state in
        delete_all lev_ids (if was_there then count + 1 else count)
          (record { state = s; updates = w.updates ++ ((v, false) ∷ []) })
  ]

  -- `deleteEvents`
  unfoldable pub delete_events : List ℕ → World → ℕ × World
  delete_events lev_ids w = delete_all lev_ids 0 w

  -- The event that an event replaces, or that it is replaced by: the levId to delete, or the status.
  unfoldable pub compare_replaced :
      PackedEventView → Bytes → db.State → Result (List ℕ × EventWriteStatus)
  compare_replaced v d s =
      let search_str = pubkey v ++ d in
      elim (db.last_replace search_str (kind enc v) s) [
        | none ↦ ok ([], pending)
        | some e ↦
            let compared : Result (List ℕ × EventWriteStatus) =
              lookup_event_by_lev_id e.lev_id s >>= λ other.
              (if ltb (created_at enc other) (created_at enc v)
                  || (created_at enc other == created_at enc v && bytes_lt (id v) (id other))
                then ok (e.lev_id ∷ [], pending)
                else ok ([], replaced)) in
            if bytes_eq e.key search_str && e.number == kind enc v
            then compared
            else ok ([], pending)
      ]

  unfoldable pub find_replaced : PackedEventView → db.State → Result (List ℕ × EventWriteStatus)
  find_replaced v s =
      let searched = first_d_tag enc v >>= λ found. elim found [
        | none ↦ ok ([], pending)
        | some d ↦ compare_replaced v d s
      ] in
      if is_replaceable_kind (kind enc v) || is_param_replaceable_kind (kind enc v)
      then searched
      else ok ([], pending)

  -- The callback on the tags of a deletion event.
  unfoldable pub with_deleted : PackedEventView → db.State → List ℕ → ℕ → Bytes → List ℕ
  with_deleted v s lev_ids tag_name tag_val =
      let with_other : List ℕ = elim (lookup_event_by_id tag_val s) [
        | none ↦ lev_ids
        | some (lev_id, other) ↦
            if bytes_eq (pubkey other) (pubkey v) then lev_ids ++ (lev_id ∷ []) else lev_ids
      ] in
      if tag_name == b'e' then with_other else lev_ids

  unfoldable pub add_deleted : PackedEventView → db.State → Callback (List ℕ)
  add_deleted v s lev_ids tag_name tag_val = ok (with_deleted v s lev_ids tag_name tag_val, true)

  unfoldable pub find_deleted : PackedEventView → List ℕ → db.State → Result (List ℕ)
  find_deleted v lev_ids s =
      let walked = foreach_tag (add_deleted v s) lev_ids v in
      if kind enc v == 5 then walked else ok lev_ids

  -- The event is inserted before the events that it replaces are deleted.
  unfoldable pub store_event : EventToWrite → List ℕ → World → Result (EventToWrite × World)
  store_event ev lev_ids w = do
    (lev_id, s) ← db.insert_event (view ev) w.state
    let s' = db.put_payload lev_id (0 ∷ ev.json_str) s
    let (count, w') =
        delete_all lev_ids 0 (record { state = s'; updates = w.updates ++ ((view ev, true) ∷ []) })
    ok (record ev { status = written; lev_id = lev_id }, w')

  -- An event that is neither a duplicate nor deleted before it came.
  unfoldable pub write_new : PackedEventView → EventToWrite → World → Result (EventToWrite × World)
  write_new v ev w = do
    (replacing, status) ← find_replaced v w.state
    lev_ids ← find_deleted v replacing w.state
    let stored = store_event ev lev_ids w
    let refused =
        throw_if (not (length lev_ids == 0)) unprocessed_deletion
        >> ok (record ev { status = if is_pending status then ev.status else status }, w)
    if is_pending ev.status && is_pending status then stored else refused

  -- Whether there is an event with the id, or the event before had it.
  unfoldable pub is_duplicate : Option Bytes → PackedEventView → db.State → Bool
  is_duplicate previous v s =
      let known : Bool = elim (lookup_event_by_id (id v) s) [ none ↦ false | some e ↦ true ] in
      let same : Bool = elim previous [ none ↦ false | some p ↦ bytes_eq (id v) p ] in known || same

  -- One round of the loop: `previous` is the id of the event before.
  unfoldable pub write_event : Option Bytes → EventToWrite → World → Result (EventToWrite × World)
  write_event previous ev w = packed_event_view ev.packed_str >>= λ v.
      (if is_duplicate previous v w.state
        then ok (record ev { status = duplicate }, w)
        else if db.has_deletion (id v ++ pubkey v) w.state
        then ok (record ev { status = deleted }, w)
        else write_new v ev w)

  unfoldable pub write_loop :
      Option Bytes → List EventToWrite → World → Result (List EventToWrite × World)
  write_loop previous [] w = ok ([], w)
  write_loop previous (ev ∷ evs) w = do
    (ev', w') ← write_event previous ev w
    (evs', w'') ← write_loop (some (id (view ev))) evs w'
    ok (ev' ∷ evs', w'')

  unfoldable pub write_events : List EventToWrite → World → Result (List EventToWrite × World)
  write_events evs w = do checked ← check_views evs; write_loop none (sort enc evs) w
