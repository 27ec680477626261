-- ===== src/Tests/Stores.antt =====
-- Two versions of a replaceable event, written to an empty database.
use strfry_http.Base.{
  ℕ, ◌≡◌, ◌∙◌, refl, sym, subst, ok-injective, true, false, List, [], ◌∷◌, ◌++◌, none, some, ok,
  err, replicate, All, codes, bytes_eq, bytes_lt, if◌then◌else◌, empty_payload,
}
use strfry_http.Packed.{
  packed_event_view, id, pubkey, created_at, kind, expiration, foreach_tag, foreach_tag_loop,
}
use strfry_http.Event.Json.{is_replaceable_kind, is_param_replaceable_kind}
use strfry_http.Store.Index.{index_keys, add_tag_keys, next_keys, first_d_tag, find_d_tag}
use strfry_http.Store.Payload.{Decompressor, get_event_json}
use strfry_http.Store.Write.{
  EventToWrite, pending, written, World, view, is_pending, write_events, delete_events, store_event,
  check_views, sort, insert_sorted, is_before, write_loop, write_event, write_new, is_duplicate,
  find_replaced, compare_replaced, find_deleted, delete_all, delete_event_basic, lookup_event_by_id,
  lookup_event_by_lev_id,
}
use strfry_http.Store.Write.Deletes.{holds}
use strfry_http.Store.Write.Replaces.{IsValid}
use strfry_http.Store.Write.Valid.{IsWritable, write_events-IsValid, delete_events-IsValid}
use strfry_http.Store.Write.Stored.{get_event_json-store_event}
use strfry_http.Tests.Instances.{native_encoding}
use strfry_http.Tests.Database.{
  listed, get, del, unused, first_some, insert, id_entry, replace_entry, has_key,
}

program : Unit {0}
unfolding index_keys add_tag_keys next_keys first_d_tag find_d_tag foreach_tag foreach_tag_loop
    packed_event_view id pubkey created_at kind expiration native_encoding bytes_eq bytes_lt
    is_replaceable_kind is_param_replaceable_kind write_events store_event check_views sort
    insert_sorted is_before write_loop write_event write_new is_duplicate find_replaced
    compare_replaced find_deleted delete_all delete_event_basic lookup_event_by_id
    lookup_event_by_lev_id get del unused first_some insert id_entry replace_entry has_key listed
program = tt

abbrev made : ℕ → ℕ → EventToWrite
made i created = record {
  packed_str =
      replicate 32 i
      ++ (replicate 32 17
          ++ (native_encoding.to_sv created
              ++ (native_encoding.to_sv 3 ++ (native_encoding.to_sv 0 ++ (b'd' ∷ 0 ∷ [])))));
  json_str = codes "{}";
  status = pending;
  lev_id = 0;
}

abbrev older : EventToWrite
older = made 1 1700000000

abbrev newer : EventToWrite
newer = made 2 1700000500

abbrev empty : World (listed native_encoding)
unfolding listed
empty = record { state = record { events = []; payloads = [] }; updates = [] }

empty-IsValid : IsValid (listed native_encoding) empty.state
unfolding program
empty-IsValid = record {
  once = λ i j v u h k same. cc;
  newest_only = λ i j v u r h k rep a b. cc;
  payload = λ i v h. cc;
}

older-IsWritable : IsWritable (listed native_encoding) older
unfolding program
older-IsWritable = record { undecided = refl; view_fits = refl; keys = _; indexed = refl }

newer-IsWritable : IsWritable (listed native_encoding) newer
unfolding program
newer-IsWritable = record { undecided = refl; view_fits = refl; keys = _; indexed = refl }

write_events-IsValid_example :
    (out : List EventToWrite × World (listed native_encoding)) × (write_events
        (listed native_encoding)
        (newer ∷ older ∷ [])
        empty
      ≡ ok out)
    × IsValid (listed native_encoding) out.1.state
    × All (λ ev. is_pending ev.status ≡ false) out.0
write_events-IsValid_example =
    write_events-IsValid (listed native_encoding) (newer ∷ older ∷ []) empty empty-IsValid
      (newer-IsWritable, (older-IsWritable, tt))

abbrev no_dictionaries : Decompressor
no_dictionaries = record { dict_id = λ b. 0; decompress = λ d b. err empty_payload }

abbrev stored : World (listed native_encoding)
unfolding listed
stored = record {
  state = record { events = (1, view older) ∷ []; payloads = (1, 0 ∷ codes "{}") ∷ [] };
  updates = (view older, true) ∷ [];
}

older-stored :
    store_event (listed native_encoding) older [] empty
    ≡ ok (record older { status = written; lev_id = 1 }, stored)
unfolding program
older-stored = refl

older_written :
    write_events (listed native_encoding) (older ∷ []) empty
    ≡ ok (record older { status = written; lev_id = 1 } ∷ [], stored)
unfolding program
older_written = refl

-- What was written to a valid database is a valid one with an event in it.
stored-IsValid : IsValid (listed native_encoding) stored.state
stored-IsValid =
    let (out, e, valid, _) =
      write_events-IsValid (listed native_encoding) (older ∷ []) empty empty-IsValid
        (older-IsWritable, tt) in
    subst
      (λ (o : List EventToWrite × World (listed native_encoding)).
        IsValid (listed native_encoding) o.1.state)
      (ok-injective (sym e ∙ older_written)) valid

delete_events-IsValid_example :
    IsValid
      (listed native_encoding)
      (delete_events (listed native_encoding) (1 ∷ 2 ∷ []) stored).1.state
    × ((j : ℕ)
        → (listed native_encoding).lookup_event j
            (delete_events (listed native_encoding) (1 ∷ 2 ∷ []) stored).1.state
          ≡ (if holds j (1 ∷ 2 ∷ [])
              then none
              else (listed native_encoding).lookup_event j stored.state))
delete_events-IsValid_example =
    delete_events-IsValid (listed native_encoding) (1 ∷ 2 ∷ []) stored stored-IsValid

get_event_json-store_event_example :
    ((listed native_encoding).lookup_event 1 stored.state ≡ some (view older))
    × (get_event_json (listed native_encoding) no_dictionaries 1 stored.state ≡ ok (codes "{}"))
get_event_json-store_event_example =
    get_event_json-store_event (listed native_encoding) no_dictionaries older
      (record older { status = written; lev_id = 1 }) [] empty stored older-stored refl

-- The older version is written first, and deleted when the newer one is.
abbrev after : World (listed native_encoding)
unfolding listed
after = record {
  state = record { events = (2, view newer) ∷ []; payloads = (2, 0 ∷ codes "{}") ∷ [] };
  updates = (view older, true) ∷ (view newer, true) ∷ (view older, false) ∷ [];
}

newer_wins :
    write_events (listed native_encoding) (newer ∷ older ∷ []) empty
    ≡ ok (
      record older { status = written; lev_id = 1 }
          ∷ record newer { status = written; lev_id = 2 }
          ∷ [],
      after,
    )
unfolding program
newer_wins = refl
