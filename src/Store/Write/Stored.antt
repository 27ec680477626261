-- ===== src/Store/Write/Stored.antt =====
-- An event that was written is read back.
use strfry_http.Base.{
  ℕ, ◌≡◌, refl, sym, ◌∙◌, ap, subst, true, false, List, [], ◌∷◌, ◌++◌, some, ok, ◌==◌, arith,
  with_ok, ok-injective,
}
use strfry_http.Packed.{Encoding}
use strfry_http.Store.Db.{Db}
use strfry_http.Store.Payload.{Decompressor, decode_event_payload, get_event_json}
use strfry_http.Store.Write.{EventToWrite, World, view, store_event, delete_all}
use strfry_http.Store.Write.Deletes.{holds, Removes, delete_all-Removes}

module _ {enc : Encoding} (db : Db enc) where
  Holds : Decompressor → EventToWrite → ℕ → db.State → Type 0
  Holds decomp ev lev s =
      (db.lookup_event lev s ≡ some (view ev)) × (get_event_json db decomp lev s ≡ ok ev.json_str)

  new_event-Holds :
      (decomp : Decompressor) (ev : EventToWrite) (lev_ids : List ℕ) (lev : ℕ) (s s1 s' : db.State)
      → db.insert_event (view ev) s ≡ ok (lev, s1)
      → Removes db lev_ids (db.put_payload lev (0 ∷ ev.json_str) s1) s'
      → holds lev lev_ids ≡ false
      → Holds decomp ev lev s'
  unfolding Holds get_event_json decode_event_payload
  new_event-Holds decomp ev lev_ids lev s s1 s' inserted rm stays =
      let self : (lev == lev) ≡ true = ground arith in
      let there : db.lookup_event lev s' ≡ some (view ev) =
        rm.events lev
        ∙ rw
            (
              stays,
              db.lookup_put lev lev (0 ∷ ev.json_str) s1,
              db.lookup_insert (view ev) s s1 lev lev inserted,
              self,
            )
            refl in
      let raw : db.get_payload lev s' ≡ some (0 ∷ ev.json_str) =
        rm.payloads lev stays ∙ rw (db.get_put lev lev (0 ∷ ev.json_str) s1, self) refl in
      (there, rw (raw, get_event_json) refl)

  -- Where an event was stored and its number is not among those that are deleted with it, the
  -- database holds the event under that number, and the payload reads back as its JSON.
  pub get_event_json-store_event :
      (decomp : Decompressor) (ev ev' : EventToWrite) (lev_ids : List ℕ) (w w' : World db)
      → store_event db ev lev_ids w ≡ ok (ev', w')
      → holds ev'.lev_id lev_ids ≡ false
      → (db.lookup_event ev'.lev_id w'.state ≡ some (view ev))
        × (get_event_json db decomp ev'.lev_id w'.state ≡ ok ev.json_str)
  unfolding store_event Holds
  get_event_json-store_event decomp ev ev' lev_ids w w' h stays =
      with_ok (db.insert_event (view ev) w.state) _ h (λ r inserted h1.
        let put = db.put_payload r.0 (0 ∷ ev.json_str) r.1 in
        let w1 : World db = record { state = put; updates = w.updates ++ ((view ev, true) ∷ []) } in
        let rm = delete_all-Removes db lev_ids 0 w1 in
        let same = ok-injective h1 in
        let lev_same : ev'.lev_id ≡ r.0 = sym (ap (λ x. x.0.lev_id) same) in
        let held : Holds decomp ev r.0 (delete_all db lev_ids 0 w1).1.state =
          new_event-Holds decomp ev lev_ids r.0 w.state r.1 _ inserted rm (rw (← lev_same) stays) in
        subst (λ (x : EventToWrite × World db). Holds decomp ev x.0.lev_id x.1.state) same held)
