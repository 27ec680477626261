-- ===== src/Store/Write/Deletes.antt =====
-- What the deletion of some events leaves.
use strfry_http.Base.{
  ℕ, ◌≡◌, refl, ◌∙◌, ap, subst, Bool, false, ◌+◌, List, [], ◌∷◌, ◌++◌, Option, none, any, ◌==◌,
  ==_iff, if◌then◌else◌, arith, Bool-cases, Option-cases, inl, inr,
}
use strfry_http.Packed.{Encoding, PackedEventView}
use strfry_http.Store.Db.{Db}
use strfry_http.Store.Write.{World, delete_event_basic, delete_all}

abbrev pub holds : ℕ → List ℕ → Bool
holds j = any (λ l. l == j)

module _ {enc : Encoding} (db : Db enc) where
  -- `s'` is `s` without the events of `lev_ids`.
  pub record Removes (lev_ids : List ℕ) (s s' : db.State) : Type 0 where
    pub events :
        (j : ℕ) → db.lookup_event j s' ≡ (if holds j lev_ids then none else db.lookup_event j s)
    pub payloads : (j : ℕ) → holds j lev_ids ≡ false → db.get_payload j s' ≡ db.get_payload j s

  lookup-delete_event_basic :
      (lev j : ℕ) (s : db.State)
      → db.lookup_event j (delete_event_basic db lev s).1
        ≡ (if j == lev then none else db.lookup_event j s)
  unfolding delete_event_basic
  lookup-delete_event_basic lev j s =
      db.lookup_delete lev j (db.del_payload lev s).1
      ∙ ap (λ (o : Option PackedEventView). if j == lev then none else o) (db.lookup_del lev j s)

  payload-delete_event_basic :
      (lev j : ℕ) (s : db.State)
      → db.get_payload j (delete_event_basic db lev s).1
        ≡ (if j == lev then none else db.get_payload j s)
  unfolding delete_event_basic
  payload-delete_event_basic lev j s =
      db.payload_delete lev j (db.del_payload lev s).1 ∙ db.get_del lev j s

  skipped :
      (l j : ℕ) (ls : List ℕ) (s s' : db.State)
      → db.lookup_event l s ≡ none
      → db.lookup_event j s' ≡ (if holds j ls then none else db.lookup_event j s)
      → db.lookup_event j s' ≡ (if holds j (l ∷ ls) then none else db.lookup_event j s)
  skipped l j ls s s' gone h = elim (Bool-cases (l == j)) [
    | inl same ↦
        let e = (==_iff l j).0 same in
        let gone' : db.lookup_event j s ≡ none = subst (λ k. db.lookup_event k s ≡ none) e gone in
        ground (arith, same, gone', h)
    | inr other ↦ ground (arith, other, h)
  ]

  pub delete_all-Removes :
      (lev_ids : List ℕ) (count : ℕ) (w : World db)
      → Removes lev_ids w.state (delete_all db lev_ids count w).1.state
  unfolding delete_all
  delete_all-Removes [] count w = record { events = λ j. refl; payloads = λ j h. refl }
  delete_all-Removes (l ∷ ls) count w = elim (Option-cases (db.lookup_event l w.state)) [
    | inl gone ↦
        let rest = delete_all-Removes ls count w in
        rw (gone, delete_all)
          (record {
            events = λ j. skipped l j ls w.state _ gone (rest.events j);
            payloads = λ j h. rest.payloads j (ground (arith, h));
          })
    | inr (v, there) ↦
        let count' = if (delete_event_basic db l w.state).0 then count + 1 else count in
        let w' : World db = record {
          state = (delete_event_basic db l w.state).1;
          updates = w.updates ++ ((v, false) ∷ []);
        } in
        let rest = delete_all-Removes ls count' w' in
        rw (there, delete_all)
          (record {
            events = λ j. ground (arith, rest.events j, lookup-delete_event_basic l j w.state);
            payloads =
                λ j h. ground (arith, h, rest.payloads j, payload-delete_event_basic l j w.state);
          })
  ]
