-- ===== src/Store/Write/Replaces.antt =====
-- The search for what an event replaces: it never fails, and what it finds is every event with the
-- same key.
use strfry_http.Base.{
  ℕ, ◌≡◌, refl, sym, ◌∙◌, ap, subst, Bool, true, false, ◌||◌, ◌&&◌, List, [], ◌∷◌, ◌++◌, Option,
  none, some, Bytes, ok, ◌==◌, arith, Bool-cases, Option-cases, inl, inr, bytes_eq, bytes_lt,
  bytes_eq_refl, eq_of-bytes_eq, ok-injective, ltb, take-append_length,
}
use mathlib.Core.Option.{some-injective}
use strfry_http.Packed.{Encoding, PackedEventView, id, pubkey, kind, created_at}
use strfry_http.Event.Json.{is_replaceable_kind, is_param_replaceable_kind}
use strfry_http.Store.Index.{
  Keys, index_keys, first_d_tag, replace_key, first_d_tag-replace, index_keys-walks,
}
use strfry_http.Store.Db.{Db}
use strfry_http.Store.Write.{
  EventWriteStatus, pending, replaced, is_pending, lookup_event_by_id, lookup_event_by_lev_id,
  compare_replaced, find_replaced, find_deleted, add_deleted, with_deleted,
}
use strfry_http.Store.Write.Deletes.{holds}

module _ (enc : Encoding) where
  -- An event stands in the index of replacements under a key.
  pub record HasKey (v : PackedEventView) (r : Bytes × ℕ) : Type 0 where
    pub keys : Keys
    pub indexed : index_keys enc v ≡ ok keys
    pub key : keys.tags.replace ≡ some r

abbrev pub replaceable : ℕ → Bool
replaceable k = is_replaceable_kind k || is_param_replaceable_kind k

module _ {enc : Encoding} (db : Db enc) where
  -- The database holds an event once, one event for each key of a replaceable kind, and a payload
  -- for each event.
  pub record IsValid (s : db.State) : Type 0 where
    pub once :
        (i j : ℕ) (v u : PackedEventView)
        → db.lookup_event i s ≡ some v
        → db.lookup_event j s ≡ some u
        → id v ≡ id u
        → i ≡ j
    pub newest_only :
        (i j : ℕ) (v u : PackedEventView) (r : Bytes × ℕ)
        → db.lookup_event i s ≡ some v
        → db.lookup_event j s ≡ some u
        → replaceable r.1 ≡ true
        → HasKey enc v r
        → HasKey enc u r
        → i ≡ j
    pub payload :
        (i : ℕ) (v : PackedEventView)
        → db.lookup_event i s ≡ some v
        → (raw : Bytes) × (db.get_payload i s ≡ some raw)

  -- Where an event has the id, the search by id finds one.
  pub lookup_event_by_id-finds :
      (j : ℕ) (v : PackedEventView) (s : db.State)
      → db.lookup_event j s ≡ some v
      → (e : ℕ × PackedEventView) × (lookup_event_by_id db (id v) s ≡ some e)
  unfolding lookup_event_by_id
  lookup_event_by_id-finds j v s h =
      let (e, found, key) = db.first_id_complete j v s h in
      let (u, there, same) = db.first_id_sound (id v) s e found in
      let prefix = take-append_length (id v) (enc.to_sv e.number) in
      ((e.lev_id, u), rw (found, lookup_event_by_id, there, key, prefix, bytes_eq_refl (id v)) refl)

  -- What the search answers for an event with the key `r`: nothing to delete where the event is not
  -- written, and every event with the key where it is.
  pub record Covers (s : db.State) (r : Bytes × ℕ) (out : List ℕ × EventWriteStatus) : Type 0 where
    pub nothing : is_pending out.1 ≡ false → out.0 ≡ []
    pub all :
        is_pending out.1 ≡ true
        → (j : ℕ) (u : PackedEventView) → db.lookup_event j s ≡ some u
        → HasKey enc u r
        → holds j out.0 ≡ true

  compare_replaced-Covers :
      (v : PackedEventView) (d : Bytes) (s : db.State)
      → IsValid s
      → replaceable (kind enc v) ≡ true
      → (out : List ℕ × EventWriteStatus) × (compare_replaced db v d s ≡ ok out)
        × Covers s (pubkey v ++ d, kind enc v) out
  unfolding compare_replaced lookup_event_by_lev_id
  compare_replaced-Covers v d s valid rep =
      let r : Bytes × ℕ = (pubkey v ++ d, kind enc v) in
      elim (Option-cases (db.last_replace r.0 r.1 s)) [
        | inl nowhere ↦ (
          ([], pending),
          rw (nowhere, compare_replaced) refl,
          record {
            nothing = λ h. refl;
            all = λ h j u there has.
                let (e, found, key, number) =
                  db.last_replace_complete j u has.keys r.0 r.1 s there has.indexed has.key in
                cc;
          },
        )
        | inr (e, found) ↦
            let (u, k, there, indexed, key) = db.last_replace_sound r.0 r.1 s e found in
            let older =
              ltb (created_at enc u) (created_at enc v)
              || (created_at enc u == created_at enc v && bytes_lt (id v) (id u)) in
            elim (Bool-cases (bytes_eq e.key r.0 && e.number == r.1)) [
              | inl same ↦
                  let e1 : e.key ≡ r.0 = eq_of-bytes_eq e.key r.0 (ground (arith, same)) in
                  let e2 : e.number ≡ r.1 = ground (arith, same) in
                  let has : HasKey enc u r = record {
                    keys = k;
                    indexed = indexed;
                    key = key ∙ ap (λ x. some (x, e.number)) e1 ∙ ap (λ x. some (r.0, x)) e2;
                  } in
                  elim (Bool-cases older) [
                    | inl first ↦ (
                      (e.lev_id ∷ [], pending),
                      rw (found, compare_replaced, same, there, lookup_event_by_lev_id, first) refl,
                      record {
                        nothing = λ h. cc;
                        all = λ h j u' there' has'.
                            let same_lev =
                              valid.newest_only e.lev_id j u u' r there there' rep has has' in
                            ground (arith, same_lev);
                      },
                    )
                    | inr last ↦ (
                      ([], replaced),
                      rw (found, compare_replaced, same, there, lookup_event_by_lev_id, last) refl,
                      record { nothing = λ h. refl; all = λ h j u' there' has'. cc },
                    )
                  ]
              | inr other ↦ (
                ([], pending),
                rw (found, compare_replaced, other) refl,
                record {
                  nothing = λ h. refl;
                  all = λ h j u' there' has'.
                      let (e', found', key', number') =
                        db.last_replace_complete j u' has'.keys r.0 r.1 s there' has'.indexed
                          has'.key in
                      let this : e ≡ e' = some-injective e e' (sym found ∙ found') in
                      let t : (bytes_eq e.key r.0 && e.number == r.1) ≡ true =
                        rw (this, key', number', bytes_eq_refl r.0) (ground arith) in
                      cc;
                },
              )
            ]
      ]

  not_both : (k : ℕ) → replaceable k ≡ true → (k == 5) ≡ false
  unfolding is_replaceable_kind is_param_replaceable_kind
  not_both k h = ground (arith, h)

  -- What is found for an event that can be indexed: the list to delete, which is empty where the
  -- event is not written, and which has every event with the event's key.
  pub record Finds (s : db.State) (v : PackedEventView) (out : List ℕ × EventWriteStatus)
      : Type 0 where
    pub nothing : is_pending out.1 ≡ false → out.0 ≡ []
    pub all :
        is_pending out.1 ≡ true
        → (j : ℕ) (u : PackedEventView) (r : Bytes × ℕ) → replaceable r.1 ≡ true
        → db.lookup_event j s ≡ some u
        → HasKey enc v r
        → HasKey enc u r
        → holds j out.0 ≡ true
    pub not_deletion : is_pending out.1 ≡ false → (kind enc v == 5) ≡ false

  same_keys :
      (v : PackedEventView) (k : Keys) (d : Option Bytes) (r : Bytes × ℕ)
      → index_keys enc v ≡ ok k
      → k.tags.replace ≡ replace_key enc v d
      → HasKey enc v r
      → replace_key enc v d ≡ some r
  same_keys v k d r h e has =
      sym e ∙ ap (λ x. x.tags.replace) (ok-injective (sym h ∙ has.indexed)) ∙ has.key

  kind-key :
      (v : PackedEventView) (d : Option Bytes) (r : Bytes × ℕ)
      → replace_key enc v d ≡ some r
      → kind enc v ≡ r.1
  kind-key v none r h = cc
  kind-key v (some d) r h = ap (λ x. x.1) (some-injective (pubkey v ++ d, kind enc v) r h)

  found-Finds :
      (v : PackedEventView) (k : Keys) (d : Option Bytes) (s : db.State)
      → IsValid s
      → index_keys enc v ≡ ok k
      → first_d_tag enc v ≡ ok d
      → k.tags.replace ≡ replace_key enc v d
      → replaceable (kind enc v) ≡ true
      → (out : List ℕ × EventWriteStatus) × (find_replaced db v s ≡ ok out) × Finds s v out
  unfolding find_replaced
  found-Finds v k none s valid h found key rep = (
    ([], pending),
    rw (rep, found) refl,
    record {
      nothing = λ e. refl;
      all = λ e j u r rep' there has has'. cc (same_keys v k none r h key has);
      not_deletion = λ e. cc;
    },
  )
  found-Finds v k (some d) s valid h found key rep =
      let (out, e, c) = compare_replaced-Covers v d s valid rep in
      (
        out,
        rw (rep, found, e) refl,
        record {
          nothing = c.nothing;
          all = λ p j u r rep' there has has'.
              let same = some-injective _ r (same_keys v k (some d) r h key has) in
              c.all p j u there (subst (HasKey enc u) (sym same) has');
          not_deletion = λ p. not_both (kind enc v) rep;
        },
      )

  pub find_replaced-Finds :
      (v : PackedEventView) (k : Keys) (s : db.State)
      → IsValid s
      → index_keys enc v ≡ ok k
      → (out : List ℕ × EventWriteStatus) × (find_replaced db v s ≡ ok out) × Finds s v out
  unfolding find_replaced
  find_replaced-Finds v k s valid h =
      let (d, found, key) = first_d_tag-replace enc v k h in
      elim (Bool-cases (replaceable (kind enc v))) [
        | inr never ↦ (
          ([], pending),
          rw never refl,
          record {
            nothing = λ e. refl;
            all = λ e j u r rep there has has'.
                let same = kind-key v d r (same_keys v k d r h key has) in cc (rw (← same) at rep);
            not_deletion = λ e. cc;
          },
        )
        | inl rep ↦ found-Finds v k d s valid h found key rep
      ]

  pub HasKey-kind : (v : PackedEventView) (r : Bytes × ℕ) → HasKey enc v r → kind enc v ≡ r.1
  HasKey-kind v r has =
      let (d, found, key) = first_d_tag-replace enc v has.keys has.indexed in
      kind-key v d r (same_keys v has.keys d r has.indexed key has)

  pub not_deletion_key :
      (v : PackedEventView) (r : Bytes × ℕ)
      → replaceable r.1 ≡ true
      → HasKey enc v r
      → (kind enc v == 5) ≡ false
  not_deletion_key v r rep has = rw (HasKey-kind v r has) (not_both r.1 rep)

  -- The search for the events that a deletion event names goes through, and changes nothing for
  -- other events.
  pub find_deleted-found :
      (v : PackedEventView) (k : Keys) (lev_ids : List ℕ) (s : db.State)
      → index_keys enc v ≡ ok k
      → (out : List ℕ) × (find_deleted db v lev_ids s ≡ ok out)
        × ((kind enc v == 5) ≡ false → out ≡ lev_ids)
  unfolding find_deleted add_deleted
  find_deleted-found v k lev_ids s h = elim (Bool-cases (kind enc v == 5)) [
    | inr other ↦ (lev_ids, rw other refl, λ e. refl)
    | inl deletion ↦
        let (out, e) = index_keys-walks enc (with_deleted db v s) lev_ids v k h in
        (out, rw deletion e, λ other. cc)
  ]
