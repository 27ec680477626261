-- ===== src/Store/Write/Inserts.antt =====
-- What an insertion and the deletions behind it make of a valid database.
use strfry_http.Base.{
  true-false, ℕ, ◌≡◌, refl, sym, ◌∙◌, ap, subst, true, false, List, ◌∷◌, Option, none, some, Bytes,
  ok, ◌==◌, ==_iff, if◌then◌else◌, Bool-cases, inl, inr, ◌⊎◌,
}
use mathlib.Core.Option.{some-injective}
use strfry_http.Packed.{Encoding, PackedEventView, id}
use strfry_http.Store.Db.{Db}
use strfry_http.Store.Write.{EventToWrite, view}
use strfry_http.Store.Write.Deletes.{holds, Removes}
use strfry_http.Store.Write.Replaces.{IsValid, HasKey, replaceable}

none-some {ℓ} : {A : Type ℓ} {a : A} → none ≡ some a → ⊥
none-some h = cc

module _ {enc : Encoding} (db : Db enc) where
  -- Where an event of the new state comes from.
  kept_by-Removes :
      (lev_ids : List ℕ) (s s' : db.State) (j : ℕ) (v : PackedEventView)
      → Removes db lev_ids s s'
      → db.lookup_event j s' ≡ some v
      → (db.lookup_event j s ≡ some v) × (holds j lev_ids ≡ false)
  kept_by-Removes lev_ids s s' j v rm h = elim (Bool-cases (holds j lev_ids)) [
    | inl gone ↦ absurd (none-some (rw gone at (sym (rm.events j) ∙ h)))
    | inr stays ↦ (rw stays at (sym (rm.events j) ∙ h), stays)
  ]

  -- Deletions keep the database valid.
  pub Removes-IsValid :
      (lev_ids : List ℕ) (s s' : db.State) → Removes db lev_ids s s' → IsValid db s → IsValid db s'
  Removes-IsValid lev_ids s s' rm valid = record {
    once = λ i j v u hi hj same.
        valid.once i j v u (kept_by-Removes lev_ids s s' i v rm hi).0
          (kept_by-Removes lev_ids s s' j u rm hj).0 same;
    newest_only = λ i j v u r hi hj rep a b.
        valid.newest_only i j v u r (kept_by-Removes lev_ids s s' i v rm hi).0
          (kept_by-Removes lev_ids s s' j u rm hj).0 rep a b;
    payload = λ i v hi.
        let (there, stays) = kept_by-Removes lev_ids s s' i v rm hi in
        let (raw, p) = valid.payload i v there in (raw, rm.payloads i stays ∙ p);
  }

  -- The state behind an insertion, and the deletions that follow it.
  module _ (ev : EventToWrite) (lev_ids : List ℕ) (s s1 s' : db.State) (lev : ℕ)
      (inserted : db.insert_event (view ev) s ≡ ok (lev, s1))
      (rm : Removes db lev_ids (db.put_payload lev (0 ∷ ev.json_str) s1) s') where
    origin :
        (j : ℕ) (v : PackedEventView)
        → db.lookup_event j s' ≡ some v
        → ((j ≡ lev) × (v ≡ view ev) × (holds j lev_ids ≡ false))
          ⊎ ((db.lookup_event j s ≡ some v) × (holds j lev_ids ≡ false) × ((j == lev) ≡ false))
    origin j v h =
        let (there, stays) = kept_by-Removes lev_ids _ s' j v rm h in
        let e =
          sym (
            db.lookup_put lev j (0 ∷ ev.json_str) s1
            ∙ db.lookup_insert (view ev) s s1 lev j inserted)
          ∙ there in
        elim (Bool-cases (j == lev)) [
          | inl new ↦ inl ((==_iff j lev).0 new, sym (some-injective _ _ (rw new at e)), stays)
          | inr old ↦ inr (rw old at e, stays, old)
        ]

    payload_of :
        (j : ℕ)
        → holds j lev_ids ≡ false
        → db.get_payload j s' ≡ (if j == lev then some (0 ∷ ev.json_str) else db.get_payload j s)
    payload_of j stays =
        rm.payloads j stays
        ∙ db.get_put lev j (0 ∷ ev.json_str) s1
        ∙ ap (λ (o : Option Bytes). if j == lev then some (0 ∷ ev.json_str) else o)
            (db.payload_insert (view ev) s s1 lev j inserted)

    pub inserted-IsValid :
        IsValid db s
        → ((j : ℕ) (u : PackedEventView) → db.lookup_event j s ≡ some u → id u ≡ id (view ev) → ⊥)
        → ((j : ℕ) (u : PackedEventView) (r : Bytes × ℕ)
            → replaceable r.1 ≡ true
            → db.lookup_event j s ≡ some u
            → HasKey enc (view ev) r
            → HasKey enc u r
            → holds j lev_ids ≡ true)
        → IsValid db s'
    inserted-IsValid valid new_id covers = record {
      once = λ i j v u hi hj same. elim (origin i v hi) [
        | inl (a, a', m) ↦ elim (origin j u hj) [
          | inl (b, b', n) ↦ a ∙ sym b
          | inr (b, c, d) ↦ absurd (new_id j u b (sym same ∙ ap id a'))
        ]
        | inr (a, c, d) ↦ elim (origin j u hj) [
          | inl (b, b', n) ↦ absurd (new_id i v a (same ∙ ap id b'))
          | inr (b, c', d') ↦ valid.once i j v u a b same
        ]
      ];
      newest_only = λ i j v u r hi hj rep p q. elim (origin i v hi) [
        | inl (a, a', m) ↦ elim (origin j u hj) [
          | inl (b, b', n) ↦ a ∙ sym b
          | inr (b, c, d) ↦
              absurd
                (true-false (sym (covers j u r rep b (subst (λ x. HasKey enc x r) a' p) q) ∙ c))
        ]
        | inr (a, c, d) ↦ elim (origin j u hj) [
          | inl (b, b', n) ↦
              absurd
                (true-false (sym (covers i v r rep a (subst (λ x. HasKey enc x r) b' q) p) ∙ c))
          | inr (b, c', d') ↦ valid.newest_only i j v u r a b rep p q
        ]
      ];
      payload = λ i v hi. elim (origin i v hi) [
        | inl (a, a', m) ↦ (0 ∷ ev.json_str, payload_of i m ∙ rw ((==_iff i lev).1 a) refl)
        | inr (a, c, d) ↦ let (raw, p) = valid.payload i v a in (raw, payload_of i c ∙ rw d p)
      ];
    }
