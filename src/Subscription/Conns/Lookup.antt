-- ===== src/Subscription/Conns/Lookup.antt =====
-- What is found in the map from connections after each operation on it.
use strfry_http.Base.{
  ℕ, ◌≡◌, refl, sym, ◌∙◌, true, ◌&&◌, List, [], ◌∷◌, none, some, ◌==◌, if◌then◌else◌, arith,
  bytes_eq, bytes_eq_refl, eq_of-bytes_eq, ap, Bool-cases, List-cases, inl, inr,
}
use strfry_http.Subscription.{SubId, sv, same_sub_id}
use strfry_http.Subscription.Conns.{
  Conns, find_sub, erase_sub, find_conn, erase_conn, find_entry, entries, touch_conn, add_entry,
  remove_entry,
}

pub sv-same_sub_id : (j k : SubId) → same_sub_id j k ≡ true → sv k ≡ sv j
unfolding same_sub_id
sv-same_sub_id j k h = eq_of-bytes_eq (sv k) (sv j) h

pub same_sub_id_refl : (k : SubId) → same_sub_id k k ≡ true
unfolding same_sub_id
same_sub_id_refl k = bytes_eq_refl (sv k)

-- Equal ids are alike before any other.
same_sub_id_left : (i j k : SubId) → same_sub_id j k ≡ true → same_sub_id i j ≡ same_sub_id i k
unfolding same_sub_id
same_sub_id_left i j k h = ap (λ b. bytes_eq b (sv i)) (sym (sv-same_sub_id j k h))

same_sub_id_right : (i j k : SubId) → same_sub_id i k ≡ true → same_sub_id i j ≡ same_sub_id k j
unfolding same_sub_id
same_sub_id_right i j k h = ap (bytes_eq (sv j)) (sym (sv-same_sub_id i k h))

module _ {V : Type 0} where
  find_sub-erase_sub :
      (j k : SubId) (m : List (SubId × V))
      → find_sub j (erase_sub k m) ≡ (if same_sub_id k j then none else find_sub j m)
  unfolding find_sub erase_sub
  find_sub-erase_sub j k [] = ground arith
  find_sub-erase_sub j k ((i, v) ∷ m) = elim (Bool-cases (same_sub_id k j)) [
    | inl same ↦
        let e = same_sub_id_left i k j same in ground (arith, find_sub-erase_sub j k m, same, e)
    | inr other ↦ elim (Bool-cases (same_sub_id i k)) [
      | inl hit ↦ ground (arith, find_sub-erase_sub j k m, hit, other, same_sub_id_right i j k hit)
      | inr miss ↦ ground (arith, find_sub-erase_sub j k m, miss, other)
    ]
  ]

  find_conn-erase_conn :
      (c d : ℕ) (conns : Conns V)
      → find_conn d (erase_conn c conns) ≡ (if d == c then none else find_conn d conns)
  unfolding find_conn erase_conn
  find_conn-erase_conn c d [] = ground arith
  find_conn-erase_conn c d ((e, m) ∷ conns) = ground (arith, find_conn-erase_conn c d conns)

  pub find_sub-entries :
      (c : ℕ) (k : SubId) (conns : Conns V) → find_sub k (entries c conns) ≡ find_entry c k conns
  unfolding find_sub entries find_entry
  find_sub-entries c k conns = ground arith

  find_sub_congr :
      (j k : SubId) (m : List (SubId × V)) → same_sub_id j k ≡ true → find_sub j m ≡ find_sub k m
  unfolding find_sub
  find_sub_congr j k [] h = refl
  find_sub_congr j k ((i, v) ∷ m) h =
      ground (arith, find_sub_congr j k m h, same_sub_id_left i j k h)

  -- Ids that are the same find the same.
  pub find_entry_congr :
      (c : ℕ) (j k : SubId) (conns : Conns V)
      → same_sub_id j k ≡ true
      → find_entry c j conns ≡ find_entry c k conns
  find_entry_congr c j k conns h =
      sym (find_sub-entries c j conns)
      ∙ (find_sub_congr j k (entries c conns) h ∙ find_sub-entries c k conns)

  pub find_entry-erase_conn :
      (c d : ℕ) (k : SubId) (conns : Conns V)
      → find_entry d k (erase_conn c conns) ≡ (if d == c then none else find_entry d k conns)
  unfolding find_entry
  find_entry-erase_conn c d k conns = rw (find_entry, find_conn-erase_conn c d conns) (ground arith)

  -- An entry of one connection is replaced.
  find_entry-cons :
      (c d : ℕ) (k : SubId) (m : List (SubId × V)) (conns : Conns V)
      → find_entry d k ((c, m) ∷ erase_conn c conns)
        ≡ (if d == c then find_sub k m else find_entry d k conns)
  unfolding find_entry find_conn
  find_entry-cons c d k m conns = elim (Bool-cases (d == c)) [
    | inl same ↦ ground (arith, same)
    | inr other ↦ ground (arith, find_conn-erase_conn c d conns, other)
  ]

  pub find_entry-touch_conn :
      (c d : ℕ) (k : SubId) (conns : Conns V)
      → find_entry d k (touch_conn c conns) ≡ find_entry d k conns
  unfolding touch_conn
  find_entry-touch_conn c d k conns =
      find_entry-cons c d k (entries c conns) conns ∙ rw (find_sub-entries c k conns) (ground arith)

  pub find_entry-add_entry :
      (c d : ℕ) (j k : SubId) (v : V) (conns : Conns V)
      → find_entry d k (add_entry c j v conns)
        ≡ (if d == c && same_sub_id j k then some v else find_entry d k conns)
  unfolding add_entry find_sub
  find_entry-add_entry c d j k v conns =
      find_entry-cons c d k ((j, v) ∷ entries c conns) conns
      ∙ rw (find_sub-entries c k conns) (ground arith)

  find_sub-is :
      (c : ℕ) (j k : SubId) (conns : Conns V) (l : List (SubId × V))
      → erase_sub j (entries c conns) ≡ l
      → find_sub k l ≡ (if same_sub_id j k then none else find_entry c k conns)
  find_sub-is c j k conns l e =
      rw (← e, ← find_sub-entries c k conns) (find_sub-erase_sub k j (entries c conns))

  find_sub_nil : (k : SubId) → find_sub {V = V} k [] ≡ none
  unfolding find_sub
  find_sub_nil k = refl

  pub find_entry-remove_entry :
      (c d : ℕ) (j k : SubId) (conns : Conns V)
      → find_entry d k (remove_entry c j conns)
        ≡ (if d == c && same_sub_id j k then none else find_entry d k conns)
  unfolding remove_entry
  find_entry-remove_entry c d j k conns = elim (List-cases (erase_sub j (entries c conns))) [
    | inl empty ↦
        let e = sym (find_sub_nil k) ∙ find_sub-is c j k conns [] empty in
        rw (remove_entry, empty) (find_entry-erase_conn c d k conns ∙ ground (arith, e))
    | inr (x, m, more) ↦
        let e = find_sub-is c j k conns (x ∷ m) more in
        rw (remove_entry, more) (find_entry-cons c d k (x ∷ m) conns ∙ ground (arith, e))
  ]
