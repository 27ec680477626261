-- ===== src/Monitors/Uninstalls.antt =====
-- `uninstallLookups` of one filter: afterwards the indexes hold all filters but this one.
use strfry_http.Base.{
  ℕ, ◌≡◌, refl, sym, ap, ◌∙◌, inl, inr, Bool, true, false, ◌&&◌, Option, none, some, List,
  if◌then◌else◌, if-true, if-false, Bool-cases, Option-cases, List-cases, Bytes, any, ok,
  ok-injective,
}
use strfry_http.Monitors.{Filters, ActiveMonitors, tag_specs, uninstall_filter}
use strfry_http.Monitors.Maps.{
  FilterPtr, MonitorItem, MonitorSet, MonitorMap, Order, bytes_order, number_order, same_ptr,
  in_set, erase_ptr, stands,
}
use strfry_http.Monitors.Maps.Lookup.{same_ptr_iff, in_set-erase_ptr}
use strfry_http.Monitors.Maps.Items.{
  AllSet, AllSet-map, AllSet-zip, AllSet-in_set, AllItems-map, AllSet-erase_ptr,
}
use strfry_http.Monitors.Maps.Entries.{AllItems-zip, AllItems-stands}
use strfry_http.Monitors.Valid.{
  OnceKeys, id_keys, author_keys, tag_keys, kind_keys, is_other, IsGood, IsEntry, asks, IsIndex,
  asks_other,
}
use strfry_http.Monitors.EachRemoval.{uninstall_each, uninstall_each-all, for_each-uninstall_bytes}

module _ {F : Type 0} (filters : Filters F) where
  -- The filters but one.
  abbrev pub removed : FilterPtr → (FilterPtr → Option F) → FilterPtr → Option F
  removed p view q = if same_ptr p q then none else view q

  asks-some :
      {K : Type 0} (order : Order K) (keys : F → List K) (k : K) (o : Option F)
      → asks filters order keys k o ≡ true
      → (f : F) × (o ≡ some f)
  asks-some order keys k none h = cc
  asks-some order keys k (some f) h = (f, refl)

  asks_other-some : (o : Option F) → asks_other filters o ≡ true → (f : F) × (o ≡ some f)
  asks_other-some none h = cc
  asks_other-some (some f) h = (f, refl)

  module _ (p : FilterPtr) (f : F) (view : FilterPtr → Option F) (seen : ℕ)
      (there : view p ≡ some f) where
    IsEntry-removed :
        (q : FilterPtr) (item : MonitorItem)
        → (g : F) × (removed p view q ≡ some g)
        → IsEntry filters view seen q item
        → IsEntry filters (removed p view) seen q item
    IsEntry-removed q item (g, h) e = record {
      same = e.same;
      filter = g;
      there = h;
      bounded = e.bounded;
    }

    pub uninstalled-IsIndex :
        {K : Type 0} (order : Order K) (keys : F → List K) (m : MonitorMap K)
        → OnceKeys order (keys f)
        → IsIndex filters order keys m view seen
        → (m' : MonitorMap K) × (uninstall_each order p (keys f) m ≡ ok m')
          × IsIndex filters order keys m' (removed p view) seen
    uninstalled-IsIndex {K} order keys m once index =
        let (m', e, u) =
          uninstall_each-all order p (keys f) m once
            (λ k h. index.stands_for k p ∙ (ap (asks filters order keys k) there ∙ h))
            index.falls in
        let now : (k : K) (q : FilterPtr)
            → stands order k q m' ≡ asks filters order keys k (removed p view q) =
          λ k q. u.stands_now k q ∙ elim (Bool-cases (same_ptr p q)) [
            | inr other ↦ rw other (
                kept (any (λ i. order.eq i k) (keys f)) (stands order k q m) ∙ index.stands_for k q)
            | inl same ↦
                let before : stands order k q m ≡ any (λ i. order.eq i k) (keys f) =
                  index.stands_for k q
                  ∙ ap (asks filters order keys k)
                      (ap view (sym ((same_ptr_iff p q).0 same)) ∙ there) in
                rw (same, before) (gone (any (λ i. order.eq i k) (keys f)))
          ] in
        (
          m',
          e,
          record {
            falls = u.falls;
            items =
                AllItems-map
                  (λ q item.
                    IsEntry filters view seen q item × ((k : K) × (stands order k q m' ≡ true)))
                  (IsEntry filters (removed p view) seen) m'
                  (λ q item (e', (k, h)).
                    IsEntry-removed q item
                      (asks-some order keys k (removed p view q) (sym (now k q) ∙ h)) e')
                  (AllItems-zip (IsEntry filters view seen)
                    (λ q item. (k : K) × (stands order k q m' ≡ true)) m'
                    (u.items (IsEntry filters view seen) index.items)
                    (AllItems-stands order m' u.falls));
            stands_for = now;
          },
        )
      where
        kept : (b c : Bool) → (if b && false then false else c) ≡ c
        kept true c = refl
        kept false c = refl

        gone : (b : Bool) → (if b && true then false else b) ≡ false
        gone true = refl
        gone false = refl

    pub in_set-removed :
        (b : Bool) (q : FilterPtr) (ms : MonitorSet)
        → is_other filters f ≡ b
        → in_set q ms ≡ asks_other filters (view q)
        → in_set q (if b then erase_ptr p ms else ms) ≡ asks_other filters (removed p view q)
    in_set-removed true q ms other h =
        in_set-erase_ptr p q ms
        ∙ elim (Bool-cases (same_ptr p q)) [ inl same ↦ rw same refl | inr miss ↦ rw miss h ]
    in_set-removed false q ms other h = elim (Bool-cases (same_ptr p q)) [
      | inr miss ↦ h ∙ ap (asks_other filters) (sym (if-false _ _ miss))
      | inl same ↦
          let here : view q ≡ some f = ap view (sym ((same_ptr_iff p q).0 same)) ∙ there in
          h
          ∙ (ap (asks_other filters) here
              ∙ (other ∙ ap (asks_other filters) (sym (if-true _ _ same))))
    ]

    AllSet-other :
        (b : Bool) (ms : MonitorSet)
        → AllSet (IsEntry filters view seen) ms
        → AllSet (IsEntry filters view seen) (if b then erase_ptr p ms else ms)
    AllSet-other true ms h = AllSet-erase_ptr (IsEntry filters view seen) p ms h
    AllSet-other false ms h = h

    pub AllSet-removed :
        (b : Bool) (ms : MonitorSet)
        → is_other filters f ≡ b
        → AllSet (IsEntry filters view seen) ms
        → ((q : FilterPtr) → in_set q ms ≡ asks_other filters (view q))
        → AllSet (IsEntry filters (removed p view) seen) (if b then erase_ptr p ms else ms)
    AllSet-removed b ms other hs h =
        let ms' = if b then erase_ptr p ms else ms in
        AllSet-map (λ q item. IsEntry filters view seen q item × (in_set q ms' ≡ true))
          (IsEntry filters (removed p view) seen) ms'
          (λ q item (e, i).
            IsEntry-removed q item
              (asks_other-some (removed p view q) (sym (in_set-removed b q ms other (h q)) ∙ i)) e)
          (AllSet-zip (IsEntry filters view seen) (λ q item. in_set q ms' ≡ true) ms'
            (AllSet-other b ms hs) (AllSet-in_set ms'))

    -- The steps of the one branch that the code takes; the indexes of the others hold no key.
    pub uninstall_filter_lem :
        (s : ActiveMonitors filters) (m1 m2 m3 : MonitorMap Bytes) (m4 : MonitorMap ℕ)
        → IsGood filters f
        → uninstall_each bytes_order p (id_keys filters f) s.all_ids ≡ ok m1
        → uninstall_each bytes_order p (author_keys filters f) s.all_authors ≡ ok m2
        → uninstall_each bytes_order p (tag_keys filters f) s.all_tags ≡ ok m3
        → uninstall_each number_order p (kind_keys filters f) s.all_kinds ≡ ok m4
        → uninstall_filter filters p f s
          ≡ ok (record s {
            all_ids = m1;
            all_authors = m2;
            all_tags = m3;
            all_kinds = m4;
            all_others = if is_other filters f then erase_ptr p s.all_others else s.all_others;
          })
    unfolding uninstall_filter id_keys author_keys tag_keys kind_keys is_other tag_specs
    uninstall_filter_lem s m1 m2 m3 m4 good e1 e2 e3 e4 = elim (Option-cases (filters.ids f)) [
      | inr (xs, e) ↦
          let sized = rw (id_keys, e) at good.ids_size in
          let i1 = for_each-uninstall_bytes p xs s.all_ids sized ∙ rw (id_keys, e) at e1 in
          let i2 = ok-injective (rw (author_keys, e) at e2) in
          let i3 = ok-injective (rw (tag_keys, e) at e3) in
          let i4 = ok-injective (rw (kind_keys, e) at e4) in
          rw (uninstall_filter, is_other, e, i1)
            (λ i.
              ok (record s { all_ids = m1; all_authors = i2 i; all_tags = i3 i; all_kinds = i4 i }))
      | inl no_ids ↦
          let i1 = ok-injective (rw (id_keys, no_ids) at e1) in
          elim (Option-cases (filters.authors f)) [
            | inr (xs, e) ↦
                let sized = rw (author_keys, no_ids, e) at good.authors_size in
                let i2 =
                  for_each-uninstall_bytes p xs s.all_authors sized
                  ∙ rw (author_keys, no_ids, e) at e2 in
                let i3 = ok-injective (rw (tag_keys, no_ids, e) at e3) in
                let i4 = ok-injective (rw (kind_keys, no_ids, e) at e4) in
                rw (uninstall_filter, is_other, no_ids, e, i2)
                  (λ i. ok (record s {
                    all_ids = i1 i;
                    all_authors = m2;
                    all_tags = i3 i;
                    all_kinds = i4 i;
                  }))
            | inl no_authors ↦
                let i2 = ok-injective (rw (author_keys, no_ids, no_authors) at e2) in
                elim (List-cases (filters.tags f)) [
                  | inr (t, ts, e) ↦
                      let i3 = rw (tag_keys, no_ids, no_authors, e) at e3 in
                      let i4 = ok-injective (rw (kind_keys, no_ids, no_authors, e) at e4) in
                      rw (uninstall_filter, is_other, no_ids, no_authors, e, i3)
                        (λ i. ok (record s {
                          all_ids = i1 i;
                          all_authors = i2 i;
                          all_tags = m3;
                          all_kinds = i4 i;
                        }))
                  | inl no_tags ↦
                      let i3 = ok-injective (rw (tag_keys, no_ids, no_authors, no_tags) at e3) in
                      elim (Option-cases (filters.kinds f)) [
                        | inr (ks, e) ↦
                            let i4 = rw (kind_keys, no_ids, no_authors, no_tags, e) at e4 in
                            rw (uninstall_filter, is_other, no_ids, no_authors, no_tags, e, i4)
                              (λ i. ok (record s {
                                all_ids = i1 i;
                                all_authors = i2 i;
                                all_tags = i3 i;
                                all_kinds = m4;
                              }))
                        | inl no_kinds ↦
                            let i4 =
                              ok-injective
                                (rw (kind_keys, no_ids, no_authors, no_tags, no_kinds) at e4) in
                            rw (uninstall_filter, is_other, no_ids, no_authors, no_tags, no_kinds)
                              (λ i. ok (record s {
                                all_ids = i1 i;
                                all_authors = i2 i;
                                all_tags = i3 i;
                                all_kinds = i4 i;
                                all_others = erase_ptr p s.all_others;
                              }))
                      ]
                ]
          ]
    ]
