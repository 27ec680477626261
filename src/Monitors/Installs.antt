-- ===== src/Monitors/Installs.antt =====
-- `installLookups`: afterwards the indexes hold the filters of the monitor too.
use strfry_http.Base.{
  ℕ, ◌≤◌, ◌≡◌, refl, sym, ap, ◌∙◌, inl, inr, Bool, true, false, Option, none, some, List, ◌∷◌,
  arith, if◌then◌else◌, if-true, if-false, Bool-cases, Option-cases, List-cases, any, ok,
}
use strfry_http.Monitors.{Filters, ActiveMonitors, tag_specs, install_filter}
use strfry_http.Monitors.Maps.{
  FilterPtr, MonitorItem, MonitorSet, MonitorMap, Order, bytes_order, number_order, same_ptr,
  in_set, try_emplace, stands,
}
use strfry_http.Monitors.Maps.Lookup.{same_ptr_iff, in_set-try_emplace}
use strfry_http.Monitors.Maps.Items.{AllSet, AllSet-map, AllItems-map, AllSet-try_emplace}
use strfry_http.Monitors.Valid.{
  id_keys, author_keys, tag_keys, kind_keys, is_other, IsGood, IsEntry, asks, IsIndex, asks_other,
  IsInstalled,
}
use strfry_http.Monitors.EachKey.{
  installs, for_each-install_bytes, for_each-install_tag, for_each-install_kind, drop_false,
  stands-installs, Falls-installs, AllItems-installs,
}

module _ {F : Type 0} (filters : Filters F) where
  -- The filters with one more.
  abbrev pub added : FilterPtr → F → (FilterPtr → Option F) → FilterPtr → Option F
  added p f view q = if same_ptr p q then some f else view q

  module _ (p : FilterPtr) (f : F) (item : MonitorItem) (view : FilterPtr → Option F) (seen : ℕ)
      (new : view p ≡ none) (same : item.mon ≡ p.monitor)
      (bounded : item.latest_event_id ≤ seen) where
    absent : (q : FilterPtr) → same_ptr p q ≡ true → view q ≡ none
    absent q h = ap view (sym ((same_ptr_iff p q).0 h)) ∙ new

    IsEntry-added :
        (q : FilterPtr) (i : MonitorItem)
        → IsEntry filters view seen q i
        → IsEntry filters (added p f view) seen q i
    IsEntry-added q i e = record {
      same = e.same;
      filter = e.filter;
      bounded = e.bounded;
      there = elim (Bool-cases (same_ptr p q)) [
        | inr other ↦ if-false _ _ other ∙ e.there
        | inl hit ↦ let there = e.there in cc (absent q hit, there)
      ];
    }

    IsEntry-new : IsEntry filters (added p f view) seen p item
    IsEntry-new = record {
      same = same;
      filter = f;
      bounded = bounded;
      there = if-true _ _ ((same_ptr_iff p p).1 refl);
    }

    installed-IsIndex :
        {K : Type 0} (order : Order K) (keys : F → List K) (m : MonitorMap K)
        → IsIndex filters order keys m view seen
        → IsIndex filters order keys (installs order p item (keys f) m) (added p f view) seen
    installed-IsIndex order keys m index = record {
      falls = Falls-installs order p item (keys f) m index.falls;
      items =
          AllItems-installs order p item (IsEntry filters (added p f view) seen) (keys f) m
            IsEntry-new
            (AllItems-map (IsEntry filters view seen) (IsEntry filters (added p f view) seen) m
              IsEntry-added index.items);
      stands_for = λ k q.
          stands-installs order p item (keys f) m k q ∙ elim (Bool-cases (same_ptr p q)) [
            | inl hit ↦
                let nothing : stands order k q m ≡ false =
                  index.stands_for k q ∙ ap (asks filters order keys k) (absent q hit) in
                rw (hit, nothing) (ground arith)
            | inr other ↦ rw other (
                drop_false (any (λ j. order.eq j k) (keys f)) (stands order k q m)
                ∙ index.stands_for k q)
          ];
    }

    in_set-added :
        (b : Bool) (q : FilterPtr) (ms : MonitorSet)
        → is_other filters f ≡ b
        → in_set q ms ≡ asks_other filters (view q)
        → in_set q (if b then try_emplace p item ms else ms) ≡ asks_other filters (added p f view q)
    in_set-added b q ms other h = elim (Bool-cases (same_ptr p q)) [
      | inl hit ↦
          let nothing : in_set q ms ≡ false = h ∙ ap (asks_other filters) (absent q hit) in
          added_self b nothing hit ∙ sym (ap (asks_other filters) (if-true _ _ hit) ∙ other)
      | inr miss ↦ added_other b miss ∙ (h ∙ ap (asks_other filters) (sym (if-false _ _ miss)))
    ]
      where
        added_self :
            (c : Bool)
            → in_set q ms ≡ false
            → same_ptr p q ≡ true
            → in_set q (if c then try_emplace p item ms else ms) ≡ c
        added_self true none' hit = in_set-try_emplace p q item ms ∙ rw hit refl
        added_self false none' hit = none'

        added_other :
            (c : Bool)
            → same_ptr p q ≡ false
            → in_set q (if c then try_emplace p item ms else ms) ≡ in_set q ms
        added_other true miss = in_set-try_emplace p q item ms ∙ rw miss refl
        added_other false miss = refl

    AllSet-added :
        (b : Bool) (ms : MonitorSet)
        → AllSet (IsEntry filters view seen) ms
        → AllSet (IsEntry filters (added p f view) seen) (if b then try_emplace p item ms else ms)
    AllSet-added true ms h =
        AllSet-try_emplace (IsEntry filters (added p f view) seen) p item ms IsEntry-new (
          AllSet-map (IsEntry filters view seen) (IsEntry filters (added p f view) seen) ms
            IsEntry-added h)
    AllSet-added false ms h =
        AllSet-map (IsEntry filters view seen) (IsEntry filters (added p f view) seen) ms
          IsEntry-added h

    -- All the indexes with the filter.
    abbrev pub installed : ActiveMonitors filters → ActiveMonitors filters
    installed s = record s {
      all_ids = installs bytes_order p item (id_keys filters f) s.all_ids;
      all_authors = installs bytes_order p item (author_keys filters f) s.all_authors;
      all_tags = installs bytes_order p item (tag_keys filters f) s.all_tags;
      all_kinds = installs number_order p item (kind_keys filters f) s.all_kinds;
      all_others = if is_other filters f then try_emplace p item s.all_others else s.all_others;
    }

    pub installed-IsInstalled :
        (s : ActiveMonitors filters)
        → IsInstalled filters s view seen
        → IsInstalled filters (installed s) (added p f view) seen
    installed-IsInstalled s inst = record {
      ids = installed-IsIndex bytes_order (id_keys filters) s.all_ids inst.ids;
      authors = installed-IsIndex bytes_order (author_keys filters) s.all_authors inst.authors;
      tags = installed-IsIndex bytes_order (tag_keys filters) s.all_tags inst.tags;
      kinds = installed-IsIndex number_order (kind_keys filters) s.all_kinds inst.kinds;
      others = AllSet-added (is_other filters f) s.all_others inst.others;
      others_for = λ q. in_set-added (is_other filters f) q s.all_others refl (inst.others_for q);
    }

    pub install_filter_lem :
        (s : ActiveMonitors filters)
        → IsGood filters f
        → install_filter filters p item f s ≡ ok (installed s)
    unfolding install_filter id_keys author_keys tag_keys kind_keys is_other tag_specs
    install_filter_lem s good = elim (Option-cases (filters.ids f)) [
      | inr (xs, e) ↦
          let sized = rw (id_keys, e) at good.ids_size in
          rw
            (
              install_filter,
              id_keys,
              author_keys,
              tag_keys,
              kind_keys,
              is_other,
              e,
              for_each-install_bytes p item xs s.all_ids sized,
            )
            refl
      | inl no_ids ↦ elim (Option-cases (filters.authors f)) [
        | inr (xs, e) ↦
            let sized = rw (author_keys, no_ids, e) at good.authors_size in
            rw
              (
                install_filter,
                id_keys,
                author_keys,
                tag_keys,
                kind_keys,
                is_other,
                no_ids,
                e,
                for_each-install_bytes p item xs s.all_authors sized,
              )
              refl
        | inl no_authors ↦ elim (List-cases (filters.tags f)) [
          | inr (t, ts, e) ↦
              rw
                (
                  install_filter,
                  id_keys,
                  author_keys,
                  tag_keys,
                  kind_keys,
                  is_other,
                  no_ids,
                  no_authors,
                  e,
                  for_each-install_tag p item (tag_specs (t ∷ ts)) s.all_tags,
                )
                refl
          | inl no_tags ↦ elim (Option-cases (filters.kinds f)) [
            | inr (ks, e) ↦
                rw
                  (
                    install_filter,
                    id_keys,
                    author_keys,
                    tag_keys,
                    kind_keys,
                    is_other,
                    no_ids,
                    no_authors,
                    no_tags,
                    e,
                    for_each-install_kind p item ks s.all_kinds,
                  )
                  refl
            | inl no_kinds ↦
                rw
                  (
                    install_filter, id_keys, author_keys, tag_keys, kind_keys, is_other, no_ids,
                    no_authors, no_tags, no_kinds,
                  )
                  refl
          ]
        ]
      ]
    ]
