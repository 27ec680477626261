-- ===== src/Monitors/Process/Delivers.antt =====
-- The recipients of an event are the subscriptions that have not seen it and of which a filter
-- matches it.
use strfry_http.Base.{
  ℕ, ◌≡◌, refl, ◌∙◌, Bool, true, ◌&&◌, some, List, [], ◌∷◌, ◌==◌, Bytes, bytes_eq, All, any, ok,
}
use strfry_http.Packed.{id, pubkey}
use strfry_http.Packed.Tags.{Tag, walk}
use strfry_http.Monitors.{Filters, ViewEvent, Heap, get_tag_spec}
use strfry_http.Monitors.Maps.{
  FilterPtr, MonitorItem, MonitorMap, bytes_order, stands, Falls, AllItems,
}
use strfry_http.Monitors.Process.{Run, process_tag}
use strfry_http.Monitors.Process.Sent.{IsSent, IsItem, Settled, Grows}
use strfry_http.Monitors.Process.Sets.{process_monitors_exact-VisitsMap}

-- Some tag of the event has the name, and one of the values.
abbrev pub tag_among : List Tag → ℕ × List Bytes → Bool
tag_among tags (name, vals) = any (λ t. t.0 == name && any (λ x. bytes_eq x t.1) vals) tags

module _ {F : Type 0} (filters : Filters F) where
  -- What `doesMatch` answers on an event, and that a filter that matches asks for what it holds.
  pub record Decides (ev : ViewEvent) (tags : List Tag) (matches : F → Bool) : Type 0 where
    pub decided : (f : F) → filters.does_match f ev.view ≡ ok (matches f)
    pub ids_in :
        (f : F) (xs : List Bytes)
        → matches f ≡ true
        → filters.ids f ≡ some xs
        → any (λ x. bytes_eq x (id ev.view)) xs ≡ true
    pub authors_in :
        (f : F) (xs : List Bytes)
        → matches f ≡ true
        → filters.authors f ≡ some xs
        → any (λ x. bytes_eq x (pubkey ev.view)) xs ≡ true
    pub kinds_in :
        (f : F) (ks : List ℕ)
        → matches f ≡ true
        → filters.kinds f ≡ some ks
        → any (λ k. k == filters.kind ev.view) ks ≡ true
    pub tags_in :
        (f : F) (t : ℕ × List Bytes) (ts : List (ℕ × List Bytes))
        → matches f ≡ true
        → filters.tags f ≡ t ∷ ts
        → tag_among tags t ≡ true

  module _ (ev : ViewEvent) (tags : List Tag) (before : Heap filters) (matches : F → Bool)
      (decides : Decides ev tags matches) where
    abbrev pub Sent : Run filters → List ℕ → Type 0
    Sent = IsSent filters ev before matches

    abbrev pub Entry : List ℕ → FilterPtr → MonitorItem → Type 0
    Entry = IsItem filters ev before matches

    abbrev pub Settles : FilterPtr → List ℕ → Type 0
    Settles = Settled filters ev before matches

    -- The filters that stand under the specification of a tag are settled.
    abbrev pub TagSettles : MonitorMap Bytes → List ℕ → Tag → Type 0
    TagSettles m ms t =
        (p : FilterPtr) → stands bytes_order (get_tag_spec t.0 t.1) p m ≡ true → Settles p ms

    pub record VisitsTags (some_tags : List Tag) (ms ms' : List ℕ) (m m' : MonitorMap Bytes)
        (r : Run filters) : Type 0 where
      pub sent : Sent r ms'
      pub grows : Grows filters ev before matches ms ms'
      pub items : AllItems (Entry ms') m'
      pub settled : All (TagSettles m ms') some_tags
      pub same : (k : Bytes) (p : FilterPtr) → stands bytes_order k p m' ≡ stands bytes_order k p m
      pub falls : Falls bytes_order m'

    TagSettles-map :
        (some_tags : List Tag) (m m' : MonitorMap Bytes) (ms : List ℕ)
        → ((k : Bytes) (p : FilterPtr) → stands bytes_order k p m' ≡ stands bytes_order k p m)
        → All (TagSettles m' ms) some_tags
        → All (TagSettles m ms) some_tags
    TagSettles-map [] m m' ms same hs = tt
    TagSettles-map (t ∷ ts) m m' ms same (h, hs) = (
      λ p stands_there. h p (same (get_tag_spec t.0 t.1) p ∙ stands_there),
      TagSettles-map ts m m' ms same hs,
    )

    pub walk-VisitsTags :
        (some_tags : List Tag) (ms : List ℕ) (m : MonitorMap Bytes) (r : Run filters)
        → Sent r ms
        → AllItems (Entry ms) m
        → Falls bytes_order m
        → (m' : MonitorMap Bytes) × (r' : Run filters) × (ms' : List ℕ) × (walk
              (process_tag filters ev)
              (m, r)
              some_tags
            ≡ ok (m', r'))
          × VisitsTags some_tags ms ms' m m' r'
    unfolding process_tag
    walk-VisitsTags [] ms m r sent items falls = (
      m,
      r,
      ms,
      refl,
      record {
        sent = sent;
        grows = λ a h. h;
        items = items;
        settled = tt;
        same = λ k p. refl;
        falls = falls;
      },
    )
    walk-VisitsTags (t ∷ ts) ms m r sent items falls =
        let (m1, r1, ms1, e1, x) =
          process_monitors_exact-VisitsMap filters ev before matches decides.decided bytes_order
            (get_tag_spec t.0 t.1) ms m r sent items falls in
        let (m2, r2, ms2, e2, y) = walk-VisitsTags ts ms1 m1 r1 x.sent x.items x.falls in
        (
          m2,
          r2,
          ms2,
          rw (e1, e2) refl,
          record {
            sent = y.sent;
            grows = λ a h. y.grows a (x.grows a h);
            items = y.items;
            settled = (
              λ p there f at hit waiting. y.grows p.monitor (x.settled p there f at hit waiting),
              TagSettles-map ts m m1 ms2 x.same y.settled,
            );
            same = λ k p. y.same k p ∙ x.same k p;
            falls = y.falls;
          },
        )
