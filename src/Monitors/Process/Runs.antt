-- ===== src/Monitors/Process/Runs.antt =====
-- The run of `process` through its indexes.
use strfry_http.Base.{
  ℕ, ◌≤◌, ◌<◌, ◌≡◌, refl, ◌∙◌, Bool, false, Option, none, some, List, [], ◌∷◌, arith, Bytes, length,
  drop, All, ok, length-take, length-drop,
}
use strfry_http.Packed.{PackedEventView, id, pubkey, foreach_tag}
use strfry_http.Packed.Tags.{Tag, encode, foreach_tag-encode}
use strfry_http.Monitors.{Filters, ViewEvent, Monitor, ActiveMonitors, get_tag_spec, bytes32}
use strfry_http.Monitors.Maps.{
  FilterPtr, MonitorItem, MonitorSet, MonitorMap, Order, bytes_order, number_order, in_set, stands,
  AllItems, Falls,
}
use strfry_http.Monitors.Maps.Items.{AllSet, AllSet-map, AllItems-map}
use strfry_http.Monitors.Valid.{view_of, IsEntry, IsInstalled}
use strfry_http.Monitors.Process.{
  Run, process_monitors_exact, process_monitor_set, process_tag, call_back, process,
}
use strfry_http.Monitors.Process.Sent.{IsSent, IsItem, IsItem-Grows, Settled, Grows, sent_to}
use strfry_http.Monitors.Process.Sets.{
  process_monitor_set-VisitsSet, process_monitors_exact-VisitsMap,
}
use strfry_http.Monitors.Process.Delivers.{Decides, TagSettles, walk-VisitsTags}
use strfry_http.Monitors.Process.Settles.{AllSettled}

bytes32_ok : (s : Bytes) → length s ≡ 32 → bytes32 s ≡ ok s
unfolding bytes32
bytes32_ok s h = ground (arith, h)

id_bytes32 : (v : PackedEventView) → 88 ≤ length v.buf → bytes32 (id v) ≡ ok (id v)
unfolding id
id_bytes32 v h = bytes32_ok (id v) (omega (arith, length-take 32 (drop 0 v.buf)))

pubkey_bytes32 : (v : PackedEventView) → 88 ≤ length v.buf → bytes32 (pubkey v) ≡ ok (pubkey v)
unfolding pubkey
pubkey_bytes32 v h =
    bytes32_ok (pubkey v) (omega (arith, length-take 32 (drop 32 v.buf), length-drop 32 v.buf))

module _ {F : Type 0} (filters : Filters F) where
  -- The run of `process`, step by step.
  process_steps :
      (ev : ViewEvent) (s : ActiveMonitors filters) (key author : Bytes)
      (m1 m2 m3 : MonitorMap Bytes) (m4 : MonitorMap ℕ) (m5 : MonitorSet)
      (r1 r2 r3 r4 r5 : Run filters)
      → bytes32 (id ev.view) ≡ ok key
      → process_monitors_exact filters bytes_order ev key s.all_ids
          (record { heap = s.heap; recipients = [] })
        ≡ ok (m1, r1)
      → bytes32 (pubkey ev.view) ≡ ok author
      → process_monitors_exact filters bytes_order ev author s.all_authors r1 ≡ ok (m2, r2)
      → foreach_tag (process_tag filters ev) (s.all_tags, r2) ev.view ≡ ok (m3, r3)
      → process_monitors_exact filters number_order ev (filters.kind ev.view) s.all_kinds r3
        ≡ ok (m4, r4)
      → process_monitor_set filters ev s.all_others r4 ≡ ok (m5, r5)
      → process filters ev s
        ≡ ok (
          call_back filters ev r5.recipients,
          record s {
            heap = r5.heap;
            all_ids = m1;
            all_authors = m2;
            all_tags = m3;
            all_kinds = m4;
            all_others = m5;
          },
        )
  unfolding process
  process_steps ev s key author m1 m2 m3 m4 m5 r1 r2 r3 r4 r5 h1 h2 h3 h4 h5 h6 h7 =
      rw (h1, h2, h3, h4, h5, h6, h7) refl

  module _ (ev : ViewEvent) (tags : List Tag) (matches : F → Bool)
      (decides : Decides filters ev tags matches) (s : ActiveMonitors filters) (seen : ℕ) where
    abbrev Entry : List ℕ → FilterPtr → MonitorItem → Type 0
    Entry = IsItem filters ev s.heap matches

    abbrev Settles : FilterPtr → List ℕ → Type 0
    Settles = Settled filters ev s.heap matches

    IsEntry-IsItem :
        (p : FilterPtr) (item : MonitorItem)
        → seen < ev.primary_key_id
        → IsEntry filters (view_of filters s.heap) seen p item
        → Entry [] p item
    IsEntry-IsItem p item new e = record {
      same = e.same;
      filter = e.filter;
      there = e.there;
      bounded = let b = e.bounded in omega arith;
      visited = λ late. let b = e.bounded in absurd (ground (arith, late));
    }

    AllItems-IsItem :
        {K : Type 0} (m : MonitorMap K)
        → seen < ev.primary_key_id
        → AllItems (IsEntry filters (view_of filters s.heap) seen) m
        → AllItems (Entry []) m
    AllItems-IsItem m new =
        AllItems-map (IsEntry filters (view_of filters s.heap) seen) (Entry []) m
          (λ p i. IsEntry-IsItem p i new)

    AllItems-Grows :
        (ms ms' : List ℕ) {K : Type 0} (m : MonitorMap K)
        → Grows filters ev s.heap matches ms ms'
        → AllItems (Entry ms) m
        → AllItems (Entry ms') m
    AllItems-Grows ms ms' m g =
        AllItems-map (Entry ms) (Entry ms') m
          (λ p i. IsItem-Grows filters ev s.heap matches ms ms' p i g)

    TagSettles-Grows :
        (some_tags : List Tag) (ms ms' : List ℕ) (m m' : MonitorMap Bytes)
        → ((k : Bytes) (p : FilterPtr) → stands bytes_order k p m' ≡ stands bytes_order k p m)
        → Grows filters ev s.heap matches ms ms'
        → All (TagSettles filters ev tags s.heap matches decides m' ms) some_tags
        → All (TagSettles filters ev tags s.heap matches decides m ms') some_tags
    TagSettles-Grows [] ms ms' m m' same g hs = tt
    TagSettles-Grows (t ∷ ts) ms ms' m m' same g (h, hs) = (
      λ p there f at hit waiting.
          g p.monitor (h p (same (get_tag_spec t.0 t.1) p ∙ there) f at hit waiting),
      TagSettles-Grows ts ms ms' m m' same g hs,
    )

    untold : (o : Option (Monitor filters)) → o ≡ sent_to filters ev s.heap matches false o
    untold none = refl
    untold (some m) = refl

    -- What a visit leaves of an index.
    pub record Kept {K : Type 0} (order : Order K) (ms : List ℕ) (m m' : MonitorMap K)
        : Type 0 where
      pub falls : Falls order m'
      pub items : AllItems (Entry ms) m'
      pub same : (k : K) (p : FilterPtr) → stands order k p m' ≡ stands order k p m

    abbrev pub after :
        Run filters
        → MonitorMap Bytes
        → MonitorMap Bytes
        → MonitorMap Bytes
        → MonitorMap ℕ
        → MonitorSet
        → ActiveMonitors filters
    after r m1 m2 m3 m4 m5 = record s {
      heap = r.heap;
      all_ids = m1;
      all_authors = m2;
      all_tags = m3;
      all_kinds = m4;
      all_others = m5;
    }

    pub record Runs (ms : List ℕ) (r : Run filters) (m1 m2 m3 : MonitorMap Bytes)
        (m4 : MonitorMap ℕ) (m5 : MonitorSet) : Type 0 where
      pub run :
          process filters ev s ≡ ok (call_back filters ev r.recipients, after r m1 m2 m3 m4 m5)
      pub sent : IsSent filters ev s.heap matches r ms
      pub all : AllSettled filters ev tags matches decides s seen ms
      pub ids : Kept bytes_order ms s.all_ids m1
      pub authors : Kept bytes_order ms s.all_authors m2
      pub tags_kept : Kept bytes_order ms s.all_tags m3
      pub kinds : Kept number_order ms s.all_kinds m4
      pub entries : AllSet (Entry ms) m5
      pub others : (p : FilterPtr) → in_set p m5 ≡ in_set p s.all_others

    Kept-Grows :
        {K : Type 0} (order : Order K) (ms ms' : List ℕ) (m m' : MonitorMap K)
        → Grows filters ev s.heap matches ms ms'
        → Falls order m'
        → AllItems (Entry ms) m'
        → ((k : K) (p : FilterPtr) → stands order k p m' ≡ stands order k p m)
        → Kept order ms' m m'
    Kept-Grows order ms ms' m m' g falls items same = record {
      falls = falls;
      items = AllItems-Grows ms ms' m' g items;
      same = same;
    }

    pub process-Runs :
        IsInstalled filters s (view_of filters s.heap) seen
        → seen < ev.primary_key_id
        → 88 ≤ length ev.view.buf
        → drop 88 ev.view.buf ≡ encode tags
        → (ms : List ℕ) × (r : Run filters) × (m1 : MonitorMap Bytes) × (m2 : MonitorMap Bytes)
          × (m3 : MonitorMap Bytes) × (m4 : MonitorMap ℕ) × (m5 : MonitorSet) × Runs ms r m1 m2 m3
              m4 m5
    process-Runs inst new size tagged =
        let (m1, r1, ms1, e1, x1) =
          process_monitors_exact-VisitsMap filters ev s.heap matches decides.decided bytes_order
            (id ev.view) [] s.all_ids (record { heap = s.heap; recipients = [] })
            (record {
              heap_is = λ a. untold (s.heap a);
              recipients_are = refl;
              once = tt;
              earned = tt;
            })
            (AllItems-IsItem s.all_ids new inst.ids.items) inst.ids.falls in
        let (m2, r2, ms2, e2, x2) =
          process_monitors_exact-VisitsMap filters ev s.heap matches decides.decided bytes_order
            (pubkey ev.view) ms1 s.all_authors r1 x1.sent
            (AllItems-Grows [] ms1 s.all_authors x1.grows
              (AllItems-IsItem s.all_authors new inst.authors.items))
            inst.authors.falls in
        let g2 : Grows filters ev s.heap matches [] ms2 = λ a h. x2.grows a (x1.grows a h) in
        let (m3, r3, ms3, e3, x3) =
          walk-VisitsTags filters ev tags s.heap matches decides tags ms2 s.all_tags r2 x2.sent
            (AllItems-Grows [] ms2 s.all_tags g2 (AllItems-IsItem s.all_tags new inst.tags.items))
            inst.tags.falls in
        let g3 : Grows filters ev s.heap matches [] ms3 = λ a h. x3.grows a (g2 a h) in
        let (m4, r4, ms4, e4, x4) =
          process_monitors_exact-VisitsMap filters ev s.heap matches decides.decided number_order
            (filters.kind ev.view) ms3 s.all_kinds r3 x3.sent
            (AllItems-Grows [] ms3 s.all_kinds g3
              (AllItems-IsItem s.all_kinds new inst.kinds.items))
            inst.kinds.falls in
        let g4 : Grows filters ev s.heap matches [] ms4 = λ a h. x4.grows a (g3 a h) in
        let (m5, r5, ms5, e5, x5) =
          process_monitor_set-VisitsSet filters ev s.heap matches decides.decided ms4 s.all_others
            r4 x4.sent
            (AllSet-map (IsEntry filters (view_of filters s.heap) seen) (Entry ms4) s.all_others
              (λ p i e.
                IsItem-Grows filters ev s.heap matches [] ms4 p i g4 (IsEntry-IsItem p i new e))
              inst.others) in
        let g45 : Grows filters ev s.heap matches ms4 ms5 = x5.grows in
        let g35 : Grows filters ev s.heap matches ms3 ms5 = λ a h. g45 a (x4.grows a h) in
        let g25 : Grows filters ev s.heap matches ms2 ms5 = λ a h. g35 a (x3.grows a h) in
        let g15 : Grows filters ev s.heap matches ms1 ms5 = λ a h. g25 a (x2.grows a h) in
        let all : AllSettled filters ev tags matches decides s seen ms5 = record {
          by_id = λ p h f at hit w. g15 p.monitor (x1.settled p h f at hit w);
          by_author = λ p h f at hit w. g25 p.monitor (x2.settled p h f at hit w);
          by_tag = TagSettles-Grows tags ms3 ms5 s.all_tags s.all_tags (λ k p. refl) g35 x3.settled;
          by_kind = λ p h f at hit w. g45 p.monitor (x4.settled p h f at hit w);
          by_other = x5.settled;
        } in
        let e3' : foreach_tag (process_tag filters ev) (s.all_tags, r2) ev.view ≡ ok (m3, r3) =
          foreach_tag-encode (process_tag filters ev) tags (s.all_tags, r2) ev.view tagged ∙ e3 in
        (
          ms5,
          r5,
          m1,
          m2,
          m3,
          m4,
          m5,
          record {
            run =
                process_steps ev s (id ev.view) (pubkey ev.view) m1 m2 m3 m4 m5 r1 r2 r3 r4 r5
                  (id_bytes32 ev.view size) e1 (pubkey_bytes32 ev.view size) e2 e3' e4 e5;
            sent = x5.sent;
            all = all;
            ids = Kept-Grows bytes_order ms1 ms5 s.all_ids m1 g15 x1.falls x1.items x1.same;
            authors = Kept-Grows bytes_order ms2 ms5 s.all_authors m2 g25 x2.falls x2.items x2.same;
            tags_kept = Kept-Grows bytes_order ms3 ms5 s.all_tags m3 g35 x3.falls x3.items x3.same;
            kinds = Kept-Grows number_order ms4 ms5 s.all_kinds m4 g45 x4.falls x4.items x4.same;
            entries = x5.entries;
            others = x5.same;
          },
        )
