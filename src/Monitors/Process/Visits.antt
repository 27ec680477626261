-- ===== src/Monitors/Process/Visits.antt =====
-- What a visit of a filter does to the recipients.
use strfry_http.Base.{
  mem, mem-append, ℕ, ◌≡◌, refl, sym, ap, ◌∙◌, subst, inl, inr, Bool, true, false, ◌||◌, Option,
  none, some, List, [], ◌∷◌, ◌++◌, arith, leb, if◌then◌else◌, if-true, if-false, true-false,
  Bool-cases, get_elem?, ok,
}
use mathlib.Core.Option.{some-injective}
use strfry_http.Monitors.{Filters, ViewEvent, Monitor, Heap, deref}
use strfry_http.Monitors.Maps.{FilterPtr, MonitorItem}
use strfry_http.Monitors.Valid.{place}
use strfry_http.Monitors.Process.{Run, deref_filter, visit}
use strfry_http.Monitors.Process.Sent.{
  told, waits, sent_to, Earns, IsSent, Settled, IsItem, Grows, told-IsSent,
}

module _ {F : Type 0} (filters : Filters F) where
  visit_skips :
      (ev : ViewEvent) (p : FilterPtr) (item : MonitorItem) (r : Run filters) (m : Monitor filters)
      → r.heap item.mon ≡ some m
      → (leb ev.primary_key_id item.latest_event_id || leb ev.primary_key_id m.latest_event_id)
        ≡ true
      → visit filters ev p item r ≡ ok (item, r)
  unfolding visit deref
  visit_skips ev p item r m there seen = rw (visit, deref, there) (if-true _ _ seen)

  visit_tests :
      (ev : ViewEvent) (p : FilterPtr) (item : MonitorItem) (r : Run filters) (m : Monitor filters)
      (f : F) (b : Bool)
      → r.heap item.mon ≡ some m
      → item.mon ≡ p.monitor
      → (leb ev.primary_key_id item.latest_event_id || leb ev.primary_key_id m.latest_event_id)
        ≡ false
      → get_elem? m.filter_group p.index ≡ some f
      → filters.does_match f ev.view ≡ ok b
      → visit filters ev p item r
        ≡ ok (
          record item { latest_event_id = ev.primary_key_id },
          if b then told filters ev item.mon m r else r,
        )
  unfolding visit deref deref_filter
  visit_tests ev p item r m f b there same fresh at decided =
      let there' : r.heap p.monitor ≡ some m = ap r.heap (sym same) ∙ there in
      rw (visit, deref, there)
        (if-false _ _ fresh ∙ rw (deref_filter, deref, there', at, decided) refl)

  -- The event, the monitors before it, and which filters match it.
  module _ (ev : ViewEvent) (before : Heap filters) (matches : F → Bool) where
    -- What a visit leaves.
    pub record Visits (ms ms' : List ℕ) (p : FilterPtr) (item : MonitorItem) (r : Run filters)
        : Type 0 where
      pub sent : IsSent filters ev before matches r ms'
      pub grows : Grows filters ev before matches ms ms'
      pub entry : IsItem filters ev before matches ms' p item
      pub settled : Settled filters ev before matches p ms'

    place-some :
        (o : Option (Monitor filters)) (i : ℕ) (f : F)
        → place filters o i ≡ some f
        → (m : Monitor filters) × (o ≡ some m) × (get_elem? m.filter_group i ≡ some f)
    place-some none i f h = cc
    place-some (some m) i f h = (m, refl, h)

    abbrev Outcome : List ℕ → FilterPtr → MonitorItem → Run filters → Type 0
    Outcome ms p item r =
        (item' : MonitorItem) × (r' : Run filters) × (ms' : List ℕ) × (visit filters ev p item r
          ≡ ok (item', r'))
        × Visits ms ms' p item' r'

    -- The subscription was sent the event for another filter, or had seen it before.
    visit_of_seen :
        (ms : List ℕ) (p : FilterPtr) (item : MonitorItem) (r : Run filters) (m : Monitor filters)
        → IsSent filters ev before matches r ms
        → IsItem filters ev before matches ms p item
        → r.heap item.mon ≡ some m
        → (leb ev.primary_key_id item.latest_event_id || leb ev.primary_key_id m.latest_event_id)
          ≡ true
        → Settled filters ev before matches p ms
        → Outcome ms p item r
    visit_of_seen ms p item r m sent i there seen settled = (
      item,
      r,
      ms,
      visit_skips ev p item r m there seen,
      record { sent = sent; grows = λ a h. h; entry = i; settled = settled },
    )

    -- The filter is tested.
    visit_of_new :
        (b : Bool) (ms : List ℕ) (p : FilterPtr) (item : MonitorItem) (r : Run filters)
        (m : Monitor filters)
        → IsSent filters ev before matches r ms
        → (i : IsItem filters ev before matches ms p item) → before p.monitor ≡ some m
        → get_elem? m.filter_group p.index ≡ some i.filter
        → r.heap item.mon ≡ some m
        → mem p.monitor ms ≡ false
        → (leb ev.primary_key_id item.latest_event_id || leb ev.primary_key_id m.latest_event_id)
          ≡ false
        → filters.does_match i.filter ev.view ≡ ok b
        → matches i.filter ≡ b
        → Outcome ms p item r
    visit_of_new true ms p item r m sent i there at now new fresh decided hit =
        let waiting : waits filters ev before matches (before p.monitor) ≡ true =
          rw there (ground (arith, fresh)) in
        let earns : Earns filters ev before matches p.monitor = record {
          waiting = waiting;
          index = p.index;
          filter = i.filter;
          there = i.there;
          hit = hit;
        } in
        let is_in : mem p.monitor (ms ++ (p.monitor ∷ [])) ≡ true =
          mem-append p.monitor p.monitor ms ∙ ground arith in
        (
          record item { latest_event_id = ev.primary_key_id },
          told filters ev item.mon m r,
          ms ++ (p.monitor ∷ []),
          visit_tests ev p item r m i.filter true now i.same fresh at decided,
          record {
            sent =
                subst
                  (λ (a : ℕ).
                    IsSent filters ev before matches (told filters ev a m r)
                      (ms ++ (p.monitor ∷ [])))
                  (sym i.same)
                  (told-IsSent filters ev before matches p.monitor m r ms sent there new earns);
            grows = λ a h. mem-append a p.monitor ms ∙ rw h refl;
            entry = record {
              same = i.same;
              filter = i.filter;
              there = i.there;
              bounded = omega arith;
              visited = λ seen f here hit' waiting'. is_in;
            };
            settled = λ f here hit' waiting'. is_in;
          },
        )
    visit_of_new false ms p item r m sent i there at now new fresh decided miss =
        let settled : Settled filters ev before matches p ms = λ f here hit waiting.
          absurd (
            true-false (sym hit ∙ (ap matches (some-injective _ _ (sym here ∙ i.there)) ∙ miss))) in
        (
          record item { latest_event_id = ev.primary_key_id },
          r,
          ms,
          visit_tests ev p item r m i.filter false now i.same fresh at decided,
          record {
            sent = sent;
            grows = λ a h. h;
            entry = record {
              same = i.same;
              filter = i.filter;
              there = i.there;
              bounded = omega arith;
              visited = λ seen. settled;
            };
            settled = settled;
          },
        )

    pub visit-Visits :
        (ms : List ℕ) (p : FilterPtr) (item : MonitorItem) (r : Run filters)
        → ((f : F) → filters.does_match f ev.view ≡ ok (matches f))
        → IsSent filters ev before matches r ms
        → IsItem filters ev before matches ms p item
        → (item' : MonitorItem) × (r' : Run filters) × (ms' : List ℕ) × (visit filters ev p item r
            ≡ ok (item', r'))
          × Visits ms ms' p item' r'
    unfolding visit
    visit-Visits ms p item r decides sent i =
        let (m, there, at) = place-some (before p.monitor) p.index i.filter i.there in
        let now : r.heap item.mon ≡ sent_to filters ev before matches (mem p.monitor ms) (some m) =
          ap r.heap i.same
          ∙ (sent.heap_is p.monitor
              ∙ ap (sent_to filters ev before matches (mem p.monitor ms)) there) in
        elim (Bool-cases (mem p.monitor ms)) [
          | inl old ↦
              let now' = now ∙ ap (λ t. sent_to filters ev before matches t (some m)) old in
              visit_of_seen ms p item r (record m { latest_event_id = ev.primary_key_id }) sent i
                now' (ground arith) (λ f here hit waiting. old)
          | inr new ↦
              let now' = now ∙ ap (λ t. sent_to filters ev before matches t (some m)) new in
              elim (Bool-cases (leb ev.primary_key_id item.latest_event_id)) [
                | inl seen ↦
                    visit_of_seen ms p item r m sent i now' (ground (arith, seen)) (i.visited seen)
                | inr unseen ↦ elim (Bool-cases (leb ev.primary_key_id m.latest_event_id)) [
                  | inl late ↦
                      visit_of_seen ms p item r m sent i now' (ground (arith, late))
                        (λ f here hit waiting.
                          let late' : waits filters ev before matches (before p.monitor) ≡ false =
                            rw (there, late) refl in
                          absurd (true-false (sym waiting ∙ late')))
                  | inr early ↦
                      visit_of_new (matches i.filter) ms p item r m sent i there at now' new
                        (ground (arith, unseen, early)) (decides i.filter) refl
                ]
              ]
        ]
