-- ===== src/Monitors/Process/Keeps.antt =====
-- The monitors after an event: they are as before, but for the number of the latest event.
use strfry_http.Base.{
  mem, ℕ, ◌≡◌, refl, sym, ap, ◌∙◌, subst, subst₂, Bool, true, false, Option, none, some, List,
  Bytes, All,
}
use mathlib.Core.Option.{some-injective}
use strfry_http.Subscription.{SubId}
use strfry_http.Subscription.Conns.{Conns, find_entry}
use strfry_http.Subscription.Conns.Entries.{AllEntries-map}
use strfry_http.Monitors.{Filters, ViewEvent, Monitor, Heap}
use strfry_http.Monitors.Maps.{FilterPtr, MonitorItem, MonitorMap, Order, stands, Falls, AllItems}
use strfry_http.Monitors.Maps.Items.{AllItems-map}
use strfry_http.Monitors.Valid.{
  place, filter_of, view_of, IsEntry, asks, IsIndex, asks_other, IsHeldAt, IsHeld, IsGood,
}
use strfry_http.Monitors.Process.Sent.{IsItem, sent_to}

module _ {F : Type 0} (filters : Filters F) (ev : ViewEvent) (before : Heap filters)
    (matches : F → Bool) where
  abbrev told_by : Bool → Option (Monitor filters) → Option (Monitor filters)
  told_by = sent_to filters ev before matches

  place-sent_to :
      (t : Bool) (o : Option (Monitor filters)) (i : ℕ)
      → place filters (told_by t o) i ≡ place filters o i
  place-sent_to t none i = refl
  place-sent_to true (some m) i = refl
  place-sent_to false (some m) i = refl

  sent_to-some :
      (t : Bool) (o : Option (Monitor filters)) (m' : Monitor filters)
      → told_by t o ≡ some m'
      → (m : Monitor filters) × (o ≡ some m)
        × (m.conn_id ≡ m'.conn_id)
        × (m.sub_id ≡ m'.sub_id)
        × (m.filter_group ≡ m'.filter_group)
  sent_to-some t none m' h = cc
  sent_to-some true (some m) m' h =
      let e = some-injective _ _ h in
      (m, refl, ap (λ x. x.conn_id) e, ap (λ x. x.sub_id) e, ap (λ x. x.filter_group) e)
  sent_to-some false (some m) m' h =
      let e = some-injective _ _ h in
      (m, refl, ap (λ x. x.conn_id) e, ap (λ x. x.sub_id) e, ap (λ x. x.filter_group) e)

  module _ (after : Heap filters) (ms : List ℕ)
      (told : (a : ℕ) → after a ≡ told_by (mem a ms) (before a)) where
    filter_of-after : (p : FilterPtr) → filter_of filters p after ≡ filter_of filters p before
    filter_of-after p =
        ap (λ o. place filters o p.index) (told p.monitor)
        ∙ place-sent_to (mem p.monitor ms) (before p.monitor) p.index

    pub IsEntry-after :
        (p : FilterPtr) (item : MonitorItem)
        → IsItem filters ev before matches ms p item
        → IsEntry filters (view_of filters after) ev.primary_key_id p item
    IsEntry-after p item i = record {
      same = i.same;
      filter = i.filter;
      there = filter_of-after p ∙ i.there;
      bounded = i.bounded;
    }

    pub IsIndex-after :
        {K : Type 0} (order : Order K) (keys : F → List K) (m m' : MonitorMap K) (seen : ℕ)
        → IsIndex filters order keys m (view_of filters before) seen
        → Falls order m'
        → AllItems (IsItem filters ev before matches ms) m'
        → ((k : K) (p : FilterPtr) → stands order k p m' ≡ stands order k p m)
        → IsIndex filters order keys m' (view_of filters after) ev.primary_key_id
    IsIndex-after order keys m m' seen index falls items same = record {
      falls = falls;
      items =
          AllItems-map (IsItem filters ev before matches ms)
            (IsEntry filters (view_of filters after) ev.primary_key_id) m' IsEntry-after items;
      stands_for = λ k p.
          same k p
          ∙ (index.stands_for k p ∙ ap (asks filters order keys k) (sym (filter_of-after p)));
    }

    pub others-after :
        (p : FilterPtr)
        → asks_other filters (filter_of filters p before)
          ≡ asks_other filters (filter_of filters p after)
    others-after p = ap (asks_other filters) (sym (filter_of-after p))

    pub IsHeld-after :
        (next : ℕ) (conns : Conns ℕ)
        → IsHeld filters before next conns
        → IsHeld filters after next conns
    IsHeld-after next conns held = record {
      fresh = λ a le. told a ∙ ap (told_by (mem a ms)) (held.fresh a le);
      indexed =
          AllEntries-map (IsHeldAt filters before) (IsHeldAt filters after) conns
            (λ c b a at. IsHeldAt-after c b a at (mem a ms) (told a)) held.indexed;
      live = λ a m' there.
          let (m, here, conn, named, same) =
            sent_to-some (mem a ms) (before a) m' (sym (told a) ∙ there) in
          subst₂ (λ (c : ℕ) (k : SubId). find_entry c k conns ≡ some a) conn named
            (held.live a m here);
      good = λ a m' there.
          let (m, here, conn, named, same) =
            sent_to-some (mem a ms) (before a) m' (sym (told a) ∙ there) in
          subst (All (IsGood filters)) same (held.good a m here);
    }
      where
        IsHeldAt-after :
            (c : ℕ) (b : Bytes) (a : ℕ)
            → IsHeldAt filters before c b a
            → (t : Bool) → after a ≡ told_by t (before a)
            → IsHeldAt filters after c b a
        IsHeldAt-after c b a at true e = record {
          monitor = record at.monitor { latest_event_id = ev.primary_key_id };
          there = e ∙ ap (told_by true) at.there;
          conn = at.conn;
          named = at.named;
        }
        IsHeldAt-after c b a at false e = record {
          monitor = at.monitor;
          there = e ∙ ap (told_by false) at.there;
          conn = at.conn;
          named = at.named;
        }
