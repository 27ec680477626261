-- ===== src/Monitors/Process/Recipients.antt =====
-- The recipients of an event are the subscriptions that have not seen it and of which a filter
-- matches it.
use strfry_http.Base.{
  mem, Once, ℕ, ◌≤◌, ◌<◌, ◌≡◌, ap, ◌∙◌, ◌↔◌, Bool, true, List, Bytes, length, drop, ok,
}
use strfry_http.Packed.Tags.{Tag, encode}
use strfry_http.Monitors.{Filters, ViewEvent, Recipient, ActiveMonitors}
use strfry_http.Monitors.Maps.{MonitorSet, MonitorMap, bytes_order, number_order}
use strfry_http.Monitors.Maps.Items.{AllSet-map}
use strfry_http.Monitors.Valid.{
  view_of, id_keys, author_keys, tag_keys, kind_keys, IsEntry, IsInstalled, IsValid,
}
use strfry_http.Monitors.Process.{Run, call_back, process}
use strfry_http.Monitors.Process.Sent.{IsItem, Earns, recipients_of, sent_to}
use strfry_http.Monitors.Process.Delivers.{Decides}
use strfry_http.Monitors.Process.Keeps.{IsIndex-after, IsEntry-after, others-after, IsHeld-after}
use strfry_http.Monitors.Process.Settles.{settled-exactly}
use strfry_http.Monitors.Process.Runs.{Runs, after, process-Runs}

module _ {F : Type 0} (filters : Filters F) where
  -- What a new event does: `to` are the monitors that are sent it.
  pub record Delivers (ev : ViewEvent) (matches : F → Bool) (s : ActiveMonitors filters)
      (out : List (List Recipient × ℕ) × ActiveMonitors filters) : Type 0 where
    pub to : List ℕ
    pub once : Once to
    pub exactly : (a : ℕ) → (mem a to ≡ true) ↔ Earns filters ev s.heap matches a
    pub calls : out.0 ≡ call_back filters ev (recipients_of filters ev s.heap matches to)
    pub told : (a : ℕ) → out.1.heap a ≡ sent_to filters ev s.heap matches (mem a to) (s.heap a)
    pub valid : IsValid filters out.1 ev.primary_key_id

  module _ (ev : ViewEvent) (tags : List Tag) (matches : F → Bool)
      (decides : Decides filters ev tags matches) (s : ActiveMonitors filters) (seen : ℕ) where
    -- The indexes are installed for the heap in which the event was sent.
    after-IsInstalled :
        (ms : List ℕ) (r : Run filters) (m1 m2 m3 : MonitorMap Bytes) (m4 : MonitorMap ℕ)
        (m5 : MonitorSet)
        → IsInstalled filters s (view_of filters s.heap) seen
        → Runs filters ev tags matches decides s seen ms r m1 m2 m3 m4 m5
        → IsInstalled filters
            (after filters ev tags matches decides s seen r m1 m2 m3 m4 m5)
            (view_of filters r.heap)
            ev.primary_key_id
    after-IsInstalled ms r m1 m2 m3 m4 m5 inst runs =
        let told = runs.sent.heap_is in
        record {
          ids =
              IsIndex-after filters ev s.heap matches r.heap ms told bytes_order (id_keys filters)
                s.all_ids m1 seen inst.ids runs.ids.falls runs.ids.items runs.ids.same;
          authors =
              IsIndex-after filters ev s.heap matches r.heap ms told bytes_order
                (author_keys filters) s.all_authors m2 seen inst.authors runs.authors.falls
                runs.authors.items runs.authors.same;
          tags =
              IsIndex-after filters ev s.heap matches r.heap ms told bytes_order (tag_keys filters)
                s.all_tags m3 seen inst.tags runs.tags_kept.falls runs.tags_kept.items
                runs.tags_kept.same;
          kinds =
              IsIndex-after filters ev s.heap matches r.heap ms told number_order
                (kind_keys filters) s.all_kinds m4 seen inst.kinds runs.kinds.falls runs.kinds.items
                runs.kinds.same;
          others =
              AllSet-map (IsItem filters ev s.heap matches ms)
                (IsEntry filters (view_of filters r.heap) ev.primary_key_id) m5
                (IsEntry-after filters ev s.heap matches r.heap ms told) runs.entries;
          others_for = λ p.
              runs.others p
              ∙ (inst.others_for p ∙ others-after filters ev s.heap matches r.heap ms told p);
        }

    -- From a valid state in which no event from this one on was seen, and for an event with its
    -- fixed fields and the tags `tags`, `process` throws nothing and uses no monitor or filter that is
    -- gone. The recipients are the subscriptions that have not seen the event and of which a filter
    -- matches it, each once; the callback is called with them if there are any. They are noted to
    -- have seen the event, no other changes, and the state is valid.
    pub process-Delivers :
        IsValid filters s seen
        → seen < ev.primary_key_id
        → 88 ≤ length ev.view.buf
        → drop 88 ev.view.buf ≡ encode tags
        → (out : List (List Recipient × ℕ) × ActiveMonitors filters) × (process filters ev s
            ≡ ok out)
          × Delivers ev matches s out
    process-Delivers valid new size tagged =
        let (ms, r, m1, m2, m3, m4, m5, runs) =
          process-Runs filters ev tags matches decides s seen valid.installed new size tagged in
        let told = runs.sent.heap_is in
        (
          (
            call_back filters ev r.recipients,
            after filters ev tags matches decides s seen r m1 m2 m3 m4 m5,
          ),
          runs.run,
          record {
            to = ms;
            once = runs.sent.once;
            exactly =
                settled-exactly filters ev tags matches decides s seen ms r valid.installed
                  runs.sent runs.all;
            calls = ap (call_back filters ev) runs.sent.recipients_are;
            told = told;
            valid = record {
              held =
                  IsHeld-after filters ev s.heap matches r.heap ms told s.next s.conns valid.held;
              installed = after-IsInstalled ms r m1 m2 m3 m4 m5 valid.installed runs;
            };
          },
        )
