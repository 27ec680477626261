-- ===== src/Monitors/Process.antt =====
-- `ActiveMonitors::process`: the recipients of a new event.
use strfry_http.Base.{
  dangling, ℕ, zero, suc, ◌+◌, ◌-◌, ◌*◌, ◌/◌, ◌%◌, ◌^◌, ◌≤◌, ◌<◌, min, ◌≡◌, refl, sym, ap, ap₂, ◌∙◌,
  subst, subst₂, ◌≢◌, ◌↔◌, ◌⊎◌, inl, inr, Bool, true, false, not, ◌&&◌, ◌||◌, Option, none, some,
  List, [], ◌∷◌, ◌++◌, map, arith, ltb, leb, ◌==◌, ==_iff, if◌then◌else◌, if-true, if-false,
  true-false, Bool-cases, Option-cases, List-cases, Bytes, bytes_lt, bytes_eq, slice,
  first_of_bytes, bytes_eq_refl, eq_of-bytes_eq, codes, length, get_elem?, set, get_or, take, drop,
  All, any, all, filter_by, Result, ok, err, Error, ◌>>=◌, ◌>>◌, throw_if, with_ok, with_passed,
  Result-cases, ok-injective, >>=-eq-ok,
}
use strfry_http.Packed.{PackedEventView, id, pubkey, foreach_tag, Callback}
use strfry_http.Monitors.{
  Filters, bytes32, get_tag_spec, ViewEvent, Recipient, Monitor, Heap, ActiveMonitors, deref, put,
}
use strfry_http.Monitors.Maps.{
  FilterPtr, MonitorItem, MonitorSet, MonitorMap, Order, bytes_order, number_order,
}
pub mod Sent
pub mod Visits
pub mod Sets
pub mod Delivers
pub mod Keeps
pub mod Settles
pub mod Runs
pub mod Recipients

module _ {F : Type 0} (filters : Filters F) where
  -- What the lambdas capture: the monitors, and `recipients`.
  pub record Run : Type 0 where
    pub heap : Heap filters
    pub recipients : List Recipient

  abbrev pub or_dangling : Option F → Result F
  or_dangling none = err dangling
  or_dangling (some f) = ok f

  -- `*f`
  unfoldable pub deref_filter : FilterPtr → Heap filters → Result F
  deref_filter p heap =
      deref filters p.monitor heap >>= λ m. or_dangling (get_elem? m.filter_group p.index)

  -- The body of the loop over a set.
  unfoldable pub visit : ViewEvent → FilterPtr → MonitorItem → Run → Result (MonitorItem × Run)
  visit ev p item r = deref filters item.mon r.heap >>= λ m.
      let sent = record r {
        heap = put filters item.mon (record m { latest_event_id = ev.primary_key_id }) r.heap;
        recipients = r.recipients ++ (record { conn_id = m.conn_id; sub_id = m.sub_id } ∷ []);
      } in
      let tested = deref_filter p r.heap >>= λ f. filters.does_match f ev.view >>= λ matched.
      ok (record item { latest_event_id = ev.primary_key_id }, if matched then sent else r) in
      (if leb ev.primary_key_id item.latest_event_id || leb ev.primary_key_id m.latest_event_id
        then ok (item, r)
        else tested)

  unfoldable pub process_monitor_set : ViewEvent → MonitorSet → Run → Result (MonitorSet × Run)
  process_monitor_set ev [] r = ok ([], r)
  process_monitor_set ev ((p, item) ∷ ms) r = do
    (item', r') ← visit ev p item r
    (ms', r'') ← process_monitor_set ev ms r'
    ok ((p, item') ∷ ms', r'')

  module _ {K : Type 0} (order : Order K) where
    -- From the greatest key that is not above the event's, downwards, as long as the keys match.
    unfoldable pub walk_matching : ViewEvent → K → MonitorMap K → Run → Result (MonitorMap K × Run)
    walk_matching ev key [] r = ok ([], r)
    walk_matching ev key ((k, ms) ∷ m) r =
        let matching = (do
          (ms', r') ← process_monitor_set ev ms r
          (m', r'') ← walk_matching ev key m r'
          ok ((k, ms') ∷ m', r'')) in
        if order.eq k key then matching else ok ((k, ms) ∷ m, r)

    -- `upper_bound` passes the keys that are above.
    unfoldable pub process_monitors_exact :
        ViewEvent → K → MonitorMap K → Run → Result (MonitorMap K × Run)
    process_monitors_exact ev key [] r = ok ([], r)
    process_monitors_exact ev key ((k, ms) ∷ m) r =
        let above = process_monitors_exact ev key m r >>= λ (m', r'). ok ((k, ms) ∷ m', r') in
        let from_here = walk_matching ev key ((k, ms) ∷ m) r in
        if order.lt key k then above else from_here

  -- The callback of `foreachTag`.
  unfoldable pub process_tag : ViewEvent → Callback (MonitorMap Bytes × Run)
  process_tag ev (m, r) tag_name tag_val =
      process_monitors_exact bytes_order ev (get_tag_spec tag_name tag_val) m r >>= λ st.
      ok (st, true)

  -- The recipients with the event's number, in a call of the callback if there are any.
  unfoldable pub call_back : ViewEvent → List Recipient → List (List Recipient × ℕ)
  call_back ev [] = []
  call_back ev (x ∷ xs) = (x ∷ xs, ev.primary_key_id) ∷ []

  unfoldable pub process :
      ViewEvent
      → ActiveMonitors filters
      → Result (List (List Recipient × ℕ) × ActiveMonitors filters)
  process ev s = do
    key ← bytes32 (id ev.view)
    (all_ids, r1) ←
        process_monitors_exact bytes_order ev key s.all_ids
          (record { heap = s.heap; recipients = [] })
    author ← bytes32 (pubkey ev.view)
    (all_authors, r2) ← process_monitors_exact bytes_order ev author s.all_authors r1
    (all_tags, r3) ← foreach_tag (process_tag ev) (s.all_tags, r2) ev.view
    (all_kinds, r4) ← process_monitors_exact number_order ev (filters.kind ev.view) s.all_kinds r3
    (all_others, r5) ← process_monitor_set ev s.all_others r4
    ok (
      call_back ev r5.recipients,
      record s {
        heap = r5.heap;
        all_ids = all_ids;
        all_authors = all_authors;
        all_tags = all_tags;
        all_kinds = all_kinds;
        all_others = all_others;
      },
    )
