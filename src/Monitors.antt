-- ===== src/Monitors.antt =====
-- src/ActiveMonitors.h: `ActiveMonitors`, the subscriptions that wait for new events, indexed by what
-- their filters ask for. A `Monitor` is its subscription, in a heap, a function from addresses; the
-- use of an address that is not allocated is the error `dangling`. A new monitor takes an address
-- above all before. The calls of the callback are a list.
use strfry_http.Base.{
  ℕ, zero, suc, ◌+◌, ◌-◌, ◌*◌, ◌/◌, ◌%◌, ◌^◌, ◌≤◌, ◌<◌, min, ◌≡◌, refl, sym, ap, ap₂, ◌∙◌, subst,
  subst₂, ◌≢◌, ◌↔◌, ◌⊎◌, inl, inr, Bool, true, false, not, ◌&&◌, ◌||◌, Option, none, some, List, [],
  ◌∷◌, ◌++◌, map, arith, ltb, leb, ◌==◌, ==_iff, if◌then◌else◌, if-true, if-false, true-false,
  Bool-cases, Option-cases, List-cases, Bytes, bytes_lt, bytes_eq, slice, first_of_bytes,
  bytes_eq_refl, eq_of-bytes_eq, codes, length, get_elem?, set, get_or, take, drop, All, any, all,
  filter_by, Result, ok, err, Error, ◌>>=◌, ◌>>◌, throw_if, with_ok, with_passed, Result-cases,
  ok-injective, >>=-eq-ok, dangling, sub_not_up_to_date, bad_bytes32_length,
}
use strfry_http.Packed.{PackedEventView, id, pubkey, foreach_tag}
use strfry_http.Subscription.{Subscription, SubId}
use strfry_http.Subscription.Conns.{
  Conns, find_entry, find_conn, erase_conn, entries, touch_conn, add_entry, remove_entry,
}
use strfry_http.Monitors.Maps.{
  FilterPtr, MonitorItem, MonitorSet, MonitorMap, Order, bytes_order, number_order, try_emplace,
  erase_ptr, install_key, uninstall_key,
}
pub mod Maps
pub mod Valid
pub mod EachKey
pub mod Installs
pub mod Views
pub mod EachRemoval
pub mod Uninstalls
pub mod Removals
pub mod Subs
pub mod Adds
pub mod Nostr
pub mod Process

-- What the code reads of a filter: the values of its sets in their order, the tags in the order of
-- their map, and `doesMatch`. `kind` reads the kind of a packed event.
pub record Filters (F : Type 0) : Type 0 where
  pub ids : F → Option (List Bytes)
  pub authors : F → Option (List Bytes)
  pub kinds : F → Option (List ℕ)
  pub tags : F → List (ℕ × List Bytes)
  pub does_match : F → PackedEventView → Result Bool
  pub kind : PackedEventView → ℕ

-- `Bytes32(s)`
unfoldable pub bytes32 : Bytes → Result Bytes
bytes32 s = do throw_if (not (length s == 32)) bad_bytes32_length; ok s

-- `getTagSpec`
unfoldable pub get_tag_spec : ℕ → Bytes → Bytes
get_tag_spec k val = k ∷ val

-- `defaultDb::environment::View_Event`
pub record ViewEvent : Type 0 where
  pub primary_key_id : ℕ
  pub view : PackedEventView

-- `ConnIdSubId`
pub record Recipient : Type 0 where
  pub conn_id : ℕ
  pub sub_id : SubId

-- A loop over a list whose body may throw.
abbrev pub for_each {ℓ} : {A S : Type ℓ} → (A → S → Result S) → List A → S → Result S
for_each body [] s = ok s
for_each body (x ∷ xs) s = body x s >>= λ s'. for_each body xs s'

unfoldable pub install_bytes :
    FilterPtr → MonitorItem → Bytes → MonitorMap Bytes → Result (MonitorMap Bytes)
install_bytes p item x m = bytes32 x >>= λ k. ok (install_key bytes_order k p item m)

unfoldable pub install_tag :
    FilterPtr → MonitorItem → Bytes → MonitorMap Bytes → Result (MonitorMap Bytes)
install_tag p item k m = ok (install_key bytes_order k p item m)

unfoldable pub install_kind : FilterPtr → MonitorItem → ℕ → MonitorMap ℕ → Result (MonitorMap ℕ)
install_kind p item k m = ok (install_key number_order k p item m)

-- The keys of the two nested loops over the tags and their values.
unfoldable pub tag_specs : List (ℕ × List Bytes) → List Bytes
tag_specs [] = []
tag_specs ((tag_name, vals) ∷ tags) = map (get_tag_spec tag_name) vals ++ tag_specs tags

unfoldable pub uninstall_bytes : FilterPtr → Bytes → MonitorMap Bytes → Result (MonitorMap Bytes)
uninstall_bytes p x m = bytes32 x >>= λ k. uninstall_key bytes_order k p m

module _ {F : Type 0} (filters : Filters F) where
  abbrev pub Monitor : Type 0
  Monitor = Subscription (List F)

  abbrev pub Heap : Type 0
  Heap = ℕ → Option Monitor

  pub record ActiveMonitors : Type 0 where
    pub heap : Heap
    pub next : ℕ
    pub conns : Conns ℕ
    pub all_ids : MonitorMap Bytes
    pub all_authors : MonitorMap Bytes
    pub all_tags : MonitorMap Bytes
    pub all_kinds : MonitorMap ℕ
    pub all_others : MonitorSet

  unfoldable pub deref : ℕ → Heap → Result Monitor
  deref a heap = elim (heap a) [ none ↦ err dangling | some m ↦ ok m ]

  unfoldable pub put : ℕ → Monitor → Heap → Heap
  put a m heap b = if b == a then some m else heap b

  unfoldable pub free : ℕ → Heap → Heap
  free a heap b = if b == a then none else heap b

  unfoldable pub find_monitor : ℕ → SubId → ActiveMonitors → Option ℕ
  find_monitor c k s = find_entry c k s.conns

  -- The body of the loop of `installLookups`.
  unfoldable pub install_filter :
      FilterPtr → MonitorItem → F → ActiveMonitors → Result ActiveMonitors
  install_filter p item f s = elim (filters.ids f) [
    | some xs ↦ for_each (install_bytes p item) xs s.all_ids >>= λ m. ok (record s { all_ids = m })
    | none ↦ elim (filters.authors f) [
      | some xs ↦ for_each (install_bytes p item) xs s.all_authors >>= λ m.
          ok (record s { all_authors = m })
      | none ↦ elim (filters.tags f) [
        | t ∷ ts ↦ for_each (install_tag p item) (tag_specs (t ∷ ts)) s.all_tags >>= λ m.
            ok (record s { all_tags = m })
        | [] ↦ elim (filters.kinds f) [
          | some ks ↦
              for_each (install_kind p item) ks s.all_kinds >>= λ m. ok (record s { all_kinds = m })
          | none ↦ ok (record s { all_others = try_emplace p item s.all_others })
        ]
      ]
    ]
  ]

  -- The loop goes over the places of the filters, from `i` on.
  unfoldable pub install_lookups : ℕ → ℕ → List F → ℕ → ActiveMonitors → Result ActiveMonitors
  install_lookups a i [] curr_event_id s = ok s
  install_lookups a i (f ∷ fs) curr_event_id s =
      install_filter (record { monitor = a; index = i })
        (record { mon = a; latest_event_id = curr_event_id }) f s
      >>= λ s'. install_lookups a (i + 1) fs curr_event_id s'

  unfoldable pub uninstall_filter : FilterPtr → F → ActiveMonitors → Result ActiveMonitors
  uninstall_filter p f s = elim (filters.ids f) [
    | some xs ↦ for_each (uninstall_bytes p) xs s.all_ids >>= λ m. ok (record s { all_ids = m })
    | none ↦ elim (filters.authors f) [
      | some xs ↦
          for_each (uninstall_bytes p) xs s.all_authors >>= λ m. ok (record s { all_authors = m })
      | none ↦ elim (filters.tags f) [
        | t ∷ ts ↦
            for_each (λ k. uninstall_key bytes_order k p) (tag_specs (t ∷ ts)) s.all_tags >>= λ m.
            ok (record s { all_tags = m })
        | [] ↦ elim (filters.kinds f) [
          | some ks ↦ for_each (λ k. uninstall_key number_order k p) ks s.all_kinds >>= λ m.
              ok (record s { all_kinds = m })
          | none ↦ ok (record s { all_others = erase_ptr p s.all_others })
        ]
      ]
    ]
  ]

  unfoldable pub uninstall_lookups : ℕ → ℕ → List F → ActiveMonitors → Result ActiveMonitors
  uninstall_lookups a i [] s = ok s
  uninstall_lookups a i (f ∷ fs) s =
      uninstall_filter (record { monitor = a; index = i }) f s >>= λ s'.
      uninstall_lookups a (i + 1) fs s'

  unfoldable pub uninstall_monitor : ℕ → ActiveMonitors → Result ActiveMonitors
  uninstall_monitor a s = deref a s.heap >>= λ m. uninstall_lookups a 0 m.filter_group s

  unfoldable pub remove_sub : ℕ → SubId → ActiveMonitors → Result ActiveMonitors
  remove_sub c k s = elim (find_monitor c k s) [
    | none ↦ ok s
    | some a ↦ uninstall_monitor a s >>= λ s'.
        ok (record s' { heap = free a s'.heap; conns = remove_entry c k s'.conns })
  ]

  unfoldable pub replace_sub : ℕ → SubId → ActiveMonitors → Result ActiveMonitors
  replace_sub c k s = elim (find_monitor c k s) [ none ↦ ok s | some a ↦ remove_sub c k s ]

  -- `max_subs` is `relay__maxSubsPerConnection`.
  unfoldable pub add_sub : ℕ → Monitor → ℕ → ActiveMonitors → Result (Bool × ActiveMonitors)
  add_sub max_subs sub curr_event_id s = do
    throw_if (not (sub.latest_event_id == curr_event_id)) sub_not_up_to_date
    s' ← replace_sub sub.conn_id sub.sub_id s
    let installed =
        install_lookups s'.next 0 sub.filter_group curr_event_id (record s' {
          heap = put s'.next sub s'.heap;
          next = s'.next + 1;
          conns = add_entry sub.conn_id sub.sub_id s'.next s'.conns;
        })
        >>= λ s''. ok (true, s'')
    (if leb max_subs (length (entries sub.conn_id s'.conns))
        then ok (false, record s' { conns = touch_conn sub.conn_id s'.conns })
        else installed)

  -- The loop of `closeConn`, and the memory that `conns.erase` frees.
  unfoldable pub uninstall_all : List (SubId × ℕ) → ActiveMonitors → Result ActiveMonitors
  uninstall_all [] s = ok s
  uninstall_all ((k, a) ∷ m) s = uninstall_monitor a s >>= λ s'. uninstall_all m s'

  unfoldable pub free_all : List (SubId × ℕ) → Heap → Heap
  free_all [] heap = heap
  free_all ((k, a) ∷ m) heap = free a (free_all m heap)

  unfoldable pub close_conn : ℕ → ActiveMonitors → Result ActiveMonitors
  close_conn c s = elim (find_conn c s.conns) [
    | none ↦ ok s
    | some m ↦ uninstall_all m s >>= λ s'.
        ok (record s' { heap = free_all m s'.heap; conns = erase_conn c s'.conns })
  ]
