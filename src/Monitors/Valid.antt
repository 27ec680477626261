-- ===== src/Monitors/Valid.antt =====
-- The invariant of the active monitors.
use strfry_http.Base.{
  ℕ, ◌≤◌, ◌≡◌, Bool, true, false, Option, none, some, List, [], ◌∷◌, ◌==◌, Bytes, length, get_elem?,
  All, any,
}
use strfry_http.Subscription.{sv}
use strfry_http.Subscription.Conns.{Conns, find_entry}
use strfry_http.Subscription.Conns.Entries.{AllEntries}
use strfry_http.Monitors.{Filters, ActiveMonitors, Monitor, Heap, tag_specs}
use strfry_http.Monitors.Maps.{
  FilterPtr, MonitorItem, MonitorMap, Order, bytes_order, number_order, in_set, stands, Falls,
  AllItems,
}
use strfry_http.Monitors.Maps.Items.{AllSet}

-- No key stands twice in the list.
abbrev pub OnceKeys : {K : Type 0} → Order K → List K → Type 0
OnceKeys order [] = Unit
OnceKeys order (k ∷ ks) = (any (λ j. order.eq j k) ks ≡ false) × OnceKeys order ks

module _ {F : Type 0} (filters : Filters F) where
  -- The keys that a filter is indexed by: of the first kind of condition that it has.
  unfoldable pub id_keys : F → List Bytes
  id_keys f = elim (filters.ids f) [ some xs ↦ xs | none ↦ [] ]

  unfoldable pub author_keys : F → List Bytes
  author_keys f = elim (filters.ids f) [
    | some xs ↦ []
    | none ↦ elim (filters.authors f) [ some xs ↦ xs | none ↦ [] ]
  ]

  unfoldable pub tag_keys : F → List Bytes
  tag_keys f = elim (filters.ids f) [
    | some xs ↦ []
    | none ↦ elim (filters.authors f) [ some xs ↦ [] | none ↦ tag_specs (filters.tags f) ]
  ]

  unfoldable pub kind_keys : F → List ℕ
  kind_keys f = elim (filters.ids f) [
    | some xs ↦ []
    | none ↦ elim (filters.authors f) [
      | some xs ↦ []
      | none ↦ elim (filters.tags f) [
        | t ∷ ts ↦ []
        | [] ↦ elim (filters.kinds f) [ some ks ↦ ks | none ↦ [] ]
      ]
    ]
  ]

  unfoldable pub is_other : F → Bool
  is_other f = elim (filters.ids f) [
    | some xs ↦ false
    | none ↦ elim (filters.authors f) [
      | some xs ↦ false
      | none ↦ elim (filters.tags f) [
        | t ∷ ts ↦ false
        | [] ↦ elim (filters.kinds f) [ some ks ↦ false | none ↦ true ]
      ]
    ]
  ]

  -- What the parser of filters makes sure of: the ids and public keys have 32 bytes, and no value
  -- is listed twice.
  pub record IsGood (f : F) : Type 0 where
    pub ids_size : All (λ x. (length x == 32) ≡ true) (id_keys f)
    pub authors_size : All (λ x. (length x == 32) ≡ true) (author_keys f)
    pub ids_once : OnceKeys bytes_order (id_keys f)
    pub authors_once : OnceKeys bytes_order (author_keys f)
    pub tags_once : OnceKeys bytes_order (tag_keys f)
    pub kinds_once : OnceKeys number_order (kind_keys f)

  -- The filter that a pointer stands for.
  abbrev pub place : Option (Monitor filters) → ℕ → Option F
  place none i = none
  place (some m) i = get_elem? m.filter_group i

  abbrev pub filter_of : FilterPtr → Heap filters → Option F
  filter_of p heap = place (heap p.monitor) p.index

  abbrev pub view_of : Heap filters → FilterPtr → Option F
  view_of heap p = filter_of p heap

  -- An entry of an index is for a filter that there is.
  pub record IsEntry (view : FilterPtr → Option F) (seen : ℕ) (p : FilterPtr) (item : MonitorItem)
      : Type 0 where
    pub same : item.mon ≡ p.monitor
    pub filter : F
    pub there : view p ≡ some filter
    pub bounded : item.latest_event_id ≤ seen

  abbrev pub asks : {K : Type 0} → Order K → (F → List K) → K → Option F → Bool
  asks order keys k none = false
  asks order keys k (some f) = any (λ j. order.eq j k) (keys f)

  -- An index holds a filter under a key exactly if the filter is indexed by the key.
  pub record IsIndex {K : Type 0} (order : Order K) (keys : F → List K) (m : MonitorMap K)
      (view : FilterPtr → Option F) (seen : ℕ) : Type 0 where
    pub falls : Falls order m
    pub items : AllItems (IsEntry view seen) m
    pub stands_for : (k : K) (p : FilterPtr) → stands order k p m ≡ asks order keys k (view p)

  abbrev pub asks_other : Option F → Bool
  asks_other none = false
  asks_other (some f) = is_other f

  pub record IsHeldAt (heap : Heap filters) (c : ℕ) (b : Bytes) (a : ℕ) : Type 0 where
    pub monitor : Monitor filters
    pub there : heap a ≡ some monitor
    pub conn : monitor.conn_id ≡ c
    pub named : sv monitor.sub_id ≡ b

  -- The map from connections holds the monitors that are allocated.
  pub record IsHeld (heap : Heap filters) (next : ℕ) (conns : Conns ℕ) : Type 0 where
    pub fresh : (a : ℕ) → next ≤ a → heap a ≡ none
    pub indexed : AllEntries (IsHeldAt heap) conns
    pub live :
        (a : ℕ) (m : Monitor filters)
        → heap a ≡ some m
        → find_entry m.conn_id m.sub_id conns ≡ some a
    pub good : (a : ℕ) (m : Monitor filters) → heap a ≡ some m → All IsGood m.filter_group

  -- The lookups that are installed are those of the filters that there are. No filter was
  -- tested on an event after the one with the number `seen`.
  pub record IsInstalled (s : ActiveMonitors filters) (view : FilterPtr → Option F) (seen : ℕ)
      : Type 0 where
    pub ids : IsIndex bytes_order id_keys s.all_ids view seen
    pub authors : IsIndex bytes_order author_keys s.all_authors view seen
    pub tags : IsIndex bytes_order tag_keys s.all_tags view seen
    pub kinds : IsIndex number_order kind_keys s.all_kinds view seen
    pub others : AllSet (IsEntry view seen) s.all_others
    pub others_for : (p : FilterPtr) → in_set p s.all_others ≡ asks_other (view p)

  pub record IsValid (s : ActiveMonitors filters) (seen : ℕ) : Type 0 where
    pub held : IsHeld s.heap s.next s.conns
    pub installed : IsInstalled s (view_of s.heap) seen
