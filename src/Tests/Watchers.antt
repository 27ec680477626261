-- ===== src/Tests/Watchers.antt =====
-- Active monitors with one subscription, to all events of kind 1.
use strfry_http.Base.{
  ℕ, zero, suc, ◌≡◌, refl, sym, ap, ◌∙◌, subst, subst₂, inl, inr, Bool, true, false, ◌&&◌, ◌||◌,
  none, some, List, [], ◌∷◌, ◌++◌, arith, ◌==◌, ==_iff, if◌then◌else◌, Bool-cases, bytes_eq, codes,
  All, ok, replicate,
}
use mathlib.Core.Option.{some-injective}
use strfry_http.Subscription.{sv, same_sub_id}
use strfry_http.Subscription.Conns.{find_entry, find_conn, find_sub}
use strfry_http.Filter.Nostr.Meaning.{ListFilter, means}
use strfry_http.Monitors.{
  Filters, ViewEvent, Recipient, Monitor, Heap, ActiveMonitors, add_sub, remove_sub,
}
use strfry_http.Monitors.Maps.{
  FilterPtr, number_order, bytes_order, Order, same_ptr, in_set, find_key, stands,
}
use strfry_http.Monitors.Valid.{
  IsGood, IsIndex, IsValid, id_keys, author_keys, tag_keys, kind_keys, is_other, asks, asks_other,
  view_of, place,
}
use strfry_http.Monitors.{tag_specs}
use strfry_http.Monitors.Adds.{Watches, add_sub-Watches}
use strfry_http.Monitors.Subs.{Forgets, remove_sub-Forgets}
use strfry_http.Monitors.Nostr.{nostr_filters, nostr_filters-Decides}
use strfry_http.Monitors.Process.{process}
use strfry_http.Monitors.Process.Recipients.{Delivers, process-Delivers}
use strfry_http.Tests.Instances.{native_encoding, from_hex}

abbrev notes : ListFilter from_hex
notes = record {
  ids = none;
  authors = none;
  kinds = some (1 ∷ []);
  tags = [];
  since = 0;
  until = 4000000000;
  limit = 500;
  never_match = false;
  index_only_scans = true;
}

abbrev the_filters : Filters (ListFilter from_hex)
the_filters = nostr_filters from_hex native_encoding

abbrev watcher : Monitor the_filters
watcher = record {
  conn_id = 3;
  sub_id = record { buf = 1 ∷ codes "w" };
  filter_group = notes ∷ [];
  latest_event_id = 10;
}

abbrev one_heap : Heap the_filters
one_heap a = if a == 0 then some watcher else none

abbrev one_watcher : ActiveMonitors the_filters
one_watcher = record {
  heap = one_heap;
  next = 1;
  conns = (3, (watcher.sub_id, 0) ∷ []) ∷ [];
  all_ids = [];
  all_authors = [];
  all_tags = [];
  all_kinds =
      (1, (record { monitor = 0; index = 0 }, record { mon = 0; latest_event_id = 10 }) ∷ []) ∷ [];
  all_others = [];
}

program : Unit {0}
unfolding find_key in_set same_ptr id_keys author_keys tag_keys kind_keys is_other tag_specs
    find_entry find_conn find_sub same_sub_id sv bytes_eq
program = tt

notes-IsGood : IsGood the_filters notes
unfolding program
notes-IsGood = record {
  ids_size = tt;
  authors_size = tt;
  ids_once = tt;
  authors_once = tt;
  tags_once = tt;
  kinds_once = (refl, tt);
}

only_watcher : (a : ℕ) (m : Monitor the_filters) → one_heap a ≡ some m → (a ≡ 0) × (watcher ≡ m)
only_watcher a m there = elim (Bool-cases (a == 0)) [
  | inl first ↦ ((==_iff a 0).0 first, some-injective _ _ (rw first at there))
  | inr other ↦ cc (rw other at there)
]

-- What the pointers stand for: the one filter, or nothing.
one_view :
    (p : FilterPtr)
    → view_of the_filters one_heap p
      ≡ (if same_ptr (record { monitor = 0; index = 0 }) p then some notes else none)
unfolding same_ptr
one_view p = first p.monitor p.index
  where
    first :
        (a i : ℕ)
        → place the_filters (one_heap a) i ≡ (if 0 == a && 0 == i then some notes else none)
    first zero zero = refl
    first zero (suc i) = ground arith
    first (suc a) i = ground arith

no_index :
    {K : Type 0} (order : Order K) (keys : ListFilter from_hex → List K)
    → keys notes ≡ []
    → IsIndex the_filters order keys [] (view_of the_filters one_heap) 10
unfolding find_key
no_index {K} order keys empty = record {
  falls = tt;
  items = tt;
  stands_for = λ k p.
      nothing k p (same_ptr (record { monitor = 0; index = 0 }) p)
      ∙ ap (asks the_filters order keys k) (sym (one_view p));
}
  where
    nothing :
        (k : K) (p : FilterPtr) (b : Bool)
        → false ≡ asks the_filters order keys k (if b then some notes else none)
    nothing k p true = rw empty refl
    nothing k p false = refl

-- What stands under a key, by whether the key and the pointer are those of the one entry.
abbrev held_if : Bool → Bool → Bool
held_if true b = b || false
held_if false b = false

one_watcher-IsValid : IsValid the_filters one_watcher 10
unfolding program
one_watcher-IsValid = record {
  held = record {
    fresh = λ a le. ground arith;
    indexed = ((record { monitor = watcher; there = refl; conn = refl; named = refl }, tt), tt);
    live = λ a m there.
        let (first, same) = only_watcher a m there in
        subst₂
          (λ (x : ℕ) (n : Monitor the_filters).
            find_entry n.conn_id n.sub_id one_watcher.conns ≡ some x)
          (sym first) same refl;
    good = λ a m there.
        subst (λ (n : Monitor the_filters). All (IsGood the_filters) n.filter_group)
          (only_watcher a m there).1 (notes-IsGood, tt);
  };
  installed = record {
    ids = no_index bytes_order (id_keys the_filters) refl;
    authors = no_index bytes_order (author_keys the_filters) refl;
    tags = no_index bytes_order (tag_keys the_filters) refl;
    kinds = record {
      falls = (tt, tt);
      items =
          ((record { same = refl; filter = notes; there = refl; bounded = omega arith }, tt), tt);
      stands_for = λ k p.
          in_kinds k p
          ∙ at_kind k (same_ptr (record { monitor = 0; index = 0 }) p)
          ∙ ap (asks the_filters number_order (kind_keys the_filters) k) (sym (one_view p));
    };
    others = tt;
    others_for = λ p.
        at_other (same_ptr (record { monitor = 0; index = 0 }) p)
        ∙ ap (asks_other the_filters) (sym (one_view p));
  };
}
  where
    whole : (t : Bool) → held_if t true ≡ (t || false)
    whole true = refl
    whole false = refl

    neither : (t : Bool) → held_if t false ≡ false
    neither true = refl
    neither false = refl

    in_kinds :
        (k : ℕ) (p : FilterPtr)
        → stands number_order k p one_watcher.all_kinds
          ≡ held_if (1 == k) (same_ptr (record { monitor = 0; index = 0 }) p)
    in_kinds k p = elim (Bool-cases (1 == k)) [
      | inl same ↦ rw (find_key, same) refl
      | inr other ↦ rw (find_key, other) refl
    ]

    at_kind :
        (k : ℕ) (b : Bool)
        → held_if (1 == k) b
          ≡ asks the_filters number_order (kind_keys the_filters) k (if b then some notes else none)
    at_kind k true = whole (1 == k)
    at_kind k false = neither (1 == k)

    at_other : (b : Bool) → false ≡ asks_other the_filters (if b then some notes else none)
    at_other true = refl
    at_other false = refl

-- A note, with no tags.
abbrev note : ViewEvent
note = record {
  primary_key_id = 11;
  view = record { buf = replicate 72 0 ++ (1 ∷ replicate 15 0) };
}

abbrev matching : ListFilter from_hex → Bool
matching f = means from_hex f native_encoding note.view []

process-Delivers_example :
    (out : List (List Recipient × ℕ) × ActiveMonitors the_filters) × (process the_filters note
        one_watcher
      ≡ ok out)
    × Delivers the_filters note matching one_watcher out
process-Delivers_example =
    process-Delivers the_filters note [] matching
      (nostr_filters-Decides from_hex native_encoding note [] refl) one_watcher 10
      one_watcher-IsValid (omega arith) (omega arith) refl

-- The subscription again, under the same id.
add_sub-Watches_example :
    (out : Bool × ActiveMonitors the_filters) × (add_sub the_filters 20 watcher 10 one_watcher
      ≡ ok out)
    × Watches the_filters watcher 10 out
add_sub-Watches_example =
    add_sub-Watches the_filters 20 10 10 watcher one_watcher one_watcher-IsValid (notes-IsGood, tt)
      refl (omega arith)

remove_sub-Forgets_example :
    (s : ActiveMonitors the_filters) × (remove_sub the_filters 3 watcher.sub_id one_watcher ≡ ok s)
    × Forgets the_filters 3 watcher.sub_id 10 one_watcher s
remove_sub-Forgets_example =
    remove_sub-Forgets the_filters 3 watcher.sub_id 10 one_watcher one_watcher-IsValid
