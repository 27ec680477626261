-- ===== src/Monitors/Maps.antt =====
-- The indexes of src/ActiveMonitors.h: `MonitorItem`, `MonitorSet` and the maps from a key to a
-- set. A `NostrFilter*` is the address of the monitor that holds the filter, and its place there.
-- A set is a list of its entries. A `btree_map` is the list of its entries, the greatest key first.
use strfry_http.Base.{
  ℕ, zero, suc, ◌+◌, ◌-◌, ◌*◌, ◌/◌, ◌%◌, ◌^◌, ◌≤◌, ◌<◌, min, ◌≡◌, refl, sym, ap, ap₂, ◌∙◌, subst,
  subst₂, ◌≢◌, ◌↔◌, ◌⊎◌, inl, inr, Bool, true, false, not, ◌&&◌, ◌||◌, Option, none, some, List, [],
  ◌∷◌, ◌++◌, map, arith, ltb, leb, ◌==◌, ==_iff, if◌then◌else◌, if-true, if-false, true-false,
  Bool-cases, Option-cases, List-cases, Bytes, bytes_lt, bytes_eq, slice, first_of_bytes,
  bytes_eq_refl, eq_of-bytes_eq, codes, length, get_elem?, set, get_or, take, drop, All, any, all,
  filter_by, Result, ok, err, Error, ◌>>=◌, ◌>>◌, throw_if, with_ok, with_passed, Result-cases,
  ok-injective, >>=-eq-ok, out_of_range, bytes_lt_irrefl, bytes_lt_trans, bytes_trichotomy,
}
pub mod Lookup
pub mod Items
pub mod Entries

pub record FilterPtr : Type 0 where
  pub monitor : ℕ
  pub index : ℕ

unfoldable pub same_ptr : FilterPtr → FilterPtr → Bool
same_ptr p q = p.monitor == q.monitor && p.index == q.index

pub record MonitorItem : Type 0 where
  pub mon : ℕ
  pub latest_event_id : ℕ

abbrev pub MonitorSet : Type 0
MonitorSet = List (FilterPtr × MonitorItem)

unfoldable pub in_set : FilterPtr → MonitorSet → Bool
in_set p [] = false
in_set p ((q, item) ∷ ms) = same_ptr q p || in_set p ms

-- `ms.try_emplace(p, item)`
unfoldable pub try_emplace : FilterPtr → MonitorItem → MonitorSet → MonitorSet
try_emplace p item ms = if in_set p ms then ms else (p, item) ∷ ms

-- `ms.erase(p)`
unfoldable pub erase_ptr : FilterPtr → MonitorSet → MonitorSet
erase_ptr p [] = []
erase_ptr p ((q, item) ∷ ms) =
    let rest = erase_ptr p ms in if same_ptr q p then rest else (q, item) ∷ rest

abbrev pub held : FilterPtr → Option MonitorSet → Bool
held p none = false
held p (some ms) = in_set p ms

-- The order of the keys of a map, and their equality.
pub record Order (K : Type 0) : Type 0 where
  pub lt : K → K → Bool
  pub eq : K → K → Bool
  pub eq_iff : (a b : K) → (eq a b ≡ true) ↔ (a ≡ b)
  pub lt_irrefl : (a : K) → lt a a ≡ false
  pub lt_trans : (a b c : K) → lt a b ≡ true → lt b c ≡ true → lt a c ≡ true
  pub lt_total : (a b : K) → lt a b ≡ false → lt b a ≡ false → a ≡ b

pub bytes_eq_iff : (a b : Bytes) → (bytes_eq a b ≡ true) ↔ (a ≡ b)
bytes_eq_iff a b = (eq_of-bytes_eq a b, λ e. rw e (bytes_eq_refl b))

abbrev pub bytes_order : Order Bytes
bytes_order = record {
  lt = bytes_lt;
  eq = bytes_eq;
  eq_iff = bytes_eq_iff;
  lt_irrefl = bytes_lt_irrefl;
  lt_trans = bytes_lt_trans;
  lt_total = bytes_trichotomy;
}

pub number_irrefl : (a : ℕ) → ltb a a ≡ false
number_irrefl a = ground arith

pub number_trans : (a b c : ℕ) → ltb a b ≡ true → ltb b c ≡ true → ltb a c ≡ true
number_trans a b c h k = ground arith

pub number_total : (a b : ℕ) → ltb a b ≡ false → ltb b a ≡ false → a ≡ b
number_total a b h k = ground arith

abbrev pub number_order : Order ℕ
number_order = record {
  lt = ltb;
  eq = ◌==◌;
  eq_iff = ==_iff;
  lt_irrefl = number_irrefl;
  lt_trans = number_trans;
  lt_total = number_total;
}

abbrev pub MonitorMap : Type 0 → Type 0
MonitorMap K = List (K × MonitorSet)

module _ {K : Type 0} (order : Order K) where
  open order use {lt, eq}

  unfoldable pub find_key : K → MonitorMap K → Option MonitorSet
  find_key k [] = none
  find_key k ((j, ms) ∷ m) = let rest = find_key k m in if eq j k then some ms else rest

  -- A new key stands behind the greater ones.
  unfoldable pub insert_key : K → MonitorMap K → MonitorMap K
  insert_key k [] = (k, []) ∷ []
  insert_key k ((j, ms) ∷ m) =
      let rest = insert_key k m in if lt j k then (k, []) ∷ (j, ms) ∷ m else (j, ms) ∷ rest

  -- `m.try_emplace(k)`
  unfoldable pub touch_key : K → MonitorMap K → MonitorMap K
  touch_key k m = elim (find_key k m) [ none ↦ insert_key k m | some ms ↦ m ]

  -- A change of the set that stands under the key.
  unfoldable pub update_key : K → (MonitorSet → MonitorSet) → MonitorMap K → MonitorMap K
  update_key k f [] = []
  update_key k f ((j, ms) ∷ m) = (j, if eq j k then f ms else ms) ∷ update_key k f m

  unfoldable pub erase_key : K → MonitorMap K → MonitorMap K
  erase_key k [] = []
  erase_key k ((j, ms) ∷ m) = let rest = erase_key k m in if eq j k then rest else (j, ms) ∷ rest

  -- `m.try_emplace(k).first->second.try_emplace(p, item)`
  unfoldable pub install_key : K → FilterPtr → MonitorItem → MonitorMap K → MonitorMap K
  install_key k p item m = update_key k (try_emplace p item) (touch_key k m)

  -- `auto &ms = m.at(k); ms.erase(p); if (ms.empty()) m.erase(k);`
  unfoldable pub uninstall_key : K → FilterPtr → MonitorMap K → Result (MonitorMap K)
  uninstall_key k p m = elim (find_key k m) [
    | none ↦ err out_of_range
    | some ms ↦
        ok (elim (erase_ptr p ms) [ [] ↦ erase_key k m | e ∷ rest ↦ update_key k (erase_ptr p) m ])
  ]

  -- Whether the filter stands under the key.
  abbrev pub stands : K → FilterPtr → MonitorMap K → Bool
  stands k p m = held p (find_key k m)

  -- The keys fall.
  abbrev pub Falls : MonitorMap K → Type 0
  Falls [] = Unit
  Falls ((k, ms) ∷ m) = All (λ e. lt e.0 k ≡ true) m × Falls m

-- A predicate on all entries of all sets.
abbrev pub AllItems {ℓ} : {K : Type 0} → (FilterPtr → MonitorItem → Type ℓ) → MonitorMap K → Type ℓ
AllItems P m = All (λ e. All (λ x. P x.0 x.1) e.1) m
