-- ===== src/Subscription/Conns.antt =====
-- The map from connections to their subscriptions that `QueryScheduler` and `ActiveMonitors` keep,
-- `flat_hash_map<uint64_t, flat_hash_map<SubId, V>>`: a list of keys with values. The first entry of
-- a key counts, and all of them are erased together.
use strfry_http.Base.{
  ℕ, ◌≡◌, ◌≢◌, refl, Bool, true, false, ◌&&◌, List, [], ◌∷◌, Option, none, some, Bytes, ◌==◌,
  ==_iff, if◌then◌else◌, arith, bytes_eq, eq_of-bytes_eq, All, Bool-cases, inl, inr, ◌⊎◌,
}
use mathlib.Core.Option.{some-injective}
use strfry_http.Subscription.{SubId, sv, same_sub_id}
pub mod Lookup
pub mod Entries

module _ {V : Type 0} where
  unfoldable pub find_sub : SubId → List (SubId × V) → Option V
  find_sub k [] = none
  find_sub k ((j, v) ∷ m) = let rest = find_sub k m in if same_sub_id j k then some v else rest

  unfoldable pub erase_sub : SubId → List (SubId × V) → List (SubId × V)
  erase_sub k [] = []
  erase_sub k ((j, v) ∷ m) =
      let rest = erase_sub k m in if same_sub_id j k then rest else (j, v) ∷ rest

abbrev pub Conns : Type 0 → Type 0
Conns V = List (ℕ × List (SubId × V))

module _ {V : Type 0} where
  unfoldable pub find_conn : ℕ → Conns V → Option (List (SubId × V))
  find_conn c [] = none
  find_conn c ((d, m) ∷ conns) = let rest = find_conn c conns in if d == c then some m else rest

  unfoldable pub erase_conn : ℕ → Conns V → Conns V
  erase_conn c [] = []
  erase_conn c ((d, m) ∷ conns) =
      let rest = erase_conn c conns in if d == c then rest else (d, m) ∷ rest

  -- `findQuery` and `findMonitor`
  unfoldable pub find_entry : ℕ → SubId → Conns V → Option V
  find_entry c k conns = elim (find_conn c conns) [ none ↦ none | some m ↦ find_sub k m ]

  -- `conns[c]`, where it may be new.
  unfoldable pub entries : ℕ → Conns V → List (SubId × V)
  entries c conns = elim (find_conn c conns) [ none ↦ [] | some m ↦ m ]

  -- `conns.try_emplace(c)`
  unfoldable pub touch_conn : ℕ → Conns V → Conns V
  touch_conn c conns = (c, entries c conns) ∷ erase_conn c conns

  -- `conns[c].try_emplace(k, v)`, for a key that is not there.
  unfoldable pub add_entry : ℕ → SubId → V → Conns V → Conns V
  add_entry c k v conns = (c, (k, v) ∷ entries c conns) ∷ erase_conn c conns

  -- `conns[c].erase(k)`, and the connection with it where it is left empty.
  unfoldable pub remove_entry : ℕ → SubId → Conns V → Conns V
  remove_entry c k conns = elim (erase_sub k (entries c conns)) [
    | [] ↦ erase_conn c conns
    | e ∷ m ↦ (c, e ∷ m) ∷ erase_conn c conns
  ]
