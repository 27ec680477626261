-- ===== src/Monitors/Maps/Items.antt =====
-- What an operation keeps of a property of all entries.
use strfry_http.Base.{
  ◌≡◌, ap, subst, inl, inr, true, ◌||◌, [], ◌∷◌, arith, Bool-cases, Option-cases, List-cases, All,
  ok, ok-injective,
}
use strfry_http.Monitors.Maps.{
  FilterPtr, same_ptr, MonitorItem, MonitorSet, in_set, try_emplace, erase_ptr, Order, MonitorMap,
  find_key, insert_key, touch_key, update_key, erase_key, install_key, uninstall_key, AllItems,
}

-- A predicate on the entries of one set.
abbrev pub AllSet {ℓ} : (FilterPtr → MonitorItem → Type ℓ) → MonitorSet → Type ℓ
AllSet P ms = All (λ x. P x.0 x.1) ms

module _ {ℓ} (P : FilterPtr → MonitorItem → Type ℓ) where
  pub AllSet-try_emplace :
      (p : FilterPtr) (item : MonitorItem) (ms : MonitorSet)
      → P p item
      → AllSet P ms
      → AllSet P (try_emplace p item ms)
  unfolding try_emplace
  AllSet-try_emplace p item ms h hs = elim (Bool-cases (in_set p ms)) [
    | inl old ↦ rw old hs
    | inr new ↦ rw new (h, hs)
  ]

  pub AllSet-erase_ptr : (p : FilterPtr) (ms : MonitorSet) → AllSet P ms → AllSet P (erase_ptr p ms)
  unfolding erase_ptr
  AllSet-erase_ptr p [] hs = tt
  AllSet-erase_ptr p ((q, item) ∷ ms) (h, hs) = elim (Bool-cases (same_ptr q p)) [
    | inl same ↦ rw same (AllSet-erase_ptr p ms hs)
    | inr other ↦ rw other (h, AllSet-erase_ptr p ms hs)
  ]

  module _ {K : Type 0} (order : Order K) where
    open order use {lt, eq}

    AllItems-insert_key :
        (k : K) (m : MonitorMap K) → AllItems P m → AllItems P (insert_key order k m)
    unfolding insert_key
    AllItems-insert_key k [] hs = (tt, tt)
    AllItems-insert_key k ((j, ms) ∷ m) (h, hs) = elim (Bool-cases (lt j k)) [
      | inl below ↦ rw below (tt, (h, hs))
      | inr above ↦ rw above (h, AllItems-insert_key k m hs)
    ]

    AllItems-touch_key :
        (k : K) (m : MonitorMap K) → AllItems P m → AllItems P (touch_key order k m)
    unfolding touch_key
    AllItems-touch_key k m hs = elim (Option-cases (find_key order k m)) [
      | inl new ↦ rw (touch_key, new) (AllItems-insert_key k m hs)
      | inr (ms, old) ↦ rw (touch_key, old) hs
    ]

    AllItems-update_key :
        (k : K) (f : MonitorSet → MonitorSet) (m : MonitorMap K)
        → ((ms : MonitorSet) → AllSet P ms → AllSet P (f ms))
        → AllItems P m
        → AllItems P (update_key order k f m)
    unfolding update_key
    AllItems-update_key k f [] keep hs = tt
    AllItems-update_key k f ((j, ms) ∷ m) keep (h, hs) = elim (Bool-cases (eq j k)) [
      | inl same ↦ rw same (keep ms h, AllItems-update_key k f m keep hs)
      | inr other ↦ rw other (h, AllItems-update_key k f m keep hs)
    ]

    AllItems-erase_key :
        (k : K) (m : MonitorMap K) → AllItems P m → AllItems P (erase_key order k m)
    unfolding erase_key
    AllItems-erase_key k [] hs = tt
    AllItems-erase_key k ((j, ms) ∷ m) (h, hs) = elim (Bool-cases (eq j k)) [
      | inl same ↦ rw same (AllItems-erase_key k m hs)
      | inr other ↦ rw other (h, AllItems-erase_key k m hs)
    ]

    pub AllItems-install_key :
        (k : K) (p : FilterPtr) (item : MonitorItem) (m : MonitorMap K)
        → P p item
        → AllItems P m
        → AllItems P (install_key order k p item m)
    unfolding install_key
    AllItems-install_key k p item m h hs =
        AllItems-update_key k (try_emplace p item) (touch_key order k m)
          (λ ms. AllSet-try_emplace p item ms h) (AllItems-touch_key k m hs)

    pub AllItems-uninstall_key :
        (k : K) (p : FilterPtr) (m m' : MonitorMap K)
        → uninstall_key order k p m ≡ ok m'
        → AllItems P m
        → AllItems P m'
    unfolding uninstall_key
    AllItems-uninstall_key k p m m' e hs = elim (Option-cases (find_key order k m)) [
      | inl nothing ↦ cc (rw (uninstall_key, nothing) at e)
      | inr (ms, found) ↦ elim (List-cases (erase_ptr p ms)) [
        | inl empty ↦
            subst (AllItems P) (ok-injective (rw (uninstall_key, found, empty) at e))
              (AllItems-erase_key k m hs)
        | inr (x, rest, more) ↦
            subst (AllItems P) (ok-injective (rw (uninstall_key, found, more) at e))
              (AllItems-update_key k (erase_ptr p) m (λ ms. AllSet-erase_ptr p ms) hs)
      ]
    ]

pub AllSet-map {ℓ κ} :
    (P : FilterPtr → MonitorItem → Type ℓ) (Q : FilterPtr → MonitorItem → Type κ) (ms : MonitorSet)
    → ((p : FilterPtr) (item : MonitorItem) → P p item → Q p item)
    → AllSet P ms
    → AllSet Q ms
AllSet-map P Q [] f hs = tt
AllSet-map P Q ((p, item) ∷ ms) f (h, hs) = (f p item h, AllSet-map P Q ms f hs)

pub AllSet-zip {ℓ κ} :
    (P : FilterPtr → MonitorItem → Type ℓ) (Q : FilterPtr → MonitorItem → Type κ) (ms : MonitorSet)
    → AllSet P ms
    → AllSet Q ms
    → AllSet (λ p item. P p item × Q p item) ms
AllSet-zip P Q [] h k = tt
AllSet-zip P Q ((p, item) ∷ ms) (h, hs) (k, ks) = ((h, k), AllSet-zip P Q ms hs ks)

same_ptr_refl : (p : FilterPtr) → same_ptr p p ≡ true
unfolding same_ptr
same_ptr_refl p = ground arith

-- Every entry of a set is in it.
pub AllSet-in_set : (ms : MonitorSet) → AllSet (λ p item. in_set p ms ≡ true) ms
unfolding in_set
AllSet-in_set [] = tt
AllSet-in_set ((p, item) ∷ ms) = (
  ap (λ b. b || in_set p ms) (same_ptr_refl p),
  AllSet-map (λ q i. in_set q ms ≡ true) (λ q i. in_set q ((p, item) ∷ ms) ≡ true) ms
      (λ q i h. ground (arith, h)) (AllSet-in_set ms),
)

pub AllItems-map {ℓ κ} :
    {K : Type 0} (P : FilterPtr → MonitorItem → Type ℓ) (Q : FilterPtr → MonitorItem → Type κ)
    (m : MonitorMap K)
    → ((p : FilterPtr) (item : MonitorItem) → P p item → Q p item)
    → AllItems P m
    → AllItems Q m
AllItems-map P Q [] f hs = tt
AllItems-map P Q ((k, ms) ∷ m) f (h, hs) = (AllSet-map P Q ms f h, AllItems-map P Q m f hs)
