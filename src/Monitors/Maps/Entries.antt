-- ===== src/Monitors/Maps/Entries.antt =====
-- The keys of the indexes keep their order, and what holds of all entries is kept.
use strfry_http.Base.{
  ◌≡◌, refl, sym, ap, ◌∙◌, subst, inl, inr, true, none, [], ◌∷◌, true-false, Bool-cases,
  Option-cases, List-cases, All, ok, ok-injective,
}
use strfry_http.Monitors.Maps.{
  FilterPtr, MonitorItem, MonitorSet, in_set, try_emplace, erase_ptr, Order, MonitorMap, find_key,
  insert_key, touch_key, update_key, erase_key, install_key, uninstall_key, stands, Falls, AllItems,
}
use strfry_http.Monitors.Maps.Items.{AllSet-map, AllSet-zip, AllSet-in_set, AllItems-map}

module _ {K : Type 0} (order : Order K) where
  open order use {lt, eq, eq_iff, lt_irrefl, lt_trans, lt_total}

  abbrev pub Under : K → MonitorMap K → Type 0
  Under k m = All (λ e. lt e.0 k ≡ true) m

  Under-trans : (k j : K) (m : MonitorMap K) → lt k j ≡ true → Under k m → Under j m
  Under-trans k j [] h hs = tt
  Under-trans k j ((i, ms) ∷ m) h (u, hs) = (lt_trans i k j u h, Under-trans k j m h hs)

  Under-insert_key :
      (k j : K) (m : MonitorMap K) → lt k j ≡ true → Under j m → Under j (insert_key order k m)
  unfolding insert_key
  Under-insert_key k j [] h hs = (h, tt)
  Under-insert_key k j ((i, ms) ∷ m) h (u, hs) = elim (Bool-cases (lt i k)) [
    | inl below ↦ rw below (h, (u, hs))
    | inr above ↦ rw above (u, Under-insert_key k j m h hs)
  ]

  -- A key that is not there is placed between the greater ones and the others.
  Falls-insert_key :
      (k : K) (m : MonitorMap K)
      → find_key order k m ≡ none
      → Falls order m
      → Falls order (insert_key order k m)
  unfolding insert_key find_key
  Falls-insert_key k [] new hs = (tt, tt)
  Falls-insert_key k ((j, ms) ∷ m) new (u, hs) = elim (Bool-cases (lt j k)) [
    | inl below ↦ rw below ((below, Under-trans j k m below u), (u, hs))
    | inr above ↦ elim (Bool-cases (eq j k)) [
      | inl same ↦ cc (rw same at new)
      | inr other ↦
          let over : lt k j ≡ true = elim (Bool-cases (lt k j)) [
            | inl yes' ↦ yes'
            | inr no' ↦ absurd (true-false (sym ((eq_iff j k).1 (lt_total j k above no')) ∙ other))
          ] in
          rw above (Under-insert_key k j m over u, Falls-insert_key k m (rw other at new) hs)
    ]
  ]

  Under-update_key :
      (k j : K) (f : MonitorSet → MonitorSet) (m : MonitorMap K)
      → Under j m
      → Under j (update_key order k f m)
  unfolding update_key
  Under-update_key k j f [] hs = tt
  Under-update_key k j f ((i, ms) ∷ m) (u, hs) = (u, Under-update_key k j f m hs)

  Falls-update_key :
      (k : K) (f : MonitorSet → MonitorSet) (m : MonitorMap K)
      → Falls order m
      → Falls order (update_key order k f m)
  unfolding update_key
  Falls-update_key k f [] hs = tt
  Falls-update_key k f ((j, ms) ∷ m) (u, hs) =
      (Under-update_key k j f m u, Falls-update_key k f m hs)

  Under-erase_key : (k j : K) (m : MonitorMap K) → Under j m → Under j (erase_key order k m)
  unfolding erase_key
  Under-erase_key k j [] hs = tt
  Under-erase_key k j ((i, ms) ∷ m) (u, hs) = elim (Bool-cases (eq i k)) [
    | inl same ↦ rw same (Under-erase_key k j m hs)
    | inr other ↦ rw other (u, Under-erase_key k j m hs)
  ]

  Falls-erase_key : (k : K) (m : MonitorMap K) → Falls order m → Falls order (erase_key order k m)
  unfolding erase_key
  Falls-erase_key k [] hs = tt
  Falls-erase_key k ((j, ms) ∷ m) (u, hs) = elim (Bool-cases (eq j k)) [
    | inl same ↦ rw same (Falls-erase_key k m hs)
    | inr other ↦ rw other (Under-erase_key k j m u, Falls-erase_key k m hs)
  ]

  pub Falls-install_key :
      (k : K) (p : FilterPtr) (item : MonitorItem) (m : MonitorMap K)
      → Falls order m
      → Falls order (install_key order k p item m)
  unfolding install_key touch_key
  Falls-install_key k p item m hs = elim (Option-cases (find_key order k m)) [
    | inl new ↦
        rw (install_key, touch_key, new)
          (Falls-update_key k (try_emplace p item) (insert_key order k m)
            (Falls-insert_key k m new hs))
    | inr (ms, old) ↦
        rw (install_key, touch_key, old) (Falls-update_key k (try_emplace p item) m hs)
  ]

  pub Falls-uninstall_key :
      (k : K) (p : FilterPtr) (m m' : MonitorMap K)
      → uninstall_key order k p m ≡ ok m'
      → Falls order m
      → Falls order m'
  unfolding uninstall_key
  Falls-uninstall_key k p m m' e hs = elim (Option-cases (find_key order k m)) [
    | inl nothing ↦ cc (rw (uninstall_key, nothing) at e)
    | inr (ms, found) ↦ elim (List-cases (erase_ptr p ms)) [
      | inl empty ↦
          subst (Falls order) (ok-injective (rw (uninstall_key, found, empty) at e))
            (Falls-erase_key k m hs)
      | inr (x, rest, more) ↦
          subst (Falls order) (ok-injective (rw (uninstall_key, found, more) at e))
            (Falls-update_key k (erase_ptr p) m hs)
    ]
  ]

  Under-absent : (k : K) (m : MonitorMap K) → Under k m → find_key order k m ≡ none
  unfolding find_key
  Under-absent k [] u = refl
  Under-absent k ((j, ms) ∷ m) (u, us) = elim (Bool-cases (eq j k)) [
    | inr other ↦ rw other (Under-absent k m us)
    | inl same ↦
        let e : lt j j ≡ true = ap (lt j) ((eq_iff j k).0 same) ∙ u in
        absurd (true-false (sym e ∙ lt_irrefl j))
  ]

  -- Every entry stands under some key.
  pub AllItems-stands :
      (m : MonitorMap K)
      → Falls order m
      → AllItems (λ p item. (k : K) × (stands order k p m ≡ true)) m
  unfolding find_key in_set
  AllItems-stands [] falls = tt
  AllItems-stands ((k, ms) ∷ m) (u, falls) = (
    AllSet-map (λ p item. in_set p ms ≡ true)
        (λ p item. (j : K) × (stands order j p ((k, ms) ∷ m) ≡ true)) ms
        (λ p item h. (k, rw (find_key, (eq_iff k k).1 refl) h)) (AllSet-in_set ms),
    AllItems-map (λ p item. (j : K) × (stands order j p m ≡ true))
        (λ p item. (j : K) × (stands order j p ((k, ms) ∷ m) ≡ true)) m
        (λ p item (j, h). (j, deeper p j h)) (AllItems-stands m falls),
  )
    where
      deeper :
          (p : FilterPtr) (j : K)
          → stands order j p m ≡ true
          → stands order j p ((k, ms) ∷ m) ≡ true
      deeper p j h = elim (Bool-cases (eq k j)) [
        | inr other ↦ rw (find_key, other) h
        | inl same ↦
            let nothing : find_key order j m ≡ none =
              subst (λ x. find_key order x m ≡ none) ((eq_iff k j).0 same) (Under-absent k m u) in
            cc (rw nothing at h)
      ]

pub AllItems-zip {ℓ κ} :
    {K : Type 0} (P : FilterPtr → MonitorItem → Type ℓ) (Q : FilterPtr → MonitorItem → Type κ)
    (m : MonitorMap K)
    → AllItems P m
    → AllItems Q m
    → AllItems (λ p item. P p item × Q p item) m
AllItems-zip P Q [] h k = tt
AllItems-zip P Q ((j, ms) ∷ m) (h, hs) (k, ks) = (AllSet-zip P Q ms h k, AllItems-zip P Q m hs ks)
