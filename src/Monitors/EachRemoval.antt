-- ===== src/Monitors/EachRemoval.antt =====
-- One index when a filter is removed from under each of its keys.
use strfry_http.Base.{
  ◌≡◌, refl, sym, ap, ◌∙◌, inl, inr, true, false, ◌&&◌, ◌||◌, List, [], ◌∷◌, arith, ◌==◌,
  if◌then◌else◌, true-false, Bool-cases, Bytes, length, All, any, all, Result, ok, >>=-congr,
}
use strfry_http.Monitors.{for_each, uninstall_bytes}
use strfry_http.Monitors.Maps.{
  FilterPtr, MonitorItem, MonitorMap, Order, bytes_order, same_ptr, uninstall_key, stands, Falls,
  AllItems,
}
use strfry_http.Monitors.Maps.Lookup.{uninstall_key-Uninstalls}
use strfry_http.Monitors.Maps.Items.{AllItems-uninstall_key}
use strfry_http.Monitors.Maps.Entries.{Falls-uninstall_key}
use strfry_http.Monitors.Valid.{OnceKeys}
use strfry_http.Monitors.EachKey.{bytes32_sized}

module _ {K : Type 0} (order : Order K) (p : FilterPtr) where
  open order use {eq, eq_iff}

  abbrev pub uninstall_each : List K → MonitorMap K → Result (MonitorMap K)
  uninstall_each = for_each (λ k. uninstall_key order k p)

  pub record UninstallsAll (ks : List K) (m m' : MonitorMap K) : Type 1 where
    pub stands_now :
        (j : K) (q : FilterPtr)
        → stands order j q m'
          ≡ (if any (λ k. eq k j) ks && same_ptr p q then false else stands order j q m)
    pub falls : Falls order m'
    pub items : (P : FilterPtr → MonitorItem → Type 0) → AllItems P m → AllItems P m'

  -- A key that is behind in a list of distinct keys is another.
  behind_other :
      (k j : K) (ks : List K)
      → any (λ i. eq i k) ks ≡ false
      → any (λ i. eq i j) ks ≡ true
      → eq k j ≡ false
  behind_other k j ks new there = elim (Bool-cases (eq k j)) [
    | inr other ↦ other
    | inl same ↦
        let e = ap (λ x. any (λ i. eq i x) ks) ((eq_iff k j).0 same) in
        absurd (true-false (sym there ∙ (sym e ∙ new)))
  ]

  pub uninstall_each-all :
      (ks : List K) (m : MonitorMap K)
      → OnceKeys order ks
      → ((k : K) → any (λ i. eq i k) ks ≡ true → stands order k p m ≡ true)
      → Falls order m
      → (m' : MonitorMap K) × (uninstall_each ks m ≡ ok m') × UninstallsAll ks m m'
  uninstall_each-all [] m once there falls =
      (m, refl, record { stands_now = λ j q. refl; falls = falls; items = λ P h. h })
  uninstall_each-all (k ∷ ks) m (new, once) there falls =
      let (m1, e1, u) =
        uninstall_key-Uninstalls order k p m
          (there k (ap (λ b. b || any (λ i. eq i k) ks) ((eq_iff k k).1 refl))) in
      let (m2, e2, all) =
        uninstall_each-all ks m1 once
          (λ j h. u.stands_now j p ∙ rw (behind_other k j ks new h) (there j (ground (arith, h))))
          (Falls-uninstall_key order k p m m1 e1 falls) in
      (
        m2,
        rw e1 e2,
        record {
          stands_now = λ j q.
              all.stands_now j q
              ∙ (ap (λ b. if any (λ i. eq i j) ks && same_ptr p q then false else b)
                    (u.stands_now j q)
                  ∙ ground arith);
          falls = all.falls;
          items = λ P h. all.items P (AllItems-uninstall_key P order k p m m1 e1 h);
        },
      )

pub for_each-uninstall_bytes :
    (p : FilterPtr) (xs : List Bytes) (m : MonitorMap Bytes)
    → All (λ x. (length x == 32) ≡ true) xs
    → for_each (uninstall_bytes p) xs m ≡ uninstall_each bytes_order p xs m
unfolding uninstall_bytes
for_each-uninstall_bytes p [] m h = refl
for_each-uninstall_bytes p (x ∷ xs) m (h, hs) =
    rw (bytes32_sized x h)
      (>>=-congr (uninstall_key bytes_order x p m) (λ m'. for_each-uninstall_bytes p xs m' hs))
