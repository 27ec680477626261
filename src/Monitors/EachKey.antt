-- ===== src/Monitors/EachKey.antt =====
-- One index when a filter is installed under each of its keys.
use strfry_http.Base.{
  ℕ, ◌≡◌, refl, ap, ◌∙◌, Bool, true, false, ◌&&◌, ◌||◌, List, [], ◌∷◌, arith, ◌==◌, Bytes, length,
  All, any, ok,
}
use strfry_http.Monitors.{bytes32, for_each, install_bytes, install_tag, install_kind}
use strfry_http.Monitors.Maps.{
  FilterPtr, MonitorItem, MonitorMap, Order, bytes_order, number_order, same_ptr, install_key,
  stands, Falls, AllItems,
}
use strfry_http.Monitors.Maps.Lookup.{stands-install_key}
use strfry_http.Monitors.Maps.Items.{AllItems-install_key}
use strfry_http.Monitors.Maps.Entries.{Falls-install_key}

pub bytes32_sized : (s : Bytes) → (length s == 32) ≡ true → bytes32 s ≡ ok s
unfolding bytes32
bytes32_sized s h = ground (arith, h)

-- A filter is installed under all of its keys.
abbrev pub installs :
    {K : Type 0} → Order K → FilterPtr → MonitorItem → List K → MonitorMap K → MonitorMap K
installs order p item [] m = m
installs order p item (k ∷ ks) m = installs order p item ks (install_key order k p item m)

pub for_each-install_bytes :
    (p : FilterPtr) (item : MonitorItem) (xs : List Bytes) (m : MonitorMap Bytes)
    → All (λ x. (length x == 32) ≡ true) xs
    → for_each (install_bytes p item) xs m ≡ ok (installs bytes_order p item xs m)
unfolding install_bytes
for_each-install_bytes p item [] m h = refl
for_each-install_bytes p item (x ∷ xs) m (h, hs) =
    rw (bytes32_sized x h)
      (for_each-install_bytes p item xs (install_key bytes_order x p item m) hs)

pub for_each-install_tag :
    (p : FilterPtr) (item : MonitorItem) (xs : List Bytes) (m : MonitorMap Bytes)
    → for_each (install_tag p item) xs m ≡ ok (installs bytes_order p item xs m)
unfolding install_tag
for_each-install_tag p item [] m = refl
for_each-install_tag p item (x ∷ xs) m =
    for_each-install_tag p item xs (install_key bytes_order x p item m)

pub for_each-install_kind :
    (p : FilterPtr) (item : MonitorItem) (ks : List ℕ) (m : MonitorMap ℕ)
    → for_each (install_kind p item) ks m ≡ ok (installs number_order p item ks m)
unfolding install_kind
for_each-install_kind p item [] m = refl
for_each-install_kind p item (k ∷ ks) m =
    for_each-install_kind p item ks (install_key number_order k p item m)

pub drop_false : (b c : Bool) → (b && false || c) ≡ c
drop_false true c = refl
drop_false false c = refl

module _ {K : Type 0} (order : Order K) (p : FilterPtr) (item : MonitorItem) where
  open order use {eq}

  pub stands-installs :
      (ks : List K) (m : MonitorMap K) (j : K) (q : FilterPtr)
      → stands order j q (installs order p item ks m)
        ≡ ((any (λ k. eq k j) ks && same_ptr p q) || stands order j q m)
  stands-installs [] m j q = refl
  stands-installs (k ∷ ks) m j q =
      stands-installs ks (install_key order k p item m) j q
      ∙ (ap (λ b. (any (λ i. eq i j) ks && same_ptr p q) || b)
            (stands-install_key order k j p q item m)
          ∙ ground arith)

  pub Falls-installs :
      (ks : List K) (m : MonitorMap K) → Falls order m → Falls order (installs order p item ks m)
  Falls-installs [] m h = h
  Falls-installs (k ∷ ks) m h =
      Falls-installs ks (install_key order k p item m) (Falls-install_key order k p item m h)

  pub AllItems-installs :
      (P : FilterPtr → MonitorItem → Type 0) (ks : List K) (m : MonitorMap K)
      → P p item
      → AllItems P m
      → AllItems P (installs order p item ks m)
  AllItems-installs P [] m h hs = hs
  AllItems-installs P (k ∷ ks) m h hs =
      AllItems-installs P ks (install_key order k p item m) h
        (AllItems-install_key P order k p item m h hs)
