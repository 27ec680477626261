-- ===== src/Monitors/Maps/Lookup.antt =====
-- What stands in the indexes after each operation on them.
use strfry_http.Base.{
  ◌≡◌, refl, sym, ap, ap₂, ◌∙◌, ◌↔◌, inl, inr, Bool, true, false, ◌&&◌, ◌||◌, Option, none, some,
  [], ◌∷◌, arith, ==_iff, if◌then◌else◌, if-true, if-false, true-false, Bool-cases, Option-cases,
  List-cases, ok,
}
use strfry_http.Monitors.Maps.{
  FilterPtr, same_ptr, MonitorItem, MonitorSet, in_set, try_emplace, erase_ptr, Order, MonitorMap,
  find_key, insert_key, touch_key, update_key, erase_key, install_key, uninstall_key, stands, held,
}

pub same_ptr_iff : (p q : FilterPtr) → (same_ptr p q ≡ true) ↔ (p ≡ q)
unfolding same_ptr
same_ptr_iff p q = (
  λ h. λ i. record {
    monitor = (==_iff p.monitor q.monitor).0 (ground (arith, h)) i;
    index = (==_iff p.index q.index).0 (ground (arith, h)) i;
  },
  λ e. rw e (ground arith),
)

pub in_set-try_emplace :
    (p q : FilterPtr) (item : MonitorItem) (ms : MonitorSet)
    → in_set q (try_emplace p item ms) ≡ (same_ptr p q || in_set q ms)
unfolding try_emplace in_set
in_set-try_emplace p q item ms = elim (Bool-cases (in_set p ms)) [
  | inr new ↦ rw new refl
  | inl old ↦ elim (Bool-cases (same_ptr p q)) [
    | inr other ↦ rw (old, other) refl
    | inl same ↦ rw (same, old) (rw (← (same_ptr_iff p q).0 same) old)
  ]
]

pub in_set-erase_ptr :
    (p q : FilterPtr) (ms : MonitorSet)
    → in_set q (erase_ptr p ms) ≡ (if same_ptr p q then false else in_set q ms)
unfolding erase_ptr in_set
in_set-erase_ptr p q [] = ground arith
in_set-erase_ptr p q ((r, item) ∷ ms) = elim (Bool-cases (same_ptr r p)) [
  | inl same ↦
      let e = ap (λ (x : FilterPtr). same_ptr x q) ((same_ptr_iff r p).0 same) in
      ground (arith, same, in_set-erase_ptr p q ms, e)
  | inr other ↦ elim (Bool-cases (same_ptr p q)) [
    | inl hit ↦
        let e = ap (same_ptr r) ((same_ptr_iff p q).0 hit) in
        ground (arith, other, in_set-erase_ptr p q ms, e, hit)
    | inr miss ↦ ground (arith, other, in_set-erase_ptr p q ms, miss)
  ]
]

-- The set found, after a change if the test holds.
abbrev pub revise : Bool → (MonitorSet → MonitorSet) → Option MonitorSet → Option MonitorSet
revise t f none = none
revise t f (some ms) = some (if t then f ms else ms)

revise-false : (f : MonitorSet → MonitorSet) (o : Option MonitorSet) → revise false f o ≡ o
revise-false f none = refl
revise-false f (some ms) = refl

module _ {K : Type 0} (order : Order K) where
  open order use {lt, eq, eq_iff, lt_irrefl, lt_trans, lt_total}

  eq_refl : (k : K) → eq k k ≡ true
  eq_refl k = (eq_iff k k).1 refl

  eq_comm : (j k : K) → eq j k ≡ eq k j
  eq_comm j k = elim (Bool-cases (eq j k)) [
    | inl same ↦ let e = (eq_iff j k).0 same in ap₂ eq e (sym e)
    | inr other ↦ elim (Bool-cases (eq k j)) [
      | inr other' ↦ other ∙ sym other'
      | inl same ↦ absurd (true-false (sym ((eq_iff j k).1 (sym ((eq_iff k j).0 same))) ∙ other))
    ]
  ]

  find_key_congr :
      (j k : K) (m : MonitorMap K) → eq k j ≡ true → find_key order j m ≡ find_key order k m
  find_key_congr j k m h = ap (λ (x : K). find_key order x m) (sym ((eq_iff k j).0 h))

  find_key-insert_key :
      (k j : K) (m : MonitorMap K)
      → find_key order k m ≡ none
      → find_key order j (insert_key order k m) ≡ (if eq k j then some [] else find_key order j m)
  unfolding find_key insert_key
  find_key-insert_key k j [] h = ground arith
  find_key-insert_key k j ((i, ms) ∷ m) h = elim (Bool-cases (eq i k)) [
    | inl same ↦ cc (rw same at h)
    | inr other ↦
        let ih = find_key-insert_key k j m (rw other at h) in
        elim (Bool-cases (eq k j)) [
          | inl hit ↦
              let miss : eq i j ≡ false = rw (← (eq_iff k j).0 hit) other in
              ground (arith, hit, miss, ih)
          | inr miss ↦ ground (arith, miss, ih)
        ]
  ]

  find_key-update_key :
      (k j : K) (f : MonitorSet → MonitorSet) (m : MonitorMap K)
      → find_key order j (update_key order k f m) ≡ revise (eq k j) f (find_key order j m)
  unfolding find_key update_key
  find_key-update_key k j f [] = refl
  find_key-update_key k j f ((i, ms) ∷ m) = elim (Bool-cases (eq i j)) [
    | inl same ↦
        let e = ap (λ (x : K). eq x k) ((eq_iff i j).0 same) in
        let back : eq j k ≡ eq k j = eq_comm j k in rw (same, e, back) refl
    | inr other ↦ rw other (find_key-update_key k j f m)
  ]

  find_key-erase_key :
      (k j : K) (m : MonitorMap K)
      → find_key order j (erase_key order k m) ≡ (if eq k j then none else find_key order j m)
  unfolding find_key erase_key
  find_key-erase_key k j [] = ground arith
  find_key-erase_key k j ((i, ms) ∷ m) = elim (Bool-cases (eq i k)) [
    | inl same ↦
        let e = ap (λ (x : K). eq x j) ((eq_iff i k).0 same) in
        ground (arith, same, e, find_key-erase_key k j m)
    | inr other ↦ elim (Bool-cases (eq k j)) [
      | inl hit ↦
          let e = ap (eq i) ((eq_iff k j).0 hit) in
          ground (arith, other, e, hit, find_key-erase_key k j m)
      | inr miss ↦ ground (arith, other, miss, find_key-erase_key k j m)
    ]
  ]

  set_at : K → MonitorMap K → MonitorSet
  set_at k m = elim (find_key order k m) [ none ↦ [] | some ms ↦ ms ]

  stands_in :
      (k : K) (p : FilterPtr) (m : MonitorMap K) → stands order k p m ≡ in_set p (set_at k m)
  unfolding set_at in_set
  stands_in k p m = ground arith

  find_key-touch_key :
      (k j : K) (m : MonitorMap K)
      → find_key order j (touch_key order k m)
        ≡ (if eq k j then some (set_at k m) else find_key order j m)
  unfolding touch_key set_at
  find_key-touch_key k j m = elim (Option-cases (find_key order k m)) [
    | inl new ↦ rw (touch_key, set_at, new) (find_key-insert_key k j m new)
    | inr (ms, old) ↦
        rw (touch_key, set_at, old)
          (elim (Bool-cases (eq k j)) [
            | inl hit ↦ rw (hit, find_key_congr j k m hit) old
            | inr miss ↦ rw miss refl
          ])
  ]

  pub stands-install_key :
      (k j : K) (p q : FilterPtr) (item : MonitorItem) (m : MonitorMap K)
      → stands order j q (install_key order k p item m)
        ≡ ((eq k j && same_ptr p q) || stands order j q m)
  unfolding install_key set_at
  stands-install_key k j p q item m = elim (Bool-cases (eq k j)) [
    | inl hit ↦
        let now : find_key order j (touch_key order k m) ≡ some (set_at k m) =
          find_key-touch_key k j m ∙ if-true _ _ hit in
        let same = ap (held q) (find_key_congr j k m hit) in
        ap (held q) (find_key-update_key k j (try_emplace p item) (touch_key order k m))
        ∙ (ap₂ (λ t o. held q (revise t (try_emplace p item) o)) hit now
            ∙ (in_set-try_emplace p q item (set_at k m) ∙ rw (hit, same, stands_in k q m) refl))
    | inr miss ↦
        let now : find_key order j (touch_key order k m) ≡ find_key order j m =
          find_key-touch_key k j m ∙ if-false _ _ miss in
        ap (held q) (find_key-update_key k j (try_emplace p item) (touch_key order k m))
        ∙ (ap₂ (λ t o. held q (revise t (try_emplace p item) o)) miss now
            ∙ (ap (held q) (revise-false (try_emplace p item) (find_key order j m)) ∙ rw miss refl))
  ]

  -- A filter that stands under a key is taken away, and nothing else.
  pub record Uninstalls (k : K) (p : FilterPtr) (m m' : MonitorMap K) : Type 0 where
    pub stands_now :
        (j : K) (q : FilterPtr)
        → stands order j q m' ≡ (if eq k j && same_ptr p q then false else stands order j q m)

  uninstalled_stands :
      (k j : K) (p q : FilterPtr) (m : MonitorMap K) (ms : MonitorSet)
      → find_key order k m ≡ some ms
      → held q (revise (eq k j) (erase_ptr p) (find_key order j m))
        ≡ (if eq k j && same_ptr p q then false else stands order j q m)
  uninstalled_stands k j p q m ms found = elim (Bool-cases (eq k j)) [
    | inl hit ↦
        let here : find_key order j m ≡ some ms = find_key_congr j k m hit ∙ found in
        ap₂ (λ t o. held q (revise t (erase_ptr p) o)) hit here
        ∙ (in_set-erase_ptr p q ms ∙ rw (hit, here) refl)
    | inr miss ↦
        ap (λ t. held q (revise t (erase_ptr p) (find_key order j m))) miss
        ∙ (ap (held q) (revise-false (erase_ptr p) (find_key order j m)) ∙ rw miss refl)
  ]

  -- A set that is left empty held nothing else.
  emptied_stands :
      (k j : K) (p q : FilterPtr) (m : MonitorMap K) (ms : MonitorSet)
      → find_key order k m ≡ some ms
      → erase_ptr p ms ≡ []
      → held q (if eq k j then none else find_key order j m)
        ≡ (if eq k j && same_ptr p q then false else stands order j q m)
  unfolding in_set
  emptied_stands k j p q m ms found empty = elim (Bool-cases (eq k j)) [
    | inl hit ↦
        let here : find_key order j m ≡ some ms = find_key_congr j k m hit ∙ found in
        let left : false ≡ (if same_ptr p q then false else in_set q ms) =
          sym (ap (in_set q) empty) ∙ in_set-erase_ptr p q ms in
        rw (hit, here) left
    | inr miss ↦ rw miss refl
  ]

  pub uninstall_key-Uninstalls :
      (k : K) (p : FilterPtr) (m : MonitorMap K)
      → stands order k p m ≡ true
      → (m' : MonitorMap K) × (uninstall_key order k p m ≡ ok m') × Uninstalls k p m m'
  unfolding uninstall_key
  uninstall_key-Uninstalls k p m there = elim (Option-cases (find_key order k m)) [
    | inl nothing ↦ cc (rw nothing at there)
    | inr (ms, found) ↦ elim (List-cases (erase_ptr p ms)) [
      | inl empty ↦ (
        erase_key order k m,
        rw (uninstall_key, found, empty) refl,
        record {
          stands_now = λ j q.
              ap (held q) (find_key-erase_key k j m) ∙ emptied_stands k j p q m ms found empty;
        },
      )
      | inr (e, rest, more) ↦ (
        update_key order k (erase_ptr p) m,
        rw (uninstall_key, found, more) refl,
        record {
          stands_now = λ j q.
              ap (held q) (find_key-update_key k j (erase_ptr p) m)
              ∙ uninstalled_stands k j p q m ms found;
        },
      )
    ]
  ]
