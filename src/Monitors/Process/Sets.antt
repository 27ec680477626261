-- ===== src/Monitors/Process/Sets.antt =====
-- What the loops over the indexes do to the recipients: every filter that stands under the event's
-- key is settled.
use strfry_http.Base.{
  ℕ, ◌≡◌, refl, sym, ap, ◌∙◌, subst, inl, inr, Bool, true, false, ◌||◌, none, List, [], ◌∷◌, ◌==◌,
  if-true, if-false, true-false, Bool-cases, set, All, any, Result, ok,
}
use strfry_http.Monitors.{Filters, ViewEvent, Heap}
use strfry_http.Monitors.Maps.{
  FilterPtr, MonitorItem, MonitorSet, MonitorMap, Order, same_ptr, in_set, find_key, stands, Falls,
  AllItems,
}
use strfry_http.Monitors.Maps.Lookup.{same_ptr_iff}
use strfry_http.Monitors.Maps.Items.{AllSet, AllSet-map, AllItems-map}
use strfry_http.Monitors.Maps.Entries.{Under}
use strfry_http.Monitors.Process.{Run, process_monitor_set, walk_matching, process_monitors_exact}
use strfry_http.Monitors.Process.Sent.{IsSent, IsItem, IsItem-Grows, Settled}
use strfry_http.Monitors.Process.Visits.{visit-Visits}

module _ {F : Type 0} (filters : Filters F) (ev : ViewEvent) (before : Heap filters)
    (matches : F → Bool) (decides : (f : F) → filters.does_match f ev.view ≡ ok (matches f)) where
  abbrev Sent : Run filters → List ℕ → Type 0
  Sent = IsSent filters ev before matches

  abbrev Entry : List ℕ → FilterPtr → MonitorItem → Type 0
  Entry = IsItem filters ev before matches

  abbrev Settles : FilterPtr → List ℕ → Type 0
  Settles = Settled filters ev before matches

  Settled-Grows :
      (ms ms' : List ℕ) (p : FilterPtr)
      → ((a : ℕ) → any (λ x. x == a) ms ≡ true → any (λ x. x == a) ms' ≡ true)
      → Settles p ms
      → Settles p ms'
  Settled-Grows ms ms' p grows h f there hit waiting = grows p.monitor (h f there hit waiting)

  pub record VisitsSet (ms ms' : List ℕ) (set set' : MonitorSet) (r : Run filters) : Type 0 where
    pub sent : Sent r ms'
    pub grows : (a : ℕ) → any (λ x. x == a) ms ≡ true → any (λ x. x == a) ms' ≡ true
    pub entries : AllSet (Entry ms') set'
    pub settled : (p : FilterPtr) → in_set p set ≡ true → Settles p ms'
    pub same : (p : FilterPtr) → in_set p set' ≡ in_set p set

  pub process_monitor_set-VisitsSet :
      (ms : List ℕ) (set : MonitorSet) (r : Run filters)
      → Sent r ms
      → AllSet (Entry ms) set
      → (set' : MonitorSet) × (r' : Run filters) × (ms' : List ℕ) × (process_monitor_set filters ev
            set r
          ≡ ok (set', r'))
        × VisitsSet ms ms' set set' r'
  unfolding process_monitor_set in_set
  process_monitor_set-VisitsSet ms [] r sent es = (
    [],
    r,
    ms,
    refl,
    record { sent = sent; grows = λ a h. h; entries = tt; settled = λ p h. cc; same = λ p. refl },
  )
  process_monitor_set-VisitsSet ms ((p, item) ∷ set) r sent (e, es) =
      let (item', r1, ms1, eq1, v) =
        visit-Visits filters ev before matches ms p item r decides sent e in
      let es1 =
        AllSet-map (Entry ms) (Entry ms1) set
          (λ q i. IsItem-Grows filters ev before matches ms ms1 q i v.grows) es in
      let (set', r2, ms2, eq2, w) = process_monitor_set-VisitsSet ms1 set r1 v.sent es1 in
      (
        (p, item') ∷ set',
        r2,
        ms2,
        rw (eq1, eq2) refl,
        record {
          sent = w.sent;
          grows = λ a h. w.grows a (v.grows a h);
          entries =
              (IsItem-Grows filters ev before matches ms1 ms2 p item' w.grows v.entry, w.entries);
          settled = λ q h. elim (Bool-cases (same_ptr p q)) [
            | inl same ↦
                subst (λ x. Settles x ms2) ((same_ptr_iff p q).0 same)
                  (Settled-Grows ms1 ms2 p w.grows v.settled)
            | inr other ↦ w.settled q (rw other at h)
          ];
          same = λ q. ap (λ b. same_ptr p q || b) (w.same q);
        },
      )

  module _ {K : Type 0} (order : Order K) where
    open order use {lt, eq, eq_iff, lt_irrefl, lt_trans, lt_total}

    pub record VisitsMap (key : K) (ms ms' : List ℕ) (m m' : MonitorMap K) (r : Run filters)
        : Type 0 where
      pub sent : Sent r ms'
      pub grows : (a : ℕ) → any (λ x. x == a) ms ≡ true → any (λ x. x == a) ms' ≡ true
      pub items : AllItems (Entry ms') m'
      pub settled : (p : FilterPtr) → stands order key p m ≡ true → Settles p ms'
      pub same : (k : K) (p : FilterPtr) → stands order k p m' ≡ stands order k p m
      pub under : (j : K) → Under order j m → Under order j m'
      pub falls : Falls order m'

    -- No key is above the event's.
    abbrev Within : K → MonitorMap K → Type 0
    Within key m = All (λ e. lt key e.0 ≡ false) m

    Under-Within :
        (key k : K) (m : MonitorMap K) → lt key k ≡ false → Under order k m → Within key m
    Under-Within key k [] h u = tt
    Under-Within key k ((j, ms) ∷ m) h (u, us) = (
      elim (Bool-cases (lt key j)) [
        | inr no' ↦ no'
        | inl yes' ↦ absurd (true-false (sym (lt_trans key j k yes' u) ∙ h))
      ],
      Under-Within key k m h us,
    )

    Under-none :
        (key k : K) (m : MonitorMap K)
        → lt k key ≡ true
        → Under order k m
        → find_key order key m ≡ none
    unfolding find_key
    Under-none key k [] h u = refl
    Under-none key k ((j, ms) ∷ m) h (u, us) = elim (Bool-cases (eq j key)) [
      | inr other ↦ rw other (Under-none key k m h us)
      | inl same ↦
          let e : lt j key ≡ true = lt_trans j k key u h in
          let e' : lt j j ≡ true = ap (lt j) ((eq_iff j key).0 same) ∙ e in
          absurd (true-false (sym e' ∙ lt_irrefl j))
    ]

    stands-cons :
        (j : K) (p : FilterPtr) (k : K) (set set' : MonitorSet) (m m' : MonitorMap K)
        → in_set p set' ≡ in_set p set
        → stands order j p m' ≡ stands order j p m
        → stands order j p ((k, set') ∷ m') ≡ stands order j p ((k, set) ∷ m)
    unfolding find_key
    stands-cons j p k set set' m m' h hs = elim (Bool-cases (eq k j)) [
      | inl same ↦ rw same h
      | inr other ↦ rw other hs
    ]

    -- Nothing is changed, and nothing stands under the key.
    unvisited :
        (key : K) (ms : List ℕ) (m : MonitorMap K) (r : Run filters)
        → Sent r ms
        → AllItems (Entry ms) m
        → Falls order m
        → find_key order key m ≡ none
        → VisitsMap key ms ms m m r
    unvisited key ms m r sent items falls nothing = record {
      sent = sent;
      grows = λ a h. h;
      items = items;
      settled = λ p h. cc (rw nothing at h);
      same = λ k p. refl;
      under = λ j u. u;
      falls = falls;
    }

    abbrev Outcome :
        K → List ℕ → MonitorMap K → Run filters → Result (MonitorMap K × Run filters) → Type 0
    Outcome key ms m r out =
        (m' : MonitorMap K) × (r' : Run filters) × (ms' : List ℕ) × (out ≡ ok (m', r'))
        × VisitsMap key ms ms' m m' r'

    items-grow :
        (ms ms' : List ℕ) (m : MonitorMap K)
        → ((a : ℕ) → any (λ x. x == a) ms ≡ true → any (λ x. x == a) ms' ≡ true)
        → AllItems (Entry ms) m
        → AllItems (Entry ms') m
    items-grow ms ms' m grows =
        AllItems-map (Entry ms) (Entry ms') m
          (λ q i. IsItem-Grows filters ev before matches ms ms' q i grows)

    walk_matching-VisitsMap :
        (key : K) (ms : List ℕ) (m : MonitorMap K) (r : Run filters)
        → Sent r ms
        → AllItems (Entry ms) m
        → Falls order m
        → Within key m
        → Outcome key ms m r (walk_matching filters order ev key m r)
    unfolding walk_matching find_key
    walk_matching-VisitsMap key ms [] r sent items falls within =
        ([], r, ms, refl, unvisited key ms [] r sent items falls refl)
    walk_matching-VisitsMap key ms ((k, set) ∷ m) r sent (es, items) (u, falls) (w, within) =
        elim (Bool-cases (eq k key)) [
          | inr other ↦
              let below : lt k key ≡ true = elim (Bool-cases (lt k key)) [
                | inl yes' ↦ yes'
                | inr no' ↦
                    absurd (true-false (sym ((eq_iff k key).1 (lt_total k key no' w)) ∙ other))
              ] in
              (
                (k, set) ∷ m,
                r,
                ms,
                if-false _ _ other,
                unvisited key ms ((k, set) ∷ m) r sent (es, items) (u, falls)
                    (rw (find_key, other) (Under-none key k m below u)),
              )
          | inl same ↦
              let (set', r1, ms1, eq1, v) = process_monitor_set-VisitsSet ms set r sent es in
              let (m', r2, ms2, eq2, x) =
                walk_matching-VisitsMap key ms1 m r1 v.sent (items-grow ms ms1 m v.grows items)
                  falls within in
              (
                (k, set') ∷ m',
                r2,
                ms2,
                if-true _ _ same ∙ rw (eq1, eq2) refl,
                record {
                  sent = x.sent;
                  grows = λ a h. x.grows a (v.grows a h);
                  items = (
                    AllSet-map (Entry ms1) (Entry ms2) set'
                        (λ q i. IsItem-Grows filters ev before matches ms1 ms2 q i x.grows)
                        v.entries,
                    x.items,
                  );
                  settled = λ p h.
                      Settled-Grows ms1 ms2 p x.grows (v.settled p (rw (find_key, same) at h));
                  same = λ j p. stands-cons j p k set set' m m' (v.same p) (x.same j p);
                  under = λ j (h, hs). (h, x.under j hs);
                  falls = (x.under k u, x.falls);
                },
              )
        ]

    pub process_monitors_exact-VisitsMap :
        (key : K) (ms : List ℕ) (m : MonitorMap K) (r : Run filters)
        → Sent r ms
        → AllItems (Entry ms) m
        → Falls order m
        → Outcome key ms m r (process_monitors_exact filters order ev key m r)
    unfolding process_monitors_exact find_key
    process_monitors_exact-VisitsMap key ms [] r sent items falls =
        ([], r, ms, refl, unvisited key ms [] r sent items falls refl)
    process_monitors_exact-VisitsMap key ms ((k, set) ∷ m) r sent (es, items) (u, falls) =
        elim (Bool-cases (lt key k)) [
          | inr within ↦
              let (m', r', ms', e, x) =
                walk_matching-VisitsMap key ms ((k, set) ∷ m) r sent (es, items) (u, falls)
                  (within, Under-Within key k m within u) in
              (m', r', ms', if-false _ _ within ∙ e, x)
          | inl above ↦
              let (m', r', ms', e, x) =
                process_monitors_exact-VisitsMap key ms m r sent items falls in
              let other : eq k key ≡ false = elim (Bool-cases (eq k key)) [
                | inr no' ↦ no'
                | inl yes' ↦ absurd (
                    true-false
                      (sym (ap (lt key) (sym ((eq_iff k key).0 yes')) ∙ above) ∙ lt_irrefl key))
              ] in
              (
                (k, set) ∷ m',
                r',
                ms',
                if-true _ _ above ∙ rw e refl,
                record {
                  sent = x.sent;
                  grows = x.grows;
                  items = (
                    AllSet-map (Entry ms) (Entry ms') set
                        (λ q i. IsItem-Grows filters ev before matches ms ms' q i x.grows) es,
                    x.items,
                  );
                  settled = λ p h. x.settled p (rw (find_key, other) at h);
                  same = λ j p. stands-cons j p k set set m m' refl (x.same j p);
                  under = λ j (h, hs). (h, x.under j hs);
                  falls = (x.under k u, x.falls);
                },
              )
        ]
