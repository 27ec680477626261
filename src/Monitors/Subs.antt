-- ===== src/Monitors/Subs.antt =====
-- Adding and removing subscriptions keeps the active monitors valid.
use strfry_http.Base.{
  ℕ, ◌≡◌, refl, sym, ap, ◌∙◌, subst, subst₂, inl, inr, true, false, ◌&&◌, none, some, arith, ◌==◌,
  ==_iff, if◌then◌else◌, if-true, if-false, true-false, Bool-cases, Option-cases, ok,
}
use mathlib.Core.Option.{some-injective}
use strfry_http.Subscription.{SubId, sv}
use strfry_http.Monitors.{Filters, Monitor, Heap, ActiveMonitors, put, free}
use strfry_http.Monitors.Maps.{held}
use strfry_http.Monitors.Valid.{view_of, IsHeldAt, IsHeld, IsInstalled, IsValid}
use strfry_http.Subscription.{same_sub_id}
use strfry_http.Subscription.Conns.{Conns, find_entry, remove_entry}
use strfry_http.Subscription.Conns.Lookup.{find_entry-remove_entry, find_entry_congr}
use strfry_http.Subscription.Conns.Entries.{AllEntries-find_entry, AllEntries-remove_entry}
use strfry_http.Monitors.{find_monitor, remove_sub}
use strfry_http.Monitors.Removals.{uninstall_monitor_lem}

module _ {F : Type 0} (filters : Filters F) where
  free_self : (a : ℕ) (heap : Heap filters) → free filters a heap a ≡ none
  unfolding free
  free_self a heap = ground arith

  free_other : (a b : ℕ) (heap : Heap filters) → (b == a) ≡ false → free filters a heap b ≡ heap b
  unfolding free
  free_other a b heap h = if-false _ _ h

  pub put_self :
      (a : ℕ) (m : Monitor filters) (heap : Heap filters) → put filters a m heap a ≡ some m
  unfolding put
  put_self a m heap = ground arith

  pub put_other :
      (a b : ℕ) (m : Monitor filters) (heap : Heap filters)
      → (b == a) ≡ false
      → put filters a m heap b ≡ heap b
  unfolding put
  put_other a b m heap h = if-false _ _ h

  -- A monitor that is found after another was freed is not that one.
  freed_other :
      (a x : ℕ) (m : Monitor filters) (heap : Heap filters)
      → free filters a heap x ≡ some m
      → ((x == a) ≡ false) × (heap x ≡ some m)
  freed_other a x m heap h = elim (Bool-cases (x == a)) [
    | inr other ↦ (other, sym (free_other a x heap other) ∙ h)
    | inl same ↦
        let nothing : free filters a heap x ≡ none =
          ap (free filters a heap) ((==_iff x a).0 same) ∙ free_self a heap in
        cc (nothing, h)
  ]

  removed-IsHeld :
      (c : ℕ) (k : SubId) (a next : ℕ) (heap : Heap filters) (conns : Conns ℕ)
      → IsHeld filters heap next conns
      → find_entry c k conns ≡ some a
      → IsHeld filters (free filters a heap) next (remove_entry c k conns)
  removed-IsHeld c k a next heap conns held found =
      let at = AllEntries-find_entry (IsHeldAt filters heap) c k conns a held.indexed found in
      record {
        fresh = λ x le. elim (Bool-cases (x == a)) [
          | inl same ↦ ap (free filters a heap) ((==_iff x a).0 same) ∙ free_self a heap
          | inr other ↦ free_other a x heap other ∙ held.fresh x le
        ];
        indexed =
            AllEntries-remove_entry (IsHeldAt filters heap) (IsHeldAt filters (free filters a heap))
              c k conns
              (λ d b x apart here.
                let other : (x == a) ≡ false = elim (Bool-cases (x == a)) [
                  | inr o ↦ o
                  | inl same ↦
                      let e : at.monitor ≡ here.monitor =
                        some-injective _ _
                          (sym at.there ∙ (ap heap (sym ((==_iff x a).0 same)) ∙ here.there)) in
                      absurd (
                        apart (
                          sym here.conn ∙ (ap (λ m. m.conn_id) (sym e) ∙ at.conn),
                          sym here.named ∙ (ap (λ m. sv m.sub_id) (sym e) ∙ at.named),
                        ))
                ] in
                record {
                  monitor = here.monitor;
                  there = free_other a x heap other ∙ here.there;
                  conn = here.conn;
                  named = here.named;
                })
              held.indexed;
        live = λ x m there.
            let (other, before) = freed_other a x m heap there in
            let found_x = held.live x m before in
            find_entry-remove_entry c m.conn_id k m.sub_id conns
            ∙ elim (Bool-cases (m.conn_id == c && same_sub_id k m.sub_id)) [
              | inr apart ↦ rw apart found_x
              | inl alike ↦
                  let conn : m.conn_id ≡ c = (==_iff m.conn_id c).0 (ground (arith, alike)) in
                  let named : same_sub_id k m.sub_id ≡ true = ground (arith, alike) in
                  let e : a ≡ x = some-injective _ _ (
                    sym found ∙ (find_entry_congr c k m.sub_id conns named ∙ rw conn at found_x)) in
                  absurd (true-false (sym ((==_iff x a).1 (sym e)) ∙ other))
            ];
        good = λ x m there. held.good x m (freed_other a x m heap there).1;
      }

  -- What a removal does.
  pub record Forgets (c : ℕ) (k : SubId) (seen : ℕ) (s s' : ActiveMonitors filters) : Type 0 where
    pub valid : IsValid filters s' seen
    pub found :
        (d : ℕ) (j : SubId)
        → find_monitor filters d j s'
          ≡ (if d == c && same_sub_id k j then none else find_monitor filters d j s)

  nothing_removed :
      (c d : ℕ) (k j : SubId) (conns : Conns ℕ)
      → find_entry c k conns ≡ none
      → find_entry d j conns ≡ (if d == c && same_sub_id k j then none else find_entry d j conns)
  nothing_removed c d k j conns nothing = elim (Bool-cases (d == c && same_sub_id k j)) [
    | inr apart ↦ sym (if-false _ _ apart)
    | inl alike ↦
        let conn : d ≡ c = (==_iff d c).0 (ground (arith, alike)) in
        let named : same_sub_id k j ≡ true = ground (arith, alike) in
        ap (λ (x : ℕ). find_entry x j conns) conn
        ∙ (sym (find_entry_congr c k j conns named) ∙ (nothing ∙ sym (if-true _ _ alike)))
  ]

  -- From a valid state, removing a subscription throws nothing, its lookups are found and taken away,
  -- and the state is valid: the subscription is not found any more, and every other is found as before.
  pub remove_sub-Forgets :
      (c : ℕ) (k : SubId) (seen : ℕ) (s : ActiveMonitors filters)
      → IsValid filters s seen
      → (s' : ActiveMonitors filters) × (remove_sub filters c k s ≡ ok s') × Forgets c k seen s s'
  unfolding remove_sub find_monitor
  remove_sub-Forgets c k seen s valid = elim (Option-cases (find_monitor filters c k s)) [
    | inl nothing ↦ (
      s,
      rw (remove_sub, nothing) refl,
      record { valid = valid; found = λ d j. nothing_removed c d k j s.conns nothing },
    )
    | inr (a, found) ↦
        let at =
          AllEntries-find_entry (IsHeldAt filters s.heap) c k s.conns a valid.held.indexed found in
        let (s1, e, inst, rest) =
          uninstall_monitor_lem filters a at.monitor seen s at.there valid.installed
            (valid.held.good a at.monitor at.there) in
        (
          record s1 { heap = free filters a s1.heap; conns = remove_entry c k s1.conns },
          rw (remove_sub, found) (rw e refl),
          record {
            valid = record {
              held =
                  subst₂
                    (λ (h : Heap filters) (l : Conns ℕ).
                      IsHeld filters (free filters a h) s1.next (remove_entry c k l))
                    (sym rest.heap) (sym rest.conns)
                    (subst
                      (λ (n : ℕ).
                        IsHeld filters (free filters a s.heap) n (remove_entry c k s.conns))
                      (sym rest.next)
                      (removed-IsHeld c k a s.next s.heap s.conns valid.held found));
              installed =
                  subst
                    (λ (h : Heap filters).
                      IsInstalled filters
                        (record s1 {
                          heap = free filters a s1.heap;
                          conns = remove_entry c k s1.conns;
                        })
                        (view_of filters (free filters a h)) seen)
                    (sym rest.heap)
                    (record {
                      ids = inst.ids;
                      authors = inst.authors;
                      tags = inst.tags;
                      kinds = inst.kinds;
                      others = inst.others;
                      others_for = inst.others_for;
                    });
            };
            found = λ d j.
                ap (λ (l : Conns ℕ). find_entry d j (remove_entry c k l)) rest.conns
                ∙ find_entry-remove_entry c d k j s.conns;
          },
        )
  ]
