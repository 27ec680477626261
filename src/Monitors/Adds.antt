-- ===== src/Monitors/Adds.antt =====
-- Adding a subscription keeps the active monitors valid.
use strfry_http.Base.{
  ℕ, ◌+◌, ◌≤◌, ◌≡◌, refl, sym, ap, ◌∙◌, subst, subst₂, inl, inr, Bool, true, false, ◌&&◌, none,
  some, arith, leb, ◌==◌, ==_iff, if◌then◌else◌, if-true, if-false, Bool-cases, Option-cases, Bytes,
  length, All, ok,
}
use mathlib.Core.Option.{some-injective}
use strfry_http.Subscription.{SubId}
use strfry_http.Monitors.{Filters, Monitor, Heap, ActiveMonitors, install_lookups, put}
use strfry_http.Monitors.Maps.{held}
use strfry_http.Monitors.Valid.{IsGood, view_of, IsHeldAt, IsHeld, IsInstalled, IsValid}
use strfry_http.Subscription.{same_sub_id}
use strfry_http.Subscription.Conns.{Conns, find_entry, add_entry, touch_conn, entries}
use strfry_http.Subscription.Conns.Lookup.{
  find_entry-add_entry, find_entry-touch_conn, find_entry_congr, same_sub_id_refl,
}
use strfry_http.Subscription.Conns.Entries.{AllEntries-add_entry, AllEntries-touch_conn}
use strfry_http.Monitors.{find_monitor, remove_sub, replace_sub, add_sub}
use strfry_http.Monitors.Views.{install_monitor}
use strfry_http.Monitors.Subs.{remove_sub-Forgets, put_self, put_other}

alike_self : (c : ℕ) (k : SubId) → (c == c && same_sub_id k k) ≡ true
alike_self c k = rw (same_sub_id_refl k) (ground arith)

module _ {F : Type 0} (filters : Filters F) where
  remove_sub_nothing :
      (c : ℕ) (k : SubId) (s : ActiveMonitors filters)
      → find_monitor filters c k s ≡ none
      → remove_sub filters c k s ≡ ok s
  unfolding remove_sub
  remove_sub_nothing c k s h = rw (h, remove_sub) refl

  replace_sub-remove_sub :
      (c : ℕ) (k : SubId) (s : ActiveMonitors filters)
      → replace_sub filters c k s ≡ remove_sub filters c k s
  unfolding replace_sub
  replace_sub-remove_sub c k s = elim (Option-cases (find_monitor filters c k s)) [
    | inl nothing ↦ rw (nothing, replace_sub) (sym (remove_sub_nothing c k s nothing))
    | inr (a, found) ↦ rw (found, replace_sub) refl
  ]

  IsHeldAt-put :
      (heap : Heap filters) (a : ℕ) (m : Monitor filters) (c : ℕ) (b : Bytes) (x : ℕ)
      → heap a ≡ none
      → IsHeldAt filters heap c b x
      → IsHeldAt filters (put filters a m heap) c b x
  IsHeldAt-put heap a m c b x new at =
      let other : (x == a) ≡ false = elim (Bool-cases (x == a)) [
        | inr o ↦ o
        | inl same ↦
            let e : heap x ≡ none = ap heap ((==_iff x a).0 same) ∙ new in
            let there = at.there in cc (e, there)
      ] in
      record {
        monitor = at.monitor;
        there = put_other filters a x m heap other ∙ at.there;
        conn = at.conn;
        named = at.named;
      }

  added-IsHeld :
      (m : Monitor filters) (next : ℕ) (heap : Heap filters) (conns : Conns ℕ)
      → IsHeld filters heap next conns
      → find_entry m.conn_id m.sub_id conns ≡ none
      → All (IsGood filters) m.filter_group
      → IsHeld filters
          (put filters next m heap)
          (next + 1)
          (add_entry m.conn_id m.sub_id next conns)
  added-IsHeld m next heap conns held gone good =
      let new = held.fresh next (omega arith) in
      record {
        fresh = λ x le. put_other filters next x m heap (ground arith) ∙ held.fresh x (omega arith);
        indexed =
            AllEntries-add_entry (IsHeldAt filters heap)
              (IsHeldAt filters (put filters next m heap)) m.conn_id m.sub_id next conns
              (λ d b x at. IsHeldAt-put heap next m d b x new at)
              (record {
                monitor = m;
                there = put_self filters next m heap;
                conn = refl;
                named = refl;
              })
              held.indexed;
        live = λ x p there.
            find_entry-add_entry m.conn_id p.conn_id m.sub_id p.sub_id next conns
            ∙ elim (Bool-cases (x == next)) [
              | inl same ↦
                  let e = (==_iff x next).0 same in
                  let mp : m ≡ p = some-injective _ _ (
                    sym (put_self filters next m heap)
                    ∙ (ap (put filters next m heap) (sym e) ∙ there)) in
                  subst
                    (λ (p : Monitor filters).
                      (if p.conn_id == m.conn_id && same_sub_id m.sub_id p.sub_id
                        then some next
                        else find_entry p.conn_id p.sub_id conns)
                      ≡ some x)
                    mp (rw (same_sub_id_refl m.sub_id) (ground (arith, e)))
              | inr other ↦
                  let found = held.live x p (sym (put_other filters next x m heap other) ∙ there) in
                  elim (Bool-cases (p.conn_id == m.conn_id && same_sub_id m.sub_id p.sub_id)) [
                    | inr apart ↦ rw apart found
                    | inl alike ↦
                        let conn : p.conn_id ≡ m.conn_id =
                          (==_iff p.conn_id m.conn_id).0 (ground (arith, alike)) in
                        let named : same_sub_id m.sub_id p.sub_id ≡ true = ground (arith, alike) in
                        let found' : find_entry m.conn_id p.sub_id conns ≡ some x =
                          rw conn at found in
                        cc (find_entry_congr m.conn_id m.sub_id p.sub_id conns named, gone, found')
                  ]
            ];
        good = λ x p there. elim (Bool-cases (x == next)) [
          | inr other ↦ held.good x p (sym (put_other filters next x m heap other) ∙ there)
          | inl same ↦
              let e = (==_iff x next).0 same in
              let mp : m ≡ p = some-injective _ _ (
                sym (put_self filters next m heap)
                ∙ (ap (put filters next m heap) (sym e) ∙ there)) in
              subst (λ (p : Monitor filters). All (IsGood filters) p.filter_group) mp good
        ];
      }

  -- What a new subscription does: it is refused, or it is found and waits for events.
  pub record Watches (sub : Monitor filters) (seen : ℕ) (out : Bool × ActiveMonitors filters)
      : Type 0 where
    pub valid : IsValid filters out.1 seen
    pub refused : out.0 ≡ false → find_monitor filters sub.conn_id sub.sub_id out.1 ≡ none
    pub accepted :
        out.0 ≡ true
        → (a : ℕ) × (find_monitor filters sub.conn_id sub.sub_id out.1 ≡ some a)
          × (out.1.heap a ≡ some sub)

  added_steps :
      (max_subs curr : ℕ) (sub : Monitor filters) (s s1 s2 : ActiveMonitors filters)
      → sub.latest_event_id ≡ curr
      → remove_sub filters sub.conn_id sub.sub_id s ≡ ok s1
      → leb max_subs (length (entries sub.conn_id s1.conns)) ≡ false
      → install_lookups filters s1.next 0 sub.filter_group curr (record s1 {
        heap = put filters s1.next sub s1.heap;
        next = s1.next + 1;
        conns = add_entry sub.conn_id sub.sub_id s1.next s1.conns;
      })
        ≡ ok s2
      → add_sub filters max_subs sub curr s ≡ ok (true, s2)
  unfolding add_sub
  added_steps max_subs curr sub s s1 s2 fresh e room installed =
      let up_to_date : (sub.latest_event_id == curr) ≡ true =
        (==_iff sub.latest_event_id curr).1 fresh in
      rw (up_to_date, replace_sub-remove_sub sub.conn_id sub.sub_id s, e)
        (if-false _ _ room ∙ rw installed refl)

  refused_steps :
      (max_subs curr : ℕ) (sub : Monitor filters) (s s1 : ActiveMonitors filters)
      → sub.latest_event_id ≡ curr
      → remove_sub filters sub.conn_id sub.sub_id s ≡ ok s1
      → leb max_subs (length (entries sub.conn_id s1.conns)) ≡ true
      → add_sub filters max_subs sub curr s
        ≡ ok (false, record s1 { conns = touch_conn sub.conn_id s1.conns })
  unfolding add_sub
  refused_steps max_subs curr sub s s1 fresh e full =
      let up_to_date : (sub.latest_event_id == curr) ≡ true =
        (==_iff sub.latest_event_id curr).1 fresh in
      rw (up_to_date, replace_sub-remove_sub sub.conn_id sub.sub_id s, e) (if-true _ _ full)

  -- From a valid state, a subscription whose filters are good and that has seen the events up to the
  -- current one is added without an error, and the state is valid: either it is refused, and nothing
  -- is found under its id, or it is found under its id as it was given.
  pub add_sub-Watches :
      (max_subs curr seen : ℕ) (sub : Monitor filters) (s : ActiveMonitors filters)
      → IsValid filters s seen
      → All (IsGood filters) sub.filter_group
      → sub.latest_event_id ≡ curr
      → curr ≤ seen
      → (out : Bool × ActiveMonitors filters) × (add_sub filters max_subs sub curr s ≡ ok out)
        × Watches sub seen out
  unfolding find_monitor
  add_sub-Watches max_subs curr seen sub s valid good fresh le =
      let c = sub.conn_id in
      let k = sub.sub_id in
      let (s1, e, removes) = remove_sub-Forgets filters c k seen s valid in
      let gone : find_entry c k s1.conns ≡ none =
        removes.found c k ∙ if-true _ _ (alike_self c k) in
      let held = removes.valid.held in
      let inst = removes.valid.installed in
      elim (Bool-cases (leb max_subs (length (entries c s1.conns)))) [
        | inl full ↦ (
          (false, record s1 { conns = touch_conn c s1.conns }),
          refused_steps max_subs curr sub s s1 fresh e full,
          record {
            valid = record {
              held = record {
                fresh = held.fresh;
                indexed = AllEntries-touch_conn (IsHeldAt filters s1.heap) c s1.conns held.indexed;
                live = λ a m there.
                    find_entry-touch_conn c m.conn_id m.sub_id s1.conns ∙ held.live a m there;
                good = held.good;
              };
              installed = record {
                ids = inst.ids;
                authors = inst.authors;
                tags = inst.tags;
                kinds = inst.kinds;
                others = inst.others;
                others_for = inst.others_for;
              };
            };
            refused = λ r. find_entry-touch_conn c c k s1.conns ∙ gone;
            accepted = λ r. cc;
          },
        )
        | inr room ↦
            let t : ActiveMonitors filters = record s1 {
              heap = put filters s1.next sub s1.heap;
              next = s1.next + 1;
              conns = add_entry c k s1.next s1.conns;
            } in
            let (s2, e2, inst2, rest) =
              install_monitor filters s1.next sub s1.heap curr seen t
                (held.fresh s1.next (omega arith))
                (record {
                  ids = inst.ids;
                  authors = inst.authors;
                  tags = inst.tags;
                  kinds = inst.kinds;
                  others = inst.others;
                  others_for = inst.others_for;
                })
                le good in
            (
              (true, s2),
              added_steps max_subs curr sub s s1 s2 fresh e room e2,
              record {
                valid = record {
                  held =
                      subst₂ (λ (h : Heap filters) (l : Conns ℕ). IsHeld filters h s2.next l)
                        (sym rest.heap) (sym rest.conns)
                        (subst (λ (n : ℕ). IsHeld filters t.heap n t.conns) (sym rest.next)
                          (added-IsHeld sub s1.next s1.heap s1.conns held gone good));
                  installed =
                      subst (λ (h : Heap filters). IsInstalled filters s2 (view_of filters h) seen)
                        (sym rest.heap) inst2;
                };
                refused = λ r. cc;
                accepted = λ r. (
                  s1.next,
                  ap (λ (l : Conns ℕ). find_entry c k l) rest.conns
                      ∙ (find_entry-add_entry c c k k s1.next s1.conns
                          ∙ rw (same_sub_id_refl k) (ground arith)),
                  ap (λ (h : Heap filters). h s1.next) rest.heap
                      ∙ put_self filters s1.next sub s1.heap,
                );
              },
            )
      ]
