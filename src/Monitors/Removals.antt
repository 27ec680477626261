-- ===== src/Monitors/Removals.antt =====
-- `removeSub`: the monitor is gone from the indexes and from the map of connections.
use strfry_http.Base.{
  ℕ, zero, suc, ◌+◌, ◌<◌, ◌≡◌, refl, sym, ap, ◌∙◌, subst, inl, inr, false, Option, none, some, List,
  [], ◌∷◌, arith, ◌==◌, ==_iff, if◌then◌else◌, if-true, if-false, Bool-cases, get_elem?, All, ok,
}
use mathlib.Core.Path.{fun_ext}
use strfry_http.Monitors.{
  Filters, Monitor, Heap, ActiveMonitors, uninstall_filter, uninstall_lookups, uninstall_monitor,
  free, deref,
}
use strfry_http.Monitors.Maps.{FilterPtr, bytes_order, number_order, erase_ptr}
use strfry_http.Monitors.Valid.{
  id_keys, author_keys, tag_keys, kind_keys, is_other, IsGood, place, view_of, IsInstalled,
}
use strfry_http.Monitors.Uninstalls.{
  removed, uninstalled-IsIndex, uninstall_filter_lem, in_set-removed, AllSet-removed,
}
use strfry_http.Monitors.Views.{ptr, ptr-other, ptr-ne, ptr-eq, SameRest}

module _ {F : Type 0} (filters : Filters F) where
  -- Taking one filter away succeeds.
  uninstall_filter-IsInstalled :
      (p : FilterPtr) (f : F) (view : FilterPtr → Option F) (seen : ℕ) (s : ActiveMonitors filters)
      → view p ≡ some f
      → IsGood filters f
      → IsInstalled filters s view seen
      → (s' : ActiveMonitors filters) × (uninstall_filter filters p f s ≡ ok s')
        × IsInstalled filters s' (removed filters p view) seen
        × SameRest filters s s'
  uninstall_filter-IsInstalled p f view seen s there good inst =
      let (m1, e1, i1) =
        uninstalled-IsIndex filters p f view seen there bytes_order (id_keys filters) s.all_ids
          good.ids_once inst.ids in
      let (m2, e2, i2) =
        uninstalled-IsIndex filters p f view seen there bytes_order (author_keys filters)
          s.all_authors good.authors_once inst.authors in
      let (m3, e3, i3) =
        uninstalled-IsIndex filters p f view seen there bytes_order (tag_keys filters) s.all_tags
          good.tags_once inst.tags in
      let (m4, e4, i4) =
        uninstalled-IsIndex filters p f view seen there number_order (kind_keys filters) s.all_kinds
          good.kinds_once inst.kinds in
      (
        record s {
          all_ids = m1;
          all_authors = m2;
          all_tags = m3;
          all_kinds = m4;
          all_others = if is_other filters f then erase_ptr p s.all_others else s.all_others;
        },
        uninstall_filter_lem filters p f view seen there s m1 m2 m3 m4 good e1 e2 e3 e4,
        record {
          ids = i1;
          authors = i2;
          tags = i3;
          kinds = i4;
          others =
              AllSet-removed filters p f view seen there (is_other filters f) s.all_others refl
                inst.others inst.others_for;
          others_for = λ q.
              in_set-removed filters p f view seen there (is_other filters f) q s.all_others refl
                (inst.others_for q);
        },
        record { heap = refl; next = refl; conns = refl },
      )

  -- The filters without those of a monitor, from a place on.
  abbrev shrunk : ℕ → ℕ → List F → (FilterPtr → Option F) → FilterPtr → Option F
  shrunk a i [] view = view
  shrunk a i (f ∷ fs) view = shrunk a (i + 1) fs (removed filters (ptr a i) view)

  shrunk_other :
      (a i : ℕ) (fs : List F) (view : FilterPtr → Option F) (q : FilterPtr)
      → (q.monitor == a) ≡ false
      → shrunk a i fs view q ≡ view q
  shrunk_other a i [] view q h = refl
  shrunk_other a i (f ∷ fs) view q h =
      shrunk_other a (i + 1) fs (removed filters (ptr a i) view) q h
      ∙ if-false _ _ (ptr-other a i q h)

  shrunk_before :
      (a i j : ℕ) (fs : List F) (view : FilterPtr → Option F)
      → j < i
      → shrunk a i fs view (ptr a j) ≡ view (ptr a j)
  shrunk_before a i j [] view h = refl
  shrunk_before a i j (f ∷ fs) view h =
      shrunk_before a (i + 1) j fs (removed filters (ptr a i) view) (omega arith)
      ∙ if-false _ _ (ptr-ne a i j (λ e. absurd (omega arith)))

  -- The places from `i` on hold the filters `fs`.
  abbrev Holds : ℕ → ℕ → List F → (FilterPtr → Option F) → Type 0
  Holds a i fs view = (j : ℕ) → view (ptr a (i + j)) ≡ get_elem? fs j

  Holds-first :
      (a i : ℕ) (f : F) (fs : List F) (view : FilterPtr → Option F)
      → Holds a i (f ∷ fs) view
      → view (ptr a i) ≡ some f
  Holds-first a i f fs view h =
      let e : i ≡ i + 0 = omega arith in ap (λ (l : ℕ). view (ptr a l)) e ∙ h 0

  Holds-rest :
      (a i : ℕ) (f : F) (fs : List F) (view : FilterPtr → Option F)
      → Holds a i (f ∷ fs) view
      → Holds a (i + 1) fs (removed filters (ptr a i) view)
  Holds-rest a i f fs view h j =
      let e : (i + 1) + j ≡ i + suc j = omega arith in
      if-false _ _ (ptr-ne a i ((i + 1) + j) (λ e'. absurd (omega arith)))
      ∙ (ap (λ (l : ℕ). view (ptr a l)) e ∙ h (suc j))

  shrunk_at :
      (a i j : ℕ) (fs : List F) (view : FilterPtr → Option F)
      → Holds a i fs view
      → shrunk a i fs view (ptr a (i + j)) ≡ none
  shrunk_at a i j [] view h = h j
  shrunk_at a i zero (f ∷ fs) view h =
      shrunk_before a (i + 1) (i + 0) fs (removed filters (ptr a i) view) (omega arith)
      ∙ if-true _ _ (ptr-eq a i (i + 0) (omega arith))
  shrunk_at a i (suc j) (f ∷ fs) view h =
      let e : i + suc j ≡ (i + 1) + j = omega arith in
      ap (λ (l : ℕ). shrunk a (i + 1) fs (removed filters (ptr a i) view) (ptr a l)) e
      ∙ shrunk_at a (i + 1) j fs (removed filters (ptr a i) view) (Holds-rest a i f fs view h)

  uninstall_lookups-IsInstalled :
      (a i : ℕ) (fs : List F) (seen : ℕ) (view : FilterPtr → Option F) (s : ActiveMonitors filters)
      → IsInstalled filters s view seen
      → Holds a i fs view
      → All (IsGood filters) fs
      → (s' : ActiveMonitors filters) × (uninstall_lookups filters a i fs s ≡ ok s')
        × IsInstalled filters s' (shrunk a i fs view) seen
        × SameRest filters s s'
  unfolding uninstall_lookups
  uninstall_lookups-IsInstalled a i [] seen view s inst holds good =
      (s, refl, inst, record { heap = refl; next = refl; conns = refl })
  uninstall_lookups-IsInstalled a i (f ∷ fs) seen view s inst holds (g, good) =
      let (s1, e1, inst1, rest1) =
        uninstall_filter-IsInstalled (ptr a i) f view seen s (Holds-first a i f fs view holds) g
          inst in
      let (s2, e2, inst2, rest2) =
        uninstall_lookups-IsInstalled a (i + 1) fs seen (removed filters (ptr a i) view) s1 inst1
          (Holds-rest a i f fs view holds) good in
      (
        s2,
        rw e1 e2,
        inst2,
        record {
          heap = rest2.heap ∙ rest1.heap;
          next = rest2.next ∙ rest1.next;
          conns = rest2.conns ∙ rest1.conns;
        },
      )

  shrunk-free :
      (a : ℕ) (m : Monitor filters) (heap : Heap filters) (q : FilterPtr)
      → heap a ≡ some m
      → shrunk a 0 m.filter_group (view_of filters heap) q ≡ view_of filters (free filters a heap) q
  unfolding free
  shrunk-free a m heap q there = elim (Bool-cases (q.monitor == a)) [
    | inr other ↦
        shrunk_other a 0 m.filter_group (view_of filters heap) q other
        ∙ ap (λ o. place filters o q.index) (sym (if-false _ _ other))
    | inl same ↦
        let e : q.monitor ≡ a = (==_iff q.monitor a).0 same in
        let at : ptr a (0 + q.index) ≡ q =
          λ j. record { monitor = sym e j; index = zero_add q.index j } in
        ap (shrunk a 0 m.filter_group (view_of filters heap)) (sym at)
        ∙ (shrunk_at a 0 q.index m.filter_group (view_of filters heap) (held_from m there)
            ∙ ap (λ o. place filters o q.index) (sym (if-true _ _ same)))
  ]
    where
      zero_add : (n : ℕ) → 0 + n ≡ n
      zero_add n = omega arith

      held_from :
          (m' : Monitor filters)
          → heap a ≡ some m'
          → Holds a 0 m'.filter_group (view_of filters heap)
      held_from m' e j =
          ap (λ o. place filters o (0 + j)) e ∙ ap (get_elem? m'.filter_group) (zero_add j)

  -- Uninstalling the lookups of a monitor that is allocated succeeds, and the indexes hold what they
  -- hold without it.
  pub uninstall_monitor_lem :
      (a : ℕ) (m : Monitor filters) (seen : ℕ) (s : ActiveMonitors filters)
      → s.heap a ≡ some m
      → IsInstalled filters s (view_of filters s.heap) seen
      → All (IsGood filters) m.filter_group
      → (s' : ActiveMonitors filters) × (uninstall_monitor filters a s ≡ ok s')
        × IsInstalled filters s' (view_of filters (free filters a s.heap)) seen
        × SameRest filters s s'
  unfolding uninstall_monitor deref
  uninstall_monitor_lem a m seen s there inst good =
      let holds : Holds a 0 m.filter_group (view_of filters s.heap) =
        λ j. ap (λ o. place filters o (0 + j)) there ∙ ap (get_elem? m.filter_group) (zero_add j) in
      let (s', e, inst', rest) =
        uninstall_lookups-IsInstalled a 0 m.filter_group seen (view_of filters s.heap) s inst holds
          good in
      (
        s',
        rw (uninstall_monitor, deref, there) e,
        subst (λ v. IsInstalled filters s' v seen) (fun_ext (λ q. shrunk-free a m s.heap q there))
            inst',
        rest,
      )
    where
      zero_add : (n : ℕ) → 0 + n ≡ n
      zero_add n = omega arith
