-- ===== src/Monitors/Views.antt =====
-- The filters that the indexes hold while a monitor's filters are installed one by one.
use strfry_http.Base.{
  ℕ, zero, suc, ◌+◌, ◌≤◌, ◌<◌, ◌≡◌, refl, sym, ap, ◌∙◌, subst, ◌≢◌, inl, inr, true, false, Option,
  none, List, [], ◌∷◌, arith, ◌==◌, ==_iff, if-true, if-false, Bool-cases, get_elem?, All, ok,
}
use mathlib.Core.Path.{fun_ext}
use strfry_http.Monitors.{Filters, Monitor, Heap, ActiveMonitors, install_lookups, put}
use strfry_http.Monitors.Maps.{FilterPtr, MonitorItem, same_ptr}
use strfry_http.Monitors.Valid.{IsGood, place, view_of, IsInstalled}
use strfry_http.Monitors.Installs.{added, installed, installed-IsInstalled, install_filter_lem}

abbrev pub ptr : ℕ → ℕ → FilterPtr
ptr a i = record { monitor = a; index = i }

pub ptr-other : (a i : ℕ) (q : FilterPtr) → (q.monitor == a) ≡ false → same_ptr (ptr a i) q ≡ false
unfolding same_ptr
ptr-other a i q h = ground (arith, h)

pub ptr-ne : (a i j : ℕ) → i ≢ j → same_ptr (ptr a i) (ptr a j) ≡ false
unfolding same_ptr
ptr-ne a i j h = ground (arith, h)

pub ptr-eq : (a i j : ℕ) → i ≡ j → same_ptr (ptr a i) (ptr a j) ≡ true
unfolding same_ptr
ptr-eq a i j h = ground (arith, h)

module _ {F : Type 0} (filters : Filters F) where
  -- The filters with those of a monitor, from a place on.
  abbrev extended : ℕ → ℕ → List F → (FilterPtr → Option F) → FilterPtr → Option F
  extended a i [] view = view
  extended a i (f ∷ fs) view = extended a (i + 1) fs (added filters (ptr a i) f view)

  extended_other :
      (a i : ℕ) (fs : List F) (view : FilterPtr → Option F) (q : FilterPtr)
      → (q.monitor == a) ≡ false
      → extended a i fs view q ≡ view q
  extended_other a i [] view q h = refl
  extended_other a i (f ∷ fs) view q h =
      extended_other a (i + 1) fs (added filters (ptr a i) f view) q h
      ∙ if-false _ _ (ptr-other a i q h)

  extended_before :
      (a i j : ℕ) (fs : List F) (view : FilterPtr → Option F)
      → j < i
      → extended a i fs view (ptr a j) ≡ view (ptr a j)
  extended_before a i j [] view h = refl
  extended_before a i j (f ∷ fs) view h =
      extended_before a (i + 1) j fs (added filters (ptr a i) f view) (omega arith)
      ∙ if-false _ _ (ptr-ne a i j (λ e. absurd (omega arith)))

  extended_at :
      (a i j : ℕ) (fs : List F) (view : FilterPtr → Option F)
      → ((l : ℕ) → i ≤ l → view (ptr a l) ≡ none)
      → extended a i fs view (ptr a (i + j)) ≡ get_elem? fs j
  extended_at a i j [] view new = new (i + j) (omega arith)
  extended_at a i zero (f ∷ fs) view new =
      extended_before a (i + 1) (i + 0) fs (added filters (ptr a i) f view) (omega arith)
      ∙ if-true _ _ (ptr-eq a i (i + 0) (omega arith))
  extended_at a i (suc j) (f ∷ fs) view new =
      let e : i + suc j ≡ (i + 1) + j = omega arith in
      ap (λ (l : ℕ). extended a (i + 1) fs (added filters (ptr a i) f view) (ptr a l)) e
      ∙ extended_at a (i + 1) j fs (added filters (ptr a i) f view)
          (λ l h. if-false _ _ (ptr-ne a i l (λ e'. absurd (omega arith))) ∙ new l (omega arith))

  -- The operation touched the indexes only.
  pub record SameRest (s s' : ActiveMonitors filters) : Type 0 where
    pub heap : s'.heap ≡ s.heap
    pub next : s'.next ≡ s.next
    pub conns : s'.conns ≡ s.conns

  install_lookups-IsInstalled :
      (a i : ℕ) (fs : List F) (curr seen : ℕ) (view : FilterPtr → Option F)
      (s : ActiveMonitors filters)
      → IsInstalled filters s view seen
      → ((l : ℕ) → i ≤ l → view (ptr a l) ≡ none)
      → curr ≤ seen
      → All (IsGood filters) fs
      → (s' : ActiveMonitors filters) × (install_lookups filters a i fs curr s ≡ ok s')
        × IsInstalled filters s' (extended a i fs view) seen
        × SameRest s s'
  unfolding install_lookups
  install_lookups-IsInstalled a i [] curr seen view s inst new le good =
      (s, refl, inst, record { heap = refl; next = refl; conns = refl })
  install_lookups-IsInstalled a i (f ∷ fs) curr seen view s inst new le (g, good) =
      let p = ptr a i in
      let item : MonitorItem = record { mon = a; latest_event_id = curr } in
      let s1 = installed filters p f item view seen (new i (omega arith)) refl le s in
      let (s', e, inst', rest) =
        install_lookups-IsInstalled a (i + 1) fs curr seen (added filters p f view) s1
          (installed-IsInstalled filters p f item view seen (new i (omega arith)) refl le s inst)
          (λ l h. if-false _ _ (ptr-ne a i l (λ e'. absurd (omega arith))) ∙ new l (omega arith)) le
          good in
      (
        s',
        rw (install_filter_lem filters p f item view seen (new i (omega arith)) refl le s g) e,
        inst',
        record { heap = rest.heap; next = rest.next; conns = rest.conns },
      )

  -- The filters of a new monitor.
  extended-put :
      (a : ℕ) (m : Monitor filters) (heap : Heap filters) (q : FilterPtr)
      → heap a ≡ none
      → extended a 0 m.filter_group (view_of filters heap) q
        ≡ view_of filters (put filters a m heap) q
  unfolding put
  extended-put a m heap q new = elim (Bool-cases (q.monitor == a)) [
    | inr other ↦
        extended_other a 0 m.filter_group (view_of filters heap) q other
        ∙ ap (λ o. place filters o q.index) (sym (if-false _ _ other))
    | inl same ↦
        let e : q.monitor ≡ a = (==_iff q.monitor a).0 same in
        let at : ptr a (0 + q.index) ≡ q =
          λ j. record { monitor = sym e j; index = zero_add q.index j } in
        ap (extended a 0 m.filter_group (view_of filters heap)) (sym at)
        ∙ (extended_at a 0 q.index m.filter_group (view_of filters heap)
              (λ l h. ap (λ o. place filters o l) new)
            ∙ ap (λ o. place filters o q.index) (sym (if-true _ _ same)))
  ]
    where
      zero_add : (n : ℕ) → 0 + n ≡ n
      zero_add n = omega arith

  -- Installing a new monitor's lookups succeeds, and the indexes hold its filters too.
  pub install_monitor :
      (a : ℕ) (m : Monitor filters) (heap : Heap filters) (curr seen : ℕ)
      (s : ActiveMonitors filters)
      → heap a ≡ none
      → IsInstalled filters s (view_of filters heap) seen
      → curr ≤ seen
      → All (IsGood filters) m.filter_group
      → (s' : ActiveMonitors filters) × (install_lookups filters a 0 m.filter_group curr s ≡ ok s')
        × IsInstalled filters s' (view_of filters (put filters a m heap)) seen
        × SameRest s s'
  install_monitor a m heap curr seen s new inst le good =
      let (s', e, inst', rest) =
        install_lookups-IsInstalled a 0 m.filter_group curr seen (view_of filters heap) s inst
          (λ l h. ap (λ o. place filters o l) new) le good in
      (
        s',
        e,
        subst (λ v. IsInstalled filters s' v seen) (fun_ext (λ q. extended-put a m heap q new))
            inst',
        rest,
      )
