-- ===== src/Monitors/Process/Settles.antt =====
-- A filter that matches an event is settled when all the indexes have been visited.
use strfry_http.Base.{
  mem, ℕ, ◌≡◌, refl, ap, ◌∙◌, subst, ◌↔◌, inl, inr, Bool, true, ◌&&◌, some, List, [], ◌∷◌, ◌++◌,
  map, arith, ◌==◌, ==_iff, Bool-cases, Option-cases, List-cases, Bytes, bytes_eq, All, any, all,
}
use strfry_http.Packed.{id, pubkey}
use strfry_http.Packed.Tags.{Tag}
use strfry_http.Monitors.{Filters, ViewEvent, ActiveMonitors, get_tag_spec, tag_specs}
use strfry_http.Monitors.Maps.{
  FilterPtr, MonitorMap, Order, bytes_order, number_order, in_set, stands,
}
use strfry_http.Monitors.Valid.{
  filter_of, view_of, id_keys, author_keys, tag_keys, kind_keys, is_other, asks, IsIndex,
  asks_other, IsInstalled,
}
use strfry_http.Monitors.Process.{Run}
use strfry_http.Monitors.Process.Sent.{IsSent, Settled, Earns}
use strfry_http.Monitors.Process.Delivers.{Decides, TagSettles, tag_among}

All-mem : (P : ℕ → Type 0) (a : ℕ) (ms : List ℕ) → All P ms → mem a ms ≡ true → P a
All-mem P a [] hs h = cc
All-mem P a (x ∷ ms) (p, ps) h = elim (Bool-cases (x == a)) [
  | inl same ↦ subst P ((==_iff x a).0 same) p
  | inr other ↦ All-mem P a ms ps (ground (arith, h, other))
]

-- A value of the filter's first tag that the event has is one of the keys.
any-map-get_tag_spec :
    (name : ℕ) (t : Tag) (vals : List Bytes)
    → (t.0 == name && any (λ x. bytes_eq x t.1) vals) ≡ true
    → any (λ k. bytes_eq k (get_tag_spec t.0 t.1)) (map (get_tag_spec name) vals) ≡ true
unfolding get_tag_spec bytes_eq
any-map-get_tag_spec name t [] h = ground (arith, h)
any-map-get_tag_spec name t (x ∷ vals) h = ground (arith, h, any-map-get_tag_spec name t vals)

any-append {ℓ} :
    {A : Type ℓ} (p : A → Bool) (xs ys : List A) → any p xs ≡ true → any p (xs ++ ys) ≡ true
any-append p [] ys h = cc
any-append p (x ∷ xs) ys h = ground (arith, h, any-append p xs ys)

module _ {F : Type 0} (filters : Filters F) where
  module _ (ev : ViewEvent) (tags : List Tag) (matches : F → Bool)
      (decides : Decides filters ev tags matches) (s : ActiveMonitors filters) (seen : ℕ) where
    abbrev Settles : FilterPtr → List ℕ → Type 0
    Settles = Settled filters ev s.heap matches

    -- A filter that asks for a key stands under it.
    asked_stands :
        {K : Type 0} (order : Order K) (keys : F → List K) (m : MonitorMap K) (k : K)
        (p : FilterPtr) (f : F)
        → IsIndex filters order keys m (view_of filters s.heap) seen
        → filter_of filters p s.heap ≡ some f
        → any (λ j. order.eq j k) (keys f) ≡ true
        → stands order k p m ≡ true
    asked_stands order keys m k p f index there h =
        index.stands_for k p ∙ (ap (asks filters order keys k) there ∙ h)

    -- What is known of a pointer when all the indexes have been visited.
    pub record AllSettled (ms : List ℕ) : Type 0 where
      pub by_id :
          (p : FilterPtr) → stands bytes_order (id ev.view) p s.all_ids ≡ true → Settles p ms
      pub by_author :
          (p : FilterPtr)
          → stands bytes_order (pubkey ev.view) p s.all_authors ≡ true
          → Settles p ms
      pub by_tag : All (TagSettles filters ev tags s.heap matches decides s.all_tags ms) tags
      pub by_kind :
          (p : FilterPtr)
          → stands number_order (filters.kind ev.view) p s.all_kinds ≡ true
          → Settles p ms
      pub by_other : (p : FilterPtr) → in_set p s.all_others ≡ true → Settles p ms

    tag_settled :
        (some_tags : List Tag) (ms : List ℕ) (p : FilterPtr) (f : F) (t : ℕ × List Bytes)
        (ts : List (ℕ × List Bytes))
        → IsIndex filters bytes_order (tag_keys filters) s.all_tags (view_of filters s.heap) seen
        → filter_of filters p s.heap ≡ some f
        → tag_keys filters f ≡ tag_specs (t ∷ ts)
        → All (TagSettles filters ev tags s.heap matches decides s.all_tags ms) some_tags
        → tag_among some_tags t ≡ true
        → Settles p ms
    unfolding tag_specs
    tag_settled [] ms p f t ts index there keys hs h = cc
    tag_settled (e ∷ es) ms p f (name, vals) ts index there keys (settled, hs) h =
        elim (Bool-cases (e.0 == name && any (λ x. bytes_eq x e.1) vals)) [
          | inr miss ↦
              tag_settled es ms p f (name, vals) ts index there keys hs (ground (arith, h, miss))
          | inl hit ↦
              let listed =
                any-append (λ k. bytes_eq k (get_tag_spec e.0 e.1)) (map (get_tag_spec name) vals)
                  (tag_specs ts) (any-map-get_tag_spec name e vals hit) in
              settled p (
                asked_stands bytes_order (tag_keys filters) s.all_tags (get_tag_spec e.0 e.1) p f
                  index there (ap (any (λ k. bytes_eq k (get_tag_spec e.0 e.1))) keys ∙ listed))
        ]

    -- A filter that matches was visited under what it asks for.
    matched-Settles :
        (ms : List ℕ) (p : FilterPtr) (f : F)
        → IsInstalled filters s (view_of filters s.heap) seen
        → AllSettled ms
        → filter_of filters p s.heap ≡ some f
        → matches f ≡ true
        → Settles p ms
    unfolding id_keys author_keys tag_keys kind_keys is_other
    matched-Settles ms p f inst all there hit = elim (Option-cases (filters.ids f)) [
      | inr (xs, e) ↦ all.by_id p (
          asked_stands bytes_order (id_keys filters) s.all_ids (id ev.view) p f inst.ids there
            (rw (id_keys, e) (decides.ids_in f xs hit e)))
      | inl no_ids ↦ elim (Option-cases (filters.authors f)) [
        | inr (xs, e) ↦ all.by_author p (
            asked_stands bytes_order (author_keys filters) s.all_authors (pubkey ev.view) p f
              inst.authors there (rw (author_keys, no_ids, e) (decides.authors_in f xs hit e)))
        | inl no_authors ↦ elim (List-cases (filters.tags f)) [
          | inr (t, ts, e) ↦
              tag_settled tags ms p f t ts inst.tags there
                (rw (tag_keys, no_ids, no_authors, e) refl) all.by_tag
                (decides.tags_in f t ts hit e)
          | inl no_tags ↦ elim (Option-cases (filters.kinds f)) [
            | inr (ks, e) ↦ all.by_kind p (
                asked_stands number_order (kind_keys filters) s.all_kinds (filters.kind ev.view) p f
                  inst.kinds there
                  (rw (kind_keys, no_ids, no_authors, no_tags, e) (decides.kinds_in f ks hit e)))
            | inl no_kinds ↦ all.by_other p (
                inst.others_for p
                ∙ (ap (asks_other filters) there
                    ∙ rw (is_other, no_ids, no_authors, no_tags, no_kinds) refl))
          ]
        ]
      ]
    ]

    -- When all the filters are settled, the monitors that were sent the event are those that earn it.
    pub settled-exactly :
        (ms : List ℕ) (r : Run filters)
        → IsInstalled filters s (view_of filters s.heap) seen
        → IsSent filters ev s.heap matches r ms
        → AllSettled ms
        → (a : ℕ) → (mem a ms ≡ true) ↔ Earns filters ev s.heap matches a
    settled-exactly ms r inst sent all a = (
      All-mem (Earns filters ev s.heap matches) a ms sent.earned,
      λ e.
          matched-Settles ms (record { monitor = a; index = e.index }) e.filter inst all e.there
            e.hit e.filter e.there e.hit e.waiting,
    )
