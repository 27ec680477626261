-- ===== src/Monitors/Nostr.antt =====
-- The filters of src/filters.h, over lists of values, as the filters of the active monitors.
use strfry_http.Base.{
  ℕ, ◌≡◌, refl, sym, ap₂, ◌∙◌, true, ◌&&◌, ◌||◌, List, [], ◌∷◌, arith, ◌==◌, Bytes, bytes_eq, drop,
  any, all, Result,
}
use strfry_http.Packed.{Encoding, id, pubkey, kind}
use strfry_http.Packed.Tags.{Tag, encode}
use strfry_http.Filter.Nostr.{does_match}
use strfry_http.Filter.Nostr.Match.{list_sets}
use strfry_http.Filter.Nostr.Meaning.{ListFilter, means, allowed, tag_allowed, does_match-means}
use strfry_http.Monitors.{Filters, ViewEvent}
use strfry_http.Monitors.Process.Delivers.{Decides, tag_among}

bytes_eq_comm : (a b : Bytes) → bytes_eq a b ≡ bytes_eq b a
unfolding bytes_eq
bytes_eq_comm [] [] = refl
bytes_eq_comm [] (y ∷ ys) = refl
bytes_eq_comm (x ∷ xs) [] = refl
bytes_eq_comm (x ∷ xs) (y ∷ ys) = ground (arith, bytes_eq_comm xs ys)

any_bytes_comm : (a : Bytes) (xs : List Bytes) → any (bytes_eq a) xs ≡ any (λ x. bytes_eq x a) xs
any_bytes_comm a [] = refl
any_bytes_comm a (x ∷ xs) = ap₂ ◌||◌ (bytes_eq_comm a x) (any_bytes_comm a xs)

tag_allowed-tag_among :
    (tags : List Tag) (t : ℕ × List Bytes) → tag_allowed tags t ≡ tag_among tags t
tag_allowed-tag_among [] (name, vals) = refl
tag_allowed-tag_among (e ∷ tags) (name, vals) =
    ap₂ (λ b c. (e.0 == name && b) || c) (any_bytes_comm e.1 vals)
      (tag_allowed-tag_among tags (name, vals))

module _ (from_hex : Bytes → Result Bytes) (enc : Encoding) where
  abbrev pub nostr_filters : Filters (ListFilter from_hex)
  nostr_filters = record {
    ids = λ f. f.ids;
    authors = λ f. f.authors;
    kinds = λ f. f.kinds;
    tags = λ f. f.tags;
    does_match = λ f v. does_match (list_sets from_hex) enc f v;
    kind = λ v. kind enc v;
  }

  module _ (ev : ViewEvent) (tags : List Tag) (f : ListFilter from_hex)
      (hit : means from_hex f enc ev.view tags ≡ true) where
    means_ids : allowed (bytes_eq (id ev.view)) f.ids ≡ true
    means_ids = ground (arith, hit)

    means_authors : allowed (bytes_eq (pubkey ev.view)) f.authors ≡ true
    means_authors = ground (arith, hit)

    means_kinds : allowed (λ m. m == kind enc ev.view) f.kinds ≡ true
    means_kinds = ground (arith, hit)

    means_tags : all (tag_allowed tags) f.tags ≡ true
    means_tags = ground (arith, hit)

  all-first :
      (tags : List Tag) (l : List (ℕ × List Bytes)) (t : ℕ × List Bytes)
      (ts : List (ℕ × List Bytes))
      → l ≡ t ∷ ts
      → all (tag_allowed tags) l ≡ true
      → tag_allowed tags t ≡ true
  all-first tags [] t ts e h = cc
  all-first tags (x ∷ xs) t ts e h = let same : x ≡ t = cc in rw (← same) (ground (arith, h))

  pub nostr_filters-Decides :
      (ev : ViewEvent) (tags : List Tag)
      → drop 88 ev.view.buf ≡ encode tags
      → Decides nostr_filters ev tags (λ f. means from_hex f enc ev.view tags)
  nostr_filters-Decides ev tags tagged = record {
    decided = λ f. does_match-means from_hex f enc ev.view tags tagged;
    ids_in = λ f xs hit e. sym (any_bytes_comm (id ev.view) xs) ∙ rw e at (means_ids ev tags f hit);
    authors_in = λ f xs hit e.
        sym (any_bytes_comm (pubkey ev.view) xs) ∙ rw e at (means_authors ev tags f hit);
    kinds_in = λ f ks hit e. rw e at (means_kinds ev tags f hit);
    tags_in = λ f t ts hit e.
        sym (tag_allowed-tag_among tags t)
        ∙ all-first tags f.tags t ts e (means_tags ev tags f hit);
  }
