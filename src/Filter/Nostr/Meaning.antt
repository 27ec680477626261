-- ===== src/Filter/Nostr/Meaning.antt =====
-- The conditions of a filter, on lists of values and a list of tags, and the proof that `doesMatch`
-- over lists decides them.
use strfry_http.Base.{
  ℕ, ◌≡◌, refl, Bool, true, false, not, ◌&&◌, List, [], ◌∷◌, Option, none, some, Bytes, bytes_eq,
  Result, ok, any, all, leb, ◌==◌, arith, drop,
}
use strfry_http.Packed.{Encoding, PackedEventView, id, pubkey, created_at, kind}
use strfry_http.Packed.Tags.{Tag, walk, encode, foreach_tag-encode}
use strfry_http.Filter.Nostr.{
  NostrFilter, does_match_times, allows_string, allows_number, find_tag, matches_tags, does_match,
}
use strfry_http.Filter.Nostr.Match.{list_sets}

abbrev pub allowed {ℓ} : {A : Type ℓ} → (A → Bool) → Option (List A) → Bool
allowed p none = true
allowed p (some xs) = any p xs

-- Some tag of the event has the name, and one of the values.
abbrev pub tag_allowed : List Tag → ℕ × List Bytes → Bool
tag_allowed tags (tag, xs) = any (λ t. t.0 == tag && any (bytes_eq t.1) xs) tags

module _ (from_hex : Bytes → Result Bytes) where
  abbrev pub ListFilter : Type 0
  ListFilter = NostrFilter (list_sets from_hex)

  -- The conjunction of the filter's conditions.
  abbrev pub means : ListFilter → Encoding → PackedEventView → List Tag → Bool
  means f enc ev tags =
      not f.never_match
      && (leb f.since (created_at enc ev)
          && (leb (created_at enc ev) f.until
              && (allowed (bytes_eq (id ev)) f.ids
                  && (allowed (bytes_eq (pubkey ev)) f.authors
                      && (allowed (λ m. m == kind enc ev) f.kinds
                          && all (tag_allowed tags) f.tags)))))

  walk-find_tag :
      (tag : ℕ) (xs : List Bytes) (tags : List Tag)
      → walk (find_tag (list_sets from_hex) tag xs) false tags ≡ ok (tag_allowed tags (tag, xs))
  unfolding find_tag
  walk-find_tag tag xs [] = refl
  walk-find_tag tag xs ((n, v) ∷ tags) = ground (arith, walk-find_tag tag xs tags)

  matches_tags-all :
      (fs : List (ℕ × List Bytes)) (ev : PackedEventView) (tags : List Tag)
      → drop 88 ev.buf ≡ encode tags
      → matches_tags (list_sets from_hex) fs ev ≡ ok (all (tag_allowed tags) fs)
  unfolding matches_tags
  matches_tags-all [] ev tags h = refl
  matches_tags-all ((tag, xs) ∷ fs) ev tags h =
      rw
        (
          foreach_tag-encode (find_tag (list_sets from_hex) tag xs) tags false ev h,
          walk-find_tag tag xs tags,
          matches_tags-all fs ev tags h,
        )
        (ground arith)

  allows_string-allowed :
      (s : Option (List Bytes)) (x : Bytes)
      → allows_string (list_sets from_hex) s x ≡ ok (allowed (bytes_eq x) s)
  unfolding allows_string
  allows_string-allowed none x = refl
  allows_string-allowed (some xs) x = refl

  allows_number-allowed :
      (s : Option (List ℕ)) (x : ℕ)
      → allows_number (list_sets from_hex) s x ≡ ok (allowed (λ m. m == x) s)
  unfolding allows_number
  allows_number-allowed none x = refl
  allows_number-allowed (some xs) x = refl

  pub does_match-means :
      (f : ListFilter) (enc : Encoding) (ev : PackedEventView) (tags : List Tag)
      → drop 88 ev.buf ≡ encode tags
      → does_match (list_sets from_hex) enc f ev ≡ ok (means f enc ev tags)
  unfolding does_match does_match_times
  does_match-means f enc ev tags h = ground (
    arith,
    allows_string-allowed f.ids (id ev),
    allows_string-allowed f.authors (pubkey ev),
    allows_number-allowed f.kinds (kind enc ev),
    matches_tags-all f.tags ev tags h,
  )
