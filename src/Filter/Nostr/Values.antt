-- ===== src/Filter/Nostr/Values.antt =====
-- The members `ids`, `authors`, `kinds` and those of the tags.
use strfry_http.Base.{
  ℕ, ◌≡◌, refl, sym, ap, ◌∙◌, Bool, true, false, not, ◌&&◌, ◌||◌, List, [], ◌∷◌, ◌++◌, some, Bytes,
  bytes_eq, codes, first_of_bytes, get_or, leb, ◌==◌, Result, any, all, arith,
}
use strfry_http.Base.Json.{Json, is_empty_array}
use strfry_http.Packed.{Encoding, PackedEventView, id, pubkey, created_at, kind}
use strfry_http.Packed.Tags.{Tag}
use strfry_http.Filter.Nostr.{emplace, has_tag}
use strfry_http.Filter.Nostr.Match.{list_sets}
use strfry_http.Filter.Nostr.Meaning.{ListFilter, allowed, tag_allowed}
use strfry_http.Filter.Nostr.Written.{elements, is_the_number, is_the_string, meets}
use strfry_http.Filter.Nostr.Conditions.{
  read, or_false, any_congr, all-append, all_of, ids_last, authors_last, kinds_last, tags_last,
}
use strfry_http.Filter.Nostr.Fresh.{
  Fresh, Fresh-more, is_read, unread, has_tag-append, other_tag, Reads,
}

module _ (from_hex : Bytes → Result Bytes) (enc : Encoding) (ev : PackedEventView)
    (tags : List Tag) where
  abbrev by_ids : ListFilter from_hex → Bool → Bool
  by_ids f b =
      all_of (not f.never_match) (leb f.since (created_at enc ev)) (leb (created_at enc ev) f.until)
        b (allowed (bytes_eq (pubkey ev)) f.authors) (allowed (λ m. m == kind enc ev) f.kinds)
        (all (tag_allowed tags) f.tags)

  pub Reads-ids :
      (k : Bytes) (v : Json) (seen : List Bytes) (f : ListFilter from_hex) (xs : List Bytes)
      → Fresh from_hex seen f
      → read k seen ≡ false
      → is_empty_array v ≡ false
      → bytes_eq k (codes "ids") ≡ true
      → any (bytes_eq (id ev)) xs ≡ any (is_the_string from_hex true (id ev)) (elements v)
      → Reads from_hex enc ev tags seen k v f (record f { ids = some xs })
  Reads-ids k v seen f xs fresh new some_there is_ids e =
      let nothing = fresh.ids (unread from_hex k (codes "ids") seen is_ids new) in
      let more = Fresh-more from_hex k seen f fresh in
      let asked : meets from_hex enc ev tags (k, v)
          ≡ any (is_the_string from_hex true (id ev)) (elements v) =
        rw (some_there, is_ids) refl in
      (
        record {
          ids = λ h. is_read from_hex k (codes "ids") seen is_ids h;
          authors = more.authors;
          kinds = more.kinds;
          since = more.since;
          until = more.until;
          tags = more.tags;
        },
        ap (by_ids f) (e ∙ sym asked)
            ∙ (ids_last (not f.never_match) (leb f.since (created_at enc ev))
                  (leb (created_at enc ev) f.until) (meets from_hex enc ev tags (k, v))
                  (allowed (bytes_eq (pubkey ev)) f.authors)
                  (allowed (λ m. m == kind enc ev) f.kinds) (all (tag_allowed tags) f.tags)
                ∙ ap
                    (λ o.
                      by_ids f (allowed (bytes_eq (id ev)) o) && meets from_hex enc ev tags (k, v))
                    (sym nothing)),
      )

  abbrev by_authors : ListFilter from_hex → Bool → Bool
  by_authors f b =
      all_of (not f.never_match) (leb f.since (created_at enc ev)) (leb (created_at enc ev) f.until)
        (allowed (bytes_eq (id ev)) f.ids) b (allowed (λ m. m == kind enc ev) f.kinds)
        (all (tag_allowed tags) f.tags)

  pub Reads-authors :
      (k : Bytes) (v : Json) (seen : List Bytes) (f : ListFilter from_hex) (xs : List Bytes)
      → Fresh from_hex seen f
      → read k seen ≡ false
      → is_empty_array v ≡ false
      → bytes_eq k (codes "ids") ≡ false
      → bytes_eq k (codes "authors") ≡ true
      → any (bytes_eq (pubkey ev)) xs ≡ any (is_the_string from_hex true (pubkey ev)) (elements v)
      → Reads from_hex enc ev tags seen k v f (record f { authors = some xs })
  Reads-authors k v seen f xs fresh new some_there n1 at_key e =
      let first = fresh.authors (unread from_hex k (codes "authors") seen at_key new) in
      let more = Fresh-more from_hex k seen f fresh in
      let asked : meets from_hex enc ev tags (k, v)
          ≡ any (is_the_string from_hex true (pubkey ev)) (elements v) =
        rw (some_there, n1, at_key) refl in
      (
        record {
          ids = more.ids;
          authors = λ h. is_read from_hex k (codes "authors") seen at_key h;
          kinds = more.kinds;
          since = more.since;
          until = more.until;
          tags = more.tags;
        },
        ap (by_authors f) (e ∙ sym asked)
            ∙ (authors_last (not f.never_match) (leb f.since (created_at enc ev))
                  (leb (created_at enc ev) f.until) (allowed (bytes_eq (id ev)) f.ids)
                  (meets from_hex enc ev tags (k, v)) (allowed (λ m. m == kind enc ev) f.kinds)
                  (all (tag_allowed tags) f.tags)
                ∙ ap
                    (λ o.
                      by_authors f (allowed (bytes_eq (pubkey ev)) o)
                      && meets from_hex enc ev tags (k, v))
                    (sym first)),
      )

  abbrev by_kinds : ListFilter from_hex → Bool → Bool
  by_kinds f b =
      all_of (not f.never_match) (leb f.since (created_at enc ev)) (leb (created_at enc ev) f.until)
        (allowed (bytes_eq (id ev)) f.ids) (allowed (bytes_eq (pubkey ev)) f.authors) b
        (all (tag_allowed tags) f.tags)

  pub Reads-kinds :
      (k : Bytes) (v : Json) (seen : List Bytes) (f : ListFilter from_hex) (ns : List ℕ)
      → Fresh from_hex seen f
      → read k seen ≡ false
      → is_empty_array v ≡ false
      → bytes_eq k (codes "ids") ≡ false
      → bytes_eq k (codes "authors") ≡ false
      → bytes_eq k (codes "kinds") ≡ true
      → any (λ m. m == kind enc ev) ns ≡ any (is_the_number (kind enc ev)) (elements v)
      → Reads from_hex enc ev tags seen k v f (record f { kinds = some ns })
  Reads-kinds k v seen f ns fresh new some_there n1 n2 at_key e =
      let first = fresh.kinds (unread from_hex k (codes "kinds") seen at_key new) in
      let more = Fresh-more from_hex k seen f fresh in
      let asked : meets from_hex enc ev tags (k, v)
          ≡ any (is_the_number (kind enc ev)) (elements v) =
        rw (some_there, n1, n2, at_key) refl in
      (
        record {
          ids = more.ids;
          authors = more.authors;
          kinds = λ h. is_read from_hex k (codes "kinds") seen at_key h;
          since = more.since;
          until = more.until;
          tags = more.tags;
        },
        ap (by_kinds f) (e ∙ sym asked)
            ∙ (kinds_last (not f.never_match) (leb f.since (created_at enc ev))
                  (leb (created_at enc ev) f.until) (allowed (bytes_eq (id ev)) f.ids)
                  (allowed (bytes_eq (pubkey ev)) f.authors) (meets from_hex enc ev tags (k, v))
                  (all (tag_allowed tags) f.tags)
                ∙ ap
                    (λ o.
                      by_kinds f (allowed (λ m. m == kind enc ev) o)
                      && meets from_hex enc ev tags (k, v))
                    (sym first)),
      )

  by_tags : ListFilter from_hex → Bool → Bool
  by_tags f b =
      all_of (not f.never_match) (leb f.since (created_at enc ev)) (leb (created_at enc ev) f.until)
        (allowed (bytes_eq (id ev)) f.ids) (allowed (bytes_eq (pubkey ev)) f.authors)
        (allowed (λ m. m == kind enc ev) f.kinds) b

  pub tag_asked :
      (k : Bytes) (v : Json) (xs : List Bytes)
      → is_empty_array v ≡ false
      → bytes_eq k (codes "ids") ≡ false
      → bytes_eq k (codes "authors") ≡ false
      → bytes_eq k (codes "kinds") ≡ false
      → (first_of_bytes k == b'#') ≡ true
      → ((x : Bytes)
          → any (bytes_eq x) xs
            ≡ any
                (is_the_string from_hex (get_or k 1 0 == b'p' || get_or k 1 0 == b'e') x)
                (elements v))
      → tag_allowed tags (get_or k 1 0, xs) ≡ meets from_hex enc ev tags (k, v)
  tag_asked k v xs some_there n1 n2 n3 at_key e =
      rw (some_there, n1, n2, n3, at_key)
        (any_congr _ _ tags (λ t. ap (λ b. t.0 == get_or k 1 0 && b) (e t.1)))

  pub Reads-tags :
      (k : Bytes) (v : Json) (seen : List Bytes) (f : ListFilter from_hex) (xs : List Bytes)
      → Fresh from_hex seen f
      → read k seen ≡ false
      → k ≡ b'#' ∷ get_or k 1 0 ∷ []
      → tag_allowed tags (get_or k 1 0, xs) ≡ meets from_hex enc ev tags (k, v)
      → Reads from_hex enc ev tags seen k v f
          (record f { tags = emplace (list_sets from_hex) (get_or k 1 0) xs f.tags })
  unfolding emplace by_tags
  Reads-tags k v seen f xs fresh new is_tag asked =
      let tag = get_or k 1 0 in
      let w = meets from_hex enc ev tags (k, v) in
      let more = Fresh-more from_hex k seen f fresh in
      let absent : has_tag (list_sets from_hex) tag f.tags ≡ false =
        fresh.tags tag (ap (λ x. read x seen) (sym is_tag) ∙ new) in
      let placed : emplace (list_sets from_hex) tag xs f.tags ≡ f.tags ++ ((tag, xs) ∷ []) =
        rw absent refl in
      (
        record {
          ids = more.ids;
          authors = more.authors;
          kinds = more.kinds;
          since = more.since;
          until = more.until;
          tags = λ t h.
              let other = other_tag from_hex k tag t is_tag (or_false _ _ h).0 in
              ap (has_tag (list_sets from_hex) t) placed
              ∙ (has_tag-append from_hex t tag xs f.tags ∙ ground (arith, other, more.tags t h));
        },
        ap (λ ts. by_tags f (all (tag_allowed tags) ts)) placed
            ∙ (ap (by_tags f) (
                  all-append (tag_allowed tags) f.tags (tag, xs)
                  ∙ ap (λ b. all (tag_allowed tags) f.tags && b) asked)
                ∙ tags_last (not f.never_match) (leb f.since (created_at enc ev))
                    (leb (created_at enc ev) f.until) (allowed (bytes_eq (id ev)) f.ids)
                    (allowed (bytes_eq (pubkey ev)) f.authors)
                    (allowed (λ m. m == kind enc ev) f.kinds) (all (tag_allowed tags) f.tags) w),
      )
