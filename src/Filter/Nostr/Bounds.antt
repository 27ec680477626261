-- ===== src/Filter/Nostr/Bounds.antt =====
-- The members `since`, `until` and `limit`, and those with an empty array.
use strfry_http.Base.{
  ℕ, ◌≡◌, refl, sym, ap, ◌∙◌, Bool, true, false, not, ◌&&◌, List, Bytes, bytes_eq, codes,
  first_of_bytes, leb, ◌==◌, Result, ok, all,
}
use strfry_http.Base.Json.{Json, get_unsigned, is_empty_array}
use strfry_http.Packed.{Encoding, PackedEventView, id, pubkey, created_at, kind, max_u64}
use strfry_http.Packed.Tags.{Tag}
use strfry_http.Filter.Nostr.Meaning.{ListFilter, means, allowed, tag_allowed}
use strfry_http.Filter.Nostr.Written.{meets}
use strfry_http.Filter.Nostr.Conditions.{
  read, from_time-unsigned, up_to_time-unsigned, leb_zero, and_true, and_false, all_of, since_last,
  until_last,
}
use strfry_http.Filter.Nostr.Fresh.{Fresh, Fresh-more, is_read, unread, Reads}

module _ (from_hex : Bytes → Result Bytes) (enc : Encoding) (ev : PackedEventView)
    (tags : List Tag) where
  abbrev by_since : ListFilter from_hex → Bool → Bool
  by_since f b =
      all_of (not f.never_match) b (leb (created_at enc ev) f.until)
        (allowed (bytes_eq (id ev)) f.ids) (allowed (bytes_eq (pubkey ev)) f.authors)
        (allowed (λ m. m == kind enc ev) f.kinds) (all (tag_allowed tags) f.tags)

  pub Reads-since :
      (k : Bytes) (v : Json) (seen : List Bytes) (f : ListFilter from_hex) (n : ℕ)
      → Fresh from_hex seen f
      → read k seen ≡ false
      → is_empty_array v ≡ false
      → bytes_eq k (codes "ids") ≡ false
      → bytes_eq k (codes "authors") ≡ false
      → bytes_eq k (codes "kinds") ≡ false
      → (first_of_bytes k == b'#') ≡ false
      → bytes_eq k (codes "since") ≡ true
      → get_unsigned v ≡ ok n
      → Reads from_hex enc ev tags seen k v f (record f { since = n })
  Reads-since k v seen f n fresh new some_there n1 n2 n3 n4 at_key e =
      let first = fresh.since (unread from_hex k (codes "since") seen at_key new) in
      let more = Fresh-more from_hex k seen f fresh in
      let asked : meets from_hex enc ev tags (k, v) ≡ leb n (created_at enc ev) =
        rw (some_there, n1, n2, n3, n4, at_key) (from_time-unsigned v n (created_at enc ev) e) in
      (
        record {
          ids = more.ids;
          authors = more.authors;
          kinds = more.kinds;
          since = λ h. is_read from_hex k (codes "since") seen at_key h;
          until = more.until;
          tags = more.tags;
        },
        ap (by_since f) (sym asked)
            ∙ (since_last (not f.never_match) (meets from_hex enc ev tags (k, v))
                  (leb (created_at enc ev) f.until) (allowed (bytes_eq (id ev)) f.ids)
                  (allowed (bytes_eq (pubkey ev)) f.authors)
                  (allowed (λ m. m == kind enc ev) f.kinds) (all (tag_allowed tags) f.tags)
                ∙ ap (λ b. by_since f b && meets from_hex enc ev tags (k, v))
                    (sym
                      (ap (λ n. leb n (created_at enc ev)) first ∙ leb_zero (created_at enc ev)))),
      )

  abbrev by_until : ListFilter from_hex → Bool → Bool
  by_until f b =
      all_of (not f.never_match) (leb f.since (created_at enc ev)) b
        (allowed (bytes_eq (id ev)) f.ids) (allowed (bytes_eq (pubkey ev)) f.authors)
        (allowed (λ m. m == kind enc ev) f.kinds) (all (tag_allowed tags) f.tags)

  pub Reads-until :
      (k : Bytes) (v : Json) (seen : List Bytes) (f : ListFilter from_hex) (n : ℕ)
      → Fresh from_hex seen f
      → read k seen ≡ false
      → is_empty_array v ≡ false
      → bytes_eq k (codes "ids") ≡ false
      → bytes_eq k (codes "authors") ≡ false
      → bytes_eq k (codes "kinds") ≡ false
      → (first_of_bytes k == b'#') ≡ false
      → bytes_eq k (codes "since") ≡ false
      → bytes_eq k (codes "until") ≡ true
      → get_unsigned v ≡ ok n
      → leb (created_at enc ev) max_u64 ≡ true
      → Reads from_hex enc ev tags seen k v f (record f { until = n })
  Reads-until k v seen f n fresh new some_there n1 n2 n3 n4 n5 at_key e in_range =
      let first = fresh.until (unread from_hex k (codes "until") seen at_key new) in
      let more = Fresh-more from_hex k seen f fresh in
      let asked : meets from_hex enc ev tags (k, v) ≡ leb (created_at enc ev) n =
        rw (some_there, n1, n2, n3, n4, n5, at_key)
          (up_to_time-unsigned v n (created_at enc ev) e) in
      (
        record {
          ids = more.ids;
          authors = more.authors;
          kinds = more.kinds;
          since = more.since;
          until = λ h. is_read from_hex k (codes "until") seen at_key h;
          tags = more.tags;
        },
        ap (by_until f) (sym asked)
            ∙ (until_last (not f.never_match) (leb f.since (created_at enc ev))
                  (meets from_hex enc ev tags (k, v)) (allowed (bytes_eq (id ev)) f.ids)
                  (allowed (bytes_eq (pubkey ev)) f.authors)
                  (allowed (λ m. m == kind enc ev) f.kinds) (all (tag_allowed tags) f.tags)
                ∙ ap (λ o. by_until f o && meets from_hex enc ev tags (k, v))
                    (sym (ap (leb (created_at enc ev)) first ∙ in_range))),
      )

  pub Reads-limit :
      (k : Bytes) (v : Json) (seen : List Bytes) (f : ListFilter from_hex) (n : ℕ)
      → Fresh from_hex seen f
      → meets from_hex enc ev tags (k, v) ≡ true
      → Reads from_hex enc ev tags seen k v f (record f { limit = n })
  Reads-limit k v seen f n fresh asked =
      let more = Fresh-more from_hex k seen f fresh in
      (
        record {
          ids = more.ids;
          authors = more.authors;
          kinds = more.kinds;
          since = more.since;
          until = more.until;
          tags = more.tags;
        },
        and_true (means from_hex f enc ev tags)
            ∙ ap (λ b. means from_hex f enc ev tags && b) (sym asked),
      )

  pub Reads-nothing :
      (k : Bytes) (v : Json) (seen : List Bytes) (f : ListFilter from_hex)
      → Fresh from_hex seen f
      → is_empty_array v ≡ true
      → Reads from_hex enc ev tags seen k v f (record f { never_match = true })
  Reads-nothing k v seen f fresh empty =
      let more = Fresh-more from_hex k seen f fresh in
      let asked : meets from_hex enc ev tags (k, v) ≡ false = rw empty refl in
      (
        record {
          ids = more.ids;
          authors = more.authors;
          kinds = more.kinds;
          since = more.since;
          until = more.until;
          tags = more.tags;
        },
        and_false (means from_hex f enc ev tags)
            ∙ ap (λ b. means from_hex f enc ev tags && b) (sym asked),
      )
