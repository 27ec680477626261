-- ===== src/Tests/Packed.antt =====
-- Packed events of concrete fields and tags.
use strfry_http.Base.{
  ℕ, suc, err, out_of_range, ◌≡◌, refl, true, List, [], ◌∷◌, ◌++◌, Bytes, ok, ◌>>=◌, replicate,
  drop, arith,
}
use strfry_http.Packed.{
  PackedEventView, packed_event_view, packed_event_builder, id, pubkey, created_at, kind,
  expiration, foreach_tag, PackedEventTagBuilder, Callback, foreach_tag_loop,
}
use strfry_http.Packed.Layout.{fields-packed_event_builder}
use strfry_http.Packed.Tags.{Tag, add_all, add_all_lem, encode, walk, foreach_tag-encode}
use strfry_http.Tests.Instances.{native_encoding}

abbrev two_tags : List Tag
two_tags = (b'e', 1 ∷ 2 ∷ []) ∷ (b'd', []) ∷ []

abbrev some_id : Bytes
some_id = replicate 32 7

abbrev some_author : Bytes
some_author = replicate 32 9

abbrev no_tags : PackedEventTagBuilder
no_tags = record { buf = [] }

fields-packed_event_builder_example :
    (v : PackedEventView) × ((packed_event_builder native_encoding some_id some_author 1700000000 1
          0 no_tags
        >>= packed_event_view)
      ≡ ok v)
    × (id v ≡ some_id)
    × (pubkey v ≡ some_author)
    × (created_at native_encoding v ≡ 1700000000)
    × (kind native_encoding v ≡ 1)
    × (expiration native_encoding v ≡ 0)
    × (drop 88 v.buf ≡ [])
fields-packed_event_builder_example =
    fields-packed_event_builder native_encoding some_id some_author 1700000000 1 0 no_tags refl refl
      (omega arith) (omega arith) (omega arith)

add_all_lem_example : add_all two_tags no_tags ≡ ok (record { buf = encode two_tags })
add_all_lem_example = add_all_lem two_tags no_tags (omega arith)

abbrev count_tags : Callback ℕ
count_tags n tag_name tag_val = ok (suc n, true)

abbrev tagged : PackedEventView
tagged = record { buf = replicate 88 0 ++ encode two_tags }

foreach_tag-encode_example : foreach_tag count_tags 0 tagged ≡ walk count_tags 0 two_tags
foreach_tag-encode_example = foreach_tag-encode count_tags two_tags 0 tagged refl

counts_two : foreach_tag count_tags 0 tagged ≡ ok 2
unfolding foreach_tag foreach_tag_loop
counts_two = refl

-- A tag whose length byte is missing.
broken : foreach_tag count_tags 0 (record { buf = replicate 89 0 }) ≡ err out_of_range
unfolding foreach_tag foreach_tag_loop
broken = refl
