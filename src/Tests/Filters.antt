-- ===== src/Tests/Filters.antt =====
-- Filters parsed from JSON.
use strfry_http.Base.{
  ℕ, ◌≡◌, refl, false, List, [], ◌∷◌, ◌++◌, none, some, Bytes, ok, ◌>>=◌, replicate, any, bytes_eq,
  bytes_lt, codes, ◌==◌,
}
use strfry_http.Base.Json.{
  Json, object, array, unsigned, string, member, done, cons, nil, get_array,
}
use strfry_http.Packed.{PackedEventView}
use strfry_http.Packed.Tags.{Tag, encode}
use strfry_http.Filter.SetBytes
use strfry_http.Filter.SetBytes.{FilterSetBytes, filter_set_bytes, collect}
use strfry_http.Filter.SetBytes.Build.{filter_set_bytes-does_match}
use strfry_http.Filter.SetUint
use strfry_http.Filter.SetUint.{FilterSetUint, filter_set_uint}
use strfry_http.Filter.Nostr.{
  NostrFilter, nostr_filter, does_match, parse_members, parse_member, parse_tag, finish, initial,
  emplace, has_tag, index_only,
}
use strfry_http.Filter.Nostr.Match.{packed_sets}
use strfry_http.Filter.Nostr.Written.{meets}
use strfry_http.Filter.Nostr.Asked.{once_each, nostr_filter-meets}
use strfry_http.Packed.{created_at, max_u64}
use strfry_http.Base.{true, all, leb}
use strfry_http.Base.Json.{Members, to_members}
use strfry_http.Tests.Instances.{native_encoding, from_hex}

program : Unit {0}
unfolding filter_set_bytes collect SetBytes.fill SetBytes.sort filter_set_uint SetUint.collect
    SetUint.sort SetUint.unique nostr_filter parse_members parse_member parse_tag finish initial
    emplace has_tag index_only bytes_lt bytes_eq from_hex
program = tt

abbrev words : Json
words =
    array (cons (string (codes "b")) (cons (string (codes "a")) (cons (string (codes "b")) nil)))

abbrev two_words : FilterSetBytes
two_words = record {
  items =
      record { offset = 0; size = 1; first_byte = b'a' }
      ∷ record { offset = 1; size = 1; first_byte = b'b' }
      ∷ [];
  buf = codes "ab";
}

words_built : filter_set_bytes from_hex words false 0 255 ≡ ok two_words
unfolding program
words_built = refl

filter_set_bytes-does_match_example :
    (arr : List Bytes) × ((get_array words >>= collect from_hex false 0 255) ≡ ok arr)
    × ((c : Bytes) → SetBytes.does_match two_words c ≡ ok (any (bytes_eq c) arr))
filter_set_bytes-does_match_example =
    filter_set_bytes-does_match from_hex words false 0 255 two_words words_built

abbrev kinds : Json
kinds = array (cons (unsigned 7) (cons (unsigned 1) (cons (unsigned 7) nil)))

abbrev two_kinds : FilterSetUint
two_kinds = record { items = 1 ∷ 7 ∷ [] }

kinds_built : filter_set_uint kinds ≡ ok two_kinds
unfolding program
kinds_built = refl

filter_set_uint-does_match_example :
    (ns : List ℕ) × ((get_array kinds >>= SetUint.collect) ≡ ok ns)
    × ((c : ℕ) → SetUint.does_match two_kinds c ≡ any (λ n. n == c) ns)
filter_set_uint-does_match_example = SetUint.filter_set_uint-does_match kinds two_kinds kinds_built

abbrev query_members : Members
query_members =
    (member (codes "#t") words (
      member (codes "kinds") kinds
        (member (codes "since") (unsigned 5) (member (codes "limit") (unsigned 900) done))))

abbrev parsed : NostrFilter (packed_sets from_hex)
parsed = record {
  ids = none;
  authors = none;
  kinds = some two_kinds;
  tags = (b't', two_words) ∷ [];
  since = 5;
  until = 18446744073709551615;
  limit = 500;
  never_match = false;
  index_only_scans = false;
}

query-parsed : nostr_filter (packed_sets from_hex) (object query_members) 500 ≡ ok parsed
unfolding program
query-parsed = refl

abbrev tags_of_event : List Tag
tags_of_event = (b't', codes "b") ∷ []

abbrev event : PackedEventView
event = record { buf = replicate 88 1 ++ encode tags_of_event }

query_once : once_each [] (to_members query_members) ≡ true
unfolding program
query_once = refl

in_time : leb (created_at native_encoding event) max_u64 ≡ true
unfolding created_at native_encoding
in_time = refl

nostr_filter-meets_example :
    does_match (packed_sets from_hex) native_encoding parsed event
    ≡ ok (all (meets from_hex native_encoding event tags_of_event) (to_members query_members))
nostr_filter-meets_example =
    nostr_filter-meets from_hex native_encoding event tags_of_event query_members 500 parsed
      query-parsed query_once refl in_time
