-- ===== src/Filter/Nostr/Match.antt =====
-- Matching an event against a filter: two implementations of the sets answer
-- alike, and the packed sets of the program do what plain lists do.
use strfry_http.Base.{
  ℕ, ◌≡◌, refl, ap, List, [], ◌∷◌, Option, none, some, Bytes, bytes_eq, Result, ok, ◌>>=◌, any,
  ◌==◌, Refines-intro,
}
use mathlib.Core.Path.{fun_ext}
use strfry_http.Base.Json.{get_array}
use strfry_http.Packed.{Encoding, PackedEventView, id, pubkey, kind}
use strfry_http.Filter.SetBytes
use strfry_http.Filter.SetBytes.{FilterSetBytes}
use strfry_http.Filter.SetBytes.Build.{filter_set_bytes-does_match}
use strfry_http.Filter.SetUint
use strfry_http.Filter.SetUint.{FilterSetUint}
use strfry_http.Filter.Nostr.{
  Sets, NostrFilter, does_match_times, allows_string, allows_number, find_tag, matches_tags,
  does_match,
}
use strfry_http.Filter.Nostr.Parse.{SetsRefine, Both, SameTags, SameFilter}

module _ {impl spec : Sets} (sr : SetsRefine impl spec) where
  open sr use {SameStrings, SameNumbers, has_string_eq, has_number_eq}

  allows_string-Same :
      (s : Option impl.Strings) (t : Option spec.Strings) (x : Bytes)
      → Both SameStrings s t
      → allows_string impl s x ≡ allows_string spec t x
  unfolding allows_string
  allows_string-Same none none x h = refl
  allows_string-Same none (some t) x h = absurd h
  allows_string-Same (some s) none x h = absurd h
  allows_string-Same (some s) (some t) x h = has_string_eq s t h x

  allows_number-Same :
      (s : Option impl.Numbers) (t : Option spec.Numbers) (x : ℕ)
      → Both SameNumbers s t
      → allows_number impl s x ≡ allows_number spec t x
  unfolding allows_number
  allows_number-Same none none x h = refl
  allows_number-Same none (some t) x h = absurd h
  allows_number-Same (some s) none x h = absurd h
  allows_number-Same (some s) (some t) x h = has_number_eq s t h x

  find_tag-Same :
      (tag : ℕ) (s : impl.Strings) (t : spec.Strings)
      → SameStrings s t
      → find_tag impl tag s ≡ find_tag spec tag t
  unfolding find_tag
  find_tag-Same tag s t h =
      fun_ext (λ found. fun_ext (λ name. fun_ext (λ val. rw (has_string_eq s t h val) refl)))

  matches_tags-Same :
      (xs : List (ℕ × impl.Strings)) (ys : List (ℕ × spec.Strings)) (ev : PackedEventView)
      → SameTags SameStrings xs ys
      → matches_tags impl xs ev ≡ matches_tags spec ys ev
  unfolding matches_tags
  matches_tags-Same [] [] ev h = refl
  matches_tags-Same [] (y ∷ ys) ev h = absurd h
  matches_tags-Same (x ∷ xs) [] ev h = absurd h
  matches_tags-Same ((s, a) ∷ xs) ((t, b) ∷ ys) ev h =
      rw (h.0, find_tag-Same t a b h.1, matches_tags-Same xs ys ev h.2) refl

  pub does_match-Same :
      (enc : Encoding) (f : NostrFilter impl) (g : NostrFilter spec) (ev : PackedEventView)
      → SameFilter sr f g
      → does_match impl enc f ev ≡ does_match spec enc g ev
  unfolding does_match does_match_times
  does_match-Same enc f g ev h =
      rw
        (
          h.never_match,
          h.since,
          h.until,
          allows_string-Same f.ids g.ids (id ev) h.ids,
          allows_string-Same f.authors g.authors (pubkey ev) h.authors,
          allows_number-Same f.kinds g.kinds (kind enc ev) h.kinds,
          matches_tags-Same f.tags g.tags ev h.tags,
        )
        refl

module _ (from_hex : Bytes → Result Bytes) where
  -- The sets of the program.
  abbrev pub packed_sets : Sets
  packed_sets = record {
    Strings = FilterSetBytes;
    Numbers = FilterSetUint;
    make_strings = SetBytes.filter_set_bytes from_hex;
    make_numbers = SetUint.filter_set_uint;
    has_string = SetBytes.does_match;
    has_number = λ s n. ok (SetUint.does_match s n);
  }

  -- The sets as the lists of the values given.
  abbrev pub list_sets : Sets
  list_sets = record {
    Strings = List Bytes;
    Numbers = List ℕ;
    make_strings = λ v hex lo hi. get_array v >>= SetBytes.collect from_hex hex lo hi;
    make_numbers = λ v. get_array v >>= SetUint.collect;
    has_string = λ xs x. ok (any (bytes_eq x) xs);
    has_number = λ ns n. ok (any (λ m. m == n) ns);
  }

  pub packed_sets-refine : SetsRefine packed_sets list_sets
  packed_sets-refine = record {
    SameStrings = λ s xs. (c : Bytes) → SetBytes.does_match s c ≡ ok (any (bytes_eq c) xs);
    SameNumbers = λ s ns. (c : ℕ) → SetUint.does_match s c ≡ any (λ n. n == c) ns;
    strings_made = λ v hex lo hi.
        Refines-intro _ (SetBytes.filter_set_bytes from_hex v hex lo hi) _
          (filter_set_bytes-does_match from_hex v hex lo hi);
    numbers_made =
        λ v. Refines-intro _ (SetUint.filter_set_uint v) _ (SetUint.filter_set_uint-does_match v);
    has_string_eq = λ s t h c. h c;
    has_number_eq = λ s t h c. ap ok (h c);
  }
