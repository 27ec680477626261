-- ===== src/Filter/Nostr.antt =====
-- `NostrFilter` and `NostrFilterGroup` of src/filters.h: a filter parsed from JSON, and the test of
-- an event against it. The code is written against an interface for its sets of values, which the
-- packed sets of the program and plain lists both implement; the children prove that they agree.
use strfry_http.Base.{
  ℕ, zero, suc, ◌+◌, Bool, true, false, not, ◌&&◌, ◌||◌, List, [], ◌∷◌, ◌++◌, Option, none, some,
  Bytes, bytes_eq, codes, first_of_bytes, Result, ok, err, ◌>>=◌, ◌>>◌, throw_if, not_an_object,
  unindexed_tag, unrecognised_item, too_many_tags, req_too_small, length, get_or, ltb, leb, ◌==◌,
  if◌then◌else◌,
}
use strfry_http.Base.Json.{
  Json, object, to_members, to_list, is_empty_array, get_unsigned, get_array,
}
use strfry_http.Packed.{
  Encoding, PackedEventView, id, pubkey, created_at, kind, foreach_tag, max_u64, Callback,
}
use strfry_http.Filter.SetBytes.{max_indexed_tag_val_size}
pub mod Parse
pub mod Match
pub mod Meaning
pub mod Written
pub mod Conditions
pub mod Fresh
pub mod Values
pub mod Bounds
pub mod Asked

-- What the filter asks of the sets of strings and of numbers.
pub record Sets : Type 1 where
  pub Strings : Type 0
  pub Numbers : Type 0
  pub make_strings : Json → Bool → ℕ → ℕ → Result Strings
  pub make_numbers : Json → Result Numbers
  pub has_string : Strings → Bytes → Result Bool
  pub has_number : Numbers → ℕ → Result Bool

abbrev pub is_some {ℓ} : {A : Type ℓ} → Option A → Bool
is_some none = false
is_some (some a) = true

-- `if (!test) return false;`
abbrev pub unless_false : Result Bool → Result Bool → Result Bool
unless_false r s = r >>= λ b. if b then s else ok false

module _ (sets : Sets) where
  open sets use {Strings, Numbers, make_strings, make_numbers, has_string, has_number}

  pub record NostrFilter : Type 0 where
    pub ids : Option Strings
    pub authors : Option Strings
    pub kinds : Option Numbers
    pub tags : List (ℕ × Strings)
    pub since : ℕ
    pub until : ℕ
    pub limit : ℕ
    pub never_match : Bool
    pub index_only_scans : Bool

  -- The values of the fields before the constructor's body.
  unfoldable pub initial : NostrFilter
  initial = record {
    ids = none;
    authors = none;
    kinds = none;
    tags = [];
    since = 0;
    until = max_u64;
    limit = max_u64;
    never_match = false;
    index_only_scans = false;
  }

  -- `tags.emplace`: a key that is there is kept.
  unfoldable pub has_tag : ℕ → List (ℕ × Strings) → Bool
  has_tag tag [] = false
  has_tag tag ((t, _) ∷ ts) = t == tag || has_tag tag ts

  unfoldable pub emplace : ℕ → Strings → List (ℕ × Strings) → List (ℕ × Strings)
  emplace tag s ts = if has_tag tag ts then ts else ts ++ ((tag, s) ∷ [])

  -- The branch of `k.starts_with('#')`.
  unfoldable pub parse_tag : Bytes → Json → NostrFilter → Result NostrFilter
  parse_tag k v f =
      let tag = get_or k 1 0 in
      if length k == 2
      then (if tag == b'p' || tag == b'e'
          then make_strings v true 32 32
          else make_strings v false 0 max_indexed_tag_val_size)
        >>= (λ s. ok (record f { tags = emplace tag s f.tags }))
      else err unindexed_tag

  -- The body of the loop over the members, with `numMajorFields`.
  unfoldable pub parse_member : Bytes → Json → NostrFilter × ℕ → Result (NostrFilter × ℕ)
  parse_member k v (f, major) =
      if is_empty_array v
      then ok (record f { never_match = true }, major)
      else if bytes_eq k (codes "ids")
      then make_strings v true 32 32 >>= (λ s. ok (record f { ids = some s }, major + 1))
      else if bytes_eq k (codes "authors")
      then make_strings v true 32 32 >>= (λ s. ok (record f { authors = some s }, major + 1))
      else if bytes_eq k (codes "kinds")
      then make_numbers v >>= (λ s. ok (record f { kinds = some s }, major + 1))
      else if first_of_bytes k == b'#'
      then parse_tag k v f >>= (λ g. ok (g, major + 1))
      else if bytes_eq k (codes "since")
      then get_unsigned v >>= (λ n. ok (record f { since = n }, major))
      else if bytes_eq k (codes "until")
      then get_unsigned v >>= (λ n. ok (record f { until = n }, major))
      else if bytes_eq k (codes "limit")
      then get_unsigned v >>= (λ n. ok (record f { limit = n }, major))
      else err unrecognised_item

  unfoldable pub parse_members : List (Bytes × Json) → NostrFilter × ℕ → Result (NostrFilter × ℕ)
  parse_members [] st = ok st
  parse_members ((k, v) ∷ ms) st = do st' ← parse_member k v st; parse_members ms st'

  unfoldable pub index_only : NostrFilter → ℕ → Bool
  index_only f major = leb major 1 || (major == 2 && (is_some f.authors && is_some f.kinds))

  -- What the constructor does behind the loop.
  unfoldable pub finish : ℕ → NostrFilter × ℕ → Result NostrFilter
  finish max_filter_limit (f, major) = do
    throw_if (ltb 3 (length f.tags)) too_many_tags
    ok (record f {
      limit = if ltb max_filter_limit f.limit then max_filter_limit else f.limit;
      index_only_scans = index_only f major;
    })

  -- The constructor.
  unfoldable pub nostr_filter : Json → ℕ → Result NostrFilter
  nostr_filter (object ms) max_filter_limit = do
    st ← parse_members (to_members ms) (initial, 0)
    finish max_filter_limit st
  nostr_filter _ max_filter_limit = err not_an_object

  unfoldable pub does_match_times : NostrFilter → ℕ → Bool
  does_match_times f created =
      if ltb created f.since then false else if ltb f.until created then false else true

  -- `!set || set->doesMatch(x)`
  unfoldable pub allows_string : Option Strings → Bytes → Result Bool
  allows_string none x = ok true
  allows_string (some s) x = has_string s x

  unfoldable pub allows_number : Option Numbers → ℕ → Result Bool
  allows_number none x = ok true
  allows_number (some s) x = has_number s x

  -- The callback that looks for a tag; its state is `foundMatch`.
  unfoldable pub find_tag : ℕ → Strings → Callback Bool
  find_tag tag filt found tag_name tag_val =
      if tag_name == tag
      then has_string filt tag_val >>= (λ m. if m then ok (true, false) else ok (found, true))
      else ok (found, true)

  unfoldable pub matches_tags : List (ℕ × Strings) → PackedEventView → Result Bool
  matches_tags [] ev = ok true
  matches_tags ((tag, filt) ∷ tags) ev = do
    found ← foreach_tag (find_tag tag filt) false ev
    let rest = matches_tags tags ev
    if not found then ok false else rest

  unfoldable pub does_match : Encoding → NostrFilter → PackedEventView → Result Bool
  does_match enc f ev =
      if f.never_match
      then ok false
      else if not (does_match_times f (created_at enc ev))
      then ok false
      else unless_false (allows_string f.ids (id ev)) (
          unless_false (allows_string f.authors (pubkey ev))
            (unless_false (allows_number f.kinds (kind enc ev)) (matches_tags f.tags ev)))

  unfoldable pub is_full_db_query : NostrFilter → Bool
  is_full_db_query f =
      not (is_some f.ids)
      && (not (is_some f.authors) && (not (is_some f.kinds) && length f.tags == 0))

  -- The loop of the constructor of `NostrFilterGroup`: a filter that never matches is dropped.
  unfoldable pub group_filters : List Json → ℕ → Result (List NostrFilter)
  group_filters [] max_filter_limit = ok []
  group_filters (v ∷ vs) max_filter_limit = do
    f ← nostr_filter v max_filter_limit
    fs ← group_filters vs max_filter_limit
    ok (if f.never_match then fs else f ∷ fs)

  unfoldable pub from_third : List Json → ℕ → Result (List NostrFilter)
  from_third (x ∷ y ∷ z ∷ vs) max_filter_limit = group_filters (z ∷ vs) max_filter_limit
  from_third _ max_filter_limit = err req_too_small

  -- The first two elements of the array are "REQ" and the subscription's id.
  unfoldable pub nostr_filter_group : Json → ℕ → Result (List NostrFilter)
  nostr_filter_group req max_filter_limit = get_array req >>= λ vs. from_third vs max_filter_limit

  unfoldable pub group_does_match : Encoding → List NostrFilter → PackedEventView → Result Bool
  group_does_match enc [] ev = ok false
  group_does_match enc (f ∷ fs) ev = do
    m ← does_match enc f ev
    let rest = group_does_match enc fs ev
    if m then ok true else rest
