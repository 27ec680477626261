-- ===== src/Event/Json.antt =====
-- `nostrJsonToPackedEvent` of src/events.cpp, the kinds of src/events.h, the accessors of
-- src/jsonParseUtils.h and `parseUint64` of src/misc.cpp. golpe's `from_hex` is a parameter, and so
-- is what the configuration sets.
use strfry_http.Base.{
  ℕ, zero, suc, ◌+◌, ◌-◌, ◌*◌, ◌≡◌, Bool, true, false, not, ◌&&◌, ◌||◌, List, [], ◌∷◌, ◌++◌, Bytes,
  Result, ok, err, Error, ◌>>=◌, ◌>>◌, throw_if, length, all, leb, ltb, ◌==◌, if◌then◌else◌,
  bytes_eq, codes, not_a_string, not_an_unsigned, not_an_array, too_many_event_tags, too_few_fields,
  bad_fixed_size_tag, invalid_expiration, event_tag_val_too_large, non_digit, not_a_number,
  out_of_range, unexpected_id_size, unexpected_pubkey_size, first_of_bytes,
}
use strfry_http.Base.Json.{Json, string, unsigned, array, to_list, at}
use strfry_http.Packed.{Encoding, PackedEventTagBuilder, add, packed_event_builder, max_u64}
use strfry_http.Filter.SetBytes.{max_indexed_tag_val_size}
pub mod Tags
pub mod Whole

unfoldable pub is_replaceable_kind : ℕ → Bool
is_replaceable_kind kind =
    kind == 0 || (kind == 3 || (kind == 41 || (leb 10000 kind && ltb kind 20000)))

unfoldable pub is_param_replaceable_kind : ℕ → Bool
is_param_replaceable_kind kind = leb 30000 kind && ltb kind 40000

unfoldable pub is_ephemeral_kind : ℕ → Bool
is_ephemeral_kind kind = leb 20000 kind && ltb kind 30000

unfoldable pub json_get_string : Json → Result Bytes
json_get_string (string s) = ok s
json_get_string _ = err not_a_string

unfoldable pub json_get_unsigned : Json → Result ℕ
json_get_unsigned (unsigned n) = ok n
json_get_unsigned _ = err not_an_unsigned

unfoldable pub json_get_array : Json → Result (List Json)
json_get_array (array vs) = ok (to_list vs)
json_get_array _ = err not_an_array

-- The value of a text of digits: `std::stoull` in base ten.
unfoldable pub decimal_value : ℕ → Bytes → ℕ
decimal_value n [] = n
decimal_value n (c ∷ s) = decimal_value (n * 10 + (c - 48)) s

unfoldable pub parse_uint64 : Bytes → Result ℕ
parse_uint64 s = do
  throw_if (not (all (λ c. leb 48 c && leb c 57) s)) non_digit
  throw_if (length s == 0) not_a_number
  throw_if (ltb max_u64 (decimal_value 0 s)) out_of_range
  ok (decimal_value 0 s)

-- The settings that the code reads, and the decoder of hexadecimal text.
pub record Settings : Type 0 where
  pub max_num_tags : ℕ
  pub max_tag_val_size : ℕ
  pub from_hex : Bytes → Result Bytes

-- The variables that the loop over the tags changes.
pub record Progress : Type 0 where
  pub expiration : ℕ
  pub tags : PackedEventTagBuilder

-- The name of a tag and its value, which is empty when it is missing.
unfoldable pub name_and_value : Json → Result (Bytes × Bytes)
name_and_value tag_arr = do
  tag ← json_get_array tag_arr
  elim tag [
    | [] ↦ err too_few_fields
    | v ∷ [] ↦ json_get_string v >>= λ tag_name. ok (tag_name, [])
    | v ∷ w ∷ more ↦
        json_get_string v >>= λ tag_name. json_get_string w >>= λ tag_val. ok (tag_name, tag_val)
  ]

module _ (settings : Settings) where
  -- A tag whose value is 32 bytes in hexadecimal.
  unfoldable pub add_fixed_size : ℕ → Bytes → Progress → Result Progress
  add_fixed_size tag_key tag_val p = do
    throw_if (not (length tag_val == 64)) bad_fixed_size_tag
    raw ← settings.from_hex tag_val
    tags ← add tag_key raw p.tags
    ok (record p { tags = tags })

  -- The first expiration counts.
  unfoldable pub add_expiration : Bytes → Progress → Result Progress
  add_expiration tag_val p =
      let parsed = parse_uint64 tag_val >>= λ expires.
      throw_if (ltb expires 100) invalid_expiration >> ok (record p { expiration = expires }) in
      if p.expiration == 0 then parsed else ok p

  unfoldable pub add_single_letter : ℕ → Bytes → Progress → Result Progress
  add_single_letter tag_key tag_val p =
      let added = add tag_key tag_val p.tags >>= λ tags. ok (record p { tags = tags }) in
      throw_if (ltb settings.max_tag_val_size (length tag_val)) event_tag_val_too_large
      >> (if leb (length tag_val) max_indexed_tag_val_size then added else ok p)

  unfoldable pub add_named : Bytes → Bytes → Progress → Result Progress
  add_named tag_name tag_val p =
      if bytes_eq tag_name (codes "e") || bytes_eq tag_name (codes "p")
      then add_fixed_size (first_of_bytes tag_name) tag_val p
      else if bytes_eq tag_name (codes "expiration")
      then add_expiration tag_val p
      else if length tag_name == 1
      then add_single_letter (first_of_bytes tag_name) tag_val p
      else ok p

  unfoldable pub add_tags : List Json → Progress → Result Progress
  add_tags [] p = ok p
  add_tags (tag_arr ∷ rest) p = do
    (tag_name, tag_val) ← name_and_value tag_arr
    p' ← add_named tag_name tag_val p
    add_tags rest p'

  -- The virtual d-tag in front of the tags, or behind them.
  unfoldable pub add_virtual : Bool → PackedEventTagBuilder → Result PackedEventTagBuilder
  add_virtual wanted t = let added = add b'd' [] t in if wanted then added else ok t

  unfoldable pub nostr_json_to_packed_event : Encoding → Json → Result Bytes
  nostr_json_to_packed_event enc v = do
    id_hex ← at v (codes "id") >>= json_get_string
    event_id ← settings.from_hex id_hex
    pubkey_hex ← at v (codes "pubkey") >>= json_get_string
    author ← settings.from_hex pubkey_hex
    created ← at v (codes "created_at") >>= json_get_unsigned
    event_kind ← at v (codes "kind") >>= json_get_unsigned
    throw_if (not (length event_id == 32)) unexpected_id_size
    throw_if (not (length author == 32)) unexpected_pubkey_size
    content ← at v (codes "content") >>= json_get_string
    first ← add_virtual (is_replaceable_kind event_kind) (record { buf = [] })
    tag_list ← at v (codes "tags") >>= json_get_array
    throw_if (ltb settings.max_num_tags (length tag_list)) too_many_event_tags
    p ← add_tags tag_list (record { expiration = 0; tags = first })
    last ← add_virtual (is_param_replaceable_kind event_kind) p.tags
    packed_event_builder enc event_id author created event_kind
        (if is_ephemeral_kind event_kind then 1 else p.expiration) last
