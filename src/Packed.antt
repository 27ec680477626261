-- ===== src/Packed.antt =====
-- src/PackedEvent.h: the packed summary of an event. The bytes 0 to 31 are the id, 32 to 63 the
-- public key, then `created_at`, `kind` and `expiration` in 8 bytes each, then the tags: a
-- character, a length byte, and that many bytes. The children prove the round trips.
use strfry_http.Base.{
  ℕ, zero, suc, ◌+◌, ◌-◌, ◌%◌, ◌<◌, ◌≡◌, Bool, List, [], ◌∷◌, ◌++◌, Bytes, Result, ok, err, ◌>>=◌,
  ◌>>◌, throw_if, out_of_range, packed_too_short, tag_val_too_long, unexpected_id_size,
  unexpected_pubkey_size, length, take, drop, slice, ltb, ◌==◌, not, if◌then◌else◌,
}
pub mod Layout
pub mod Tags

abbrev pub max_u64 : ℕ
max_u64 = 18446744073709551615

-- `lmdb::to_sv<uint64_t>` and `lmdb::from_sv<uint64_t>`: the eight bytes in memory of a number.
pub record Encoding : Type 0 where
  pub to_sv : ℕ → Bytes
  pub from_sv : Bytes → ℕ
  pub length-to_sv : (n : ℕ) → length (to_sv n) ≡ 8
  pub from_sv-to_sv : (n : ℕ) → n < 18446744073709551616 → from_sv (to_sv n) ≡ n

pub record PackedEventView : Type 0 where
  pub buf : Bytes

-- The constructors of `PackedEventView`.
unfoldable pub packed_event_view : Bytes → Result PackedEventView
packed_event_view buf = do
  throw_if (ltb (length buf) 88) packed_too_short
  ok (record { buf = buf })

unfoldable pub id : PackedEventView → Bytes
id v = slice 0 32 v.buf

unfoldable pub pubkey : PackedEventView → Bytes
pubkey v = slice 32 32 v.buf

module _ (enc : Encoding) where
  unfoldable pub created_at : PackedEventView → ℕ
  created_at v = enc.from_sv (slice 64 8 v.buf)

  unfoldable pub kind : PackedEventView → ℕ
  kind v = enc.from_sv (slice 72 8 v.buf)

  unfoldable pub expiration : PackedEventView → ℕ
  expiration v = enc.from_sv (slice 80 8 v.buf)

-- A callback reads a tag, changes the variables that it captures, and says whether to go on.
abbrev pub Callback {ℓ} : Type ℓ → Type ℓ
Callback S = S → ℕ → Bytes → Result (S × Bool)

-- The loop of `foreachTag` over the bytes that are left. A read past the end, of the length byte or
-- by `substr`, is `out_of_range`. The fuel is the number of bytes; each round drops two at least.
unfoldable pub foreach_tag_loop {ℓ} : {S : Type ℓ} → Callback S → ℕ → S → Bytes → Result S
foreach_tag_loop cb fuel s [] = ok s
foreach_tag_loop cb zero s (tag_name ∷ b) = err out_of_range
foreach_tag_loop cb (suc fuel) s (tag_name ∷ []) = err out_of_range
foreach_tag_loop cb (suc fuel) s (tag_name ∷ tag_len ∷ b) = do
  (s', ret) ← cb s tag_name (take tag_len b)
  let rest = foreach_tag_loop cb fuel s' (drop tag_len b)
  if not ret then ok s' else if ltb (length b) tag_len then err out_of_range else rest

unfoldable pub foreach_tag {ℓ} : {S : Type ℓ} → Callback S → S → PackedEventView → Result S
foreach_tag cb s v = foreach_tag_loop cb (length (drop 88 v.buf)) s (drop 88 v.buf)

pub record PackedEventTagBuilder : Type 0 where
  pub buf : Bytes

unfoldable pub add : ℕ → Bytes → PackedEventTagBuilder → Result PackedEventTagBuilder
add tag_key tag_val t = do
  throw_if (ltb 255 (length tag_val)) tag_val_too_long
  ok (record { buf = t.buf ++ (tag_key ∷ (length tag_val % 256) ∷ tag_val) })

module _ (enc : Encoding) where
  -- The constructor of `PackedEventBuilder`, and its `buf`.
  unfoldable pub packed_event_builder :
      Bytes → Bytes → ℕ → ℕ → ℕ → PackedEventTagBuilder → Result Bytes
  packed_event_builder event_id author created event_kind expires t = do
    throw_if (not (length event_id == 32)) unexpected_id_size
    throw_if (not (length author == 32)) unexpected_pubkey_size
    ok (
        event_id
        ++ (author
            ++ (enc.to_sv created ++ (enc.to_sv event_kind ++ (enc.to_sv expires ++ t.buf)))))
