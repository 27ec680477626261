-- ===== src/Store/Payload.antt =====
-- `decodeEventPayload` and `getEventJson` of src/events.cpp. The decompressor is a parameter, with
-- the bytes of a 32-bit number.
use strfry_http.Base.{
  ℕ, [], ◌∷◌, Option, none, some, Bytes, Result, ok, err, ◌>>=◌, ◌>>◌, throw_if, length, take, drop,
  ltb, ◌==◌, if◌then◌else◌, empty_payload, payload_too_short, bad_first_byte, no_payload,
}
use strfry_http.Packed.{Encoding}
use strfry_http.Store.Db.{Db}

-- What stands for lmdb's `from_sv<uint32_t>` and the zstd dictionaries.
pub record Decompressor : Type 0 where
  pub dict_id : Bytes → ℕ
  pub decompress : ℕ → Bytes → Result Bytes

-- The text, with the dictionary's number and the compressed size where they are set.
pub record Decoded : Type 0 where
  pub text : Bytes
  pub dict : Option ℕ
  pub compressed_size : Option ℕ

unfoldable pub decode_event_payload : Decompressor → Bytes → Result Decoded
decode_event_payload decomp [] = err empty_payload
decode_event_payload decomp (b ∷ raw) =
    let plain : Result Decoded =
      ok (record { text = raw; dict = some 0; compressed_size = none }) in
    let dict = decomp.dict_id (take 4 raw) in
    let compressed =
      throw_if (ltb (length raw) 4) payload_too_short
      >> (decomp.decompress dict (drop 4 raw) >>= λ buf. ok (record {
        text = buf;
        dict = some dict;
        compressed_size = some (length (drop 4 raw));
      })) in
    if b == 0 then plain else if b == 1 then compressed else err bad_first_byte

module _ {enc : Encoding} (db : Db enc) where
  unfoldable pub get_event_json : Decompressor → ℕ → db.State → Result Bytes
  get_event_json decomp lev_id s = elim (db.get_payload lev_id s) [
    | none ↦ err no_payload
    | some raw ↦ decode_event_payload decomp raw >>= λ decoded. ok decoded.text
  ]
