-- ===== src/Packed/Layout.antt =====
-- The fixed fields of a packed event read back as they were written.
use strfry_http.Base.{
  ℕ, ◌+◌, ◌≤◌, ◌<◌, ◌≡◌, refl, ◌∙◌, ap, ◌++◌, Bytes, ok, ◌>>=◌, length, drop, slice, arith,
  take-append, drop-append, drop-drop, length-append,
}
use strfry_http.Packed.{
  Encoding, PackedEventView, packed_event_view, id, pubkey, created_at, kind, expiration,
  PackedEventTagBuilder, packed_event_builder,
}

-- A field that lies behind two parts of known length.
slice_behind :
    (m n : ℕ) (xs ys zs : Bytes) → length xs ≡ m → length ys ≡ n → slice m n (xs ++ (ys ++ zs)) ≡ ys
slice_behind m n xs ys zs h k = rw (drop-append m xs (ys ++ zs) h) (take-append n ys zs k)

slice_step : (m k n : ℕ) (xs ys : Bytes) → length xs ≡ m → slice (m + k) n (xs ++ ys) ≡ slice k n ys
slice_step m k n xs ys h = rw (drop-drop m k (xs ++ ys), drop-append m xs ys h) refl

drop_step : (m k : ℕ) (xs ys : Bytes) → length xs ≡ m → drop (m + k) (xs ++ ys) ≡ drop k ys
drop_step m k xs ys h = rw (drop-drop m k (xs ++ ys), drop-append m xs ys h) refl

module _ (enc : Encoding) where
  open enc use {to_sv, from_sv, length-to_sv, from_sv-to_sv}

  -- The bytes that the builder writes.
  abbrev pub layout : Bytes → Bytes → ℕ → ℕ → ℕ → Bytes → Bytes
  layout i a c k x tags = i ++ (a ++ (to_sv c ++ (to_sv k ++ (to_sv x ++ tags))))

  module _ (i a : Bytes) (c k x : ℕ) (tags : Bytes) (hi : length i ≡ 32) (ha : length a ≡ 32) where
    slice_created : slice 64 8 (layout i a c k x tags) ≡ to_sv c
    slice_created = slice_step 32 32 8 i _ hi ∙ slice_behind 32 8 a (to_sv c) _ ha (length-to_sv c)

    slice_kind : slice 72 8 (layout i a c k x tags) ≡ to_sv k
    slice_kind =
        slice_step 32 40 8 i _ hi
        ∙ slice_step 32 8 8 a _ ha
        ∙ slice_behind 8 8 (to_sv c) (to_sv k) _ (length-to_sv c) (length-to_sv k)

    slice_expiration : slice 80 8 (layout i a c k x tags) ≡ to_sv x
    slice_expiration =
        slice_step 32 48 8 i _ hi
        ∙ slice_step 32 16 8 a _ ha
        ∙ slice_step 8 8 8 (to_sv c) _ (length-to_sv c)
        ∙ slice_behind 8 8 (to_sv k) (to_sv x) _ (length-to_sv k) (length-to_sv x)

    drop_tags : drop 88 (layout i a c k x tags) ≡ tags
    drop_tags =
        drop_step 32 56 i _ hi
        ∙ drop_step 32 24 a _ ha
        ∙ drop_step 8 16 (to_sv c) _ (length-to_sv c)
        ∙ drop_step 8 8 (to_sv k) _ (length-to_sv k)
        ∙ drop_append_to_sv
      where
        drop_append_to_sv : drop 8 (to_sv x ++ tags) ≡ tags
        drop_append_to_sv = drop-append 8 (to_sv x) tags (length-to_sv x)

    length-layout : 88 ≤ length (layout i a c k x tags)
    length-layout =
        rw
          (
            length-append i _,
            length-append a _,
            length-append (to_sv c) _,
            length-append (to_sv k) _,
            length-append (to_sv x) _,
            hi,
            ha,
            length-to_sv c,
            length-to_sv k,
            length-to_sv x,
          )
          (omega arith)

  -- An id and a public key of 32 bytes and three 64-bit numbers are packed without an error, the
  -- result is long enough for a view, and the view reads each field back; the rest of the buffer
  -- are the tags.
  pub fields-packed_event_builder :
      (i a : Bytes) (c k x : ℕ) (t : PackedEventTagBuilder)
      → length i ≡ 32
      → length a ≡ 32
      → c < 18446744073709551616
      → k < 18446744073709551616
      → x < 18446744073709551616
      → (v : PackedEventView) × ((packed_event_builder enc i a c k x t >>= packed_event_view)
          ≡ ok v)
        × (id v ≡ i)
        × (pubkey v ≡ a)
        × (created_at enc v ≡ c)
        × (kind enc v ≡ k)
        × (expiration enc v ≡ x)
        × (drop 88 v.buf ≡ t.buf)
  unfolding packed_event_builder packed_event_view id pubkey created_at kind expiration
  fields-packed_event_builder i a c k x t hi ha hc hk hx = (
    record { buf = layout i a c k x t.buf },
    ground (arith, length-layout i a c k x t.buf hi ha),
    take-append 32 i _ hi,
    slice_behind 32 32 i a _ hi ha,
    ap from_sv (slice_created i a c k x t.buf hi ha) ∙ from_sv-to_sv c hc,
    ap from_sv (slice_kind i a c k x t.buf hi ha) ∙ from_sv-to_sv k hk,
    ap from_sv (slice_expiration i a c k x t.buf hi ha) ∙ from_sv-to_sv x hx,
    drop_tags i a c k x t.buf hi ha,
  )
