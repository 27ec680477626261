-- ===== src/Store/Index.antt =====
-- The index keys of an event, the `indexPrelude` of golpe.yaml. A key is a string and a number, or
-- a number, as golpe's key types have them.
use strfry_http.Base.{
  ℕ, zero, suc, ◌≡◌, refl, Bool, true, false, not, ◌&&◌, List, [], ◌∷◌, ◌++◌, Option, none, some,
  Bytes, Result, ok, ◌>>=◌, length, ltb, ◌==◌, if◌then◌else◌, arith, drop, take, with_ok,
  Bool-cases, inl, inr, ok-injective, sym, ap, ◌∙◌,
}
use strfry_http.Packed.{
  Encoding, PackedEventView, id, pubkey, created_at, kind, expiration, foreach_tag,
  foreach_tag_loop, Callback,
}

-- The keys that the tags add.
pub record TagKeys : Type 0 where
  pub tag : List (Bytes × ℕ)
  pub replace : Option (Bytes × ℕ)
  pub deletion : List Bytes

pub record Keys : Type 0 where
  pub created_at : ℕ
  pub id : Bytes × ℕ
  pub pubkey : Bytes × ℕ
  pub kind : ℕ × ℕ
  pub pubkey_kind : Bytes × ℕ × ℕ
  pub tags : TagKeys
  pub expiration : Option ℕ

module _ (enc : Encoding) where
  -- The callback on a tag: only the first d-tag has a key for replacement, and only the e-tags of an
  -- event of kind 5 have keys for deletion.
  unfoldable pub next_keys : PackedEventView → TagKeys → ℕ → Bytes → TagKeys
  next_keys v keys tag_name tag_val =
      let tag = keys.tag ++ ((tag_name ∷ tag_val, created_at enc v) ∷ []) in
      let replaced = record keys { tag = tag; replace = some (pubkey v ++ tag_val, kind enc v) } in
      let deleted = record keys {
        tag = tag;
        deletion = keys.deletion ++ ((tag_val ++ pubkey v) ∷ []);
      } in
      let first : Bool = elim keys.replace [ none ↦ true | some r ↦ false ] in
      if tag_name == b'd' && first
      then replaced
      else if tag_name == b'e' && kind enc v == 5
      then deleted
      else record keys { tag = tag }

  unfoldable pub add_tag_keys : PackedEventView → Callback TagKeys
  add_tag_keys v keys tag_name tag_val = ok (next_keys v keys tag_name tag_val, true)

  abbrev pub no_tag_keys : TagKeys
  no_tag_keys = record { tag = []; replace = none; deletion = [] }

  unfoldable pub index_keys : PackedEventView → Result Keys
  index_keys v = do
    tags ← foreach_tag (add_tag_keys v) no_tag_keys v
    ok (record {
      created_at = created_at enc v;
      id = (id v, created_at enc v);
      pubkey = (pubkey v, created_at enc v);
      kind = (kind enc v, created_at enc v);
      pubkey_kind = (pubkey v, kind enc v, created_at enc v);
      tags = tags;
      expiration = if expiration enc v == 0 then none else some (expiration enc v);
    })

  -- The search of `writeEvents` for the first d-tag.
  unfoldable pub find_d_tag : Callback (Option Bytes)
  find_d_tag found tag_name tag_val =
      if not (tag_name == b'd') then ok (found, true) else ok (some tag_val, false)

  unfoldable pub first_d_tag : PackedEventView → Result (Option Bytes)
  first_d_tag v = foreach_tag find_d_tag none v

  next_keys-replace :
      (v : PackedEventView) (keys : TagKeys) (n : ℕ) (val : Bytes) (r : Bytes × ℕ)
      → keys.replace ≡ some r
      → (next_keys v keys n val).replace ≡ some r
  unfolding next_keys
  next_keys-replace v keys n val r h = rw h (ground arith)

  next_keys-first :
      (v : PackedEventView) (keys : TagKeys) (n : ℕ) (val : Bytes)
      → keys.replace ≡ none
      → (n == b'd') ≡ true
      → (next_keys v keys n val).replace ≡ some (pubkey v ++ val, kind enc v)
  unfolding next_keys
  next_keys-first v keys n val h d = rw (h, d) refl

  next_keys-none :
      (v : PackedEventView) (keys : TagKeys) (n : ℕ) (val : Bytes)
      → keys.replace ≡ none
      → (n == b'd') ≡ false
      → (next_keys v keys n val).replace ≡ none
  unfolding next_keys
  next_keys-none v keys n val h d = rw d (ground (arith, h))

  -- The replacement key that the walk ends with: the one there was, or the first d-tag's.
  walk-replace :
      (v : PackedEventView) (fuel : ℕ) (keys keys' : TagKeys) (r : Bytes × ℕ) (b : Bytes)
      → keys.replace ≡ some r
      → foreach_tag_loop (add_tag_keys v) fuel keys b ≡ ok keys'
      → keys'.replace ≡ some r
  unfolding foreach_tag_loop add_tag_keys
  walk-replace v fuel keys keys' r [] h e = ap (λ k. k.replace) (sym (ok-injective e)) ∙ h
  walk-replace v zero keys keys' r (n ∷ b) h e = cc
  walk-replace v (suc fuel) keys keys' r (n ∷ []) h e = cc
  walk-replace v (suc fuel) keys keys' r (n ∷ l ∷ b) h e = elim (Bool-cases (ltb (length b) l)) [
    | inl short ↦ cc (rw short at e)
    | inr long ↦
        walk-replace v fuel (next_keys v keys n (take l b)) keys' r (drop l b)
          (next_keys-replace v keys n (take l b) r h) (rw long at e)
  ]

  abbrev pub replace_key : PackedEventView → Option Bytes → Option (Bytes × ℕ)
  replace_key v none = none
  replace_key v (some d) = some (pubkey v ++ d, kind enc v)

  -- The search of `writeEvents` finds the d-tag that the replacement key was made of.
  walk-first_d_tag :
      (v : PackedEventView) (fuel : ℕ) (keys keys' : TagKeys) (b : Bytes)
      → keys.replace ≡ none
      → foreach_tag_loop (add_tag_keys v) fuel keys b ≡ ok keys'
      → (d : Option Bytes) × (foreach_tag_loop find_d_tag fuel none b ≡ ok d)
        × (keys'.replace ≡ replace_key v d)
  unfolding foreach_tag_loop add_tag_keys find_d_tag
  walk-first_d_tag v fuel keys keys' [] h e =
      (none, refl, ap (λ k. k.replace) (sym (ok-injective e)) ∙ h)
  walk-first_d_tag v zero keys keys' (n ∷ b) h e = cc
  walk-first_d_tag v (suc fuel) keys keys' (n ∷ []) h e = cc
  walk-first_d_tag v (suc fuel) keys keys' (n ∷ l ∷ b) h e = elim (Bool-cases (ltb (length b) l)) [
    | inl short ↦ cc (rw short at e)
    | inr long ↦
        let e' : foreach_tag_loop (add_tag_keys v) fuel (next_keys v keys n (take l b)) (drop l b)
            ≡ ok keys' =
          rw long at e in
        elim (Bool-cases (n == b'd')) [
          | inl d ↦ (
            some (take l b),
            rw (d) refl,
            walk-replace v fuel (next_keys v keys n (take l b)) keys'
                (pubkey v ++ take l b, kind enc v) (drop l b)
                (next_keys-first v keys n (take l b) h d) e',
          )
          | inr other ↦
              let (d, w, r) =
                walk-first_d_tag v fuel (next_keys v keys n (take l b)) keys' (drop l b)
                  (next_keys-none v keys n (take l b) h other) e' in
              (d, rw (other, long) w, r)
        ]
  ]

  pub first_d_tag-replace :
      (v : PackedEventView) (k : Keys)
      → index_keys v ≡ ok k
      → (d : Option Bytes) × (first_d_tag v ≡ ok d) × (k.tags.replace ≡ replace_key v d)
  unfolding index_keys first_d_tag foreach_tag
  first_d_tag-replace v k h = with_ok (foreach_tag (add_tag_keys v) no_tag_keys v) _ h (λ tags r e.
      let (d, w, q) =
        walk-first_d_tag v (length (drop 88 v.buf)) no_tag_keys tags (drop 88 v.buf) refl r in
      (d, w, ap (λ x. x.tags.replace) (sym (ok-injective e)) ∙ q))

-- Where one callback that always goes on walks through the tags, every other does.
walks :
    {S T : Type 0} (f : S → ℕ → Bytes → S) (g : T → ℕ → Bytes → T) (fuel : ℕ) (s s' : S) (t : T)
    (b : Bytes)
    → foreach_tag_loop (λ x n v. ok (f x n v, true)) fuel s b ≡ ok s'
    → (t' : T) × (foreach_tag_loop (λ x n v. ok (g x n v, true)) fuel t b ≡ ok t')
unfolding foreach_tag_loop
walks f g fuel s s' t [] h = (t, refl)
walks f g zero s s' t (n ∷ b) h = cc
walks f g (suc fuel) s s' t (n ∷ []) h = cc
walks f g (suc fuel) s s' t (n ∷ l ∷ b) h = elim (Bool-cases (ltb (length b) l)) [
  | inl short ↦ cc (rw short at h)
  | inr long ↦
      let (t', e) =
        walks f g fuel (f s n (take l b)) s' (g t n (take l b)) (drop l b) (rw long at h) in
      (t', rw long e)
]

pub index_keys-walks :
    (enc : Encoding) {T : Type 0} (g : T → ℕ → Bytes → T) (t : T) (v : PackedEventView) (k : Keys)
    → index_keys enc v ≡ ok k
    → (t' : T) × (foreach_tag (λ x n val. ok (g x n val, true)) t v ≡ ok t')
unfolding index_keys foreach_tag add_tag_keys
index_keys-walks enc g t v k h =
    with_ok (foreach_tag (add_tag_keys enc v) (no_tag_keys enc) v) _ h (λ tags r e.
      walks (next_keys enc v) g (length (drop 88 v.buf)) (no_tag_keys enc) tags t (drop 88 v.buf) r)
