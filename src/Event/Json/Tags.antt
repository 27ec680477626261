-- ===== src/Event/Json/Tags.antt =====
-- The tags that `nostrJsonToPackedEvent` indexes, and the expiration, one tag at a time.
use strfry_http.Base.{
  ℕ, ◌%◌, ◌≡◌, ◌≤◌, refl, sym, ap, ◌∙◌, subst, Bool, true, false, ◌&&◌, ◌||◌, List, [], ◌∷◌, ◌++◌,
  Bytes, Result, ok, err, ◌>>=◌, ◌>>◌, throw_if, length, leb, ltb, ◌==◌, if◌then◌else◌, bytes_eq,
  codes, arith, All, first_of_bytes, Bool-cases, inl, inr, >>=-eq-ok, throw_if-eq-ok, ok-injective,
  eq_of-bytes_eq, tag_val_too_long, event_tag_val_too_large, invalid_expiration, bad_fixed_size_tag,
  non_digit, not_a_number, out_of_range,
}
use mathlib.Core.List.{append-nil, append_assoc}
use strfry_http.Base.Json.{Json}
use strfry_http.Packed.{PackedEventTagBuilder, add}
use strfry_http.Packed.Tags.{Tag, Fits, encode}
use strfry_http.Event.Json.{
  Settings, Progress, decimal_value, parse_uint64, name_and_value, add_fixed_size, add_expiration,
  add_single_letter, add_named,
}

pub encode-append : (ts us : List Tag) → encode (ts ++ us) ≡ encode ts ++ encode us
encode-append [] us = refl
encode-append ((k, v) ∷ ts) us =
    rw (encode-append ts us)
      (ap (λ b. k ∷ length v ∷ b) (sym (append_assoc v (encode ts) (encode us))))

All-append : (ts us : List Tag) → All Fits ts → All Fits us → All Fits (ts ++ us)
All-append [] us h k = k
All-append (t ∷ ts) us (h, hs) k = (h, All-append ts us hs k)

-- The builder `t'` holds the tags `ts` behind those of `t`.
pub record Adds (ts : List Tag) (t t' : PackedEventTagBuilder) : Type 0 where
  pub buf : t'.buf ≡ t.buf ++ encode ts
  pub fits : All Fits ts

pub Adds-none : (t : PackedEventTagBuilder) → Adds [] t t
Adds-none t = record { buf = sym (append-nil t.buf); fits = tt }

pub Adds-both :
    (ts us : List Tag) (t t' t'' : PackedEventTagBuilder)
    → Adds ts t t'
    → Adds us t' t''
    → Adds (ts ++ us) t t''
Adds-both ts us t t' t'' a b = record {
  buf =
      b.buf
      ∙ ap (λ x. x ++ encode us) a.buf
      ∙ append_assoc t.buf (encode ts) (encode us)
      ∙ ap (λ x. t.buf ++ x) (sym (encode-append ts us));
  fits = All-append ts us a.fits b.fits;
}

pub add-Adds :
    (k : ℕ) (v : Bytes) (t t' : PackedEventTagBuilder) → add k v t ≡ ok t' → Adds ((k, v) ∷ []) t t'
unfolding add
add-Adds k v t t' h =
    let (small, e) = throw_if-eq-ok (ltb 255 (length v)) tag_val_too_long _ h in
    let same : length v % 256 ≡ length v = ground (arith, small) in
    let bound : length v ≤ 255 = ground (arith, small) in
    record { buf = rw (← ok-injective e, same, append-nil v) refl; fits = (bound, tt) }

-- The tags that are indexed.
module _ (settings : Settings) where
  abbrev pub indexed_tag : Bytes → Bytes → List Tag
  indexed_tag tag_name tag_val =
      if bytes_eq tag_name (codes "e") || bytes_eq tag_name (codes "p")
      then elim (settings.from_hex tag_val) [
        | ok raw ↦ (first_of_bytes tag_name, raw) ∷ []
        | err e ↦ []
      ]
      else if length tag_name == 1 && leb (length tag_val) 255
      then (first_of_bytes tag_name, tag_val) ∷ []
      else []

  abbrev pub indexed_tags : List (Bytes × Bytes) → List Tag
  indexed_tags [] = []
  indexed_tags ((tag_name, tag_val) ∷ rest) = indexed_tag tag_name tag_val ++ indexed_tags rest

-- The value of the first tag named "expiration", and 0 without one.
abbrev pub first_expiration : List (Bytes × Bytes) → ℕ
first_expiration [] = 0
first_expiration ((tag_name, tag_val) ∷ rest) =
    let later = first_expiration rest in
    if bytes_eq tag_name (codes "expiration") then decimal_value 0 tag_val else later

abbrev pub names_and_values : List Json → Result (List (Bytes × Bytes))
names_and_values [] = ok []
names_and_values (v ∷ vs) = do t ← name_and_value v; ts ← names_and_values vs; ok (t ∷ ts)

abbrev pub virtual_tag : Bool → List Tag
virtual_tag wanted = if wanted then (b'd', []) ∷ [] else []

parse_uint64-value : (s : Bytes) (n : ℕ) → parse_uint64 s ≡ ok n → n ≡ decimal_value 0 s
unfolding parse_uint64
parse_uint64-value s n h =
    let (a, e) = throw_if-eq-ok _ non_digit _ h in
    let (b, e') = throw_if-eq-ok _ not_a_number _ e in
    let (c, e'') = throw_if-eq-ok _ out_of_range _ e' in sym (ok-injective e'')

not_fixed_size :
    (s : Bytes)
    → bytes_eq s (codes "expiration") ≡ true
    → ((bytes_eq s (codes "e") || bytes_eq s (codes "p")) ≡ false) × ((length s == 1) ≡ false)
unfolding bytes_eq
not_fixed_size s h = rw (eq_of-bytes_eq s (codes "expiration") h) (refl, refl)

module _ (settings : Settings) where
  -- One tag: what it adds, and the expiration after it.
  pub record Steps (tag_name tag_val : Bytes) (p p' : Progress) : Type 0 where
    pub adds : Adds (indexed_tag settings tag_name tag_val) p.tags p'.tags
    pub expires : p'.expiration ≡ (
        if bytes_eq tag_name (codes "expiration") && p.expiration == 0
        then decimal_value 0 tag_val
        else p.expiration)
    pub set_once : bytes_eq tag_name (codes "expiration") ≡ true → (p'.expiration == 0) ≡ false

  add_fixed_size-Adds :
      (k : ℕ) (v : Bytes) (p p' : Progress)
      → add_fixed_size settings k v p ≡ ok p'
      → (raw : Bytes) × (settings.from_hex v ≡ ok raw)
        × Adds ((k, raw) ∷ []) p.tags p'.tags
        × (p'.expiration ≡ p.expiration)
  unfolding add_fixed_size
  add_fixed_size-Adds k v p p' h =
      let (a, e) = throw_if-eq-ok _ bad_fixed_size_tag _ h in
      let (raw, r, e') = >>=-eq-ok (settings.from_hex v) _ e in
      let (t, r', e'') = >>=-eq-ok (add k raw p.tags) _ e' in
      let same = ok-injective e'' in
      (
        raw,
        r,
        subst (λ q. Adds ((k, raw) ∷ []) p.tags q.tags) same (add-Adds k raw p.tags t r'),
        sym (ap (λ q. q.expiration) same),
      )

  add_single_letter-Adds :
      (k : ℕ) (v : Bytes) (p p' : Progress)
      → add_single_letter settings k v p ≡ ok p'
      → Adds (if leb (length v) 255 then (k, v) ∷ [] else []) p.tags p'.tags
        × (p'.expiration ≡ p.expiration)
  unfolding add_single_letter
  add_single_letter-Adds k v p p' h =
      let added = add k v p.tags >>= λ tags. ok (record p { tags = tags }) in
      let (a, e) =
        throw_if-eq-ok _ event_tag_val_too_large (if leb (length v) 255 then added else ok p) h in
      elim (Bool-cases (leb (length v) 255)) [
        | inl small ↦
            let e1 : added ≡ ok p' = rw (← e, small) refl in
            let (t, r, e2) = >>=-eq-ok (add k v p.tags) _ e1 in
            let same = ok-injective e2 in
            rw small (
              subst (λ q. Adds ((k, v) ∷ []) p.tags q.tags) same (add-Adds k v p.tags t r),
              sym (ap (λ q. q.expiration) same),
            )
        | inr large ↦
            let same : p ≡ p' = ok-injective (rw (← e, large) refl) in
            rw (large, ← same) (Adds-none p.tags, refl)
      ]

  add_expiration-sets :
      (v : Bytes) (p p' : Progress)
      → add_expiration settings v p ≡ ok p'
      → (p'.tags ≡ p.tags)
        × (p'.expiration ≡ (if p.expiration == 0 then decimal_value 0 v else p.expiration))
        × ((p'.expiration == 0) ≡ false)
  unfolding add_expiration
  add_expiration-sets v p p' h = elim (Bool-cases (p.expiration == 0)) [
    | inl unset ↦
        let parsed = parse_uint64 v >>= λ expires.
        throw_if (ltb expires 100) invalid_expiration >> ok (record p { expiration = expires }) in
        let e : parsed ≡ ok p' = rw (← h, unset) refl in
        let (n, r, e') = >>=-eq-ok (parse_uint64 v) _ e in
        let (large, e'') = throw_if-eq-ok (ltb n 100) invalid_expiration _ e' in
        rw (unset, ← ok-injective e'') (refl, parse_uint64-value v n r, ground (arith, large))
    | inr before ↦
        let same : p ≡ p' = ok-injective (rw (← h, before) refl) in
        rw (← same, before) (refl, refl, refl)
  ]

  pub add_named-Steps :
      (tag_name tag_val : Bytes) (p p' : Progress)
      → add_named settings tag_name tag_val p ≡ ok p'
      → Steps tag_name tag_val p p'
  unfolding add_named
  add_named-Steps tag_name tag_val p p' h =
      elim (Bool-cases (bytes_eq tag_name (codes "expiration"))) [
        | inl expires ↦
            let (other, long) = not_fixed_size tag_name expires in
            let e : add_expiration settings tag_val p ≡ ok p' = rw (← h, other, expires) refl in
            let (tags, n, set) = add_expiration-sets tag_val p p' e in
            record {
              adds = rw (other, long, tags) (Adds-none p.tags);
              expires = rw expires n;
              set_once = λ _. set;
            }
        | inr keeps ↦
            elim (Bool-cases (bytes_eq tag_name (codes "e") || bytes_eq tag_name (codes "p"))) [
              | inl fixed ↦
                  let e : add_fixed_size settings (first_of_bytes tag_name) tag_val p ≡ ok p' =
                    rw (← h, fixed) refl in
                  let (raw, r, a, n) =
                    add_fixed_size-Adds (first_of_bytes tag_name) tag_val p p' e in
                  record { adds = rw (fixed, r) a; expires = rw keeps n; set_once = λ t. cc }
              | inr other ↦ elim (Bool-cases (length tag_name == 1)) [
                | inl letter ↦
                    let e : add_single_letter settings (first_of_bytes tag_name) tag_val p ≡ ok p' =
                      rw (← h, other, keeps, letter) refl in
                    let (a, n) = add_single_letter-Adds (first_of_bytes tag_name) tag_val p p' e in
                    record { adds = rw (other, letter) a; expires = rw keeps n; set_once = λ t. cc }
                | inr long ↦
                    let same : p ≡ p' = ok-injective (rw (← h, other, keeps, long) refl) in
                    record {
                      adds = rw (other, long, ← same) (Adds-none p.tags);
                      expires = rw (keeps, ← same) refl;
                      set_once = λ t. cc;
                    }
              ]
            ]
      ]
