-- ===== src/Event/Json/Whole.antt =====
-- What `nostrJsonToPackedEvent` packs: the fields as the JSON gives them, and the tags that are
-- indexed, between the virtual d-tags.
use strfry_http.Base.{
  ℕ, ◌≡◌, refl, subst, Bool, true, false, List, [], ◌∷◌, ◌++◌, Bytes, ok, ◌>>=◌, length, ltb, ◌==◌,
  if◌then◌else◌, bytes_eq, codes, arith, All, not, Bool-cases, inl, inr, >>=-eq-ok, with_ok,
  with_passed, ok-injective, too_many_event_tags, unexpected_id_size, unexpected_pubkey_size,
}
use strfry_http.Base.Json.{Json, at}
use strfry_http.Packed.{Encoding, PackedEventTagBuilder, packed_event_builder}
use strfry_http.Packed.Tags.{Fits, encode}
use strfry_http.Packed.Layout.{layout}
use strfry_http.Event.Json.{
  Settings, Progress, json_get_string, json_get_unsigned, json_get_array, name_and_value, add_named,
  add_tags, add_virtual, nostr_json_to_packed_event, is_replaceable_kind, is_param_replaceable_kind,
  is_ephemeral_kind,
}
use strfry_http.Event.Json.Tags.{
  Adds, Adds-none, Adds-both, add-Adds, indexed_tags, first_expiration, names_and_values,
  virtual_tag, Steps, add_named-Steps,
}

size_of : (n : ℕ) → not (n == 32) ≡ false → n ≡ 32
size_of n h = ground arith

module _ (settings : Settings) where
  record Walks (l : List Json) (p p' : Progress) : Type 0 where
    pairs : List (Bytes × Bytes)
    named : names_and_values l ≡ ok pairs
    adds : Adds (indexed_tags settings pairs) p.tags p'.tags
    expires : p'.expiration ≡ (if p.expiration == 0 then first_expiration pairs else p.expiration)

  first_step :
      (n v : Bytes) (p q p' : Progress) (rest : List (Bytes × Bytes))
      → Steps settings n v p q
      → p'.expiration ≡ (if q.expiration == 0 then first_expiration rest else q.expiration)
      → p'.expiration
        ≡ (if p.expiration == 0 then first_expiration ((n, v) ∷ rest) else p.expiration)
  first_step n v p q p' rest s h = elim (Bool-cases (bytes_eq n (codes "expiration"))) [
    | inl expires ↦
        let e = s.expires in let set = s.set_once expires in ground (arith, expires, set, e, h)
    | inr keeps ↦ let e = s.expires in ground (arith, keeps, e, h)
  ]

  add_tags-Walks : (l : List Json) (p p' : Progress) → add_tags settings l p ≡ ok p' → Walks l p p'
  unfolding add_tags
  add_tags-Walks [] p p' h =
      let same = ok-injective h in
      record {
        pairs = [];
        named = refl;
        adds = subst (λ q. Adds [] p.tags q.tags) same (Adds-none p.tags);
        expires = rw (← same) ground arith;
      }
  add_tags-Walks (tag_arr ∷ l) p p' h =
      let ((n, v), r, e) = >>=-eq-ok (name_and_value tag_arr) _ h in
      let (q, r', e') = >>=-eq-ok (add_named settings n v p) _ e in
      let step = add_named-Steps settings n v p q r' in
      let w = add_tags-Walks l q p' e' in
      record {
        pairs = (n, v) ∷ w.pairs;
        named = rw (r, w.named) refl;
        adds = Adds-both _ _ p.tags q.tags p'.tags step.adds w.adds;
        expires = first_step n v p q p' w.pairs step w.expires;
      }

  add_virtual-Adds :
      (wanted : Bool) (t t' : PackedEventTagBuilder)
      → add_virtual settings wanted t ≡ ok t'
      → Adds (virtual_tag wanted) t t'
  unfolding add_virtual
  add_virtual-Adds true t t' h = add-Adds b'd' [] t t' h
  add_virtual-Adds false t t' h = subst (Adds [] t) (ok-injective h) (Adds-none t)

  -- What a packed event `buf` of the JSON `v` holds.
  pub record IsPacked (enc : Encoding) (v : Json) (buf : Bytes) : Type 0 where
    pub event_id : Bytes
    pub author : Bytes
    pub created : ℕ
    pub event_kind : ℕ
    pub tag_list : List Json
    pub pairs : List (Bytes × Bytes)
    pub ids : (at v (codes "id") >>= json_get_string >>= settings.from_hex) ≡ ok event_id
    pub authors : (at v (codes "pubkey") >>= json_get_string >>= settings.from_hex) ≡ ok author
    pub id_size : length event_id ≡ 32
    pub author_size : length author ≡ 32
    pub times : (at v (codes "created_at") >>= json_get_unsigned) ≡ ok created
    pub kinds : (at v (codes "kind") >>= json_get_unsigned) ≡ ok event_kind
    pub lists : (at v (codes "tags") >>= json_get_array) ≡ ok tag_list
    pub not_too_many : ltb settings.max_num_tags (length tag_list) ≡ false
    pub named : names_and_values tag_list ≡ ok pairs
    pub fits : All Fits (
        virtual_tag (is_replaceable_kind event_kind)
        ++ (indexed_tags settings pairs ++ virtual_tag (is_param_replaceable_kind event_kind)))
    pub bytes :
        buf
        ≡ layout enc event_id author created event_kind
            (if is_ephemeral_kind event_kind then 1 else first_expiration pairs)
            (encode (
              virtual_tag (is_replaceable_kind event_kind)
              ++ (indexed_tags settings pairs
                  ++ virtual_tag (is_param_replaceable_kind event_kind))))

  -- The fields and tags once they are read.
  assembled :
      (enc : Encoding) (v : Json) (buf event_id author : Bytes) (created event_kind : ℕ)
      (tag_list : List Json) (first : PackedEventTagBuilder) (p : Progress)
      (last : PackedEventTagBuilder)
      → (at v (codes "id") >>= json_get_string >>= settings.from_hex) ≡ ok event_id
      → (at v (codes "pubkey") >>= json_get_string >>= settings.from_hex) ≡ ok author
      → (at v (codes "created_at") >>= json_get_unsigned) ≡ ok created
      → (at v (codes "kind") >>= json_get_unsigned) ≡ ok event_kind
      → (at v (codes "tags") >>= json_get_array) ≡ ok tag_list
      → ltb settings.max_num_tags (length tag_list) ≡ false
      → add_virtual settings (is_replaceable_kind event_kind) (record { buf = [] }) ≡ ok first
      → add_tags settings tag_list (record { expiration = 0; tags = first }) ≡ ok p
      → add_virtual settings (is_param_replaceable_kind event_kind) p.tags ≡ ok last
      → packed_event_builder enc event_id author created event_kind
          (if is_ephemeral_kind event_kind then 1 else p.expiration)
          last
        ≡ ok buf
      → IsPacked enc v buf
  unfolding packed_event_builder
  assembled enc v buf event_id author created event_kind tag_list first p last ids authors times
        kinds lists few r s t h =
      let w = add_tags-Walks tag_list (record { expiration = 0; tags = first }) p s in
      let front = add_virtual-Adds (is_replaceable_kind event_kind) (record { buf = [] }) first r in
      let back = add_virtual-Adds (is_param_replaceable_kind event_kind) p.tags last t in
      let all_of =
        Adds-both _ _ (record { buf = [] }) first last front
          (Adds-both _ _ first p.tags last w.adds back) in
      with_passed (not (length event_id == 32)) unexpected_id_size _ h (λ i h1.
        with_passed (not (length author == 32)) unexpected_pubkey_size _ h1 (λ a h2. record {
          event_id = event_id;
          author = author;
          created = created;
          event_kind = event_kind;
          tag_list = tag_list;
          pairs = w.pairs;
          ids = ids;
          authors = authors;
          id_size = size_of (length event_id) i;
          author_size = size_of (length author) a;
          times = times;
          kinds = kinds;
          lists = lists;
          not_too_many = few;
          named = w.named;
          fits = all_of.fits;
          bytes = rw (← ok-injective h2, all_of.buf, w.expires) refl;
        }))

  -- Where the JSON of an event is accepted, the packed event has the fields of the JSON and, as its
  -- tags, the indexed ones in order, between the virtual d-tags of the event's kind; every one fits
  -- its length byte. The expiration is that of the first expiration tag, and 1 for ephemeral kinds.
  pub nostr_json_to_packed_event-IsPacked :
      (enc : Encoding) (v : Json) (buf : Bytes)
      → nostr_json_to_packed_event settings enc v ≡ ok buf
      → IsPacked enc v buf
  unfolding nostr_json_to_packed_event
  nostr_json_to_packed_event-IsPacked enc v buf h =
      with_ok (at v (codes "id") >>= json_get_string) _ h (λ id_hex r1 h1.
        with_ok (settings.from_hex id_hex) _ h1 (λ event_id r2 h2.
          with_ok (at v (codes "pubkey") >>= json_get_string) _ h2 (λ pubkey_hex r3 h3.
            with_ok (settings.from_hex pubkey_hex) _ h3 (λ author r4 h4.
              with_ok (at v (codes "created_at") >>= json_get_unsigned) _ h4 (λ created r5 h5.
                with_ok (at v (codes "kind") >>= json_get_unsigned) _ h5 (λ event_kind r6 h6.
                  with_passed (not (length event_id == 32)) unexpected_id_size _ h6 (λ i h7.
                    with_passed (not (length author == 32)) unexpected_pubkey_size _ h7 (λ a h8.
                      with_ok (at v (codes "content") >>= json_get_string) _ h8 (λ content r9 h9.
                        with_ok
                          (add_virtual settings (is_replaceable_kind event_kind)
                            (record { buf = [] }))
                          _ h9
                          (λ first r10 h10.
                            with_ok (at v (codes "tags") >>= json_get_array) _ h10
                              (λ tag_list r11 h11.
                                with_passed (ltb settings.max_num_tags (length tag_list))
                                  too_many_event_tags _ h11
                                  (λ few h12.
                                    with_ok
                                      (add_tags settings tag_list
                                        (record { expiration = 0; tags = first }))
                                      _ h12
                                      (λ p r13 h13.
                                        with_ok
                                          (add_virtual settings
                                            (is_param_replaceable_kind event_kind) p.tags)
                                          _ h13
                                          (λ last r14 h14.
                                            assembled enc v buf event_id author created event_kind
                                              tag_list first p last (rw r1 r2) (rw r3 r4) r5 r6 r11
                                              few r10 r13 r14 h14))))))))))))))
