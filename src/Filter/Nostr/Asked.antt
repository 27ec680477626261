-- ===== src/Filter/Nostr/Asked.antt =====
-- The filter that the program parses from JSON asks of an event exactly what the members of the JSON
-- ask.
use strfry_http.Base.{
  ℕ, ◌+◌, ◌≡◌, refl, sym, ap, ◌∙◌, subst, inl, inr, Bool, true, false, not, ◌&&◌, ◌||◌, List, [],
  ◌∷◌, some, Bytes, bytes_eq, codes, first_of_bytes, get_or, length, ltb, leb, ◌==◌, Result, ok,
  err, ◌>>=◌, with_ok, with_passed, ok-injective, any, all, arith, Bool-cases, unrecognised_item,
}
use strfry_http.Base.Json.{Json, get_array, get_unsigned, is_empty_array, object}
use strfry_http.Packed.{Encoding, PackedEventView, id, pubkey, created_at, kind, max_u64}
use strfry_http.Packed.Tags.{Tag}
use strfry_http.Filter.Nostr.{
  NostrFilter, parse_member, parse_members, parse_tag, emplace, has_tag, initial, finish,
  nostr_filter,
}
use strfry_http.Filter.Nostr.Match.{list_sets}
use strfry_http.Filter.Nostr.Meaning.{ListFilter, means}
use strfry_http.Base.{unindexed_tag, too_many_tags, Refines-elim, drop, Error}
use strfry_http.Base.Json.{Members, to_members}
use strfry_http.Packed.Tags.{encode}
use strfry_http.Filter.Nostr.{does_match}
use strfry_http.Filter.Nostr.Parse.{nostr_filter-Same}
use strfry_http.Filter.Nostr.Match.{packed_sets, packed_sets-refine, does_match-Same}
use strfry_http.Filter.Nostr.Meaning.{does_match-means}
use strfry_http.Filter.SetBytes.{collect}
use strfry_http.Filter.SetUint
use strfry_http.Filter.Nostr.Written.{meets, elements, is_the_string, strings-any, numbers-any}
use strfry_http.Filter.Nostr.Conditions.{read, tag_key}
use strfry_http.Filter.Nostr.Fresh.{Fresh, Reads}
use strfry_http.Filter.Nostr.Values.{Reads-ids, Reads-authors, Reads-kinds, Reads-tags, tag_asked}
use strfry_http.Filter.Nostr.Bounds.{Reads-since, Reads-until, Reads-limit, Reads-nothing}

err-ok {ℓ} : {A : Type ℓ} {e : Error} {a : A} → err e ≡ ok a → ⊥
err-ok h = cc

and_true : (b : Bool) → b ≡ (b && true)
and_true b = ground arith

and_true_both : (a b : Bool) → (a && b) ≡ true → (a ≡ true) × (b ≡ true)
and_true_both a b h = (ground (arith, h), ground (arith, h))

and_assoc : (a b c : Bool) → ((a && b) && c) ≡ (a && (b && c))
and_assoc a b c = ground arith

is_false : (b : Bool) → not b ≡ true → b ≡ false
is_false b h = ground (arith, h)

-- No key stands twice, as in the map of an object.
abbrev pub once_each : List Bytes → List (Bytes × Json) → Bool
once_each seen [] = true
once_each seen ((k, v) ∷ ms) = not (read k seen) && once_each (k ∷ seen) ms

module _ (from_hex : Bytes → Result Bytes) (enc : Encoding) (ev : PackedEventView)
    (tags : List Tag) where
  abbrev Read : List Bytes → Bytes → Json → ListFilter from_hex → ListFilter from_hex × ℕ → Type 0
  Read seen k v f st = Reads from_hex enc ev tags seen k v f st.0

  strings_step :
      (hex : Bool) (lo hi : ℕ) (k : Bytes) (v : Json) (seen : List Bytes) (f : ListFilter from_hex)
      (st : ListFilter from_hex × ℕ) (next : List Bytes → ListFilter from_hex × ℕ)
      → ((get_array v >>= collect from_hex hex lo hi) >>= (λ s. ok (next s))) ≡ ok st
      → ((xs : List Bytes)
          → ((x : Bytes) → any (bytes_eq x) xs ≡ any (is_the_string from_hex hex x) (elements v))
          → Read seen k v f (next xs))
      → Read seen k v f st
  strings_step hex lo hi k v seen f st next h reads =
      with_ok (get_array v >>= collect from_hex hex lo hi) _ h (λ xs e h1.
        subst (Read seen k v f) (ok-injective h1)
          (reads xs (λ x. strings-any from_hex hex lo hi v xs x e)))

  parse_tag-Reads :
      (k : Bytes) (v : Json) (seen : List Bytes) (f : ListFilter from_hex) (major : ℕ)
      (st : ListFilter from_hex × ℕ)
      → (parse_tag (list_sets from_hex) k v f >>= (λ g. ok (g, major + 1))) ≡ ok st
      → ((length k == 2) ≡ true
          → (xs : List Bytes)
          → ((x : Bytes)
              → any (bytes_eq x) xs
                ≡ any
                    (is_the_string from_hex (get_or k 1 0 == b'p' || get_or k 1 0 == b'e') x)
                    (elements v))
          → Reads from_hex enc ev tags seen k v f
              (record f { tags = emplace (list_sets from_hex) (get_or k 1 0) xs f.tags }))
      → Read seen k v f st
  unfolding parse_tag
  parse_tag-Reads k v seen f major st h reads =
      with_ok (parse_tag (list_sets from_hex) k v f) _ h (λ g e h1.
        elim (Bool-cases (length k == 2)) [
          | inr other ↦
              let e1 : parse_tag (list_sets from_hex) k v f ≡ err unindexed_tag =
                rw (parse_tag, other) refl in
              absurd (err-ok (sym e1 ∙ e))
          | inl two ↦ elim (Bool-cases (get_or k 1 0 == b'p' || get_or k 1 0 == b'e')) [
            | inl hex ↦
                let e1 : parse_tag (list_sets from_hex) k v f ≡ (
                    (get_array v >>= collect from_hex true 32 32) >>= (λ s.
                      ok (record f {
                        tags = emplace (list_sets from_hex) (get_or k 1 0) s f.tags;
                      }))) =
                  rw (parse_tag, two, hex) refl in
                with_ok (get_array v >>= collect from_hex true 32 32) _ (sym e1 ∙ e) (λ xs e2 h2.
                  subst (Read seen k v f)
                    (ap (λ g'. (g', major + 1)) (ok-injective h2) ∙ ok-injective h1)
                    (reads two xs (λ x.
                      strings-any from_hex true 32 32 v xs x e2
                      ∙ ap (λ b. any (is_the_string from_hex b x) (elements v)) (sym hex))))
            | inr plain ↦
                let e1 : parse_tag (list_sets from_hex) k v f ≡ (
                    (get_array v >>= collect from_hex false 0 255) >>= (λ s.
                      ok (record f {
                        tags = emplace (list_sets from_hex) (get_or k 1 0) s f.tags;
                      }))) =
                  rw (parse_tag, two, plain) refl in
                with_ok (get_array v >>= collect from_hex false 0 255) _ (sym e1 ∙ e) (λ xs e2 h2.
                  subst (Read seen k v f)
                    (ap (λ g'. (g', major + 1)) (ok-injective h2) ∙ ok-injective h1)
                    (reads two xs (λ x.
                      strings-any from_hex false 0 255 v xs x e2
                      ∙ ap (λ b. any (is_the_string from_hex b x) (elements v)) (sym plain))))
          ]
        ])

  others-Reads :
      (k : Bytes) (v : Json) (seen : List Bytes) (f : ListFilter from_hex) (major : ℕ)
      (st : ListFilter from_hex × ℕ)
      → Fresh from_hex seen f
      → read k seen ≡ false
      → leb (created_at enc ev) max_u64 ≡ true
      → is_empty_array v ≡ false
      → bytes_eq k (codes "ids") ≡ false
      → bytes_eq k (codes "authors") ≡ false
      → bytes_eq k (codes "kinds") ≡ false
      → parse_member (list_sets from_hex) k v (f, major) ≡ ok st
      → Read seen k v f st
  unfolding parse_member
  others-Reads k v seen f major st fresh new in_range filled n1 n2 n3 h =
      elim (Bool-cases (first_of_bytes k == b'#')) [
        | inl at ↦
            let e : parse_member (list_sets from_hex) k v (f, major)
                ≡ (parse_tag (list_sets from_hex) k v f >>= (λ g. ok (g, major + 1))) =
              rw (parse_member, filled, n1, n2, n3, at) refl in
            parse_tag-Reads k v seen f major st (sym e ∙ h) (λ two xs e'.
              Reads-tags from_hex enc ev tags k v seen f xs fresh new (tag_key k two at)
                (tag_asked from_hex enc ev tags k v xs filled n1 n2 n3 at e'))
        | inr n4 ↦ elim (Bool-cases (bytes_eq k (codes "since"))) [
          | inl at ↦
              let e : parse_member (list_sets from_hex) k v (f, major)
                  ≡ (get_unsigned v >>= (λ n. ok (record f { since = n }, major))) =
                rw (parse_member, filled, n1, n2, n3, n4, at) refl in
              with_ok (get_unsigned v) _ (sym e ∙ h) (λ n e' h'.
                subst (Read seen k v f) (ok-injective h') (
                  Reads-since from_hex enc ev tags k v seen f n fresh new filled n1 n2 n3 n4 at e'))
          | inr n5 ↦ elim (Bool-cases (bytes_eq k (codes "until"))) [
            | inl at ↦
                let e : parse_member (list_sets from_hex) k v (f, major)
                    ≡ (get_unsigned v >>= (λ n. ok (record f { until = n }, major))) =
                  rw (parse_member, filled, n1, n2, n3, n4, n5, at) refl in
                with_ok (get_unsigned v) _ (sym e ∙ h) (λ n e' h'.
                  subst (Read seen k v f) (ok-injective h') (
                    Reads-until from_hex enc ev tags k v seen f n fresh new filled n1 n2 n3 n4 n5 at
                      e' in_range))
            | inr n6 ↦ elim (Bool-cases (bytes_eq k (codes "limit"))) [
              | inl at ↦
                  let e : parse_member (list_sets from_hex) k v (f, major)
                      ≡ (get_unsigned v >>= (λ n. ok (record f { limit = n }, major))) =
                    rw (parse_member, filled, n1, n2, n3, n4, n5, n6, at) refl in
                  with_ok (get_unsigned v) _ (sym e ∙ h) (λ n e' h'.
                    subst (Read seen k v f) (ok-injective h') (
                      Reads-limit from_hex enc ev tags k v seen f n fresh
                        (rw (filled, n1, n2, n3, n4, n5, n6) refl)))
              | inr n7 ↦
                  let e : parse_member (list_sets from_hex) k v (f, major) ≡ err unrecognised_item =
                    rw (parse_member, filled, n1, n2, n3, n4, n5, n6, n7) refl in
                  absurd (err-ok (sym e ∙ h))
            ]
          ]
        ]
      ]

  member-Reads :
      (k : Bytes) (v : Json) (seen : List Bytes) (f : ListFilter from_hex) (major : ℕ)
      (st : ListFilter from_hex × ℕ)
      → Fresh from_hex seen f
      → read k seen ≡ false
      → leb (created_at enc ev) max_u64 ≡ true
      → parse_member (list_sets from_hex) k v (f, major) ≡ ok st
      → Read seen k v f st
  unfolding parse_member
  member-Reads k v seen f major st fresh new in_range h = elim (Bool-cases (is_empty_array v)) [
    | inl empty ↦
        let e : parse_member (list_sets from_hex) k v (f, major)
            ≡ ok (record f { never_match = true }, major) =
          rw (parse_member, empty) refl in
        subst (Read seen k v f) (ok-injective (sym e ∙ h))
          (Reads-nothing from_hex enc ev tags k v seen f fresh empty)
    | inr filled ↦ elim (Bool-cases (bytes_eq k (codes "ids"))) [
      | inl at ↦
          let e : parse_member (list_sets from_hex) k v (f, major) ≡ (
              (get_array v >>= collect from_hex true 32 32)
              >>= (λ s. ok (record f { ids = some s }, major + 1))) =
            rw (parse_member, filled, at) refl in
          strings_step true 32 32 k v seen f st (λ s. (record f { ids = some s }, major + 1))
            (sym e ∙ h)
            (λ xs e'. Reads-ids from_hex enc ev tags k v seen f xs fresh new filled at (e' (id ev)))
      | inr n1 ↦ elim (Bool-cases (bytes_eq k (codes "authors"))) [
        | inl at ↦
            let e : parse_member (list_sets from_hex) k v (f, major) ≡ (
                (get_array v >>= collect from_hex true 32 32)
                >>= (λ s. ok (record f { authors = some s }, major + 1))) =
              rw (parse_member, filled, n1, at) refl in
            strings_step true 32 32 k v seen f st (λ s. (record f { authors = some s }, major + 1))
              (sym e ∙ h)
              (λ xs e'.
                Reads-authors from_hex enc ev tags k v seen f xs fresh new filled n1 at
                  (e' (pubkey ev)))
        | inr n2 ↦ elim (Bool-cases (bytes_eq k (codes "kinds"))) [
          | inl at ↦
              let e : parse_member (list_sets from_hex) k v (f, major) ≡ (
                  (get_array v >>= SetUint.collect)
                  >>= (λ s. ok (record f { kinds = some s }, major + 1))) =
                rw (parse_member, filled, n1, n2, at) refl in
              with_ok (get_array v >>= SetUint.collect) _ (sym e ∙ h) (λ ns e' h'.
                subst (Read seen k v f) (ok-injective h') (
                  Reads-kinds from_hex enc ev tags k v seen f ns fresh new filled n1 n2 at
                    (numbers-any v ns (kind enc ev) e')))
          | inr n3 ↦ others-Reads k v seen f major st fresh new in_range filled n1 n2 n3 h
        ]
      ]
    ]
  ]

  members-Reads :
      (ms : List (Bytes × Json)) (seen : List Bytes) (f : ListFilter from_hex) (major : ℕ)
      (st : ListFilter from_hex × ℕ)
      → Fresh from_hex seen f
      → once_each seen ms ≡ true
      → leb (created_at enc ev) max_u64 ≡ true
      → parse_members (list_sets from_hex) ms (f, major) ≡ ok st
      → means from_hex st.0 enc ev tags
        ≡ (means from_hex f enc ev tags && all (meets from_hex enc ev tags) ms)
  unfolding parse_members
  members-Reads [] seen f major st fresh once in_range h =
      ap (λ s. means from_hex s.0 enc ev tags) (sym (ok-injective h)) ∙ and_true _
  members-Reads ((k, v) ∷ ms) seen f major st fresh once in_range h =
      let (new, once') = and_true_both _ _ once in
      with_ok (parse_member (list_sets from_hex) k v (f, major)) _ h (λ (g, n) e h'.
        let (fresh', one) =
          member-Reads k v seen f major (g, n) fresh (is_false _ new) in_range e in
        members-Reads ms (k ∷ seen) g n st fresh' once' in_range h'
        ∙ (ap (λ b. b && all (meets from_hex enc ev tags) ms) one
            ∙ and_assoc (means from_hex f enc ev tags) (meets from_hex enc ev tags (k, v))
                (all (meets from_hex enc ev tags) ms)))

  initial-Fresh : Fresh from_hex [] (initial (list_sets from_hex))
  unfolding initial has_tag
  initial-Fresh = record {
    ids = λ h. refl;
    authors = λ h. refl;
    kinds = λ h. refl;
    since = λ h. refl;
    until = λ h. refl;
    tags = λ t h. refl;
  }

  initial-means :
      leb (created_at enc ev) max_u64 ≡ true
      → means from_hex (initial (list_sets from_hex)) enc ev tags ≡ true
  unfolding initial
  initial-means in_range = ground (arith, in_range)

  -- Over lists, the filter asks what the members ask.
  nostr_filter-Asked :
      (ms : Members) (limit : ℕ) (g : ListFilter from_hex)
      → once_each [] (to_members ms) ≡ true
      → leb (created_at enc ev) max_u64 ≡ true
      → nostr_filter (list_sets from_hex) (object ms) limit ≡ ok g
      → means from_hex g enc ev tags ≡ all (meets from_hex enc ev tags) (to_members ms)
  unfolding nostr_filter finish initial
  nostr_filter-Asked ms limit g once in_range h =
      with_ok (parse_members (list_sets from_hex) (to_members ms) _) _ h (λ (f, major) e h1.
        with_passed (ltb 3 (length f.tags)) too_many_tags _ h1 (λ few h2.
          ap (λ g'. means from_hex g' enc ev tags) (sym (ok-injective h2))
          ∙ (members-Reads (to_members ms) [] (initial (list_sets from_hex)) 0 (f, major)
                initial-Fresh once in_range e
              ∙ ap (λ b. b && all (meets from_hex enc ev tags) (to_members ms))
                  (initial-means in_range))))

  -- A filter parsed from an object in which no key stands twice: on an event whose tag section is
  -- `encode tags` and whose time has 64 bits, `doesMatch` throws nothing and answers whether the event
  -- meets what each member of the object asks. `ids`, `authors` and `kinds` ask for one of their
  -- values, `#x` for a tag `x` with one of them, `since` and `until` for a time within the bound,
  -- `limit` for nothing; an empty array is met by no event.
  pub nostr_filter-meets :
      (ms : Members) (limit : ℕ) (f : NostrFilter (packed_sets from_hex))
      → nostr_filter (packed_sets from_hex) (object ms) limit ≡ ok f
      → once_each [] (to_members ms) ≡ true
      → drop 88 ev.buf ≡ encode tags
      → leb (created_at enc ev) max_u64 ≡ true
      → does_match (packed_sets from_hex) enc f ev
        ≡ ok (all (meets from_hex enc ev tags) (to_members ms))
  nostr_filter-meets ms limit f parsed once h in_range =
      let (g, made, same) =
        Refines-elim _ (nostr_filter (packed_sets from_hex) (object ms) limit) _
          (nostr_filter-Same (packed_sets-refine from_hex) (object ms) limit) parsed in
      does_match-Same (packed_sets-refine from_hex) enc f g ev same
      ∙ (does_match-means from_hex g enc ev tags h
          ∙ ap ok (nostr_filter-Asked ms limit g once in_range made))
