-- ===== src/Filter/Nostr/Parse.antt =====
-- Parsing a filter keeps a relation between two implementations of its sets: where the one accepts a
-- filter, so does the other, and the filters answer alike on every event.
use strfry_http.Base.{
  ℕ, suc, ◌+◌, ◌≡◌, refl, ap, Bool, true, false, ◌||◌, List, [], ◌∷◌, ◌++◌, Option, none, some,
  Bytes, length, get_or, ltb, ◌==◌, if◌then◌else◌, Refines, Refines-if, Refines->>=,
  Refines-throw_if, Refines-refl, too_many_tags, bytes_eq, codes, Bool-cases, inl, inr,
  first_of_bytes,
}
use strfry_http.Base.Json.{Json, object, to_members, get_unsigned, is_empty_array}
use strfry_http.Filter.Nostr.{
  Sets, NostrFilter, initial, has_tag, emplace, parse_tag, parse_member, parse_members, finish,
  nostr_filter, is_some, index_only,
}

pub record SetsRefine (impl spec : Sets) : Type 1 where
  pub SameStrings : impl.Strings → spec.Strings → Type 0
  pub SameNumbers : impl.Numbers → spec.Numbers → Type 0
  pub strings_made :
      (v : Json) (hex : Bool) (lo hi : ℕ)
      → Refines SameStrings (impl.make_strings v hex lo hi) (spec.make_strings v hex lo hi)
  pub numbers_made : (v : Json) → Refines SameNumbers (impl.make_numbers v) (spec.make_numbers v)
  pub has_string_eq :
      (s : impl.Strings) (t : spec.Strings)
      → SameStrings s t
      → (c : Bytes) → impl.has_string s c ≡ spec.has_string t c
  pub has_number_eq :
      (s : impl.Numbers) (t : spec.Numbers)
      → SameNumbers s t
      → (c : ℕ) → impl.has_number s c ≡ spec.has_number t c

abbrev pub Both {ℓ κ} : {A : Type ℓ} {B : Type κ} → (A → B → Type 0) → Option A → Option B → Type 0
Both R none none = Unit
Both R (some a) (some b) = R a b
Both R _ _ = ⊥

abbrev pub SameTags {ℓ κ} :
    {A : Type ℓ} {B : Type κ} → (A → B → Type 0) → List (ℕ × A) → List (ℕ × B) → Type 0
SameTags R [] [] = Unit
SameTags R ((s, a) ∷ xs) ((t, b) ∷ ys) = (s ≡ t) × R a b × SameTags R xs ys
SameTags R _ _ = ⊥

is_some-Both {ℓ κ} :
    {A : Type ℓ} {B : Type κ} (R : A → B → Type 0) (x : Option A) (y : Option B)
    → Both R x y
    → is_some x ≡ is_some y
is_some-Both R none none h = refl
is_some-Both R none (some b) h = absurd h
is_some-Both R (some a) none h = absurd h
is_some-Both R (some a) (some b) h = refl

module _ {impl spec : Sets} (sr : SetsRefine impl spec) where
  open sr use {SameStrings, SameNumbers, strings_made, numbers_made}

  -- Two filters agree in every field.
  pub record SameFilter (f : NostrFilter impl) (g : NostrFilter spec) : Type 0 where
    pub ids : Both SameStrings f.ids g.ids
    pub authors : Both SameStrings f.authors g.authors
    pub kinds : Both SameNumbers f.kinds g.kinds
    pub tags : SameTags SameStrings f.tags g.tags
    pub since : f.since ≡ g.since
    pub until : f.until ≡ g.until
    pub limit : f.limit ≡ g.limit
    pub never_match : f.never_match ≡ g.never_match
    pub index_only_scans : f.index_only_scans ≡ g.index_only_scans

  abbrev SameState : NostrFilter impl × ℕ → NostrFilter spec × ℕ → Type 0
  SameState (f, m) (g, n) = SameFilter f g × (m ≡ n)

  has_tag-Same :
      (tag : ℕ) (xs : List (ℕ × impl.Strings)) (ys : List (ℕ × spec.Strings))
      → SameTags SameStrings xs ys
      → has_tag impl tag xs ≡ has_tag spec tag ys
  unfolding has_tag
  has_tag-Same tag [] [] h = refl
  has_tag-Same tag [] (y ∷ ys) h = absurd h
  has_tag-Same tag (x ∷ xs) [] h = absurd h
  has_tag-Same tag ((s, a) ∷ xs) ((t, b) ∷ ys) h = rw (h.0, has_tag-Same tag xs ys h.2)

  snoc-Same :
      (tag : ℕ) (a : impl.Strings) (b : spec.Strings) (xs : List (ℕ × impl.Strings))
      (ys : List (ℕ × spec.Strings))
      → SameTags SameStrings xs ys
      → SameStrings a b
      → SameTags SameStrings (xs ++ ((tag, a) ∷ [])) (ys ++ ((tag, b) ∷ []))
  snoc-Same tag a b [] [] h r = (refl, r, tt)
  snoc-Same tag a b [] (y ∷ ys) h r = absurd h
  snoc-Same tag a b (x ∷ xs) [] h r = absurd h
  snoc-Same tag a b ((s, x) ∷ xs) ((t, y) ∷ ys) h r = (h.0, h.1, snoc-Same tag a b xs ys h.2 r)

  emplace-Same :
      (tag : ℕ) (a : impl.Strings) (b : spec.Strings) (xs : List (ℕ × impl.Strings))
      (ys : List (ℕ × spec.Strings))
      → SameTags SameStrings xs ys
      → SameStrings a b
      → SameTags SameStrings (emplace impl tag a xs) (emplace spec tag b ys)
  unfolding emplace
  emplace-Same tag a b xs ys h r = elim (Bool-cases (has_tag spec tag ys)) [
    | inl e ↦ rw (has_tag-Same tag xs ys h, e) h
    | inr e ↦ rw (has_tag-Same tag xs ys h, e) (snoc-Same tag a b xs ys h r)
  ]

  length-Same :
      (xs : List (ℕ × impl.Strings)) (ys : List (ℕ × spec.Strings))
      → SameTags SameStrings xs ys
      → length xs ≡ length ys
  length-Same [] [] h = refl
  length-Same [] (y ∷ ys) h = absurd h
  length-Same (x ∷ xs) [] h = absurd h
  length-Same (x ∷ xs) (y ∷ ys) h = ap suc (length-Same xs ys h.2)

  parse_tag-Same :
      (k : Bytes) (v : Json) (f : NostrFilter impl) (g : NostrFilter spec)
      → SameFilter f g
      → Refines SameFilter (parse_tag impl k v f) (parse_tag spec k v g)
  unfolding parse_tag
  parse_tag-Same k v f g h =
      let tag = get_or k 1 0 in
      Refines-if _ (length k == 2) _ _ _ _
        (Refines->>= _ _ _ _ _ _
          (Refines-if SameStrings (tag == b'p' || tag == b'e') _ _ _ _ (strings_made v true 32 32)
            (strings_made v false 0 255))
          (λ s t r. (_, refl, assumption (emplace-Same tag s t f.tags g.tags h.tags r))))
        tt

  parse_member-Same :
      (k : Bytes) (v : Json) (f : NostrFilter impl) (g : NostrFilter spec) (m n : ℕ)
      → SameFilter f g
      → m ≡ n
      → Refines SameState (parse_member impl k v (f, m)) (parse_member spec k v (g, n))
  unfolding parse_member
  parse_member-Same k v f g m n h e =
      let one_more = ap (λ i. i + 1) e in
      Refines-if _ (is_empty_array v) _ _ _ _ (_, refl, assumption (refl))
        (Refines-if _ (bytes_eq k (codes "ids")) _ _ _ _
          (Refines->>= _ _ _ _ _ _ (strings_made v true 32 32)
            (λ s t r. (_, refl, assumption one_more)))
          (Refines-if _ (bytes_eq k (codes "authors")) _ _ _ _
            (Refines->>= _ _ _ _ _ _ (strings_made v true 32 32)
              (λ s t r. (_, refl, assumption one_more)))
            (Refines-if _ (bytes_eq k (codes "kinds")) _ _ _ _
              (Refines->>= _ _ _ _ _ _ (numbers_made v) (λ s t r. (_, refl, assumption one_more)))
              (Refines-if _ (first_of_bytes k == b'#') _ _ _ _
                (Refines->>= _ _ _ _ _ _ (parse_tag-Same k v f g h)
                  (λ f' g' r. (_, refl, (r, one_more))))
                (Refines-if _ (bytes_eq k (codes "since")) _ _ _ _
                  (Refines->>= _ _ _ _ _ _ (Refines-refl (get_unsigned v))
                    (λ a b r. (_, refl, assumption)))
                  (Refines-if _ (bytes_eq k (codes "until")) _ _ _ _
                    (Refines->>= _ _ _ _ _ _ (Refines-refl (get_unsigned v))
                      (λ a b r. (_, refl, assumption)))
                    (Refines-if _ (bytes_eq k (codes "limit")) _ _ _ _
                      (Refines->>= _ _ _ _ _ _ (Refines-refl (get_unsigned v))
                        (λ a b r. (_, refl, assumption)))
                      tt)))))))

  parse_members-Same :
      (ms : List (Bytes × Json)) (st : NostrFilter impl × ℕ) (st' : NostrFilter spec × ℕ)
      → SameState st st'
      → Refines SameState (parse_members impl ms st) (parse_members spec ms st')
  unfolding parse_members
  parse_members-Same [] st st' h = (st', refl, h)
  parse_members-Same ((k, v) ∷ ms) (f, m) (g, n) h =
      Refines->>= SameState SameState _ _ _ _ (parse_member-Same k v f g m n h.0 h.1)
        (λ st st' r. parse_members-Same ms st st' r)

  finish-Same :
      (limit : ℕ) (st : NostrFilter impl × ℕ) (st' : NostrFilter spec × ℕ)
      → SameState st st'
      → Refines SameFilter (finish impl limit st) (finish spec limit st')
  unfolding finish index_only
  finish-Same limit (f, m) (g, n) h =
      let limits = ap (λ x. if ltb limit x then limit else x) h.0.limit in
      let scans : index_only impl f m ≡ index_only spec g n =
        rw
          (
            h.1,
            is_some-Both SameStrings f.authors g.authors h.0.authors,
            is_some-Both SameNumbers f.kinds g.kinds h.0.kinds,
          )
          refl in
      rw (length-Same f.tags g.tags h.0.tags) (
        Refines-throw_if SameFilter (ltb 3 (length g.tags)) too_many_tags _ _
          (_, refl, assumption (limits, scans)))

  initial-Same : SameFilter (initial impl) (initial spec)
  unfolding initial
  initial-Same = record {
    ids = tt;
    authors = tt;
    kinds = tt;
    tags = tt;
    since = refl;
    until = refl;
    limit = refl;
    never_match = refl;
    index_only_scans = refl;
  }

  pub nostr_filter-Same :
      (v : Json) (limit : ℕ)
      → Refines SameFilter (nostr_filter impl v limit) (nostr_filter spec v limit)
  unfolding nostr_filter
  nostr_filter-Same (object ms) limit =
      Refines->>= SameState SameFilter _ _ _ _
        (parse_members-Same (to_members ms) _ _ (initial-Same, refl))
        (λ st st' r. finish-Same limit st st' r)
  nostr_filter-Same _ limit = tt
