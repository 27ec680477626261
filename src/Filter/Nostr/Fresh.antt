-- ===== src/Filter/Nostr/Fresh.antt =====
-- What is known of a filter when some keys of its JSON were read, and what the reading of a member
-- does to it.
use strfry_http.Base.{
  ℕ, ◌≡◌, sym, ap, ◌∙◌, inl, inr, true, false, ◌&&◌, ◌||◌, List, [], ◌∷◌, ◌++◌, none, Bytes,
  bytes_eq, eq_of-bytes_eq, bytes_eq_refl, codes, ◌==◌, ==_iff, Result, arith, Bool-cases,
  true-false,
}
use strfry_http.Base.Json.{Json}
use strfry_http.Packed.{Encoding, PackedEventView, max_u64}
use strfry_http.Packed.Tags.{Tag}
use strfry_http.Filter.Nostr.{has_tag}
use strfry_http.Filter.Nostr.Match.{list_sets}
use strfry_http.Filter.Nostr.Meaning.{ListFilter, means}
use strfry_http.Filter.Nostr.Written.{meets}
use strfry_http.Filter.Nostr.Conditions.{read, or_false}

module _ (from_hex : Bytes → Result Bytes) where
  -- A field has its first value as long as its key was not read.
  pub record Fresh (seen : List Bytes) (f : ListFilter from_hex) : Type 0 where
    pub ids : read (codes "ids") seen ≡ false → f.ids ≡ none
    pub authors : read (codes "authors") seen ≡ false → f.authors ≡ none
    pub kinds : read (codes "kinds") seen ≡ false → f.kinds ≡ none
    pub since : read (codes "since") seen ≡ false → f.since ≡ 0
    pub until : read (codes "until") seen ≡ false → f.until ≡ max_u64
    pub tags :
        (t : ℕ) → read (b'#' ∷ t ∷ []) seen ≡ false → has_tag (list_sets from_hex) t f.tags ≡ false

  pub Fresh-more :
      (k : Bytes) (seen : List Bytes) (f : ListFilter from_hex) → Fresh seen f → Fresh (k ∷ seen) f
  Fresh-more k seen f fresh = record {
    ids = λ h. fresh.ids ((or_false (bytes_eq k (codes "ids")) _ h).1);
    authors = λ h. fresh.authors ((or_false (bytes_eq k (codes "authors")) _ h).1);
    kinds = λ h. fresh.kinds ((or_false (bytes_eq k (codes "kinds")) _ h).1);
    since = λ h. fresh.since ((or_false (bytes_eq k (codes "since")) _ h).1);
    until = λ h. fresh.until ((or_false (bytes_eq k (codes "until")) _ h).1);
    tags = λ t h. fresh.tags t ((or_false (bytes_eq k (b'#' ∷ t ∷ [])) _ h).1);
  }

  -- The key itself was read.
  pub is_read {ℓ} :
      {A : Type ℓ} (k j : Bytes) (seen : List Bytes)
      → bytes_eq k j ≡ true
      → read j (k ∷ seen) ≡ false
      → A
  is_read k j seen same h = absurd (true-false (sym same ∙ (or_false (bytes_eq k j) _ h).0))

  pub unread :
      (k j : Bytes) (seen : List Bytes)
      → bytes_eq k j ≡ true
      → read k seen ≡ false
      → read j seen ≡ false
  unread k j seen same h = ap (λ x. read x seen) (sym (eq_of-bytes_eq k j same)) ∙ h

  pub has_tag-append :
      (t tag : ℕ) (xs : List Bytes) (ts : List (ℕ × List Bytes))
      → has_tag (list_sets from_hex) t (ts ++ ((tag, xs) ∷ []))
        ≡ (has_tag (list_sets from_hex) t ts || tag == t)
  unfolding has_tag
  has_tag-append t tag xs [] = ground arith
  has_tag-append t tag xs ((u, ys) ∷ ts) = ground (arith, has_tag-append t tag xs ts)

  pub other_tag :
      (k : Bytes) (tag t : ℕ)
      → k ≡ b'#' ∷ tag ∷ []
      → bytes_eq k (b'#' ∷ t ∷ []) ≡ false
      → (tag == t) ≡ false
  other_tag k tag t e apart = elim (Bool-cases (tag == t)) [
    | inr other ↦ other
    | inl same ↦
        let same_key : b'#' ∷ t ∷ [] ≡ k =
          sym (e ∙ ap (λ c. b'#' ∷ c ∷ []) ((==_iff tag t).0 same)) in
        absurd (true-false (sym (bytes_eq_refl k) ∙ (ap (bytes_eq k) (sym same_key) ∙ apart)))
  ]

  module _ (enc : Encoding) (ev : PackedEventView) (tags : List Tag) where
    -- What the reading of a member does to the filter.
    abbrev pub Reads :
        List Bytes → Bytes → Json → ListFilter from_hex → ListFilter from_hex → Type 0
    Reads seen k v f g =
        Fresh (k ∷ seen) g
        × (means from_hex g enc ev tags
            ≡ (means from_hex f enc ev tags && meets from_hex enc ev tags (k, v)))
