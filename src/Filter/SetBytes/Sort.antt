-- ===== src/Filter/SetBytes/Sort.antt =====
-- The order that `FilterSetBytes` sorts its values in, and the distinct ones among them.
use strfry_http.Base.{
  ◌≡◌, refl, ap, subst, ◌∙◌, Bool, true, false, ◌||◌, List, [], ◌∷◌, Option, none, some, Bytes,
  bytes_lt, bytes_eq, All, any, arith, Bool-cases, inl, inr, if◌then◌else◌, bytes_lt_trans,
  bytes_lt_irrefl, bytes_eq_refl, eq_of-bytes_eq, bytes_trichotomy,
}
use strfry_http.Filter.SetBytes.{insert_sorted, sort, same_as}
use strfry_http.Filter.SetBytes.Lookup.{StrictlySorted}

-- Each value is not above any that follows it.
abbrev Sorted : List Bytes → Type 0
Sorted [] = Unit
Sorted (x ∷ xs) = All (λ y. bytes_lt y x ≡ false) xs × Sorted xs

-- `<` and "not above" chain.
not-above_trans :
    (x y z : Bytes) → bytes_lt y x ≡ false → bytes_lt z y ≡ false → bytes_lt z x ≡ false
not-above_trans x y z h k = elim (Bool-cases (bytes_lt z x)) [
  | inl lt ↦ elim (Bool-cases (bytes_lt x y)) [
    | inl up ↦ cc (bytes_lt_trans z x y lt up)
    | inr same ↦ cc (bytes_trichotomy x y same h)
  ]
  | inr e ↦ e
]

not_above-of-lt : (x y : Bytes) → bytes_lt x y ≡ true → bytes_lt y x ≡ false
not_above-of-lt x y h = elim (Bool-cases (bytes_lt y x)) [
  | inl up ↦ cc (bytes_lt_trans x y x h up, bytes_lt_irrefl x)
  | inr e ↦ e
]

pub All-insert_sorted {ℓ} :
    (P : Bytes → Type ℓ) (x : Bytes) (xs : List Bytes) → P x → All P xs → All P (insert_sorted x xs)
unfolding insert_sorted
All-insert_sorted P x [] p a = (p, tt)
All-insert_sorted P x (y ∷ xs) p a = elim (Bool-cases (bytes_lt y x)) [
  | inl up ↦ rw up (a.0, All-insert_sorted P x xs p a.1)
  | inr e ↦ rw e (p, a)
]

All-not_above :
    (x y : Bytes) (xs : List Bytes)
    → bytes_lt y x ≡ false
    → All (λ z. bytes_lt z y ≡ false) xs
    → All (λ z. bytes_lt z x ≡ false) xs
All-not_above x y [] h a = tt
All-not_above x y (z ∷ xs) h a = (not-above_trans x y z h a.0, All-not_above x y xs h a.1)

insert_sorted-Sorted : (x : Bytes) (xs : List Bytes) → Sorted xs → Sorted (insert_sorted x xs)
unfolding insert_sorted
insert_sorted-Sorted x [] s = (tt, tt)
insert_sorted-Sorted x (y ∷ xs) s = elim (Bool-cases (bytes_lt y x)) [
  | inl up ↦
      rw up (All-insert_sorted _ x xs (not_above-of-lt y x up) s.0, insert_sorted-Sorted x xs s.1)
  | inr e ↦ rw e ((e, All-not_above x y xs e s.0), s)
]

pub sort-Sorted : (xs : List Bytes) → Sorted (sort xs)
unfolding sort
sort-Sorted [] = tt
sort-Sorted (x ∷ xs) = insert_sorted-Sorted x (sort xs) (sort-Sorted xs)

any-insert_sorted :
    (p : Bytes → Bool) (x : Bytes) (xs : List Bytes)
    → any p (insert_sorted x xs) ≡ (p x || any p xs)
unfolding insert_sorted
any-insert_sorted p x [] = refl
any-insert_sorted p x (y ∷ xs) = ground (arith, any-insert_sorted p x xs)

pub any-sort : (p : Bytes → Bool) (xs : List Bytes) → any p (sort xs) ≡ any p xs
unfolding sort
any-sort p [] = refl
any-sort p (x ∷ xs) = any-insert_sorted p x (sort xs) ∙ ap (◌||◌ (p x)) (any-sort p xs)

-- The values that the second loop keeps.
unfoldable pub distinct : Option Bytes → List Bytes → List Bytes
distinct prev [] = []
distinct prev (x ∷ xs) =
    let rest = distinct (some x) xs in if same_as prev x then rest else x ∷ rest

pub All-distinct {ℓ} :
    (P : Bytes → Type ℓ) (prev : Option Bytes) (xs : List Bytes)
    → All P xs
    → All P (distinct prev xs)
unfolding distinct
All-distinct P prev [] a = tt
All-distinct P prev (x ∷ xs) a = elim (Bool-cases (same_as prev x)) [
  | inl e ↦ rw e (All-distinct P (some x) xs a.1)
  | inr e ↦ rw e (a.0, All-distinct P (some x) xs a.1)
]

All-lt_trans :
    (x y : Bytes) (xs : List Bytes)
    → bytes_lt x y ≡ true
    → All (λ z. bytes_lt y z ≡ true) xs
    → All (λ z. bytes_lt x z ≡ true) xs
All-lt_trans x y [] h a = tt
All-lt_trans x y (z ∷ xs) h a = (bytes_lt_trans x y z h a.0, All-lt_trans x y xs h a.1)

lt_of_ne : (x y : Bytes) → bytes_lt y x ≡ false → bytes_eq y x ≡ false → bytes_lt x y ≡ true
lt_of_ne x y h n = elim (Bool-cases (bytes_lt x y)) [
  | inl up ↦ up
  | inr e ↦ cc (rw (bytes_trichotomy x y e h) at n, bytes_eq_refl y)
]

distinct_after :
    (x : Bytes) (xs : List Bytes) → Sorted (x ∷ xs) → StrictlySorted (x ∷ distinct (some x) xs)
unfolding distinct same_as
distinct_after x [] s = (tt, tt)
distinct_after x (y ∷ xs) s = elim (Bool-cases (bytes_eq y x)) [
  | inl e ↦
      let p = eq_of-bytes_eq y x e in
      rw e (subst (λ z. StrictlySorted (z ∷ distinct (some y) xs)) p (distinct_after y xs s.1))
  | inr e ↦
      let rest = distinct_after y xs s.1 in
      let up : bytes_lt x y ≡ true = lt_of_ne x y s.0.0 e in
      rw e ((up, All-lt_trans x y (distinct (some y) xs) up rest.0), rest)
]

pub distinct-StrictlySorted : (xs : List Bytes) → Sorted xs → StrictlySorted (distinct none xs)
unfolding distinct same_as
distinct-StrictlySorted [] s = tt
distinct-StrictlySorted (x ∷ xs) s = distinct_after x xs s

any-distinct_after :
    (p : Bytes → Bool) (x : Bytes) (xs : List Bytes)
    → (p x || any p (distinct (some x) xs)) ≡ (p x || any p xs)
unfolding distinct same_as
any-distinct_after p x [] = refl
any-distinct_after p x (y ∷ xs) = elim (Bool-cases (bytes_eq y x)) [
  | inl e ↦ rw e (ground (arith, eq_of-bytes_eq y x e, any-distinct_after p y xs))
  | inr e ↦ rw e (ground (arith, any-distinct_after p y xs))
]

pub any-distinct : (p : Bytes → Bool) (xs : List Bytes) → any p (distinct none xs) ≡ any p xs
unfolding distinct same_as
any-distinct p [] = refl
any-distinct p (x ∷ xs) = any-distinct_after p x xs
