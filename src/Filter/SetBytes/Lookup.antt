-- ===== src/Filter/SetBytes/Lookup.antt =====
-- The binary search of `FilterSetBytes::doesMatch` over a strictly sorted set.
use strfry_http.Base.{
  ℕ, zero, suc, ◌+◌, ◌-◌, ◌/◌, ◌≤◌, ◌<◌, ◌≡◌, refl, sym, ap, subst, true, false, List, [], ◌∷◌,
  some, Bytes, bytes_lt, bytes_eq, first_of_bytes, slice, ok, length, get_elem?, get_or, All, any,
  arith, Bool-cases, inl, inr, if◌then◌else◌, bytes_lt_trans, bytes_lt_irrefl, eq_of-bytes_eq,
}
use strfry_http.Filter.SetBytes.{
  Item, FilterSetBytes, item_at, value_of, comp, upper_loop, test_last, does_match,
}

-- Each value is below all that follow it.
abbrev pub StrictlySorted : List Bytes → Type 0
StrictlySorted [] = Unit
StrictlySorted (x ∷ xs) = All (λ y. bytes_lt x y ≡ true) xs × StrictlySorted xs

-- The items of a buffer hold these values.
abbrev pub Holds : Bytes → List Item → List Bytes → Type 0
Holds buf [] [] = Unit
Holds buf [] (x ∷ xs) = ⊥
Holds buf (it ∷ its) [] = ⊥
Holds buf (it ∷ its) (x ∷ xs) =
    (slice it.offset it.size buf ≡ x)
    × (it.size ≡ length x)
    × (it.first_byte ≡ first_of_bytes x)
    × Holds buf its xs

pub length-Holds :
    (buf : Bytes) (its : List Item) (xs : List Bytes) → Holds buf its xs → length its ≡ length xs
length-Holds buf [] [] h = refl
length-Holds buf [] (x ∷ xs) h = absurd h
length-Holds buf (it ∷ its) [] h = absurd h
length-Holds buf (it ∷ its) (x ∷ xs) h = ap suc (length-Holds buf its xs h.3)

get_elem?-Holds :
    (buf : Bytes) (its : List Item) (xs : List Bytes) (j : ℕ)
    → Holds buf its xs
    → j < length xs
    → (it : Item) × (get_elem? its j ≡ some it)
      × (slice it.offset it.size buf ≡ get_or xs j [])
      × (it.size ≡ length (get_or xs j []))
      × (it.first_byte ≡ first_of_bytes (get_or xs j []))
get_elem?-Holds buf [] [] j h lt = absurd (omega arith)
get_elem?-Holds buf [] (x ∷ xs) j h lt = absurd h
get_elem?-Holds buf (it ∷ its) [] j h lt = absurd h
get_elem?-Holds buf (it ∷ its) (x ∷ xs) zero h lt = (it, refl, h.0, h.1, h.2)
get_elem?-Holds buf (it ∷ its) (x ∷ xs) (suc j) h lt =
    get_elem?-Holds buf its xs j h.3 (omega arith)

-- The shortcut through the first bytes agrees with the order of the strings.
comp-bytes_lt :
    (c : Bytes) (s : FilterSetBytes) (it : Item) (x : Bytes)
    → value_of s it ≡ x
    → it.size ≡ length x
    → it.first_byte ≡ first_of_bytes x
    → comp c s it ≡ bytes_lt c x
unfolding comp bytes_lt
comp-bytes_lt [] s it x v n f = rw v refl
comp-bytes_lt (b ∷ c) s it [] v n f = ground arith
comp-bytes_lt (b ∷ c) s it (y ∷ x) v n f = ground arith

-- How many values lie at or below the candidate, in front of the first above it.
upper_bound : Bytes → List Bytes → ℕ
upper_bound c [] = 0
upper_bound c (x ∷ xs) = let rest = suc (upper_bound c xs) in if bytes_lt c x then 0 else rest

upper_bound-le : (c : Bytes) (xs : List Bytes) → upper_bound c xs ≤ length xs
unfolding upper_bound
upper_bound-le c [] = omega arith
upper_bound-le c (x ∷ xs) = ground (arith, upper_bound-le c xs)

upper_bound-above :
    (c : Bytes) (xs : List Bytes) (j : ℕ)
    → j < length xs
    → bytes_lt c (get_or xs j []) ≡ true
    → upper_bound c xs ≤ j
unfolding upper_bound
upper_bound-above c [] j lt h = absurd (omega arith)
upper_bound-above c (x ∷ xs) zero lt h = rw h (omega arith)
upper_bound-above c (x ∷ xs) (suc j) lt h = ground (arith, upper_bound-above c xs j)

All-get_or :
    (x : Bytes) (xs : List Bytes) (j : ℕ)
    → All (λ y. bytes_lt x y ≡ true) xs
    → j < length xs
    → bytes_lt x (get_or xs j []) ≡ true
All-get_or x [] j h lt = absurd (omega arith)
All-get_or x (y ∷ xs) zero h lt = h.0
All-get_or x (y ∷ xs) (suc j) h lt = All-get_or x xs j h.1 (omega arith)

upper_bound-below :
    (c : Bytes) (xs : List Bytes) (j : ℕ)
    → StrictlySorted xs
    → j < length xs
    → bytes_lt c (get_or xs j []) ≡ false
    → j < upper_bound c xs
unfolding upper_bound
upper_bound-below c [] j s lt h = absurd (omega arith)
upper_bound-below c (x ∷ xs) zero s lt h = rw h (omega arith)
upper_bound-below c (x ∷ xs) (suc j) s lt h = ground (
  arith,
  upper_bound-below c xs j,
  All-get_or x xs j s.0 (omega arith),
  bytes_lt_trans c x (get_or xs j []),
)

eq-false_of-lt : (c x : Bytes) → bytes_lt c x ≡ true → bytes_eq c x ≡ false
eq-false_of-lt c x h = elim (Bool-cases (bytes_eq c x)) [
  | inl e ↦ let p = eq_of-bytes_eq c x e in absurd (not_below x (rw p at h))
  | inr e ↦ e
]
  where
    not_below : (y : Bytes) → ¬ (bytes_lt y y ≡ true)
    not_below y k = cc (bytes_lt_irrefl y)

-- A candidate below all values is none of them.
any-below :
    (c : Bytes) (xs : List Bytes) → All (λ y. bytes_lt c y ≡ true) xs → any (bytes_eq c) xs ≡ false
any-below c [] a = refl
any-below c (x ∷ xs) a = rw (eq-false_of-lt c x a.0) (any-below c xs a.1)

upper_bound-eq-zero :
    (c : Bytes) (xs : List Bytes) → All (λ y. bytes_lt c y ≡ true) xs → upper_bound c xs ≡ 0
unfolding upper_bound
upper_bound-eq-zero c [] a = refl
upper_bound-eq-zero c (x ∷ xs) a = rw a.0

All-lt_trans :
    (c x : Bytes) (xs : List Bytes)
    → bytes_lt c x ≡ true
    → All (λ y. bytes_lt x y ≡ true) xs
    → All (λ y. bytes_lt c y ≡ true) xs
All-lt_trans c x [] h a = tt
All-lt_trans c x (y ∷ xs) h a = (bytes_lt_trans c x y h a.0, All-lt_trans c x xs h a.1)

any-eq-false_of-upper_bound :
    (c : Bytes) (xs : List Bytes)
    → StrictlySorted xs
    → upper_bound c xs ≡ 0
    → any (bytes_eq c) xs ≡ false
unfolding upper_bound
any-eq-false_of-upper_bound c [] s h = refl
any-eq-false_of-upper_bound c (x ∷ xs) s h = elim (Bool-cases (bytes_lt c x)) [
  | inl lt ↦ any-below c (x ∷ xs) (lt, All-lt_trans c x xs lt s.0)
  | inr ge ↦ absurd (ground arith)
]

-- Only the last value that is not above the candidate can be equal to it.
any-eq_of-upper_bound :
    (c : Bytes) (xs : List Bytes) (k : ℕ)
    → StrictlySorted xs
    → upper_bound c xs ≡ suc k
    → any (bytes_eq c) xs ≡ bytes_eq c (get_or xs k [])
unfolding upper_bound
any-eq_of-upper_bound c [] k s h = absurd (omega arith)
any-eq_of-upper_bound c (x ∷ xs) zero s h = ground (arith, any-eq-false_of-upper_bound c xs s.1)
any-eq_of-upper_bound c (x ∷ xs) (suc k) s h = elim (Bool-cases (bytes_eq c x)) [
  | inl e ↦
      let p = eq_of-bytes_eq c x e in
      absurd (
        ground (
          arith,
          upper_bound-eq-zero c xs (subst (λ y. All (λ z. bytes_lt y z ≡ true) xs) (sym p) s.0),
        ))
  | inr n ↦ ground (arith, any-eq_of-upper_bound c xs k s.1)
]

module _ (c : Bytes) (s : FilterSetBytes) (xs : List Bytes) (held : Holds s.buf s.items xs)
    (sorted : StrictlySorted xs) where
  -- The loop ends with the upper bound, within its fuel and inside the items.
  upper_loop-upper_bound :
      (fuel first count : ℕ)
      → count < fuel
      → first ≤ upper_bound c xs
      → upper_bound c xs ≤ first + count
      → first + count ≤ length xs
      → upper_loop c s fuel first count ≡ ok (upper_bound c xs)
  unfolding upper_loop item_at
  upper_loop-upper_bound zero first count lt lo hi le = absurd (omega arith)
  upper_loop-upper_bound (suc fuel) first zero lt lo hi le = ap ok (omega arith)
  upper_loop-upper_bound (suc fuel) first (suc n) lt lo hi le =
      let mid = first + suc n / 2 in
      let inside : mid < length xs = omega arith in
      let (it, found, v, sz, fb) = get_elem?-Holds s.buf s.items xs mid held inside in
      elim (Bool-cases (bytes_lt c (get_or xs mid []))) [
        | inl above ↦ ground (
          arith,
          found,
          comp-bytes_lt c s it (get_or xs mid []) v sz fb,
          upper_bound-above c xs mid inside above,
          upper_loop-upper_bound fuel first (suc n / 2),
        )
        | inr below ↦ ground (
          arith,
          found,
          comp-bytes_lt c s it (get_or xs mid []) v sz fb,
          upper_bound-below c xs mid sorted inside below,
          upper_loop-upper_bound fuel (first + suc n / 2 + 1) (suc n - (suc n / 2 + 1)),
        )
      ]

  test_last-any : (u : ℕ) → upper_bound c xs ≡ u → test_last s c u ≡ ok (any (bytes_eq c) xs)
  unfolding test_last item_at
  test_last-any zero h = rw (any-eq-false_of-upper_bound c xs sorted h) refl
  test_last-any (suc k) h =
      let inside : k < length xs = omega (arith, upper_bound-le c xs) in
      let (it, found, v, sz, fb) = get_elem?-Holds s.buf s.items xs k held inside in
      let e : suc k - 1 ≡ k = omega arith in
      rw (any-eq_of-upper_bound c xs k sorted h, e, found, item_at, v) (ground arith)

  -- `doesMatch` tells whether the candidate is one of the values.
  pub does_match-any : does_match s c ≡ ok (any (bytes_eq c) xs)
  unfolding does_match
  does_match-any =
      let n = length-Holds s.buf s.items xs held in
      let end =
        upper_loop-upper_bound (suc (length s.items)) 0 (length s.items) (omega arith) (omega arith)
          (omega (arith, upper_bound-le c xs)) (omega arith) in
      rw end (test_last-any (upper_bound c xs) refl)
