-- ===== src/Filter/SetUint.antt =====
-- `FilterSetUint` of src/filters.h: a sorted vector of numbers without repetitions.
use strfry_http.Base.{
  ℕ, suc, ◌≤◌, ◌≡◌, refl, ap, ◌∙◌, Bool, false, ◌||◌, List, [], ◌∷◌, none, some, Result, ok, err,
  ◌>>=◌, set_out_of_bounds, length, get_elem?, All, any, ltb, ◌==◌, if◌then◌else◌, arith,
  Bool-cases, inl, inr, >>=-eq-ok, ok-injective,
}
use strfry_http.Base.Json.{Json, get_array, get_unsigned}

pub record FilterSetUint : Type 0 where
  pub items : List ℕ

-- `std::sort` of numbers.
unfoldable pub insert_sorted : ℕ → List ℕ → List ℕ
insert_sorted x [] = x ∷ []
insert_sorted x (y ∷ ys) = let rest = insert_sorted x ys in if ltb y x then y ∷ rest else x ∷ y ∷ ys

unfoldable pub sort : List ℕ → List ℕ
unfolding insert_sorted
sort [] = []
sort (x ∷ xs) = insert_sorted x (sort xs)

-- `std::unique`: drops an item that is equal to the one before.
unfoldable pub unique : List ℕ → List ℕ
unique [] = []
unique (x ∷ []) = x ∷ []
unique (x ∷ y ∷ xs) = let rest = unique (y ∷ xs) in if x == y then rest else x ∷ rest

unfoldable pub collect : List Json → Result (List ℕ)
collect [] = ok []
collect (v ∷ vs) = do n ← get_unsigned v; rest ← collect vs; ok (n ∷ rest)

-- The constructor.
unfoldable pub filter_set_uint : Json → Result FilterSetUint
filter_set_uint arr = do
  vs ← get_array arr
  ns ← collect vs
  ok (record { items = unique (sort ns) })

unfoldable pub at : FilterSetUint → ℕ → Result ℕ
at s n = elim (get_elem? s.items n) [ none ↦ err set_out_of_bounds | some x ↦ ok x ]

unfoldable pub size : FilterSetUint → ℕ
size s = length s.items

-- `std::binary_search` on a sorted range: the first item that is not below the candidate decides.
unfoldable pub binary_search : List ℕ → ℕ → Bool
binary_search [] c = false
binary_search (x ∷ xs) c = let rest = binary_search xs c in if ltb x c then rest else x == c

unfoldable pub does_match : FilterSetUint → ℕ → Bool
does_match s c = binary_search s.items c

abbrev Sorted : List ℕ → Type 0
Sorted [] = Unit
Sorted (x ∷ xs) = All (λ y. x ≤ y) xs × Sorted xs

All-le_trans : (x y : ℕ) (xs : List ℕ) → x ≤ y → All (λ z. y ≤ z) xs → All (λ z. x ≤ z) xs
All-le_trans x y [] h a = tt
All-le_trans x y (z ∷ xs) h a = (omega (arith, a.0), All-le_trans x y xs h a.1)

All-insert_sorted :
    (m x : ℕ) (xs : List ℕ) → m ≤ x → All (λ z. m ≤ z) xs → All (λ z. m ≤ z) (insert_sorted x xs)
unfolding insert_sorted
All-insert_sorted m x [] h a = (h, tt)
All-insert_sorted m x (y ∷ xs) h a = elim (Bool-cases (ltb y x)) [
  | inl up ↦ rw up (a.0, All-insert_sorted m x xs h a.1)
  | inr e ↦ rw e (h, a)
]

insert_sorted-Sorted : (x : ℕ) (xs : List ℕ) → Sorted xs → Sorted (insert_sorted x xs)
unfolding insert_sorted
insert_sorted-Sorted x [] s = (tt, tt)
insert_sorted-Sorted x (y ∷ xs) s = elim (Bool-cases (ltb y x)) [
  | inl up ↦
      rw up (All-insert_sorted y x xs (ground (arith, up)) s.0, insert_sorted-Sorted x xs s.1)
  | inr e ↦ let le : x ≤ y = ground (arith, e) in rw e ((le, All-le_trans x y xs le s.0), s)
]

sort-Sorted : (xs : List ℕ) → Sorted (sort xs)
unfolding sort
sort-Sorted [] = tt
sort-Sorted (x ∷ xs) = insert_sorted-Sorted x (sort xs) (sort-Sorted xs)

any-insert_sorted :
    (c x : ℕ) (xs : List ℕ)
    → any (λ y. y == c) (insert_sorted x xs) ≡ ((x == c) || any (λ y. y == c) xs)
unfolding insert_sorted
any-insert_sorted c x [] = refl
any-insert_sorted c x (y ∷ xs) = ground (arith, any-insert_sorted c x xs)

any-sort : (c : ℕ) (xs : List ℕ) → any (λ y. y == c) (sort xs) ≡ any (λ y. y == c) xs
unfolding sort
any-sort c [] = refl
any-sort c (x ∷ xs) = any-insert_sorted c x (sort xs) ∙ ap (◌||◌ (x == c)) (any-sort c xs)

any-above : (c : ℕ) (xs : List ℕ) → All (λ y. suc c ≤ y) xs → any (λ y. y == c) xs ≡ false
any-above c [] a = refl
any-above c (x ∷ xs) a = ground (arith, any-above c xs a.1, a.0)

binary_search-any : (c : ℕ) (xs : List ℕ) → Sorted xs → binary_search xs c ≡ any (λ y. y == c) xs
unfolding binary_search
binary_search-any c [] s = refl
binary_search-any c (x ∷ xs) s = elim (Bool-cases (ltb c x)) [
  | inl below ↦
      ground (arith, any-above c xs (All-le_trans (suc c) x xs (ground (arith, below)) s.0))
  | inr e ↦ ground (arith, binary_search-any c xs s.1)
]

binary_search-unique : (c : ℕ) (xs : List ℕ) → binary_search (unique xs) c ≡ binary_search xs c
unfolding binary_search unique
binary_search-unique c [] = refl
binary_search-unique c (x ∷ []) = refl
binary_search-unique c (x ∷ y ∷ xs) = ground (arith, binary_search-unique c (y ∷ xs))

-- A set that the constructor accepts holds the numbers that were given, and `doesMatch` says of any
-- candidate whether it is one of them.
pub filter_set_uint-does_match :
    (arr : Json) (s : FilterSetUint)
    → filter_set_uint arr ≡ ok s
    → (ns : List ℕ) × ((get_array arr >>= collect) ≡ ok ns)
      × ((c : ℕ) → does_match s c ≡ any (λ n. n == c) ns)
unfolding filter_set_uint does_match
filter_set_uint-does_match arr s h =
    let (vs, hv, h1) = >>=-eq-ok (get_array arr) _ h in
    let (ns, hn, h2) = >>=-eq-ok (collect vs) _ h1 in
    (
      ns,
      rw hv hn,
      λ c. rw (← ok-injective h2) (
          binary_search-unique c (sort ns)
          ∙ binary_search-any c (sort ns) (sort-Sorted ns)
          ∙ any-sort c ns),
    )
