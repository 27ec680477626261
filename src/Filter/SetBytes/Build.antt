-- ===== src/Filter/SetBytes/Build.antt =====
-- What the constructor of `FilterSetBytes` builds: the distinct values in order, laid end to end.
use strfry_http.Base.{
  ℕ, ◌+◌, ◌%◌, ◌≤◌, ◌≡◌, refl, sym, ap, subst, ◌∙◌, Bool, List, [], ◌∷◌, ◌++◌, Option, none, some,
  Bytes, bytes_eq, first_of_bytes, Result, ok, ◌>>=◌, length, All, any, arith, Bool-cases, inl, inr,
  if◌then◌else◌, ltb, take-append_length, drop-append, length-append, throw_if-eq-ok, >>=-eq-ok,
  ok-injective,
}
use mathlib.Core.List.{append-nil, append_assoc}
use strfry_http.Base.Json.{Json, get_array, get_string}
use strfry_http.Filter.SetBytes.{
  Item, FilterSetBytes, max_indexed_tag_val_size, sort, same_as, push_item, fill, collect,
  filter_set_bytes, does_match,
}
use strfry_http.Filter.SetBytes.Lookup.{Holds, does_match-any}
use strfry_http.Filter.SetBytes.Sort.{
  All-insert_sorted, sort-Sorted, any-sort, distinct, All-distinct, distinct-StrictlySorted,
  any-distinct,
}

concat : List Bytes → Bytes
concat [] = []
concat (x ∷ xs) = x ++ concat xs

items_from : ℕ → List Bytes → List Item
items_from off [] = []
items_from off (x ∷ xs) =
    record { offset = off % 65536; size = length x % 256; first_byte = first_of_bytes x }
    ∷ items_from (off + length x) xs

-- The loop appends the items and the bytes of the distinct values.
fill_lem :
    (prev : Option Bytes) (xs : List Bytes) (s : FilterSetBytes)
    → fill prev xs s ≡ record {
      items = s.items ++ items_from (length s.buf) (distinct prev xs);
      buf = s.buf ++ concat (distinct prev xs);
    }
unfolding fill distinct concat items_from
fill_lem prev [] s = rw (append-nil s.items, append-nil s.buf)
fill_lem prev (x ∷ xs) s = elim (Bool-cases (same_as prev x)) [
  | inl e ↦ rw (e) (fill_lem (some x) xs s)
  | inr e ↦ rw (e) (
      fill_lem (some x) xs (push_item x s)
      ∙ rw (append_assoc s.items, append_assoc s.buf x, length-append s.buf x) refl)
]

items_from-Holds :
    (pre : Bytes) (xs : List Bytes)
    → length (pre ++ concat xs) ≤ 65535
    → All (λ x. length x ≤ 255) xs
    → Holds (pre ++ concat xs) (items_from (length pre) xs) xs
unfolding concat items_from
items_from-Holds pre [] n a = tt
items_from-Holds pre (x ∷ xs) n a =
    let total : length pre + (length x + length (concat xs)) ≤ 65535 =
      subst (λ k. k ≤ 65535)
        (length-append pre (x ++ concat xs)
          ∙ ap (λ k. length pre + k) (length-append x (concat xs)))
        n in
    let at_offset : length pre % 65536 ≡ length pre = omega arith in
    let of_size : length x % 256 ≡ length x = omega (arith, a.0) in
    let regroup = append_assoc pre x (concat xs) in
    let rest = items_from-Holds (pre ++ x) xs (rw regroup n) a.1 in
    (
      rw (at_offset, of_size, drop-append (length pre) pre (x ++ concat xs) refl)
          (take-append_length x (concat xs)),
      of_size,
      refl,
      rw (regroup, length-append pre x) at rest,
    )

-- The sizes that the first loop lets through.
module _ (from_hex : Bytes → Result Bytes) where
  collect-sizes :
      (hex : Bool) (lo hi : ℕ) (vs : List Json) {arr : List Bytes}
      → collect from_hex hex lo hi vs ≡ ok arr
      → All (λ x. length x ≤ hi) arr
  unfolding collect
  collect-sizes hex lo hi [] h = subst (All (λ x. length x ≤ hi)) (ok-injective h) tt
  collect-sizes hex lo hi (v ∷ vs) h =
      let (text, _, h1) = >>=-eq-ok (get_string v) _ h in
      let (item, _, h2) = >>=-eq-ok (if hex then from_hex text else ok text) _ h1 in
      let (_, h3) = throw_if-eq-ok (ltb (length item) lo) _ _ h2 in
      let (small, h4) = throw_if-eq-ok (ltb hi (length item)) _ _ h3 in
      let (rest, hr, h5) = >>=-eq-ok (collect from_hex hex lo hi vs) _ h4 in
      let fits : length item ≤ hi = ground (arith, small) in
      subst (All (λ x. length x ≤ hi)) (ok-injective h5) (fits, collect-sizes hex lo hi vs hr)

  All-le_trans :
      (m n : ℕ) (xs : List Bytes) → m ≤ n → All (λ x. length x ≤ m) xs → All (λ x. length x ≤ n) xs
  All-le_trans m n [] le a = tt
  All-le_trans m n (x ∷ xs) le a = (omega (arith, a.0), All-le_trans m n xs le a.1)

  All-sort :
      (n : ℕ) (xs : List Bytes) → All (λ x. length x ≤ n) xs → All (λ x. length x ≤ n) (sort xs)
  unfolding sort
  All-sort n [] a = tt
  All-sort n (x ∷ xs) a = All-insert_sorted _ x (sort xs) a.0 (All-sort n xs a.1)

  -- The items and the buffer of a set that is not too large hold the distinct values.
  fill-Holds :
      (arr : List Bytes) (s : FilterSetBytes)
      → fill none (sort arr) (record { items = []; buf = [] }) ≡ s
      → All (λ x. length x ≤ 255) arr
      → length s.buf ≤ 65535
      → Holds s.buf s.items (distinct none (sort arr))
  fill-Holds arr s e a n =
      let built = sym (fill_lem none (sort arr) (record { items = []; buf = [] })) ∙ e in
      subst
        (λ (t : FilterSetBytes).
          length t.buf ≤ 65535 → Holds t.buf t.items (distinct none (sort arr)))
        built
        (λ m.
          items_from-Holds [] (distinct none (sort arr)) m
            (All-distinct _ none (sort arr) (All-sort 255 arr a)))
        n

  -- A set that the constructor accepts holds the values that were given, decoded if they are hex,
  -- and `doesMatch` says of any candidate, with no access out of range, whether it is one of them.
  pub filter_set_bytes-does_match :
      (arr_hex : Json) (hex : Bool) (lo hi : ℕ) (s : FilterSetBytes)
      → filter_set_bytes from_hex arr_hex hex lo hi ≡ ok s
      → (arr : List Bytes) × ((get_array arr_hex >>= collect from_hex hex lo hi) ≡ ok arr)
        × ((c : Bytes) → does_match s c ≡ ok (any (bytes_eq c) arr))
  unfolding filter_set_bytes
  filter_set_bytes-does_match arr_hex hex lo hi s h =
      let (in_range, h1) = throw_if-eq-ok (ltb max_indexed_tag_val_size hi) _ _ h in
      let (vs, hv, h2) = >>=-eq-ok (get_array arr_hex) _ h1 in
      let (arr, ha, h3) = >>=-eq-ok (collect from_hex hex lo hi vs) _ h2 in
      let built = fill none (sort arr) (record { items = []; buf = [] }) in
      let (small, h4) = throw_if-eq-ok (ltb 65535 (length built.buf)) _ _ h3 in
      let e = ok-injective h4 in
      let hi_le : hi ≤ 255 = ground (arith, in_range) in
      let n : length built.buf ≤ 65535 = ground (arith, small) in
      let sizes = All-le_trans hi 255 arr hi_le (collect-sizes hex lo hi vs ha) in
      let held =
        fill-Holds arr s e sizes (subst (λ (t : FilterSetBytes). length t.buf ≤ 65535) e n) in
      (
        arr,
        rw hv ha,
        λ c.
            does_match-any c s (distinct none (sort arr)) held
              (distinct-StrictlySorted (sort arr) (sort-Sorted arr))
            ∙ ap ok (any-distinct (bytes_eq c) (sort arr) ∙ any-sort (bytes_eq c) arr),
      )
