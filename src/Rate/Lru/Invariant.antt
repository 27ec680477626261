-- ===== src/Rate/Lru/Invariant.antt =====
-- The list and the map of the cache hold the same keys, each once.
use strfry_http.Base.{
  ℕ, suc, ◌+◌, ◌-◌, ◌≤◌, ◌<◌, ◌≡◌, refl, sym, ap, subst, ◌∙◌, List, [], ◌∷◌, none, some, Bytes,
  bytes_eq, length, if◌then◌else◌, arith, Bool-cases, Option-cases, inl, inr, bytes_eq_refl,
  eq_of-bytes_eq,
}
use strfry_http.Rate.Lru.{
  LruBucketCache, find, erase, write, unlink, back, pop_back, touch, get, insert, evict_oldest,
  size,
}

abbrev pub count : Bytes → List Bytes → ℕ
count key [] = 0
count key (k ∷ ks) = let rest = count key ks in if bytes_eq k key then suc rest else rest

abbrev pub keys : {B : Type 0} → List (Bytes × B) → List Bytes
keys [] = []
keys ((k, b) ∷ m) = k ∷ keys m

pub record IsConsistent {B : Type 0} (c : LruBucketCache B) : Type 0 where
  pub same : (key : Bytes) → count key c.lru_order ≡ count key (keys c.buckets)
  pub once : (key : Bytes) → count key c.lru_order ≤ 1
  pub sizes : length c.lru_order ≡ length c.buckets

-- One less of the key, where it is there.
count-unlink :
    (key other : Bytes) (ks : List Bytes)
    → 0 < count key ks
    → count other (unlink key ks) + (if bytes_eq key other then 1 else 0) ≡ count other ks
unfolding unlink
count-unlink key other [] h = absurd (omega arith)
count-unlink key other (k ∷ ks) h = elim (Bool-cases (bytes_eq k key)) [
  | inl e ↦ rw (e, unlink) (rw (eq_of-bytes_eq k key e) (ground arith))
  | inr n ↦ ground (arith, n, count-unlink key other ks)
]

length-unlink :
    (key : Bytes) (ks : List Bytes) → 0 < count key ks → length (unlink key ks) + 1 ≡ length ks
unfolding unlink
length-unlink key [] h = absurd (omega arith)
length-unlink key (k ∷ ks) h = ground (arith, length-unlink key ks)

count-pop_back :
    (other : Bytes) (ks : List Bytes) (k : Bytes)
    → back ks ≡ some k
    → (count other (pop_back ks) + (if bytes_eq k other then 1 else 0) ≡ count other ks)
      × (length (pop_back ks) + 1 ≡ length ks)
unfolding back pop_back
count-pop_back other [] k h = cc
count-pop_back other (j ∷ []) k h = ground arith
count-pop_back other (i ∷ j ∷ ks) k h = ground (arith, count-pop_back other (j ∷ ks) k h)

length-back-none : (ks : List Bytes) → back ks ≡ none → length ks ≡ 0
unfolding back
length-back-none [] h = refl
length-back-none (k ∷ []) h = cc
length-back-none (j ∷ k ∷ ks) h = absurd (omega (arith, length-back-none (k ∷ ks) h))

module _ {B : Type 0} where
  count-erase :
      (key other : Bytes) (m : List (Bytes × B))
      → 0 < count key (keys m)
      → (count other (keys (erase key m)) + (if bytes_eq key other then 1 else 0)
          ≡ count other (keys m))
        × (length (erase key m) + 1 ≡ length m)
  unfolding erase
  count-erase key other [] h = absurd (omega arith)
  count-erase key other ((k, b) ∷ m) h = elim (Bool-cases (bytes_eq k key)) [
    | inl e ↦ rw (e, erase) (rw (eq_of-bytes_eq k key e) (ground arith))
    | inr n ↦ ground (arith, n, count-erase key other m)
  ]

  pub keys-write : (key : Bytes) (b : B) (m : List (Bytes × B)) → keys (write key b m) ≡ keys m
  unfolding write
  keys-write key b [] = refl
  keys-write key b ((k, c) ∷ m) = ground (arith, keys-write key b m)

  pub length-write :
      (key : Bytes) (b : B) (m : List (Bytes × B)) → length (write key b m) ≡ length m
  unfolding write
  length-write key b [] = refl
  length-write key b ((k, c) ∷ m) = ground (arith, length-write key b m)

  count-find-none :
      (key : Bytes) (m : List (Bytes × B)) → find key m ≡ none → count key (keys m) ≡ 0
  unfolding find
  count-find-none key [] h = refl
  count-find-none key ((k, b) ∷ m) h = ground (arith, count-find-none key m)

  count-find-some :
      (key : Bytes) (m : List (Bytes × B)) (b : B) → find key m ≡ some b → 0 < count key (keys m)
  unfolding find
  count-find-some key [] b h = cc
  count-find-some key ((k, c) ∷ m) b h = ground (arith, count-find-some key m b)

  find-some_of-count :
      (key : Bytes) (m : List (Bytes × B))
      → 0 < count key (keys m)
      → (b : B) × (find key m ≡ some b)
  unfolding find
  find-some_of-count key [] h = absurd (omega arith)
  find-some_of-count key ((k, b) ∷ m) h = elim (Bool-cases (bytes_eq k key)) [
    | inl e ↦ (b, rw e refl)
    | inr n ↦ let (b', found) = find-some_of-count key m (ground (arith, n)) in (b', rw n found)
  ]

  find-erase :
      (key other : Bytes) (m : List (Bytes × B))
      → find key m ≡ none
      → find key (erase other m) ≡ none
  unfolding find erase
  find-erase key other [] h = refl
  find-erase key other ((k, b) ∷ m) h = ground (arith, find-erase key other m)

  pub find-evict_oldest :
      (key : Bytes) (c : LruBucketCache B)
      → find key c.buckets ≡ none
      → find key (evict_oldest c).buckets ≡ none
  unfolding evict_oldest
  find-evict_oldest key c h = elim (Option-cases (back c.lru_order)) [
    | inl e ↦ rw (e, evict_oldest) h
    | inr (k, e) ↦ rw (e, evict_oldest) (find-erase key k c.buckets h)
  ]

  pub size-insert :
      (key : Bytes) (b : B) (c : LruBucketCache B)
      → find key c.buckets ≡ none
      → size (insert key b c) ≡ size c + 1
  unfolding insert size
  size-insert key b c h = rw (h, insert) (omega arith)

  module _ (c : LruBucketCache B) (h : IsConsistent c) where
    pub touch-IsConsistent :
        (key : Bytes) {b : B} → find key c.buckets ≡ some b → IsConsistent (touch key c)
    unfolding touch
    touch-IsConsistent key {b} e =
        let there : 0 < count key c.lru_order =
          omega (arith, h.same key, count-find-some key c.buckets b e) in
        record {
          same = λ o. ground (arith, h.same o, count-unlink key o c.lru_order there);
          once = λ o. ground (arith, h.once o, count-unlink key o c.lru_order there);
          sizes = omega (arith, length-unlink key c.lru_order there, h.sizes);
        }

    pub insert-IsConsistent :
        (key : Bytes) (b : B) → find key c.buckets ≡ none → IsConsistent (insert key b c)
    unfolding insert
    insert-IsConsistent key b e =
        rw (e, insert)
          (record {
            same = λ o. ground (arith, h.same o);
            once = λ o. elim (Bool-cases (bytes_eq key o)) [
              | inl s ↦ rw s (
                  subst (λ k. suc (count k c.lru_order) ≤ 1) (eq_of-bytes_eq key o s)
                    (omega (arith, h.same key, count-find-none key c.buckets e)))
              | inr n ↦ rw n (h.once o)
            ];
            sizes = ap suc h.sizes;
          })

    -- Evicting leaves one key less, if there is any.
    pub evict_oldest-IsConsistent :
        IsConsistent (evict_oldest c) × (size (evict_oldest c) ≡ size c - 1)
    unfolding evict_oldest size
    evict_oldest-IsConsistent = elim (Option-cases (back c.lru_order)) [
      | inl e ↦ rw (e, evict_oldest) (h, omega (arith, h.sizes, length-back-none c.lru_order e))
      | inr (k, e) ↦
          let there : 0 < count k (keys c.buckets) =
            ground (arith, bytes_eq_refl k, count-pop_back k c.lru_order k e, h.same k) in
          rw (e, evict_oldest)
            (
              record {
                same = λ o. omega (
                  arith,
                  h.same o,
                  count-pop_back o c.lru_order k e,
                  count-erase k o c.buckets there,
                );
                once = λ o. omega (arith, h.once o, count-pop_back o c.lru_order k e);
                sizes = omega (
                  arith,
                  h.sizes,
                  count-pop_back k c.lru_order k e,
                  count-erase k k c.buckets there,
                );
              },
              omega (arith, count-erase k k c.buckets there),
            )
    ]

    -- A write of the key's bucket.
    pub write-IsConsistent :
        (key : Bytes) (b : B) → IsConsistent (record c { buckets = write key b c.buckets })
    write-IsConsistent key b = record {
      same = λ o. rw (keys-write key b c.buckets) (h.same o);
      once = h.once;
      sizes = h.sizes ∙ sym (length-write key b c.buckets);
    }

    -- The key at the back of the list has a bucket.
    pub find-back :
        (key : Bytes) → back c.lru_order ≡ some key → (b : B) × (find key c.buckets ≡ some b)
    find-back key e =
        find-some_of-count key c.buckets
          (ground (arith, bytes_eq_refl key, count-pop_back key c.lru_order key e, h.same key))

    pub get-touch :
        (key : Bytes) (b : B) → find key c.buckets ≡ some b → (get key c).1 ≡ touch key c
    unfolding get
    get-touch key b e = rw (e, get) refl
