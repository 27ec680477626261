-- ===== src/Rate/Lru.antt =====
-- `LRUBucketCache` of src/RateLimiter.h: a list of keys, the most recently used in front, and a map
-- from keys to buckets. The map's second component, an iterator to the key's place in the list, is
-- the place where the key stands. `Lru/Invariant` proves that the two always hold the same keys.
use strfry_http.Base.{
  ℕ, zero, suc, ◌+◌, Bool, true, false, List, [], ◌∷◌, Option, none, some, Bytes, bytes_eq, length,
  if◌then◌else◌,
}
pub mod Invariant

pub record LruBucketCache (B : Type 0) : Type 0 where
  pub lru_order : List Bytes
  pub buckets : List (Bytes × B)

module _ {B : Type 0} where
  unfoldable pub find : Bytes → List (Bytes × B) → Option B
  find key [] = none
  find key ((k, b) ∷ m) = let rest = find key m in if bytes_eq k key then some b else rest

  -- `buckets.erase(key)`
  unfoldable pub erase : Bytes → List (Bytes × B) → List (Bytes × B)
  erase key [] = []
  erase key ((k, b) ∷ m) = let rest = erase key m in if bytes_eq k key then m else (k, b) ∷ rest

  -- A write through the pointer to the key's bucket.
  unfoldable pub write : Bytes → B → List (Bytes × B) → List (Bytes × B)
  write key b [] = []
  write key b ((k, c) ∷ m) =
      let rest = write key b m in if bytes_eq k key then (k, b) ∷ m else (k, c) ∷ rest

-- A list without the node of the key.
unfoldable pub unlink : Bytes → List Bytes → List Bytes
unlink key [] = []
unlink key (k ∷ ks) = let rest = unlink key ks in if bytes_eq k key then ks else k ∷ rest

-- `lruOrder.back()` and `lruOrder.pop_back()`
unfoldable pub back : List Bytes → Option Bytes
back [] = none
back (k ∷ []) = some k
back (k ∷ l ∷ ks) = back (l ∷ ks)

unfoldable pub pop_back : List Bytes → List Bytes
pop_back [] = []
pop_back (k ∷ []) = []
pop_back (k ∷ l ∷ ks) = k ∷ pop_back (l ∷ ks)

module _ {B : Type 0} where
  -- `touch`: the key's node is spliced to the front.
  unfoldable pub touch : Bytes → LruBucketCache B → LruBucketCache B
  touch key c = record c { lru_order = key ∷ unlink key c.lru_order }

  unfoldable pub get : Bytes → LruBucketCache B → Option B × LruBucketCache B
  get key c = elim (find key c.buckets) [ none ↦ (none, c) | some b ↦ (some b, touch key c) ]

  -- `insert`; `emplace` keeps a bucket that is there.
  unfoldable pub insert : Bytes → B → LruBucketCache B → LruBucketCache B
  insert key b c = record {
    lru_order = key ∷ c.lru_order;
    buckets = elim (find key c.buckets) [ none ↦ (key, b) ∷ c.buckets | some _ ↦ c.buckets ];
  }

  unfoldable pub evict_oldest : LruBucketCache B → LruBucketCache B
  evict_oldest c = elim (back c.lru_order) [
    | none ↦ c
    | some oldest ↦ record { lru_order = pop_back c.lru_order; buckets = erase oldest c.buckets }
  ]

  unfoldable pub size : LruBucketCache B → ℕ
  size c = length c.buckets
