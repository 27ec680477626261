-- ===== src/Filter/SetBytes.antt =====
-- `FilterSetBytes` of src/filters.h: a set of byte strings in one buffer, with an item for each that
-- says where it lies. The children prove that what the constructor builds is searched correctly.
use strfry_http.Base.{
  ℕ, zero, suc, ◌+◌, ◌-◌, ◌/◌, ◌%◌, Bool, true, false, not, ◌&&◌, List, [], ◌∷◌, ◌++◌, Option, none,
  some, Bytes, bytes_lt, bytes_eq, first_of_bytes, slice, Result, ok, err, ◌>>=◌, ◌>>◌, throw_if,
  out_of_range, max_size_too_big, item_too_small, item_too_large, total_too_large,
  set_out_of_bounds, length, get_elem?, ltb, leb, ◌==◌, if◌then◌else◌,
}
use strfry_http.Base.Json.{Json, get_array, get_string}
pub mod Lookup
pub mod Sort
pub mod Build

pub record Item : Type 0 where
  pub offset : ℕ  -- uint16
  pub size : ℕ  -- uint8
  pub first_byte : ℕ

pub record FilterSetBytes : Type 0 where
  pub items : List Item
  pub buf : Bytes

abbrev pub max_indexed_tag_val_size : ℕ
max_indexed_tag_val_size = 255

-- `std::sort` of strings. They are totally ordered, so every sort gives this list.
unfoldable pub insert_sorted : Bytes → List Bytes → List Bytes
insert_sorted x [] = x ∷ []
insert_sorted x (y ∷ ys) =
    let rest = insert_sorted x ys in if bytes_lt y x then y ∷ rest else x ∷ y ∷ ys

unfoldable pub sort : List Bytes → List Bytes
unfolding insert_sorted
sort [] = []
sort (x ∷ xs) = insert_sorted x (sort xs)

-- The second loop of the constructor; `prev` is the item before, `arr[i - 1]`.
unfoldable pub same_as : Option Bytes → Bytes → Bool
same_as none x = false
same_as (some y) x = bytes_eq x y

unfoldable pub push_item : Bytes → FilterSetBytes → FilterSetBytes
push_item x s = record {
  items =
      s.items
      ++ (record {
        offset = length s.buf % 65536;
        size = length x % 256;
        first_byte = first_of_bytes x;
      }
          ∷ []);
  buf = s.buf ++ x;
}

unfoldable pub fill : Option Bytes → List Bytes → FilterSetBytes → FilterSetBytes
unfolding same_as push_item
fill prev [] s = s
fill prev (x ∷ xs) s = fill (some x) xs (if same_as prev x then s else push_item x s)

module _ (from_hex : Bytes → Result Bytes) where
  -- The first loop of the constructor: the values, decoded, each of an allowed size.
  unfoldable pub collect : Bool → ℕ → ℕ → List Json → Result (List Bytes)
  collect hex_decode min_size max_size [] = ok []
  collect hex_decode min_size max_size (v ∷ vs) = do
    s ← get_string v
    item ← if hex_decode then from_hex s else ok s
    throw_if (ltb (length item) min_size) item_too_small
    throw_if (ltb max_size (length item)) item_too_large
    rest ← collect hex_decode min_size max_size vs
    ok (item ∷ rest)

  -- The constructor.
  unfoldable pub filter_set_bytes : Json → Bool → ℕ → ℕ → Result FilterSetBytes
  filter_set_bytes arr_hex hex_decode min_size max_size = do
    throw_if (ltb max_indexed_tag_val_size max_size) max_size_too_big
    vs ← get_array arr_hex
    arr ← collect hex_decode min_size max_size vs
    let s = fill none (sort arr) (record { items = []; buf = [] })
    throw_if (ltb 65535 (length s.buf)) total_too_large
    ok s

-- `items[n]`, with the error for an access that C++ leaves undefined.
unfoldable pub item_at : FilterSetBytes → ℕ → Result Item
item_at s n = elim (get_elem? s.items n) [ none ↦ err out_of_range | some it ↦ ok it ]

abbrev pub value_of : FilterSetBytes → Item → Bytes
value_of s it = slice it.offset it.size s.buf

unfoldable pub at : FilterSetBytes → ℕ → Result Bytes
at s n = elim (get_elem? s.items n) [ none ↦ err set_out_of_bounds | some it ↦ ok (value_of s it) ]

unfoldable pub size : FilterSetBytes → ℕ
size s = length s.items

-- `comp` of the loop: the first bytes decide where they can.
unfoldable pub comp : Bytes → FilterSetBytes → Item → Bool
comp candidate s it =
    if not (length candidate == 0)
      && (not (it.size == 0) && not (first_of_bytes candidate == it.first_byte))
    then ltb (first_of_bytes candidate) it.first_byte
    else bytes_lt candidate (value_of s it)

-- The `while` loop; the fuel is one more than the number of items.
unfoldable pub upper_loop : Bytes → FilterSetBytes → ℕ → ℕ → ℕ → Result ℕ
upper_loop candidate s zero first count = err out_of_range
upper_loop candidate s (suc fuel) first count =
    let step = count / 2 in
    let curr = first + step in
    let above = upper_loop candidate s fuel (curr + 1) (count - (step + 1)) in
    let below = upper_loop candidate s fuel first step in
    let next = item_at s curr >>= λ it. if comp candidate s it then below else above in
    if count == 0 then ok first else next

-- The test after the loop, at the upper bound found.
unfoldable pub test_last : FilterSetBytes → Bytes → ℕ → Result Bool
test_last s candidate first =
    let found = item_at s (first - 1) >>= λ it. ok (bytes_eq candidate (value_of s it)) in
    if first == 0 then ok false else found

unfoldable pub does_match : FilterSetBytes → Bytes → Result Bool
does_match s candidate = do
  first ← upper_loop candidate s (suc (length s.items)) 0 (length s.items)
  test_last s candidate first
