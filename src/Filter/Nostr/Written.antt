-- ===== src/Filter/Nostr/Written.antt =====
-- What the members of a filter's JSON ask of an event, read off the JSON alone, and the proof that
-- the filter parsed from it over lists asks the same.
use strfry_http.Base.{
  ℕ, ◌≡◌, refl, sym, ap, ◌∙◌, Bool, true, false, ◌&&◌, ◌||◌, List, [], ◌∷◌, Bytes, bytes_eq, codes,
  first_of_bytes, get_or, length, ltb, leb, ◌==◌, if◌then◌else◌, Result, ok, err, ◌>>=◌, >>=-eq-ok,
  with_ok, with_passed, ok-injective, any, item_too_small, item_too_large,
}
use strfry_http.Base.Json.{
  Json, null, boolean, unsigned, other_number, string, array, object, to_list, get_array,
  get_string, get_unsigned, is_empty_array,
}
use strfry_http.Packed.{Encoding, PackedEventView, id, pubkey, created_at, kind}
use strfry_http.Packed.Tags.{Tag}
use strfry_http.Filter.SetBytes.{collect}
use strfry_http.Filter.SetUint

-- The elements of an array.
abbrev pub elements : Json → List Json
elements (array vs) = to_list vs
elements _ = []

abbrev pub is_the_number : ℕ → Json → Bool
is_the_number n (unsigned m) = m == n
is_the_number n _ = false

abbrev pub from_time : Json → ℕ → Bool
from_time (unsigned n) created = leb n created
from_time _ created = false

abbrev pub up_to_time : Json → ℕ → Bool
up_to_time (unsigned n) created = leb created n
up_to_time _ created = false

elements-array : (v : Json) (vs : List Json) → get_array v ≡ ok vs → elements v ≡ vs
elements-array (array ws) vs h = ok-injective h
elements-array null vs h = cc
elements-array (boolean b) vs h = cc
elements-array (unsigned n) vs h = cc
elements-array other_number vs h = cc
elements-array (string s) vs h = cc
elements-array (object ms) vs h = cc

module _ (from_hex : Bytes → Result Bytes) where
  abbrev pub decodes_to : Result Bytes → Bytes → Bool
  decodes_to (ok s) x = bytes_eq x s
  decodes_to (err e) x = false

  -- The value is the string, or the bytes that its hexadecimal digits stand for.
  abbrev pub is_the_string : Bool → Bytes → Json → Bool
  is_the_string hex x (string s) = if hex then decodes_to (from_hex s) x else bytes_eq x s
  is_the_string hex x _ = false

  -- What a member asks of an event with the tags `tags`: no event has a value among none; the limit
  -- asks for nothing.
  abbrev pub meets : Encoding → PackedEventView → List Tag → Bytes × Json → Bool
  meets enc ev tags (k, v) =
      if is_empty_array v
      then false
      else if bytes_eq k (codes "ids")
      then any (is_the_string true (id ev)) (elements v)
      else if bytes_eq k (codes "authors")
      then any (is_the_string true (pubkey ev)) (elements v)
      else if bytes_eq k (codes "kinds")
      then any (is_the_number (kind enc ev)) (elements v)
      else if first_of_bytes k == b'#'
      then any
          (λ t.
            t.0 == get_or k 1 0
            && any (is_the_string (get_or k 1 0 == b'p' || get_or k 1 0 == b'e') t.1) (elements v))
          tags
      else if bytes_eq k (codes "since")
      then from_time v (created_at enc ev)
      else if bytes_eq k (codes "until")
      then up_to_time v (created_at enc ev)
      else true

  string_read :
      (hex : Bool) (v : Json) (s item x : Bytes)
      → get_string v ≡ ok s
      → (if hex then from_hex s else ok s) ≡ ok item
      → is_the_string hex x v ≡ bytes_eq x item
  string_read true (string s') s item x h1 h2 =
      let e : from_hex s' ≡ ok item = ap from_hex (ok-injective h1) ∙ h2 in rw e refl
  string_read false (string s') s item x h1 h2 = ap (bytes_eq x) (ok-injective h1 ∙ ok-injective h2)
  string_read hex null s item x h1 h2 = cc
  string_read hex (boolean b) s item x h1 h2 = cc
  string_read hex (unsigned n) s item x h1 h2 = cc
  string_read hex other_number s item x h1 h2 = cc
  string_read hex (array vs) s item x h1 h2 = cc
  string_read hex (object ms) s item x h1 h2 = cc

  collect-any :
      (hex : Bool) (lo hi : ℕ) (vs : List Json) (xs : List Bytes) (x : Bytes)
      → collect from_hex hex lo hi vs ≡ ok xs
      → any (bytes_eq x) xs ≡ any (is_the_string hex x) vs
  unfolding collect
  collect-any hex lo hi [] xs x h = ap (any (bytes_eq x)) (sym (ok-injective h))
  collect-any hex lo hi (v ∷ vs) xs x h = with_ok (get_string v) _ h (λ s e1 h1.
      with_ok (if hex then from_hex s else ok s) _ h1 (λ item e2 h2.
        with_passed (ltb (length item) lo) item_too_small _ h2 (λ p1 h3.
          with_passed (ltb hi (length item)) item_too_large _ h3 (λ p2 h4.
            with_ok (collect from_hex hex lo hi vs) _ h4 (λ rest e3 h5.
              ap (any (bytes_eq x)) (sym (ok-injective h5))
              ∙ (ap (λ b. b || any (bytes_eq x) rest) (sym (string_read hex v s item x e1 e2))
                  ∙ ap (λ b. is_the_string hex x v || b) (collect-any hex lo hi vs rest x e3)))))))

  pub strings-any :
      (hex : Bool) (lo hi : ℕ) (v : Json) (xs : List Bytes) (x : Bytes)
      → (get_array v >>= collect from_hex hex lo hi) ≡ ok xs
      → any (bytes_eq x) xs ≡ any (is_the_string hex x) (elements v)
  strings-any hex lo hi v xs x h =
      let (vs, e, h') = >>=-eq-ok (get_array v) _ h in
      collect-any hex lo hi vs xs x h'
      ∙ ap (any (is_the_string hex x)) (sym (elements-array v vs e))

number_read : (n m : ℕ) (v : Json) → get_unsigned v ≡ ok m → is_the_number n v ≡ (m == n)
number_read n m (unsigned k) h = ap (λ j. j == n) (ok-injective h)
number_read n m null h = cc
number_read n m (boolean b) h = cc
number_read n m other_number h = cc
number_read n m (string s) h = cc
number_read n m (array vs) h = cc
number_read n m (object ms) h = cc

numbers-collect :
    (vs : List Json) (ns : List ℕ) (n : ℕ)
    → SetUint.collect vs ≡ ok ns
    → any (λ m. m == n) ns ≡ any (is_the_number n) vs
unfolding SetUint.collect
numbers-collect [] ns n h = ap (any (λ m. m == n)) (sym (ok-injective h))
numbers-collect (v ∷ vs) ns n h = with_ok (get_unsigned v) _ h (λ m e h1.
    with_ok (SetUint.collect vs) _ h1 (λ rest e' h2.
      ap (any (λ j. j == n)) (sym (ok-injective h2))
      ∙ (ap (λ b. b || any (λ j. j == n) rest) (sym (number_read n m v e))
          ∙ ap (λ b. is_the_number n v || b) (numbers-collect vs rest n e'))))

pub numbers-any :
    (v : Json) (ns : List ℕ) (n : ℕ)
    → (get_array v >>= SetUint.collect) ≡ ok ns
    → any (λ m. m == n) ns ≡ any (is_the_number n) (elements v)
numbers-any v ns n h =
    let (vs, e, h') = >>=-eq-ok (get_array v) _ h in
    numbers-collect vs ns n h' ∙ ap (any (is_the_number n)) (sym (elements-array v vs e))
