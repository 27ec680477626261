-- ===== src/Filter/Nostr/Conditions.antt =====
-- Small facts about keys and the conjunction of a filter's conditions.
use strfry_http.Base.{
  ℕ, ◌≡◌, refl, ap, ◌∙◌, Bool, true, false, ◌&&◌, ◌||◌, List, [], ◌∷◌, ◌++◌, Bytes, bytes_eq,
  first_of_bytes, get_or, length, leb, ◌==◌, ==_iff, ok, ok-injective, any, all, arith,
}
use strfry_http.Base.Json.{
  Json, get_unsigned, unsigned, null, boolean, other_number, string, array, object,
}
use strfry_http.Filter.Nostr.Written.{from_time, up_to_time}

-- A key is among those that were read.
abbrev pub read : Bytes → List Bytes → Bool
read j seen = any (λ k. bytes_eq k j) seen

pub or_false : (a b : Bool) → (a || b) ≡ false → (a ≡ false) × (b ≡ false)
or_false a b h = (ground (arith, h), ground (arith, h))

pub from_time-unsigned :
    (v : Json) (n created : ℕ) → get_unsigned v ≡ ok n → from_time v created ≡ leb n created
from_time-unsigned (unsigned m) n created h = ap (λ j. leb j created) (ok-injective h)
from_time-unsigned null n created h = cc
from_time-unsigned (boolean b) n created h = cc
from_time-unsigned other_number n created h = cc
from_time-unsigned (string s) n created h = cc
from_time-unsigned (array vs) n created h = cc
from_time-unsigned (object ms) n created h = cc

pub up_to_time-unsigned :
    (v : Json) (n created : ℕ) → get_unsigned v ≡ ok n → up_to_time v created ≡ leb created n
up_to_time-unsigned (unsigned m) n created h = ap (leb created) (ok-injective h)
up_to_time-unsigned null n created h = cc
up_to_time-unsigned (boolean b) n created h = cc
up_to_time-unsigned other_number n created h = cc
up_to_time-unsigned (string s) n created h = cc
up_to_time-unsigned (array vs) n created h = cc
up_to_time-unsigned (object ms) n created h = cc

pub leb_zero : (n : ℕ) → leb 0 n ≡ true
leb_zero n = ground arith

pub and_true : (b : Bool) → b ≡ (b && true)
and_true b = ground arith

pub and_false : (b : Bool) → false ≡ (b && false)
and_false b = ground arith

-- A key of two characters that starts with `#`.
pub tag_key :
    (k : Bytes)
    → (length k == 2) ≡ true
    → (first_of_bytes k == b'#') ≡ true
    → k ≡ b'#' ∷ get_or k 1 0 ∷ []
tag_key [] h1 h2 = absurd (ground (arith, h1))
tag_key (a ∷ []) h1 h2 = absurd (ground (arith, h1))
tag_key (a ∷ b ∷ []) h1 h2 = ap (λ c. c ∷ b ∷ []) ((==_iff a b'#').0 h2)
tag_key (a ∷ b ∷ c ∷ k) h1 h2 = absurd (ground (arith, h1))

pub any_congr {ℓ} :
    {A : Type ℓ} (p q : A → Bool) (xs : List A) → ((x : A) → p x ≡ q x) → any p xs ≡ any q xs
any_congr p q [] e = refl
any_congr p q (x ∷ xs) e = ap (λ b. b || any p xs) (e x) ∙ ap (λ b. q x || b) (any_congr p q xs e)

pub all-append {ℓ} :
    {A : Type ℓ} (p : A → Bool) (xs : List A) (y : A) → all p (xs ++ (y ∷ [])) ≡ (all p xs && p y)
all-append p [] y = ground arith
all-append p (x ∷ xs) y = ground (arith, all-append p xs y)

-- The conjunction of the conditions.
abbrev pub all_of : Bool → Bool → Bool → Bool → Bool → Bool → Bool → Bool
all_of n s u i a k t = n && (s && (u && (i && (a && (k && t)))))

pub ids_last : (n s u w a k t : Bool) → all_of n s u w a k t ≡ (all_of n s u true a k t && w)
ids_last n s u w a k t = ground arith

pub authors_last : (n s u i w k t : Bool) → all_of n s u i w k t ≡ (all_of n s u i true k t && w)
authors_last n s u i w k t = ground arith

pub kinds_last : (n s u i a w t : Bool) → all_of n s u i a w t ≡ (all_of n s u i a true t && w)
kinds_last n s u i a w t = ground arith

pub since_last : (n w u i a k t : Bool) → all_of n w u i a k t ≡ (all_of n true u i a k t && w)
since_last n w u i a k t = ground arith

pub until_last : (n s w i a k t : Bool) → all_of n s w i a k t ≡ (all_of n s true i a k t && w)
until_last n s w i a k t = ground arith

pub tags_last : (n s u i a k t w : Bool) → all_of n s u i a k (t && w) ≡ (all_of n s u i a k t && w)
tags_last n s u i a k t w = ground arith
