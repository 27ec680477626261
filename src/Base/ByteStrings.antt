-- ===== src/Base/ByteStrings.antt =====
-- Byte strings, `std::string` and `std::string_view`: lists of numbers below 256. Their order is
-- that of `memcmp` on the common prefix, then of the lengths.
use Prim.Native.Char.{code}
use Prim.Native.String.{String}
use Prim.Native.Nat.{ℕ}
use mathlib.Core.Path.{◌≡◌, refl}
use mathlib.Core.Bool.{Bool, true, false}
use mathlib.Core.List.{List, [], ◌∷◌}
use native.Mathlib.Omega.{arith}
use strfry_http.Base.Tests.{ltb, ◌==◌, if◌then◌else◌}
use strfry_http.Base.Lists.{take, drop}

abbrev pub Bytes : Type 0
Bytes = List ℕ

-- `operator<` of strings
unfoldable pub bytes_lt : Bytes → Bytes → Bool
bytes_lt [] [] = false
bytes_lt [] (y ∷ ys) = true
bytes_lt (x ∷ xs) [] = false
bytes_lt (x ∷ xs) (y ∷ ys) =
    let rest = bytes_lt xs ys in if ltb x y then true else if ltb y x then false else rest

-- `operator==` of strings
unfoldable pub bytes_eq : Bytes → Bytes → Bool
bytes_eq [] [] = true
bytes_eq [] (y ∷ ys) = false
bytes_eq (x ∷ xs) [] = false
bytes_eq (x ∷ xs) (y ∷ ys) = let rest = bytes_eq xs ys in if x == y then rest else false

-- `s.substr(pos, n)` for a position that is in range
abbrev pub slice : ℕ → ℕ → Bytes → Bytes
slice pos n s = take n (drop pos s)

-- The first byte of a string, and the terminating 0 of an empty one.
abbrev pub first_of_bytes : Bytes → ℕ
first_of_bytes [] = 0
first_of_bytes (x ∷ xs) = x

pub bytes_eq_refl : (xs : Bytes) → bytes_eq xs xs ≡ true
unfolding bytes_eq
bytes_eq_refl [] = refl
bytes_eq_refl (x ∷ xs) = ground (arith, bytes_eq_refl xs)

pub eq_of-bytes_eq : (xs ys : Bytes) → bytes_eq xs ys ≡ true → xs ≡ ys
unfolding bytes_eq
eq_of-bytes_eq [] [] h = refl
eq_of-bytes_eq [] (y ∷ ys) h = cc
eq_of-bytes_eq (x ∷ xs) [] h = cc
eq_of-bytes_eq (x ∷ xs) (y ∷ ys) h = ground (arith, eq_of-bytes_eq xs ys)

pub bytes_lt_irrefl : (xs : Bytes) → bytes_lt xs xs ≡ false
unfolding bytes_lt
bytes_lt_irrefl [] = refl
bytes_lt_irrefl (x ∷ xs) = ground (arith, bytes_lt_irrefl xs)

pub bytes_lt_trans :
    (xs ys zs : Bytes) → bytes_lt xs ys ≡ true → bytes_lt ys zs ≡ true → bytes_lt xs zs ≡ true
unfolding bytes_lt
bytes_lt_trans [] [] zs h k = cc
bytes_lt_trans [] (y ∷ ys) [] h k = cc
bytes_lt_trans [] (y ∷ ys) (z ∷ zs) h k = refl
bytes_lt_trans (x ∷ xs) [] zs h k = cc
bytes_lt_trans (x ∷ xs) (y ∷ ys) [] h k = cc
bytes_lt_trans (x ∷ xs) (y ∷ ys) (z ∷ zs) h k = ground (arith, bytes_lt_trans xs ys zs)

-- Two strings are equal, or one is below the other.
pub bytes_trichotomy : (xs ys : Bytes) → bytes_lt xs ys ≡ false → bytes_lt ys xs ≡ false → xs ≡ ys
unfolding bytes_lt
bytes_trichotomy [] [] h k = refl
bytes_trichotomy [] (y ∷ ys) h k = cc
bytes_trichotomy (x ∷ xs) [] h k = cc
bytes_trichotomy (x ∷ xs) (y ∷ ys) h k = ground (arith, bytes_trichotomy xs ys)

-- The bytes of an ASCII literal.
abbrev pub codes : String → Bytes
codes String.[] = []
codes (String.◌∷◌ c s) = code c ∷ codes s
