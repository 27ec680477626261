-- ===== src/Tests/Instances.antt =====
-- Concrete values for the parameters of the model: numbers in little-endian bytes, a decoder of
-- hexadecimal text, and token counts.
use strfry_http.Base.{
  ℕ, ◌+◌, ◌-◌, ◌*◌, ◌/◌, ◌%◌, ◌<◌, ◌≤◌, ◌≡◌, refl, [], ◌∷◌, Bytes, Result, ok, err, ◌>>=◌, bad_hex,
  length, arith, leb, ltb, ◌&&◌, if◌then◌else◌, true, false,
}
use strfry_http.Packed.{Encoding}
use strfry_http.Rate.Bucket.{Double}

little_endian : ℕ → Bytes
little_endian n =
    (n % 256)
    ∷ (n / 256 % 256)
    ∷ (n / 65536 % 256)
    ∷ (n / 16777216 % 256)
    ∷ (n / 4294967296 % 256)
    ∷ (n / 1099511627776 % 256)
    ∷ (n / 281474976710656 % 256)
    ∷ (n / 72057594037927936 % 256)
    ∷ []

from_little_endian : Bytes → ℕ
from_little_endian [] = 0
from_little_endian (b ∷ bs) = b + 256 * from_little_endian bs

length-little_endian : (n : ℕ) → length (little_endian n) ≡ 8
unfolding little_endian
length-little_endian n = refl

from_little_endian-little_endian :
    (n : ℕ) → n < 18446744073709551616 → from_little_endian (little_endian n) ≡ n
unfolding little_endian from_little_endian
from_little_endian-little_endian n h = omega arith

unfoldable pub native_encoding : Encoding
unfolding little_endian from_little_endian length-little_endian from_little_endian-little_endian
native_encoding = record {
  to_sv = little_endian;
  from_sv = from_little_endian;
  length-to_sv = length-little_endian;
  from_sv-to_sv = from_little_endian-little_endian;
}

hex_digit : ℕ → Result ℕ
hex_digit c =
    if leb 48 c && leb c 57
    then ok (c - 48)
    else if leb 97 c && leb c 102
    then ok (c - 87)
    else err bad_hex

unfoldable pub from_hex : Bytes → Result Bytes
unfolding hex_digit
from_hex [] = ok []
from_hex (a ∷ []) = err bad_hex
from_hex (a ∷ b ∷ s) = do
  hi ← hex_digit a
  lo ← hex_digit b
  rest ← from_hex s
  ok ((hi * 16 + lo) ∷ rest)

-- Whole numbers of tokens, and a tick for a second.
pub ltb_asym : (a b : ℕ) → ltb a b ≡ true → ltb b a ≡ false
ltb_asym a b h = ground arith

pub ltb_irrefl : (a : ℕ) → ltb a a ≡ false
ltb_irrefl a = ground arith

pub no_seconds : (later earlier n : ℕ) → later ≤ earlier → ltb n (later - earlier) ≡ false
no_seconds later earlier n h = ground arith

abbrev pub whole_tokens : Double
whole_tokens = record {
  D = ℕ;
  add = λ a b. a + b;
  sub = λ a b. a - b;
  mul = λ a b. a * b;
  div = λ a b. a / b;
  lt = ltb;
  ge = λ a b. leb b a;
  of_nat = λ n. n;
  staleness = 1;
  seconds = λ later earlier. later - earlier;
  lt_asym = ltb_asym;
  lt_irrefl = ltb_irrefl;
  seconds_le = no_seconds;
}
