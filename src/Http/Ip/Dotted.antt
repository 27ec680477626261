-- ===== src/Http/Ip/Dotted.antt =====
-- The decimal notation of an address, and the states of the loop of `isValidIPv4` as it reads one.
use strfry_http.Base.{
  ℕ, ◌+◌, ◌/◌, ◌%◌, ◌≤◌, ◌≡◌, true, false, [], ◌∷◌, ◌++◌, Bytes, length, ltb, if◌then◌else◌, arith,
}
use strfry_http.Http.Ip.{Octets, octet_step, octet_loop, octets_end}

-- The decimal digits of a number below 1000.
unfoldable pub decimal : ℕ → Bytes
decimal n =
    if ltb n 10
    then (n + 48) ∷ []
    else if ltb n 100
    then (n / 10 + 48) ∷ (n % 10 + 48) ∷ []
    else (n / 100 + 48) ∷ (n / 10 % 10 + 48) ∷ (n % 10 + 48) ∷ []

-- Four numbers up to 255, in decimal with no leading zeros, with dots between them.
pub record IsDotted (ip : Bytes) : Type 0 where
  pub a : ℕ
  pub b : ℕ
  pub c : ℕ
  pub d : ℕ
  pub a_byte : a ≤ 255
  pub b_byte : b ≤ 255
  pub c_byte : c ≤ 255
  pub d_byte : d ≤ 255
  pub written : ip ≡ decimal a ++ (b'.' ∷ (decimal b ++ (b'.' ∷ (decimal c ++ (b'.' ∷ decimal d)))))

-- The state behind an octet.
abbrev pub behind : ℕ → ℕ → Octets
behind k n = record {
  octets = k;
  current_value = n;
  digit_count = length (decimal n);
  last_was_dot = false;
}

abbrev pub before : ℕ → Octets
before k = record { octets = k; current_value = 0; digit_count = 0; last_was_dot = true }

pub octet_loop-decimal :
    (k n : ℕ) (rest : Bytes)
    → n ≤ 255
    → octet_loop (decimal n ++ rest) (before k) ≡ octet_loop rest (behind k n)
unfolding octet_loop octet_step decimal
octet_loop-decimal k n rest h = ground arith

pub octet_loop-dot :
    (k n : ℕ) (rest : Bytes)
    → n ≤ 255
    → octet_loop (b'.' ∷ rest) (behind k n) ≡ octet_loop rest (before (k + 1))
unfolding octet_loop octet_step decimal
octet_loop-dot k n rest h = ground arith

pub octets_end-behind : (n : ℕ) → n ≤ 255 → octets_end (behind 3 n) ≡ true
unfolding octets_end decimal
octets_end-behind n h = ground arith

pub length-decimal-le : (n : ℕ) → length (decimal n) ≤ 3
unfolding decimal
length-decimal-le n = ground arith
