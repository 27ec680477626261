-- ===== src/Http/Ip.antt =====
-- `isValidIPv4`, `isValidIPv6` and `isValidIPAddress` of src/HttpServer.cpp. A loop that returns
-- early is `none` where it returns false.
use strfry_http.Base.{
  ℕ, zero, suc, ◌+◌, ◌-◌, ◌*◌, Bool, true, false, not, ◌&&◌, ◌||◌, List, [], ◌∷◌, Option, none,
  some, Bytes, length, any, leb, ltb, ◌==◌, if◌then◌else◌,
}
pub mod Dotted
pub mod Prefix
pub mod Accepted
pub mod Loose

abbrev pub is_digit : ℕ → Bool
is_digit c = leb b'0' c && leb c b'9'

abbrev pub is_hex : ℕ → Bool
is_hex c = is_digit c || ((leb b'a' c && leb c b'f') || (leb b'A' c && leb c b'F'))

-- The variables of the loop of `isValidIPv4`.
pub record Octets : Type 0 where
  pub octets : ℕ
  pub current_value : ℕ
  pub digit_count : ℕ
  pub last_was_dot : Bool

unfoldable pub octet_step : ℕ → Octets → Option Octets
octet_step c st =
    if c == b'.'
    then (if st.last_was_dot || st.digit_count == 0
        then none
        else if ltb 255 st.current_value
        then none
        else some (record {
          octets = st.octets + 1;
          current_value = 0;
          digit_count = 0;
          last_was_dot = true;
        }))
    else if is_digit c
    then (let value = st.current_value * 10 + (c - b'0') in
        if st.digit_count == 1 && st.current_value == 0
        then none
        else if ltb 255 value
        then none
        else if ltb 3 (st.digit_count + 1)
        then none
        else some (record st {
          current_value = value;
          digit_count = st.digit_count + 1;
          last_was_dot = false;
        }))
    else none

unfoldable pub octet_loop : Bytes → Octets → Option Octets
octet_loop [] st = some st
octet_loop (c ∷ ip) st = elim (octet_step c st) [ none ↦ none | some st' ↦ octet_loop ip st' ]

-- The tests behind the loop.
unfoldable pub octets_end : Octets → Bool
octets_end st =
    if st.last_was_dot || st.digit_count == 0
    then false
    else if ltb 255 st.current_value
    then false
    else st.octets + 1 == 4

abbrev pub octets_start : Octets
octets_start = record { octets = 0; current_value = 0; digit_count = 0; last_was_dot = true }

unfoldable pub is_valid_ipv4 : Bytes → Bool
is_valid_ipv4 ip =
    if length ip == 0 || ltb 15 (length ip)
    then false
    else elim (octet_loop ip octets_start) [ none ↦ false | some st ↦ octets_end st ]

-- What follows the last colon, if there is one: `ip.substr(ip.rfind(':') + 1)`.
unfoldable pub after_last_colon : Bytes → Option Bytes
after_last_colon [] = none
after_last_colon (c ∷ ip) = elim (after_last_colon ip) [
  | none ↦ if c == b':' then some ip else none
  | some suffix ↦ some suffix
]

-- The variables of the loop of `isValidIPv6`.
pub record Groups : Type 0 where
  pub colon_count : ℕ
  pub double_colon_count : ℕ
  pub group_count : ℕ
  pub hex_digits : ℕ
  pub last_was_colon : Bool

abbrev pub groups_start : Groups
groups_start = record {
  colon_count = 0;
  double_colon_count = 0;
  group_count = 0;
  hex_digits = 0;
  last_was_colon = false;
}

unfoldable pub colon_step : Groups → Option Groups
colon_step st =
    if st.last_was_colon
    then (if ltb 1 (st.double_colon_count + 1)
        then none
        else some (record st {
          double_colon_count = st.double_colon_count + 1;
          colon_count = st.colon_count + 1;
          last_was_colon = true;
        }))
    else if ltb 0 st.hex_digits
    then some (record st {
      group_count = st.group_count + 1;
      hex_digits = 0;
      colon_count = st.colon_count + 1;
      last_was_colon = true;
    })
    else some (record st { colon_count = st.colon_count + 1; last_was_colon = true })

unfoldable pub hex_step : Groups → Option Groups
hex_step st =
    if ltb 4 (st.hex_digits + 1)
    then none
    else some (record st { hex_digits = st.hex_digits + 1; last_was_colon = false })

-- A dot ends the loop.
unfoldable pub group_loop : Bytes → Groups → Option Groups
group_loop [] st = some st
group_loop (c ∷ ip) st =
    let next = if c == b':' then colon_step st else if is_hex c then hex_step st else none in
    let rest : Option Groups = elim next [ none ↦ none | some st' ↦ group_loop ip st' ] in
    if c == b'.' then some st else rest

unfoldable pub groups_end : Groups → Bool
groups_end st =
    let count = if ltb 0 st.hex_digits then st.group_count + 1 else st.group_count in
    if st.double_colon_count == 0 && not (count == 8)
    then false
    else if st.double_colon_count == 1 && ltb 7 count
    then false
    else leb 2 st.colon_count

abbrev pub has_byte : ℕ → Bytes → Bool
has_byte b = any (λ c. c == b)

-- The check of an IPv4 part behind the last colon.
unfoldable pub bad_ipv4_suffix : Bytes → Bool
bad_ipv4_suffix ip = elim (after_last_colon ip) [
  | none ↦ false
  | some suffix ↦ not (length suffix == 0) && (has_byte b'.' suffix && not (is_valid_ipv4 suffix))
]

unfoldable pub is_valid_ipv6 : Bytes → Bool
is_valid_ipv6 ip =
    if length ip == 0 || ltb 45 (length ip)
    then false
    else if bad_ipv4_suffix ip
    then false
    else elim (group_loop ip groups_start) [ none ↦ false | some st ↦ groups_end st ]

unfoldable pub is_valid_ip_address : Bytes → Bool
is_valid_ip_address ip =
    if length ip == 0 || ltb 45 (length ip)
    then false
    else if not (has_byte b':' ip)
    then is_valid_ipv4 ip
    else is_valid_ipv6 ip
