-- ===== src/Tests/Addresses.antt =====
-- Addresses that are accepted and refused.
use strfry_http.Base.{◌≡◌, ◌↔◌, refl, ◌++◌, ◌∷◌, [], true, false, codes, arith}
use strfry_http.Http.Ip.{
  is_valid_ipv4, is_valid_ipv6, is_valid_ip_address, octet_loop, octet_step, octets_end, group_loop,
  colon_step, hex_step, groups_end, bad_ipv4_suffix, after_last_colon,
}
use strfry_http.Http.Ip.Dotted.{IsDotted}
use strfry_http.Http.Ip.Accepted.{is_valid_ipv4-IsDotted_iff}
use strfry_http.Http.Ip.Loose.{is_valid_ip_address_anything}

program : Unit {0}
unfolding is_valid_ipv4 is_valid_ipv6 is_valid_ip_address octet_loop octet_step octets_end
    group_loop colon_step hex_step groups_end bad_ipv4_suffix after_last_colon
program = tt

is_valid_ipv4-IsDotted_iff_example :
    (is_valid_ipv4 (codes "10.0.200.255") ≡ true) ↔ IsDotted (codes "10.0.200.255")
is_valid_ipv4-IsDotted_iff_example = is_valid_ipv4-IsDotted_iff (codes "10.0.200.255")

leading_zero : is_valid_ipv4 (codes "10.01.2.3") ≡ false
unfolding program
leading_zero = refl

too_big : is_valid_ipv4 (codes "10.256.2.3") ≡ false
unfolding program
too_big = refl

mapped : is_valid_ip_address (codes "::ffff:192.168.1.1") ≡ true
unfolding program
mapped = refl

-- A single colon in front of eight groups.
leading_colon : is_valid_ip_address (codes ":1:2:3:4:5:6:7:8") ≡ true
unfolding program
leading_colon = refl

is_valid_ip_address_anything_example :
    is_valid_ip_address (codes "::.spoofed client" ++ (b':' ∷ [])) ≡ true
is_valid_ip_address_anything_example =
    is_valid_ip_address_anything (codes "spoofed client") (omega arith)
