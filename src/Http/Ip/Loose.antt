-- ===== src/Http/Ip/Loose.antt =====
-- What `isValidIPv6` lets through: the loop stops at the first dot, and the part behind the last
-- colon is looked at only if it holds a dot.
use strfry_http.Base.{
  ◌≤◌, ◌≡◌, refl, true, [], ◌∷◌, ◌++◌, some, Bytes, length, arith, length-append,
}
use strfry_http.Http.Ip.{
  after_last_colon, bad_ipv4_suffix, group_loop, colon_step, groups_end, is_valid_ipv6,
  is_valid_ip_address,
}

after_last_colon-snoc : (s : Bytes) → after_last_colon (s ++ (b':' ∷ [])) ≡ some []
unfolding after_last_colon
after_last_colon-snoc [] = refl
after_last_colon-snoc (c ∷ s) = ground (arith, after_last_colon-snoc s)

-- Any text `s` of at most 41 bytes, written between `::.` and `:`, is accepted as an IP address.
pub is_valid_ip_address_anything :
    (s : Bytes)
    → length s ≤ 41
    → is_valid_ip_address (b':' ∷ b':' ∷ b'.' ∷ (s ++ (b':' ∷ []))) ≡ true
unfolding is_valid_ip_address is_valid_ipv6 bad_ipv4_suffix after_last_colon group_loop colon_step
    groups_end
is_valid_ip_address_anything s h =
    ground (arith, after_last_colon-snoc s, length-append s (b':' ∷ []))
