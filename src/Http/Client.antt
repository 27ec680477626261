-- ===== src/Http/Client.antt =====
-- `HttpServer::getClientIP` and `HttpServer::extractPubkeyFromRequest` of src/HttpServer.cpp.
use strfry_http.Base.{
  ℕ, suc, ◌+◌, ◌-◌, ◌≡◌, ◌⊎◌, inl, inr, refl, Bool, true, false, not, ◌||◌, [], ◌∷◌, Bytes, Option,
  none, some, length, take, slice, all, leb, ltb, ◌==◌, if◌then◌else◌, bytes_eq, codes, arith,
  Bool-cases, Option-cases, min, leb→le, length-take, length-drop, drop,
}
use strfry_http.Http.Ip.{is_valid_ip_address, is_hex}
use strfry_http.Http.Text.{find}
pub mod Pubkey

-- What the handlers read of `httplib::Request`. A header is there exactly if it has a value.
pub record Request : Type 0 where
  pub method : Bytes
  pub body : Bytes
  pub remote_addr : Bytes
  pub header : Bytes → Option Bytes

abbrev pub is_blank : ℕ → Bool
is_blank c = c == b' ' || c == 9

-- `find_first_not_of(" \t")` and `find_last_not_of(" \t")`
unfoldable pub find_first_not_of : Bytes → Option ℕ
find_first_not_of [] = none
find_first_not_of (c ∷ s) =
    let rest : Option ℕ = elim (find_first_not_of s) [ none ↦ none | some p ↦ some (suc p) ] in
    if is_blank c then rest else some 0

unfoldable pub find_last_not_of : Bytes → Option ℕ
find_last_not_of [] = none
find_last_not_of (c ∷ s) = elim (find_last_not_of s) [
  | none ↦ if is_blank c then none else some 0
  | some p ↦ some (suc p)
]

-- Text that is blank stays as it is.
unfoldable pub trim : Bytes → Bytes
trim s = elim (find_first_not_of s) [
  | none ↦ s
  | some start ↦ elim (find_last_not_of s) [ none ↦ s | some end ↦ slice start (end - start + 1) s ]
]

-- The first address of the header X-Forwarded-For.
unfoldable pub first_address : Bytes → Bytes
first_address xff = elim (find (codes ",") xff) [
  | none ↦ trim xff
  | some comma_pos ↦ trim (take comma_pos xff)
]

-- The address that a header holds, if it is a valid one.
unfoldable pub valid_address : Bytes → Option Bytes
valid_address ip = if is_valid_ip_address ip then some ip else none

unfoldable pub forwarded_for : Request → Option Bytes
forwarded_for req = elim (req.header (codes "X-Forwarded-For")) [
  | none ↦ none
  | some xff ↦ valid_address (first_address xff)
]

unfoldable pub real_ip : Request → Option Bytes
real_ip req = elim (req.header (codes "X-Real-IP")) [
  | none ↦ none
  | some ip ↦ valid_address (trim ip)
]

unfoldable pub get_client_ip : Bool → Request → Bytes
get_client_ip trust_proxy req =
    if trust_proxy
    then elim (forwarded_for req) [
      | some ip ↦ ip
      | none ↦ elim (real_ip req) [ some ip ↦ ip | none ↦ req.remote_addr ]
    ]
    else req.remote_addr

abbrev pub pubkey_prefix : Bytes
pubkey_prefix = codes "\"pubkey\":\""

abbrev pub pubkey_prefix_space : Bytes
pubkey_prefix_space = codes "\"pubkey\": \""

-- Where the text behind a prefix starts: the prefix without a blank is tried first.
unfoldable pub pubkey_pos : Bytes → Option ℕ
pubkey_pos body = elim (find pubkey_prefix body) [
  | some pos ↦ some (pos + length pubkey_prefix)
  | none ↦ elim (find pubkey_prefix_space body) [
    | some pos ↦ some (pos + length pubkey_prefix_space)
    | none ↦ none
  ]
]

unfoldable pub extract_pubkey_from_request : Request → Bytes
extract_pubkey_from_request req =
    if not (bytes_eq req.method (codes "POST")) || length req.body == 0
    then []
    else elim (pubkey_pos req.body) [
      | none ↦ []
      | some pos ↦
          if leb (length req.body) pos
          then []
          else if ltb (length req.body) (pos + 64)
          then []
          else if all is_hex (slice pos 64 req.body)
          then slice pos 64 req.body
          else []
    ]

valid_address_valid : (ip a : Bytes) → valid_address ip ≡ some a → is_valid_ip_address a ≡ true
unfolding valid_address
valid_address_valid ip a h = elim (Bool-cases (is_valid_ip_address ip)) [
  | inl valid ↦ ground (arith, valid, h)
  | inr invalid ↦ ground (arith, invalid, h)
]

forwarded_for_valid :
    (req : Request) (a : Bytes) → forwarded_for req ≡ some a → is_valid_ip_address a ≡ true
unfolding forwarded_for
forwarded_for_valid req a h = elim (Option-cases (req.header (codes "X-Forwarded-For"))) [
  | inl none_there ↦ ground (arith, none_there, h)
  | inr (xff, there) ↦ valid_address_valid (first_address xff) a (ground (arith, there, h))
]

real_ip_valid : (req : Request) (a : Bytes) → real_ip req ≡ some a → is_valid_ip_address a ≡ true
unfolding real_ip
real_ip_valid req a h = elim (Option-cases (req.header (codes "X-Real-IP"))) [
  | inl none_there ↦ ground (arith, none_there, h)
  | inr (ip, there) ↦ valid_address_valid (trim ip) a (ground (arith, there, h))
]

-- The client's address is the address of the connection, or proxy headers are trusted and it is one
-- that isValidIPAddress accepts, whatever the headers hold.
pub get_client_ip_valid :
    (trust_proxy : Bool) (req : Request)
    → (get_client_ip trust_proxy req ≡ req.remote_addr)
      ⊎ ((trust_proxy ≡ true) × (is_valid_ip_address (get_client_ip trust_proxy req) ≡ true))
unfolding get_client_ip
get_client_ip_valid false req = inl refl
get_client_ip_valid true req = elim (Option-cases (forwarded_for req)) [
  | inr (a, there) ↦ rw there (inr (refl, forwarded_for_valid req a there))
  | inl none_there ↦ rw none_there (elim (Option-cases (real_ip req)) [
    | inr (a, there) ↦ rw there (inr (refl, real_ip_valid req a there))
    | inl none_there' ↦ rw none_there' (inl refl)
  ])
]
