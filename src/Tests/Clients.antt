-- ===== src/Tests/Clients.antt =====
-- What is read from a request, and what is written of one.
use strfry_http.Base.{
  ◌+◌, ◌≡◌, ◌≤◌, ◌⊎◌, ◌↔◌, inl, refl, arith, ◌∷◌, ◌++◌, none, some, length, all, true, codes,
  replicate, bytes_eq, if◌then◌else◌,
}
use strfry_http.Http.Ip.{is_valid_ip_address, is_hex}
use strfry_http.Http.Text.{
  sanitize_for_log, sanitize_error_for_client, is_printable, sanitize_for_log_printable, find,
  length-sanitize_error_for_client, log_loop, log_byte,
}
use strfry_http.Http.Client.{
  Request, get_client_ip, extract_pubkey_from_request, get_client_ip_valid, first_address, trim,
  find_first_not_of, find_last_not_of, pubkey_prefix,
}
use strfry_http.Http.Client.Pubkey.{Names, extract_pubkey_from_request-Names_iff}

program : Unit {0}
unfolding sanitize_for_log log_loop log_byte first_address trim find find_first_not_of
    find_last_not_of bytes_eq
program = tt

cut_line : sanitize_for_log (codes "ab" ++ (10 ∷ codes "cd")) 3 ≡ codes "ab?...[truncated]"
unfolding program
cut_line = refl

trimmed : first_address (codes "  10.0.0.1 , 10.0.0.2") ≡ codes "10.0.0.1"
unfolding program
trimmed = refl

sanitize_for_log_printable_example :
    (all is_printable (sanitize_for_log (10 ∷ codes "abcd") 3) ≡ true)
    × (length (sanitize_for_log (10 ∷ codes "abcd") 3) ≤ 3 + 14)
sanitize_for_log_printable_example = sanitize_for_log_printable (10 ∷ codes "abcd") 3

length-sanitize_error_for_client_example :
    length (sanitize_error_for_client (codes "LMDB failed")) ≤ 153
length-sanitize_error_for_client_example = length-sanitize_error_for_client (codes "LMDB failed")

abbrev request : Request
request = record {
  method = codes "POST";
  body = codes "{\"pubkey\":\"" ++ replicate 64 b'a' ++ codes "\"}";
  remote_addr = codes "192.168.0.1";
  header = λ name. if bytes_eq name (codes "X-Real-IP") then some (codes " 10.0.0.1") else none;
}

get_client_ip_valid_example :
    (get_client_ip true request ≡ request.remote_addr)
    ⊎ ((true ≡ true) × (is_valid_ip_address (get_client_ip true request) ≡ true))
get_client_ip_valid_example = get_client_ip_valid true request

abbrev key_of_request : Names request.body (replicate 64 b'a')
unfolding find bytes_eq is_hex
key_of_request = record {
  prefix = pubkey_prefix;
  before = codes "{";
  rest = codes "\"}";
  written = refl;
  first = refl;
  which = inl refl;
  long = refl;
  hex = refl;
}

extract_pubkey_from_request-Names_iff_example :
    (extract_pubkey_from_request request ≡ replicate 64 b'a')
    ↔ ((bytes_eq request.method (codes "POST") ≡ true) × Names request.body (replicate 64 b'a'))
extract_pubkey_from_request-Names_iff_example =
    extract_pubkey_from_request-Names_iff request (replicate 64 b'a') (omega arith)

-- The key of the request is found.
key_extracted : extract_pubkey_from_request request ≡ replicate 64 b'a'
unfolding bytes_eq
key_extracted =
    (extract_pubkey_from_request-Names_iff request (replicate 64 b'a') (omega arith)).1
      (refl, key_of_request)
