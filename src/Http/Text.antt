-- ===== src/Http/Text.antt =====
-- `sanitizeForLog` and `sanitizeErrorForClient` of src/HttpServer.cpp.
use strfry_http.Base.{
  ℕ, suc, ◌+◌, ◌≡◌, ◌≤◌, inl, inr, refl, Bool, true, false, not, ◌&&◌, ◌||◌, [], ◌∷◌, ◌++◌, Bytes,
  Option, none, some, length, take, all, leb, ltb, ◌==◌, if◌then◌else◌, bytes_eq, codes, arith,
  length-append, length-take, Bool-cases,
}

-- `std::string::find` of a string: the position of its first occurrence.
abbrev pub starts_with : Bytes → Bytes → Bool
starts_with needle s = bytes_eq (take (length needle) s) needle

unfoldable pub find : Bytes → Bytes → Option ℕ
find needle [] = if length needle == 0 then some 0 else none
find needle (c ∷ s) =
    let rest : Option ℕ = elim (find needle s) [ none ↦ none | some p ↦ some (suc p) ] in
    if starts_with needle (c ∷ s) then some 0 else rest

abbrev pub contains : Bytes → Bytes → Bool
contains needle s = elim (find needle s) [ none ↦ false | some p ↦ true ]

-- The byte that `sanitizeForLog` writes for a byte. A `char` above 127 is negative or above 127,
-- and is replaced either way.
unfoldable pub log_byte : ℕ → ℕ
log_byte c = if leb 32 c && (ltb c 127 && (not (c == 10) && not (c == 13))) then c else b'?'

-- The loop of `sanitizeForLog`, with the size of the result so far.
unfoldable pub log_loop : ℕ → ℕ → Bytes → Bytes
log_loop max_len size [] = []
log_loop max_len size (c ∷ input) =
    let rest = log_loop max_len (size + 1) input in
    if ltb size max_len then log_byte c ∷ rest else []

unfoldable pub sanitize_for_log : Bytes → ℕ → Bytes
sanitize_for_log input max_len =
    let result = log_loop max_len 0 input in
    if ltb max_len (length input) then result ++ codes "...[truncated]" else result

-- `if (msg.size() > n) return msg.substr(0, n) + "..."; return msg;`
unfoldable pub shortened : ℕ → Bytes → Bytes
shortened n msg = if ltb n (length msg) then take n msg ++ codes "..." else msg

unfoldable pub sanitize_error_for_client : Bytes → Bytes
sanitize_error_for_client msg =
    if contains (codes "parse") msg || (contains (codes "JSON") msg || contains (codes "json") msg)
    then shortened 100 msg
    else if contains (codes "LMDB") msg
        || (contains (codes "lmdb") msg || contains (codes "database") msg)
    then codes "Database error"
    else if contains (codes "memory") msg || contains (codes "alloc") msg
    then codes "Server resource error"
    else if contains (codes "filter") msg
        || (contains (codes "invalid") msg || contains (codes "parameter") msg)
    then shortened 150 msg
    else if ltb 100 (length msg)
    then codes "Internal error"
    else msg

abbrev pub is_printable : ℕ → Bool
is_printable c = leb 32 c && ltb c 127

log_byte_printable : (c : ℕ) → is_printable (log_byte c) ≡ true
unfolding log_byte
log_byte_printable c = ground arith

log_loop_printable :
    (max_len size : ℕ) (input : Bytes) → all is_printable (log_loop max_len size input) ≡ true
unfolding log_loop
log_loop_printable max_len size [] = refl
log_loop_printable max_len size (c ∷ input) =
    ground (arith, log_byte_printable c, log_loop_printable max_len (size + 1) input)

length-log_loop :
    (max_len size : ℕ) (input : Bytes)
    → size ≤ max_len
    → length (log_loop max_len size input) + size ≤ max_len
unfolding log_loop
length-log_loop max_len size [] h = omega (arith, h)
length-log_loop max_len size (c ∷ input) h =
    ground (arith, length-log_loop max_len (size + 1) input)

all_append :
    (xs ys : Bytes)
    → all is_printable xs ≡ true
    → all is_printable ys ≡ true
    → all is_printable (xs ++ ys) ≡ true
all_append [] ys h k = k
all_append (x ∷ xs) ys h k = ground (arith, all_append xs ys)

-- A line that is logged has printable ASCII characters only, hence no line break, and at most 14
-- bytes more than the length asked for.
pub sanitize_for_log_printable :
    (input : Bytes) (max_len : ℕ)
    → (all is_printable (sanitize_for_log input max_len) ≡ true)
      × (length (sanitize_for_log input max_len) ≤ max_len + 14)
unfolding sanitize_for_log
sanitize_for_log_printable input max_len =
    let result = log_loop max_len 0 input in
    let suffix = codes "...[truncated]" in
    let n = length-log_loop max_len 0 input (omega arith) in
    let p = log_loop_printable max_len 0 input in
    elim (Bool-cases (ltb max_len (length input))) [
      | inl long ↦
          rw long (all_append result suffix p refl, omega (arith, length-append result suffix))
      | inr short ↦ rw short (p, omega arith)
    ]

length-shortened : (n : ℕ) (msg : Bytes) → length (shortened n msg) ≤ n + 3
unfolding shortened
length-shortened n msg =
    let l = length-append (take n msg) (codes "...") in
    let t = length-take n msg in
    elim (Bool-cases (ltb n (length msg))) [
      | inl long ↦ rw long (omega (arith, l, t))
      | inr short ↦ rw short (ground (arith, short))
    ]

-- What a client is told of an error has at most 153 bytes.
pub length-sanitize_error_for_client : (msg : Bytes) → length (sanitize_error_for_client msg) ≤ 153
unfolding sanitize_error_for_client
length-sanitize_error_for_client msg =
    ground (arith, length-shortened 100 msg, length-shortened 150 msg)
