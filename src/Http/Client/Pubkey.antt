-- ===== src/Http/Client/Pubkey.antt =====
-- Which public key `extractPubkeyFromRequest` finds.
use strfry_http.Base.{
  ℕ, suc, ◌+◌, ◌≤◌, ◌≡◌, ◌⊎◌, inl, inr, refl, sym, ap, ◌∙◌, subst, ◌↔◌, true, false, not, ◌||◌, [],
  ◌∷◌, ◌++◌, Bytes, none, some, length, take, drop, slice, all, leb, ltb, ◌==◌, bytes_eq,
  eq_of-bytes_eq, codes, arith, Bool-cases, Option-cases, leb→le, length-append, length-take,
  length-drop, take-append-drop, take-append, drop-append,
}
use mathlib.Core.Option.{some-injective}
use mathlib.Core.List.{append_assoc}
use strfry_http.Http.Ip.{is_hex}
use strfry_http.Http.Text.{find, starts_with}
use strfry_http.Http.Client.{
  Request, pubkey_prefix, pubkey_prefix_space, pubkey_pos, extract_pubkey_from_request,
}

-- What is found stands in the text.
find-some :
    (p s : Bytes) (i : ℕ)
    → find p s ≡ some i
    → (before : Bytes) × (rest : Bytes) × (s ≡ before ++ (p ++ rest)) × (length before ≡ i)
unfolding find
find-some [] [] i h = ([], [], refl, some-injective _ _ h)
find-some (x ∷ p) [] i h = absurd (ground (arith, h))
find-some p (c ∷ s) i h = elim (Bool-cases (starts_with p (c ∷ s))) [
  | inl here ↦
      let e = eq_of-bytes_eq (take (length p) (c ∷ s)) p here in
      let at : some 0 ≡ some i = sym (rw here refl) ∙ h in
      (
        [],
        drop (length p) (c ∷ s),
        sym (take-append-drop (length p) (c ∷ s)) ∙ ap (λ q. q ++ drop (length p) (c ∷ s)) e,
        some-injective _ _ at,
      )
  | inr there ↦ elim (Option-cases (find p s)) [
    | inl nowhere ↦ absurd (ground (arith, there, nowhere, h))
    | inr (j, found) ↦
        let (before, rest, e, size) = find-some p s j found in
        let at : some (suc j) ≡ some i = sym (rw (there, found) refl) ∙ h in
        (c ∷ before, rest, ap (◌∷◌ c) e, ap suc size ∙ some-injective _ _ at)
  ]
]

-- The text `body` has `key`, 64 hexadecimal digits, behind the first `"pubkey":"`, or behind the first
-- `"pubkey": "` where it has no `"pubkey":"`.
pub record Names (body key : Bytes) : Type 0 where
  pub prefix : Bytes
  pub before : Bytes
  pub rest : Bytes
  pub written : body ≡ before ++ (prefix ++ (key ++ rest))
  pub first : find prefix body ≡ some (length before)
  pub which :
      (prefix ≡ pubkey_prefix) ⊎ ((prefix ≡ pubkey_prefix_space) × (find pubkey_prefix body ≡ none))
  pub long : length key ≡ 64
  pub hex : all is_hex key ≡ true

-- The text behind a prefix that is found.
Names-found :
    (prefix body : Bytes) (i : ℕ)
    → find prefix body ≡ some i
    → (prefix ≡ pubkey_prefix) ⊎ ((prefix ≡ pubkey_prefix_space) × (find pubkey_prefix body ≡ none))
    → i + length prefix + 64 ≤ length body
    → all is_hex (slice (i + length prefix) 64 body) ≡ true
    → Names body (slice (i + length prefix) 64 body)
Names-found prefix body i found which long hex =
    let (before, rest, e, size) = find-some prefix body i found in
    let key = slice (i + length prefix) 64 body in
    let behind : drop (i + length prefix) body ≡ rest =
      ap (drop (i + length prefix)) (e ∙ sym (append_assoc before prefix rest))
      ∙ drop-append (i + length prefix) (before ++ prefix) rest
          (omega (arith, length-append before prefix, size)) in
    let split : rest ≡ key ++ drop 64 rest =
      sym (take-append-drop 64 rest) ∙ ap (λ r. take 64 r ++ drop 64 rest) (sym behind) in
    record {
      prefix = prefix;
      before = before;
      rest = drop 64 rest;
      written = e ∙ ap (λ r. before ++ (prefix ++ r)) split;
      first = found ∙ ap some (sym size);
      which = which;
      long = omega (
        arith,
        length-take 64 (drop (i + length prefix) body),
        length-drop (i + length prefix) body,
      );
      hex = hex;
    }

pubkey_pos-Names :
    (body key : Bytes) (n : Names body key)
    → (pubkey_pos body ≡ some (length n.before + length n.prefix))
unfolding pubkey_pos
pubkey_pos-Names body key n = elim n.which [
  | inl plain ↦
      let found = ap (λ p. find p body) (sym plain) ∙ n.first in
      rw (pubkey_pos, found) (ap (λ p. some (length n.before + length p)) (sym plain))
  | inr (spaced, no_plain) ↦
      let found = ap (λ p. find p body) (sym spaced) ∙ n.first in
      rw (pubkey_pos, no_plain, found) (ap (λ p. some (length n.before + length p)) (sym spaced))
]

slice-Names :
    (body key : Bytes) (n : Names body key)
    → (slice (length n.before + length n.prefix) 64 body ≡ key)
      × (length n.before + length n.prefix + 64 ≤ length body)
slice-Names body key n =
    let pos = length n.before + length n.prefix in
    let at : drop pos body ≡ key ++ n.rest =
      ap (drop pos) (n.written ∙ sym (append_assoc n.before n.prefix (key ++ n.rest)))
      ∙ drop-append pos (n.before ++ n.prefix) (key ++ n.rest)
          (omega (arith, length-append n.before n.prefix)) in
    let size = ap length at in
    (
      ap (take 64) at ∙ take-append 64 key n.rest n.long,
      omega (arith, size, length-append key n.rest, length-drop pos body, n.long),
    )

pubkey_pos-found :
    (body : Bytes) (pos : ℕ)
    → pubkey_pos body ≡ some pos
    → pos + 64 ≤ length body
    → all is_hex (slice pos 64 body) ≡ true
    → Names body (slice pos 64 body)
unfolding pubkey_pos
pubkey_pos-found body pos h long hex = elim (Option-cases (find pubkey_prefix body)) [
  | inr (i, found) ↦
      let e : i + length pubkey_prefix ≡ pos =
        some-injective _ _ (sym (rw (pubkey_pos, found) refl) ∙ h) in
      subst
        (λ n.
          n + 64 ≤ length body → all is_hex (slice n 64 body) ≡ true → Names body (slice n 64 body))
        e (Names-found pubkey_prefix body i found (inl refl)) long hex
  | inl no_plain ↦ elim (Option-cases (find pubkey_prefix_space body)) [
    | inr (i, found) ↦
        let e : i + length pubkey_prefix_space ≡ pos =
          some-injective _ _ (sym (rw (pubkey_pos, no_plain, found) refl) ∙ h) in
        subst
          (λ n.
            n + 64 ≤ length body
            → all is_hex (slice n 64 body) ≡ true
            → Names body (slice n 64 body))
          e (Names-found pubkey_prefix_space body i found (inr (refl, no_plain))) long hex
    | inl no_spaced ↦ absurd (ground (arith, no_plain, no_spaced, h))
  ]
]

extracted-Names :
    (req : Request)
    → (extract_pubkey_from_request req ≡ [])
      ⊎ ((bytes_eq req.method (codes "POST") ≡ true)
          × Names req.body (extract_pubkey_from_request req))
unfolding extract_pubkey_from_request
extracted-Names req =
    elim (Bool-cases (not (bytes_eq req.method (codes "POST")) || length req.body == 0)) [
      | inl other ↦ rw other (inl refl)
      | inr post ↦ rw post (elim (Option-cases (pubkey_pos req.body)) [
        | inl nowhere ↦ rw nowhere (inl refl)
        | inr (pos, there) ↦ rw there (elim (Bool-cases (leb (length req.body) pos)) [
          | inl past ↦ rw past (inl refl)
          | inr inside ↦ rw inside (elim (Bool-cases (ltb (length req.body) (pos + 64))) [
            | inl short ↦ rw short (inl refl)
            | inr long ↦ rw long (elim (Bool-cases (all is_hex (slice pos 64 req.body))) [
              | inr other ↦ rw other (inl refl)
              | inl hex ↦ rw hex (
                  inr (
                    ground (arith, post),
                    pubkey_pos-found req.body pos there
                        (leb→le (pos + 64) (length req.body) (ground (arith, long))) hex,
                  ))
            ])
          ])
        ])
      ])
    ]

room_for :
    (n pos : ℕ)
    → pos + 64 ≤ n
    → ((n == 0) ≡ false) × (leb n pos ≡ false) × (ltb n (pos + 64) ≡ false)
room_for n pos h = (ground arith, ground arith, ground arith)

Names-extracted :
    (req : Request) (key : Bytes)
    → bytes_eq req.method (codes "POST") ≡ true
    → Names req.body key
    → extract_pubkey_from_request req ≡ key
unfolding extract_pubkey_from_request
Names-extracted req key post n =
    let pos = length n.before + length n.prefix in
    let (at, long) = slice-Names req.body key n in
    let there = pubkey_pos-Names req.body key n in
    let room = room_for (length req.body) pos long in
    let tested : (not (bytes_eq req.method (codes "POST")) || length req.body == 0) ≡ false =
      rw (post, room.0) refl in
    let hex : all is_hex (slice pos 64 req.body) ≡ true = ap (all is_hex) at ∙ n.hex in
    rw (tested, there, room.1, room.2, hex) at

-- The name that the rate limiter counts a request under, where it is not empty, is exactly the key
-- that the body of a POST request has behind `"pubkey":"`, or else behind `"pubkey": "`: 64
-- hexadecimal digits behind the first occurrence.
pub extract_pubkey_from_request-Names_iff :
    (req : Request) (key : Bytes)
    → 1 ≤ length key
    → (extract_pubkey_from_request req ≡ key)
      ↔ ((bytes_eq req.method (codes "POST") ≡ true) × Names req.body key)
extract_pubkey_from_request-Names_iff req key some_key = (
  λ e. elim (extracted-Names req) [
    | inl nothing ↦
        let size : length key ≡ 0 = ap length (sym e ∙ nothing) in absurd (omega (arith, size))
    | inr (post, n) ↦ (post, subst (Names req.body) e n)
  ],
  λ (post, n). Names-extracted req key post n,
)
