-- ===== src/Http/Query/Tokens.antt =====
-- The lists in query parameters: what stands between the commas.
use strfry_http.Base.{
  ℕ, ◌+◌, ◌≡◌, refl, ◌∙◌, ap, Bool, true, false, not, ◌&&◌, List, [], ◌∷◌, ◌++◌, Bytes, length, all,
  ◌==◌, codes, arith,
}
use mathlib.Core.List.{append-nil}
use strfry_http.Http.Query.{tokens, tokens_loop, reversed_onto}
use strfry_http.Http.Query.Answers.{joined, behind_commas}

-- A token that a list can hold: it has no comma and is not empty.
abbrev pub is_token : Bytes → Bool
is_token t = all (λ c. not (c == b',')) t && not (length t == 0)

tokens_loop-comma :
    (acc t s : Bytes)
    → all (λ c. not (c == b',')) t ≡ true
    → tokens_loop acc (t ++ (codes "," ++ s)) ≡ reversed_onto acc t ∷ tokens_loop [] s
unfolding tokens_loop reversed_onto
tokens_loop-comma acc [] s h = refl
tokens_loop-comma acc (c ∷ t) s h = ground (arith, h, tokens_loop-comma (c ∷ acc) t s)

tokens_loop-last :
    (acc t : Bytes)
    → all (λ c. not (c == b',')) t ≡ true
    → (length acc + length t == 0) ≡ false
    → tokens_loop acc t ≡ reversed_onto acc t ∷ []
unfolding tokens_loop reversed_onto
tokens_loop-last acc [] h k = ground (arith, h, k)
tokens_loop-last acc (c ∷ t) h k = ground (arith, h, k, tokens_loop-last (c ∷ acc) t)

tokens-behind :
    (t : Bytes) (ts : List Bytes)
    → is_token t ≡ true
    → all is_token ts ≡ true
    → tokens (t ++ behind_commas ts) ≡ t ∷ ts
unfolding reversed_onto
tokens-behind t [] h k =
    let free : all (λ c. not (c == b',')) t ≡ true = ground (arith, h) in
    let long : (length {A = ℕ} [] + length t == 0) ≡ false = ground (arith, h) in
    rw (append-nil t) (tokens_loop-last [] t free long)
tokens-behind t (u ∷ us) h k =
    let free : all (λ c. not (c == b',')) t ≡ true = ground (arith, h) in
    let this : is_token u ≡ true = ground (arith, k) in
    let rest : all is_token us ≡ true = ground (arith, k) in
    tokens_loop-comma [] t (u ++ behind_commas us) free
    ∙ ap (λ x. t ∷ x) (tokens-behind u us this rest)

-- Texts that are not empty and have no comma are read back from a parameter that lists them with
-- commas between them.
pub tokens-joined : (ts : List Bytes) → all is_token ts ≡ true → tokens (joined ts) ≡ ts
unfolding tokens_loop
tokens-joined [] h = refl
tokens-joined (t ∷ ts) h = tokens-behind t ts (ground (arith, h)) (ground (arith, h))
