-- ===== src/Http/Ip/Accepted.antt =====
-- `isValidIPv4` accepts exactly the dotted decimal notation: every state of its loop describes the
-- text read so far.
use strfry_http.Base.{
  ℕ, ◌≤◌, ◌<◌, ◌≡◌, ◌↔◌, refl, sym, ap, ◌∙◌, subst, true, List, [], ◌∷◌, ◌++◌, some, Bytes, length,
  All, arith, inl, inr, length-append, Option-cases,
}
use strfry_http.Http.Ip.Dotted.{
  IsDotted, decimal, behind, before, octet_loop-decimal, octet_loop-dot, octets_end-behind,
  length-decimal-le,
}
use mathlib.Core.Option.{some-injective}
use mathlib.Core.List.{append-nil, append_assoc}
use strfry_http.Http.Ip.{Octets, octet_step, octet_loop, octets_end, octets_start, is_valid_ipv4}
use strfry_http.Http.Ip.Prefix.{with_dots, partial, Read, octet_step-Read}

octet_loop-Read :
    (p ip : Bytes) (st st' : Octets) → octet_loop ip st ≡ some st' → Read p st → Read (p ++ ip) st'
unfolding octet_loop
octet_loop-Read p [] st st' h r =
    subst (Read (p ++ [])) (some-injective st st' h) (rw (append-nil p) r)
octet_loop-Read p (c ∷ ip) st st' h r = elim (Option-cases (octet_step c st)) [
  | inl stop ↦ absurd (ground (arith, stop))
  | inr (next, e) ↦ rw (← append_assoc p (c ∷ []) ip) (
      octet_loop-Read (p ++ (c ∷ [])) ip next st' (rw (e, octet_loop) at h)
        (octet_step-Read p c st next e r))
]

start-Read : Read [] octets_start
unfolding partial with_dots
start-Read = record {
  whole = [];
  whole_bytes = tt;
  counted = refl;
  value_byte = omega arith;
  fresh = λ _. refl;
  dot = refl;
  digits = λ e. absurd (e refl);
  text = refl;
}

-- Three whole octets and a last one.
partial-end :
    (st : Octets) → octets_end st ≡ true → (partial st ≡ decimal st.current_value) × (st.octets ≡ 3)
unfolding octets_end partial
partial-end st h = ground arith

Read-IsDotted : (ip : Bytes) (st : Octets) → octets_end st ≡ true → Read ip st → IsDotted ip
unfolding with_dots
Read-IsDotted ip st h r = go r.whole r.whole_bytes (r.counted ∙ (partial-end st h).1) r.text
  where
    last_digits : partial st ≡ decimal st.current_value
    last_digits = (partial-end st h).0

    go :
        (os : List ℕ)
        → All (λ o. o ≤ 255) os
        → length os ≡ 3
        → ip ≡ with_dots os ++ partial st
        → IsDotted ip
    go (a ∷ b ∷ c ∷ []) all n t = record {
      a = a;
      b = b;
      c = c;
      d = st.current_value;
      a_byte = all.0;
      b_byte = all.1.0;
      c_byte = all.1.1.0;
      d_byte = r.value_byte;
      written = t ∙ simp (append_assoc, last_digits);
    }
    go os all n t = absurd (omega arith)

octet_loop-nil : (st : Octets) → octet_loop [] st ≡ some st
unfolding octet_loop
octet_loop-nil st = refl

-- The loop over a dotted text.
octet_loop-dotted :
    (a b c d : ℕ)
    → a ≤ 255
    → b ≤ 255
    → c ≤ 255
    → d ≤ 255
    → octet_loop
        (decimal a ++ (b'.' ∷ (decimal b ++ (b'.' ∷ (decimal c ++ (b'.' ∷ decimal d))))))
        octets_start
      ≡ some (behind 3 d)
octet_loop-dotted a b c d ha hb hc hd =
    octet_loop-decimal 0 a _ ha
    ∙ octet_loop-dot 0 a _ ha
    ∙ octet_loop-decimal 1 b _ hb
    ∙ octet_loop-dot 1 b _ hb
    ∙ octet_loop-decimal 2 c _ hc
    ∙ octet_loop-dot 2 c _ hc
    ∙ ap (λ ip. octet_loop ip (before 3)) (sym (append-nil (decimal d)))
    ∙ octet_loop-decimal 3 d [] hd
    ∙ octet_loop-nil (behind 3 d)

length-dotted :
    (a b c d : ℕ)
    → let n =
        length (decimal a ++ (b'.' ∷ (decimal b ++ (b'.' ∷ (decimal c ++ (b'.' ∷ decimal d)))))) in
      (0 < n) × (n ≤ 15)
length-dotted a b c d = omega (
  arith,
  length-append (decimal a) (b'.' ∷ (decimal b ++ (b'.' ∷ (decimal c ++ (b'.' ∷ decimal d))))),
  length-append (decimal b) (b'.' ∷ (decimal c ++ (b'.' ∷ decimal d))),
  length-append (decimal c) (b'.' ∷ decimal d),
  length-decimal-le a,
  length-decimal-le b,
  length-decimal-le c,
  length-decimal-le d,
)

IsDotted-is_valid_ipv4 : (ip : Bytes) → IsDotted ip → is_valid_ipv4 ip ≡ true
unfolding is_valid_ipv4
IsDotted-is_valid_ipv4 ip h = rw h.written (
    ground (
      arith,
      octet_loop-dotted h.a h.b h.c h.d h.a_byte h.b_byte h.c_byte h.d_byte,
      length-dotted h.a h.b h.c h.d,
      octets_end-behind h.d h.d_byte,
    ))

is_valid_ipv4-loop :
    (ip : Bytes)
    → is_valid_ipv4 ip ≡ true
    → (st : Octets) × (octet_loop ip octets_start ≡ some st) × (octets_end st ≡ true)
unfolding is_valid_ipv4
is_valid_ipv4-loop ip h = ground arith

is_valid_ipv4-IsDotted : (ip : Bytes) → is_valid_ipv4 ip ≡ true → IsDotted ip
is_valid_ipv4-IsDotted ip h =
    let (st, e, fin) = is_valid_ipv4-loop ip h in
    Read-IsDotted ip st fin (octet_loop-Read [] ip octets_start st e start-Read)

-- A text is accepted as an IPv4 address exactly when it is four numbers up to 255, in decimal with
-- no leading zeros, with a dot between each two.
pub is_valid_ipv4-IsDotted_iff : (ip : Bytes) → (is_valid_ipv4 ip ≡ true) ↔ IsDotted ip
is_valid_ipv4-IsDotted_iff ip = (is_valid_ipv4-IsDotted ip, IsDotted-is_valid_ipv4 ip)
