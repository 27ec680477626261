-- ===== src/Http/Ip/Prefix.antt =====
-- What a prefix of an address looks like behind the loop of `isValidIPv4`, and how a step reads on.
use strfry_http.Base.{
  ℕ, ◌+◌, ◌-◌, ◌*◌, ◌≤◌, ◌<◌, ◌≡◌, ◌⊎◌, ◌≢◌, refl, sym, ap, ◌∙◌, subst, false, List, [], ◌∷◌, ◌++◌,
  some, Bytes, length, All, ◌==◌, if◌then◌else◌, arith, Bool-cases, inl, inr, length-append,
}
use strfry_http.Http.Ip.Dotted.{decimal, before}
use mathlib.Core.List.{append-nil, append_assoc}
use strfry_http.Http.Ip.{Octets, octet_step}

-- What a prefix of the text looks like behind the loop: whole octets, each with its dot, and the
-- digits of the octet that is being read.
unfoldable pub with_dots : List ℕ → Bytes
with_dots [] = []
with_dots (o ∷ os) = decimal o ++ (b'.' ∷ with_dots os)

unfoldable pub partial : Octets → Bytes
partial st = if st.digit_count == 0 then [] else decimal st.current_value

pub record Read (p : Bytes) (st : Octets) : Type 0 where
  pub whole : List ℕ
  pub whole_bytes : All (λ o. o ≤ 255) whole
  pub counted : length whole ≡ st.octets
  pub value_byte : st.current_value ≤ 255
  pub fresh : st.digit_count ≡ 0 → st.current_value ≡ 0
  pub dot : st.last_was_dot ≡ (st.digit_count == 0)
  pub digits : st.digit_count ≢ 0 → st.digit_count ≡ length (decimal st.current_value)
  pub text : p ≡ with_dots whole ++ partial st

with_dots-snoc :
    (os : List ℕ) (o : ℕ) → with_dots (os ++ (o ∷ [])) ≡ with_dots os ++ (decimal o ++ (b'.' ∷ []))
unfolding with_dots
with_dots-snoc [] o = refl
with_dots-snoc (x ∷ os) o =
    rw (with_dots-snoc os o) (sym (append_assoc (decimal x) (b'.' ∷ with_dots os) _))

decimal-snoc :
    (n d : ℕ) → 0 < n → n ≤ 25 → d ≤ 9 → decimal (n * 10 + d) ≡ decimal n ++ ((d + 48) ∷ [])
unfolding decimal
decimal-snoc n d pos le small = ground arith

All-snoc :
    (os : List ℕ) (o : ℕ) → All (λ o. o ≤ 255) os → o ≤ 255 → All (λ o. o ≤ 255) (os ++ (o ∷ []))
All-snoc [] o a h = (h, tt)
All-snoc (x ∷ os) o a h = (a.0, All-snoc os o a.1 h)

length-snoc : (os : List ℕ) (o : ℕ) → length (os ++ (o ∷ [])) ≡ length os + 1
length-snoc os o = length-append os (o ∷ [])

Read-dot :
    (p : Bytes) (st : Octets)
    → st.digit_count ≢ 0
    → Read p st
    → Read (p ++ (b'.' ∷ [])) (before (st.octets + 1))
unfolding partial
Read-dot p st n r = record {
  whole = r.whole ++ (st.current_value ∷ []);
  whole_bytes = All-snoc r.whole st.current_value r.whole_bytes r.value_byte;
  counted = length-snoc r.whole st.current_value ∙ ap (λ k. k + 1) r.counted;
  value_byte = omega arith;
  fresh = λ _. refl;
  dot = refl;
  digits = λ e. absurd (e refl);
  text =
      let none_yet : (st.digit_count == 0) ≡ false = ground arith in
      let before_dot : p ≡ with_dots r.whole ++ decimal st.current_value =
        r.text ∙ rw none_yet refl in
      rw (before_dot, append-nil, with_dots-snoc)
        (append_assoc (with_dots r.whole) (decimal st.current_value) (b'.' ∷ []));
}

decimal_digit : (d : ℕ) → d ≤ 9 → decimal d ≡ (d + 48) ∷ []
unfolding decimal
decimal_digit d h = ground arith

-- The digits so far, with one more, are those of the new value.
partial_digit :
    (p : Bytes) (d : ℕ) (st : Octets)
    → d ≤ 9
    → ((st.digit_count ≡ 0) ⊎ (0 < st.current_value))
    → st.current_value * 10 + d ≤ 255
    → Read p st
    → (partial st ++ ((d + 48) ∷ []) ≡ decimal (st.current_value * 10 + d))
      × (st.digit_count + 1 ≡ length (decimal (st.current_value * 10 + d)))
unfolding partial
partial_digit p d st small (inl none_yet) le r =
    let v : st.current_value * 10 + d ≡ d = omega (arith, r.fresh none_yet) in
    let one = decimal_digit d small in
    (rw (v, one, none_yet) refl, rw (v, one, none_yet) (omega arith))
partial_digit p d st small (inr pos) le r =
    let some_yet : st.digit_count ≢ 0 = λ e. absurd (omega (arith, r.fresh e)) in
    let test : (st.digit_count == 0) ≡ false = ground arith in
    let more = decimal-snoc st.current_value d pos (omega arith) small in
    (rw (test, more) refl, rw (more, length-snoc) (omega (arith, r.digits some_yet)))

Read-digit :
    (p : Bytes) (d : ℕ) (st : Octets)
    → d ≤ 9
    → ((st.digit_count ≡ 0) ⊎ (0 < st.current_value))
    → st.current_value * 10 + d ≤ 255
    → Read p st
    → Read (p ++ ((d + 48) ∷ [])) (record {
      octets = st.octets;
      current_value = st.current_value * 10 + d;
      digit_count = st.digit_count + 1;
      last_was_dot = false;
    })
unfolding partial
Read-digit p d st small way le r = record {
  whole = r.whole;
  whole_bytes = r.whole_bytes;
  counted = r.counted;
  value_byte = le;
  fresh = λ e. absurd (omega arith);
  dot = ground arith;
  digits = λ _. (partial_digit p d st small way le r).1;
  text =
      let now : (st.digit_count + 1 == 0) ≡ false = ground arith in
      rw (now, r.text, append_assoc, (partial_digit p d st small way le r).0) refl;
}

octet_step-eq_dot :
    (st st' : Octets)
    → octet_step b'.' st ≡ some st'
    → (st.digit_count ≢ 0) × (st' ≡ before (st.octets + 1))
unfolding octet_step
octet_step-eq_dot st st' h = ground arith

octet_step-eq_digit :
    (c : ℕ) (st st' : Octets)
    → octet_step c st ≡ some st'
    → (c == b'.') ≡ false
    → (48 ≤ c)
      × (c ≤ 57)
      × ((st.digit_count ≢ 1) ⊎ (0 < st.current_value))
      × (st.current_value * 10 + (c - 48) ≤ 255)
      × (st' ≡ record {
        octets = st.octets;
        current_value = st.current_value * 10 + (c - 48);
        digit_count = st.digit_count + 1;
        last_was_dot = false;
      })
unfolding octet_step
octet_step-eq_digit c st st' h n = ground arith

-- A digit is first in its octet, or follows a digit that is not a leading zero.
digit_way :
    (p : Bytes) (st : Octets)
    → ((st.digit_count ≢ 1) ⊎ (0 < st.current_value))
    → Read p st
    → (st.digit_count ≡ 0) ⊎ (0 < st.current_value)
unfolding decimal
digit_way p st (inl n) r = ground (arith, r.digits)
digit_way p st (inr pos) r = inr pos

pub octet_step-Read :
    (p : Bytes) (c : ℕ) (st st' : Octets)
    → octet_step c st ≡ some st'
    → Read p st
    → Read (p ++ (c ∷ [])) st'
octet_step-Read p c st st' h r = elim (Bool-cases (c == b'.')) [
  | inl dot ↦
      let e : c ≡ b'.' = ground arith in
      let (n, made) = octet_step-eq_dot st st' (rw e at h) in rw (e, made) (Read-dot p st n r)
  | inr other ↦
      let (lo, hi, way, le, made) = octet_step-eq_digit c st st' h other in
      let e : (c - 48) + 48 ≡ c = omega arith in
      rw made (
        subst
          (λ k. Read (p ++ (k ∷ [])) (record {
            octets = st.octets;
            current_value = st.current_value * 10 + (c - 48);
            digit_count = st.digit_count + 1;
            last_was_dot = false;
          }))
          e (Read-digit p (c - 48) st (omega arith) (digit_way p st way r) le r))
]
