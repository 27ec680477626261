-- ===== src/Base/Results.antt =====
-- Code that throws: a result is a value or the error thrown. The messages are the source's.
use mathlib.Core.Path.{◌≡◌, refl, ap, subst}
use mathlib.Core.Bool.{Bool, true, false}
use strfry_http.Base.Tests.{if◌then◌else◌}
use mathlib.Core.Logic.{◌⊎◌, inl, inr}

pub data Error : Type 0 where
  -- PackedEvent.h
  packed_too_short tag_val_too_long unexpected_id_size unexpected_pubkey_size : Error
  -- what `std::string_view::substr`, `std::vector` and the like throw or leave undefined
  out_of_range : Error
  -- filters.h
  max_size_too_big item_too_small item_too_large total_too_large set_out_of_bounds : Error
  not_an_object unindexed_tag unrecognised_item too_many_tags req_too_small : Error
  -- tao::json and golpe
  bad_json_type missing_key bad_hex : Error
  -- events.cpp, jsonParseUtils.h, misc.cpp
  not_a_string not_an_unsigned not_an_array too_many_event_tags too_few_fields : Error
  bad_fixed_size_tag invalid_expiration event_tag_val_too_large non_digit not_a_number : Error
  ephemeral_expired too_early too_late event_expired bad_event_id bad_signature : Error
  event_too_large unprocessed_deletion missing_lev_id empty_payload payload_too_short : Error
  bad_first_byte no_payload : Error
  -- Subscription.h, ActiveMonitors.h
  sub_id_too_long sub_id_too_short bad_sub_id_char sub_not_up_to_date : Error
  -- Bytes32.h
  bad_bytes32_length : Error
  -- the use of an object that is not, or no longer, allocated
  dangling : Error

pub data Result {κ} (V : Type κ) : Type κ where
  err : (thrown : Error) → Result V
  ok : (result : V) → Result V

module _ {μ κ} {V : Type μ} {W : Type κ} where
  infixl 5 ◌>>=◌
  abbrev pub ◌>>=◌ : Result V → (V → Result W) → Result W
  err thrown >>= next = err thrown
  ok result >>= next = next result

  -- What is known of two steps whose whole chain returned.
  pub >>=-eq-ok :
      (first : Result V) (next : V → Result W) {w : W}
      → (first >>= next) ≡ ok w
      → (v : V) × (first ≡ ok v) × (next v ≡ ok w)
  >>=-eq-ok (err thrown) next returned = cc
  >>=-eq-ok (ok result) next returned = (result, refl, returned)

module _ {κ} {W : Type κ} where
  infixl 5 ◌>>◌
  abbrev pub ◌>>◌ : Result (Unit {0}) → Result W → Result W
  first >> second = first >>= (λ nothing. second)

-- `if (bad) throw e;`
abbrev pub throw_if : (bad : Bool) → Error → Result (Unit {0})
throw_if false thrown = ok tt
throw_if true thrown = err thrown

-- Inversion of a guard that let the code go on.
pub throw_if-eq-ok {κ} :
    {W : Type κ} (bad : Bool) (thrown : Error) (rest : Result W) {w : W}
    → (throw_if bad thrown >> rest) ≡ ok w
    → (bad ≡ false) × (rest ≡ ok w)
throw_if-eq-ok false thrown rest returned = (refl, returned)
throw_if-eq-ok true thrown rest returned = cc

-- The same, for a chain of inversions: the rest of the proof is under the λs.
pub with_ok {ℓ κ μ} :
    {A : Type ℓ} {B : Type κ} {C : Type μ} (m : Result A) (f : A → Result B) {b : B}
    → (m >>= f) ≡ ok b
    → ((a : A) → m ≡ ok a → f a ≡ ok b → C)
    → C
with_ok (ok a) f h k = k a refl h
with_ok (err e) f h k = cc

pub with_passed {ℓ κ} :
    {B : Type ℓ} {C : Type κ} (t : Bool) (e : Error) (m : Result B) {b : B}
    → (throw_if t e >> m) ≡ ok b
    → (t ≡ false → m ≡ ok b → C)
    → C
with_passed true e m h k = cc
with_passed false e m h k = k refl h

pub Result-cases {ℓ} :
    {A : Type ℓ} (r : Result A) → ((a : A) × (r ≡ ok a)) ⊎ ((e : Error) × (r ≡ err e))
Result-cases (ok a) = inl (a, refl)
Result-cases (err e) = inr (e, refl)

-- Two chains that go on alike are equal.
pub >>=-congr {ℓ κ} :
    {A : Type ℓ} {B : Type κ} (m : Result A) {f g : A → Result B}
    → ((a : A) → f a ≡ g a)
    → (m >>= f) ≡ (m >>= g)
>>=-congr (ok a) h = h a
>>=-congr (err e) h = refl

value_or {ℓ} : {A : Type ℓ} → A → Result A → A
value_or d (ok a) = a
value_or d (err e) = d

pub ok-injective {ℓ} : {A : Type ℓ} {a b : A} → ok a ≡ ok b → a ≡ b
unfolding value_or
ok-injective {a} h = ap (value_or a) h

-- One computation refines another: where the first returns, the second returns a related value.
abbrev pub Refines {ℓ κ μ} :
    {A : Type ℓ} {B : Type κ} → (A → B → Type μ) → Result A → Result B → Type (κ ⊔ μ)
Refines {B} R (ok a) s = (b : B) × (s ≡ ok b) × R a b
Refines R (err e) s = Unit

module _ {ℓ κ μ} {A : Type ℓ} {B : Type κ} (R : A → B → Type μ) where
  pub Refines-if :
      (t : Bool) (r r' : Result A) (s s' : Result B)
      → Refines R r s
      → Refines R r' s'
      → Refines R (if t then r else r') (if t then s else s')
  Refines-if true r r' s s' h k = h
  Refines-if false r r' s s' h k = k

  pub Refines->>= {ℓ' κ' μ'} :
      {A' : Type ℓ'} {B' : Type κ'} (S : A' → B' → Type μ') (r : Result A) (s : Result B)
      (f : A → Result A') (g : B → Result B')
      → Refines R r s
      → ((a : A) (b : B) → R a b → Refines S (f a) (g b))
      → Refines S (r >>= f) (s >>= g)
  Refines->>= S (ok a) s f g (b, e, h) k = rw e (k a b h)
  Refines->>= S (err e) s f g h k = tt

  pub Refines-throw_if :
      (t : Bool) (e : Error) (r : Result A) (s : Result B)
      → Refines R r s
      → Refines R (throw_if t e >> r) (throw_if t e >> s)
  Refines-throw_if true e r s h = tt
  Refines-throw_if false e r s h = h

pub Refines-refl {ℓ} : {A : Type ℓ} (r : Result A) → Refines ◌≡◌ r r
Refines-refl (ok a) = (a, refl, refl)
Refines-refl (err e) = tt

pub Refines-intro {ℓ κ μ} :
    {A : Type ℓ} {B : Type κ} (R : A → B → Type μ) (r : Result A) (s : Result B)
    → ((a : A) → r ≡ ok a → (b : B) × (s ≡ ok b) × R a b)
    → Refines R r s
Refines-intro R (ok a) s h = h a refl
Refines-intro R (err e) s h = tt

pub Refines-elim {ℓ κ μ} :
    {A : Type ℓ} {B : Type κ} (R : A → B → Type μ) (r : Result A) (s : Result B) {a : A}
    → Refines R r s
    → r ≡ ok a
    → (b : B) × (s ≡ ok b) × R a b
Refines-elim R (ok a') s h e = subst (λ a. (b : _) × (s ≡ ok b) × R a b) (ok-injective e) h
Refines-elim R (err e') s h e = cc
