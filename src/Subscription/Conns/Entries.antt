-- ===== src/Subscription/Conns/Entries.antt =====
-- A predicate on all entries of the map from connections.
use strfry_http.Base.{
  ℕ, ◌≡◌, ◌≢◌, ◌∙◌, true, false, List, [], ◌∷◌, some, Bytes, ◌==◌, ==_iff, arith, All, bytes_eq,
  bytes_eq_refl, Bool-cases, List-cases, Option-cases, inl, inr, subst,
}
use mathlib.Core.Option.{some-injective}
use strfry_http.Subscription.{SubId, sv, same_sub_id}
use strfry_http.Subscription.Conns.{
  Conns, find_sub, erase_sub, find_conn, erase_conn, find_entry, entries, touch_conn, add_entry,
  remove_entry,
}
use strfry_http.Subscription.Conns.Lookup.{sv-same_sub_id, find_sub-entries}

apart_of-same_sub_id : (j k : SubId) → same_sub_id j k ≡ false → sv j ≢ sv k
unfolding same_sub_id
apart_of-same_sub_id j k other e =
    let same : bytes_eq (sv k) (sv j) ≡ true = rw e (bytes_eq_refl (sv k)) in cc

module _ {V : Type 0} where
  -- The predicate reads the connection, the id and the value.
  abbrev pub AllSubs : (Bytes → V → Type 0) → List (SubId × V) → Type 0
  AllSubs P m = All (λ e. P (sv e.0) e.1) m

  abbrev pub AllEntries : (ℕ → Bytes → V → Type 0) → Conns V → Type 0
  AllEntries P conns = All (λ e. AllSubs (P e.0) e.1) conns

  pub AllSubs-map :
      (P Q : Bytes → V → Type 0) (m : List (SubId × V))
      → ((b : Bytes) (v : V) → P b v → Q b v)
      → AllSubs P m
      → AllSubs Q m
  AllSubs-map P Q [] f h = tt
  AllSubs-map P Q ((k, v) ∷ m) f (h, hs) = (f (sv k) v h, AllSubs-map P Q m f hs)

  AllSubs-erase_sub :
      (P Q : Bytes → V → Type 0) (k : SubId) (m : List (SubId × V))
      → ((b : Bytes) (v : V) → b ≢ sv k → P b v → Q b v)
      → AllSubs P m
      → AllSubs Q (erase_sub k m)
  unfolding erase_sub
  AllSubs-erase_sub P Q k [] f h = tt
  AllSubs-erase_sub P Q k ((j, v) ∷ m) f (h, hs) = elim (Bool-cases (same_sub_id j k)) [
    | inl same ↦ rw same (AllSubs-erase_sub P Q k m f hs)
    | inr other ↦
        rw other (f (sv j) v (apart_of-same_sub_id j k other) h, AllSubs-erase_sub P Q k m f hs)
  ]

  AllSubs-find_sub :
      (P : Bytes → V → Type 0) (k : SubId) (m : List (SubId × V)) (v : V)
      → AllSubs P m
      → find_sub k m ≡ some v
      → P (sv k) v
  unfolding find_sub
  AllSubs-find_sub P k [] v h e = cc
  AllSubs-find_sub P k ((j, u) ∷ m) v (h, hs) e = elim (Bool-cases (same_sub_id j k)) [
    | inl same ↦ rw (sv-same_sub_id j k same, ← some-injective _ _ (rw same at e)) h
    | inr other ↦ AllSubs-find_sub P k m v hs (rw other at e)
  ]

  pub AllEntries-map :
      (P Q : ℕ → Bytes → V → Type 0) (conns : Conns V)
      → ((c : ℕ) (b : Bytes) (v : V) → P c b v → Q c b v)
      → AllEntries P conns
      → AllEntries Q conns
  AllEntries-map P Q [] f h = tt
  AllEntries-map P Q ((c, m) ∷ conns) f (h, hs) =
      (AllSubs-map (P c) (Q c) m (f c) h, AllEntries-map P Q conns f hs)

  pub AllEntries-erase_conn :
      (P Q : ℕ → Bytes → V → Type 0) (c : ℕ) (conns : Conns V)
      → ((d : ℕ) (b : Bytes) (v : V) → d ≢ c → P d b v → Q d b v)
      → AllEntries P conns
      → AllEntries Q (erase_conn c conns)
  unfolding erase_conn
  AllEntries-erase_conn P Q c [] f h = tt
  AllEntries-erase_conn P Q c ((d, m) ∷ conns) f (h, hs) = elim (Bool-cases (d == c)) [
    | inl same ↦ rw same (AllEntries-erase_conn P Q c conns f hs)
    | inr other ↦ rw other (
      AllSubs-map (P d) (Q d) m (λ b v. f d b v (ground (arith, other))) h,
      AllEntries-erase_conn P Q c conns f hs,
    )
  ]

  pub AllEntries-entries :
      (P : ℕ → Bytes → V → Type 0) (c : ℕ) (conns : Conns V)
      → AllEntries P conns
      → AllSubs (P c) (entries c conns)
  unfolding entries find_conn
  AllEntries-entries P c [] h = tt
  AllEntries-entries P c ((d, m) ∷ conns) (h, hs) = elim (Bool-cases (d == c)) [
    | inl same ↦
        let e = (==_iff d c).0 same in
        rw (entries, find_conn, same) (subst (λ (n : ℕ). AllSubs (P n) m) e h)
    | inr other ↦ rw (entries, find_conn, other) (AllEntries-entries P c conns hs)
  ]

  pub AllEntries-find_entry :
      (P : ℕ → Bytes → V → Type 0) (c : ℕ) (k : SubId) (conns : Conns V) (v : V)
      → AllEntries P conns
      → find_entry c k conns ≡ some v
      → P c (sv k) v
  unfolding find_entry
  AllEntries-find_entry P c k conns v h e = elim (Option-cases (find_conn c conns)) [
    | inl nothing ↦ cc (rw (nothing, find_entry) at e)
    | inr (m, there) ↦
        let e' : find_sub k (entries c conns) ≡ some v = find_sub-entries c k conns ∙ e in
        AllSubs-find_sub (P c) k (entries c conns) v (AllEntries-entries P c conns h) e'
  ]

  pub AllEntries-add_entry :
      (P Q : ℕ → Bytes → V → Type 0) (c : ℕ) (k : SubId) (v : V) (conns : Conns V)
      → ((d : ℕ) (b : Bytes) (u : V) → P d b u → Q d b u)
      → Q c (sv k) v
      → AllEntries P conns
      → AllEntries Q (add_entry c k v conns)
  unfolding add_entry
  AllEntries-add_entry P Q c k v conns f q h = (
    (q, AllSubs-map (P c) (Q c) (entries c conns) (f c) (AllEntries-entries P c conns h)),
    AllEntries-erase_conn P Q c conns (λ d b u apart p. f d b u p) h,
  )

  pub AllEntries-touch_conn :
      (P : ℕ → Bytes → V → Type 0) (c : ℕ) (conns : Conns V)
      → AllEntries P conns
      → AllEntries P (touch_conn c conns)
  unfolding touch_conn
  AllEntries-touch_conn P c conns h =
      (AllEntries-entries P c conns h, AllEntries-erase_conn P P c conns (λ d b u apart p. p) h)

  pub AllEntries-remove_entry :
      (P Q : ℕ → Bytes → V → Type 0) (c : ℕ) (k : SubId) (conns : Conns V)
      → ((d : ℕ) (b : Bytes) (v : V) → ¬ ((d ≡ c) × (b ≡ sv k)) → P d b v → Q d b v)
      → AllEntries P conns
      → AllEntries Q (remove_entry c k conns)
  unfolding remove_entry
  AllEntries-remove_entry P Q c k conns f h =
      let rest : AllEntries Q (erase_conn c conns) =
        AllEntries-erase_conn P Q c conns (λ d b u apart. f d b u (λ both. apart both.0)) h in
      let here : AllSubs (Q c) (erase_sub k (entries c conns)) =
        AllSubs-erase_sub (P c) (Q c) k (entries c conns)
          (λ b u apart. f c b u (λ both. apart both.1)) (AllEntries-entries P c conns h) in
      elim (List-cases (erase_sub k (entries c conns))) [
        | inl empty ↦ rw (remove_entry, empty) rest
        | inr (x, m, more) ↦ rw (remove_entry, more) (rw more at here, rest)
      ]
