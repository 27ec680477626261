-- ===== src/Scheduler/Marks.antt =====
-- Queries that are marked as dead.
use strfry_http.Base.{
  ℕ, ◌≡◌, refl, sym, ◌∙◌, ap, Bool, true, false, ◌||◌, List, [], ◌∷◌, Option, none, some, Bytes, ok,
  ◌==◌, ==_iff, if◌then◌else◌, arith, Option-cases, Bool-cases, inl, inr, any,
}
use mathlib.Core.Option.{some-injective}
use strfry_http.Subscription.{SubId}
use strfry_http.Subscription.Conns.Entries.{AllSubs, AllSubs-map}
use strfry_http.Scheduler.{Queries, Options, DbQuery, Heap, deref, put, mark_dead, mark_all}
use strfry_http.Scheduler.Valid.{IsIndexedAt, is_allocated}

module _ {F : Type 0} (queries : Queries F) (options : Options) where
  -- What marking some addresses as dead does to each.
  abbrev pub marked : Bool → Option (DbQuery queries options) → Option (DbQuery queries options)
  marked t none = none
  marked t (some q) = if t then some (record q { dead = true }) else some q

  pub is_allocated-marked :
      (t : Bool) (o : Option (DbQuery queries options)) → is_allocated (marked t o) ≡ is_allocated o
  is_allocated-marked t none = refl
  is_allocated-marked true (some q) = refl
  is_allocated-marked false (some q) = refl

  marked-false : (o : Option (DbQuery queries options)) → marked false o ≡ o
  marked-false none = refl
  marked-false (some q) = refl

  marked-marked :
      (t u : Bool) (o : Option (DbQuery queries options))
      → marked u (marked t o) ≡ marked (t || u) o
  marked-marked t u none = refl
  marked-marked true true (some q) = refl
  marked-marked true false (some q) = refl
  marked-marked false u (some q) = refl

  pub mark_dead-marks :
      (a : ℕ) (heap : Heap queries options) (q : DbQuery queries options)
      → heap a ≡ some q
      → (h : Heap queries options) × (mark_dead queries options a heap ≡ ok h)
        × ((b : ℕ) → h b ≡ marked (a == b) (heap b))
  unfolding mark_dead deref put
  mark_dead-marks a heap q there = (
    put queries options a (record q { dead = true }) heap,
    rw (mark_dead, deref, there) refl,
    λ b. elim (Bool-cases (a == b)) [
      | inl same ↦
          let e = (==_iff a b).0 same in
          let back : (b == a) ≡ true = ground (arith, e) in
          let there' : heap b ≡ some q = rw (← e) there in rw (same, there', put, back) refl
      | inr other ↦
          let back : (b == a) ≡ false = ground (arith, other) in
          rw (other, put, back) (sym (marked-false (heap b)))
    ],
  )

  pub mark_all-marks :
      (m : List (SubId × ℕ)) (heap : Heap queries options)
      → AllSubs (λ b a. is_allocated (heap a) ≡ true) m
      → (h : Heap queries options) × (mark_all queries options m heap ≡ ok h)
        × ((x : ℕ) → h x ≡ marked (any (λ e. e.1 == x) m) (heap x))
  unfolding mark_all
  mark_all-marks [] heap all = (heap, refl, λ x. sym (marked-false (heap x)))
  mark_all-marks ((k, a) ∷ m) heap (here, all) = elim (Option-cases (heap a)) [
    | inl nothing ↦ cc
    | inr (q, there) ↦
        let (h1, e1, marks1) = mark_dead-marks a heap q there in
        let all1 : AllSubs (λ b x. is_allocated (h1 x) ≡ true) m =
          AllSubs-map (λ b x. is_allocated (heap x) ≡ true) (λ b x. is_allocated (h1 x) ≡ true) m
            (λ b x y. ap is_allocated (marks1 x) ∙ (is_allocated-marked (a == x) (heap x) ∙ y))
            all in
        let (h, e, marks) = mark_all-marks m h1 all1 in
        (
          h,
          rw e1 e,
          λ x.
              marks x
              ∙ (ap (marked (any (λ e. e.1 == x) m)) (marks1 x)
                  ∙ marked-marked (a == x) (any (λ e. e.1 == x) m) (heap x)),
        )
  ]

  -- A query that is still alive was not marked.
  pub alive-marked :
      (t : Bool) (o : Option (DbQuery queries options)) (q : DbQuery queries options)
      → marked t o ≡ some q
      → q.dead ≡ false
      → (t ≡ false) × (o ≡ some q)
  alive-marked t none q h alive = cc
  alive-marked true (some p) q h alive = cc (ap (λ x. x.dead) (some-injective _ _ h))
  alive-marked false (some p) q h alive = (refl, h)

  -- An entry is kept where its query was not marked.
  pub IsIndexedAt-marked :
      (heap h : Heap queries options) (t : ℕ → Bool) (c : ℕ) (b : Bytes) (a : ℕ)
      → ((x : ℕ) → h x ≡ marked (t x) (heap x))
      → t a ≡ false
      → IsIndexedAt queries options heap c b a
      → IsIndexedAt queries options h c b a
  IsIndexedAt-marked heap h t c b a marks kept at = record {
    query = at.query;
    there = marks a ∙ rw (kept, at.there) refl;
    alive = at.alive;
    conn = at.conn;
    named = at.named;
  }
