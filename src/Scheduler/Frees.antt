-- ===== src/Scheduler/Frees.antt =====
-- The heap of the scheduler after a part of a scan, and after a query is deleted.
use strfry_http.Base.{
  true-false, ℕ, ◌≡◌, ◌≤◌, refl, sym, ◌∙◌, ap, Bool, true, false, List, [], ◌∷◌, ◌++◌, none, some,
  ◌==◌, ==_iff, arith, Bool-cases, inl, inr, subst,
}
use mathlib.Core.Option.{some-injective}
use strfry_http.Subscription.{sv}
use strfry_http.Subscription.Conns.{Conns, find_entry}
use strfry_http.Subscription.Conns.Entries.{AllEntries-map}
use strfry_http.Scheduler.{Queries, Options, DbQuery, Heap, put, free}
use strfry_http.Scheduler.Valid.{IsIndexedAt, IsIndexed, IsCounted, is_allocated, expected, count}
use strfry_http.Scheduler.Adds.{put_self, put_other, IsIndexedAt-put}

module _ {F : Type 0} (queries : Queries F) (options : Options) where
  -- A query after a part of its scan.
  pub rescanned-IsIndexed :
      (heap : Heap queries options) (next a : ℕ) (conns : Conns ℕ) (q : DbQuery queries options)
      (scan : queries.Scan)
      → heap a ≡ some q
      → IsIndexed queries options heap next conns
      → IsIndexed queries options (put queries options a (record q { scan = scan }) heap) next conns
  rescanned-IsIndexed heap next a conns q scan there index = record {
    fresh = λ x le. elim (Bool-cases (x == a)) [
      | inl same ↦
          let e : heap x ≡ some q = ap heap ((==_iff x a).0 same) ∙ there in
          cc (e, index.fresh x le)
      | inr other ↦
          put_other queries options a x (record q { scan = scan }) heap other ∙ index.fresh x le
    ];
    indexed =
        AllEntries-map (IsIndexedAt queries options heap)
          (IsIndexedAt queries options (put queries options a (record q { scan = scan }) heap))
          conns
          (λ c b x at. elim (Bool-cases (x == a)) [
            | inr other ↦
                IsIndexedAt-put queries options heap a (record q { scan = scan }) c b x other at
            | inl same ↦
                let e = (==_iff x a).0 same in
                let is_q : q ≡ at.query =
                  some-injective _ _ (sym there ∙ (ap heap (sym e) ∙ at.there)) in
                record {
                  query = record q { scan = scan };
                  there =
                      ap (put queries options a (record q { scan = scan }) heap) e
                      ∙ put_self queries options a (record q { scan = scan }) heap;
                  alive = ap (λ x. x.dead) is_q ∙ at.alive;
                  conn = ap (λ x. x.sub.conn_id) is_q ∙ at.conn;
                  named = ap (λ x. sv x.sub.sub_id) is_q ∙ at.named;
                }
          ])
          index.indexed;
    live = λ x p there' alive. elim (Bool-cases (x == a)) [
      | inr other ↦
          index.live x p
            (sym (put_other queries options a x (record q { scan = scan }) heap other) ∙ there')
            alive
      | inl same ↦
          let e = (==_iff x a).0 same in
          let is_p : record q { scan = scan } ≡ p = some-injective _ _ (
            sym (put_self queries options a (record q { scan = scan }) heap)
            ∙ (ap (put queries options a (record q { scan = scan }) heap) (sym e) ∙ there')) in
          let alive' : q.dead ≡ false = ap (λ x. x.dead) is_p ∙ alive in
          subst
            (λ (p : DbQuery queries options). find_entry p.sub.conn_id p.sub.sub_id conns ≡ some x)
            is_p (index.live a q there alive' ∙ ap some (sym e))
    ];
  }

  pub free_self : (a : ℕ) (heap : Heap queries options) → free queries options a heap a ≡ none
  unfolding free
  free_self a heap = ground arith

  free_other :
      (a b : ℕ) (heap : Heap queries options)
      → (b == a) ≡ false
      → free queries options a heap b ≡ heap b
  unfolding free
  free_other a b heap h = rw h refl

  -- A query that is not alive is in no index.
  pub freed-IsIndexed :
      (heap : Heap queries options) (next a : ℕ) (conns : Conns ℕ)
      → ((q : DbQuery queries options) → heap a ≡ some q → q.dead ≡ true)
      → IsIndexed queries options heap next conns
      → IsIndexed queries options (free queries options a heap) next conns
  freed-IsIndexed heap next a conns died index = record {
    fresh = λ x le. elim (Bool-cases (x == a)) [
      | inl same ↦ ap (free queries options a heap) ((==_iff x a).0 same) ∙ free_self a heap
      | inr other ↦ free_other a x heap other ∙ index.fresh x le
    ];
    indexed =
        AllEntries-map (IsIndexedAt queries options heap)
          (IsIndexedAt queries options (free queries options a heap)) conns
          (λ c b x at. elim (Bool-cases (x == a)) [
            | inr other ↦ record {
              query = at.query;
              there = free_other a x heap other ∙ at.there;
              alive = at.alive;
              conn = at.conn;
              named = at.named;
            }
            | inl same ↦
                let e = (==_iff x a).0 same in
                absurd (true-false (sym (died at.query (ap heap (sym e) ∙ at.there)) ∙ at.alive))
          ])
          index.indexed;
    live = λ x p there alive. elim (Bool-cases (x == a)) [
      | inr other ↦ index.live x p (sym (free_other a x heap other) ∙ there) alive
      | inl same ↦
          let nothing : free queries options a heap x ≡ none =
            ap (free queries options a heap) ((==_iff x a).0 same) ∙ free_self a heap in
          cc (nothing, there)
    ];
  }

  pub freed-IsCounted :
      (heap : Heap queries options) (a : ℕ) (rest : List ℕ)
      → IsCounted queries options heap (a ∷ rest)
      → IsCounted queries options (free queries options a heap) rest
  unfolding count
  freed-IsCounted heap a rest counted x = elim (Bool-cases (x == a)) [
    | inl same ↦
        let e = (==_iff x a).0 same in
        let nothing =
          ap (λ o. expected (is_allocated o))
            (ap (free queries options a heap) e ∙ free_self a heap) in
        let once = at_most (is_allocated (heap x)) in ground (arith, counted x, e, nothing, once)
    | inr other ↦
        let there = ap (λ o. expected (is_allocated o)) (free_other a x heap other) in
        ground (arith, other, counted x, there)
  ]
    where
      at_most : (t : Bool) → expected t ≤ 1
      at_most true = omega arith
      at_most false = omega arith

  pub count-append : (a b : ℕ) (l : List ℕ) → count a (l ++ (b ∷ [])) ≡ count a (b ∷ l)
  unfolding count
  count-append a b [] = refl
  count-append a b (x ∷ l) = ground (arith, count-append a b l)
