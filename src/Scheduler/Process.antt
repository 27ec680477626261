-- ===== src/Scheduler/Process.antt =====
-- What a call of `process` does: it keeps the scheduler valid and uses no query that is not
-- allocated.
use strfry_http.Base.{
  ℕ, ◌≡◌, ◌≢◌, refl, sym, ◌∙◌, ap, subst₂, true-false, if-true, if-false, List-cases, true, false,
  List, [], ◌∷◌, ◌++◌, none, some, ok, ◌⊎◌, arith, Option-cases, Bool-cases, inl, inr, subst,
}
use mathlib.Core.Option.{some-injective}
use strfry_http.Scheduler.{
  Queries, Options, DbQuery, Call, Heap, Scheduler, deref, free, run_query, process,
}
use strfry_http.Scheduler.Valid.{IsCounted, IsValid, is_allocated, expected, count}
use strfry_http.Scheduler.Frees.{free_self, freed-IsIndexed, freed-IsCounted}
use strfry_http.Scheduler.Turns.{Turns, run_live-Turns}

module _ {F : Type 0} (queries : Queries F) (options : Options) where
  -- What a call of `process` does: nothing on an empty queue, and else the query in front has its
  -- turn. One that is dead is deleted with no call.
  pub record Processes (s : Scheduler queries options)
      (out : List (Call queries options) × Scheduler queries options) : Type 0 where
    pub valid : IsValid queries options out.1
    pub idle : s.running ≡ [] → (out.0 ≡ []) × (out.1 ≡ s)
    pub moved :
        (a : ℕ) (rest : List ℕ)
        → s.running ≡ a ∷ rest
        → (out.1.running ≡ rest ++ (a ∷ [])) ⊎ ((out.1.running ≡ rest) × (out.1.heap a ≡ none))
    pub silent :
        (a : ℕ) (rest : List ℕ) (q : DbQuery queries options)
        → s.running ≡ a ∷ rest
        → s.heap a ≡ some q
        → q.dead ≡ true
        → (out.0 ≡ []) × (out.1.running ≡ rest) × (out.1.heap a ≡ none)

  -- The query in front of the queue is allocated.
  front-allocated :
      (heap : Heap queries options) (a : ℕ) (rest : List ℕ)
      → IsCounted queries options heap (a ∷ rest)
      → heap a ≢ none
  unfolding count
  front-allocated heap a rest counted nothing =
      let e = ap (λ o. expected (is_allocated o)) nothing in ground (arith, counted a, e)

  front_rest :
      (a b : ℕ) (rest rest' : List ℕ) (s : Scheduler queries options)
      → s.running ≡ a ∷ rest
      → s.running ≡ b ∷ rest'
      → rest ≡ rest'
  front_rest a b rest rest' s e e' = cc

  front_same :
      (a b : ℕ) (rest rest' : List ℕ) (s : Scheduler queries options)
      → s.running ≡ a ∷ rest
      → s.running ≡ b ∷ rest'
      → b ≡ a
  front_same a b rest rest' s e e' = cc

  dead-Processes :
      (a : ℕ) (rest : List ℕ) (q : DbQuery queries options) (s : Scheduler queries options)
      → IsValid queries options s
      → s.running ≡ a ∷ rest
      → s.heap a ≡ some q
      → q.dead ≡ true
      → Processes s ([], record s { heap = free queries options a s.heap; running = rest })
  dead-Processes a rest q s valid queue there died =
      let freed = λ (b : ℕ) (rest' : List ℕ) (e : s.running ≡ b ∷ rest').
        ap (free queries options a s.heap) (front_same a b rest rest' s queue e)
        ∙ free_self queries options a s.heap in
      record {
        valid = record {
          index =
              freed-IsIndexed queries options s.heap s.next a s.conns
                (λ p there'. ap (λ x. x.dead) (some-injective _ _ (sym there' ∙ there)) ∙ died)
                valid.index;
          counted =
              freed-IsCounted queries options s.heap a rest
                (subst (λ (l : List ℕ). IsCounted queries options s.heap l) queue valid.counted);
          no_batch = valid.no_batch;
        };
        idle = λ empty. cc;
        moved = λ b rest' e. inr (front_rest a b rest rest' s queue e, freed b rest' e);
        silent = λ b rest' p e here d. (refl, front_rest a b rest rest' s queue e, freed b rest' e);
      }

  turned-Processes :
      (a : ℕ) (rest : List ℕ) (q : DbQuery queries options) (s : Scheduler queries options)
      (out : List (Call queries options) × Scheduler queries options)
      → s.running ≡ a ∷ rest
      → s.heap a ≡ some q
      → q.dead ≡ false
      → Turns queries options a rest out
      → Processes s out
  turned-Processes a rest q s out queue there alive turns = record {
    valid = turns.valid;
    idle = λ empty. cc;
    moved = λ b rest' e.
        subst₂
          (λ (x : ℕ) (l : List ℕ).
            (out.1.running ≡ l ++ (x ∷ [])) ⊎ ((out.1.running ≡ l) × (out.1.heap x ≡ none)))
          (sym (front_same a b rest rest' s queue e)) (front_rest a b rest rest' s queue e)
          turns.moved;
    silent = λ b rest' p e here d.
        let p' : s.heap a ≡ some p = ap s.heap (sym (front_same a b rest rest' s queue e)) ∙ here in
        let same : q ≡ p = some-injective _ _ (sym there ∙ p') in
        absurd (true-false (sym (ap (λ x. x.dead) same ∙ d) ∙ alive));
  }

  running-Processes :
      (txn : queries.Txn) (a : ℕ) (rest : List ℕ) (s : Scheduler queries options)
      → IsValid queries options s
      → s.running ≡ a ∷ rest
      → (out : List (Call queries options) × Scheduler queries options) × (run_query queries options
            txn a
            (record s { running = rest })
          ≡ ok out)
        × Processes s out
  unfolding run_query deref
  running-Processes txn a rest s valid queue =
      let counted =
        subst (λ (l : List ℕ). IsCounted queries options s.heap l) queue valid.counted in
      elim (Option-cases (s.heap a)) [
        | inl nothing ↦ absurd (front-allocated s.heap a rest counted nothing)
        | inr (q, there) ↦ elim (Bool-cases q.dead) [
          | inl died ↦ (
            ([], record s { heap = free queries options a s.heap; running = rest }),
            rw (run_query, deref, there) (if-true _ _ died),
            dead-Processes a rest q s valid queue there died,
          )
          | inr alive ↦
              let (out, e, turns) =
                run_live-Turns queries options txn a rest q (record s { running = rest })
                  (record { index = valid.index; counted = counted; no_batch = valid.no_batch })
                  refl there alive in
              (
                out,
                rw (run_query, deref, there) (if-false _ _ alive ∙ e),
                turned-Processes a rest q s out queue there alive turns,
              )
        ]
      ]

  process-empty :
      (txn : queries.Txn) (s : Scheduler queries options)
      → s.running ≡ []
      → process queries options txn s ≡ ok ([], s)
  unfolding process
  process-empty txn s empty = ground arith

  -- From a valid state, a turn of the scheduler uses no query that is not allocated, and leaves a
  -- valid state. On an empty queue it does nothing. Else the query in front goes to the back of the
  -- queue, or leaves the queue and is deleted; one that is dead is deleted, and is passed to no
  -- callback.
  pub process-Processes :
      (txn : queries.Txn) (s : Scheduler queries options)
      → IsValid queries options s
      → (out : List (Call queries options) × Scheduler queries options) × (process queries options
            txn s
          ≡ ok out)
        × Processes s out
  unfolding process
  process-Processes txn s valid = elim (List-cases s.running) [
    | inl empty ↦ (
      ([], s),
      process-empty txn s empty,
      record {
        valid = valid;
        idle = λ e. (refl, refl);
        moved = λ a rest e. cc;
        silent = λ a rest q e. cc;
      },
    )
    | inr (a, rest, queue) ↦
        let (out, e, does) = running-Processes txn a rest s valid queue in
        (out, rw (process, queue) e, does)
  ]
