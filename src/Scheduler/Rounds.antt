-- ===== src/Scheduler/Rounds.antt =====
-- Every query in the queue gets its turn, whatever the queries in front of it do.
use strfry_http.Base.{
  ℕ, ◌≡◌, refl, sym, ◌∙◌, ap, List, [], ◌∷◌, ◌++◌, Result, ok, ◌>>=◌, length, arith, inl, inr,
}
use mathlib.Core.List.{append_assoc, append-nil}
use strfry_http.Scheduler.{Queries, Options, Scheduler, process}
use strfry_http.Scheduler.Valid.{IsValid}
use strfry_http.Scheduler.Process.{process-Processes}

module _ {F : Type 0} (queries : Queries F) (options : Options) where
  -- Calls of `process`, one for each transaction.
  unfoldable pub rounds :
      List queries.Txn → Scheduler queries options → Result (Scheduler queries options)
  rounds [] s = ok s
  rounds (txn ∷ txns) s = process queries options txn s >>= λ out. rounds txns out.1

  -- What a queue `front ++ a ∷ back` has become: `a` is in front, and behind it stand the queries
  -- of `back` in their order.
  pub record Reaches (a : ℕ) (back : List ℕ) (s : Scheduler queries options) : Type 0 where
    pub valid : IsValid queries options s
    pub behind : List ℕ
    pub queue : s.running ≡ a ∷ (back ++ behind)

  reached :
      (a b : ℕ) (back : List ℕ) (s : Scheduler queries options)
      → Reaches a (back ++ (b ∷ [])) s
      → Reaches a back s
  reached a b back s r = record {
    valid = r.valid;
    behind = b ∷ r.behind;
    queue = r.queue ∙ ap (◌∷◌ a) (append_assoc back (b ∷ []) r.behind);
  }

  -- From a valid state, a query that stands behind `n` others in the queue is in front of it after
  -- `n` turns, whatever the others do and read, with the queries that stood behind it still behind it in
  -- their order; no turn uses a query that is not allocated, and the state is valid.
  pub rounds-Reaches :
      (txns : List queries.Txn) (front : List ℕ) (a : ℕ) (back : List ℕ)
      (s : Scheduler queries options)
      → IsValid queries options s
      → s.running ≡ front ++ (a ∷ back)
      → length txns ≡ length front
      → (s' : Scheduler queries options) × (rounds txns s ≡ ok s') × Reaches a back s'
  unfolding rounds
  rounds-Reaches [] [] a back s valid queue n = (
    s,
    refl,
    record { valid = valid; behind = []; queue = queue ∙ ap (◌∷◌ a) (sym (append-nil back)) },
  )
  rounds-Reaches [] (b ∷ front) a back s valid queue n = absurd (omega arith)
  rounds-Reaches (txn ∷ txns) [] a back s valid queue n = absurd (omega arith)
  rounds-Reaches (txn ∷ txns) (b ∷ front) a back s valid queue n =
      let (out, e, does) = process-Processes queries options txn s valid in
      elim (does.moved b (front ++ (a ∷ back)) queue) [
        | inl again ↦
            let (s', e', r) =
              rounds-Reaches txns front a (back ++ (b ∷ [])) out.1 does.valid
                (again ∙ append_assoc front (a ∷ back) (b ∷ [])) (omega arith) in
            (s', rw e e', reached a b back s' r)
        | inr left ↦
            let (s', e', r) =
              rounds-Reaches txns front a back out.1 does.valid left.0 (omega arith) in
            (s', rw e e', r)
      ]
