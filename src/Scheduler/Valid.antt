-- ===== src/Scheduler/Valid.antt =====
-- The invariant of the scheduler, and that removals keep it.
use strfry_http.Base.{
  ℕ, suc, ◌≡◌, ◌≤◌, Bool, true, false, List, [], ◌∷◌, Option, none, some, Bytes, ◌==◌,
  if◌then◌else◌,
}
use strfry_http.Subscription.{sv}
use strfry_http.Subscription.Conns.{Conns, find_entry}
use strfry_http.Subscription.Conns.Entries.{AllEntries}
use strfry_http.Scheduler.{Queries, Options, DbQuery, Heap, Scheduler}

unfoldable pub count : ℕ → List ℕ → ℕ
count a [] = 0
count a (b ∷ bs) = let rest = count a bs in if b == a then suc rest else rest

abbrev pub is_allocated {ℓ} : {A : Type ℓ} → Option A → Bool
is_allocated none = false
is_allocated (some a) = true

abbrev pub expected : Bool → ℕ
expected true = 1
expected false = 0

module _ {F : Type 0} (queries : Queries F) (options : Options) where
  -- What the index says of an address: a query that is alive is there, with the connection and the
  -- id that it stands under.
  pub record IsIndexedAt (heap : Heap queries options) (c : ℕ) (b : Bytes) (a : ℕ) : Type 0 where
    pub query : DbQuery queries options
    pub there : heap a ≡ some query
    pub alive : query.dead ≡ false
    pub conn : query.sub.conn_id ≡ c
    pub named : sv query.sub.sub_id ≡ b

  -- The index holds the queries that are alive, and no address above is allocated.
  pub record IsIndexed (heap : Heap queries options) (next : ℕ) (conns : Conns ℕ) : Type 0 where
    pub fresh : (a : ℕ) → next ≤ a → heap a ≡ none
    pub indexed : AllEntries (IsIndexedAt heap) conns
    pub live :
        (a : ℕ) (q : DbQuery queries options)
        → heap a ≡ some q
        → q.dead ≡ false
        → find_entry q.sub.conn_id q.sub.sub_id conns ≡ some a

  -- Each allocated query is in the queue once, and nothing else is.
  abbrev pub IsCounted : Heap queries options → List ℕ → Type 0
  IsCounted heap running = (a : ℕ) → count a running ≡ expected (is_allocated (heap a))

  pub record IsValid (s : Scheduler queries options) : Type 0 where
    pub index : IsIndexed s.heap s.next s.conns
    pub counted : IsCounted s.heap s.running
    pub no_batch : s.lev_id_batch ≡ []
