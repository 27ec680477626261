-- ===== src/Scheduler.antt =====
-- src/QueryScheduler.h: `QueryScheduler`, which gives the queries of all connections their turns.
-- The queries stand in a heap, a function from addresses; the use of an address that is not
-- allocated is the error `dangling`. A new query takes an address above all before. The callbacks
-- are the list of their calls, in order.
use strfry_http.Base.{
  ℕ, zero, suc, ◌+◌, ◌≡◌, Bool, true, false, not, List, [], ◌∷◌, ◌++◌, Option, none, some, Bytes,
  Result, ok, err, ◌>>=◌, length, leb, ◌==◌, if◌then◌else◌, dangling,
}
use strfry_http.Subscription.{Subscription, SubId}
use strfry_http.Subscription.Conns.{
  Conns, find_entry, find_conn, erase_conn, entries, touch_conn, add_entry, remove_entry,
}
pub mod Valid
pub mod Marks
pub mod Removals
pub mod Closes
pub mod Adds
pub mod Frees
pub mod Turns
pub mod Process
pub mod Rounds

-- What the scheduler uses of `DBQuery` and of the database. A query is its subscription and the
-- state of its scan; `process` gives the levIds that it passes on, and whether it is complete. The
-- transaction holds what the scan reads, the clock included.
pub record Queries (F : Type 0) : Type 1 where
  pub Txn : Type 0
  pub Scan : Type 0
  pub start : Scan
  pub process : Txn → Subscription F → Scan → List ℕ × Bool × Scan
  pub most_recent_lev_id : Txn → ℕ
  pub payload : Txn → ℕ → Option Bytes

-- `ensureExists`, the callbacks that are set, and `relay__maxSubsPerConnection`.
pub record Options : Type 0 where
  pub ensure_exists : Bool
  pub on_event : Bool
  pub on_event_batch : Bool
  pub on_complete : Bool
  pub max_subs : ℕ

module _ {F : Type 0} (queries : Queries F) (options : Options) where
  pub record DbQuery : Type 0 where
    pub sub : Subscription F
    pub dead : Bool
    pub scan : queries.Scan

  abbrev pub Heap : Type 0
  Heap = ℕ → Option DbQuery

  pub record Scheduler : Type 0 where
    pub heap : Heap
    pub next : ℕ
    pub conns : Conns ℕ
    pub running : List ℕ
    pub lev_id_batch : List ℕ

  -- The calls of `onEvent`, `onEventBatch` and `onComplete`.
  pub data Call : Type 0 where
    event : (sub : Subscription F) → (lev_id : ℕ) → (payload : Bytes) → Call
    event_batch : (sub : Subscription F) → (lev_ids : List ℕ) → Call
    completed : (sub : Subscription F) → Call

  unfoldable pub deref : ℕ → Heap → Result DbQuery
  deref a heap = elim (heap a) [ none ↦ err dangling | some q ↦ ok q ]

  unfoldable pub put : ℕ → DbQuery → Heap → Heap
  put a q heap b = if b == a then some q else heap b

  -- `delete q`
  unfoldable pub free : ℕ → Heap → Heap
  free a heap b = if b == a then none else heap b

  -- `query->dead = true`
  unfoldable pub mark_dead : ℕ → Heap → Result Heap
  mark_dead a heap = deref a heap >>= λ q. ok (put a (record q { dead = true }) heap)

  unfoldable pub find_query : ℕ → SubId → Scheduler → Option ℕ
  find_query c k s = find_entry c k s.conns

  unfoldable pub remove_sub : ℕ → SubId → Scheduler → Result Scheduler
  remove_sub c k s = elim (find_query c k s) [
    | none ↦ ok s
    | some a ↦ mark_dead a s.heap >>= λ heap.
        ok (record s { heap = heap; conns = remove_entry c k s.conns })
  ]

  -- The subscription that a new one replaces is removed.
  unfoldable pub replace_sub : ℕ → SubId → Scheduler → Result Scheduler
  replace_sub c k s = elim (find_query c k s) [ none ↦ ok s | some a ↦ remove_sub c k s ]

  unfoldable pub add_sub : queries.Txn → Subscription F → Scheduler → Result (Bool × Scheduler)
  add_sub txn sub s = do
    let sub' = record sub { latest_event_id = queries.most_recent_lev_id txn }
    s' ← replace_sub sub'.conn_id sub'.sub_id s
    let added = record s' {
      heap = put s'.next (record { sub = sub'; dead = false; scan = queries.start }) s'.heap;
      next = s'.next + 1;
      conns = add_entry sub'.conn_id sub'.sub_id s'.next s'.conns;
      running = s'.next ∷ s'.running;
    }
    ok (
        if leb options.max_subs (length (entries sub'.conn_id s'.conns))
        then (false, record s' { conns = touch_conn sub'.conn_id s'.conns })
        else (true, added))

  unfoldable pub mark_all : List (SubId × ℕ) → Heap → Result Heap
  mark_all [] heap = ok heap
  mark_all ((k, a) ∷ m) heap = mark_dead a heap >>= λ heap'. mark_all m heap'

  unfoldable pub close_conn : ℕ → Scheduler → Result Scheduler
  close_conn c s = elim (find_conn c s.conns) [
    | none ↦ ok s
    | some m ↦
        mark_all m s.heap >>= λ heap. ok (record s { heap = heap; conns = erase_conn c s.conns })
  ]

  -- The payload that goes with a levId; none where the event was deleted during the scan.
  unfoldable pub event_payload : queries.Txn → ℕ → Option Bytes
  event_payload txn lev_id = if options.ensure_exists then queries.payload txn lev_id else some []

  -- The calls for the levIds of a scan, and the levIds that join the batch.
  unfoldable pub deliver : queries.Txn → Subscription F → List ℕ → List Call × List ℕ
  deliver txn sub [] = ([], [])
  deliver txn sub (lev_id ∷ lev_ids) =
      let (calls, batch) = deliver txn sub lev_ids in
      elim (event_payload txn lev_id) [
        | none ↦ (calls, batch)
        | some payload ↦ (
          if options.on_event then event sub lev_id payload ∷ calls else calls,
          if options.on_event_batch then lev_id ∷ batch else batch,
        )
      ]

  unfoldable pub flush : Subscription F → Scheduler → List Call × Scheduler
  flush sub s =
      if options.on_event_batch
      then (event_batch sub s.lev_id_batch ∷ [], record s { lev_id_batch = [] })
      else ([], s)

  -- A query that is complete is removed and deleted.
  unfoldable pub finish :
      ℕ → Subscription F → List Call → Scheduler → Result (List Call × Scheduler)
  finish a sub calls s = remove_sub sub.conn_id sub.sub_id s >>= λ s'. ok (
    calls ++ (if options.on_complete then completed sub ∷ [] else []),
    record s' { heap = free a s'.heap },
  )

  -- The turn of a query that is alive and was taken off the queue.
  unfoldable pub run_live : queries.Txn → ℕ → DbQuery → Scheduler → Result (List Call × Scheduler)
  run_live txn a q s =
      let (lev_ids, complete, scan) = queries.process txn q.sub q.scan in
      let (calls, batch) = deliver txn q.sub lev_ids in
      let (flushed, s') = flush q.sub (record s {
        heap = put a (record q { scan = scan }) s.heap;
        lev_id_batch = s.lev_id_batch ++ batch;
      }) in
      let finished = finish a q.sub (calls ++ flushed) s' in
      if complete
      then finished
      else ok (calls ++ flushed, record s' { running = s'.running ++ (a ∷ []) })

  unfoldable pub run_query : queries.Txn → ℕ → Scheduler → Result (List Call × Scheduler)
  run_query txn a s = deref a s.heap >>= λ q.
      (if q.dead then ok ([], record s { heap = free a s.heap }) else run_live txn a q s)

  unfoldable pub process : queries.Txn → Scheduler → Result (List Call × Scheduler)
  process txn s = elim s.running [
    | [] ↦ ok ([], s)
    | a ∷ rest ↦ run_query txn a (record s { running = rest })
  ]
