-- ===== src/Monitors/Process/Sent.antt =====
-- The recipients of an event up to a visit: which monitors have been sent it.
use strfry_http.Base.{
  mem, Once, mem-append, Once-append, ℕ, ◌≤◌, ◌≡◌, refl, sym, ap, ◌∙◌, inl, inr, Bool, true, false,
  not, Option, none, some, List, [], ◌∷◌, ◌++◌, arith, leb, ◌==◌, ==_iff, if◌then◌else◌, Bool-cases,
  All,
}
use strfry_http.Monitors.{Filters, ViewEvent, Recipient, Monitor, Heap, put}
use strfry_http.Monitors.Maps.{FilterPtr, MonitorItem}
use strfry_http.Monitors.Valid.{place, filter_of}
use strfry_http.Monitors.Process.{Run}

module _ {F : Type 0} (filters : Filters F) where
  abbrev pub told : ViewEvent → ℕ → Monitor filters → Run filters → Run filters
  told ev a m r = record r {
    heap = put filters a (record m { latest_event_id = ev.primary_key_id }) r.heap;
    recipients = r.recipients ++ (record { conn_id = m.conn_id; sub_id = m.sub_id } ∷ []);
  }

  -- The event, the monitors before it, and which filters match it.
  module _ (ev : ViewEvent) (before : Heap filters) (matches : F → Bool) where
    -- The subscription has not seen the event.
    abbrev pub waits : Option (Monitor filters) → Bool
    waits none = false
    waits (some m) = not (leb ev.primary_key_id m.latest_event_id)

    abbrev pub sent_to : Bool → Option (Monitor filters) → Option (Monitor filters)
    sent_to t none = none
    sent_to t (some m) = some (if t then record m { latest_event_id = ev.primary_key_id } else m)

    abbrev listed : Option (Monitor filters) → List Recipient → List Recipient
    listed none rest = rest
    listed (some m) rest = record { conn_id = m.conn_id; sub_id = m.sub_id } ∷ rest

    abbrev pub recipients_of : List ℕ → List Recipient
    recipients_of [] = []
    recipients_of (a ∷ ms) = listed (before a) (recipients_of ms)

    -- The subscription waits, and one of its filters matches.
    pub record Earns (a : ℕ) : Type 0 where
      pub waiting : waits (before a) ≡ true
      pub index : ℕ
      pub filter : F
      pub there : place filters (before a) index ≡ some filter
      pub hit : matches filter ≡ true

    -- The monitors `ms` have been sent the event.
    pub record IsSent (r : Run filters) (ms : List ℕ) : Type 0 where
      pub heap_is : (a : ℕ) → r.heap a ≡ sent_to (mem a ms) (before a)
      pub recipients_are : r.recipients ≡ recipients_of ms
      pub once : Once ms
      pub earned : All Earns ms

    -- If the filter matches, its subscription was sent the event.
    abbrev pub Settled : FilterPtr → List ℕ → Type 0
    Settled p ms =
        (f : F)
        → filter_of filters p before ≡ some f
        → matches f ≡ true
        → waits (before p.monitor) ≡ true
        → mem p.monitor ms ≡ true

    -- An entry of an index: its filter is there, and it is settled if it was visited.
    pub record IsItem (ms : List ℕ) (p : FilterPtr) (item : MonitorItem) : Type 0 where
      pub same : item.mon ≡ p.monitor
      pub filter : F
      pub there : filter_of filters p before ≡ some filter
      pub bounded : item.latest_event_id ≤ ev.primary_key_id
      pub visited : leb ev.primary_key_id item.latest_event_id ≡ true → Settled p ms

    abbrev pub Grows : List ℕ → List ℕ → Type 0
    Grows ms ms' = (a : ℕ) → mem a ms ≡ true → mem a ms' ≡ true

    pub IsItem-Grows :
        (ms ms' : List ℕ) (p : FilterPtr) (item : MonitorItem)
        → Grows ms ms'
        → IsItem ms p item
        → IsItem ms' p item
    IsItem-Grows ms ms' p item grows i = record {
      same = i.same;
      filter = i.filter;
      there = i.there;
      bounded = i.bounded;
      visited = λ seen f there hit waiting. grows p.monitor (i.visited seen f there hit waiting);
    }

    listed-append :
        (o : Option (Monitor filters)) (l rest : List Recipient)
        → listed o l ++ rest ≡ listed o (l ++ rest)
    listed-append none l rest = refl
    listed-append (some m) l rest = refl

    recipients_of-append :
        (a : ℕ) (m : Monitor filters) (ms : List ℕ)
        → before a ≡ some m
        → recipients_of ms ++ (record { conn_id = m.conn_id; sub_id = m.sub_id } ∷ [])
          ≡ recipients_of (ms ++ (a ∷ []))
    recipients_of-append a m [] there = ap (λ o. listed o []) (sym there)
    recipients_of-append a m (x ∷ ms) there =
        listed-append (before x) (recipients_of ms)
          (record { conn_id = m.conn_id; sub_id = m.sub_id } ∷ [])
        ∙ ap (listed (before x)) (recipients_of-append a m ms there)

    Earns-append : (a : ℕ) (ms : List ℕ) → Earns a → All Earns ms → All Earns (ms ++ (a ∷ []))
    Earns-append a [] h hs = (h, tt)
    Earns-append a (x ∷ ms) h (hx, hs) = (hx, Earns-append a ms h hs)

    sent_to_more : (t u : Bool) (o : Option (Monitor filters)) → t ≡ u → sent_to t o ≡ sent_to u o
    sent_to_more t u o e = ap (λ x. sent_to x o) e

    told-heap :
        (a x : ℕ) (m : Monitor filters) (r : Run filters) (ms : List ℕ)
        → IsSent r ms
        → before a ≡ some m
        → (told ev a m r).heap x ≡ sent_to (mem x (ms ++ (a ∷ []))) (before x)
    unfolding put
    told-heap a x m r ms sent there = elim (Bool-cases (x == a)) [
      | inl same ↦
          let e = (==_iff x a).0 same in
          let there' : before x ≡ some m = ap before e ∙ there in
          let is_in : mem x (ms ++ (a ∷ [])) ≡ true = mem-append x a ms ∙ ground (arith, e) in
          rw (put, same, there', is_in) refl
      | inr other ↦
          let same : mem x (ms ++ (a ∷ [])) ≡ mem x ms =
            mem-append x a ms ∙ ground (arith, other) in
          rw (put, other)
            (sent.heap_is x
              ∙ sent_to_more (mem x ms) (mem x (ms ++ (a ∷ []))) (before x) (sym same))
    ]

    pub told-IsSent :
        (a : ℕ) (m : Monitor filters) (r : Run filters) (ms : List ℕ)
        → IsSent r ms
        → before a ≡ some m
        → mem a ms ≡ false
        → Earns a
        → IsSent (told ev a m r) (ms ++ (a ∷ []))
    told-IsSent a m r ms sent there new earns = record {
      heap_is = λ x. told-heap a x m r ms sent there;
      recipients_are =
          ap (λ l. l ++ (record { conn_id = m.conn_id; sub_id = m.sub_id } ∷ []))
            sent.recipients_are
          ∙ recipients_of-append a m ms there;
      once = Once-append a ms new sent.once;
      earned = Earns-append a ms earns sent.earned;
    }
