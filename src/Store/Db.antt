-- ===== src/Store/Db.antt =====
-- The tables of the database, which golpe generates over LMDB, as an interface. The table of events
-- and the table of payloads are maps from numbers (levIds); the indices are searched for the first
-- or last entry from a key on. The laws say what an ordered map does, and that an event stands in
-- the indices under its keys from its insertion to its deletion.
use strfry_http.Base.{
  ℕ, ◌≡◌, Bool, true, Option, none, some, Bytes, Result, ok, ◌==◌, if◌then◌else◌,
}
use strfry_http.Packed.{Encoding, PackedEventView, id}
use strfry_http.Store.Index.{Keys, index_keys}

-- The entry that a search ends at: the string and the number of its key, and its levId.
pub record Entry : Type 0 where
  pub key : Bytes
  pub number : ℕ
  pub lev_id : ℕ

pub record Db (enc : Encoding) : Type 1 where
  pub State : Type 0
  -- `env.lookup_Event`, `env.insert_Event`, `env.delete_Event`
  pub lookup_event : ℕ → State → Option PackedEventView
  pub insert_event : PackedEventView → State → Result (ℕ × State)
  pub delete_event : ℕ → State → State
  -- `env.dbi_EventPayload`: `get`, `put` and `del`
  pub get_payload : ℕ → State → Option Bytes
  pub put_payload : ℕ → Bytes → State → State
  pub del_payload : ℕ → State → Bool × State
  -- The first entry of `Event__id` from `(id, 0)` on, and the last of `Event__replace` up to
  -- `(key, number)`; whether `Event__deletion` has a key.
  pub first_id : Bytes → State → Option Entry
  pub last_replace : Bytes → ℕ → State → Option Entry
  pub has_deletion : Bytes → State → Bool
  -- An insertion throws what the computation of the keys throws, and else takes a new number.
  pub insert_throws :
      (v : PackedEventView) (s : State) {k : Keys}
      → index_keys enc v ≡ ok k
      → (lev : ℕ) × (s' : State) × (insert_event v s ≡ ok (lev, s'))
  pub insert_fresh :
      (v : PackedEventView) (s s' : State) (lev : ℕ)
      → insert_event v s ≡ ok (lev, s')
      → lookup_event lev s ≡ none
  pub lookup_insert :
      (v : PackedEventView) (s s' : State) (lev j : ℕ)
      → insert_event v s ≡ ok (lev, s')
      → lookup_event j s' ≡ (if j == lev then some v else lookup_event j s)
  pub payload_insert :
      (v : PackedEventView) (s s' : State) (lev j : ℕ)
      → insert_event v s ≡ ok (lev, s')
      → get_payload j s' ≡ get_payload j s
  pub lookup_delete :
      (lev j : ℕ) (s : State)
      → lookup_event j (delete_event lev s) ≡ (if j == lev then none else lookup_event j s)
  pub payload_delete :
      (lev j : ℕ) (s : State) → get_payload j (delete_event lev s) ≡ get_payload j s
  -- The payloads, apart from the events.
  pub get_put :
      (lev j : ℕ) (raw : Bytes) (s : State)
      → get_payload j (put_payload lev raw s) ≡ (if j == lev then some raw else get_payload j s)
  pub lookup_put :
      (lev j : ℕ) (raw : Bytes) (s : State)
      → lookup_event j (put_payload lev raw s) ≡ lookup_event j s
  pub get_del :
      (lev j : ℕ) (s : State)
      → get_payload j (del_payload lev s).1 ≡ (if j == lev then none else get_payload j s)
  pub lookup_del : (lev j : ℕ) (s : State) → lookup_event j (del_payload lev s).1 ≡ lookup_event j s
  pub del_found :
      (lev : ℕ) (s : State) {raw : Bytes}
      → get_payload lev s ≡ some raw
      → (del_payload lev s).0 ≡ true
  -- An entry that a search ends at is that of an event; where an event has the key searched for, the
  -- search ends at an entry with that key.
  pub first_id_sound :
      (key : Bytes) (s : State) (e : Entry)
      → first_id key s ≡ some e
      → (v : PackedEventView) × (lookup_event e.lev_id s ≡ some v) × (id v ≡ e.key)
  pub first_id_complete :
      (lev : ℕ) (v : PackedEventView) (s : State)
      → lookup_event lev s ≡ some v
      → (e : Entry) × (first_id (id v) s ≡ some e) × (e.key ≡ id v)
  pub last_replace_sound :
      (key : Bytes) (number : ℕ) (s : State) (e : Entry)
      → last_replace key number s ≡ some e
      → (v : PackedEventView) × (k : Keys) × (lookup_event e.lev_id s ≡ some v)
        × (index_keys enc v ≡ ok k)
        × (k.tags.replace ≡ some (e.key, e.number))
  pub last_replace_complete :
      (lev : ℕ) (v : PackedEventView) (k : Keys) (key : Bytes) (number : ℕ) (s : State)
      → lookup_event lev s ≡ some v
      → index_keys enc v ≡ ok k
      → k.tags.replace ≡ some (key, number)
      → (e : Entry) × (last_replace key number s ≡ some e) × (e.key ≡ key) × (e.number ≡ number)
