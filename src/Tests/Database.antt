-- ===== src/Tests/Database.antt =====
-- A database in lists: the events and the payloads with their numbers, the latest first.
use strfry_http.Base.{
  ℕ, ◌+◌, ◌≡◌, ◌≤◌, refl, sym, ◌∙◌, ap, Bool, true, false, ◌&&◌, List, [], ◌∷◌, Option, none, some,
  Bytes, Result, ok, err, ◌>>=◌, ◌==◌, ==_iff, if◌then◌else◌, arith, bytes_eq, bytes_eq_refl,
  eq_of-bytes_eq, any, with_ok, ok-injective, Bool-cases, Result-cases, Option-cases, inl, inr,
}
use mathlib.Core.Option.{some-injective}
use strfry_http.Packed.{Encoding, PackedEventView, id}
use strfry_http.Store.Index.{Keys, index_keys}
use strfry_http.Store.Db.{Db, Entry}

abbrev Table : Type 0 → Type 0
Table V = List (ℕ × V)

module _ {V : Type 0} where
  unfoldable pub get : ℕ → Table V → Option V
  get j [] = none
  get j ((i, v) ∷ t) = let rest = get j t in if j == i then some v else rest

  unfoldable pub del : ℕ → Table V → Table V
  del j [] = []
  del j ((i, v) ∷ t) = let rest = del j t in if i == j then rest else (i, v) ∷ rest

  -- A number above all in use.
  unfoldable pub unused : Table V → ℕ
  unused [] = 1
  unused ((i, v) ∷ t) = i + unused t

  get-unused : (n : ℕ) (t : Table V) → unused t ≤ n → get n t ≡ none
  unfolding get unused
  get-unused n [] h = refl
  get-unused n ((i, v) ∷ t) h = ground (arith, get-unused n t, unused_pos t)
    where
      unused_pos : (t : Table V) → 1 ≤ unused t
      unused_pos [] = omega arith
      unused_pos ((i, v) ∷ t) = omega (arith, unused_pos t)

  pub get-del : (j i : ℕ) (t : Table V) → get j (del i t) ≡ (if j == i then none else get j t)
  unfolding get del
  get-del j i [] = ground arith
  get-del j i ((k, v) ∷ t) = ground (arith, get-del j i t)

  -- The first number in use whose entry is some.
  unfoldable pub first_some : (ℕ → Option Entry) → Table V → Option Entry
  first_some f [] = none
  first_some f ((i, v) ∷ t) = elim (f i) [ some e ↦ some e | none ↦ first_some f t ]

  pub first_some-found :
      (f : ℕ → Option Entry) (t : Table V) (e : Entry)
      → first_some f t ≡ some e
      → (i : ℕ) × (f i ≡ some e)
  unfolding first_some
  first_some-found f [] e h = cc
  first_some-found f ((i, v) ∷ t) e h = elim (Option-cases (f i)) [
    | inl nothing ↦ first_some-found f t e (rw (nothing, first_some) at h)
    | inr (e', there) ↦ (i, there ∙ (rw (there, first_some) at h))
  ]

  pub first_some_complete :
      (f : ℕ → Option Entry) (j : ℕ) (t : Table V) (v : V) (e : Entry)
      → get j t ≡ some v
      → f j ≡ some e
      → (e' : Entry) × (first_some f t ≡ some e')
  unfolding first_some get
  first_some_complete f j [] v e h k = cc
  first_some_complete f j ((i, u) ∷ t) v e h k = elim (Option-cases (f i)) [
    | inr (e', there) ↦ (e', rw (there, first_some) refl)
    | inl nothing ↦ elim (Bool-cases (j == i)) [
      | inl same ↦ cc (nothing, k, (==_iff j i).0 same)
      | inr other ↦
          let (e', r) = first_some_complete f j t v e (rw other at h) k in
          (e', rw (nothing, first_some) r)
    ]
  ]

pub get-cons :
    {V : Type 0} (j i : ℕ) (v : V) (t : Table V)
    → get j ((i, v) ∷ t) ≡ (if j == i then some v else get j t)
unfolding get
get-cons j i v t = refl

abbrev is_there : {V : Type 0} → Option V → Bool
is_there none = false
is_there (some v) = true

pub record Tables : Type 0 where
  pub events : Table PackedEventView
  pub payloads : Table Bytes

module _ (enc : Encoding) where
  unfoldable pub insert : PackedEventView → Tables → Result (ℕ × Tables)
  insert v s = index_keys enc v >>= λ k.
      ok (unused s.events, record s { events = (unused s.events, v) ∷ s.events })

  unfoldable pub id_entry : Tables → Bytes → ℕ → Option Entry
  id_entry s key j = elim (get j s.events) [
    | none ↦ none
    | some v ↦
        if bytes_eq (id v) key then some (record { key = id v; number = 0; lev_id = j }) else none
  ]

  unfoldable pub replace_entry : Tables → Bytes → ℕ → ℕ → Option Entry
  replace_entry s key number j = elim (get j s.events) [
    | none ↦ none
    | some v ↦ elim (index_keys enc v) [
      | err e ↦ none
      | ok k ↦ elim k.tags.replace [
        | none ↦ none
        | some (a, n) ↦
            if bytes_eq a key && n == number
            then some (record { key = a; number = n; lev_id = j })
            else none
      ]
    ]
  ]

  unfoldable pub has_key : Bytes → Table PackedEventView → Bool
  has_key key [] = false
  has_key key ((i, v) ∷ t) =
      let rest = has_key key t in
      let here : Bool = elim (index_keys enc v) [
        | err e ↦ false
        | ok k ↦ any (λ d. bytes_eq d key) k.tags.deletion
      ] in
      if here then true else rest

  pub id_entry_sound :
      (s : Tables) (key : Bytes) (j : ℕ) (e : Entry)
      → id_entry s key j ≡ some e
      → (v : PackedEventView) × (get e.lev_id s.events ≡ some v) × (id v ≡ e.key)
  unfolding id_entry
  id_entry_sound s key j e h = elim (Option-cases (get j s.events)) [
    | inl nothing ↦ cc (rw (nothing, id_entry) at h)
    | inr (v, there) ↦
        let h1 = rw (there, id_entry) at h in
        elim (Bool-cases (bytes_eq (id v) key)) [
          | inl same ↦
              let e1 = some-injective _ _ (rw same at h1) in
              (v, rw (← e1) there, ap (λ x. x.key) e1)
          | inr other ↦ cc (rw other at h1)
        ]
  ]

  pub id_entry_complete :
      (s : Tables) (j : ℕ) (v : PackedEventView)
      → get j s.events ≡ some v
      → (e : Entry) × (id_entry s (id v) j ≡ some e)
  unfolding id_entry
  id_entry_complete s j v h =
      (record { key = id v; number = 0; lev_id = j }, rw (h, id_entry, bytes_eq_refl (id v)) refl)

  pub id_entry-key :
      (s : Tables) (key : Bytes) (j : ℕ) (e : Entry) → id_entry s key j ≡ some e → e.key ≡ key
  unfolding id_entry
  id_entry-key s key j e h = elim (Option-cases (get j s.events)) [
    | inl nothing ↦ cc (rw (nothing, id_entry) at h)
    | inr (v, there) ↦
        let h1 = rw (there, id_entry) at h in
        elim (Bool-cases (bytes_eq (id v) key)) [
          | inl same ↦
              ap (λ x. x.key) (sym (some-injective _ _ (rw same at h1)))
              ∙ eq_of-bytes_eq (id v) key same
          | inr other ↦ cc (rw other at h1)
        ]
  ]

  unfoldable pub IsEntry : Tables → Bytes → ℕ → Entry → Type 0
  IsEntry s key number e =
      (v : PackedEventView) × (k : Keys) × (get e.lev_id s.events ≡ some v)
      × (index_keys enc v ≡ ok k)
      × (k.tags.replace ≡ some (e.key, e.number))
      × (e.key ≡ key)
      × (e.number ≡ number)

  match_entry : Bytes → ℕ → ℕ → Bytes → ℕ → Option Entry
  match_entry key number j a n =
      if bytes_eq a key && n == number
      then some (record { key = a; number = n; lev_id = j })
      else none

  match_entry-IsEntry :
      (s : Tables) (key : Bytes) (number j n : ℕ) (a : Bytes) (e : Entry) (v : PackedEventView)
      (k : Keys)
      → get j s.events ≡ some v
      → index_keys enc v ≡ ok k
      → k.tags.replace ≡ some (a, n)
      → match_entry key number j a n ≡ some e
      → IsEntry s key number e
  unfolding match_entry IsEntry
  match_entry-IsEntry s key number j n a e v k there indexed has h =
      elim (Bool-cases (bytes_eq a key && n == number)) [
        | inl same ↦
            let e1 = some-injective _ _ (rw same at h) in
            let same_key : bytes_eq a key ≡ true = ground (arith, same) in
            let same_number : n ≡ number = ground (arith, same) in
            rw (← e1) (v, k, there, indexed, has, eq_of-bytes_eq a key same_key, same_number)
        | inr other ↦ cc (rw other at h)
      ]

  pub replace_entry-IsEntry :
      (s : Tables) (key : Bytes) (number j : ℕ) (e : Entry)
      → replace_entry s key number j ≡ some e
      → IsEntry s key number e
  unfolding replace_entry match_entry
  replace_entry-IsEntry s key number j e h = elim (Option-cases (get j s.events)) [
    | inl nothing ↦ cc (rw (nothing, replace_entry) at h)
    | inr (v, there) ↦ elim (Result-cases (index_keys enc v)) [
      | inr (x, thrown) ↦ cc (rw (there, replace_entry, thrown) at h)
      | inl (k, indexed) ↦ elim (Option-cases k.tags.replace) [
        | inl nothing ↦ cc (rw (there, replace_entry, indexed, nothing) at h)
        | inr ((a, n), has) ↦
            match_entry-IsEntry s key number j n a e v k there indexed has
              (rw (there, replace_entry, indexed, has) at h)
      ]
    ]
  ]

  pub replace_entry_complete :
      (s : Tables) (key : Bytes) (number j : ℕ) (v : PackedEventView) (k : Keys)
      → get j s.events ≡ some v
      → index_keys enc v ≡ ok k
      → k.tags.replace ≡ some (key, number)
      → (e : Entry) × (replace_entry s key number j ≡ some e)
  unfolding replace_entry
  replace_entry_complete s key number j v k there indexed has =
      let same : (number == number) ≡ true = ground arith in
      (
        record { key = key; number = number; lev_id = j },
        rw (there, replace_entry, indexed, has, bytes_eq_refl key, same) refl,
      )

  pub get-insert :
      (v : PackedEventView) (s s' : Tables) (lev j : ℕ)
      → insert v s ≡ ok (lev, s')
      → (get j s'.events ≡ (if j == lev then some v else get j s.events))
        × (get j s'.payloads ≡ get j s.payloads)
        × (get lev s.events ≡ none)
  unfolding insert get
  get-insert v s s' lev j h = with_ok (index_keys enc v) _ h (λ k r h1.
      let e = ok-injective h1 in
      let lev_same : unused s.events ≡ lev = ap (λ x. x.0) e in
      let s_same : record s { events = (unused s.events, v) ∷ s.events } ≡ s' = ap (λ x. x.1) e in
      rw (← s_same, ← lev_same) (refl, refl, get-unused (unused s.events) s.events (omega arith)))

  unfoldable pub listed : Db enc
  unfolding insert id_entry replace_entry has_key IsEntry
  listed = record {
    State = Tables;
    lookup_event = λ j s. get j s.events;
    insert_event = insert;
    delete_event = λ j s. record s { events = del j s.events };
    get_payload = λ j s. get j s.payloads;
    put_payload = λ j raw s. record s { payloads = (j, raw) ∷ s.payloads };
    del_payload = λ j s. (is_there (get j s.payloads), record s { payloads = del j s.payloads });
    first_id = λ key s. first_some (id_entry s key) s.events;
    last_replace = λ key number s. first_some (replace_entry s key number) s.events;
    has_deletion = λ key s. has_key key s.events;
    insert_throws = λ v s h. (
      unused s.events,
      record s { events = (unused s.events, v) ∷ s.events },
      rw (h, insert) refl,
    );
    insert_fresh = λ v s s' lev h. (get-insert v s s' lev 0 h).2;
    lookup_insert = λ v s s' lev j h. (get-insert v s s' lev j h).0;
    payload_insert = λ v s s' lev j h. (get-insert v s s' lev j h).1;
    lookup_delete = λ lev j s. get-del j lev s.events;
    payload_delete = λ lev j s. refl;
    get_put = λ lev j raw s. get-cons j lev raw s.payloads;
    lookup_put = λ lev j raw s. refl;
    get_del = λ lev j s. get-del j lev s.payloads;
    lookup_del = λ lev j s. refl;
    del_found = λ lev s h. rw h refl;
    first_id_sound = λ key s e h.
        let (j, there) = first_some-found (id_entry s key) s.events e h in
        id_entry_sound s key j e there;
    first_id_complete = λ lev v s h.
        let (e, k) = id_entry_complete s lev v h in
        let (e', found) = first_some_complete (id_entry s (id v)) lev s.events v e h k in
        let (j, there) = first_some-found (id_entry s (id v)) s.events e' found in
        (e', found, id_entry-key s (id v) j e' there);
    last_replace_sound = λ key number s e h.
        let (j, there) = first_some-found (replace_entry s key number) s.events e h in
        let (v, k, here, indexed, has, a, b) = replace_entry-IsEntry s key number j e there in
        (v, k, here, indexed, has);
    last_replace_complete = λ lev v k key number s here indexed has.
        let (e, m) = replace_entry_complete s key number lev v k here indexed has in
        let (e', found) =
          first_some_complete (replace_entry s key number) lev s.events v e here m in
        let (j, there) = first_some-found (replace_entry s key number) s.events e' found in
        let (v', k', here', indexed', has', a, b) = replace_entry-IsEntry s key number j e' there in
        (e', found, a, b);
  }
