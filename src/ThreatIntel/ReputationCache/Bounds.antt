-- ===== src/ThreatIntel/ReputationCache/Bounds.antt =====
-- The cache stays within its size, returns what was stored until it expires, and what a refresh of
-- a key does in a full cache.
use email_analysis_agent.Prelude.{
  ℕ, ◌+◌, ◌-◌, ◌≤◌, ◌<◌, ◌≡◌, refl, ◌∙◌, true, none, some, List, [], ◌∷◌, ◌++◌, ltb, leb,
  if◌then◌else◌, nat_eq, list_eq, ◌==◌, list_beq_iff, eq_self, length, length-append, arith,
  Option-cases, inl, inr,
}
use email_analysis_agent.Dict.{
  Dict, lookup, has, put, remove, lookup-put, lookup-remove, length-put, length-remove-le,
  length-remove_of_has, has-eq-true,
}
use email_analysis_agent.Text.{Text}
use email_analysis_agent.ThreatIntel.ReputationCache.{
  Entry, Cache, move_to_end, get, insert_last, put_entry,
}

module _ {O : Type 0} where
  abbrev pub IsValid : Cache O → Type 0
  IsValid c = length c.entries ≤ c.max_size

  lookup-snoc :
      (key j : Text) (e : Entry O) (d : Dict Text (Entry O))
      → lookup key d ≡ none
      → lookup j (d ++ (key, e) ∷ []) ≡ (if key == j then some e else lookup j d)
  unfolding lookup
  lookup-snoc key j e [] absent = refl
  lookup-snoc key j e ((i, w) ∷ d) absent =
      ground
        (arith, list_beq_iff i j, list_beq_iff key j, list_beq_iff i key, lookup-snoc key j e d)

  move_to_end_found :
      (key : Text) (e : Entry O) (d : Dict Text (Entry O))
      → lookup key d ≡ some e
      → move_to_end key d ≡ remove key d ++ (key, e) ∷ []
  unfolding move_to_end
  move_to_end_found key e d found = ground arith

  move_to_end_absent :
      (key : Text) (d : Dict Text (Entry O)) → lookup key d ≡ none → move_to_end key d ≡ d
  unfolding move_to_end
  move_to_end_absent key d absent = ground arith

  lookup-move_to_end :
      (key j : Text) (d : Dict Text (Entry O)) → lookup j (move_to_end key d) ≡ lookup j d
  lookup-move_to_end key j d = elim (Option-cases (lookup key d)) [
    | inl absent ↦ rw (move_to_end_absent key d absent)
    | inr (e, found) ↦ rw (move_to_end_found key e d found) (
        ground (
          arith,
          eq_self key,
          list_beq_iff key j,
          lookup-remove key key d,
          lookup-remove key j d,
          lookup-snoc key j e (remove key d),
          found,
        ))
  ]

  length-move_to_end :
      (key : Text) (d : Dict Text (Entry O)) → length (move_to_end key d) ≤ length d
  length-move_to_end key d = elim (Option-cases (lookup key d)) [
    | inl absent ↦ rw (move_to_end_absent key d absent) (omega arith)
    | inr (e, found) ↦ rw (move_to_end_found key e d found) (
        omega (
          arith,
          length-append {0} (remove key d) ((key, e) ∷ []),
          length-remove_of_has {0, 0} key d (has-eq-true key e d found),
        ))
  ]

  lookup-insert_last :
      (c : Cache O) (key j : Text) (observations : List O) (now : ℕ) (d : Dict Text (Entry O))
      → lookup j (insert_last c key observations now d).entries ≡ (
          if key == j
          then some (record {
            observations = observations;
            created_at = now;
            ttl_seconds = c.ttl_seconds;
          })
          else lookup j d)
  unfolding insert_last
  lookup-insert_last c key j observations now d =
      let e : Entry O = record {
        observations = observations;
        created_at = now;
        ttl_seconds = c.ttl_seconds;
      } in
      lookup-move_to_end key j (put key e d) ∙ lookup-put key j e d

  length-insert_last :
      (c : Cache O) (key : Text) (observations : List O) (now : ℕ) (d : Dict Text (Entry O))
      → length (insert_last c key observations now d).entries
        ≤ (if has key d then length d else length d + 1)
  unfolding insert_last
  length-insert_last c key observations now d =
      let e : Entry O = record {
        observations = observations;
        created_at = now;
        ttl_seconds = c.ttl_seconds;
      } in
      ground (arith, length-move_to_end key (put key e d), length-put key e d)

  -- Reading keeps the cache within its size.
  pub get-IsValid : (c : Cache O) (key : Text) (now : ℕ) → IsValid c → IsValid (get c key now).0
  unfolding get
  get-IsValid c key now v =
      ground (arith, length-move_to_end key c.entries, length-remove-le key c.entries)

  pub get_params :
      (c : Cache O) (key : Text) (now : ℕ)
      → ((get c key now).0.max_size ≡ c.max_size) × ((get c key now).0.ttl_seconds ≡ c.ttl_seconds)
  unfolding get
  get_params c key now = ground arith

  -- The entries that stay when a key is stored: all of them, or in a full cache all but the first.
  abbrev pub without_first : Dict Text (Entry O) → Dict Text (Entry O)
  without_first [] = []
  without_first (x ∷ d) = d

  pub room_made : Cache O → Dict Text (Entry O)
  room_made c = if leb c.max_size (length c.entries) then without_first c.entries else c.entries

  put_entry-insert_last :
      (c : Cache O) (key : Text) (observations : List O) (now : ℕ) (d : Dict Text (Entry O))
      → c.entries ≡ d
      → 0 < c.max_size
      → put_entry c key observations now ≡ some (insert_last c key observations now (room_made c))
  unfolding put_entry room_made
  put_entry-insert_last c key observations now [] e room = ground arith
  put_entry-insert_last c key observations now (x ∷ d) e room = ground arith

  length-room_made :
      (c : Cache O) (d : Dict Text (Entry O))
      → c.entries ≡ d
      → IsValid c
      → 0 < c.max_size
      → length (room_made c) < c.max_size
  unfolding room_made
  length-room_made c [] e v room = ground arith
  length-room_made c (x ∷ d) e v room = ground arith

  get-insert_last :
      (c : Cache O) (key : Text) (observations : List O) (now later : ℕ) (d : Dict Text (Entry O))
      → (get (insert_last c key observations now d) key later).1
        ≡ (if ltb c.ttl_seconds (later - now) then none else some observations)
  unfolding get
  get-insert_last c key observations now later d =
      ground (arith, lookup-insert_last c key key observations now d, eq_self key)

  max_size-insert_last :
      (c : Cache O) (key : Text) (observations : List O) (now : ℕ) (d : Dict Text (Entry O))
      → (insert_last c key observations now d).max_size ≡ c.max_size
  unfolding insert_last
  max_size-insert_last c key observations now d = refl

  -- Storing in a valid cache with room for at least one entry never raises, and the cache stays
  -- valid. The key is then read back with its observations until its time to live is over, and not
  -- afterwards.
  pub put_entry-get :
      (c : Cache O) (key : Text) (observations : List O) (now later : ℕ)
      → IsValid c
      → 0 < c.max_size
      → (c' : Cache O) × (put_entry c key observations now ≡ some c')
        × IsValid c'
        × ((get c' key later).1
            ≡ (if ltb c.ttl_seconds (later - now) then none else some observations))
  put_entry-get c key observations now later v room =
      let d = room_made c in
      (
        insert_last c key observations now d,
        put_entry-insert_last c key observations now c.entries refl room,
        ground (
          arith,
          length-room_made c c.entries refl v room,
          length-insert_last c key observations now d,
          max_size-insert_last c key observations now d,
        ),
        get-insert_last c key observations now later d,
      )

  -- Refreshing a key of a cache that holds exactly `max_size` entries evicts the first entry all
  -- the same: if the key is there and is not the first, the cache is smaller afterwards.
  pub put_entry-shrinks :
      (c c' : Cache O) (key first : Text) (e : Entry O) (d : Dict Text (Entry O))
      (observations : List O) (now : ℕ)
      → c.entries ≡ (first, e) ∷ d
      → length c.entries ≡ c.max_size
      → has key d ≡ true
      → put_entry c key observations now ≡ some c'
      → length c'.entries < length c.entries
  unfolding put_entry
  put_entry-shrinks c c' key first e d observations now is_first full held stored =
      ground (arith, length-insert_last c key observations now d)
