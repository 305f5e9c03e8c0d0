-- ===== src/ThreatIntel/ReputationCache.antt =====
-- `ReputationCache` of src/threat_intel/manager.py: an `OrderedDict` whose first entry is the least
-- recently used. Readings of the wall clock and times to live are in microseconds.
pub mod Bounds
mod Tests
use email_analysis_agent.Prelude.{
  ℕ, ◌-◌, Bool, true, false, Option, none, some, List, [], ◌∷◌, ◌++◌, ltb, leb, if◌then◌else◌, Eq,
  nat_eq, list_eq, length,
}
use email_analysis_agent.Dict.{Dict, lookup, put, remove}
use email_analysis_agent.Text.{Text}

pub record Entry (O : Type 0) : Type 0 where
  pub observations : List O
  pub created_at : ℕ
  pub ttl_seconds : ℕ

pub record Cache (O : Type 0) : Type 0 where
  pub ttl_seconds : ℕ
  pub max_size : ℕ
  pub entries : Dict Text (Entry O)

module _ {O : Type 0} where
  pub is_expired : Entry O → ℕ → Bool
  is_expired e now = ltb e.ttl_seconds (now - e.created_at)

  -- `OrderedDict.move_to_end`
  pub move_to_end : Text → Dict Text (Entry O) → Dict Text (Entry O)
  move_to_end key d = elim (lookup key d) [ none ↦ d | some e ↦ remove key d ++ (key, e) ∷ [] ]

  unfoldable pub get : Cache O → Text → ℕ → Cache O × Option (List O)
  unfolding is_expired move_to_end
  get c key now = elim (lookup key c.entries) [
    | none ↦ (c, none)
    | some e ↦
        if is_expired e now
        then (record c { entries = remove key c.entries }, none)
        else (record c { entries = move_to_end key c.entries }, some e.observations)
  ]

  -- `popitem(last=False)`: a `KeyError` on an empty dictionary is `none`.
  pub pop_first : Dict Text (Entry O) → Option (Dict Text (Entry O))
  pop_first [] = none
  pop_first (e ∷ d) = some d

  pub insert_last : Cache O → Text → List O → ℕ → Dict Text (Entry O) → Cache O
  unfolding move_to_end
  insert_last c key observations now d =
      let e : Entry O = record {
        observations = observations;
        created_at = now;
        ttl_seconds = c.ttl_seconds;
      } in
      record c { entries = move_to_end key (put key e d) }

  pub put_entry : Cache O → Text → List O → ℕ → Option (Cache O)
  unfolding pop_first insert_last
  put_entry c key observations now =
      if leb c.max_size (length c.entries)
      then (elim (pop_first c.entries) [
        | none ↦ none
        | some d ↦ some (insert_last c key observations now d)
      ])
      else some (insert_last c key observations now c.entries)
