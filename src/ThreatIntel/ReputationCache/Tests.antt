-- ===== src/ThreatIntel/ReputationCache/Tests.antt =====
-- A cache of two entries, and the theorems about it.
use email_analysis_agent.Prelude.{ℕ, ◌≡◌, refl, some, [], ◌∷◌}
use email_analysis_agent.Dict.{lookup, put, remove}
use email_analysis_agent.ThreatIntel.ReputationCache.{Entry, Cache, put_entry}

abbrev entry : ℕ → Entry ℕ
entry n = record { observations = n ∷ []; created_at = 0; ttl_seconds = 300 }

abbrev full : Cache ℕ
full = record {
  ttl_seconds = 300;
  max_size = 2;
  entries = (1 ∷ [], entry 10) ∷ (2 ∷ [], entry 20) ∷ [];
}

abbrev refreshed : Cache ℕ
refreshed = record full { entries = (2 ∷ [], entry 21) ∷ [] }

refresh : put_entry full (2 ∷ []) (21 ∷ []) 0 ≡ some refreshed
unfolding put_entry lookup put remove
refresh = refl
