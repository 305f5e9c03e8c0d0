-- ===== src/ThreatIntel/Manager/Caching.antt =====
-- A lookup always returns, and its answer stands for the time to live of the cache.
use email_analysis_agent.Prelude.{
  ℕ, ◌+◌, ◌-◌, ◌≤◌, ◌<◌, ◌≡◌, refl, ◌∙◌, none, some, List, [], ◌∷◌, arith, Option-cases, inl, inr,
}
use email_analysis_agent.Text.{Text, strip}
use email_analysis_agent.ThreatIntel.ReputationCache
use email_analysis_agent.ThreatIntel.ReputationCache.{Cache, put_entry}
use email_analysis_agent.ThreatIntel.ReputationCache.Bounds.{
  IsValid, get-IsValid, put_entry-get, get_params,
}
use email_analysis_agent.ThreatIntel.Manager.{
  TargetType, Provider, Moment, Manager, Lookup, set_breaker, set_limiter, call_provider, visit,
  visit_all, get_all_providers, cache_key, lookup_indicator,
}

module _ {O : Type 0} where
  visit-cache :
      (m : Manager O) (p : Provider O) (at : Moment) (target : Text) (type : TargetType)
      → (visit m p at target type).manager.cache ≡ m.cache
  unfolding visit call_provider set_breaker set_limiter
  visit-cache m p at target type = ground arith

  pub visit_all-cache :
      (m : Manager O) (ps : List (Provider O)) (at : ℕ → Moment) (target : Text) (type : TargetType)
      → (visit_all m ps at target type).manager.cache ≡ m.cache
  unfolding visit_all
  visit_all-cache m [] at target type = refl
  visit_all-cache m (p ∷ ps) at target type =
      visit_all-cache (visit m p (at 0) target type).manager ps (λ n. at (n + 1)) target type
      ∙ visit-cache m p (at 0) target type

  module _ (lower : Text → Text) where
    -- The lookup of an indicator that the cache does not hold, up to the store of the answer.
    abbrev searched : Manager O → Text → TargetType → ℕ → (ℕ → Moment) → Lookup O
    searched m target type read_at at =
        let m' : Manager O = record m {
          cache = (ReputationCache.get m.cache (cache_key lower target type) read_at).0;
        } in
        visit_all m' (get_all_providers m') at (strip target) type

    lookup-miss :
        (m : Manager O) (target : Text) (type : TargetType) (read_at : ℕ) (at : ℕ → Moment)
        (stored_at : ℕ) (c : Cache O)
        → (ReputationCache.get m.cache (cache_key lower target type) read_at).1 ≡ none
        → put_entry
            (ReputationCache.get m.cache (cache_key lower target type) read_at).0
            (cache_key lower target type)
            (searched m target type read_at at).observations
            stored_at
          ≡ some c
        → lookup_indicator lower m target type read_at at stored_at
          ≡ some (record (searched m target type read_at at) {
            manager = record (searched m target type read_at at).manager { cache = c };
          })
    unfolding lookup_indicator
    lookup-miss m target type read_at at stored_at c miss stored =
        let m' : Manager O = record m {
          cache = (ReputationCache.get m.cache (cache_key lower target type) read_at).0;
        } in
        ground
          (arith, miss, stored, visit_all-cache m' (get_all_providers m') at (strip target) type)

    lookup-hit :
        (m : Manager O) (target : Text) (type : TargetType) (read_at : ℕ) (at : ℕ → Moment)
        (stored_at : ℕ) (observations : List O)
        → (ReputationCache.get m.cache (cache_key lower target type) read_at).1 ≡ some observations
        → lookup_indicator lower m target type read_at at stored_at
          ≡ some (record {
            manager = record m {
              cache = (ReputationCache.get m.cache (cache_key lower target type) read_at).0;
            };
            observations = observations;
            consulted = [];
          })
    unfolding lookup_indicator
    lookup-hit m target type read_at at stored_at observations hit = ground (arith, hit)

    -- With a valid cache that has room for at least one entry, a lookup never raises, and leaves
    -- the cache valid.
    pub lookup_indicator-returns :
        (m : Manager O) (target : Text) (type : TargetType) (read_at : ℕ) (at : ℕ → Moment)
        (stored_at : ℕ)
        → IsValid m.cache
        → 0 < m.cache.max_size
        → (out : Lookup O) × (lookup_indicator lower m target type read_at at stored_at ≡ some out)
          × IsValid out.manager.cache
    lookup_indicator-returns m target type read_at at stored_at valid room =
        let key = cache_key lower target type in
        let read = get-IsValid m.cache key read_at valid in
        let out = searched m target type read_at at in
        elim (Option-cases (ReputationCache.get m.cache key read_at).1) [
          | inl miss ↦
              let (c, stored, still, _) =
                put_entry-get (ReputationCache.get m.cache key read_at).0 key out.observations
                  stored_at stored_at read (rw ((get_params m.cache key read_at).0) room) in
              (_, lookup-miss m target type read_at at stored_at c miss stored, still)
          | inr (observations, hit) ↦
              (_, lookup-hit m target type read_at at stored_at observations hit, read)
        ]

    -- A lookup that misses the cache is the answer to every lookup of the same indicator that reads
    -- the cache before the time to live is over: no provider is called, and no breaker or limiter
    -- changes. So it is if no provider was consulted, and the answer is empty. The cache must be
    -- valid and have room for at least one entry.
    pub lookup_indicator-again :
        (m : Manager O) (target target' : Text) (type type' : TargetType) (read_at read_at' : ℕ)
        (at at' : ℕ → Moment) (stored_at stored_at' : ℕ) (out : Lookup O)
        → IsValid m.cache
        → 0 < m.cache.max_size
        → (ReputationCache.get m.cache (cache_key lower target type) read_at).1 ≡ none
        → lookup_indicator lower m target type read_at at stored_at ≡ some out
        → cache_key lower target' type' ≡ cache_key lower target type
        → read_at' - stored_at ≤ m.cache.ttl_seconds
        → (again : Lookup O) × (lookup_indicator lower out.manager target' type' read_at' at'
              stored_at'
            ≡ some again)
          × (again.observations ≡ out.observations)
          × (again.consulted ≡ [])
          × (again.manager.circuit_breakers ≡ out.manager.circuit_breakers)
          × (again.manager.rate_limiters ≡ out.manager.rate_limiters)
    lookup_indicator-again m target target' type type' read_at read_at' at at' stored_at stored_at'
          out valid room miss found same early =
        let key = cache_key lower target type in
        let read = (ReputationCache.get m.cache key read_at).0 in
        let kept = get_params m.cache key read_at in
        let first = searched m target type read_at at in
        let (c, stored, _, back) =
          put_entry-get read key first.observations stored_at read_at'
            (get-IsValid m.cache key read_at valid) (rw (kept.0) room) in
        let left : Lookup O = record first { manager = record first.manager { cache = c } } in
        let is_left : out ≡ left =
          cc (found, lookup-miss m target type read_at at stored_at c miss stored) in
        let hit : (ReputationCache.get c (cache_key lower target' type') read_at').1
            ≡ some first.observations =
          rw same (ground (arith, back, kept, early)) in
        rw is_left (
          _,
          lookup-hit left.manager target' type' read_at' at' stored_at' first.observations hit,
          refl,
          refl,
          refl,
          refl,
        )
