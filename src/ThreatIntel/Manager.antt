-- ===== src/ThreatIntel/Manager.antt =====
-- `ThreatIntelProviderRegistry` and `ThreatIntelManager` of src/threat_intel/manager.py, over the
-- models of the breaker, the limiter and the cache. A provider is a parameter: what its `lookup`
-- answers at a time. Readings of the clocks, in microseconds, are arguments: one for each access to
-- the cache, and three for each provider that is visited. `str.lower` is a parameter.
pub mod Caching
pub mod Consultation
mod Tests
use email_analysis_agent.Prelude.{
  ℕ, ◌+◌, Bool, true, false, String, Option, none, some, List, [], ◌∷◌, ◌++◌, if◌then◌else◌, Eq,
  nat_eq, string_eq, list_eq, map,
}
use email_analysis_agent.Dict.{Dict, lookup, put}
use email_analysis_agent.Text.{Text, codes, strip}
use email_analysis_agent.ThreatIntel.CircuitBreaker
use email_analysis_agent.ThreatIntel.CircuitBreaker.{
  Breaker, allow_request, record_success, record_failure,
}
use email_analysis_agent.ThreatIntel.RateLimiter
use email_analysis_agent.ThreatIntel.RateLimiter.{Limiter, acquire}
use email_analysis_agent.ThreatIntel.ReputationCache
use email_analysis_agent.ThreatIntel.ReputationCache.{Cache, put_entry}

-- `ThreatIntelTargetType` of src/security_intelligence/threat_intel/framework.py.
pub data TargetType : Type 0 where
  ip domain url hash email certificate : TargetType

pub target_value : TargetType → Text
target_value ip = codes "ip"
target_value domain = codes "domain"
target_value url = codes "url"
target_value hash = codes "hash"
target_value email = codes "email"
target_value certificate = codes "certificate"

-- How a provider's `lookup` ends: with an observation, with `None`, or with an exception.
pub data Answer (O : Type 0) : Type 0 where
  observed : O → Answer O
  nothing raised : Answer O

pub record Provider (O : Type 0) : Type 0 where
  pub provider_name : Text
  pub lookup_at : ℕ → Text → TargetType → Answer O

-- The clock readings of one visit: by the breaker, by the limiter, and after the provider's answer.
pub record Moment : Type 0 where
  pub asked_at : ℕ
  pub acquired_at : ℕ
  pub done_at : ℕ

pub record Manager (O : Type 0) : Type 0 where
  pub providers : Dict Text (Provider O)
  pub cache : Cache O
  pub circuit_breakers : Dict Text Breaker
  pub rate_limiters : Dict Text Limiter

-- What a lookup leaves and returns, with the names of the providers that it has called.
pub record Lookup (O : Type 0) : Type 0 where
  pub manager : Manager O
  pub observations : List O
  pub consulted : List Text

-- `f"{target_type.value}:{target_clean.lower()}"`
pub cache_key : (Text → Text) → Text → TargetType → Text
unfolding target_value
cache_key lower target target_type = target_value target_type ++ 58 ∷ lower (strip target)

module _ {O : Type 0} where
  pub new : Dict Text (Provider O) → Cache O → Manager O
  new providers cache = record {
    providers = providers;
    cache = cache;
    circuit_breakers = [];
    rate_limiters = [];
  }

  -- `circuit_breakers.setdefault(name, ProviderCircuitBreaker(name))`
  pub breaker_of : Manager O → Text → ℕ → Breaker
  breaker_of m name now = elim (lookup name m.circuit_breakers) [
    | none ↦ CircuitBreaker.new 3 30000000 now
    | some b ↦ b
  ]

  -- `rate_limiters.setdefault(name, ProviderRateLimiter())`
  pub limiter_of : Manager O → Text → ℕ → Limiter
  limiter_of m name now = elim (lookup name m.rate_limiters) [
    | none ↦ RateLimiter.new 60 now
    | some l ↦ l
  ]

  pub set_breaker : Manager O → Text → Breaker → Manager O
  set_breaker m name b = record m { circuit_breakers = put name b m.circuit_breakers }

  pub set_limiter : Manager O → Text → Limiter → Manager O
  set_limiter m name l = record m { rate_limiters = put name l m.rate_limiters }

  -- The call of a provider that is let through, with the breaker in its state after `allow_request`.
  pub call_provider :
      Manager O → Breaker → Provider O → Moment → Text → TargetType → Manager O × List O
  unfolding set_breaker
  call_provider m b p at target target_type = elim (p.lookup_at at.done_at target target_type) [
    | observed o ↦ (set_breaker m p.provider_name (record_success b at.done_at), o ∷ [])
    | nothing ↦ (set_breaker m p.provider_name (record_success b at.done_at), [])
    | raised ↦ (set_breaker m p.provider_name (record_failure b at.done_at), [])
  ]

  -- The body of the loop for one provider.
  pub visit : Manager O → Provider O → Moment → Text → TargetType → Lookup O
  unfolding breaker_of limiter_of set_limiter call_provider
  visit m p at target target_type =
      let name = p.provider_name in
      let (b, allowed) = allow_request (breaker_of m name at.asked_at) at.asked_at in
      let m' = set_limiter (set_breaker m name b) name (limiter_of m name at.asked_at) in
      if allowed
      then (let (l, granted) = acquire (limiter_of m name at.asked_at) at.acquired_at in
          let m'' = set_limiter m' name l in
          if granted
          then (let (called, found) = call_provider m'' b p at target target_type in
              record { manager = called; observations = found; consulted = name ∷ [] })
          else record { manager = m''; observations = []; consulted = [] })
      else record { manager = m'; observations = []; consulted = [] }

  -- The loop, with the moment of each visit by its position.
  pub visit_all : Manager O → List (Provider O) → (ℕ → Moment) → Text → TargetType → Lookup O
  unfolding visit
  visit_all m [] at target target_type = record { manager = m; observations = []; consulted = [] }
  visit_all m (p ∷ ps) at target target_type =
      let first = visit m p (at 0) target target_type in
      let rest = visit_all first.manager ps (λ n. at (n + 1)) target target_type in
      record {
        manager = rest.manager;
        observations = first.observations ++ rest.observations;
        consulted = first.consulted ++ rest.consulted;
      }

  pub get_all_providers : Manager O → List (Provider O)
  get_all_providers m = map (λ entry. entry.1) m.providers

  module _ (lower : Text → Text) where
    pub register : Manager O → Provider O → Manager O
    register m p = record m { providers = put (lower p.provider_name) p m.providers }

    pub get_provider : Manager O → Text → Option (Provider O)
    get_provider m name = lookup (lower name) m.providers

    -- `none` is the `KeyError` of a cache of size 0.
    pub lookup_indicator : Manager O → Text → TargetType → ℕ → (ℕ → Moment) → ℕ → Option (Lookup O)
    unfolding visit_all get_all_providers
    lookup_indicator m target target_type read_at at stored_at =
        let key = cache_key lower target target_type in
        let (cache, cached) = ReputationCache.get m.cache key read_at in
        let m' = record m { cache = cache } in
        let found = visit_all m' (get_all_providers m') at (strip target) target_type in
        elim cached [
          | some observations ↦
              some (record { manager = m'; observations = observations; consulted = [] })
          | none ↦ elim (put_entry found.manager.cache key found.observations stored_at) [
            | none ↦ none
            | some stored ↦
                some (record found { manager = record found.manager { cache = stored } })
          ]
        ]
