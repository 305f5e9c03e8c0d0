-- ===== src/ThreatIntel/Manager/Tests.antt =====
-- The theorems on the manager at inputs that meet their conditions.
use email_analysis_agent.Prelude.{ℕ, ◌≡◌, refl, none, some, [], ◌∷◌, arith}
use email_analysis_agent.Dict.{lookup}
use email_analysis_agent.Text.{Text, codes}
use email_analysis_agent.ThreatIntel.ReputationCache
use email_analysis_agent.ThreatIntel.ReputationCache.{Cache}
use email_analysis_agent.ThreatIntel.ReputationCache.Bounds.{IsValid}
use email_analysis_agent.ThreatIntel.Manager.{
  domain, observed, raised, Provider, Moment, Manager, Lookup, cache_key, lookup_indicator,
}
use email_analysis_agent.ThreatIntel.Manager.Caching.{lookup_indicator-returns}

abbrev otx : Provider ℕ
otx = record { provider_name = codes "otx"; lookup_at = λ now target type. raised }

abbrev whois : Provider ℕ
whois = record { provider_name = codes "whois"; lookup_at = λ now target type. observed 7 }

abbrev empty_cache : Cache ℕ
empty_cache = record { ttl_seconds = 300000000; max_size = 2; entries = [] }

abbrev manager : Manager ℕ
manager = record {
  providers = (codes "otx", otx) ∷ (codes "whois", whois) ∷ [];
  cache = empty_cache;
  circuit_breakers = [];
  rate_limiters = [];
}

abbrev at : ℕ → Moment
at n = record { asked_at = n; acquired_at = n; done_at = n }

abbrev same_case : Text → Text
same_case t = t

abbrev target : Text
target = codes "phish.com"

miss : (ReputationCache.get empty_cache (cache_key same_case target domain) 5).1 ≡ none
unfolding ReputationCache.get lookup
miss = refl

returned :
    (out : Lookup ℕ) × (lookup_indicator same_case manager target domain 5 at 9 ≡ some out)
    × IsValid out.manager.cache
returned =
    lookup_indicator-returns same_case manager target domain 5 at 9 (omega arith) (omega arith)

lookup_indicator-returns_example :
    (out : Lookup ℕ) × (lookup_indicator same_case manager target domain 5 at 9 ≡ some out)
    × IsValid out.manager.cache
lookup_indicator-returns_example =
    lookup_indicator-returns same_case manager target domain 5 at 9 (omega arith) (omega arith)
