-- ===== src/ThreatIntel/RateLimiter.antt =====
-- `ProviderRateLimiter` of src/threat_intel/resilience/circuit_breaker.py, in exact arithmetic: one
-- token is `token` units, the microseconds of a minute, so that `max_queries / 60` tokens a second
-- are `max_queries` units a microsecond. (The source computes in floats.)
pub mod Bucket
mod Tests
use email_analysis_agent.Prelude.{
  ℕ, ◌+◌, ◌-◌, ◌*◌, Bool, true, false, min, leb, if◌then◌else◌, List, [], ◌∷◌,
}

abbrev pub token : ℕ
token = 60000000

pub record Limiter : Type 0 where
  pub max_queries : ℕ
  pub tokens : ℕ
  pub last_refill : ℕ

pub new : ℕ → ℕ → Limiter
new max_queries now = record {
  max_queries = max_queries;
  tokens = max_queries * token;
  last_refill = now;
}

pub acquire : Limiter → ℕ → Limiter × Bool
acquire l now =
    let elapsed = now - l.last_refill in
    let tokens = min (l.max_queries * token) (l.tokens + elapsed * l.max_queries) in
    if leb token tokens
    then (record l { tokens = tokens - token; last_refill = now }, true)
    else (record l { tokens = tokens; last_refill = now }, false)

-- A run of acquisitions, with the number of those granted.
pub run : Limiter → List ℕ → Limiter × ℕ
run l [] = (l, 0)
run l (now ∷ later) =
    let (l', granted) = acquire l now in
    let (l'', grants) = run l' later in (l'', if granted then grants + 1 else grants)
