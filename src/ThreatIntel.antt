-- ===== src/ThreatIntel.antt =====
-- Threat intelligence lookups (src/threat_intel): circuit breaker, rate limiter, cache, manager.
pub mod CircuitBreaker
pub mod RateLimiter
pub mod ReputationCache
pub mod Manager
