-- ===== src/ThreatIntel/RateLimiter/Tests.antt =====
-- A limiter of two queries a minute, and the theorem about it.
use email_analysis_agent.Prelude.{ℕ, ◌+◌, ◌*◌, ◌≤◌, ◌≡◌, refl, List, [], ◌∷◌, arith}
use email_analysis_agent.ThreatIntel.RateLimiter.{token, Limiter, acquire, run}
use email_analysis_agent.ThreatIntel.RateLimiter.Bucket.{IsValid, run-paid}

abbrev two_a_minute : Limiter
two_a_minute = record { max_queries = 2; tokens = 2 * token; last_refill = 0 }

-- Half a minute pays for the third query.
abbrev times : List ℕ
times = 0 ∷ 1 ∷ 2 ∷ 30000000 ∷ []

third_waits : (run two_a_minute times).1 ≡ 3
unfolding run acquire
third_waits = refl

run-paid_example :
    IsValid (run two_a_minute times).0
    × ((run two_a_minute times).1 * token + (run two_a_minute times).0.tokens + 0 * 2
        ≤ 2 * token + (run two_a_minute times).0.last_refill * 2)
run-paid_example = run-paid two_a_minute times (omega arith) (omega arith)
