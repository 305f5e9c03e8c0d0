-- ===== src/ThreatIntel/RateLimiter/Bucket.antt =====
-- The token bucket: what it holds, and how many queries it grants.
use email_analysis_agent.Prelude.{
  ℕ, ◌+◌, ◌-◌, ◌*◌, ◌≤◌, ◌≡◌, List, [], ◌∷◌, if◌then◌else◌, arith, ap, Bool-cases, inl, inr,
}
use email_analysis_agent.ThreatIntel.RateLimiter.{token, Limiter, acquire, run}

abbrev pub IsValid : Limiter → Type 0
IsValid l = l.tokens ≤ l.max_queries * token

-- Clock readings that do not go back.
abbrev pub Ordered : ℕ → List ℕ → Type 0
Ordered from [] = Unit
Ordered from (now ∷ later) = (from ≤ now) × Ordered now later

refill_split : (a b m : ℕ) → a ≤ b → (b - a) * m + a * m ≡ b * m
refill_split a b m h =
    let whole : b - a + a ≡ b = omega arith in omega (arith, ap (λ (t : ℕ). t * m) whole)

acquire_facts :
    (l : Limiter) (now : ℕ)
    → IsValid l
    → l.last_refill ≤ now
    → IsValid (acquire l now).0
      × ((acquire l now).0.max_queries ≡ l.max_queries)
      × ((acquire l now).0.last_refill ≡ now)
      × ((acquire l now).0.tokens
            + (if (acquire l now).1 then token else 0)
            + l.last_refill * l.max_queries
          ≤ l.tokens + now * l.max_queries)
unfolding acquire
acquire_facts l now v h = ground (arith, refill_split l.last_refill now l.max_queries h)

-- Over any run of acquisitions at times that do not go back, the bucket never holds more than its
-- capacity, and what is granted is paid for: with `t₀` and `t₁` the refill times before and after
-- the run, the grants and the tokens left at `t₁` are at most the tokens held at `t₀` and a refill
-- of `max_queries` a minute from `t₀` to `t₁`.
pub run-paid :
    (l : Limiter) (times : List ℕ)
    → IsValid l
    → Ordered l.last_refill times
    → IsValid (run l times).0
      × ((run l times).1 * token + (run l times).0.tokens + l.last_refill * l.max_queries
          ≤ l.tokens + (run l times).0.last_refill * l.max_queries)
unfolding run
run-paid l [] v o = (v, omega arith)
run-paid l (now ∷ later) v o =
    let (valid, cap, refilled, paid) = acquire_facts l now v o.0 in
    let (v', paid') = run-paid (acquire l now).0 later valid (rw refilled o.1) in
    let later_paid = rw (cap, refilled) at paid' in
    elim (Bool-cases (acquire l now).1) [
      | inl granted ↦ rw granted (v', omega (arith, rw granted at paid, later_paid))
      | inr refused ↦ rw refused (v', omega (arith, rw refused at paid, later_paid))
    ]
