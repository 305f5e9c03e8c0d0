-- ===== src/ThreatIntel/CircuitBreaker/Trips.antt =====
-- When the breaker opens, whom it lets through while it is open, and how it closes again.
use email_analysis_agent.Prelude.{
  ℕ, ◌+◌, ◌*◌, ◌≤◌, ◌<◌, ◌≡◌, Bool, true, false, List, [], ◌∷◌, leb, ltb, length, if◌then◌else◌,
  arith, All, Bool-cases, inl, inr,
}
use email_analysis_agent.ThreatIntel.CircuitBreaker.{
  CircuitState, closed, open_, half_open, Breaker, new, allow_request, record_success,
  record_failure, Attempt, attempt, run,
}

-- A closed breaker is below its threshold, and any other has reached it.
abbrev CountFits : CircuitState → ℕ → ℕ → Type 0
CountFits closed count threshold = count < threshold
CountFits open_ count threshold = threshold ≤ count
CountFits half_open count threshold = threshold ≤ count

pub record IsValid (b : Breaker) : Type 0 where
  pub positive : 0 < b.failure_threshold
  pub fits : CountFits b.state b.failure_count b.failure_threshold

pub new-IsValid : (threshold timeout now : ℕ) → 0 < threshold → IsValid (new threshold timeout now)
unfolding new
new-IsValid threshold timeout now h = ground arith

-- Every use of the breaker, at any times and with any outcome, keeps it valid.
pub attempt-IsValid : (b : Breaker) (a : Attempt) → IsValid b → IsValid (attempt b a).0
unfolding attempt allow_request record_success record_failure
attempt-IsValid b a v = ground arith

-- The breaker as an automaton: the state after an attempt, and whether the provider is called.
pub next_state : CircuitState → Breaker → Attempt → CircuitState
next_state closed b a =
    if a.succeeds
    then closed
    else if ltb (b.failure_count + 1) b.failure_threshold
    then closed
    else open_
next_state open_ b a =
    if ltb a.asked_at (b.last_state_change + b.recovery_timeout)
    then open_
    else if a.succeeds
    then closed
    else open_
next_state half_open b a = if a.succeeds then closed else open_

pub admits : CircuitState → Breaker → Attempt → Bool
admits open_ b a = leb (b.last_state_change + b.recovery_timeout) a.asked_at
admits _ b a = true

-- On a valid breaker every attempt follows the automaton. Closed, it calls the provider, and opens
-- when the failures in a row reach the threshold. Open, it refuses until the timeout has passed
-- since it opened. After that, and half open, it calls the provider, and one success closes it and
-- one failure opens it.
pub attempt-next_state :
    (b : Breaker) (a : Attempt)
    → IsValid b
    → ((attempt b a).0.state ≡ next_state b.state b a) × ((attempt b a).1 ≡ admits b.state b a)
unfolding attempt allow_request record_success record_failure next_state admits
attempt-next_state b a v = ground arith

abbrev pub Fails : Attempt → Type 0
Fails a = (a.succeeds ≡ false) × (a.asked_at ≤ a.done_at)

failing-step :
    (b : Breaker) (a : Attempt)
    → b.state ≡ open_
    → IsValid b
    → Fails a
    → ((attempt b a).0.state ≡ open_)
      × ((attempt b a).0.recovery_timeout ≡ b.recovery_timeout)
      × (b.last_state_change + (if (attempt b a).1 then b.recovery_timeout else 0)
          ≤ (attempt b a).0.last_state_change)
unfolding attempt allow_request record_success record_failure
failing-step b a o v f = ground arith

-- A valid open breaker whose provider keeps failing stays open, and the calls that it lets through
-- are spaced by the recovery timeout: `n` of them take at least `n` timeouts. No attempt may end
-- before it begins.
pub run-spaced :
    (b : Breaker) (attempts : List Attempt)
    → b.state ≡ open_
    → IsValid b
    → All Fails attempts
    → ((run b attempts).0.state ≡ open_)
      × (b.last_state_change + (run b attempts).1 * b.recovery_timeout
          ≤ (run b attempts).0.last_state_change)
unfolding run
run-spaced b [] o v f = ground arith
run-spaced b (a ∷ rest) o v f =
    let (still, timeout, later) = failing-step b a o v f.0 in
    let (open_still, spaced) = run-spaced (attempt b a).0 rest still (attempt-IsValid b a v) f.1 in
    let spaced' = rw timeout at spaced in
    elim (Bool-cases (attempt b a).1) [
      | inl called ↦ rw called (open_still, omega (arith, rw called at later, spaced'))
      | inr refused ↦ rw refused (open_still, omega (arith, rw refused at later, spaced'))
    ]

closed-failing :
    (b : Breaker) (a : Attempt)
    → b.state ≡ closed
    → IsValid b
    → a.succeeds ≡ false
    → ((attempt b a).1 ≡ true)
      × ((attempt b a).0.failure_count ≡ b.failure_count + 1)
      × ((attempt b a).0.failure_threshold ≡ b.failure_threshold)
      × ((attempt b a).0.state
          ≡ (if leb b.failure_threshold (b.failure_count + 1) then open_ else closed))
unfolding attempt allow_request record_failure
closed-failing b a c v f = ground arith

-- From a valid closed breaker, failures in a row that do not bring the count above the threshold
-- all reach the provider, and the breaker is open after them exactly if they have brought the count
-- to the threshold.
pub run-trips :
    (b : Breaker) (attempts : List Attempt)
    → b.state ≡ closed
    → IsValid b
    → All Fails attempts
    → b.failure_count + length attempts ≤ b.failure_threshold
    → ((run b attempts).1 ≡ length attempts)
      × ((run b attempts).0.state
          ≡ (if leb b.failure_threshold (b.failure_count + length attempts) then open_ else closed))
unfolding run
run-trips b [] c v f h = ground arith
run-trips b (a ∷ []) c v f h = ground (arith, closed-failing b a c v f.0.0)
run-trips b (a ∷ a' ∷ rest) c v f h =
    let (called, count, threshold, state) = closed-failing b a c v f.0.0 in
    let closed_still : (attempt b a).0.state ≡ closed = ground (arith, state) in
    ground (
      arith,
      called,
      count,
      threshold,
      run-trips (attempt b a).0 (a' ∷ rest) closed_still (attempt-IsValid b a v) f.1
          (omega (arith, count, threshold)),
    )
