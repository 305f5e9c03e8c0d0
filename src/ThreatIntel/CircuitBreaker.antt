-- ===== src/ThreatIntel/CircuitBreaker.antt =====
-- `ProviderCircuitBreaker` of src/threat_intel/resilience/circuit_breaker.py. Readings of
-- `time.monotonic` are arguments, in microseconds; so are the timeouts.
pub mod Trips
mod Tests
use email_analysis_agent.Prelude.{
  ℕ, ◌+◌, Bool, true, false, ◌&&◌, not, leb, if◌then◌else◌, List, [], ◌∷◌,
}

pub data CircuitState : Type 0 where
  closed open_ half_open : CircuitState

pub record Breaker : Type 0 where
  pub failure_threshold : ℕ
  pub recovery_timeout : ℕ
  pub state : CircuitState
  pub failure_count : ℕ
  pub last_state_change : ℕ

pub new : ℕ → ℕ → ℕ → Breaker
new threshold timeout now = record {
  failure_threshold = threshold;
  recovery_timeout = timeout;
  state = closed;
  failure_count = 0;
  last_state_change = now;
}

abbrev is_open : CircuitState → Bool
is_open open_ = true
is_open _ = false

-- `now - last_state_change >= recovery_timeout`, without the subtraction.
pub allow_request : Breaker → ℕ → Breaker × Bool
allow_request b now =
    if is_open b.state
    then (if leb (b.last_state_change + b.recovery_timeout) now
        then (record b { state = half_open; last_state_change = now }, true)
        else (b, false))
    else (b, true)

abbrev is_half_open : CircuitState → Bool
is_half_open half_open = true
is_half_open _ = false

pub record_success : Breaker → ℕ → Breaker
record_success b now =
    if is_half_open b.state
    then record b { state = closed; last_state_change = now; failure_count = 0 }
    else record b { failure_count = 0 }

pub record_failure : Breaker → ℕ → Breaker
record_failure b now =
    if leb b.failure_threshold (b.failure_count + 1) && not (is_open b.state)
    then record b { failure_count = b.failure_count + 1; state = open_; last_state_change = now }
    else record b { failure_count = b.failure_count + 1 }

-- One use of the breaker as `ThreatIntelManager.lookup_indicator` makes it: ask, and if the answer
-- is yes, call the provider and record how the call ended.
pub record Attempt : Type 0 where
  pub asked_at : ℕ
  pub done_at : ℕ
  pub succeeds : Bool

pub attempt : Breaker → Attempt → Breaker × Bool
attempt b a =
    let (b', allowed) = allow_request b a.asked_at in
    if allowed
    then ((if a.succeeds then record_success b' a.done_at else record_failure b' a.done_at), true)
    else (b', false)

-- A run of attempts, with the number of those that reach the provider.
pub run : Breaker → List Attempt → Breaker × ℕ
run b [] = (b, 0)
run b (a ∷ rest) =
    let (b', called) = attempt b a in
    let (b'', calls) = run b' rest in (b'', if called then calls + 1 else calls)
