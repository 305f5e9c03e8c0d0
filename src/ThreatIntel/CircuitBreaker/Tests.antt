-- ===== src/ThreatIntel/CircuitBreaker/Tests.antt =====
-- A breaker of threshold 3 and a timeout of 30 seconds, and the theorems about it.
use email_analysis_agent.Prelude.{ℕ, ◌+◌, ◌*◌, ◌≤◌, ◌≡◌, refl, true, false, [], ◌∷◌, arith}
use email_analysis_agent.ThreatIntel.CircuitBreaker.{
  closed, open_, Breaker, allow_request, record_success, record_failure, Attempt, attempt, run,
}
use email_analysis_agent.ThreatIntel.CircuitBreaker.Trips.{
  IsValid, next_state, admits, attempt-next_state, run-spaced,
}

abbrev fresh : Breaker
fresh = record {
  failure_threshold = 3;
  recovery_timeout = 30;
  state = closed;
  failure_count = 0;
  last_state_change = 0;
}

abbrev tripped : Breaker
tripped = record fresh { state = open_; failure_count = 3; last_state_change = 5 }

abbrev failure : ℕ → Attempt
failure t = record { asked_at = t; done_at = t + 2; succeeds = false }

abbrev success : ℕ → Attempt
success t = record { asked_at = t; done_at = t + 2; succeeds = true }

trips : run fresh (failure 0 ∷ failure 1 ∷ failure 3 ∷ []) ≡ (tripped, 3)
unfolding run attempt allow_request record_failure
trips = refl

recovers : (run tripped (failure 6 ∷ success 35 ∷ [])).0.state ≡ closed
unfolding run attempt allow_request record_success
recovers = refl

fresh-IsValid : IsValid fresh
fresh-IsValid = omega arith

tripped-IsValid : IsValid tripped
tripped-IsValid = omega arith

attempt-next_state_example :
    ((attempt tripped (failure 40)).0.state ≡ next_state open_ tripped (failure 40))
    × ((attempt tripped (failure 40)).1 ≡ admits open_ tripped (failure 40))
attempt-next_state_example = attempt-next_state tripped (failure 40) tripped-IsValid

run-spaced_example :
    ((run tripped (failure 6 ∷ failure 36 ∷ failure 70 ∷ [])).0.state ≡ open_)
    × (tripped.last_state_change + (run tripped (failure 6 ∷ failure 36 ∷ failure 70 ∷ [])).1 * 30
        ≤ (run tripped (failure 6 ∷ failure 36 ∷ failure 70 ∷ [])).0.last_state_change)
run-spaced_example =
    run-spaced tripped (failure 6 ∷ failure 36 ∷ failure 70 ∷ []) refl tripped-IsValid
      ((refl, omega arith), ((refl, omega arith), ((refl, omega arith), tt)))
