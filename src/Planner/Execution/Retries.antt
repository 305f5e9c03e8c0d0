-- ===== src/Planner/Execution/Retries.antt =====
-- The attempts at a step.
use mathlib.Core.Path.{◌∙◌}
use email_analysis_agent.Prelude.{
  ℕ, zero, suc, ◌+◌, ◌≤◌, ◌≡◌, refl, Bool, true, false, String, none, some, nat_eq, string_eq,
  if◌then◌else◌, arith, inl, inr, ◌⊎◌,
}
use email_analysis_agent.Planner.Step.{Step, at_most}
use email_analysis_agent.Planner.Sort.Kahn.{count}
use email_analysis_agent.Planner.Execution.{
  failed, Runtime, Attempt, done, not_done, StepOutcome, retry_loop, execute_step_with_retries,
  completed_at, failed_at, tool_failed,
}

Attempt-cases :
    {Result : Type 0} (a : Attempt Result)
    → ((result : Result) × (a ≡ done result)) ⊎ ((message : String) × (a ≡ not_done message))
Attempt-cases (done result) = inl (result, refl)
Attempt-cases (not_done message) = inr (message, refl)

abbrev pub is_not_done : {Result : Type 0} → Attempt Result → Bool
is_not_done (done _) = false
is_not_done (not_done _) = true

module _ {State Result : Type 0} (r : Runtime State Result) (s : Step) (state : State) where
  -- The attempts from one on, so many, all come to nothing.
  unfoldable pub all_fail : ℕ → ℕ → Bool
  all_fail made zero = true
  all_fail made (suc n) =
      let rest = all_fail (made + 1) n in
      if is_not_done (r.attempt s.tool state made) then rest else false

  all_fail-suc :
      (made n : ℕ)
      → is_not_done (r.attempt s.tool state made) ≡ true
      → all_fail (made + 1) n ≡ true
      → all_fail made (n + 1) ≡ true
  unfolding all_fail
  all_fail-suc made n bad rest = ground (arith, bad, rest)

  abbrev pub Outcome : StepOutcome Result → ℕ → ℕ → Type 0
  Outcome o left made =
      ((n : ℕ) × (k : ℕ) × (result : Result) × (n ≤ left)
        × (k ≡ made + n)
        × (all_fail made n ≡ true)
        × (r.attempt s.tool state k ≡ done result)
        × (o ≡ completed_at r s k result))
      ⊎ ((all_fail made (left + 1) ≡ true)
          × (o.outcome.status ≡ failed)
          × (o.outcome.retry_count ≡ made + left)
          × (o.tool_result ≡ none))

  retry_loop-Outcome :
      (left made : ℕ)
      → s.can_wait ≡ true
      → (o : StepOutcome Result) × (retry_loop r s state left made ≡ some o) × Outcome o left made
  unfolding retry_loop all_fail
  retry_loop-Outcome zero made waits = elim (Attempt-cases (r.attempt s.tool state made)) [
    | inl (result, ok) ↦ (
      completed_at r s made result,
      rw (retry_loop, ok) refl,
      inl (0, made, result, omega arith, omega arith, refl, ok, refl),
    )
    | inr (message, bad) ↦ (
      failed_at r s made (tool_failed message),
      rw (retry_loop, bad) refl,
      inr (ground (arith, bad), refl, omega arith, refl),
    )
  ]
  retry_loop-Outcome (suc left) made waits = elim (Attempt-cases (r.attempt s.tool state made)) [
    | inl (result, ok) ↦ (
      completed_at r s made result,
      rw (retry_loop, ok) refl,
      inl (0, made, result, omega arith, omega arith, refl, ok, refl),
    )
    | inr (message, bad) ↦
        let (o, loops, out) = retry_loop-Outcome left (made + 1) waits in
        (
          o,
          rw (retry_loop, bad, waits) loops,
          elim out [
            | inl (n, k, result, few, at, fails, ok, eq) ↦ inl (
              n + 1,
              k,
              result,
              omega (arith, few),
              omega (arith, at),
              all_fail-suc made n (rw bad refl) fails,
              ok,
              eq,
            )
            | inr (fails, status, count, nothing) ↦
                inr (ground (arith, bad, fails), status, omega (arith, count), nothing)
          ],
        )
  ]

limited_loop :
    {State Result : Type 0} (r : Runtime State Result) (s : Step) (state : State) (limit : ℕ)
    → r.has_tool s.tool ≡ true
    → s.max_retries ≡ at_most limit
    → execute_step_with_retries r s state ≡ retry_loop r s state limit 0
unfolding execute_step_with_retries
limited_loop r s state limit known limited = ground (arith, known, limited)

-- A step whose tool is registered, whose limit is a number and whose delay can be waited for is tried
-- until an attempt completes, at most as often as its limit allows, and its record counts the attempts
-- before that one; it fails only if every attempt that is allowed comes to nothing.
pub execute_step_with_retries-first :
    {State Result : Type 0} (r : Runtime State Result) (s : Step) (state : State) (limit : ℕ)
    → r.has_tool s.tool ≡ true
    → s.max_retries ≡ at_most limit
    → s.can_wait ≡ true
    → (o : StepOutcome Result) × (execute_step_with_retries r s state ≡ some o)
      × Outcome r s state o limit 0
execute_step_with_retries-first r s state limit known limited waits =
    let (o, loops, out) = retry_loop-Outcome r s state limit 0 waits in
    (o, limited_loop r s state limit known limited ∙ loops, out)
