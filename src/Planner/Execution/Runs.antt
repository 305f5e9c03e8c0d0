-- ===== src/Planner/Execution/Runs.antt =====
-- A run of the loop of `execute_plan`, taken apart into its steps, and the records of the steps.
use email_analysis_agent.Prelude.{
  ℕ, zero, suc, ◌+◌, ◌≡◌, refl, Bool, String, Option, some, List, ◌∷◌, arith, string_eq,
  Option-cases, Bool-cases, inl, inr, ◌⊎◌,
}
use email_analysis_agent.Dict.{Dict, put}
use email_analysis_agent.Planner.Step.{Step, RetryLimit, at_most, not_a_number}
use email_analysis_agent.Planner.Execution.{
  Status, Runtime, StepRecord, StepOutcome, retry_loop, attempt_once, execute_step_with_retries,
  run_step, run_steps,
}

-- A run over a first step and others that raises nothing.
pub record Cons {State Result : Type 0} (r : Runtime State Result)
    (cancel_requested : ℕ → Option Bool) (sorted_steps : List Step) (k : ℕ) (s : Step)
    (steps : List Step) (state final : State) (d statuses : Dict String Status)
    (records : List StepRecord) : Type 0 where
  pub entry : StepRecord
  pub after : State
  pub rest : List StepRecord
  pub runs : run_step r cancel_requested sorted_steps k s state d ≡ some (entry, after)
  pub goes_on :
      run_steps r cancel_requested sorted_steps (k + 1) steps after (put s.step_id entry.status d)
      ≡ some (rest, final, statuses)
  pub all : records ≡ entry ∷ rest

module _ {State Result : Type 0} (r : Runtime State Result) (cancel_requested : ℕ → Option Bool)
    (sorted_steps : List Step) where
  pub run_steps-Cons :
      (k : ℕ) (s : Step) (steps : List Step) (state final : State) (d statuses : Dict String Status)
      (records : List StepRecord)
      → run_steps r cancel_requested sorted_steps k (s ∷ steps) state d
        ≡ some (records, final, statuses)
      → Cons r cancel_requested sorted_steps k s steps state final d statuses records
  unfolding run_steps
  run_steps-Cons k s steps state final d statuses records ran =
      elim (Option-cases (run_step r cancel_requested sorted_steps k s state d)) [
        | inl nothing ↦ absurd (ground (arith, ran, nothing))
        | inr ((entry, after), runs) ↦
            let d' = put s.step_id entry.status d in
            elim (Option-cases (run_steps r cancel_requested sorted_steps (k + 1) steps after d')) [
              | inl nothing ↦ absurd (ground (arith, ran, runs, nothing))
              | inr ((rest, final', statuses'), goes_on) ↦ record {
                entry = entry;
                after = after;
                rest = rest;
                runs = runs;
                goes_on = ground (arith, ran, runs, goes_on);
                all = ground (arith, ran, runs, goes_on);
              }
            ]
      ]

pub RetryLimit-cases : (m : RetryLimit) → ((n : ℕ) × (m ≡ at_most n)) ⊎ (m ≡ not_a_number)
RetryLimit-cases (at_most n) = inl (n, refl)
RetryLimit-cases not_a_number = inr refl

-- The record of a step names the step and its tool.
abbrev pub Names : StepRecord → Step → Type 0
Names entry s = (entry.step_id ≡ s.step_id) × (entry.tool_name ≡ s.tool)

module _ {State Result : Type 0} (r : Runtime State Result) (s : Step) (state : State) where
  retry_loop-Names :
      (left made : ℕ) (o : StepOutcome Result)
      → retry_loop r s state left made ≡ some o
      → Names o.outcome s
  unfolding retry_loop
  retry_loop-Names zero made o h = ground (arith, h)
  retry_loop-Names (suc left) made o h =
      elim (Option-cases (retry_loop r s state left (made + 1))) [
        | inl nothing ↦ ground (arith, h, nothing)
        | inr (o', again) ↦ ground (arith, h, again, retry_loop-Names left (made + 1) o' again)
      ]

  execute_step-Names :
      (o : StepOutcome Result) → execute_step_with_retries r s state ≡ some o → Names o.outcome s
  unfolding execute_step_with_retries attempt_once
  execute_step-Names o h = elim (RetryLimit-cases s.max_retries) [
    | inl (n, limited) ↦ elim (Bool-cases (r.has_tool s.tool)) [
      | inl known ↦ retry_loop-Names n 0 o (ground (arith, h, known, limited))
      | inr unknown ↦ ground (arith, h, unknown)
    ]
    | inr odd ↦ ground (arith, h, odd)
  ]

  pub run_step-Names :
      (cancel_requested : ℕ → Option Bool) (sorted_steps : List Step) (k : ℕ) (after : State)
      (d : Dict String Status) (entry : StepRecord)
      → run_step r cancel_requested sorted_steps k s state d ≡ some (entry, after)
      → Names entry s
  unfolding run_step
  run_step-Names cancel_requested sorted_steps k after d entry h =
      elim (Option-cases (execute_step_with_retries r s state)) [
        | inl nothing ↦ ground (arith, h, nothing)
        | inr (o, done) ↦ ground (arith, h, done, execute_step-Names o done)
      ]
