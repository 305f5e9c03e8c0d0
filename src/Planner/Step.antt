-- ===== src/Planner/Step.antt =====
-- Steps of a plan (`ExecutionStep` of src/planner/models/planner.py): the fields that the orchestrator
-- reads, and what it takes from the retry policy, which may hold values of any type.
use email_analysis_agent.Prelude.{ℕ, Bool, String, List, map}

-- `max_retries`: a number, as the first natural number that is not below it (an infinite one, with
-- which the loop need not end, is left out), or a value that no number is compared with.
pub data RetryLimit : Type 0 where
  at_most : ℕ → RetryLimit
  not_a_number : RetryLimit

pub record Step : Type 0 where
  pub tool : String
  pub priority : ℕ
  pub step_id : String
  pub dependencies : List String
  pub conditions : List String
  pub max_retries : RetryLimit
  -- Whether `delay` can be compared with zero and slept for.
  pub can_wait : Bool

abbrev pub id_of : Step → String
id_of s = s.step_id

abbrev pub ids : List Step → List String
ids = map id_of
