-- ===== src/Planner/Execution.antt =====
-- `execute_plan` and `_execute_step_with_retries` of src/planner/orchestration.py. The registry, the
-- tools, the evaluators of conditions and the agent's state are an interface; the caller's request to
-- cancel is asked once for every step, and answers by the number of steps before it. It and the
-- evaluators may raise, and so may a retry policy with values that are no numbers: the exception
-- leaves `execute_plan`, and is `none` in the parts. Times, costs and the wording of messages are left
-- out.
pub mod Dependents
pub mod Counts
pub mod Runs
pub mod Retries
pub mod Returns
use email_analysis_agent.Prelude.{
  ℕ, zero, suc, ◌+◌, Bool, true, false, ◌||◌, String, Option, none, some, List, [], ◌∷◌, ◌==◌, Eq,
  nat_eq, string_eq, if◌then◌else◌, length,
}
use email_analysis_agent.Dict.{Dict, lookup, put}
use email_analysis_agent.Planner.Step.{Step, at_most, not_a_number}
use email_analysis_agent.Planner.Sort.{topological_sort, Sorting, sorted, circular, out_of_fuel}

-- `StepExecutionStatus`
pub data Status : Type 0 where
  pending running completed failed skipped cancelled retrying : Status

-- `error_message`
pub data Message : Type 0 where
  cancelled_by_caller dependency_failed : Message
  conditions_not_met : List String → Message
  tool_not_found : String → Message
  tool_failed : String → Message

pub record StepRecord : Type 0 where
  pub step_id : String
  pub tool_name : String
  pub status : Status
  pub error_message : Option Message
  pub retry_count : ℕ

-- What `execute_with_handling` comes to: a result with the status COMPLETED, or the message of a
-- result with another status or of an exception.
pub data Attempt (Result : Type 0) : Type 0 where
  done : Result → Attempt Result
  not_done : String → Attempt Result

pub record Runtime (State Result : Type 0) : Type 0 where
  pub has_tool : String → Bool
  pub attempt : String → State → ℕ → Attempt Result
  -- the evaluator answers `none` if it raises
  pub condition : String → Option (State → Option Bool)
  -- `none` if it raises
  pub with_tool_result : Step → Result → State → Option State
  pub propagation_error : State → State
  pub execution_error : Step → Message → State → State

-- What `_execute_step_with_retries` returns.
pub record StepOutcome (Result : Type 0) : Type 0 where
  pub outcome : StepRecord
  pub tool_result : Option Result

abbrev pub record_of : Step → Status → Option Message → ℕ → StepRecord
record_of s status message retries = record {
  step_id = s.step_id;
  tool_name = s.tool;
  status = status;
  error_message = message;
  retry_count = retries;
}

module _ {State Result : Type 0} (r : Runtime State Result) where
  abbrev pub completed_at : Step → ℕ → Result → StepOutcome Result
  completed_at s retries result = record {
    outcome = record_of s completed none retries;
    tool_result = some result;
  }

  abbrev pub failed_at : Step → ℕ → Message → StepOutcome Result
  failed_at s retries message = record {
    outcome = record_of s failed (some message) retries;
    tool_result = none;
  }

  -- The loop: so many retries are left, and so many have been made. `delay > 0` and the sleep are
  -- reached only if a retry is left.
  unfoldable pub retry_loop : Step → State → ℕ → ℕ → Option (StepOutcome Result)
  retry_loop s state zero retries = elim (r.attempt s.tool state retries) [
    | done result ↦ some (completed_at s retries result)
    | not_done message ↦ some (failed_at s retries (tool_failed message))
  ]
  retry_loop s state (suc left) retries = elim (r.attempt s.tool state retries) [
    | done result ↦ some (completed_at s retries result)
    | not_done _ ↦
        let again = retry_loop s state left (retries + 1) in if s.can_wait then again else none
  ]

  -- The loop with a limit that `retry_count` cannot be compared with.
  unfoldable pub attempt_once : Step → State → Option (StepOutcome Result)
  attempt_once s state = elim (r.attempt s.tool state 0) [
    | done result ↦ some (completed_at s 0 result)
    | not_done _ ↦ none
  ]

  unfoldable pub execute_step_with_retries : Step → State → Option (StepOutcome Result)
  execute_step_with_retries s state =
      if r.has_tool s.tool
      then elim s.max_retries [
        | at_most n ↦ retry_loop s state n 0
        | not_a_number ↦ attempt_once s state
      ]
      else some (failed_at s 0 (tool_not_found s.tool))

  -- The loop over the conditions; one without an evaluator is not met.
  unfoldable pub conditions_met : List String → State → Option Bool
  conditions_met [] state = some true
  conditions_met (c ∷ conditions) state = elim (r.condition c) [
    | none ↦ some false
    | some evaluator ↦
        let rest = conditions_met conditions state in
        elim (evaluator state) [ none ↦ none | some holds ↦ if holds then rest else some false ]
  ]

  -- The state after a step was tried.
  unfoldable pub propagate : Step → StepOutcome Result → State → State
  propagate s o state = elim o.outcome.status [
    | completed ↦ elim o.tool_result [
      | none ↦ r.propagation_error state
      | some result ↦ elim (r.with_tool_result s result state) [
        | none ↦ r.propagation_error state
        | some state' ↦ state'
      ]
    ]
    | failed ↦ elim o.outcome.error_message [
      | none ↦ r.execution_error s (tool_failed "Tool execution failed.") state
      | some message ↦ r.execution_error s message state
    ]
    | _ ↦ state
  ]

-- The first step with this tool.
unfoldable pub step_with_tool : String → List Step → Option Step
step_with_tool tool [] = none
step_with_tool tool (s ∷ steps) =
    let rest = step_with_tool tool steps in if s.tool == tool then some s else rest

unfoldable pub dep_status : List Step → Dict String Status → String → Option Status
dep_status sorted_steps status_map dep = elim (lookup dep status_map) [
  | some status ↦ some status
  | none ↦ elim (step_with_tool dep sorted_steps) [
    | none ↦ none
    | some other ↦ lookup other.step_id status_map
  ]
]

-- `dep_status in (FAILED, CANCELLED)`
unfoldable pub stops : Option Status → Bool
stops (some failed) = true
stops (some cancelled) = true
stops _ = false

unfoldable pub dep_failed : List Step → Dict String Status → List String → Bool
dep_failed sorted_steps status_map [] = false
dep_failed sorted_steps status_map (dep ∷ deps) =
    stops (dep_status sorted_steps status_map dep) || dep_failed sorted_steps status_map deps

module _ {State Result : Type 0} (r : Runtime State Result) (cancel_requested : ℕ → Option Bool)
    (sorted_steps : List Step) where
  -- The body of the loop: the record of a step, and the state after it.
  unfoldable pub run_step : ℕ → Step → State → Dict String Status → Option (StepRecord × State)
  run_step k s state status_map = elim (cancel_requested k) [
    | none ↦ none
    | some asked ↦
        if asked
        then some (record_of s cancelled (some cancelled_by_caller) 0, state)
        else if dep_failed sorted_steps status_map s.dependencies
        then some (record_of s cancelled (some dependency_failed) 0, state)
        else elim (conditions_met r s.conditions state) [
          | none ↦ none
          | some met ↦
              if met
              then elim (execute_step_with_retries r s state) [
                | none ↦ none
                | some o ↦ some (o.outcome, propagate r s o state)
              ]
              else some (record_of s skipped (some (conditions_not_met s.conditions)) 0, state)
        ]
  ]

  unfoldable pub run_steps :
      ℕ
      → List Step
      → State
      → Dict String Status
      → Option (List StepRecord × State × Dict String Status)
  run_steps k [] state status_map = some ([], state, status_map)
  run_steps k (s ∷ steps) state status_map = elim (run_step k s state status_map) [
    | none ↦ none
    | some (entry, state') ↦
        elim (run_steps (k + 1) steps state' (put s.step_id entry.status status_map)) [
          | none ↦ none
          | some (records, final, statuses) ↦ some (entry ∷ records, final, statuses)
        ]
  ]

-- `status == ...`
abbrev pub status_code : Status → ℕ
status_code pending = 0
status_code running = 1
status_code completed = 2
status_code failed = 3
status_code skipped = 4
status_code cancelled = 5
status_code retrying = 6

-- `sum(r.status == ... for r in records)`
unfoldable pub count_status : Status → List StepRecord → ℕ
count_status status [] = 0
count_status status (entry ∷ records) =
    let rest = count_status status records in
    if status_code entry.status == status_code status then rest + 1 else rest

pub record Summary : Type 0 where
  pub total_steps : ℕ
  pub executed_steps : ℕ
  pub completed_steps : ℕ
  pub failed_steps : ℕ
  pub skipped_steps : ℕ
  pub cancelled_steps : ℕ
  pub records : List StepRecord

pub record PlanResult (State : Type 0) : Type 0 where
  pub state : State
  pub summary : Summary
  pub success : Bool

unfoldable pub summarize : ℕ → List StepRecord → Summary
summarize total records = record {
  total_steps = total;
  executed_steps = count_status completed records + count_status failed records;
  completed_steps = count_status completed records;
  failed_steps = count_status failed records;
  skipped_steps = count_status skipped records;
  cancelled_steps = count_status cancelled records;
  records = records;
}

-- What a call of `execute_plan` comes to.
pub data PlanRun (State : Type 0) : Type 0 where
  returned : PlanResult State → PlanRun State
  raised : PlanRun State
  -- of the model only: the sort always has fuel enough
  unsorted : PlanRun State

abbrev pub refused : {State : Type 0} → State → List Step → PlanResult State
refused state steps = record {
  state = state;
  summary = summarize (length steps) [];
  success = false;
}

unfoldable pub execute_plan :
    {State Result : Type 0}
    → Runtime State Result
    → (ℕ → Option Bool)
    → State
    → List Step
    → PlanRun State
execute_plan r cancel_requested state steps = elim (topological_sort steps) [
  | out_of_fuel ↦ unsorted
  | circular ↦ returned (refused state steps)
  | sorted sorted_steps ↦ elim (run_steps r cancel_requested sorted_steps 0 sorted_steps state []) [
    | none ↦ raised
    | some (records, final, _) ↦
        let summary = summarize (length steps) records in
        returned record { state = final; summary = summary; success = summary.failed_steps == 0 }
  ]
]
