-- ===== src/Planner/Tests.antt =====
-- Runs of plans, and the theorems on them at inputs that meet their conditions.
use mathlib.Core.Path.{sym}
use email_analysis_agent.Prelude.{
  ℕ, ◌+◌, ◌≤◌, ◌≡◌, refl, Bool, true, false, String, Option, none, some, List, [], ◌∷◌, ltb, arith,
  ◌==◌, nat_eq, ◌&&◌, Bool-cases, inl, inr, string_eq, if◌then◌else◌,
}
use email_analysis_agent.Dict.{lookup, has, put}
use email_analysis_agent.Dict.Sweep.{member}
use email_analysis_agent.Planner.Step.{Step, ids, at_most, not_a_number}
use email_analysis_agent.Planner.Sort.{
  predecessors, topological_sort, sorted, node_order, graph_of, add_steps, add_dependencies,
  add_edges, add_edge, resolve, step_map_onto, tool_ids_onto, fill, roots, sort, insert, kahn,
  release, priority_in, steps_at,
}
use email_analysis_agent.Planner.Sort.Kahn.{count}
use email_analysis_agent.Planner.Sort.Order.{InOrder}
use email_analysis_agent.Planner.Sort.Result.{topological_sort-InOrder}
use email_analysis_agent.Planner.Sort.Termination.{Ranked, topological_sort-returns}
use email_analysis_agent.Planner.Execution.{
  failed, StepRecord, record_of, tool_failed, dependency_failed, summarize, count_status,
  dep_status, cancelled, Attempt, done, not_done, Runtime, execute_plan, execute_step_with_retries,
  PlanResult, Message, run_steps, run_step, dep_failed, conditions_met, retry_loop, propagate,
  stops, StepOutcome, returned, refused, raised, attempt_once,
}
use email_analysis_agent.Planner.Execution.Dependents.{
  statuses_of, statuses_onto, execute_plan-dependents,
}
use email_analysis_agent.Planner.Execution.Retries.{Outcome, execute_step_with_retries-first}

-- The second step is named after its tool, and the first depends on that tool.
abbrev url_step : Step
url_step = record {
  tool = "url_tool";
  priority = 1;
  step_id = "urls";
  dependencies = "parse" ∷ [];
  conditions = [];
  max_retries = at_most 0;
  can_wait = true;
}

abbrev parse_step : Step
parse_step = record {
  tool = "parser";
  priority = 2;
  step_id = "parse";
  dependencies = [];
  conditions = [];
  max_retries = at_most 2;
  can_wait = true;
}

abbrev plan : List Step
plan = url_step ∷ parse_step ∷ []

plan_sorts : topological_sort plan ≡ sorted (parse_step ∷ url_step ∷ [])
unfolding topological_sort node_order graph_of add_steps add_dependencies add_edges add_edge
    predecessors resolve step_map_onto tool_ids_onto fill roots sort insert kahn release priority_in
    steps_at lookup has put
plan_sorts = refl

-- The parser completes at its third attempt if the state is one, and never otherwise.
abbrev attempt : String → ℕ → ℕ → Attempt ℕ
attempt tool state k =
    if tool == "parser" then (if state == 1 && ltb 1 k then done k else not_done "busy") else done 7

abbrev no_condition : String → Option (ℕ → Option Bool)
no_condition c = none

abbrev every_tool : String → Bool
every_tool tool = true

abbrev record_result : Step → ℕ → ℕ → Option ℕ
record_result s result state = some (state + result)

abbrev record_propagation : ℕ → ℕ
record_propagation state = state

abbrev keep_state : Step → Message → ℕ → ℕ
keep_state s m state = state

abbrev tools : Runtime ℕ ℕ
tools = record {
  has_tool = every_tool;
  attempt = attempt;
  condition = no_condition;
  with_tool_result = record_result;
  propagation_error = record_propagation;
  execution_error = keep_state;
}

abbrev never : ℕ → Option Bool
never k = some false

topological_sort-InOrder_example :
    InOrder (predecessors plan) [] (parse_step ∷ url_step ∷ [])
    × (count "urls" (ids (parse_step ∷ url_step ∷ [])) ≡ count "urls" (ids plan))
topological_sort-InOrder_example =
    topological_sort-InOrder plan (parse_step ∷ url_step ∷ []) "urls" plan_sorts

abbrev rank : String → ℕ
rank n = if n == "urls" then 1 else 0

plan-distinct : (n : String) → count n (ids plan) ≤ 1
unfolding count
plan-distinct n = elim (Bool-cases ("urls" == n)) [
  | inl first ↦ rw (sym ((string_eq.same_iff "urls" n).0 first)) (omega arith)
  | inr other ↦ ground (arith, other)
]

plan-Ranked : Ranked rank (predecessors plan) plan
unfolding predecessors resolve step_map_onto tool_ids_onto lookup has put
plan-Ranked = ground arith

topological_sort-returns_example : (result : List Step) × (topological_sort plan ≡ sorted result)
topological_sort-returns_example = topological_sort-returns rank plan plan-distinct plan-Ranked

execute_step_with_retries-first_example :
    (o : StepOutcome ℕ) × (execute_step_with_retries tools parse_step 1 ≡ some o)
    × Outcome tools parse_step 1 o 2 0
execute_step_with_retries-first_example =
    execute_step_with_retries-first tools parse_step 1 2 refl refl refl

abbrev parse_record : StepRecord
parse_record = record_of parse_step failed (some (tool_failed "busy")) 2

abbrev url_record : StepRecord
url_record = record_of url_step cancelled (some dependency_failed) 0

abbrev broken : PlanResult ℕ
broken = record {
  state = 0;
  summary = summarize 2 (parse_record ∷ url_record ∷ []);
  success = false;
}

plan_breaks : execute_plan tools never 0 plan ≡ returned broken
unfolding execute_plan summarize count_status run_steps run_step dep_failed dep_status
    conditions_met execute_step_with_retries retry_loop propagate lookup put stops topological_sort
    node_order graph_of add_steps add_dependencies add_edges add_edge predecessors resolve
    step_map_onto tool_ids_onto fill roots sort insert kahn release priority_in steps_at has
plan_breaks = refl

parse_fails : stops (lookup "parse" (statuses_of broken.summary.records)) ≡ true
unfolding statuses_onto summarize lookup put stops
parse_fails = refl

parse_known : has "parse" (step_map_onto [] plan) ≡ true
unfolding has step_map_onto put
parse_known = refl

waits_for_parse : member {K = String} "parse" ("parse" ∷ []) ≡ true
unfolding member
waits_for_parse = refl

execute_plan-dependents_example :
    lookup "urls" (statuses_of broken.summary.records) ≡ some cancelled
execute_plan-dependents_example =
    execute_plan-dependents tools never 0 plan (parse_step ∷ []) [] url_step "parse" broken
      plan_sorts plan_breaks waits_for_parse parse_known parse_fails

abbrev nothing_run : PlanResult ℕ
nothing_run = refused 0 plan

-- An evaluator that raises ends the run.
abbrev raising_condition : String → Option (ℕ → Option Bool)
raising_condition c = some (λ state. none)

raising_ends :
    execute_plan
      (record tools { condition = raising_condition })
      never
      0
      (record parse_step { conditions = "c" ∷ [] } ∷ [])
    ≡ raised
unfolding execute_plan run_steps run_step dep_failed conditions_met topological_sort node_order
    graph_of add_steps add_dependencies add_edges add_edge predecessors resolve step_map_onto
    tool_ids_onto fill roots sort insert kahn release priority_in steps_at lookup has put
raising_ends = refl

-- So does a limit that is no number, once an attempt has failed.
odd_limit_ends :
    execute_step_with_retries tools (record parse_step { max_retries = not_a_number }) 0 ≡ none
unfolding execute_step_with_retries attempt_once
odd_limit_ends = refl
