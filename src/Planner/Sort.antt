-- ===== src/Planner/Sort.antt =====
-- `_topological_sort` of src/planner/orchestration.py: Kahn's algorithm on the steps of a plan. The
-- dictionaries have every step's id as a key, so a missing key, a KeyError there, reads as no edges
-- and degree zero here. A dependency that names neither a step nor a tool of the plan adds no edge,
-- whether the history has completed it or not.
pub mod Kahn
pub mod Progress
pub mod Edges
pub mod Nodes
pub mod Order
pub mod Result
pub mod Termination
use email_analysis_agent.Prelude.{
  ℕ, zero, suc, ◌+◌, ◌-◌, Bool, String, Option, none, some, List, [], ◌∷◌, ◌++◌, leb, ltb, ◌==◌, Eq,
  nat_eq, string_eq, if◌then◌else◌, length,
}
use email_analysis_agent.Dict.{Dict, lookup, has, put}
use email_analysis_agent.Planner.Step.{Step}

abbrev pub or_zero : Option ℕ → ℕ
or_zero none = 0
or_zero (some n) = n

abbrev pub or_empty : Option (List String) → List String
or_empty none = []
or_empty (some xs) = xs

abbrev pub degree : String → Dict String ℕ → ℕ
degree n in_degree = or_zero (lookup n in_degree)

abbrev pub targets : String → Dict String (List String) → List String
targets m adj = or_empty (lookup m adj)

-- `step_map`: of two steps with one id, the last.
unfoldable pub step_map_onto : Dict String Step → List Step → Dict String Step
step_map_onto d [] = d
step_map_onto d (s ∷ steps) = step_map_onto (put s.step_id s d) steps

-- `tool_to_step_ids`
unfoldable pub tool_ids_onto : Dict String (List String) → List Step → Dict String (List String)
tool_ids_onto d [] = d
tool_ids_onto d (s ∷ steps) =
    tool_ids_onto (put s.tool (or_empty (lookup s.tool d) ++ s.step_id ∷ []) d) steps

-- `{s.step_id: x for s in steps}`
unfoldable pub fill {ℓ} : {V : Type ℓ} → V → Dict String V → List Step → Dict String V
fill x d [] = d
fill x d (s ∷ steps) = fill x (put s.step_id x d) steps

-- The ids of the steps that a dependency stands for.
unfoldable pub resolve : Dict String Step → Dict String (List String) → String → List String
resolve step_map tool_ids dep =
    if has dep step_map then dep ∷ [] else or_empty (lookup dep tool_ids)

-- The graph: the steps that wait for a step, and how many steps a step waits for.
pub record Graph : Type 0 where
  pub adj : Dict String (List String)
  pub in_degree : Dict String ℕ

unfoldable pub add_edge : String → String → Graph → Graph
add_edge n m g = record {
  adj = put m (targets m g.adj ++ n ∷ []) g.adj;
  in_degree = put n (degree n g.in_degree + 1) g.in_degree;
}

unfoldable pub add_edges : String → List String → Graph → Graph
add_edges n [] g = g
add_edges n (m ∷ ms) g = add_edges n ms (add_edge n m g)

module _ (preds : String → List String) where
  unfoldable pub add_dependencies : String → List String → Graph → Graph
  add_dependencies n [] g = g
  add_dependencies n (dep ∷ deps) g = add_dependencies n deps (add_edges n (preds dep) g)

  unfoldable pub add_steps : List Step → Graph → Graph
  add_steps [] g = g
  add_steps (s ∷ steps) g = add_steps steps (add_dependencies s.step_id s.dependencies g)

unfoldable pub predecessors : List Step → String → List String
predecessors steps = resolve (step_map_onto [] steps) (tool_ids_onto [] steps)

unfoldable pub graph_of : List Step → Graph
graph_of steps =
    add_steps (predecessors steps) steps
      record { adj = fill [] [] steps; in_degree = fill 0 [] steps }

-- `queue.sort(key=...)`, which is stable.
module _ (priority : String → ℕ) where
  unfoldable pub insert : String → List String → List String
  insert x [] = x ∷ []
  insert x (y ∷ ys) = if leb (priority x) (priority y) then x ∷ y ∷ ys else y ∷ insert x ys

  unfoldable pub sort : List String → List String
  sort [] = []
  sort (x ∷ xs) = insert x (sort xs)

-- `[sid for sid, degree in in_degree.items() if degree == 0]`
unfoldable pub roots : Dict String ℕ → List String
roots [] = []
roots ((n, d) ∷ in_degree) = let rest = roots in_degree in if d == 0 then n ∷ rest else rest

-- The loop over `adj[node]`: a degree of one is the one that the decrement makes zero.
unfoldable pub release : List String → List String × Dict String ℕ → List String × Dict String ℕ
release [] (queue, in_degree) = (queue, in_degree)
release (n ∷ ns) (queue, in_degree) =
    let d = degree n in_degree in
    release ns (if d == 1 then queue ++ n ∷ [] else queue, put n (d - 1) in_degree)

-- The loop on the queue; without fuel and with a queue there is no answer.
module _ (priority : String → ℕ) (adj : Dict String (List String)) where
  unfoldable pub kahn : ℕ → List String → Dict String ℕ → Option (List String)
  kahn fuel [] in_degree = some []
  kahn zero (node ∷ queue) in_degree = none
  kahn (suc fuel) (node ∷ queue) in_degree =
      let (queue', in_degree') = release (targets node adj) (queue, in_degree) in
      elim (kahn fuel (sort priority queue') in_degree') [
        | none ↦ none
        | some rest ↦ some (node ∷ rest)
      ]

-- `step_map[sid].priority`
unfoldable pub priority_in : Dict String Step → String → ℕ
priority_in step_map n = elim (lookup n step_map) [ none ↦ 0 | some s ↦ s.priority ]

-- `step_map[node]` for every node.
unfoldable pub steps_at : Dict String Step → List String → List Step
steps_at step_map [] = []
steps_at step_map (n ∷ ns) = elim (lookup n step_map) [
  | none ↦ steps_at step_map ns
  | some s ↦ s ∷ steps_at step_map ns
]

-- The steps in order, `ValueError`, or a model that stopped too early.
pub data Sorting : Type 0 where
  sorted : List Step → Sorting
  circular : Sorting
  out_of_fuel : Sorting

unfoldable pub node_order : List Step → Option (List String)
node_order steps =
    let g = graph_of steps in
    let priority = priority_in (step_map_onto [] steps) in
    kahn priority g.adj (length steps) (sort priority (roots g.in_degree)) g.in_degree

unfoldable pub topological_sort : List Step → Sorting
topological_sort steps = elim (node_order steps) [
  | none ↦ out_of_fuel
  | some nodes ↦
      let result = steps_at (step_map_onto [] steps) nodes in
      if ltb (length result) (length steps) then circular else sorted result
]
