-- ===== src/Planner/Sort/Result.antt =====
-- What the sort of a plan returns.
use mathlib.Core.Path.{sym, subst}
use email_analysis_agent.Prelude.{
  ℕ, ◌+◌, ◌≤◌, ◌≡◌, refl, true, false, String, List, [], ◌∷◌, ltb, string_eq, length, arith,
  Bool-cases, All, inl, inr, ◌⊎◌,
}
use email_analysis_agent.Dict.{Dict, has}
use email_analysis_agent.Planner.Step.{Step, ids}
use email_analysis_agent.Planner.Sort.{
  predecessors, graph_of, step_map_onto, steps_at, sorted, circular, topological_sort,
}
use email_analysis_agent.Planner.Sort.Kahn.{count}
use email_analysis_agent.Planner.Sort.Progress.{Settled}
use email_analysis_agent.Planner.Sort.Edges.{total}
use email_analysis_agent.Planner.Sort.Nodes.{
  step_map-Filed, has-step_map, fill-distinct, length-fill-le,
}
use email_analysis_agent.Planner.Sort.Order.{
  InOrder, graph-Sound, graph-targets, node_order-Settled, Ordered-Before, Heavy, All-Heavy,
  Before-InOrder, All-counted,
}

abbrev pub step_map : List Step → Dict String Step
step_map steps = step_map_onto [] steps

length-ids : (xs : List Step) → length (ids xs) ≡ length xs
length-ids [] = refl
length-ids (s ∷ xs) = omega (arith, length-ids xs)

has-empty : (n : String) (d : Dict String (List String)) → length d ≡ 0 → has n d ≡ false
unfolding has
has-empty n [] h = refl
has-empty n (_ ∷ d) h = absurd (omega (arith, h))

-- The run of the algorithm on the steps, and what it leaves.
module _ (steps : List Step) (nodes : List String) (final : Dict String (List String))
    (s : Settled (graph_of steps).adj (graph_of steps).adj nodes final) where
  nodes-known : All (λ n. has n (step_map steps) ≡ true) nodes
  unfolding has
  nodes-known =
      All-counted (λ n. has n (step_map steps) ≡ true) nodes
        (λ n h.
          ground (arith, h, s.counts n, (graph-Sound steps).adj_nodes n, has-step_map n [] steps))

  steps-InOrder :
      InOrder (predecessors steps) [] (steps_at (step_map steps) nodes)
      × (ids (steps_at (step_map steps) nodes) ≡ nodes)
  unfolding count
  steps-InOrder =
      let adj = (graph_of steps).adj in
      let preds = predecessors steps in
      let f : String → String → ℕ = λ m n. total preds m n steps in
      Before-InOrder preds adj f (step_map steps) [] nodes
        (λ m n. ground (arith, graph-targets m n steps))
        (step_map-Filed (Heavy preds f) [] steps (All-Heavy preds f steps (λ m n. omega arith)) tt)
        nodes-known
        (Ordered-Before adj adj [] nodes (λ m h. refl) (λ m h. omega (arith, h)) s.order)

  lengths_agree : length nodes + length final ≤ length steps
  lengths_agree =
      omega (
        arith,
        s.lengths,
        (graph-Sound steps).lengths,
        length-fill-le {V = List String} [] [] steps,
      )

  pub length-steps_at : length (steps_at (step_map steps) nodes) ≡ length nodes
  length-steps_at = ground (arith, length-ids (steps_at (step_map steps) nodes), steps-InOrder.1)

  at_most_one : (n : String) → count n nodes ≤ 1
  at_most_one n = ground (arith, s.counts n)

  -- With as many nodes as steps, nothing is left, and no id stands twice.
  all-taken : (n : String) → length steps ≤ length nodes → count n nodes ≡ count n (ids steps)
  unfolding has count
  all-taken n enough = ground (
    arith,
    enough,
    s.counts n,
    s.lengths,
    (graph-Sound steps).lengths,
    (graph-Sound steps).adj_nodes n,
    fill-distinct {V = List String} [] n [] steps,
    lengths_agree,
    has-empty n final,
  )

-- A sort that returns gives every id as often as the plan has it, and puts a step behind every step
-- that one of its dependencies stands for, by id or by the name of the tool.
pub topological_sort-InOrder :
    (steps result : List Step) (n : String)
    → topological_sort steps ≡ sorted result
    → InOrder (predecessors steps) [] result × (count n (ids result) ≡ count n (ids steps))
unfolding topological_sort
topological_sort-InOrder steps result n h =
    let (nodes, final, eq, s) = node_order-Settled steps in
    let made = steps_at (step_map steps) nodes in
    let (ordered, same) = steps-InOrder steps nodes final s in
    elim (Bool-cases (ltb (length made) (length steps))) [
      | inl short ↦ absurd (ground (arith, h, eq, short))
      | inr full ↦
          let found : made ≡ result = ground (arith, h, eq, full) in
          let enough : length steps ≤ length nodes =
            ground (arith, full, length-steps_at steps nodes final s) in
          (
            subst (InOrder (predecessors steps) []) found ordered,
            ground (arith, sym found, same, all-taken steps nodes final s n enough),
          )
    ]

-- Only a plan in which no id stands twice sorts.
pub topological_sort-distinct :
    (steps result : List Step) (n : String)
    → topological_sort steps ≡ sorted result
    → count n (ids result) ≤ 1
unfolding topological_sort has
topological_sort-distinct steps result n h =
    let (nodes, final, eq, s) = node_order-Settled steps in
    let made = steps_at (step_map steps) nodes in
    let (ordered, same) = steps-InOrder steps nodes final s in
    elim (Bool-cases (ltb (length made) (length steps))) [
      | inl short ↦ absurd (ground (arith, h, eq, short))
      | inr full ↦
          let found : made ≡ result = ground (arith, h, eq, full) in
          ground (arith, sym found, same, at_most_one steps nodes final s n)
    ]

-- As many steps come back as the plan has.
pub topological_sort-length :
    (steps result : List Step)
    → topological_sort steps ≡ sorted result
    → length result ≡ length steps
unfolding topological_sort
topological_sort-length steps result h =
    let (nodes, final, eq, s) = node_order-Settled steps in
    let made = steps_at (step_map steps) nodes in
    elim (Bool-cases (ltb (length made) (length steps))) [
      | inl short ↦ absurd (ground (arith, h, eq, short))
      | inr full ↦
          let found : made ≡ result = ground (arith, h, eq, full) in
          ground (
            arith,
            sym found,
            full,
            length-steps_at steps nodes final s,
            lengths_agree steps nodes final s,
          )
    ]

-- The sort always comes to an end: it returns, or it reports a circle.
pub topological_sort-ends :
    (steps : List Step)
    → ((result : List Step) × (topological_sort steps ≡ sorted result))
      ⊎ (topological_sort steps ≡ circular)
unfolding topological_sort
topological_sort-ends steps =
    let (nodes, final, eq, s) = node_order-Settled steps in
    let made = steps_at (step_map steps) nodes in
    elim (Bool-cases (ltb (length made) (length steps))) [
      | inl short ↦ inr (ground (arith, eq, short))
      | inr full ↦ inl (made, ground (arith, eq, full))
    ]
