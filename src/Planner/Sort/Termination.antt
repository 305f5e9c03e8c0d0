-- ===== src/Planner/Sort/Termination.antt =====
-- A plan without a circle sorts: nothing is left of a graph that a ranking orders.
use mathlib.Core.Path.{subst}
use email_analysis_agent.Prelude.{
  ℕ, zero, suc, ◌+◌, ◌≤◌, ◌<◌, ◌≡◌, refl, true, String, List, [], ◌∷◌, leb, ◌==◌, string_eq, arith,
  eq_self, Bool-cases, All, inl, inr, ◌⊎◌,
}
use email_analysis_agent.Dict.{Dict, lookup, has}
use email_analysis_agent.Dict.Sweep.{Unique}
use email_analysis_agent.Planner.Step.{Step, ids}
use email_analysis_agent.Planner.Sort.{
  targets, predecessors, graph_of, steps_at, sorted, topological_sort,
}
use email_analysis_agent.Planner.Sort.Kahn.{count, pending}
use email_analysis_agent.Planner.Sort.Progress.{Settled}
use email_analysis_agent.Planner.Sort.Edges.{weight, total}
use email_analysis_agent.Planner.Sort.Nodes.{length-fill_distinct}
use email_analysis_agent.Planner.Sort.Order.{graph-Sound, graph-targets, node_order-Settled}
use email_analysis_agent.Planner.Sort.Result.{step_map, length-steps_at}

-- A ranking under which every step is above the steps that its dependencies stand for.
abbrev pub Ranked : (String → ℕ) → (String → List String) → List Step → Type 0
Ranked rank preds =
    All (λ s. All (λ dep. All (λ m. rank m < rank s.step_id) (preds dep)) s.dependencies)

leb-cases : (a b : ℕ) → (a ≤ b) ⊎ (b < a)
leb-cases a b = elim (Bool-cases (leb a b)) [
  | inl yes_le ↦ inl (ground (arith, yes_le))
  | inr no_le ↦ inr (ground (arith, no_le))
]

All-count-one :
    (P : String → Type 0) (n : String) (xs : List String) → All P xs → 1 ≤ count n xs → P n
unfolding count
All-count-one P n [] h c = absurd (omega (arith, c))
All-count-one P n (x ∷ xs) h c = elim (Bool-cases (x == n)) [
  | inl same ↦ subst P ((string_eq.same_iff x n).0 same) h.0
  | inr other ↦ All-count-one P n xs h.1 (ground (arith, c, other))
]

module _ (preds : String → List String) (rank : String → ℕ) where
  Ranked-weight :
      (n m : String) (deps : List String)
      → All (λ dep. All (λ m. rank m < rank n) (preds dep)) deps
      → 1 ≤ weight preds m deps
      → rank m < rank n
  unfolding weight
  Ranked-weight n m [] h w = absurd (omega (arith, w))
  Ranked-weight n m (dep ∷ deps) h w = elim (leb-cases 1 (count m (preds dep))) [
    | inl here ↦ All-count-one (λ m. rank m < rank n) m (preds dep) h.0 here
    | inr none_here ↦ Ranked-weight n m deps h.1 (omega (arith, w, none_here))
  ]

  Ranked-total :
      (n m : String) (steps : List Step)
      → Ranked rank preds steps
      → 1 ≤ total preds m n steps
      → rank m < rank n
  unfolding total
  Ranked-total n m [] h w = absurd (omega (arith, w))
  Ranked-total n m (t ∷ steps) h w = ground (
    arith,
    w,
    string_eq.same_iff t.step_id n,
    Ranked-weight t.step_id m t.dependencies h.0,
    Ranked-total n m steps h.1,
  )

-- An edge that is left comes from a node that is left.
source :
    (n : String) (d : Dict String (List String))
    → Unique d
    → 1 ≤ pending n d
    → (m : String) × (has m d ≡ true) × (1 ≤ count n (targets m d))
unfolding has pending lookup
source n [] u w = absurd (omega (arith, w))
source n ((k, ns) ∷ d) u w = elim (leb-cases 1 (count n ns)) [
  | inl here ↦ (k, ground (arith, eq_self k), ground (arith, eq_self k, here))
  | inr none_here ↦
      let (m, left, edge) = source n d u.1 (omega (arith, w, none_here)) in
      (m, ground (arith, left), ground (arith, left, edge, u.0, string_eq.same_iff k m))
]

no_keys : (d : Dict String (List String)) → ((n : String) → has n d ≡ true → ⊥) → d ≡ []
unfolding has
no_keys [] h = refl
no_keys ((k, ns) ∷ d) h = absurd (h k (ground (arith, eq_self k)))

module _ (steps : List Step) (nodes : List String) (final : Dict String (List String))
    (s : Settled (graph_of steps).adj (graph_of steps).adj nodes final) (rank : String → ℕ)
    (ranked : Ranked rank (predecessors steps) steps) where
  nothing-left : (k : ℕ) (n : String) → has n final ≡ true → k ≤ rank n
  nothing-left zero n left = omega arith
  nothing-left (suc k) n left =
      let (m, from, edge) = source n final s.left_unique (s.waiting n left) in
      let lower = nothing-left k m from in
      ground (
        arith,
        lower,
        edge,
        s.left_edges m from,
        graph-targets m n steps,
        Ranked-total (predecessors steps) rank n m steps ranked,
      )

  final-empty : final ≡ []
  final-empty = no_keys final (λ n left. omega (arith, nothing-left (rank n + 1) n left))

-- A plan sorts if no two of its steps have the same id and a ranking puts every step above the steps
-- that its dependencies stand for.
pub topological_sort-returns :
    (rank : String → ℕ) (steps : List Step)
    → ((n : String) → count n (ids steps) ≤ 1)
    → Ranked rank (predecessors steps) steps
    → (result : List Step) × (topological_sort steps ≡ sorted result)
unfolding topological_sort has
topological_sort-returns rank steps distinct ranked =
    let (nodes, final, eq, s) = node_order-Settled steps in
    let made = steps_at (step_map steps) nodes in
    (
      made,
      ground (
        arith,
        eq,
        final-empty steps nodes final s rank ranked,
        s.lengths,
        (graph-Sound steps).lengths,
        length-fill_distinct {V = List String} [] [] steps (λ n. omega (arith, distinct n)),
        length-steps_at steps nodes final s,
      ),
    )
