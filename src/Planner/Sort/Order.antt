-- ===== src/Planner/Sort/Order.antt =====
-- From the run of the algorithm to the order of the steps.
use mathlib.Core.Path.{sym, subst}
use email_analysis_agent.Prelude.{
  ℕ, ◌+◌, ◌≤◌, ◌≡◌, refl, true, String, some, List, [], ◌∷◌, ◌==◌, string_eq, length, arith,
  eq_self, Bool-cases, Option-cases, All, inl, inr,
}
use email_analysis_agent.Dict.{Dict, lookup, has, remove, lookup-remove, has-eq-false}
use email_analysis_agent.Dict.Sweep.{has-remove, lookup-eq-none}
use email_analysis_agent.Planner.Step.{Step, ids}
use email_analysis_agent.Planner.Sort.{
  targets, sort, roots, predecessors, graph_of, priority_in, step_map_onto, steps_at, node_order,
}
use email_analysis_agent.Planner.Sort.Kahn.{count, count-sort, pending, Invariant}
use email_analysis_agent.Planner.Sort.Progress.{one_if, Ordered, Settled, kahn-Settled}
use email_analysis_agent.Planner.Sort.Edges.{
  Sound, add_steps-Sound, count-roots, weight, total, targets-add_steps,
}
use email_analysis_agent.Planner.Sort.Nodes.{
  is_id, bare, bare-Sound, targets-bare, Filed, ids-Known, predecessors-closed, length-fill-le,
}

-- Every step that a dependency of a step stands for comes before it.
abbrev pub InOrder : (String → List String) → List String → List Step → Type 0
InOrder preds seen [] = Unit
InOrder preds seen (s ∷ rest) =
    All (λ dep. All (λ m. 1 ≤ count m seen) (preds dep)) s.dependencies
    × InOrder preds (s.step_id ∷ seen) rest

pub graph-Sound :
    (steps : List Step) → Sound (is_id steps) (length (bare steps).adj) (graph_of steps)
unfolding graph_of
graph-Sound steps =
    add_steps-Sound (is_id steps) (length (bare steps).adj) (predecessors steps)
      (predecessors-closed steps) steps (bare steps) (ids-Known steps) (bare-Sound steps)

pub graph-targets :
    (m n : String) (steps : List Step)
    → count n (targets m (graph_of steps).adj) ≡ total (predecessors steps) m n steps
unfolding graph_of count
graph-targets m n steps =
    ground
      (arith, targets-add_steps (predecessors steps) m n steps (bare steps), targets-bare m steps)

graph-Invariant :
    (p : String → ℕ) (steps : List Step)
    → let g = graph_of steps in Invariant g.adj (sort p (roots g.in_degree)) g.in_degree g.adj
graph-Invariant p steps =
    let g = graph_of steps in
    let s = graph-Sound steps in
    record {
      unique = s.unique_adj;
      edges = λ m h. refl;
      degrees = s.degrees;
      taken = λ n h. ground (arith, s.adj_nodes n, s.degree_nodes n, lookup-eq-none n g.in_degree);
      queued = λ n. ground (
        arith,
        count-sort p n (roots g.in_degree),
        count-roots n g.in_degree s.unique_degrees,
        s.adj_nodes n,
        s.degree_nodes n,
      );
    }

pub node_order-Settled :
    (steps : List Step)
    → (nodes : List String) × (final : Dict String (List String)) × (node_order steps ≡ some nodes)
      × Settled (graph_of steps).adj (graph_of steps).adj nodes final
unfolding node_order
node_order-Settled steps =
    let g = graph_of steps in
    let p = priority_in (step_map_onto [] steps) in
    kahn-Settled g.adj p (length steps) (sort p (roots g.in_degree)) g.in_degree g.adj
      (omega (arith, (graph-Sound steps).lengths, length-fill-le {V = List String} [] [] steps))
      (graph-Invariant p steps)

targets-pending-le :
    (n m : String) (rem : Dict String (List String)) → count n (targets m rem) ≤ pending n rem
unfolding count pending lookup
targets-pending-le n m [] = omega arith
targets-pending-le n m ((k, ns) ∷ rem) = ground (arith, targets-pending-le n m rem)

-- A node comes after every node with an edge to it.
module _ (adj : Dict String (List String)) where
  -- The nodes that are not left have been seen.
  abbrev pub Seen : Dict String (List String) → List String → Type 0
  Seen rem seen = (m : String) → 1 ≤ one_if (has m adj) → 1 ≤ one_if (has m rem) + count m seen

  abbrev pub Before : List String → List String → Type 0
  Before seen [] = Unit
  Before seen (n ∷ ns) =
      ((m : String) → 1 ≤ count n (targets m adj) → 1 ≤ count m seen) × Before (n ∷ seen) ns

  pub Ordered-Before :
      (rem : Dict String (List String)) (seen nodes : List String)
      → ((m : String) → has m rem ≡ true → targets m rem ≡ targets m adj)
      → Seen rem seen
      → Ordered rem nodes
      → Before seen nodes
  unfolding count
  Ordered-Before rem seen [] e h o = tt
  Ordered-Before rem seen (n ∷ ns) e h o = (
    λ m w. ground (arith, w, h m, e m, o.0, targets-pending-le n m rem, lookup-eq-none m adj),
    Ordered-Before (remove n rem) (n ∷ seen) ns
        (λ m left. ground (arith, has-remove n m rem, lookup-remove n m rem, e m))
        (λ m known. ground (arith, has-remove n m rem, string_eq.same_iff n m, h m)) o.1,
  )

pub All-counted {κ} :
    (P : String → Type κ) (xs : List String) → ((n : String) → 1 ≤ count n xs → P n) → All P xs
unfolding count
All-counted P [] f = tt
All-counted P (x ∷ xs) f =
    (f x (ground (arith, eq_self x)), All-counted P xs (λ n h. f n (ground (arith, h))))

module _ (preds : String → List String) where
  deps-All {κ} :
      (Q : String → Type κ) (deps : List String)
      → ((m : String) → 1 ≤ weight preds m deps → Q m)
      → All (λ dep. All Q (preds dep)) deps
  unfolding weight
  deps-All Q [] f = tt
  deps-All Q (dep ∷ deps) f = (
    All-counted Q (preds dep) (λ m h. f m (omega (arith, h))),
    deps-All Q deps (λ m h. f m (omega (arith, h))),
  )

  -- A step's dependencies count among the edges to its id.
  abbrev pub Heavy : (String → String → ℕ) → Step → Type 0
  Heavy f s = (m : String) → weight preds m s.dependencies ≤ f m s.step_id

  pub All-Heavy :
      (f : String → String → ℕ) (steps : List Step)
      → ((m n : String) → total preds m n steps ≤ f m n)
      → All (Heavy f) steps
  unfolding total
  All-Heavy f [] h = tt
  All-Heavy f (s ∷ steps) h = (
    λ m. ground (arith, eq_self s.step_id, h m s.step_id),
    All-Heavy f steps (λ m n. ground (arith, h m n)),
  )

  Filed-lookup {κ} :
      (P : Step → Type κ) (n : String) (s : Step) (d : Dict String Step)
      → All (Filed P) d
      → lookup n d ≡ some s
      → (s.step_id ≡ n) × P s
  unfolding lookup
  Filed-lookup P n s [] h e = absurd (ground (arith, e))
  Filed-lookup P n s ((k, t) ∷ d) h e = elim (Bool-cases (k == n)) [
    | inl same ↦
        let value : t ≡ s = ground (arith, e, same) in
        rw (sym value, sym ((string_eq.same_iff k n).0 same)) h.0
    | inr other ↦ Filed-lookup P n s d h.1 (ground (arith, e, other))
  ]

  steps_at-cons :
      (d : Dict String Step) (n : String) (s : Step) (nodes : List String)
      → lookup n d ≡ some s
      → steps_at d (n ∷ nodes) ≡ s ∷ steps_at d nodes
  unfolding steps_at
  steps_at-cons d n s nodes found = rw (steps_at, found) refl

  pub Before-InOrder :
      (adj : Dict String (List String)) (f : String → String → ℕ) (d : Dict String Step)
      (seen nodes : List String)
      → ((m n : String) → f m n ≡ count n (targets m adj))
      → All (Filed (Heavy f)) d
      → All (λ n. has n d ≡ true) nodes
      → Before adj seen nodes
      → InOrder preds seen (steps_at d nodes) × (ids (steps_at d nodes) ≡ nodes)
  unfolding steps_at
  Before-InOrder adj f d seen [] e h k b = (tt, refl)
  Before-InOrder adj f d seen (n ∷ nodes) e h k b = elim (Option-cases (lookup n d)) [
    | inl missing ↦ absurd (ground (arith, missing, has-eq-false n d missing, k.0))
    | inr (s, found) ↦
        let (same, heavy) = Filed-lookup (Heavy f) n s d h found in
        let ih = Before-InOrder adj f d (n ∷ seen) nodes e h k.1 b.1 in
        let first =
          deps-All (λ m. 1 ≤ count m seen) s.dependencies
            (λ m w. b.0 m (ground (arith, w, heavy m, e m n, same))) in
        let after = subst (λ k. InOrder preds (k ∷ seen) (steps_at d nodes)) (sym same) ih.0 in
        rw (steps_at-cons d n s nodes found) ((first, after), ground (arith, same, ih.1))
  ]
