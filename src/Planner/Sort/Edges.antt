-- ===== src/Planner/Sort/Edges.antt =====
-- The graph that the sort builds: its nodes, its degrees, and which edges it has.
use email_analysis_agent.Prelude.{
  ℕ, ◌+◌, ◌≡◌, refl, Bool, true, String, List, [], ◌∷◌, ◌++◌, ◌==◌, nat_eq, string_eq,
  if◌then◌else◌, length, arith, All,
}
use email_analysis_agent.Dict.{Dict, lookup, has, put, lookup-put, length-put}
use email_analysis_agent.Dict.Sweep.{Unique, has-put, put-Unique}
use email_analysis_agent.Planner.Step.{Step, ids}
use email_analysis_agent.Planner.Sort.{
  degree, targets, roots, Graph, add_edge, add_edges, add_dependencies, add_steps,
}
use email_analysis_agent.Planner.Sort.Kahn.{count, count-append, pending, ready}

pub record Sound (is_node : String → Bool) (size : ℕ) (g : Graph) : Type 0 where
  pub unique_adj : Unique g.adj
  pub unique_degrees : Unique g.in_degree
  pub adj_nodes : (n : String) → has n g.adj ≡ is_node n
  pub degree_nodes : (n : String) → has n g.in_degree ≡ is_node n
  pub degrees : (n : String) → degree n g.in_degree ≡ pending n g.adj
  pub lengths : length g.adj ≡ size

pending-put :
    (n m k : String) (adj : Dict String (List String))
    → pending n (put m (targets m adj ++ k ∷ []) adj)
      ≡ (if k == n then pending n adj + 1 else pending n adj)
unfolding pending put lookup count
pending-put n m k [] = ground arith
pending-put n m k ((j, ns) ∷ adj) =
    ground (arith, count-append n ns (k ∷ []), pending-put n m k adj)

module _ (is_node : String → Bool) (size : ℕ) where
  abbrev Node : String → Type 0
  Node n = is_node n ≡ true

  add_edge-Sound :
      (n m : String) (g : Graph)
      → Node n
      → Node m
      → Sound is_node size g
      → Sound is_node size (add_edge n m g)
  unfolding add_edge
  add_edge-Sound n m g hn hm s = record {
    unique_adj = put-Unique m (targets m g.adj ++ n ∷ []) g.adj s.unique_adj;
    unique_degrees = put-Unique n (degree n g.in_degree + 1) g.in_degree s.unique_degrees;
    adj_nodes = λ k. ground (
      arith,
      string_eq.same_iff m k,
      has-put m k (targets m g.adj ++ n ∷ []) g.adj,
      s.adj_nodes k,
    );
    degree_nodes = λ k. ground (
      arith,
      string_eq.same_iff n k,
      has-put n k (degree n g.in_degree + 1) g.in_degree,
      s.degree_nodes k,
    );
    degrees = λ k. ground (
      arith,
      string_eq.same_iff n k,
      lookup-put n k (degree n g.in_degree + 1) g.in_degree,
      pending-put k m n g.adj,
      s.degrees k,
    );
    lengths =
        ground (arith, length-put m (targets m g.adj ++ n ∷ []) g.adj, s.adj_nodes m, s.lengths);
  }

  add_edges-Sound :
      (n : String) (ms : List String) (g : Graph)
      → Node n
      → All Node ms
      → Sound is_node size g
      → Sound is_node size (add_edges n ms g)
  unfolding add_edges
  add_edges-Sound n [] g hn hs s = s
  add_edges-Sound n (m ∷ ms) g hn hs s =
      add_edges-Sound n ms (add_edge n m g) hn hs.1 (add_edge-Sound n m g hn hs.0 s)

  module _ (preds : String → List String) (closed : (dep : String) → All Node (preds dep)) where
    add_dependencies-Sound :
        (n : String) (deps : List String) (g : Graph)
        → Node n
        → Sound is_node size g
        → Sound is_node size (add_dependencies preds n deps g)
    unfolding add_dependencies
    add_dependencies-Sound n [] g hn s = s
    add_dependencies-Sound n (dep ∷ deps) g hn s =
        add_dependencies-Sound n deps (add_edges n (preds dep) g) hn
          (add_edges-Sound n (preds dep) g hn (closed dep) s)

    pub add_steps-Sound :
        (steps : List Step) (g : Graph)
        → All Node (ids steps)
        → Sound is_node size g
        → Sound is_node size (add_steps preds steps g)
    unfolding add_steps
    add_steps-Sound [] g h s = s
    add_steps-Sound (t ∷ steps) g h s =
        add_steps-Sound steps (add_dependencies preds t.step_id t.dependencies g) h.1
          (add_dependencies-Sound t.step_id t.dependencies g h.0 s)

-- The queue that the algorithm starts with.
pub count-roots :
    (n : String) (deg : Dict String ℕ)
    → Unique deg
    → count n (roots deg) ≡ ready (has n deg) (degree n deg)
unfolding count roots has lookup
count-roots n [] u = refl
count-roots n ((k, d) ∷ deg) u =
    ground (arith, string_eq.same_iff k n, nat_eq.same_iff d 0, count-roots n deg u.1)

-- How often a step with these dependencies waits for `m`.
module _ (preds : String → List String) where
  unfoldable pub weight : String → List String → ℕ
  weight m [] = 0
  weight m (dep ∷ deps) = count m (preds dep) + weight m deps

  -- How often the steps with id `n` wait for `m`.
  unfoldable pub total : String → String → List Step → ℕ
  total m n [] = 0
  total m n (s ∷ steps) =
      let rest = total m n steps in if s.step_id == n then weight m s.dependencies + rest else rest

  targets-add_edge :
      (j k n m : String) (g : Graph)
      → count k (targets j (add_edge n m g).adj) ≡ (
          if n == k
          then count j (m ∷ []) + count k (targets j g.adj)
          else count k (targets j g.adj))
  unfolding add_edge count
  targets-add_edge j k n m g = ground (
    arith,
    string_eq.same_iff m j,
    lookup-put m j (targets m g.adj ++ n ∷ []) g.adj,
    count-append k (targets m g.adj) (n ∷ []),
  )

  targets-add_edges :
      (j k n : String) (ms : List String) (g : Graph)
      → count k (targets j (add_edges n ms g).adj)
        ≡ (if n == k then count j ms + count k (targets j g.adj) else count k (targets j g.adj))
  unfolding add_edges count
  targets-add_edges j k n [] g = ground arith
  targets-add_edges j k n (m ∷ ms) g =
      ground (arith, targets-add_edges j k n ms (add_edge n m g), targets-add_edge j k n m g)

  targets-add_dependencies :
      (j k n : String) (deps : List String) (g : Graph)
      → count k (targets j (add_dependencies preds n deps g).adj)
        ≡ (if n == k then weight j deps + count k (targets j g.adj) else count k (targets j g.adj))
  unfolding add_dependencies weight
  targets-add_dependencies j k n [] g = ground arith
  targets-add_dependencies j k n (dep ∷ deps) g = ground (
    arith,
    targets-add_dependencies j k n deps (add_edges n (preds dep) g),
    targets-add_edges j k n (preds dep) g,
  )

  pub targets-add_steps :
      (j k : String) (steps : List Step) (g : Graph)
      → count k (targets j (add_steps preds steps g).adj)
        ≡ total j k steps + count k (targets j g.adj)
  unfolding add_steps total
  targets-add_steps j k [] g = omega arith
  targets-add_steps j k (s ∷ steps) g = ground (
    arith,
    targets-add_steps j k steps (add_dependencies preds s.step_id s.dependencies g),
    targets-add_dependencies j k s.step_id s.dependencies g,
  )
