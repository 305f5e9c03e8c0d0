-- ===== src/Planner/Sort/Nodes.antt =====
-- The dictionaries that the sort makes of the steps, and the steps that a dependency stands for.
use email_analysis_agent.Prelude.{
  ℕ, ◌+◌, ◌≤◌, ◌≡◌, refl, Bool, true, String, List, [], ◌∷◌, ◌++◌, ltb, ◌==◌, string_eq,
  if◌then◌else◌, length, arith, eq_self, Bool-cases, All, All-append, All-weaken, inl, inr,
}
use email_analysis_agent.Dict.{Dict, lookup, has, put, lookup-put, length-put}
use email_analysis_agent.Dict.Entries.{All-put}
use email_analysis_agent.Dict.Sweep.{Unique, has-put, put-Unique}
use email_analysis_agent.Planner.Step.{Step, ids}
use email_analysis_agent.Planner.Sort.{
  or_empty, targets, degree, fill, step_map_onto, tool_ids_onto, resolve, predecessors, Graph,
}
use email_analysis_agent.Planner.Sort.Kahn.{count, pending}
use email_analysis_agent.Planner.Sort.Progress.{one_if}
use email_analysis_agent.Planner.Sort.Edges.{Sound}

-- Is this the id of one of the steps?
abbrev pub is_id : List Step → String → Bool
is_id steps n = ltb 0 (count n (ids steps))

module _ {ℓ} {V : Type ℓ} (x : V) where
  has-fill :
      (n : String) (d : Dict String V) (steps : List Step)
      → has n (fill x d steps) ≡ (if has n d then true else is_id steps n)
  unfolding fill count
  has-fill n d [] = ground arith
  has-fill n d (s ∷ steps) =
      ground (arith, has-put s.step_id n x d, has-fill n (put s.step_id x d) steps)

  fill-Unique : (d : Dict String V) (steps : List Step) → Unique d → Unique (fill x d steps)
  unfolding fill
  fill-Unique d [] u = u
  fill-Unique d (s ∷ steps) u = fill-Unique (put s.step_id x d) steps (put-Unique s.step_id x d u)

  pub length-fill-le :
      (d : Dict String V) (steps : List Step) → length (fill x d steps) ≤ length d + length steps
  unfolding fill
  length-fill-le d [] = omega arith
  length-fill-le d (s ∷ steps) =
      ground (arith, length-put s.step_id x d, length-fill-le (put s.step_id x d) steps)

  -- As many entries as steps, only if no id stands twice.
  pub fill-distinct :
      (n : String) (d : Dict String V) (steps : List Step)
      → length d + length steps ≤ length (fill x d steps)
      → count n (ids steps) + one_if (has n d) ≤ 1
  unfolding fill count
  fill-distinct n d [] h = ground arith
  fill-distinct n d (s ∷ steps) h = ground (
    arith,
    length-put s.step_id x d,
    has-put s.step_id n x d,
    string_eq.same_iff s.step_id n,
    length-fill-le (put s.step_id x d) steps,
    fill-distinct n (put s.step_id x d) steps,
  )

  -- As many entries as steps, if no id stands twice.
  pub length-fill_distinct :
      (d : Dict String V) (steps : List Step)
      → ((n : String) → count n (ids steps) + one_if (has n d) ≤ 1)
      → length (fill x d steps) ≡ length d + length steps
  unfolding fill count
  length-fill_distinct d [] h = omega arith
  length-fill_distinct d (s ∷ steps) h = ground (
    arith,
    h s.step_id,
    eq_self s.step_id,
    length-put s.step_id x d,
    length-fill_distinct (put s.step_id x d) steps
        (λ n. ground (arith, has-put s.step_id n x d, h n)),
  )

-- The graph before any edge.
abbrev pub bare : List Step → Graph
bare steps = record { adj = fill [] [] steps; in_degree = fill 0 [] steps }

bare-targets :
    (m : String) (d : Dict String (List String)) (steps : List Step)
    → ((j : String) → targets j d ≡ [])
    → targets m (fill [] d steps) ≡ []
unfolding fill
bare-targets m d [] h = h m
bare-targets m d (s ∷ steps) h =
    bare-targets m (put s.step_id [] d) steps
      (λ j. ground (arith, lookup-put s.step_id j [] d, h j))

bare-degree :
    (m : String) (d : Dict String ℕ) (steps : List Step)
    → ((j : String) → degree j d ≡ 0)
    → degree m (fill 0 d steps) ≡ 0
unfolding fill
bare-degree m d [] h = h m
bare-degree m d (s ∷ steps) h =
    bare-degree m (put s.step_id 0 d) steps (λ j. ground (arith, lookup-put s.step_id j 0 d, h j))

pending-bare :
    (m k : String) (d : Dict String (List String)) → pending m d ≡ 0 → pending m (put k [] d) ≡ 0
unfolding pending put count
pending-bare m k [] h = refl
pending-bare m k ((j, ns) ∷ d) h = ground (arith, pending-bare m k d)

bare-pending :
    (m : String) (d : Dict String (List String)) (steps : List Step)
    → pending m d ≡ 0
    → pending m (fill [] d steps) ≡ 0
unfolding fill
bare-pending m d [] h = h
bare-pending m d (s ∷ steps) h =
    bare-pending m (put s.step_id [] d) steps (pending-bare m s.step_id d h)

pub bare-Sound : (steps : List Step) → Sound (is_id steps) (length (bare steps).adj) (bare steps)
unfolding has pending lookup
bare-Sound steps = record {
  unique_adj = fill-Unique [] [] steps tt;
  unique_degrees = fill-Unique 0 [] steps tt;
  adj_nodes = λ n. has-fill [] n [] steps;
  degree_nodes = λ n. has-fill 0 n [] steps;
  degrees = λ n. ground (arith, bare-degree n [] steps (λ j. refl), bare-pending n [] steps refl);
  lengths = refl;
}

pub targets-bare : (m : String) (steps : List Step) → targets m (bare steps).adj ≡ []
unfolding lookup
targets-bare m steps = bare-targets m [] steps (λ j. refl)

-- What `step_map` holds.
abbrev pub Filed {κ} : (Step → Type κ) → String × Step → Type κ
Filed P (n, s) = (s.step_id ≡ n) × P s

pub step_map-Filed {κ} :
    (P : Step → Type κ) (d : Dict String Step) (steps : List Step)
    → All P steps
    → All (Filed P) d
    → All (Filed P) (step_map_onto d steps)
unfolding step_map_onto
step_map-Filed P d [] h old = old
step_map-Filed P d (s ∷ steps) h old =
    step_map-Filed P (put s.step_id s d) steps h.1 (All-put (Filed P) s.step_id s d (refl, h.0) old)

pub has-step_map :
    (n : String) (d : Dict String Step) (steps : List Step)
    → has n (step_map_onto d steps) ≡ (if has n d then true else is_id steps n)
unfolding step_map_onto count
has-step_map n d [] = ground arith
has-step_map n d (s ∷ steps) =
    ground (arith, has-put s.step_id n s d, has-step_map n (put s.step_id s d) steps)

-- Every step that a dependency stands for is one of the plan.
module _ (is_node : String → Bool) where
  abbrev Known : String → Type 0
  Known n = is_node n ≡ true

  tool_ids-closed :
      (d : Dict String (List String)) (steps : List Step)
      → All Known (ids steps)
      → ((t : String) → All Known (or_empty (lookup t d)))
      → (t : String) → All Known (or_empty (lookup t (tool_ids_onto d steps)))
  unfolding tool_ids_onto
  tool_ids-closed d [] h old t = old t
  tool_ids-closed d (s ∷ steps) h old t =
      let found = or_empty (lookup s.tool d) ++ s.step_id ∷ [] in
      tool_ids-closed (put s.tool found d) steps h.1
        (λ k. elim (Bool-cases (s.tool == k)) [
          | inl same ↦
              rw (lookup-put s.tool k found d, same)
                (All-append Known (or_empty (lookup s.tool d)) (s.step_id ∷ []) (old s.tool)
                  (h.0, tt))
          | inr other ↦ rw (lookup-put s.tool k found d, other) (old k)
        ])
        t

All-count : (xs : List String) → All (λ n. ltb 0 (count n xs) ≡ true) xs
unfolding count
All-count [] = tt
All-count (x ∷ xs) =
    let P : String → Type 0 = λ n. ltb 0 (count n xs) ≡ true in
    let Q : String → Type 0 = λ n. ltb 0 (count n (x ∷ xs)) ≡ true in
    (ground (arith, eq_self x), All-weaken P Q (λ n h. ground (arith, h)) xs (All-count xs))

pub ids-Known : (steps : List Step) → All (Known (is_id steps)) (ids steps)
ids-Known steps = All-count (ids steps)

pub predecessors-closed :
    (steps : List Step) (dep : String) → All (Known (is_id steps)) (predecessors steps dep)
unfolding predecessors resolve lookup has
predecessors-closed steps dep = elim (Bool-cases (has dep (step_map_onto [] steps))) [
  | inl found ↦ rw found (ground (arith, found, has-step_map dep [] steps), tt)
  | inr missing ↦
      rw missing (tool_ids-closed (is_id steps) [] steps (ids-Known steps) (λ t. tt) dep)
]
