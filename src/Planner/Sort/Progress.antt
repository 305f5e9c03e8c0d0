-- ===== src/Planner/Sort/Progress.antt =====
-- The run of Kahn's algorithm: fuel for every node left is enough, and what the run ends with.
use email_analysis_agent.Prelude.{
  ℕ, zero, suc, ◌+◌, ◌≤◌, ◌≡◌, refl, Bool, true, false, String, some, List, [], ◌∷◌, string_eq,
  length, arith,
}
use email_analysis_agent.Dict.{Dict, has, remove, lookup-remove}
use email_analysis_agent.Dict.Sweep.{Unique, remove_absent, has-remove, remove-Unique}
use email_analysis_agent.Planner.Sort.{targets, sort, release, kahn}
use email_analysis_agent.Planner.Sort.Kahn.{
  count, pending, Invariant, node-ready, after-degree, after-taken, after-queued,
}

abbrev pub one_if : Bool → ℕ
one_if true = 1
one_if false = 0

-- Every node is taken when no node that is left has an edge to it.
abbrev pub Ordered : Dict String (List String) → List String → Type 0
Ordered rem [] = Unit
Ordered rem (n ∷ ns) = (pending n rem ≡ 0) × Ordered (remove n rem) ns

-- The run has taken `nodes` of `rem`, and leaves `final`, in which every node waits for another.
pub record Settled (adj : Dict String (List String)) (rem : Dict String (List String))
    (nodes : List String) (final : Dict String (List String)) : Type 0 where
  pub left_unique : Unique final
  pub left_edges : (m : String) → has m final ≡ true → targets m final ≡ targets m adj
  pub counts : (n : String) → count n nodes + one_if (has n final) ≡ one_if (has n rem)
  pub lengths : length nodes + length final ≡ length rem
  pub waiting : (n : String) → has n final ≡ true → 1 ≤ pending n final
  pub order : Ordered rem nodes

length-remove :
    (k : String) (d : Dict String (List String))
    → Unique d
    → has k d ≡ true
    → length (remove k d) + 1 ≡ length d
unfolding has remove
length-remove k [] u h = ground arith
length-remove k ((j, v) ∷ d) u h =
    ground (arith, string_eq.same_iff j k, length-remove k d u.1, remove_absent k d)

module _ (adj : Dict String (List String)) where
  next :
      (queue : List String) (deg : Dict String ℕ) (rem : Dict String (List String)) (node : String)
      (p : String → ℕ)
      → Invariant adj (node ∷ queue) deg rem
      → Invariant adj
          (sort p ((release (targets node adj) (queue, deg)).0))
          ((release (targets node adj) (queue, deg)).1)
          (remove node rem)
  next queue deg rem node p i = record {
    unique = remove-Unique node rem i.unique;
    edges = λ m h. ground (arith, has-remove node m rem, lookup-remove node m rem, i.edges m);
    degrees = after-degree adj queue deg rem node p i;
    taken = after-taken adj queue deg rem node p i;
    queued = after-queued adj queue deg rem node p i;
  }

  stop :
      (deg : Dict String ℕ) (rem : Dict String (List String))
      → Invariant adj [] deg rem
      → Settled adj rem [] rem
  unfolding count
  stop deg rem i = record {
    left_unique = i.unique;
    left_edges = i.edges;
    counts = λ n. omega arith;
    lengths = omega arith;
    waiting = λ n h. ground (arith, i.queued n, i.degrees n);
    order = tt;
  }

  step :
      (queue : List String) (deg : Dict String ℕ) (rem : Dict String (List String)) (node : String)
      (p : String → ℕ) (rest : List String) (final : Dict String (List String))
      → Invariant adj (node ∷ queue) deg rem
      → Settled adj (remove node rem) rest final
      → Settled adj rem (node ∷ rest) final
  unfolding count
  step queue deg rem node p rest final i s =
      let (left, idle) = node-ready adj queue deg rem node p i in
      record {
        left_unique = s.left_unique;
        left_edges = s.left_edges;
        counts =
            λ n. ground (arith, left, string_eq.same_iff node n, has-remove node n rem, s.counts n);
        lengths = omega (arith, s.lengths, length-remove node rem i.unique left);
        waiting = s.waiting;
        order = (ground (arith, idle, i.degrees node), s.order);
      }

  pub kahn-Settled :
      (p : String → ℕ) (fuel : ℕ) (queue : List String) (deg : Dict String ℕ)
      (rem : Dict String (List String))
      → length rem ≤ fuel
      → Invariant adj queue deg rem
      → (nodes : List String) × (final : Dict String (List String)) × (kahn p adj fuel queue deg
          ≡ some nodes)
        × Settled adj rem nodes final
  unfolding kahn
  kahn-Settled p fuel [] deg rem l i = ([], rem, refl, stop deg rem i)
  kahn-Settled p zero (node ∷ queue) deg rem l i =
      let (left, _) = node-ready adj queue deg rem node p i in
      absurd (omega (arith, l, length-remove node rem i.unique left))
  kahn-Settled p (suc fuel) (node ∷ queue) deg rem l i =
      let (left, _) = node-ready adj queue deg rem node p i in
      let shorter = length-remove node rem i.unique left in
      let (rest, final, eq, s) =
        kahn-Settled p fuel (sort p ((release (targets node adj) (queue, deg)).0))
          ((release (targets node adj) (queue, deg)).1) (remove node rem)
          (omega (arith, l, shorter)) (next queue deg rem node p i) in
      (node ∷ rest, final, rw (kahn, eq) refl, step queue deg rem node p rest final i s)
