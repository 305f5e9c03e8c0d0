-- ===== src/Planner/Sort/Kahn.antt =====
-- The invariant of Kahn's algorithm.
use email_analysis_agent.Prelude.{
  ℕ, ◌+◌, ◌-◌, ◌≡◌, refl, Bool, true, false, String, List, [], ◌∷◌, ◌++◌, leb, ltb, ◌==◌, nat_eq,
  string_eq, if◌then◌else◌, arith, eq_self, Bool-cases, inl, inr,
}
use email_analysis_agent.Dict.{Dict, lookup, has, put, remove, lookup-put}
use email_analysis_agent.Dict.Sweep.{Unique, remove_absent, has-remove}
use email_analysis_agent.Planner.Sort.{degree, targets, insert, sort, release}

unfoldable pub count : String → List String → ℕ
count n [] = 0
count n (x ∷ xs) = if x == n then count n xs + 1 else count n xs

pub count-append : (n : String) (xs ys : List String) → count n (xs ++ ys) ≡ count n xs + count n ys
unfolding count
count-append n [] ys = omega arith
count-append n (x ∷ xs) ys = ground (arith, count-append n xs ys)

count-insert :
    (p : String → ℕ) (n x : String) (ys : List String)
    → count n (insert p x ys) ≡ (if x == n then count n ys + 1 else count n ys)
unfolding count insert
count-insert p n x [] = refl
count-insert p n x (y ∷ ys) = ground (arith, count-insert p n x ys)

pub count-sort : (p : String → ℕ) (n : String) (xs : List String) → count n (sort p xs) ≡ count n xs
unfolding count sort
count-sort p n [] = refl
count-sort p n (x ∷ xs) = ground (arith, count-sort p n xs, count-insert p n x (sort p xs))

-- The number of edges to `n` from the nodes of a graph.
unfoldable pub pending : String → Dict String (List String) → ℕ
pending n [] = 0
pending n ((m, ns) ∷ rem) = count n ns + pending n rem

degree-put :
    (n m : String) (d : ℕ) (deg : Dict String ℕ)
    → degree n (put m d deg) ≡ (if m == n then d else degree n deg)
degree-put n m d deg = ground (arith, lookup-put m n d deg)

-- What the loop over the neighbours does to the degree of a node, and to its place in the queue.
release-degree :
    (n : String) (ns queue : List String) (deg : Dict String ℕ)
    → degree n ((release ns (queue, deg)).1) ≡ degree n deg - count n ns
unfolding release count
release-degree n [] queue deg = omega arith
release-degree n (m ∷ ns) queue deg =
    let d = degree m deg in
    ground (
      arith,
      string_eq.same_iff m n,
      degree-put n m (d - 1) deg,
      release-degree n ns (if d == 1 then queue ++ m ∷ [] else queue) (put m (d - 1) deg),
    )

-- One if a node of degree `d` becomes ready when `c` of its edges go, and zero otherwise.
abbrev pub becomes_ready : ℕ → ℕ → ℕ
becomes_ready d c = if ltb 0 d then if leb d c then 1 else 0 else 0

release-count :
    (n : String) (ns queue : List String) (deg : Dict String ℕ)
    → count n ((release ns (queue, deg)).0)
      ≡ count n queue + becomes_ready (degree n deg) (count n ns)
unfolding release count
release-count n [] queue deg = ground arith
release-count n (m ∷ ns) queue deg =
    let d = degree m deg in
    ground (
      arith,
      string_eq.same_iff m n,
      degree-put n m (d - 1) deg,
      count-append n queue (m ∷ []),
      release-count n ns (if d == 1 then queue ++ m ∷ [] else queue) (put m (d - 1) deg),
    )

pending-remove :
    (n m : String) (rem : Dict String (List String))
    → Unique rem
    → pending n (remove m rem) + count n (targets m rem) ≡ pending n rem
unfolding pending remove lookup count
pending-remove n m [] u = refl
pending-remove n m ((k, ns) ∷ rem) u =
    ground (arith, string_eq.same_iff k m, pending-remove n m rem u.1, remove_absent m rem)

-- One for a node that is left and waits for nothing, and zero otherwise.
abbrev pub ready : Bool → ℕ → ℕ
ready true d = if d == 0 then 1 else 0
ready false d = 0

-- `rem` are the nodes that have not been taken, with their edges.
pub record Invariant (adj : Dict String (List String)) (queue : List String) (deg : Dict String ℕ)
    (rem : Dict String (List String)) : Type 0 where
  pub unique : Unique rem
  pub edges : (m : String) → has m rem ≡ true → targets m rem ≡ targets m adj
  pub degrees : (n : String) → degree n deg ≡ pending n rem
  pub taken : (n : String) → has n rem ≡ false → degree n deg ≡ 0
  pub queued : (n : String) → count n queue ≡ ready (has n rem) (degree n deg)

module _ (adj : Dict String (List String)) (queue : List String) (deg : Dict String ℕ)
    (rem : Dict String (List String)) (node : String) (p : String → ℕ)
    (i : Invariant adj (node ∷ queue) deg rem) where
  -- The node that is taken is left, and waits for nothing.
  pub node-ready : (has node rem ≡ true) × (degree node deg ≡ 0)
  unfolding count
  node-ready = elim (Bool-cases (has node rem)) [
    | inl left ↦ ground (arith, left, i.queued node, eq_self node)
    | inr gone ↦ ground (arith, gone, i.queued node, eq_self node)
  ]

  pub after-degree :
      (n : String)
      → degree n ((release (targets node adj) (queue, deg)).1) ≡ pending n (remove node rem)
  after-degree n = ground (
    arith,
    release-degree n (targets node adj) queue deg,
    i.degrees n,
    i.edges node node-ready.0,
    pending-remove n node rem i.unique,
  )

  pub after-taken :
      (n : String)
      → has n (remove node rem) ≡ false
      → degree n ((release (targets node adj) (queue, deg)).1) ≡ 0
  after-taken n h = ground (
    arith,
    string_eq.same_iff node n,
    has-remove node n rem,
    release-degree n (targets node adj) queue deg,
    i.taken n,
    node-ready.1,
  )

  pub after-queued :
      (n : String)
      → count n (sort p ((release (targets node adj) (queue, deg)).0))
        ≡ ready (has n (remove node rem)) (degree n ((release (targets node adj) (queue, deg)).1))
  unfolding count
  after-queued n = elim (Bool-cases (has n rem)) [
    | inl left ↦ ground (
      arith,
      left,
      string_eq.same_iff node n,
      has-remove node n rem,
      count-sort p n ((release (targets node adj) (queue, deg)).0),
      release-count n (targets node adj) queue deg,
      release-degree n (targets node adj) queue deg,
      i.queued n,
      node-ready,
    )
    | inr gone ↦ ground (
      arith,
      gone,
      string_eq.same_iff node n,
      has-remove node n rem,
      count-sort p n ((release (targets node adj) (queue, deg)).0),
      release-count n (targets node adj) queue deg,
      release-degree n (targets node adj) queue deg,
      i.queued n,
      i.taken n gone,
      node-ready,
    )
  ]
