-- ===== src/Dict.antt =====
-- Python's `dict`: an association list in order of insertion. An assignment to a key that is there
-- keeps its place.
pub mod Entries
pub mod Sweep
use email_analysis_agent.Prelude.{
  ◌+◌, ◌≤◌, ◌≡◌, refl, Bool, true, false, Option, none, some, List, [], ◌∷◌, arith, if◌then◌else◌,
  Eq, ◌==◌, length,
}

abbrev pub Dict {ℓ κ} : Type ℓ → Type κ → Type (ℓ ⊔ κ)
Dict K V = List (K × V)

module _ {ℓ κ} {K : Type ℓ} {V : Type κ} ⦃e : Eq K⦄ where
  -- `d.get(k)`
  unfoldable pub lookup : K → Dict K V → Option V
  lookup k [] = none
  lookup k ((j, v) ∷ d) = if j == k then some v else lookup k d

  -- `k in d`
  unfoldable pub has : K → Dict K V → Bool
  has k [] = false
  has k ((j, v) ∷ d) = if j == k then true else has k d

  -- `d[k] = v`
  unfoldable pub put : K → V → Dict K V → Dict K V
  put k v [] = (k, v) ∷ []
  put k v ((j, w) ∷ d) = if j == k then (k, v) ∷ d else (j, w) ∷ put k v d

  -- `d.pop(k, None)`, and `del d[k]` for a key that is there
  unfoldable pub remove : K → Dict K V → Dict K V
  remove k [] = []
  remove k ((j, w) ∷ d) = let rest = remove k d in if j == k then rest else (j, w) ∷ rest

  pub lookup-put :
      (k j : K) (v : V) (d : Dict K V)
      → lookup j (put k v d) ≡ (if k == j then some v else lookup j d)
  unfolding lookup put
  lookup-put k j v [] = refl
  lookup-put k j v ((i, w) ∷ d) =
      ground (arith, e.same_iff k j, e.same_iff i k, e.same_iff i j, lookup-put k j v d)

  pub lookup-remove :
      (k j : K) (d : Dict K V) → lookup j (remove k d) ≡ (if k == j then none else lookup j d)
  unfolding lookup remove
  lookup-remove k j [] = ground arith
  lookup-remove k j ((i, w) ∷ d) =
      ground (arith, e.same_iff k j, e.same_iff i k, e.same_iff i j, lookup-remove k j d)

  pub length-put :
      (k : K) (v : V) (d : Dict K V)
      → length (put k v d) ≡ (if has k d then length d else length d + 1)
  unfolding has put
  length-put k v [] = refl
  length-put k v ((i, w) ∷ d) = ground (arith, length-put k v d)

  pub length-remove-le : (k : K) (d : Dict K V) → length (remove k d) ≤ length d
  unfolding remove
  length-remove-le k [] = omega arith
  length-remove-le k ((i, w) ∷ d) = ground (arith, length-remove-le k d)

  pub length-remove_of_has :
      (k : K) (d : Dict K V) → has k d ≡ true → length (remove k d) + 1 ≤ length d
  unfolding has remove
  length-remove_of_has k [] h = ground arith
  length-remove_of_has k ((i, w) ∷ d) h =
      ground (arith, length-remove_of_has k d, length-remove-le k d)

  pub has-eq-true : (k : K) (v : V) (d : Dict K V) → lookup k d ≡ some v → has k d ≡ true
  unfolding lookup has
  has-eq-true k v [] h = ground arith
  has-eq-true k v ((i, w) ∷ d) h = ground (arith, has-eq-true k v d)

  pub has-eq-false : (k : K) (d : Dict K V) → lookup k d ≡ none → has k d ≡ false
  unfolding lookup has
  has-eq-false k [] h = refl
  has-eq-false k ((i, w) ∷ d) h = ground (arith, has-eq-false k d)
