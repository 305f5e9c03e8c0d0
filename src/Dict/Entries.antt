-- ===== src/Dict/Entries.antt =====
-- Predicates on the entries of a dictionary.
use mathlib.Core.Path.{subst}
use email_analysis_agent.Prelude.{◌≡◌, some, [], ◌∷◌, Eq, ◌==◌, All, Bool-cases, inl, inr, arith}
use email_analysis_agent.Dict.{Dict, lookup, put, remove}

module _ {ℓ κ μ} {K : Type ℓ} {V : Type κ} ⦃e : Eq K⦄ (P : K × V → Type μ) where
  pub All-put : (k : K) (v : V) (d : Dict K V) → P (k, v) → All P d → All P (put k v d)
  unfolding put
  All-put k v [] new old = (new, tt)
  All-put k v ((j, w) ∷ d) new old = elim (Bool-cases (j == k)) [
    | inl same ↦ rw same (new, old.1)
    | inr other ↦ rw other (old.0, All-put k v d new old.1)
  ]

  pub All-remove : (k : K) (d : Dict K V) → All P d → All P (remove k d)
  unfolding remove
  All-remove k [] old = tt
  All-remove k ((j, w) ∷ d) old = elim (Bool-cases (j == k)) [
    | inl same ↦ rw same (All-remove k d old.1)
    | inr other ↦ rw other (old.0, All-remove k d old.1)
  ]

  pub All-lookup : (k : K) (v : V) (d : Dict K V) → All P d → lookup k d ≡ some v → P (k, v)
  unfolding lookup
  All-lookup k v [] old found = absurd (ground (arith, found))
  All-lookup k v ((j, w) ∷ d) old found = elim (Bool-cases (j == k)) [
    | inl same ↦
        let pair : (j, w) ≡ (k, v) = ground (arith, found, same, e.same_iff j k) in
        subst P pair old.0
    | inr other ↦ All-lookup k v d old.1 (ground (arith, found, other))
  ]

module _ {ℓ κ} {K : Type ℓ} {V : Type κ} ⦃e : Eq K⦄ where
  -- Assigning the value that a key has changes nothing.
  pub put-lookup : (k : K) (v : V) (d : Dict K V) → lookup k d ≡ some v → put k v d ≡ d
  unfolding lookup put
  put-lookup k v [] found = absurd (ground (arith, found))
  put-lookup k v ((j, w) ∷ d) found = ground (arith, found, e.same_iff j k, put-lookup k v d)
