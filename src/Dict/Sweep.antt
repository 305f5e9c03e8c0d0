-- ===== src/Dict/Sweep.antt =====
-- The two-pass removal of the source: collect the keys whose value fails a test, then delete them.
use email_analysis_agent.Prelude.{
  ◌+◌, ◌≡◌, refl, Bool, true, false, not, Option, none, some, List, [], ◌∷◌, arith, if◌then◌else◌,
  Eq, ◌==◌, eq_self, length, keep_if,
}
use email_analysis_agent.Dict.{Dict, lookup, has, put, remove}

-- No key stands twice: what a Python `dict` is by construction.
abbrev pub Unique {ℓ κ} : {K : Type ℓ} {V : Type κ} ⦃e : Eq K⦄ → Dict K V → Type 0
Unique [] = Unit
Unique ((k, v) ∷ d) = (has k d ≡ false) × Unique d

-- `k in ks`
module _ {ℓ} {K : Type ℓ} ⦃e : Eq K⦄ where
  unfoldable pub member : K → List K → Bool
  member k [] = false
  member k (j ∷ ks) = if j == k then true else member k ks

-- What a sweep makes of a value.
abbrev pub kept {κ} : {V : Type κ} → (V → Bool) → Option V → Option V
kept test none = none
kept test (some v) = if test v then none else some v

module _ {ℓ κ} {K : Type ℓ} {V : Type κ} ⦃e : Eq K⦄ where
  -- `[k for k, v in d.items() if test(v)]`
  unfoldable pub keys_where : (V → Bool) → Dict K V → List K
  keys_where test [] = []
  keys_where test ((k, v) ∷ d) = let rest = keys_where test d in if test v then k ∷ rest else rest

  -- `for k in ks: del d[k]`
  unfoldable pub remove_all : List K → Dict K V → Dict K V
  unfolding remove
  remove_all [] d = d
  remove_all (k ∷ ks) d = remove_all ks (remove k d)

  unfoldable pub sweep : (V → Bool) → Dict K V → Dict K V
  unfolding keys_where remove_all
  sweep test d = remove_all (keys_where test d) d

  pub remove_absent : (k : K) (d : Dict K V) → has k d ≡ false → remove k d ≡ d
  unfolding has remove
  remove_absent k [] h = refl
  remove_absent k ((j, v) ∷ d) h = ground (arith, remove_absent k d)

  remove_all-nil : (ks : List K) → let none_left : Dict K V = [] in remove_all ks none_left ≡ []
  unfolding remove_all
  remove_all-nil [] = refl
  remove_all-nil (k ∷ ks) = remove_all-nil ks

  remove_all-cons :
      (ks : List K) (k : K) (v : V) (d : Dict K V)
      → remove_all ks ((k, v) ∷ d)
        ≡ (if member k ks then remove_all ks d else (k, v) ∷ remove_all ks d)
  unfolding remove_all member
  remove_all-cons [] k v d = refl
  remove_all-cons (j ∷ ks) k v d =
      ground (arith, e.same_iff k j, e.same_iff j k, remove_all-cons ks k v (remove j d))

  member-keys_where :
      (test : V → Bool) (k : K) (d : Dict K V)
      → has k d ≡ false
      → member k (keys_where test d) ≡ false
  unfolding has member keys_where
  member-keys_where test k [] h = refl
  member-keys_where test k ((j, v) ∷ d) h = ground (arith, member-keys_where test k d)

  -- On a dictionary the two passes are one filter.
  pub sweep-keep_if :
      (test : V → Bool) (d : Dict K V) → Unique d → sweep test d ≡ keep_if (λ p. not (test p.1)) d
  unfolding sweep
  sweep-keep_if test [] u = remove_all-nil []
  sweep-keep_if test ((k, v) ∷ d) u =
      let ih = sweep-keep_if test d u.1 in
      ground (
        arith,
        ih,
        eq_self k,
        remove_absent k d u.0,
        remove_all-cons (keys_where test d) k v d,
        member-keys_where test k d u.0,
      )

  pub lookup-eq-none : (j : K) (d : Dict K V) → has j d ≡ false → lookup j d ≡ none
  unfolding has lookup
  lookup-eq-none j [] h = refl
  lookup-eq-none j ((k, v) ∷ d) h = ground (arith, lookup-eq-none j d)

  lookup-keep_if :
      (test : V → Bool) (j : K) (d : Dict K V)
      → Unique d
      → lookup j (keep_if (λ p. not (test p.1)) d) ≡ kept test (lookup j d)
  unfolding lookup
  lookup-keep_if test j [] u = refl
  lookup-keep_if test j ((k, v) ∷ d) u =
      ground (arith, e.same_iff k j, lookup-keep_if test j d u.1, lookup-eq-none j d)

  pub lookup-sweep :
      (test : V → Bool) (j : K) (d : Dict K V)
      → Unique d
      → lookup j (sweep test d) ≡ kept test (lookup j d)
  lookup-sweep test j d u = rw (sweep-keep_if test d u) (lookup-keep_if test j d u)

  length-keep_if :
      (test : V → Bool) (d : Dict K V)
      → length (keep_if (λ p. not (test p.1)) d) + length (keys_where test d) ≡ length d
  unfolding keys_where
  length-keep_if test [] = refl
  length-keep_if test ((k, v) ∷ d) = ground (arith, length-keep_if test d)

  -- A sweep removes as many entries as there are keys collected.
  pub length-sweep :
      (test : V → Bool) (d : Dict K V)
      → Unique d
      → length (sweep test d) + length (keys_where test d) ≡ length d
  length-sweep test d u = rw (sweep-keep_if test d u) (length-keep_if test d)

  pub has-put :
      (k j : K) (v : V) (d : Dict K V) → has j (put k v d) ≡ (if k == j then true else has j d)
  unfolding has put
  has-put k j v [] = refl
  has-put k j v ((i, w) ∷ d) =
      ground (arith, e.same_iff k j, e.same_iff i k, e.same_iff i j, has-put k j v d)

  pub has-remove :
      (k j : K) (d : Dict K V) → has j (remove k d) ≡ (if k == j then false else has j d)
  unfolding has remove
  has-remove k j [] = ground arith
  has-remove k j ((i, w) ∷ d) =
      ground (arith, e.same_iff k j, e.same_iff i k, e.same_iff i j, has-remove k j d)

  pub put-Unique : (k : K) (v : V) (d : Dict K V) → Unique d → Unique (put k v d)
  unfolding has put
  put-Unique k v [] u = ground arith
  put-Unique k v ((i, w) ∷ d) u =
      ground (arith, e.same_iff i k, e.same_iff k i, has-put k i v d, put-Unique k v d)

  pub remove-Unique : (k : K) (d : Dict K V) → Unique d → Unique (remove k d)
  unfolding remove
  remove-Unique k [] u = ground arith
  remove-Unique k ((i, w) ∷ d) u = ground (arith, has-remove k i d, remove-Unique k d)

  pub remove_all-Unique : (ks : List K) (d : Dict K V) → Unique d → Unique (remove_all ks d)
  unfolding remove_all
  remove_all-Unique [] d u = u
  remove_all-Unique (k ∷ ks) d u = remove_all-Unique ks (remove k d) (remove-Unique k d u)

  pub sweep-Unique : (test : V → Bool) (d : Dict K V) → Unique d → Unique (sweep test d)
  unfolding sweep
  sweep-Unique test d u = remove_all-Unique (keys_where test d) d u
