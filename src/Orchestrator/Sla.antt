-- ===== src/Orchestrator/Sla.antt =====
-- Which durations are reported as breaches.
use email_analysis_agent.Prelude.{
  ℕ, ◌≤◌, ◌≡◌, ◌↔◌, refl, Bool, true, false, not, ◌||◌, String, none, some, List, [], ◌∷◌, ◌++◌,
  ltb, leb, string_eq, arith, All, Option-cases, inl, inr,
}
use email_analysis_agent.Dict.{Dict, lookup}
use email_analysis_agent.Orchestrator.{
  stage_budgets, pipeline_budget, breaches, nonempty, evaluate_sla,
}

-- A duration is within the budget of its stage, if the stage has one.
unfoldable pub within : String × ℕ → Bool
within (stage, duration) = elim (lookup stage stage_budgets) [
  | none ↦ true
  | some budget ↦ not (ltb 0 budget) || leb duration budget
]

abbrev pub Within : String × ℕ → Type 0
Within entry = within entry ≡ true

breaches-empty : (durations : Dict String ℕ) → (breaches durations ≡ []) ↔ All Within durations
unfolding breaches within
breaches-empty [] = (λ _. tt, λ _. refl)
breaches-empty ((stage, duration) ∷ durations) = elim (Option-cases (lookup stage stage_budgets)) [
  | inl free ↦ ground (arith, free, breaches-empty durations)
  | inr (budget, bound) ↦ ground (arith, bound, breaches-empty durations)
]

nonempty-append : (xs : List String) (x : String) → nonempty (xs ++ x ∷ []) ≡ true
nonempty-append [] x = refl
nonempty-append (y ∷ xs) x = refl

-- An analysis counts as within its service level exactly if every stage that has a budget has kept
-- to it and the whole has taken no more than the budget of a pipeline; stages without a budget never
-- matter.
pub evaluate_sla-kept :
    (durations : Dict String ℕ) (total : ℕ)
    → ((evaluate_sla durations total).0 ≡ false)
      ↔ (All Within durations × (total ≤ pipeline_budget))
unfolding evaluate_sla
evaluate_sla-kept durations total =
    ground (arith, breaches-empty durations, nonempty-append (breaches durations) "total_pipeline")
