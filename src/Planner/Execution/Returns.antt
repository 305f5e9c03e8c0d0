-- ===== src/Planner/Execution/Returns.antt =====
-- A plan in which nothing raises returns a result.
use email_analysis_agent.Prelude.{ℕ, ◌≡◌, Bool, true, false, String, Option, none, some, string_eq}
use email_analysis_agent.Dict.{Dict}
use email_analysis_agent.Planner.Step.{Step, at_most}
use email_analysis_agent.Planner.Execution.{Runtime}

abbrev pub is_some : {A : Type 0} → Option A → Bool
is_some none = false
is_some (some a) = true

-- The evaluator of a condition, if there is one, answers.
abbrev pub answers : {State Result : Type 0} → Runtime State Result → String → State → Bool
answers r c state = elim (r.condition c) [
  | none ↦ true
  | some evaluator ↦ is_some (evaluator state)
]

-- The retry policy of a step has a number for its limit, and a delay that can be waited for.
abbrev pub Sound : Step → Type 0
Sound s = (limit : ℕ) × (s.max_retries ≡ at_most limit) × (s.can_wait ≡ true)
