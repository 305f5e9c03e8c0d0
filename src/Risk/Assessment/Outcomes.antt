-- ===== src/Risk/Assessment/Outcomes.antt =====
-- What an assessment decides.
use email_analysis_agent.Prelude.{
  ◌≤◌, ◌≡◌, true, String, Option, some, arith, All, Bool-cases, inl, inr,
}
use email_analysis_agent.Dict.{Dict}
use email_analysis_agent.Risk.Fusion.Signals.{Strings}
use email_analysis_agent.Risk.Fusion.Vector.{Analyses, fuse_signals}
use email_analysis_agent.Risk.Fusion.Models.{authentication}
use email_analysis_agent.Risk.Scoring.Bounds.{
  Silent, calculate_multimodal_score-bounded, calculate_multimodal_score-Silent,
}
use email_analysis_agent.Risk.Legacy.{Features, calculate_legacy_score}
use email_analysis_agent.Risk.Policy.{
  Verdict, Action, clean, delivered, RiskPolicyConfig, Profile, create_aggressive, create_balanced,
  create_permissive, evaluate_policy,
}
use email_analysis_agent.Risk.Policy.Order.{NotAbove, evaluate_policy-sensitivity}
use email_analysis_agent.Risk.Assessment.{
  RiskAssessment, has_multimodal_inputs, resolve_profile, score_of, assess_risk,
}

abbrev pub outcome : RiskAssessment → Verdict × Action
outcome a = (a.verdict, a.recommended_action)

score_of-le :
    (str : Strings) (config : RiskPolicyConfig) (a : Analyses) (f : Features)
    → (score_of str config a f).risk_score ≤ 100
unfolding score_of calculate_legacy_score
score_of-le str config a f =
    let signals = (fuse_signals str a).signals in
    let (bounded, _) = calculate_multimodal_score-bounded signals authentication in
    elim (Bool-cases (has_multimodal_inputs a)) [
      | inl fused ↦ rw (score_of, fused) bounded
      | inr old ↦ rw (score_of, old) (omega arith)
    ]

-- The score of an assessment is at most 100, whatever the analyses and the weights are; and the same
-- email is never treated more leniently under the aggressive profile than under the balanced one, nor
-- under the balanced one than under the permissive one.
pub assess_risk-sensitivity :
    (str : Strings) (config : RiskPolicyConfig) (profiles : Dict String Profile) (tenant : String)
    (a : Analyses) (f : Features)
    → let under : Profile → RiskAssessment =
        λ p. assess_risk str config profiles tenant a f (some p) in
      ((under (create_balanced tenant)).scored.risk_score ≤ 100)
      × NotAbove
          (outcome (under (create_balanced tenant)))
          (outcome (under (create_aggressive tenant)))
      × NotAbove
          (outcome (under (create_permissive tenant)))
          (outcome (under (create_balanced tenant)))
unfolding assess_risk resolve_profile
assess_risk-sensitivity str config profiles tenant a f =
    let score = (score_of str config a f).risk_score in
    let (strict, lenient, _, _) = evaluate_policy-sensitivity tenant score in
    (score_of-le str config a f, strict, lenient)

-- An email with a content, URL or correlation analysis, in none of whose signals there is evidence, is
-- clean and delivered with score zero, under any profile of the tenant.
pub assess_risk-Silent :
    (str : Strings) (config : RiskPolicyConfig) (profiles : Dict String Profile) (tenant : String)
    (a : Analyses) (f : Features) (p : Option Profile)
    → has_multimodal_inputs a ≡ true
    → All Silent (fuse_signals str a).signals
    → let res = assess_risk str config profiles tenant a f p in
      (res.scored.risk_score ≡ 0) × (outcome res ≡ (clean, delivered))
unfolding assess_risk score_of evaluate_policy
assess_risk-Silent str config profiles tenant a f p fused silent =
    let (zero_score, _, _, _, _) =
      calculate_multimodal_score-Silent (fuse_signals str a).signals silent in
    let score : (score_of str config a f).risk_score ≡ 0 = rw (score_of, fused) zero_score in
    (ground (arith, score), ground (arith, score))
