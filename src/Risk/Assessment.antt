-- ===== src/Risk/Assessment.antt =====
-- `RiskAssessmentPipeline.assess_risk` of src/risk/pipeline.py: from the analyses to the score, the
-- evidence, the verdict and the action. The legacy features are an argument; the calibration, the
-- fused confidence, the explanation and the enrichment only decorate the answer.
pub mod Outcomes
mod Tests
use email_analysis_agent.Prelude.{
  ℕ, Bool, true, false, ◌||◌, String, Option, none, some, List, if◌then◌else◌, Eq, string_eq,
}
use email_analysis_agent.Dict.{Dict}
use email_analysis_agent.Risk.Fusion.Signals.{Strings}
use email_analysis_agent.Risk.Fusion.Vector.{Analyses, fuse_signals}
use email_analysis_agent.Risk.Scoring.{Evidence, Categories, Scored, calculate_multimodal_score}
use email_analysis_agent.Risk.Legacy.{Features, calculate_legacy_score}
use email_analysis_agent.Risk.Policy.{
  Verdict, Action, Sensitivity, RiskPolicyConfig, Profile, evaluate_policy, get_profile,
}

-- `RiskAssessment`
pub record RiskAssessment : Type 0 where
  pub tenant_id : String
  pub scored : Scored
  pub verdict : Verdict
  pub recommended_action : Action
  pub tenant_profile : Sensitivity

abbrev pub is_some {ℓ} : {A : Type ℓ} → Option A → Bool
is_some none = false
is_some (some a) = true

-- `any(x is not None for x in (content_res, url_res, correlation_res))`
unfoldable pub has_multimodal_inputs : Analyses → Bool
has_multimodal_inputs a = is_some a.content_res || is_some a.url_res || is_some a.correlation_res

unfoldable pub resolve_profile : Option Profile → String → Dict String Profile → Profile
resolve_profile (some p) tenant_id profiles = p
resolve_profile none tenant_id profiles = get_profile tenant_id profiles

unfoldable pub score_of : Strings → RiskPolicyConfig → Analyses → Features → Scored
score_of str config a features =
    if has_multimodal_inputs a
    then calculate_multimodal_score (fuse_signals str a).signals
    else calculate_legacy_score config features

unfoldable pub assess_risk :
    Strings
    → RiskPolicyConfig
    → Dict String Profile
    → String
    → Analyses
    → Features
    → Option Profile
    → RiskAssessment
assess_risk str config profiles tenant_id a features tenant_profile =
    let profile = resolve_profile tenant_profile tenant_id profiles in
    let scored = score_of str config a features in
    let (verdict, action) = evaluate_policy profile scored.risk_score in
    record {
      tenant_id = tenant_id;
      scored = scored;
      verdict = verdict;
      recommended_action = action;
      tenant_profile = profile.sensitivity;
    }
