-- ===== src/Risk/Assessment/Tests.antt =====
-- Assessments of concrete emails.
use email_analysis_agent.Prelude.{
  ◌≤◌, ◌≡◌, refl, Bool, true, false, String, none, some, List, [], ◌∷◌, All, string_eq, nat_eq,
}
use email_analysis_agent.Dict.{lookup, put}
use email_analysis_agent.Risk.Fusion.Models.{Signal, authentication, transmission, content, Content}
use email_analysis_agent.Risk.Fusion.Signals.{
  absent, signal, flag, graded, Strings, normalize_auth_signals, normalize_transmission_signals,
  normalize_threat_intel_signals, normalize_content_signals, normalize_media_signals, media_signals,
  normalize_url_signals, normalize_correlation_signals,
}
use email_analysis_agent.Risk.Fusion.Vector.{Analyses, all_signals, fuse_signals}
use email_analysis_agent.Risk.Scoring.{
  domain_ceiling, base_signal_weights, base_weight, rounded, signals_map_onto, is_strong, scales_of,
  scale_factor, signal_points, is_positive, counts_for, raw_points, domain_points, sum_domains,
  calculate_multimodal_score,
}
use email_analysis_agent.Risk.Scoring.Bounds.{Silent}
use email_analysis_agent.Risk.Legacy.{Features}
use email_analysis_agent.Risk.Policy.{
  default_config, clean, delivered, suspicious, banner_injected, malicious, quarantined, Profile,
  create_aggressive, create_balanced, create_permissive, evaluate_policy,
}
use email_analysis_agent.Risk.Policy.Order.{NotAbove}
use email_analysis_agent.Risk.Assessment.{RiskAssessment, has_multimodal_inputs, assess_risk}
use email_analysis_agent.Risk.Assessment.Outcomes.{
  outcome, assess_risk-sensitivity, assess_risk-Silent,
}

abbrev as_is : String → String
as_is text = text

abbrev not_in : String → String → Bool
not_in part text = false

abbrev strings : Strings
strings = record { upper = as_is; in_lower = not_in }

abbrev plain : Content
plain = record {
  urgency_score = 100;
  financial_coercion_score = 0;
  has_hidden_text = false;
  script_tag_count = 0;
  html_entity_obfuscation_count = 0;
  media_evidence = none;
}

abbrev plain_email : Analyses
plain_email = record {
  auth = none;
  transmission = none;
  intel = none;
  content_res = some plain;
  url_res = none;
  correlation_res = none;
}

abbrev features : Features
features = record {
  is_display_name_spoofed = false;
  malicious_ioc_count = 0;
  intel_confidence = 900;
  dmarc_result = "FAIL";
  is_reply_to_mismatched = true;
  is_thread_hijack_suspect = false;
  spf_result = "SOFTFAIL";
  dkim_result = "PASS";
  header_integrity_score = 1000;
  is_reply_to_free_webmail = false;
  is_return_path_mismatched = false;
}

assess_risk-sensitivity_example :
    let under : Profile → RiskAssessment =
      λ p. assess_risk strings default_config [] "acme" plain_email features (some p) in
    ((under (create_balanced "acme")).scored.risk_score ≤ 100)
    × NotAbove
        (outcome (under (create_balanced "acme")))
        (outcome (under (create_aggressive "acme")))
    × NotAbove
        (outcome (under (create_permissive "acme")))
        (outcome (under (create_balanced "acme")))
assess_risk-sensitivity_example =
    assess_risk-sensitivity strings default_config [] "acme" plain_email features

plain-Silent : All Silent (fuse_signals strings plain_email).signals
unfolding fuse_signals all_signals normalize_auth_signals normalize_transmission_signals
    normalize_threat_intel_signals normalize_content_signals normalize_media_signals media_signals
    normalize_url_signals normalize_correlation_signals absent signal flag graded is_positive
plain-Silent = (
  refl,
  (
    refl,
    (
      refl,
      (
        refl,
        (
          refl,
          (
            refl,
            (
              refl,
              (
                refl,
                (
                  refl,
                  (
                    refl,
                    (
                      refl,
                      (
                        refl,
                        (refl, (refl, (refl, (refl, (refl, (refl, (refl, (refl, (refl, tt))))))))),
                      ),
                    ),
                  ),
                ),
              ),
            ),
          ),
        ),
      ),
    ),
  ),
)

plain_fused : has_multimodal_inputs plain_email ≡ true
unfolding has_multimodal_inputs
plain_fused = refl

assess_risk-Silent_example :
    let res = assess_risk strings default_config [] "acme" plain_email features none in
    (res.scored.risk_score ≡ 0) × (outcome res ≡ (clean, delivered))
assess_risk-Silent_example =
    assess_risk-Silent strings default_config [] "acme" plain_email features none plain_fused
      plain-Silent

-- An email with a forged thread and pressure for money, without and with a spoofed name.
abbrev pressure : Bool → List Signal
pressure spoofed =
    flag transmission "is_display_name_spoofed" 10000 1000 18 spoofed
    ∷ signal authentication "spf_result" 6000 950 10 true
    ∷ flag transmission "is_reply_to_mismatched" 9000 950 12 true
    ∷ flag transmission "is_thread_hijack_suspect" 8500 900 12 true
    ∷ graded content "urgency_score" 10000 900 10
    ∷ graded content "financial_coercion_score" 10000 900 12
    ∷ []

-- Spoofing the name as well makes the email less suspicious.
spoofing_lowers_score :
    ((calculate_multimodal_score (pressure false)).risk_score ≡ 74)
    × ((calculate_multimodal_score (pressure true)).risk_score ≡ 65)
    × (evaluate_policy (create_balanced "acme") 74 ≡ (malicious, quarantined))
    × (evaluate_policy (create_balanced "acme") 65 ≡ (suspicious, banner_injected))
unfolding calculate_multimodal_score scales_of is_strong signals_map_onto sum_domains domain_points
    raw_points rounded counts_for is_positive signal_points base_weight base_signal_weights
    scale_factor domain_ceiling flag graded signal lookup put evaluate_policy create_balanced
spoofing_lowers_score = (refl, refl, refl, refl)
