-- ===== src/Risk/Legacy.antt =====
-- `_calculate_legacy_score` of src/risk/strategies/deterministic.py, on the features that it reads;
-- what the extractors of src/risk/registry.py take from the analyses is its argument. Confidences are
-- in thousandths, and so is the integrity of the headers.
use email_analysis_agent.Prelude.{
  ℕ, ◌+◌, ◌≡◌, refl, Bool, true, false, ◌||◌, String, List, [], ◌∷◌, ltb, ◌==◌, string_eq,
  if◌then◌else◌, min, arith,
}
use email_analysis_agent.Risk.Fusion.Models.{Domain, authentication, transmission, threat_intel}
use email_analysis_agent.Risk.Scoring.{Evidence, Scored}
use email_analysis_agent.Risk.Policy.{RiskPolicyConfig}

pub record Features : Type 0 where
  pub is_display_name_spoofed : Bool
  pub malicious_ioc_count : ℕ
  pub intel_confidence : ℕ
  pub dmarc_result : String
  pub is_reply_to_mismatched : Bool
  pub is_thread_hijack_suspect : Bool
  pub spf_result : String
  pub dkim_result : String
  pub header_integrity_score : ℕ
  pub is_reply_to_free_webmail : Bool
  pub is_return_path_mismatched : Bool

abbrev pub points_if : Bool → ℕ → ℕ
points_if true w = w
points_if false w = 0

-- A rule that holds adds its weight to the score and an entry to the evidence.
unfoldable pub add_evidence : Bool → Domain → String → ℕ → ℕ → List Evidence → List Evidence
add_evidence holds domain name w confidence evidence =
    if holds
    then record {
      source_module = domain;
      feature_name = name;
      applied_weight = w;
      confidence = confidence;
    }
      ∷ evidence
    else evidence

abbrev pub spf_failed : Features → Bool
spf_failed f = f.spf_result == "FAIL" || f.spf_result == "SOFTFAIL"

-- `score`, rule by rule.
unfoldable pub rule_points : RiskPolicyConfig → Features → ℕ
rule_points c f =
    points_if f.is_display_name_spoofed c.weight_display_name_spoof
    + points_if (ltb 0 f.malicious_ioc_count) c.weight_malicious_ioc
    + points_if (f.dmarc_result == "FAIL") c.weight_dmarc_fail
    + points_if f.is_reply_to_mismatched c.weight_reply_to_mismatch
    + points_if f.is_thread_hijack_suspect c.weight_thread_hijack
    + points_if (spf_failed f) c.weight_spf_fail
    + points_if (f.dkim_result == "FAIL") c.weight_dkim_fail
    + points_if (ltb f.header_integrity_score 600) c.weight_low_header_integrity
    + points_if f.is_reply_to_free_webmail c.weight_free_webmail_reply_to
    + points_if f.is_return_path_mismatched c.weight_return_path_mismatch

-- `evidence`, rule by rule.
unfoldable pub rule_evidence : RiskPolicyConfig → Features → List Evidence
rule_evidence c f =
    add_evidence f.is_display_name_spoofed transmission "is_display_name_spoofed"
      c.weight_display_name_spoof 1000
      (add_evidence (ltb 0 f.malicious_ioc_count) threat_intel "malicious_ioc_count"
        c.weight_malicious_ioc f.intel_confidence
        (add_evidence (f.dmarc_result == "FAIL") authentication "dmarc_result" c.weight_dmarc_fail
          1000
          (add_evidence f.is_reply_to_mismatched transmission "is_reply_to_mismatched"
            c.weight_reply_to_mismatch 1000
            (add_evidence f.is_thread_hijack_suspect transmission "is_thread_hijack_suspect"
              c.weight_thread_hijack 850
              (add_evidence (spf_failed f) authentication "spf_result" c.weight_spf_fail 900 (
                add_evidence (f.dkim_result == "FAIL") authentication "dkim_result"
                  c.weight_dkim_fail 900
                  (add_evidence (ltb f.header_integrity_score 600) transmission
                    "header_integrity_score" c.weight_low_header_integrity 800
                    (add_evidence f.is_reply_to_free_webmail transmission "is_reply_to_free_webmail"
                      c.weight_free_webmail_reply_to 800
                      (add_evidence f.is_return_path_mismatched transmission
                        "is_return_path_mismatched" c.weight_return_path_mismatch 700 [])))))))))

unfoldable pub calculate_legacy_score : RiskPolicyConfig → Features → Scored
calculate_legacy_score c f = record {
  risk_score = min 100 (rule_points c f);
  risk_evidence = rule_evidence c f;
  categories = record {
    bec = f.is_display_name_spoofed || f.is_thread_hijack_suspect;
    phishing = ltb 0 f.malicious_ioc_count;
    credential_harvesting = f.is_reply_to_mismatched;
  };
}

-- The weights that the evidence names.
unfoldable pub sum_applied : List Evidence → ℕ
sum_applied [] = 0
sum_applied (e ∷ evidence) = e.applied_weight + sum_applied evidence

sum-add_evidence :
    (holds : Bool) (domain : Domain) (name : String) (w confidence : ℕ) (evidence : List Evidence)
    → sum_applied (add_evidence holds domain name w confidence evidence)
      ≡ points_if holds w + sum_applied evidence
unfolding sum_applied add_evidence
sum-add_evidence true domain name w confidence evidence = refl
sum-add_evidence false domain name w confidence evidence = omega arith

sum-none : sum_applied [] ≡ 0
unfolding sum_applied
sum-none = refl

-- The legacy score is explained by its evidence: it is the sum of the weights that the evidence names,
-- cut at 100, under any configuration of the weights.
pub calculate_legacy_score-explained :
    (c : RiskPolicyConfig) (f : Features)
    → let s = calculate_legacy_score c f in s.risk_score ≡ min 100 (sum_applied s.risk_evidence)
unfolding calculate_legacy_score rule_points rule_evidence
calculate_legacy_score-explained c f = simp (sum-add_evidence, sum-none) (omega arith)
