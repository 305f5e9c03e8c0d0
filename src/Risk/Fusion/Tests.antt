-- ===== src/Risk/Fusion/Tests.antt =====
-- The fusion of a failed authentication, with the other analyses missing or clean.
use email_analysis_agent.Prelude.{
  ◌≡◌, refl, Bool, false, String, none, some, [], ◌∷◌, All, string_eq, nat_eq, length,
}
use email_analysis_agent.Risk.Fusion.Models.{Auth, Intel}
use email_analysis_agent.Risk.Fusion.Signals.{
  full, absent, signal, dmarc_signal, spf_signal, dkim_signal, arc_signal, result_of, age_signal,
  whois_age, media_signals, normalize_auth_signals, normalize_transmission_signals,
  normalize_threat_intel_signals, normalize_content_signals, normalize_media_signals,
  normalize_url_signals, normalize_correlation_signals, Strings, first_age,
}
use email_analysis_agent.Risk.Fusion.Vector.{
  is_evaluated, total_weight, weighted_sum, subscore, Analyses, all_signals, fuse_signals,
}
use email_analysis_agent.Risk.Fusion.Valid.{Sound, Within, fuse_signals-Sound}

abbrev as_is : String → String
as_is text = text

abbrev not_in : String → String → Bool
not_in part text = false

abbrev strings : Strings
strings = record { upper = as_is; in_lower = not_in }

abbrev failed : Auth
failed = record {
  dmarc_result = some "FAIL";
  spf_result = some "SOFTFAIL";
  dkim_overall_result = none;
  arc = none;
}

-- The first target has an age, and the last one another.
abbrev looked_up : Intel
looked_up = record {
  malicious_ioc_count = 1;
  overall_confidence = none;
  enriched_targets = (none ∷ some 3 ∷ []) ∷ [] ∷ (some 400 ∷ []) ∷ [];
}

abbrev analyses : Analyses
analyses = record {
  auth = some failed;
  transmission = none;
  intel = some looked_up;
  content_res = none;
  url_res = none;
  correlation_res = none;
}

subscores :
    (fuse_signals strings analyses).domain_subscores
    ≡ (230000, 43) ∷ (0, 1) ∷ (80000, 25) ∷ (0, 1) ∷ (0, 1) ∷ (0, 1) ∷ (0, 1) ∷ []
unfolding fuse_signals all_signals normalize_auth_signals normalize_transmission_signals
    normalize_threat_intel_signals normalize_content_signals normalize_media_signals
    normalize_url_signals normalize_correlation_signals media_signals dmarc_signal spf_signal
    dkim_signal arc_signal age_signal whois_age first_age result_of signal absent is_evaluated
    total_weight weighted_sum subscore
subscores = refl

fuse_signals-Sound_example :
    let v = fuse_signals strings analyses in
    All Sound v.signals
    × (length v.signals ≡ 21)
    × All (Within full) v.domain_subscores
    × Within 1 v.completeness_ratio
fuse_signals-Sound_example = fuse_signals-Sound strings analyses
