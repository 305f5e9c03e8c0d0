-- ===== src/Risk/Fusion/Vector.antt =====
-- `fuse_signals` of src/risk/multimodal_fuser.py. A ratio is a numerator with a denominator; the
-- rounding of the completeness to four places is left out.
use email_analysis_agent.Prelude.{
  ℕ, ◌+◌, ◌*◌, Bool, true, false, Option, List, [], ◌∷◌, ◌++◌, ltb, if◌then◌else◌, min, map,
  keep_if, length,
}
use email_analysis_agent.Risk.Fusion.Models.{
  Domain, authentication, transmission, threat_intel, content, media, url, correlation, same_domain,
  EvidenceStatus, evaluated_positive, evaluated_negative, Signal, Auth, Transmission, Intel,
  Content, UrlResult, Correlation,
}
use email_analysis_agent.Risk.Fusion.Signals.{
  full, normalize_auth_signals, normalize_transmission_signals, normalize_threat_intel_signals,
  normalize_content_signals, normalize_media_signals, normalize_url_signals,
  normalize_correlation_signals, Strings,
}

abbrev pub Ratio : Type 0
Ratio = ℕ × ℕ

unfoldable pub is_evaluated : EvidenceStatus → Bool
is_evaluated evaluated_positive = true
is_evaluated evaluated_negative = true
is_evaluated _ = false

abbrev pub status_evaluated : Signal → Bool
status_evaluated s = is_evaluated s.status

unfoldable pub total_weight : List Signal → ℕ
total_weight [] = 0
total_weight (s ∷ signals) = s.weight + total_weight signals

unfoldable pub weighted_sum : List Signal → ℕ
weighted_sum [] = 0
weighted_sum (s ∷ signals) = s.normalized_score * s.weight + weighted_sum signals

abbrev pub of_domain : Domain → Signal → Bool
of_domain domain s = same_domain s.domain domain

-- The average of a domain, at most one; without signals, or without weight, it is zero.
unfoldable pub subscore : List Signal → Domain → Ratio
subscore evaluated domain =
    let domain_signals = keep_if (of_domain domain) evaluated in
    let weight = total_weight domain_signals in
    if ltb 0 weight then (min (full * weight) (weighted_sum domain_signals), weight) else (0, 1)

abbrev pub domains : List Domain
domains = authentication ∷ transmission ∷ threat_intel ∷ content ∷ media ∷ url ∷ correlation ∷ []

-- `MultimodalFeatureVectorDTO`; the subscores stand in the order of the domains.
pub record FeatureVector : Type 0 where
  pub domain_subscores : List Ratio
  pub signals : List Signal
  pub completeness_ratio : Ratio
  pub total_evaluated_signals : ℕ

-- What the fusion is given; parsing, transmission, authentication and intelligence are not optional
-- where it is called, but their normalizers allow for it.
pub record Analyses : Type 0 where
  pub auth : Option Auth
  pub transmission : Option Transmission
  pub intel : Option Intel
  pub content_res : Option Content
  pub url_res : Option UrlResult
  pub correlation_res : Option Correlation

unfoldable pub all_signals : Strings → Analyses → List Signal
all_signals str a =
    normalize_auth_signals str.upper a.auth
    ++ normalize_transmission_signals a.transmission
    ++ normalize_threat_intel_signals a.intel
    ++ normalize_content_signals a.content_res
    ++ normalize_media_signals str a.content_res
    ++ normalize_url_signals a.url_res
    ++ normalize_correlation_signals a.correlation_res

unfoldable pub fuse_signals : Strings → Analyses → FeatureVector
fuse_signals str a =
    let signals = all_signals str a in
    let evaluated = keep_if status_evaluated signals in
    let total_evaluated = length evaluated in
    let total_potential = length signals in
    record {
      domain_subscores = map (subscore evaluated) domains;
      signals = signals;
      completeness_ratio =
          if ltb 0 total_potential then (total_evaluated, total_potential) else (1, 1);
      total_evaluated_signals = total_evaluated;
    }
