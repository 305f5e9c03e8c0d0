-- ===== src/Risk/Scoring.antt =====
-- `DeterministicWeightedScoringStrategy` of src/risk/strategies/deterministic.py on a fused vector.
-- With scores in ten-thousandths and confidences in thousandths a point is 20000000 units, so that
-- halving is exact; `round` goes to the even number from a half. The set of categories is kept as one
-- flag for each of the three that the strategy knows.
pub mod Bounds
use email_analysis_agent.Prelude.{
  ℕ, ◌+◌, ◌*◌, ◌/◌, ◌%◌, Bool, true, false, ◌&&◌, ◌||◌, String, Option, none, some, List, [], ◌∷◌,
  ◌++◌, ltb, leb, ◌==◌, Eq, nat_eq, string_eq, if◌then◌else◌, min, keep_if,
}
use email_analysis_agent.Dict.{Dict, lookup, put}
use email_analysis_agent.Dict.Sweep.{member}
use email_analysis_agent.Risk.Fusion.Models.{
  Domain, authentication, transmission, threat_intel, content, media, url, correlation, same_domain,
  EvidenceStatus, evaluated_positive, Signal,
}
use email_analysis_agent.Risk.Fusion.Vector.{domains}

-- `DOMAIN_CEILINGS`
unfoldable pub domain_ceiling : Domain → ℕ
domain_ceiling authentication = 30
domain_ceiling transmission = 40
domain_ceiling threat_intel = 35
domain_ceiling content = 25
domain_ceiling media = 25
domain_ceiling url = 35
domain_ceiling correlation = 20

-- `BASE_SIGNAL_WEIGHTS`
unfoldable pub base_signal_weights : Dict String ℕ
base_signal_weights =
    ("dmarc_result", 30)
    ∷ ("spf_result", 15)
    ∷ ("dkim_result", 15)
    ∷ ("arc_chain_valid", 10)
    ∷ ("is_display_name_spoofed", 40)
    ∷ ("is_reply_to_mismatched", 25)
    ∷ ("is_thread_hijack_suspect", 25)
    ∷ ("header_integrity_score", 15)
    ∷ ("malicious_ioc_count", 35)
    ∷ ("whois_age_days", 15)
    ∷ ("urgency_score", 15)
    ∷ ("financial_coercion_score", 20)
    ∷ ("has_hidden_dom_text", 15)
    ∷ ("tracking_beacons", 5)
    ∷ ("ocr_phishing_detected", 20)
    ∷ ("qr_malicious_destination", 25)
    ∷ ("has_credential_form", 30)
    ∷ ("redirect_depth", 15)
    ∷ ("ssrf_violation", 35)
    ∷ ("campaign_detected", 20)
    ∷ ("historical_similarity_score", 15)
    ∷ []

abbrev pub weight_or : Option ℕ → ℕ
weight_or none = 10
weight_or (some w) = w

unfoldable pub base_weight : String → ℕ
base_weight name = weight_or (lookup name base_signal_weights)

abbrev pub point : ℕ
point = 20000000

-- `int(round(n / d))`
unfoldable pub rounded : ℕ → ℕ → ℕ
rounded n d =
    let q = n / d in
    let r = n % d in
    if ltb (2 * r) d then q else if ltb d (2 * r) then q + 1 else if q % 2 == 0 then q else q + 1

-- `signals_map`: of two signals with one name, the last.
unfoldable pub signals_map_onto : Dict String Signal → List Signal → Dict String Signal
signals_map_onto d [] = d
signals_map_onto d (s ∷ signals) = signals_map_onto (put s.signal_name s d) signals

-- `sig and sig.normalized_score >= 0.5`
unfoldable pub is_strong : Option Signal → Bool
is_strong none = false
is_strong (some s) = leb 5000 s.normalized_score

-- The factors of rules A, B and C, in halves.
pub record Scales : Type 0 where
  pub scale_spf : ℕ
  pub scale_sandbox_cred : ℕ
  pub scale_bec_linguistics : ℕ

abbrev pub halved_if : Bool → ℕ
halved_if true = 1
halved_if false = 2

unfoldable pub scales_of : List Signal → Scales
scales_of signals =
    let strong : String → Bool = λ name. is_strong (lookup name (signals_map_onto [] signals)) in
    record {
      scale_spf = halved_if (strong "dmarc_result" && strong "spf_result");
      scale_sandbox_cred = halved_if (strong "malicious_ioc_count" && strong "has_credential_form");
      scale_bec_linguistics = halved_if (strong "is_display_name_spoofed");
    }

unfoldable pub scale_factor : Scales → String → ℕ
scale_factor sc name =
    if name == "spf_result"
    then sc.scale_spf
    else if name == "has_credential_form"
    then sc.scale_sandbox_cred
    else if name == "urgency_score" || name == "financial_coercion_score"
    then sc.scale_bec_linguistics
    else 2

unfoldable pub signal_points : Scales → Signal → ℕ
signal_points sc s =
    base_weight s.signal_name * s.normalized_score * s.confidence * scale_factor sc s.signal_name

-- `RiskEvidenceDTO`
pub record Evidence : Type 0 where
  pub source_module : Domain
  pub feature_name : String
  pub applied_weight : ℕ
  pub confidence : ℕ

unfoldable pub is_positive : EvidenceStatus → Bool
is_positive evaluated_positive = true
is_positive _ = false

unfoldable pub counts_for : Domain → Signal → Bool
counts_for domain s = same_domain s.domain domain && is_positive s.status

-- The loop over the signals of a domain: its raw points and its evidence.
unfoldable pub raw_points : Scales → List Signal → ℕ
raw_points sc [] = 0
raw_points sc (s ∷ signals) = signal_points sc s + raw_points sc signals

unfoldable pub evidence_of : Scales → Domain → List Signal → List Evidence
evidence_of sc domain [] = []
evidence_of sc domain (s ∷ signals) =
    let rest = evidence_of sc domain signals in
    let applied = rounded (signal_points sc s) point in
    if ltb 0 applied
    then record {
      source_module = domain;
      feature_name = s.signal_name;
      applied_weight = applied;
      confidence = s.confidence;
    }
      ∷ rest
    else rest

-- The points of a domain under its ceiling.
unfoldable pub domain_points : Scales → List Signal → Domain → ℕ
domain_points sc signals domain =
    rounded
      (min (domain_ceiling domain * point) (raw_points sc (keep_if (counts_for domain) signals)))
      point

unfoldable pub sum_domains : Scales → List Signal → List Domain → ℕ
sum_domains sc signals [] = 0
sum_domains sc signals (d ∷ ds) = domain_points sc signals d + sum_domains sc signals ds

unfoldable pub all_evidence : Scales → List Signal → List Domain → List Evidence
all_evidence sc signals [] = []
all_evidence sc signals (d ∷ ds) =
    evidence_of sc d (keep_if (counts_for d) signals) ++ all_evidence sc signals ds

pub record Categories : Type 0 where
  pub bec : Bool
  pub phishing : Bool
  pub credential_harvesting : Bool

abbrev pub bec_signals : List String
bec_signals =
    "is_display_name_spoofed" ∷ "is_thread_hijack_suspect" ∷ "financial_coercion_score" ∷ []

abbrev pub phishing_signals : List String
phishing_signals =
    "malicious_ioc_count" ∷ "ocr_phishing_detected" ∷ "qr_malicious_destination"
    ∷ "campaign_detected" ∷ "historical_similarity_score" ∷ []

abbrev pub credential_signals : List String
credential_signals = "has_credential_form" ∷ "is_reply_to_mismatched" ∷ []

-- Is one of the names that of a positive signal?
unfoldable pub tagged : List String → List Signal → Bool
tagged names [] = false
tagged names (s ∷ signals) =
    (is_positive s.status && member s.signal_name names) || tagged names signals

pub record Scored : Type 0 where
  pub risk_score : ℕ
  pub risk_evidence : List Evidence
  pub categories : Categories

unfoldable pub calculate_multimodal_score : List Signal → Scored
calculate_multimodal_score signals =
    let sc = scales_of signals in
    record {
      risk_score = min 100 (sum_domains sc signals domains);
      risk_evidence = all_evidence sc signals domains;
      categories = record {
        bec = tagged bec_signals signals;
        phishing = tagged phishing_signals signals;
        credential_harvesting = tagged credential_signals signals;
      };
    }
