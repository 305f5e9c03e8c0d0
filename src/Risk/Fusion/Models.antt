-- ===== src/Risk/Fusion/Models.antt =====
-- Signals (src/risk/fusion_models.py), and of the analyses that the fusion reads the fields it uses.
-- Scores are in ten-thousandths, the scores and confidences that it is given in thousandths, and
-- weights in tenths, so that no product is rounded.
use email_analysis_agent.Prelude.{ℕ, Bool, String, Option, List, ◌==◌, nat_eq}

-- `SignalDomain`
pub data Domain : Type 0 where
  authentication transmission threat_intel content media url correlation : Domain

abbrev pub domain_code : Domain → ℕ
domain_code authentication = 0
domain_code transmission = 1
domain_code threat_intel = 2
domain_code content = 3
domain_code media = 4
domain_code url = 5
domain_code correlation = 6

abbrev pub same_domain : Domain → Domain → Bool
same_domain a b = domain_code a == domain_code b

-- `EvidenceStatus`
pub data EvidenceStatus : Type 0 where
  evaluated_positive evaluated_negative skipped unavailable error : EvidenceStatus

-- `NormalizedSignalDTO`, without the raw value and the explanation.
pub record Signal : Type 0 where
  pub domain : Domain
  pub signal_name : String
  pub normalized_score : ℕ
  pub confidence : ℕ
  pub weight : ℕ
  pub status : EvidenceStatus

pub record Arc : Type 0 where
  pub chain_valid : Bool
  pub instance_count : ℕ

pub record Auth : Type 0 where
  pub dmarc_result : Option String
  pub spf_result : Option String
  pub dkim_overall_result : Option String
  pub arc : Option Arc

pub record Transmission : Type 0 where
  pub is_display_name_spoofed : Bool
  pub is_reply_to_mismatched : Bool
  pub is_thread_hijack_suspect : Bool
  pub header_integrity_score : ℕ

-- Of an observation, the age of the domain in days, if its payload has one that is a number.
pub record Intel : Type 0 where
  pub malicious_ioc_count : ℕ
  pub overall_confidence : Option ℕ
  pub enriched_targets : List (List (Option ℕ))

-- `MediaStatus`; the last is every other one.
pub data MediaStatus : Type 0 where
  media_success media_unavailable media_failed media_other : MediaStatus

pub record MediaEvidence : Type 0 where
  pub ocr_status : MediaStatus
  pub ocr_extracted_text : Option String
  pub ocr_confidence : ℕ
  pub qr_status : MediaStatus
  pub qr_detected : Bool
  pub qr_extracted_urls : List String

pub record Content : Type 0 where
  pub urgency_score : ℕ
  pub financial_coercion_score : ℕ
  pub has_hidden_text : Bool
  pub script_tag_count : ℕ
  pub html_entity_obfuscation_count : ℕ
  pub media_evidence : Option MediaEvidence

-- Of the sandbox and of the chain of redirects what is read, if they are there.
pub record UrlResult : Type 0 where
  pub has_credential_inputs : Option Bool
  pub total_hops : Option ℕ
  pub ssrf_violation_detected : Bool

pub record Correlation : Type 0 where
  pub campaign_detected : Bool
  pub campaign_score : ℕ
