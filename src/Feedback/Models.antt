-- ===== src/Feedback/Models.antt =====
-- The verdicts, the trust levels and the callers of src/feedback/models.py.
use email_analysis_agent.Prelude.{ℕ, Bool, String, Option, ◌||◌, ◌==◌, string_eq}

-- `AnalystVerdictCorrection`
pub data Correction : Type 0 where
  confirmed_malicious confirmed_suspicious confirmed_clean false_positive false_negative
        benign_anomaly needs_escalation :
      Correction

-- `AnalystTrustLevel`
pub data TrustLevel : Type 0 where
  junior_analyst senior_analyst lead_soc_admin : TrustLevel

-- `ANALYST_TRUST_WEIGHTS`, in hundredths.
unfoldable pub trust_weight : TrustLevel → ℕ
trust_weight junior_analyst = 50
trust_weight senior_analyst = 85
trust_weight lead_soc_admin = 100

-- The values of `AnalystVerdictCorrection`.
unfoldable pub correction_value : Correction → String
correction_value confirmed_malicious = "CONFIRMED_MALICIOUS"
correction_value confirmed_suspicious = "CONFIRMED_SUSPICIOUS"
correction_value confirmed_clean = "CONFIRMED_CLEAN"
correction_value false_positive = "FALSE_POSITIVE"
correction_value false_negative = "FALSE_NEGATIVE"
correction_value benign_anomaly = "BENIGN_ANOMALY"
correction_value needs_escalation = "NEEDS_ESCALATION"

-- `AnalystFeedbackRecordDTO`: the fields that the service and the tuner read; times in seconds.
pub record FeedbackRecord : Type 0 where
  pub feedback_id : String
  pub tenant_id : String
  pub incident_id : String
  pub message_id : String
  pub original_risk_score : ℕ
  pub corrected_verdict : Correction
  pub analyst_id : String
  pub analyst_trust_level : TrustLevel
  pub convergence_weight : ℕ
  pub created_at : ℕ

-- `AuthenticatedAnalystDTO`
pub record Analyst : Type 0 where
  pub analyst_id : String
  pub tenant_id : String
  pub role : String
  pub email : String
  pub trust_level : Option TrustLevel

-- `role.upper() in ("ADMIN", "SUPER_ADMIN", "LEAD_SOC_ADMIN")`; `str.upper` is a parameter.
unfoldable pub is_admin : (String → String) → Analyst → Bool
is_admin upper caller =
    upper caller.role == "ADMIN"
    || upper caller.role == "SUPER_ADMIN"
    || upper caller.role == "LEAD_SOC_ADMIN"
