-- ===== src/Remediation/Models.antt =====
-- The types of src/remediation/models.py and, of those of other packages, the fields that remediation
-- reads: `ActionTaken` of src/common/constants.py, `RiskAssessment` and `DecisionPlan`. Confidence
-- scores, floats between 0 and 1 in the source, are whole millionths.
use email_analysis_agent.Prelude.{ℕ, Bool, true, false, String, Option, ◌≡◌, ◌↔◌, arith, Eq}
use email_analysis_agent.Text.{Text}
use email_analysis_agent.Uuid.{Uuid}

pub data ActionTaken : Type 0 where
  delivered quarantined retracted banner_injected blocked pending : ActionTaken

pub data ActionStatus : Type 0 where
  requested policy_validated pending_approval approved dispatching executed : ActionStatus
  verifying verified rejected failed retrying failed_permanently : ActionStatus

abbrev pub action_beq : ActionTaken → ActionTaken → Bool
action_beq delivered delivered = true
action_beq quarantined quarantined = true
action_beq retracted retracted = true
action_beq banner_injected banner_injected = true
action_beq blocked blocked = true
action_beq pending pending = true
action_beq _ _ = false

pub action_beq_iff : (a b : ActionTaken) → (action_beq a b ≡ true) ↔ (a ≡ b)
action_beq_iff a b = ground arith

instance abbrev pub action_eq : Eq ActionTaken
action_eq = record { same = action_beq; same_iff = action_beq_iff }

-- A score of 1.0, and the minimum confidence of 0.85.
abbrev pub minimum_confidence : ℕ
minimum_confidence = 850000

pub record RiskAssessment : Type 0 where
  pub assessment_id : Uuid
  pub tenant_id : Uuid
  pub message_id : String

pub record DecisionPlan : Type 0 where
  pub plan_id : Uuid
  pub assessment_id : Uuid
  pub tenant_id : Uuid
  pub message_id : String
  pub ai_decision_confidence : ℕ

pub record HumanApprovalToken : Type 0 where
  pub approval_id : Uuid
  pub tenant_id : Uuid
  pub incident_id : Uuid
  pub message_id : String
  pub requested_action : ActionTaken
  pub target_id : Text
  pub approver_identity : String
  pub created_at : String
  pub expires_at : String
  pub is_used : Bool

pub record RemediationResult : Type 0 where
  pub remediation_id : Uuid
  pub tenant_id : Uuid
  pub incident_id : Uuid
  pub message_id : String
  pub assessment_id : Uuid
  pub decision_plan_id : Uuid
  pub requested_action : ActionTaken
  pub approved_action : ActionTaken
  pub action_status : ActionStatus
  pub idempotency_key : Text
  pub executing_adapter : String
  pub external_reference_id : Option Text
  pub verification_status : String
  pub siem_export_status : String
  pub is_dry_run : Bool
  pub failure_reason : Option Text
