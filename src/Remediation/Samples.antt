-- ===== src/Remediation/Samples.antt =====
-- Test data of the remediation package.
use email_analysis_agent.Prelude.{
  ℕ, Bool, true, false, ◌&&◌, Option, none, some, List, [], ◌∷◌, if◌then◌else◌, ◌==◌, nat_eq,
  list_eq,
}
use email_analysis_agent.Text.{Text, codes}
use email_analysis_agent.Uuid.{Uuid}
use email_analysis_agent.Remediation.Models.{
  blocked, quarantined, RiskAssessment, DecisionPlan, HumanApprovalToken, RemediationResult,
  requested,
}
use email_analysis_agent.Remediation.Policy.{PolicyEngine}
use email_analysis_agent.Remediation.Dispatcher.{AuditRepository, Dispatcher, Order}

abbrev pub assessment : RiskAssessment
assessment = record { assessment_id = 7; tenant_id = 1; message_id = "m-1" }

abbrev pub plan : DecisionPlan
plan = record {
  plan_id = 8;
  assessment_id = 7;
  tenant_id = 1;
  message_id = "m-1";
  ai_decision_confidence = 900000;
}

abbrev pub token : HumanApprovalToken
token = record {
  approval_id = 5;
  tenant_id = 1;
  incident_id = 2;
  message_id = "m-1";
  requested_action = blocked;
  target_id = codes "mallory";
  approver_identity = "analyst";
  created_at = "t0";
  expires_at = "t1";
  is_used = false;
}

-- The same approval, for another action on another target, and marked as used.
abbrev pub other_token : HumanApprovalToken
other_token = record token {
  requested_action = quarantined;
  target_id = codes "alice";
  is_used = true;
}

abbrev pub engine : PolicyEngine
engine = record { high_impact_actions = blocked ∷ []; used_approval_ids = [] }

abbrev pub order : Order
order = record {
  tenant_id = 1;
  incident_id = 2;
  assessment = assessment;
  decision_plan = plan;
  requested_action = blocked;
  target_id = codes "mallory";
  approval_token = some token;
  is_dry_run = false;
}

abbrev pub planned : RemediationResult
planned = record {
  remediation_id = 9;
  tenant_id = 1;
  incident_id = 2;
  message_id = "m-1";
  assessment_id = 7;
  decision_plan_id = 8;
  requested_action = blocked;
  approved_action = blocked;
  action_status = requested;
  idempotency_key = codes "key";
  executing_adapter = "None";
  external_reference_id = none;
  verification_status = "PENDING";
  siem_export_status = "NOT_ATTEMPTED";
  is_dry_run = false;
  failure_reason = none;
}

-- A repository that keeps every record, and finds the last one that was saved under a key.
unfoldable pub find_record : List RemediationResult → Uuid → Text → Option RemediationResult
find_record [] tenant key = none
find_record (r ∷ rs) tenant key =
    if (r.tenant_id == tenant) && (r.idempotency_key == key)
    then some r
    else find_record rs tenant key

abbrev pub audit_list : AuditRepository (List RemediationResult)
audit_list = record {
  save_remediation_audit = λ rs r. r ∷ rs;
  get_remediation_by_idempotency_key = find_record;
}

abbrev pub dispatcher : Dispatcher (List RemediationResult)
dispatcher = record { policy_engine = engine; audit = [] }

-- Stands for a hash.
abbrev pub same_text : Text → Text
same_text t = t

abbrev pub no_hash : Text → ℕ
no_hash t = 0

abbrev pub never : Text → Bool
never t = false
