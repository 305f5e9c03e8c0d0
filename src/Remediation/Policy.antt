-- ===== src/Remediation/Policy.antt =====
-- `ResponsePolicyEngine` of src/remediation/policy_engine.py. The set of used approvals is a list.
pub mod Approval
mod Tests
use email_analysis_agent.Prelude.{
  ℕ, Bool, true, false, not, ◌&&◌, ◌||◌, String, Option, none, some, List, [], ◌∷◌, ltb,
  if◌then◌else◌, ◌==◌, Eq, nat_eq, string_eq,
}
use email_analysis_agent.Dict.Sweep.{member}
use email_analysis_agent.Text.{Text, codes}
use email_analysis_agent.Uuid.{Uuid}
use email_analysis_agent.Remediation.Models.{
  ActionTaken, delivered, pending, banner_injected, blocked, action_eq, ActionStatus,
  policy_validated, pending_approval, rejected, failed_permanently, minimum_confidence,
  RiskAssessment, DecisionPlan, HumanApprovalToken,
}

pub record PolicyEngine : Type 0 where
  pub high_impact_actions : List ActionTaken
  pub used_approval_ids : List Uuid

-- `high_impact_override or HIGH_IMPACT_ACTIONS`: an empty override is none.
pub new : List ActionTaken → PolicyEngine
new [] = record { high_impact_actions = blocked ∷ []; used_approval_ids = [] }
new (a ∷ override) = record { high_impact_actions = a ∷ override; used_approval_ids = [] }

pub validate_provenance : Uuid → RiskAssessment → DecisionPlan → Bool
validate_provenance tenant_id assessment plan =
    if not (tenant_id == assessment.tenant_id) || not (tenant_id == plan.tenant_id)
    then false
    else if not (assessment.message_id == plan.message_id)
    then false
    else if not (plan.assessment_id == assessment.assessment_id)
    then false
    else true

-- The returned triple: status, approved action, failure reason.
pub record Evaluation : Type 0 where
  pub status : ActionStatus
  pub approved_action : ActionTaken
  pub failure_reason : Option Text

abbrev refuse : ActionStatus → ActionTaken → String → Evaluation
refuse status action reason = record {
  status = status;
  approved_action = action;
  failure_reason = some (codes reason);
}

abbrev approve : ActionTaken → Evaluation
approve action = record {
  status = policy_validated;
  approved_action = action;
  failure_reason = none;
}

-- The last two steps: the human approval boundary, and the approval.
pub check_approval :
    PolicyEngine
    → Uuid
    → DecisionPlan
    → ActionTaken
    → Option HumanApprovalToken
    → PolicyEngine × Evaluation
check_approval p tenant_id plan action none =
    if member action p.high_impact_actions
    then (p, refuse pending_approval action "HUMAN_APPROVAL_REQUIRED")
    else (p, approve action)
check_approval p tenant_id plan action (some token) =
    if member action p.high_impact_actions
    then (if member token.approval_id p.used_approval_ids
        then (p, refuse failed_permanently action "APPROVAL_TOKEN_REPLAY_DETECTED")
        else if not (token.tenant_id == tenant_id) || not (token.message_id == plan.message_id)
        then (p, refuse failed_permanently action "APPROVAL_TOKEN_MISMATCH")
        else (
          record p { used_approval_ids = token.approval_id ∷ p.used_approval_ids },
          approve action,
        ))
    else (p, approve action)

unfoldable pub is_informational : ActionTaken → Bool
is_informational action = action == delivered || action == pending

-- The flag of a dry run is taken and not read, as in the source.
pub evaluate_action_policy :
    PolicyEngine
    → Uuid
    → RiskAssessment
    → DecisionPlan
    → ActionTaken
    → Option HumanApprovalToken
    → Bool
    → PolicyEngine × Evaluation
unfolding validate_provenance is_informational check_approval
evaluate_action_policy p tenant_id assessment plan action token is_dry_run =
    if not (validate_provenance tenant_id assessment plan)
    then (p, refuse failed_permanently action "PROVENANCE_LINEAGE_MISMATCH")
    else if is_informational action
    then (p, approve action)
    else if ltb plan.ai_decision_confidence minimum_confidence && not (action == banner_injected)
    then (p, refuse rejected action "INSUFFICIENT_CONFIDENCE_SCORE")
    else check_approval p tenant_id plan action token
