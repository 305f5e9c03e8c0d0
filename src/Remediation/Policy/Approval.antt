-- ===== src/Remediation/Policy/Approval.antt =====
-- What the policy approves, and the single use of approvals.
use email_analysis_agent.Prelude.{
  ℕ, ◌≤◌, ◌+◌, ◌≡◌, ◌↔◌, ◌⊎◌, refl, Bool, true, false, not, ◌&&◌, Option, none, some, List, [], ◌∷◌,
  if◌then◌else◌, ◌==◌, nat_eq, string_eq, arith,
}
use email_analysis_agent.Dict.Sweep.{member}
use text.Mathlib.TextEquality.{eq_iff}
use email_analysis_agent.Uuid.{Uuid}
use email_analysis_agent.Remediation.Models.{
  ActionTaken, banner_injected, action_eq, ActionStatus, policy_validated, failed_permanently,
  rejected, pending_approval, minimum_confidence, RiskAssessment, DecisionPlan, HumanApprovalToken,
}
use email_analysis_agent.Remediation.Policy.{
  PolicyEngine, Evaluation, validate_provenance, is_informational, evaluate_action_policy,
}

-- What `validate_provenance` compares: the tenants, the messages and the assessments.
pub record Lineage (tenant : Uuid) (a : RiskAssessment) (d : DecisionPlan) : Type 0 where
  pub assessment_tenant : a.tenant_id ≡ tenant
  pub plan_tenant : d.tenant_id ≡ tenant
  pub message : a.message_id ≡ d.message_id
  pub assessment : d.assessment_id ≡ a.assessment_id

-- The approval that a high-impact action needs: not used before, of this tenant, for this message.
abbrev pub Sanctioned : PolicyEngine → Uuid → DecisionPlan → Option HumanApprovalToken → Type 0
Sanctioned p tenant plan none = ⊥
Sanctioned p tenant plan (some token) =
    (member token.approval_id p.used_approval_ids ≡ false)
    × (token.tenant_id ≡ tenant)
    × (token.message_id ≡ plan.message_id)

-- What a validated action may be: informational; or one that is confident enough or a banner, and
-- either not of high impact or sanctioned by a human.
abbrev pub Permitted :
    PolicyEngine → Uuid → DecisionPlan → ActionTaken → Option HumanApprovalToken → Type 0
Permitted p tenant plan action token =
    (is_informational action ≡ true)
    ⊎ (((minimum_confidence ≤ plan.ai_decision_confidence) ⊎ (action ≡ banner_injected))
        × ((member action p.high_impact_actions ≡ false) ⊎ Sanctioned p tenant plan token))

validate_provenance-Lineage :
    (tenant : Uuid) (a : RiskAssessment) (d : DecisionPlan)
    → (validate_provenance tenant a d ≡ true) ↔ Lineage tenant a d
unfolding validate_provenance
validate_provenance-Lineage tenant a d = ground (arith, eq_iff a.message_id d.message_id)

-- The policy validates an action exactly if the tenant is the one of the assessment and of the plan,
-- these two name the same message, the plan names the assessment, and the action is permitted:
-- informational, or confident enough or a banner and then not of high impact or sanctioned by an
-- approval. The incident and the plan's own id are not compared with anything.
pub validated_iff :
    (p : PolicyEngine) (tenant : Uuid) (a : RiskAssessment) (d : DecisionPlan)
    (action : ActionTaken) (token : Option HumanApprovalToken) (dry : Bool)
    → ((evaluate_action_policy p tenant a d action token dry).1.status ≡ policy_validated)
      ↔ (Lineage tenant a d × Permitted p tenant d action token)
unfolding evaluate_action_policy
validated_iff p tenant a d action none dry = ground (arith, validate_provenance-Lineage tenant a d)
validated_iff p tenant a d action (some token) dry =
    ground (arith, validate_provenance-Lineage tenant a d, eq_iff token.message_id d.message_id)

-- One call of `evaluate_action_policy`.
pub record Request : Type 0 where
  pub tenant_id : Uuid
  pub assessment : RiskAssessment
  pub plan : DecisionPlan
  pub action : ActionTaken
  pub token : HumanApprovalToken
  pub is_dry_run : Bool

pub evaluate : PolicyEngine → Request → PolicyEngine × Evaluation
evaluate p r =
    evaluate_action_policy p r.tenant_id r.assessment r.plan r.action (some r.token) r.is_dry_run

abbrev is_validated : ActionStatus → Bool
is_validated policy_validated = true
is_validated _ = false

-- Whether this call validates a high-impact action, neither `DELIVERED` nor `PENDING`, on the
-- strength of the approval `id`.
pub spends : PolicyEngine → Uuid → Request → Bool
spends p id r =
    not (is_informational r.action)
    && member r.action p.high_impact_actions
    && (r.token.approval_id == id)
    && is_validated (evaluate p r).1.status

pub times_spent : PolicyEngine → Uuid → List Request → ℕ
times_spent p id [] = 0
times_spent p id (r ∷ rest) =
    let later = times_spent (evaluate p r).0 id rest in if spends p id r then later + 1 else later

evaluate-used :
    (p : PolicyEngine) (id : Uuid) (r : Request)
    → (member id p.used_approval_ids ≡ true → spends p id r ≡ false)
      × (member id p.used_approval_ids ≡ true → member id (evaluate p r).0.used_approval_ids ≡ true)
      × (spends p id r ≡ true → member id (evaluate p r).0.used_approval_ids ≡ true)
unfolding spends evaluate evaluate_action_policy member
evaluate-used p id r = ground arith

used-never_spent :
    (p : PolicyEngine) (id : Uuid) (rs : List Request)
    → member id p.used_approval_ids ≡ true
    → times_spent p id rs ≡ 0
unfolding times_spent
used-never_spent p id [] used = refl
used-never_spent p id (r ∷ rest) used =
    ground (arith, evaluate-used p id r, used-never_spent (evaluate p r).0 id rest)

-- However many requests come with it, in whatever order and for whatever tenants, an approval
-- validates at most one high-impact action other than `DELIVERED` and `PENDING`.
pub approval-single_use :
    (p : PolicyEngine) (id : Uuid) (rs : List Request) → times_spent p id rs ≤ 1
unfolding times_spent
approval-single_use p id [] = omega arith
approval-single_use p id (r ∷ rest) = ground (
  arith,
  evaluate-used p id r,
  used-never_spent (evaluate p r).0 id rest,
  approval-single_use (evaluate p r).0 id rest,
)

-- Two approvals that agree in identifier, tenant and message are treated alike, whatever incident,
-- action and target they were given for, whenever they expire, whether or not they are marked as
-- used, and whether or not the runs are dry.
pub evaluate-ignores_binding :
    (p : PolicyEngine) (tenant : Uuid) (a : RiskAssessment) (d : DecisionPlan)
    (action : ActionTaken) (t t' : HumanApprovalToken) (dry dry' : Bool)
    → t.approval_id ≡ t'.approval_id
    → t.tenant_id ≡ t'.tenant_id
    → t.message_id ≡ t'.message_id
    → evaluate_action_policy p tenant a d action (some t) dry
      ≡ evaluate_action_policy p tenant a d action (some t') dry'
unfolding evaluate_action_policy
evaluate-ignores_binding p tenant a d action t t' dry dry' same_id same_tenant same_message =
    rw (same_id, same_tenant, same_message)

-- The policy validates, or gives one of three refusals.
pub evaluate-status :
    (p : PolicyEngine) (tenant : Uuid) (a : RiskAssessment) (d : DecisionPlan)
    (action : ActionTaken) (token : Option HumanApprovalToken) (dry : Bool)
    → let status = (evaluate_action_policy p tenant a d action token dry).1.status in
      (status ≡ policy_validated)
      ⊎ ((status ≡ rejected) ⊎ ((status ≡ failed_permanently) ⊎ (status ≡ pending_approval)))
unfolding evaluate_action_policy
evaluate-status p tenant a d action none dry = ground arith
evaluate-status p tenant a d action (some token) dry = ground arith

-- The action that the policy returns is the one that was requested.
pub evaluate-action :
    (p : PolicyEngine) (tenant : Uuid) (a : RiskAssessment) (d : DecisionPlan)
    (action : ActionTaken) (token : Option HumanApprovalToken) (dry : Bool)
    → (evaluate_action_policy p tenant a d action token dry).1.approved_action ≡ action
unfolding evaluate_action_policy
evaluate-action p tenant a d action none dry = ground arith
evaluate-action p tenant a d action (some token) dry = ground arith

pub evaluate-any_run :
    (p : PolicyEngine) (tenant : Uuid) (a : RiskAssessment) (d : DecisionPlan)
    (action : ActionTaken) (token : Option HumanApprovalToken) (dry dry' : Bool)
    → evaluate_action_policy p tenant a d action token dry
      ≡ evaluate_action_policy p tenant a d action token dry'
unfolding evaluate_action_policy
evaluate-any_run p tenant a d action token dry dry' = refl
