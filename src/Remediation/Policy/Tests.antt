-- ===== src/Remediation/Policy/Tests.antt =====
-- The theorems on the policy engine at inputs that meet their conditions.
use email_analysis_agent.Prelude.{◌≤◌, ◌≡◌, ◌↔◌, false, some, [], ◌∷◌}
use email_analysis_agent.Remediation.Models.{blocked, policy_validated}
use email_analysis_agent.Remediation.Policy.{evaluate_action_policy}
use email_analysis_agent.Remediation.Policy.Approval.{
  Lineage, Permitted, Request, validated_iff, times_spent, approval-single_use,
}
use email_analysis_agent.Remediation.Samples.{assessment, plan, token, engine}

abbrev request : Request
request = record {
  tenant_id = 1;
  assessment = assessment;
  plan = plan;
  action = blocked;
  token = token;
  is_dry_run = false;
}

validated_iff_example :
    ((evaluate_action_policy engine 1 assessment plan blocked (some token) false).1.status
      ≡ policy_validated)
    ↔ (Lineage 1 assessment plan × Permitted engine 1 plan blocked (some token))
validated_iff_example = validated_iff engine 1 assessment plan blocked (some token) false

approval-single_use_example : times_spent engine 5 (request ∷ request ∷ []) ≤ 1
approval-single_use_example = approval-single_use engine 5 (request ∷ request ∷ [])
