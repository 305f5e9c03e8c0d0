-- ===== src/Remediation/Dispatcher/Safety.antt =====
-- When a dispatch has an adapter execute, and what the dispatcher's state can become.
use email_analysis_agent.Prelude.{
  ℕ, ◌≡◌, ◌≢◌, refl, Bool, false, String, none, some, List, [], if◌then◌else◌, arith,
}
use email_analysis_agent.Text.{Text}
use email_analysis_agent.Uuid.{Uuid}
use email_analysis_agent.Remediation.Models.{
  ActionTaken, delivered, quarantined, retracted, banner_injected, blocked, pending, action_eq,
  RemediationResult,
}
use email_analysis_agent.Remediation.Policy.{PolicyEngine, evaluate_action_policy, is_informational}
use email_analysis_agent.Remediation.Policy.Approval.{
  Lineage, Permitted, validated_iff, evaluate-status,
}
use email_analysis_agent.Remediation.Adapters.{Adapter, mailbox_adapter, default_adapters}
use email_analysis_agent.Remediation.Dispatcher.{
  AuditRepository, Dispatcher, Order, select_adapter, run_validated, run_order,
  dispatch_remediation, is_halted, commit, export_and_commit, initial_result,
}

-- What must hold before an adapter may execute an order.
pub record Authorised (p : PolicyEngine) (o : Order) : Type 0 where
  pub live : o.is_dry_run ≡ false
  pub lineage : Lineage o.tenant_id o.assessment o.decision_plan
  pub permitted : Permitted p o.tenant_id o.decision_plan o.requested_action o.approval_token

module _ (sha256 : Text → Text) {A : Type 0} (repo : AuditRepository A)
    (siem : RemediationResult → String) (adapters : List Adapter) where
  executions-run_validated :
      (d : Dispatcher A) (o : Order) (r : RemediationResult)
      → (run_validated sha256 repo siem adapters d o r).executions ≢ []
      → o.is_dry_run ≡ false
  unfolding run_validated commit export_and_commit
  executions-run_validated d o r ran = ground arith

  executions-run_order :
      (d : Dispatcher A) (o : Order) (id : Uuid)
      → (run_order sha256 repo siem adapters d o id).executions ≢ []
      → Authorised d.policy_engine o
  unfolding run_order commit is_halted
  executions-run_order d o id ran =
      let p = d.policy_engine in
      let (policy, evaluation) =
        evaluate_action_policy p o.tenant_id o.assessment o.decision_plan o.requested_action
          o.approval_token o.is_dry_run in
      let d' : Dispatcher A = record d { policy_engine = policy } in
      let r =
        initial_result sha256 repo siem adapters o id evaluation.status
          evaluation.approved_action in
      ground (
        arith,
        executions-run_validated d' o r,
        evaluate-status p o.tenant_id o.assessment o.decision_plan o.requested_action
            o.approval_token o.is_dry_run,
        validated_iff p o.tenant_id o.assessment o.decision_plan o.requested_action o.approval_token
            o.is_dry_run,
      )

  -- A dispatch has an adapter execute only if the order is live, its lineage is intact, and the
  -- policy permits the action with the approval that comes with the order.
  pub executions-Authorised :
      (d : Dispatcher A) (o : Order) (id : Uuid)
      → (dispatch_remediation sha256 repo siem adapters d o id).executions ≢ []
      → Authorised d.policy_engine o
  unfolding dispatch_remediation
  executions-Authorised d o id ran = ground (arith, executions-run_order d o id)

-- With the dispatcher's own list of adapters every action but `DELIVERED` and `PENDING` goes to the
-- mailbox adapter, `BLOCKED` included, and those two have no adapter. The identity adapter and the
-- network adapter are never selected.
pub select_adapter-default :
    (hash : Text → ℕ) (is_digits is_ip_address matches_domain : Text → Bool) (action : ActionTaken)
    → select_adapter (default_adapters hash is_digits is_ip_address matches_domain) action
      ≡ (if is_informational action then none else some (mailbox_adapter hash))
unfolding select_adapter default_adapters mailbox_adapter is_informational
select_adapter-default hash is_digits is_ip_address matches_domain delivered = refl
select_adapter-default hash is_digits is_ip_address matches_domain quarantined = refl
select_adapter-default hash is_digits is_ip_address matches_domain retracted = refl
select_adapter-default hash is_digits is_ip_address matches_domain banner_injected = refl
select_adapter-default hash is_digits is_ip_address matches_domain blocked = refl
select_adapter-default hash is_digits is_ip_address matches_domain pending = refl
