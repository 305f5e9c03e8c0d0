-- ===== src/Remediation/Dispatcher/Commits.antt =====
-- What a dispatch commits to the audit log.
use email_analysis_agent.Prelude.{◌≡◌, String, List, arith}
use email_analysis_agent.Text.{Text}
use email_analysis_agent.Uuid.{Uuid}
use email_analysis_agent.Remediation.Models.{action_eq, RemediationResult}
use email_analysis_agent.Remediation.Policy.{evaluate_action_policy}
use email_analysis_agent.Remediation.Adapters.{Adapter}
use email_analysis_agent.Remediation.Dispatcher.{
  AuditRepository, Dispatcher, Order, Outcome, generate_idempotency_key, commit, export_and_commit,
  run_adapter, run_validated, initial_result, run_order,
}

module _ (sha256 : Text → Text) {A : Type 0} (repo : AuditRepository A)
    (siem : RemediationResult → String) (adapters : List Adapter) where
  -- An outcome whose audit log is the old one with the outcome's result saved, under the
  -- tenant and the key of a given result.
  pub record Committed (audit : A) (r : RemediationResult) (out : Outcome A) : Type 0 where
    pub saved : out.dispatcher.audit ≡ repo.save_remediation_audit audit out.result
    pub tenant : out.result.tenant_id ≡ r.tenant_id
    pub key : out.result.idempotency_key ≡ r.idempotency_key

  run_adapter-Committed :
      (d : Dispatcher A) (r : RemediationResult) (target : Text) (a : Adapter)
      → Committed d.audit r (run_adapter sha256 repo siem adapters d r target a)
  unfolding run_adapter commit export_and_commit
  run_adapter-Committed d r target a = ground arith

  run_validated-Committed :
      (d : Dispatcher A) (o : Order) (r : RemediationResult)
      → Committed d.audit r (run_validated sha256 repo siem adapters d o r)
  unfolding run_validated commit export_and_commit
  run_validated-Committed d o r =
      ground (arith, λ (a : Adapter). run_adapter-Committed d r o.target_id a)

  pub run_order-Committed :
      (d : Dispatcher A) (o : Order) (id : Uuid)
      → let out = run_order sha256 repo siem adapters d o id in
        (out.dispatcher.audit ≡ repo.save_remediation_audit d.audit out.result)
        × (out.result.tenant_id ≡ o.tenant_id)
        × (out.result.idempotency_key ≡ generate_idempotency_key sha256 o)
  unfolding run_order commit initial_result
  run_order-Committed d o id =
      let (policy, evaluation) =
        evaluate_action_policy d.policy_engine o.tenant_id o.assessment o.decision_plan
          o.requested_action o.approval_token o.is_dry_run in
      let d' : Dispatcher A = record d { policy_engine = policy } in
      let r =
        initial_result sha256 repo siem adapters o id evaluation.status
          evaluation.approved_action in
      ground (arith, run_validated-Committed d' o r)
