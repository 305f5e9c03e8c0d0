-- ===== src/Remediation/Dispatcher/Lifecycle.antt =====
-- Where a dispatch ends: its final statuses, dry runs, and the dispatcher with its own adapters.
use email_analysis_agent.Prelude.{
  ℕ, ◌≡◌, refl, Bool, true, false, String, none, List, [], ◌∷◌, if◌then◌else◌, arith,
}
use email_analysis_agent.Text.{Text}
use email_analysis_agent.Uuid.{Uuid}
use email_analysis_agent.Remediation.Models.{
  action_eq, ActionStatus, policy_validated, pending_approval, dispatching, verifying, verified,
  rejected, failed, failed_permanently, RemediationResult,
}
use email_analysis_agent.Remediation.Policy.{evaluate_action_policy, is_informational}
use email_analysis_agent.Remediation.Policy.Approval.{evaluate-any_run, evaluate-action}
use email_analysis_agent.Remediation.Adapters.{Adapter, mailbox_adapter, default_adapters}
use email_analysis_agent.Remediation.Adapters.References.{mailbox-round}
use email_analysis_agent.Remediation.Dispatcher.{
  AuditRepository, Dispatcher, Order, is_halted, commit, export_and_commit, run_adapter,
  run_validated, initial_result, run_order, generate_idempotency_key, cached_result,
  dispatch_remediation,
}
use email_analysis_agent.Remediation.Dispatcher.Safety.{select_adapter-default}

abbrev pub has_run : List (String × Text) → Bool
has_run [] = false
has_run (call ∷ calls) = true

-- The statuses at which an order may end that is not found in the log, for a dry run or a live one,
-- and whether an adapter was called.
pub is_end : Bool → Bool → ActionStatus → Bool
is_end true false verified = true
is_end false true verified = true
is_end false true failed = true
is_end _ false pending_approval = true
is_end _ false rejected = true
is_end _ false failed_permanently = true
is_end _ _ _ = false

-- An order, as a dry run and live.
abbrev pub as_dry_run : Order → Order
as_dry_run o = record o { is_dry_run = true }

abbrev pub as_live : Order → Order
as_live o = record o { is_dry_run = false }

module _ (sha256 : Text → Text) {A : Type 0} (repo : AuditRepository A)
    (siem : RemediationResult → String) (adapters : List Adapter) where
  run_order-policy :
      (d : Dispatcher A) (o : Order) (id : Uuid)
      → (run_order sha256 repo siem adapters d o id).dispatcher.policy_engine
        ≡ (evaluate_action_policy d.policy_engine o.tenant_id o.assessment o.decision_plan
            o.requested_action o.approval_token o.is_dry_run).0
  unfolding run_order run_validated run_adapter commit export_and_commit initial_result
  run_order-policy d o id = ground arith

  cached-any_run :
      (audit : A) (o : Order)
      → cached_result sha256 repo siem adapters audit (as_dry_run o)
        ≡ cached_result sha256 repo siem adapters audit (as_live o)
  unfolding cached_result generate_idempotency_key
  cached-any_run audit o = refl

  -- A dry run of an order leaves the policy engine exactly as the live run of that order would: the
  -- approval that a live run would spend is spent by the dry run too.
  pub dry_run-spends_approval :
      (d : Dispatcher A) (o : Order) (id : Uuid)
      → (dispatch_remediation sha256 repo siem adapters d
          (as_dry_run o)
          id).dispatcher.policy_engine
        ≡ (dispatch_remediation sha256 repo siem adapters d (as_live o) id).dispatcher.policy_engine
  unfolding dispatch_remediation
  dry_run-spends_approval d o id = ground (
    arith,
    cached-any_run d.audit o,
    run_order-policy d (as_dry_run o) id,
    run_order-policy d (as_live o) id,
    evaluate-any_run d.policy_engine o.tenant_id o.assessment o.decision_plan o.requested_action
        o.approval_token true false,
  )

  -- A dry run that is not found in the log and that the policy validates ends verified, with no
  -- adapter executed.
  pub dry_run-simulates :
      (d : Dispatcher A) (o : Order) (id : Uuid)
      → cached_result sha256 repo siem adapters d.audit o ≡ none
      → o.is_dry_run ≡ true
      → (evaluate_action_policy d.policy_engine o.tenant_id o.assessment o.decision_plan
          o.requested_action o.approval_token o.is_dry_run).1.status
        ≡ policy_validated
      → let out = dispatch_remediation sha256 repo siem adapters d o id in
        (out.executions ≡ []) × (out.result.action_status ≡ verified)
  unfolding dispatch_remediation run_order initial_result is_halted run_validated commit
      export_and_commit
  dry_run-simulates d o id fresh dry validated = ground arith

-- The dispatcher with its own adapters.
module _ (sha256 : Text → Text) {A : Type 0} (repo : AuditRepository A)
    (siem : RemediationResult → String) (hash : Text → ℕ)
    (is_digits is_ip_address matches_domain : Text → Bool) where
  abbrev defaults : List Adapter
  defaults = default_adapters hash is_digits is_ip_address matches_domain

  run_mailbox :
      (d : Dispatcher A) (r : RemediationResult) (target : Text)
      → let out = run_adapter sha256 repo siem defaults d r target (mailbox_adapter hash) in
        (out.executions ≡ ("EmailMailboxAdapter", target) ∷ [])
        × (out.result.action_status ≡ verified)
  unfolding run_adapter commit export_and_commit
  run_mailbox d r target =
      let r' = record r {
        executing_adapter = (mailbox_adapter hash).adapter_name;
        action_status = dispatching;
      } in
      let r'' = record r' {
        action_status = verifying;
        external_reference_id =
            ((mailbox_adapter hash).execute_action r' target false).external_reference_id;
      } in
      ground (arith, mailbox-round hash is_digits is_ip_address matches_domain r' r'' target)

  run_live :
      (d : Dispatcher A) (o : Order) (r : RemediationResult)
      → o.is_dry_run ≡ false
      → let out = run_validated sha256 repo siem defaults d o r in
        (out.executions ≡ (
          if is_informational r.approved_action
          then []
          else ("EmailMailboxAdapter", o.target_id) ∷ []))
        × (out.result.action_status
            ≡ (if is_informational r.approved_action then failed_permanently else verified))
  unfolding run_validated commit
  run_live d o r live = ground (
    arith,
    select_adapter-default hash is_digits is_ip_address matches_domain r.approved_action,
    run_mailbox d r o.target_id,
  )

  -- With the dispatcher's own adapters, a live order that is not found in the log and that the
  -- policy validates: for any action but `DELIVERED` and `PENDING` the mailbox adapter executes it
  -- once, on its target, and the dispatch ends verified. Those two actions have no adapter, so
  -- their dispatch executes nothing and fails permanently.
  pub validated-executes :
      (d : Dispatcher A) (o : Order) (id : Uuid)
      → cached_result sha256 repo siem defaults d.audit o ≡ none
      → o.is_dry_run ≡ false
      → (evaluate_action_policy d.policy_engine o.tenant_id o.assessment o.decision_plan
          o.requested_action o.approval_token false).1.status
        ≡ policy_validated
      → let out = dispatch_remediation sha256 repo siem defaults d o id in
        (out.executions ≡ (
          if is_informational o.requested_action
          then []
          else ("EmailMailboxAdapter", o.target_id) ∷ []))
        × (out.result.action_status
            ≡ (if is_informational o.requested_action then failed_permanently else verified))
  unfolding dispatch_remediation run_order initial_result is_halted
  validated-executes d o id fresh live validated =
      let (policy, evaluation) =
        evaluate_action_policy d.policy_engine o.tenant_id o.assessment o.decision_plan
          o.requested_action o.approval_token false in
      let d' : Dispatcher A = record d { policy_engine = policy } in
      let r =
        initial_result sha256 repo siem defaults o id evaluation.status
          evaluation.approved_action in
      ground (
        arith,
        fresh,
        evaluate-action d.policy_engine o.tenant_id o.assessment o.decision_plan o.requested_action
            o.approval_token false,
        run_live d' o r live,
      )
