-- ===== src/Remediation/Dispatcher.antt =====
-- `RemediationDispatcher` of src/remediation/dispatcher.py. The audit repository and the SIEM exporter
-- are arguments, and so is the identifier that `uuid4` makes; the measured execution time is left
-- out. Besides the result a dispatch returns the adapters that it had execute, with their targets.
pub mod Safety
pub mod Commits
pub mod Lifecycle
mod Tests
use email_analysis_agent.Prelude.{
  ℕ, Bool, true, false, not, String, Option, none, some, List, [], ◌∷◌, ◌++◌, take, if◌then◌else◌,
  ◌==◌, Eq,
}
use email_analysis_agent.Text.{Text, codes}
use email_analysis_agent.Uuid
use email_analysis_agent.Uuid.{Uuid}
use email_analysis_agent.Remediation.Models.{
  ActionTaken, delivered, quarantined, retracted, banner_injected, blocked, pending, action_eq,
  ActionStatus, dispatching, verifying, verified, executed, failed, failed_permanently, rejected,
  pending_approval, RiskAssessment, DecisionPlan, HumanApprovalToken, RemediationResult,
}
use email_analysis_agent.Remediation.Policy.{PolicyEngine, evaluate_action_policy}
use email_analysis_agent.Remediation.Adapters.{Adapter, Execution}

-- `IAuditRepository`, over the states of a repository: what it is asked, with no law on its answers.
-- `SQLiteAuditRepository` does not always find the record that was saved last under a key.
pub record AuditRepository (A : Type 0) : Type 0 where
  pub save_remediation_audit : A → RemediationResult → A
  pub get_remediation_by_idempotency_key : A → Uuid → Text → Option RemediationResult

pub record Dispatcher (A : Type 0) : Type 0 where
  pub policy_engine : PolicyEngine
  pub audit : A

-- The arguments of `dispatch_remediation`.
pub record Order : Type 0 where
  pub tenant_id : Uuid
  pub incident_id : Uuid
  pub assessment : RiskAssessment
  pub decision_plan : DecisionPlan
  pub requested_action : ActionTaken
  pub target_id : Text
  pub approval_token : Option HumanApprovalToken
  pub is_dry_run : Bool

pub record Outcome (A : Type 0) : Type 0 where
  pub dispatcher : Dispatcher A
  pub result : RemediationResult
  pub executions : List (String × Text)

-- `str(action)`
pub action_name : ActionTaken → Text
action_name delivered = codes "DELIVERED"
action_name quarantined = codes "QUARANTINED"
action_name retracted = codes "RETRACTED"
action_name banner_injected = codes "BANNER_INJECTED"
action_name blocked = codes "BLOCKED"
action_name pending = codes "PENDING"

pub target_type : ActionTaken → Text
target_type action = if action == blocked then codes "network" else codes "mailbox"

pub canonical_text : Uuid → Uuid → Text → ActionTaken → Text
unfolding target_type action_name
canonical_text tenant_id incident_id target_id action =
    Uuid.text tenant_id
    ++ 58
      ∷ (Uuid.text incident_id
          ++ 58
            ∷ (target_type action
                ++ 58 ∷ (target_id ++ 58 ∷ (action_name action ++ codes ":1.0.0"))))

-- The statuses at which the dispatcher returns a result that it finds in the repository.
pub is_done : ActionStatus → Bool
is_done verified = true
is_done executed = true
is_done _ = false

-- The statuses at which the policy stops a dispatch.
pub is_halted : ActionStatus → Bool
is_halted rejected = true
is_halted failed_permanently = true
is_halted pending_approval = true
is_halted _ = false

-- The first adapter that supports the action.
pub select_adapter : List Adapter → ActionTaken → Option Adapter
select_adapter [] action = none
select_adapter (a ∷ rest) action =
    if a.supports_action action then some a else select_adapter rest action

-- `err_msg or "ADAPTER_EXECUTION_FAILED"`
pub execution_error : Option Text → Text
execution_error none = codes "ADAPTER_EXECUTION_FAILED"
execution_error (some []) = codes "ADAPTER_EXECUTION_FAILED"
execution_error (some (c ∷ message)) = c ∷ message

module _ (sha256 : Text → Text) where
  unfoldable pub generate_idempotency_key : Order → Text
  unfolding canonical_text
  generate_idempotency_key o =
      sha256 (canonical_text o.tenant_id o.incident_id o.target_id o.requested_action)

  module _ {A : Type 0} (repo : AuditRepository A) (siem : RemediationResult → String)
      (adapters : List Adapter) where
    -- Steps 8 and 9: the export, and the commit of the audit record.
    pub commit : Dispatcher A → RemediationResult → List (String × Text) → Outcome A
    commit d r executions = record {
      dispatcher = record d { audit = repo.save_remediation_audit d.audit r };
      result = r;
      executions = executions;
    }

    pub export_and_commit : Dispatcher A → RemediationResult → List (String × Text) → Outcome A
    unfolding commit
    export_and_commit d r executions =
        commit d (record r { siem_export_status = siem r }) executions

    -- Steps 6 to 9, with the selected adapter.
    pub run_adapter : Dispatcher A → RemediationResult → Text → Adapter → Outcome A
    unfolding execution_error export_and_commit
    run_adapter d r target_id adapter =
        let r' = record r {
          executing_adapter = adapter.adapter_name;
          action_status = dispatching;
        } in
        let done = adapter.execute_action r' target_id false in
        let calls = (adapter.adapter_name, target_id) ∷ [] in
        if not done.success
        then commit d
            (record r' {
              action_status = failed;
              failure_reason = some (execution_error done.failure_reason);
            })
            calls
        else (let r'' = record r' {
          action_status = verifying;
          external_reference_id = done.external_reference_id;
        } in
            let (verified_ok, message) = adapter.verify_action r'' done.external_reference_id in
            export_and_commit d
              (if verified_ok
                then record r'' { action_status = verified; verification_status = message }
                else record r'' {
                  action_status = failed;
                  verification_status = "VERIFICATION_FAILED";
                  failure_reason = some (codes message);
                })
              calls)

    -- Steps 4 and 5: a dry run ends here; a live one looks for its adapter.
    pub run_validated : Dispatcher A → Order → RemediationResult → Outcome A
    unfolding run_adapter select_adapter
    run_validated d o r =
        if o.is_dry_run
        then export_and_commit d
            (record r {
              action_status = verified;
              executing_adapter = "DryRunAdapter";
              external_reference_id = some (codes "dry_run_" ++ take 8 r.idempotency_key);
              verification_status = "DRY_RUN_SIMULATED";
            })
            []
        else elim (select_adapter adapters r.approved_action) [
          | none ↦
              commit d
                (record r {
                  action_status = failed_permanently;
                  failure_reason =
                      some (codes "NO_ADAPTER_FOR_ACTION_" ++ action_name r.approved_action);
                })
                []
          | some adapter ↦ run_adapter d r o.target_id adapter
        ]

    -- The result with which a dispatch starts, with the status and action that the policy gives.
    pub initial_result : Order → Uuid → ActionStatus → ActionTaken → RemediationResult
    initial_result o remediation_id status action = record {
      remediation_id = remediation_id;
      tenant_id = o.tenant_id;
      incident_id = o.incident_id;
      message_id = o.assessment.message_id;
      assessment_id = o.assessment.assessment_id;
      decision_plan_id = o.decision_plan.plan_id;
      requested_action = o.requested_action;
      approved_action = action;
      action_status = status;
      idempotency_key = generate_idempotency_key o;
      executing_adapter = "None";
      external_reference_id = none;
      verification_status = "PENDING";
      siem_export_status = "NOT_ATTEMPTED";
      is_dry_run = o.is_dry_run;
      failure_reason = none;
    }

    -- Steps 3 to 9.
    pub run_order : Dispatcher A → Order → Uuid → Outcome A
    unfolding is_halted run_validated initial_result
    run_order d o remediation_id =
        let (policy, evaluation) =
          evaluate_action_policy d.policy_engine o.tenant_id o.assessment o.decision_plan
            o.requested_action o.approval_token o.is_dry_run in
        let d' = record d { policy_engine = policy } in
        let r = initial_result o remediation_id evaluation.status evaluation.approved_action in
        if is_halted evaluation.status
        then commit d' (record r { failure_reason = evaluation.failure_reason }) []
        else run_validated d' o r

    -- The result that an earlier dispatch of the same order has left, if it was carried out.
    pub cached_result : A → Order → Option RemediationResult
    unfolding is_done
    cached_result audit o =
        elim (repo.get_remediation_by_idempotency_key audit o.tenant_id
          (generate_idempotency_key o)) [
            | none ↦ none
            | some r ↦ if is_done r.action_status then some r else none
          ]

    pub dispatch_remediation : Dispatcher A → Order → Uuid → Outcome A
    unfolding cached_result run_order
    dispatch_remediation d o remediation_id = elim (cached_result d.audit o) [
      | none ↦ run_order d o remediation_id
      | some r ↦ record { dispatcher = d; result = r; executions = [] }
    ]
