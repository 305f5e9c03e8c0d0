-- ===== src/Remediation/Dispatcher/Tests.antt =====
-- Runs of the dispatcher, and its theorems at inputs that meet their conditions.
use email_analysis_agent.Prelude.{
  ℕ, ◌≡◌, ◌≢◌, refl, inl, inr, Bool, true, false, some, List, [], ◌∷◌, arith, String,
}
use email_analysis_agent.Dict.Sweep.{member}
use email_analysis_agent.Text.{codes}
use email_analysis_agent.Remediation.Models.{blocked, verified, policy_validated, RemediationResult}
use email_analysis_agent.Remediation.Policy.{evaluate_action_policy, is_informational}
use email_analysis_agent.Remediation.Adapters.{default_adapters}
use email_analysis_agent.Remediation.Policy.Approval.{validated_iff}
use email_analysis_agent.Remediation.Dispatcher.{
  Order, Dispatcher, Outcome, cached_result, dispatch_remediation,
}
use email_analysis_agent.Remediation.Dispatcher.Safety.{Authorised, executions-Authorised}
use email_analysis_agent.Remediation.Dispatcher.Lifecycle.{
  as_dry_run, dry_run-simulates, validated-executes,
}
use email_analysis_agent.Remediation.Samples.{
  order, engine, assessment, plan, token, dispatcher, audit_list, find_record, same_text, no_hash,
  never,
}

abbrev exported : RemediationResult → String
exported r = "SIEM_EXPORTED"

abbrev dispatch : Dispatcher (List RemediationResult) → Order → ℕ → Outcome (List RemediationResult)
dispatch =
    dispatch_remediation same_text audit_list exported (default_adapters no_hash never never never)

order_validated :
    (dry : Bool)
    → (evaluate_action_policy engine 1 assessment plan blocked (some token) dry).1.status
      ≡ policy_validated
unfolding member
order_validated dry = (validated_iff engine 1 assessment plan blocked (some token) dry).1 (
  record { assessment_tenant = refl; plan_tenant = refl; message = refl; assessment = refl },
  inr (inl (omega arith), inr (refl, refl, refl)),
)

validated-executes_example :
    ((dispatch dispatcher order 9).executions ≡ ("EmailMailboxAdapter", codes "mallory") ∷ [])
    × ((dispatch dispatcher order 9).result.action_status ≡ verified)
unfolding cached_result find_record is_informational
validated-executes_example =
    validated-executes same_text audit_list exported no_hash never never never dispatcher order 9
      refl refl (order_validated false)

executed_once : (dispatch dispatcher order 9).executions ≢ []
unfolding cached_result find_record is_informational
executed_once none_ran = ground (
  arith,
  none_ran,
  validated-executes same_text audit_list exported no_hash never never never dispatcher order 9 refl
      refl (order_validated false),
)

executions-Authorised_example : Authorised engine order
executions-Authorised_example =
    executions-Authorised same_text audit_list exported (default_adapters no_hash never never never)
      dispatcher order 9 executed_once

dry_run_verified : (dispatch dispatcher (as_dry_run order) 9).result.action_status ≡ verified
unfolding cached_result find_record
dry_run_verified =
    (dry_run-simulates same_text audit_list exported (default_adapters no_hash never never never)
      dispatcher (as_dry_run order) 9 refl refl (order_validated true)).1
