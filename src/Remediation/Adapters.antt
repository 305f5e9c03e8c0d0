-- ===== src/Remediation/Adapters.antt =====
-- The simulated adapters of src/remediation/adapters: mailbox_adapter.py, identity_adapter.py and
-- network_adapter.py. Python's `hash`, `str.isdigit`, `ipaddress.ip_address` and the match of the
-- domain pattern are parameters.
pub mod References
mod Tests
use email_analysis_agent.Prelude.{
  ℕ, ◌%◌, ◌^◌, Bool, true, false, not, ◌&&◌, ◌||◌, String, Option, none, some, List, [], ◌∷◌, ◌++◌,
  leb, if◌then◌else◌, ◌==◌, Eq, take,
}
use email_analysis_agent.Text.{Text, codes, strip, starts_with, count, without}
use email_analysis_agent.Uuid.{hex_digits}
use email_analysis_agent.Remediation.Models.{
  ActionTaken, delivered, quarantined, retracted, banner_injected, blocked, pending, action_eq,
  RemediationResult,
}

-- What `execute_action` returns.
pub record Execution : Type 0 where
  pub success : Bool
  pub external_reference_id : Option Text
  pub failure_reason : Option Text

-- `IRemediationAdapter`
pub record Adapter : Type 0 where
  pub adapter_name : String
  pub supports_action : ActionTaken → Bool
  pub execute_action : RemediationResult → Text → Bool → Execution
  pub verify_action : RemediationResult → Option Text → Bool × String

abbrev pub succeeded : Text → Execution
succeeded reference = record {
  success = true;
  external_reference_id = some reference;
  failure_reason = none;
}

-- `str(action).lower()`
pub lower_name : ActionTaken → Text
lower_name delivered = codes "delivered"
lower_name quarantined = codes "quarantined"
lower_name retracted = codes "retracted"
lower_name banner_injected = codes "banner_injected"
lower_name blocked = codes "blocked"
lower_name pending = codes "pending"

-- `external_reference_id and external_reference_id.startswith(prefix)`
pub refers : Text → Option Text → Bool
refers prefix none = false
refers prefix (some reference) = starts_with prefix reference

pub verify : Text → String → String → RemediationResult → Option Text → Bool × String
unfolding refers
verify prefix done unverified r reference =
    if r.is_dry_run
    then (true, "DRY_RUN_SIMULATED")
    else if refers prefix reference
    then (true, done)
    else (false, unverified)

module _ (hash : Text → ℕ) where
  -- `f"{hash(s) & 0xFFFFFFFF:08x}"`
  pub hash_text : Text → Text
  hash_text s = hex_digits 8 (hash s % 2 ^ 32)

  pub mailbox_execute : RemediationResult → Text → Bool → Execution
  unfolding hash_text lower_name
  mailbox_execute r target is_dry_run =
      if is_dry_run
      then succeeded (codes "dry_run_mbx_" ++ take 8 (codes r.message_id))
      else succeeded
          (codes "m365_" ++ (lower_name r.approved_action ++ 95 ∷ hash_text (codes r.message_id)))

  unfoldable pub mailbox_adapter : Adapter
  unfolding mailbox_execute verify
  mailbox_adapter = record {
    adapter_name = "EmailMailboxAdapter";
    supports_action = λ action.
        action == quarantined
        || action == retracted
        || action == banner_injected
        || action == blocked;
    execute_action = mailbox_execute;
    verify_action = verify (codes "m365_") "VERIFIED_MAILBOX_SUCCESS" "UNVERIFIED_REFERENCE_ID";
  }

  pub identity_execute : RemediationResult → Text → Bool → Execution
  unfolding hash_text
  identity_execute r target is_dry_run =
      if is_dry_run
      then succeeded (codes "dry_run_id_" ++ take 8 target)
      else succeeded (codes "aad_lock_" ++ hash_text target)

  unfoldable pub identity_adapter : Adapter
  unfolding identity_execute verify
  identity_adapter = record {
    adapter_name = "IdentityAdapter";
    supports_action = λ action. action == blocked || action == quarantined;
    execute_action = identity_execute;
    verify_action =
        verify (codes "aad_") "VERIFIED_IDENTITY_LOCKED" "UNVERIFIED_IDENTITY_REFERENCE";
  }

  module _ (is_digits : Text → Bool) (is_ip_address matches_domain : Text → Bool) where
    pub validate_network_payload : Bool → Text → Bool
    validate_network_payload is_ip_type target =
        if is_ip_type then is_ip_address (strip target) else matches_domain (strip target)

    -- `"IP" if not target_id.count(".") >= 2 or target_id.replace(".", "").isdigit() else "DOMAIN"`
    pub is_ip_type : Text → Bool
    is_ip_type target = not (leb 2 (count 46 target)) || is_digits (without 46 target)

    pub network_execute : RemediationResult → Text → Bool → Execution
    unfolding validate_network_payload is_ip_type hash_text
    network_execute r target is_dry_run =
        if not (validate_network_payload (is_ip_type target) target)
        then record {
          success = false;
          external_reference_id = none;
          failure_reason = some (codes "INVALID_NETWORK_TARGET: " ++ target);
        }
        else if is_dry_run
        then succeeded (codes "dry_run_net_" ++ take 8 target)
        else succeeded (codes "fw_block_" ++ hash_text target)

    unfoldable pub network_adapter : Adapter
    unfolding network_execute verify
    network_adapter = record {
      adapter_name = "NetworkSecurityAdapter";
      supports_action = λ action. action == blocked;
      execute_action = network_execute;
      verify_action =
          verify (codes "fw_") "VERIFIED_FIREWALL_RULE_ACTIVE" "UNVERIFIED_FIREWALL_REFERENCE";
    }

    -- The list that `RemediationDispatcher` uses when it is given none.
    unfoldable pub default_adapters : List Adapter
    unfolding mailbox_adapter identity_adapter network_adapter
    default_adapters = mailbox_adapter ∷ identity_adapter ∷ network_adapter ∷ []
