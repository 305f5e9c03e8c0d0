-- ===== src/Remediation/Adapters/References.antt =====
-- Each adapter verifies the references that it issues; what the network adapter refuses.
use email_analysis_agent.Prelude.{ℕ, ◌≡◌, ◌<◌, refl, Bool, true, false, not, ◌||◌, arith}
use email_analysis_agent.Text.{Text, strip, starts_with, count}
use email_analysis_agent.Remediation.Models.{RemediationResult}
use email_analysis_agent.Remediation.Adapters.{
  Adapter, mailbox_adapter, identity_adapter, network_adapter,
}

-- A live execution that succeeds is verified by the adapter that made it.
pub self_verifies : Adapter → RemediationResult → Text → Bool
self_verifies adapter r target =
    let done = adapter.execute_action r target false in
    not done.success || (adapter.verify_action r done.external_reference_id).0

module _ (hash : Text → ℕ) (is_digits is_ip_address matches_domain : Text → Bool) where
  -- Whatever the target, each of the three adapters verifies the reference of its own successful
  -- live execution.
  pub adapters-self_verify :
      (r : RemediationResult) (target : Text)
      → (self_verifies (mailbox_adapter hash) r target ≡ true)
        × (self_verifies (identity_adapter hash) r target ≡ true)
        × (self_verifies (network_adapter hash is_digits is_ip_address matches_domain) r target
            ≡ true)
  unfolding self_verifies mailbox_adapter identity_adapter network_adapter starts_with
  adapters-self_verify r target = ground arith

  -- A target with fewer than two dots is taken for an IP address, so a domain such as `phish.com`
  -- is refused: unless it is an IP address, its execution fails.
  pub network-refuses_short_domain :
      (r : RemediationResult) (target : Text) (dry : Bool)
      → count 46 target < 2
      → is_ip_address (strip target) ≡ false
      → ((network_adapter hash is_digits is_ip_address matches_domain).execute_action r target
          dry).success
        ≡ false
  unfolding network_adapter
  network-refuses_short_domain r target dry few no_ip = ground arith

  pub mailbox-round :
      (r r' : RemediationResult) (target : Text)
      → let adapter = mailbox_adapter hash in
        ((adapter.execute_action r target false).success ≡ true)
        × ((adapter.verify_action r'
              (adapter.execute_action r target false).external_reference_id).0
            ≡ true)
        × (adapter.adapter_name ≡ "EmailMailboxAdapter")
  unfolding mailbox_adapter starts_with
  mailbox-round r r' target = (refl, ground arith, refl)
