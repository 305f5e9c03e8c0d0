-- ===== src/Risk/Policy.antt =====
-- Policies on a score: `RiskPolicyConfig` of src/risk/models.py, `PolicyEvaluator` of
-- src/risk/policy.py, and the profiles of tenants of src/risk/profiles.py.
pub mod Order
use email_analysis_agent.Prelude.{
  ℕ, Bool, true, false, String, Option, none, some, leb, if◌then◌else◌, Eq, string_eq,
}
use email_analysis_agent.Dict.{Dict, lookup, put}

-- `Verdict`, and of `ActionTaken` the actions that a policy takes.
pub data Verdict : Type 0 where
  clean suspicious malicious : Verdict

pub data Action : Type 0 where
  delivered banner_injected quarantined blocked : Action

-- `TenantRiskSensitivity`
pub data Sensitivity : Type 0 where
  aggressive balanced permissive : Sensitivity

-- `RiskPolicyConfig`
pub record RiskPolicyConfig : Type 0 where
  pub weight_display_name_spoof : ℕ
  pub weight_malicious_ioc : ℕ
  pub weight_dmarc_fail : ℕ
  pub weight_reply_to_mismatch : ℕ
  pub weight_thread_hijack : ℕ
  pub weight_spf_fail : ℕ
  pub weight_dkim_fail : ℕ
  pub weight_low_header_integrity : ℕ
  pub weight_free_webmail_reply_to : ℕ
  pub weight_return_path_mismatch : ℕ
  pub threshold_clean_max : ℕ
  pub threshold_suspicious_max : ℕ
  pub threshold_malicious_quarantine_max : ℕ

-- Its defaults.
unfoldable pub default_config : RiskPolicyConfig
default_config = record {
  weight_display_name_spoof = 40;
  weight_malicious_ioc = 35;
  weight_dmarc_fail = 30;
  weight_reply_to_mismatch = 25;
  weight_thread_hijack = 25;
  weight_spf_fail = 20;
  weight_dkim_fail = 15;
  weight_low_header_integrity = 15;
  weight_free_webmail_reply_to = 15;
  weight_return_path_mismatch = 10;
  threshold_clean_max = 29;
  threshold_suspicious_max = 69;
  threshold_malicious_quarantine_max = 89;
}

-- `PolicyEvaluator.evaluate_policy`
unfoldable pub evaluate_config : RiskPolicyConfig → ℕ → Verdict × Action
evaluate_config config risk_score =
    if leb risk_score config.threshold_clean_max
    then (clean, delivered)
    else if leb risk_score config.threshold_suspicious_max
    then (suspicious, banner_injected)
    else if leb risk_score config.threshold_malicious_quarantine_max
    then (malicious, quarantined)
    else (malicious, blocked)

-- `TenantRiskProfile`
pub record Profile : Type 0 where
  pub tenant_id : String
  pub sensitivity : Sensitivity
  pub threshold_clean_max : ℕ
  pub threshold_suspicious_max : ℕ
  pub threshold_malicious_quarantine_max : ℕ
  pub enforce_quarantine_on_suspicious : Bool

-- `TenantRiskProfile.evaluate_policy`
unfoldable pub evaluate_policy : Profile → ℕ → Verdict × Action
evaluate_policy p risk_score =
    if leb risk_score p.threshold_clean_max
    then (clean, delivered)
    else if leb risk_score p.threshold_suspicious_max
    then (suspicious, (if p.enforce_quarantine_on_suspicious then quarantined else banner_injected))
    else if leb risk_score p.threshold_malicious_quarantine_max
    then (malicious, quarantined)
    else (malicious, blocked)

unfoldable pub create_aggressive : String → Profile
create_aggressive tenant_id = record {
  tenant_id = tenant_id;
  sensitivity = aggressive;
  threshold_clean_max = 19;
  threshold_suspicious_max = 49;
  threshold_malicious_quarantine_max = 79;
  enforce_quarantine_on_suspicious = true;
}

unfoldable pub create_balanced : String → Profile
create_balanced tenant_id = record {
  tenant_id = tenant_id;
  sensitivity = balanced;
  threshold_clean_max = 29;
  threshold_suspicious_max = 69;
  threshold_malicious_quarantine_max = 89;
  enforce_quarantine_on_suspicious = false;
}

-- `create_default`, with the defaults of the fields.
unfoldable pub create_default : String → Profile
create_default tenant_id = record {
  tenant_id = tenant_id;
  sensitivity = balanced;
  threshold_clean_max = 29;
  threshold_suspicious_max = 69;
  threshold_malicious_quarantine_max = 89;
  enforce_quarantine_on_suspicious = false;
}

unfoldable pub create_permissive : String → Profile
create_permissive tenant_id = record {
  tenant_id = tenant_id;
  sensitivity = permissive;
  threshold_clean_max = 39;
  threshold_suspicious_max = 79;
  threshold_malicious_quarantine_max = 94;
  enforce_quarantine_on_suspicious = false;
}

-- `InMemoryTenantRiskProfileProvider`
unfoldable pub get_profile : String → Dict String Profile → Profile
get_profile tenant_id profiles = elim (lookup tenant_id profiles) [
  | some p ↦ p
  | none ↦ create_balanced tenant_id
]

unfoldable pub set_profile : Profile → Dict String Profile → Dict String Profile
set_profile p profiles = put p.tenant_id p profiles
