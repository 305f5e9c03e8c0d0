-- ===== src/Risk/Policy/Order.antt =====
-- How policies order scores and sensitivities.
use email_analysis_agent.Prelude.{ℕ, ◌≤◌, ◌≡◌, refl, String, arith}
use email_analysis_agent.Risk.Policy.{
  Verdict, clean, suspicious, malicious, Action, delivered, banner_injected, quarantined, blocked,
  Profile, default_config, evaluate_config, evaluate_policy, create_aggressive, create_balanced,
  create_default, create_permissive,
}

abbrev pub verdict_rank : Verdict → ℕ
verdict_rank clean = 0
verdict_rank suspicious = 1
verdict_rank malicious = 2

abbrev pub action_rank : Action → ℕ
action_rank delivered = 0
action_rank banner_injected = 1
action_rank quarantined = 2
action_rank blocked = 3

-- The one outcome is at least as lenient as the other, in verdict and in action.
abbrev pub NotAbove : Verdict × Action → Verdict × Action → Type 0
NotAbove (v, a) (w, b) = (verdict_rank v ≤ verdict_rank w) × (action_rank a ≤ action_rank b)

-- Under any profile, also one whose thresholds are out of order, a higher score never gets a more
-- lenient verdict or action.
pub evaluate_policy-monotone :
    (p : Profile) (low high : ℕ)
    → low ≤ high
    → NotAbove (evaluate_policy p low) (evaluate_policy p high)
unfolding evaluate_policy
evaluate_policy-monotone p low high h = ground (arith, h)

-- On every score the aggressive profile is at least as strict as the balanced one, in verdict and in
-- action, and the balanced one as the permissive one; the balanced profile is the one that a tenant
-- without a profile gets, and decides as the evaluator of the default configuration.
pub evaluate_policy-sensitivity :
    (tenant_id : String) (score : ℕ)
    → NotAbove
        (evaluate_policy (create_balanced tenant_id) score)
        (evaluate_policy (create_aggressive tenant_id) score)
      × NotAbove
          (evaluate_policy (create_permissive tenant_id) score)
          (evaluate_policy (create_balanced tenant_id) score)
      × (evaluate_config default_config score ≡ evaluate_policy (create_balanced tenant_id) score)
      × (create_default tenant_id ≡ create_balanced tenant_id)
unfolding evaluate_policy evaluate_config default_config create_aggressive create_balanced
    create_permissive create_default
evaluate_policy-sensitivity tenant_id score = (ground arith, ground arith, refl, refl)
