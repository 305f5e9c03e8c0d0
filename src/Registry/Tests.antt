-- ===== src/Registry/Tests.antt =====
-- The theorems on the module registry at inputs that meet their conditions.
use email_analysis_agent.Prelude.{ℕ, suc, ◌≡◌, refl, true, false, some, [], ◌∷◌}
use email_analysis_agent.Registry.{Module, Registry, failed, initialize_all, shutdown_all}
use email_analysis_agent.Registry.Lifecycle.{failed_start-never_stopped}

-- A module over a counter of the calls, and one whose `initialize` raises.
abbrev good : Module ℕ
good = record {
  name = "events";
  initialize = λ n. (suc n, false);
  shutdown = λ n. (suc n, true);
  health_check = λ n. (n, some "HEALTHY");
}

abbrev bad : Module ℕ
bad = record good { name = "security"; initialize = λ n. (n, true) }

abbrev stopped : Registry ℕ
stopped = record {
  modules = ("events", good) ∷ ("security", bad) ∷ [];
  initialized = false;
  state = 0;
}

raised : (initialize_all stopped).1 ≡ failed "security"
unfolding initialize_all
raised = refl

failed_start-never_stopped_example : (shutdown_all (initialize_all stopped).0).1 ≡ []
failed_start-never_stopped_example = failed_start-never_stopped stopped "security" refl raised
