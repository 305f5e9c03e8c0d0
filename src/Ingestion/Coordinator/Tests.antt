-- ===== src/Ingestion/Coordinator/Tests.antt =====
-- The theorems on the sweep at inputs that meet their conditions.
use email_analysis_agent.Prelude.{
  ℕ, ◌+◌, ◌≤◌, ◌≡◌, refl, Bool, true, false, none, some, [], ◌∷◌, arith, ◌==◌, nat_eq,
}
use email_analysis_agent.Dict.{lookup}
use email_analysis_agent.Dict.Sweep.{member}
use email_analysis_agent.Text.{Text, codes, strip, starts_with}
use email_analysis_agent.Ingestion.Models.{ms_graph, gmail}
use email_analysis_agent.Ingestion.Daemons.{
  Daemon, no_daemons, get_daemon, AccountKey, account_key_eq,
}
use email_analysis_agent.Ingestion.Daemons.Lookups.{by_id}
use email_analysis_agent.Ingestion.Coordinator.{
  ProviderValue, known, shown, Account, World, Coordinator, calculate_backoff_sec, map_provider,
  try_account, is_waiting, reconcile_account, reconcile_accounts, reconcile_once, active_keys,
}
use email_analysis_agent.Ingestion.Coordinator.Backoff.{failures_of, reconcile_account-waits}
use email_analysis_agent.Ingestion.Coordinator.Isolation.{Agree, reconcile_accounts-other}
use email_analysis_agent.Ingestion.Coordinator.Histories.{sweeps, sweeps-inactive}

abbrev same_text : Text → Text
same_text s = s

abbrev no_text : ProviderValue → Text
no_text p = []

abbrev first_tenant : Daemon → Bool
first_tenant d = d.tenant_id == 1

abbrev always : Daemon → Bool
always d = true

-- Only the daemons of the first tenant start.
abbrev world : World
world = record {
  lower = same_text;
  upper = same_text;
  format_provider = no_text;
  sha256 = same_text;
  starts = first_tenant;
  stops = always;
}

abbrev account : ℕ → ℕ → Account
account tenant id = record {
  tenant_id = tenant;
  id = id;
  email_address = codes "a@b";
  provider = known gmail;
  is_active = true;
  access_token = codes "t";
  refresh_token = codes "r";
}

abbrev empty : Coordinator
empty = record {
  registry = no_daemons;
  is_running = true;
  consecutive_failures = [];
  next_retry_time = [];
  account_config_hashes = [];
  total_sync_cycles = 0;
  total_daemons_spawned = 0;
  total_daemons_terminated = 0;
}

-- The account of the second tenant has failed 1024 times.
abbrev exhausted : Coordinator
exhausted = record empty {
  consecutive_failures = ((2, 20), 1024) ∷ [];
  next_retry_time = ((2, 20), 5) ∷ [];
}

graph_named : map_provider world (shown (codes " GRAPH ")) ≡ some ms_graph
unfolding map_provider strip starts_with
graph_named = refl

unknown_named : map_provider world (shown (codes "POP3")) ≡ none
unfolding map_provider strip starts_with
unknown_named = refl

second_not_waiting : is_waiting 7 empty (2, 20) ≡ false
unfolding is_waiting lookup
second_not_waiting = refl

second_fails : (try_account world empty (account 2 20)).1 ≡ false
unfolding try_account get_daemon lookup
second_fails = refl

first_delay : calculate_backoff_sec (failures_of empty (2, 20) + 1) ≡ some 10
unfolding calculate_backoff_sec lookup
first_delay = refl

fifth_delay : calculate_backoff_sec 5 ≡ some 160
unfolding calculate_backoff_sec
fifth_delay = refl

sixth_delay : calculate_backoff_sec 6 ≡ some 300
unfolding calculate_backoff_sec
sixth_delay = refl

reconcile_account-waits_example :
    let (c', raised) = reconcile_account world 7 empty (account 2 20) in
    (raised ≡ false)
    × (failures_of c' (2, 20) ≡ failures_of empty (2, 20) + 1)
    × (reconcile_account world 9 c' (account 2 20) ≡ (c', false))
reconcile_account-waits_example =
    reconcile_account-waits world 7 9 empty (account 2 20) 10 second_not_waiting second_fails
      first_delay (omega arith)

abbrev third : AccountKey
third = (3, 30)

reconcile_accounts-other_example :
    Agree third gmail empty (reconcile_accounts world 7 empty (account 1 10 ∷ account 2 20 ∷ [])).0
reconcile_accounts-other_example =
    reconcile_accounts-other world 7 (account 1 10 ∷ account 2 20 ∷ []) empty third gmail
      (refl, (refl, tt))

exhausted_not_waiting : is_waiting 7 exhausted (2, 20) ≡ false
unfolding is_waiting lookup
exhausted_not_waiting = refl

exhausted_fails : (try_account world exhausted (account 2 20)).1 ≡ false
unfolding try_account get_daemon lookup
exhausted_fails = refl

exhausted_count : 1024 ≤ failures_of exhausted (2, 20)
unfolding lookup
exhausted_count = omega arith

first_gone : member (1, 10) (active_keys (account 2 20 ∷ [])) ≡ false
unfolding member active_keys
first_gone = refl

sweeps-inactive_example :
    by_id
      (reconcile_once world 9
        (sweeps empty ((world, 7, account 1 10 ∷ []) ∷ []))
        (account 2 20 ∷ [])).0.registry
      ((1, 10), gmail)
    ≡ none
sweeps-inactive_example =
    sweeps-inactive ((world, 7, account 1 10 ∷ []) ∷ []) empty world 9 (account 2 20 ∷ []) (1, 10)
      gmail refl first_gone

first_not_waiting : is_waiting 7 empty (1, 10) ≡ false
unfolding is_waiting lookup
first_not_waiting = refl

first_succeeds : (try_account world empty (account 1 10)).1 ≡ true
unfolding try_account get_daemon lookup
first_succeeds = refl
