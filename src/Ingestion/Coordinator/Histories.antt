-- ===== src/Ingestion/Coordinator/Histories.antt =====
-- Sweeps one after another: every daemon stays under its own identifiers.
use email_analysis_agent.Prelude.{
  ℕ, ◌≡◌, refl, false, none, List, [], ◌∷◌, arith, nat_eq, Option-cases, Bool-cases, inl, inr,
  keep_if,
}
use email_analysis_agent.Dict.{lookup}
use email_analysis_agent.Dict.Entries.{All-put, All-remove}
use email_analysis_agent.Dict.Sweep.{member}
use email_analysis_agent.Ingestion.Models.{MailboxProvider}
use email_analysis_agent.Ingestion.Daemons.{
  Daemon, DaemonId, daemon_id_eq, id_of, no_daemons, AccountKey, account_key_eq, list_daemons,
  register, unregister,
}
use email_analysis_agent.Ingestion.Daemons.Lookups.{by_id}
use email_analysis_agent.Ingestion.Coordinator.{
  Account, key_of, World, Coordinator, map_provider, drop_daemon, create_and_register_daemon,
  daemon_of, settle, launch, try_account, clean_up, note_failure, is_waiting, reconcile_account,
  terminate, terminate_each, active, active_keys, without_inactive, reconcile_accounts,
  reconcile_once,
}
use email_analysis_agent.Ingestion.Coordinator.Isolation.{try_account-cases}
use email_analysis_agent.Ingestion.Coordinator.Removal.{
  Entry, Keyed, registry-reconcile_once, reconcile_once-inactive,
}

drop_daemon-Keyed :
    (w : World) (c : Coordinator) (k : AccountKey) (p : MailboxProvider)
    → Keyed c
    → Keyed (drop_daemon w c k p)
unfolding drop_daemon unregister
drop_daemon-Keyed w c (t, a) p keyed =
    let id : DaemonId = ((t, a), p) in
    elim (Option-cases (lookup id c.registry.daemons_by_id)) [
      | inl missing ↦ rw (drop_daemon, unregister, missing) keyed
      | inr (d, found) ↦
          rw (drop_daemon, unregister, found) (All-remove Entry id c.registry.daemons_by_id keyed)
    ]

launch-Keyed :
    (w : World) (c : Coordinator) (acc : Account) (p : MailboxProvider)
    → Keyed c
    → Keyed (launch w c acc p).0
unfolding launch create_and_register_daemon register settle
launch-Keyed w c acc p keyed =
    let d = daemon_of acc p in
    let added = All-put Entry (id_of d) d c.registry.daemons_by_id refl keyed in
    elim (Bool-cases (w.starts d)) [ inl on ↦ rw on added | inr off ↦ rw off added ]

try_account-Keyed :
    (w : World) (c : Coordinator) (acc : Account) → Keyed c → Keyed (try_account w c acc).0
try_account-Keyed w c acc keyed = elim (try_account-cases w c acc) [
  | inl same ↦ rw same keyed
  | inr (inl (p, n, launched)) ↦ rw launched (launch-Keyed w c acc p keyed)
  | inr (inr (p, launched)) ↦ rw launched (
      launch-Keyed w (drop_daemon w c (key_of acc) p) acc p
        (drop_daemon-Keyed w c (key_of acc) p keyed))
]

registry-note_failure :
    (w : World) (now : ℕ) (c : Coordinator) (acc : Account)
    → (note_failure w now c acc).0.registry ≡ (clean_up w c acc).registry
unfolding note_failure
registry-note_failure w now c acc = ground arith

note_failure-Keyed :
    (w : World) (now : ℕ) (c : Coordinator) (acc : Account)
    → Keyed c
    → Keyed (note_failure w now c acc).0
unfolding clean_up
note_failure-Keyed w now c acc keyed =
    rw (registry-note_failure w now c acc) (elim (Option-cases (map_provider w acc.provider)) [
      | inl unknown ↦ rw (clean_up, unknown) keyed
      | inr (p, named) ↦ rw (clean_up, named) (drop_daemon-Keyed w c (key_of acc) p keyed)
    ])

reconcile_account-Keyed :
    (w : World) (now : ℕ) (c : Coordinator) (acc : Account)
    → Keyed c
    → Keyed (reconcile_account w now c acc).0
unfolding reconcile_account
reconcile_account-Keyed w now c acc keyed =
    let tried = try_account-Keyed w c acc keyed in
    elim (Bool-cases (is_waiting now c (key_of acc))) [
      | inl waits ↦ rw (reconcile_account, waits) keyed
      | inr ready ↦ elim (Bool-cases (try_account w c acc).1) [
        | inl succeeded ↦ rw (reconcile_account, ready, succeeded) tried
        | inr failed ↦
            rw (reconcile_account, ready, failed)
              (note_failure-Keyed w now (try_account w c acc).0 acc tried)
      ]
    ]

reconcile_accounts-Keyed :
    (w : World) (now : ℕ) (accounts : List Account) (c : Coordinator)
    → Keyed c
    → Keyed (reconcile_accounts w now c accounts).0
unfolding reconcile_accounts
reconcile_accounts-Keyed w now [] c keyed = keyed
reconcile_accounts-Keyed w now (acc ∷ accounts) c keyed =
    let next = reconcile_account-Keyed w now c acc keyed in
    elim (Bool-cases (reconcile_account w now c acc).1) [
      | inl raised ↦ rw (reconcile_accounts, raised) next
      | inr fine ↦
          rw (reconcile_accounts, fine)
            (reconcile_accounts-Keyed w now accounts (reconcile_account w now c acc).0 next)
    ]

terminate-Keyed : (w : World) (c : Coordinator) (d : Daemon) → Keyed c → Keyed (terminate w c d)
unfolding terminate
terminate-Keyed w c d keyed = drop_daemon-Keyed w c (d.tenant_id, d.account_id) d.provider keyed

terminate_each-Keyed :
    (w : World) (keys : List AccountKey) (ds : List Daemon) (c : Coordinator)
    → Keyed c
    → Keyed (terminate_each w keys c ds)
unfolding terminate_each
terminate_each-Keyed w keys [] c keyed = keyed
terminate_each-Keyed w keys (d ∷ ds) c keyed =
    elim (Bool-cases (member (d.tenant_id, d.account_id) keys)) [
      | inl stays ↦ rw (terminate_each, stays) (terminate_each-Keyed w keys ds c keyed)
      | inr goes ↦
          rw (terminate_each, goes)
            (terminate_each-Keyed w keys ds (terminate w c d) (terminate-Keyed w c d keyed))
    ]

reconcile_once-Keyed :
    (w : World) (now : ℕ) (c : Coordinator) (accounts : List Account)
    → Keyed c
    → Keyed (reconcile_once w now c accounts).0
unfolding without_inactive
reconcile_once-Keyed w now c accounts keyed = rw (registry-reconcile_once w now c accounts) (
    reconcile_accounts-Keyed w now (keep_if active accounts) (without_inactive w c accounts)
      (terminate_each-Keyed w (active_keys accounts) (list_daemons c.registry none) c keyed))

-- Sweeps at given times with what the repository then answers, with the world of each.
pub sweeps : Coordinator → List (World × ℕ × List Account) → Coordinator
sweeps c [] = c
sweeps c ((w, now, accounts) ∷ later) = sweeps (reconcile_once w now c accounts).0 later

sweeps-Keyed :
    (history : List (World × ℕ × List Account)) (c : Coordinator)
    → Keyed c
    → Keyed (sweeps c history)
unfolding sweeps
sweeps-Keyed [] c keyed = keyed
sweeps-Keyed ((w, now, accounts) ∷ later) c keyed =
    sweeps-Keyed later (reconcile_once w now c accounts).0
      (reconcile_once-Keyed w now c accounts keyed)

-- From a coordinator without daemons, after sweeps of any kind, some of which may have raised, and
-- one more: an account that is not among the active ones of the last sweep has no daemon of any
-- provider, whether or not the last sweep raises.
pub sweeps-inactive :
    (history : List (World × ℕ × List Account)) (c : Coordinator) (w : World) (now : ℕ)
    (accounts : List Account) (k : AccountKey) (p : MailboxProvider)
    → c.registry ≡ no_daemons
    → member k (active_keys accounts) ≡ false
    → by_id (reconcile_once w now (sweeps c history) accounts).0.registry (k, p) ≡ none
sweeps-inactive history c w now accounts k p empty gone =
    reconcile_once-inactive w now (sweeps c history) accounts k p
      (sweeps-Keyed history c (rw empty tt)) gone
