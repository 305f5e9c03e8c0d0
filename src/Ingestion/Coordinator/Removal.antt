-- ===== src/Ingestion/Coordinator/Removal.antt =====
-- After a sweep no account that is not active has a daemon.
use email_analysis_agent.Prelude.{
  ℕ, ◌≡◌, refl, ap, ◌∙◌, Bool, true, false, none, some, List, [], ◌∷◌, if◌then◌else◌, arith, ◌==◌,
  nat_eq, Option-cases, Bool-cases, inl, inr, not, ◌&&◌, ◌||◌, All, map, keep_if,
}
use email_analysis_agent.Dict.{Dict, lookup}
use email_analysis_agent.Dict.Sweep.{member}
use email_analysis_agent.Ingestion.Models.{MailboxProvider}
use email_analysis_agent.Ingestion.Daemons.{
  Daemon, DaemonId, daemon_id_eq, id_of, AccountKey, account_key_eq, values, list_daemons,
}
use email_analysis_agent.Ingestion.Daemons.Lookups.{by_id, by_id-unregister}
use email_analysis_agent.Ingestion.Coordinator.{
  Account, key_of, World, Coordinator, drop_daemon, terminate, terminate_each, active, active_keys,
  without_inactive, reconcile_accounts, reconcile_once,
}
use email_analysis_agent.Ingestion.Coordinator.Isolation.{reconcile_accounts-other}

-- Every daemon stands under its own identifiers.
abbrev pub Entry : DaemonId × Daemon → Type 0
Entry e = id_of e.1 ≡ e.0

abbrev pub Keyed : Coordinator → Type 0
Keyed c = All Entry c.registry.daemons_by_id

-- Whether a daemon with this identifier is among those that are terminated.
hit : List AccountKey → DaemonId → List Daemon → Bool
hit keys id [] = false
hit keys id (d ∷ ds) =
    (not (member (d.tenant_id, d.account_id) keys) && id_of d == id) || hit keys id ds

by_id-terminate :
    (w : World) (c : Coordinator) (d : Daemon) (id : DaemonId)
    → by_id (terminate w c d).registry id ≡ (if id_of d == id then none else by_id c.registry id)
unfolding terminate drop_daemon
by_id-terminate w c d id =
    by_id-unregister w.lower c.registry d.tenant_id d.account_id d.provider id

by_id-terminate_each :
    (w : World) (keys : List AccountKey) (ds : List Daemon) (c : Coordinator) (id : DaemonId)
    → by_id (terminate_each w keys c ds).registry id
      ≡ (if hit keys id ds then none else by_id c.registry id)
unfolding terminate_each hit
by_id-terminate_each w keys [] c id = refl
by_id-terminate_each w keys (d ∷ ds) c id = ground (
  arith,
  by_id-terminate_each w keys ds c id,
  by_id-terminate_each w keys ds (terminate w c d) id,
  by_id-terminate w c d id,
)

hit-values :
    (keys : List AccountKey) (k : AccountKey) (p : MailboxProvider) (d : Daemon)
    (entries : Dict DaemonId Daemon)
    → member k keys ≡ false
    → All Entry entries
    → lookup (k, p) entries ≡ some d
    → hit keys (k, p) (values entries) ≡ true
unfolding hit values lookup
hit-values keys k p d [] gone keyed found = ground arith
hit-values keys k p d ((id, e) ∷ entries) gone keyed found = elim (Bool-cases (id == (k, p))) [
  | inl here ↦
      let same = keyed.0 ∙ (daemon_id_eq.same_iff id (k, p)).0 here in
      let standing = ap (λ i. member i.0 keys) same ∙ gone in
      ground (arith, standing, (daemon_id_eq.same_iff (id_of e) (k, p)).1 same)
  | inr elsewhere ↦
      ground (arith, hit-values keys k p d entries gone keyed.1 (ground (arith, found, elsewhere)))
]

-- The first loop takes every daemon away whose account is not active, and no other.
by_id-without_inactive :
    (w : World) (c : Coordinator) (accounts : List Account) (k : AccountKey) (p : MailboxProvider)
    → Keyed c
    → member k (active_keys accounts) ≡ false
    → by_id (without_inactive w c accounts).registry (k, p) ≡ none
unfolding without_inactive list_daemons
by_id-without_inactive w c accounts k p keyed gone =
    let keys = active_keys accounts in
    let ds = values c.registry.daemons_by_id in
    let swept = by_id-terminate_each w keys ds c (k, p) in
    elim (Option-cases (by_id c.registry (k, p))) [
      | inl missing ↦ ground (arith, swept, missing)
      | inr (d, found) ↦
          ground (arith, swept, hit-values keys k p d c.registry.daemons_by_id gone keyed found)
    ]

others-not_member :
    (accounts : List Account) (k : AccountKey)
    → member k (map key_of accounts) ≡ false
    → All (λ acc. (key_of acc == k) ≡ false) accounts
unfolding member
others-not_member [] k gone = tt
others-not_member (acc ∷ accounts) k gone =
    (ground (arith, gone), others-not_member accounts k (ground (arith, gone)))

pub registry-reconcile_once :
    (w : World) (now : ℕ) (c : Coordinator) (accounts : List Account)
    → (reconcile_once w now c accounts).0.registry
      ≡ (reconcile_accounts w now
          (without_inactive w c accounts)
          (keep_if active accounts)).0.registry
unfolding reconcile_once
registry-reconcile_once w now c accounts = ground arith

-- A sweep over a registry with every daemon under its own identifiers: whether or not the sweep
-- raises, an account that is not among the active ones has no daemon of any provider after it.
pub reconcile_once-inactive :
    (w : World) (now : ℕ) (c : Coordinator) (accounts : List Account) (k : AccountKey)
    (p : MailboxProvider)
    → Keyed c
    → member k (active_keys accounts) ≡ false
    → by_id (reconcile_once w now c accounts).0.registry (k, p) ≡ none
unfolding active_keys
reconcile_once-inactive w now c accounts k p keyed gone =
    let active_accounts = keep_if active accounts in
    ap (λ r. by_id r (k, p)) (registry-reconcile_once w now c accounts)
    ∙ (reconcile_accounts-other w now active_accounts (without_inactive w c accounts) k p
        (others-not_member active_accounts k gone)).0
    ∙ by_id-without_inactive w c accounts k p keyed gone
