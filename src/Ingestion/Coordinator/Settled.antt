-- ===== src/Ingestion/Coordinator/Settled.antt =====
-- An account that has been reconciled without an exception stays as it is.
use email_analysis_agent.Prelude.{
  ℕ, ◌≡◌, refl, sym, ap, ◌∙◌, true, false, some, [], arith, ◌||◌, ◌==◌, nat_eq, list_eq, eq_self,
  Option-cases, Bool-cases, inl, inr,
}
use email_analysis_agent.Dict.{lookup, lookup-put}
use email_analysis_agent.Ingestion.Models.{MailboxProvider}
use email_analysis_agent.Ingestion.Daemons.{
  Daemon, DaemonId, daemon_id_eq, account_key_eq, get_daemon, register,
}
use email_analysis_agent.Ingestion.Daemons.Lookups.{by_id-register}
use email_analysis_agent.Ingestion.Coordinator.{
  Account, key_of, World, Coordinator, map_provider, compute_config_hash, drop_daemon,
  create_and_register_daemon, daemon_of, settle, launch, try_account, is_waiting, reconcile_account,
}

-- With its daemon there under the fingerprint of the account, an account is left alone.
kept_as_is :
    (w : World) (c : Coordinator) (acc : Account) (p : MailboxProvider) (d : Daemon)
    → map_provider w acc.provider ≡ some p
    → get_daemon c.registry acc.tenant_id acc.id p ≡ some d
    → lookup (key_of acc) c.account_config_hashes ≡ some (compute_config_hash w acc)
    → try_account w c acc ≡ (c, true)
unfolding try_account
kept_as_is w c acc p d named found hashed =
    rw (try_account, named, found, hashed, eq_self (compute_config_hash w acc))
      (elim (Bool-cases (compute_config_hash w acc == [])) [
        | inl empty ↦ rw empty refl
        | inr full ↦ rw full refl
      ])

get_daemon-launch :
    (w : World) (c : Coordinator) (acc : Account) (p : MailboxProvider)
    → get_daemon (launch w c acc p).0.registry acc.tenant_id acc.id p ≡ some (daemon_of acc p)
unfolding launch create_and_register_daemon get_daemon settle daemon_of
get_daemon-launch w c acc p =
    let d = daemon_of acc p in
    let id : DaemonId = (key_of acc, p) in
    let here : lookup id (register w.lower c.registry d).daemons_by_id ≡ some d =
      by_id-register w.lower c.registry d id ∙ rw (eq_self id) refl in
    elim (Bool-cases (w.starts d)) [ inl on ↦ rw on here | inr off ↦ rw off here ]

hash-launch :
    (w : World) (c : Coordinator) (acc : Account) (p : MailboxProvider)
    → (launch w c acc p).1 ≡ true
    → lookup (key_of acc) (launch w c acc p).0.account_config_hashes
      ≡ some (compute_config_hash w acc)
unfolding launch create_and_register_daemon settle
hash-launch w c acc p started = ground (
  arith,
  started,
  lookup-put (key_of acc) (key_of acc) (compute_config_hash w acc) c.account_config_hashes,
  eq_self (key_of acc),
)

-- So it is after a launch whose start returned.
launched_again :
    (w : World) (before c : Coordinator) (acc : Account) (p : MailboxProvider)
    → map_provider w acc.provider ≡ some p
    → (launch w before acc p).1 ≡ true
    → c.registry ≡ (launch w before acc p).0.registry
    → c.account_config_hashes ≡ (launch w before acc p).0.account_config_hashes
    → try_account w c acc ≡ (c, true)
launched_again w before c acc p named started registry hashes =
    kept_as_is w c acc p (daemon_of acc p) named
      (ap (λ r. get_daemon r acc.tenant_id acc.id p) registry ∙ get_daemon-launch w before acc p)
      (ap (λ d. lookup (key_of acc) d) hashes ∙ hash-launch w before acc p started)

unchanged_again :
    (w : World) (c : Coordinator) (acc : Account)
    → try_account w c acc ≡ (c, true)
    → try_account w (try_account w c acc).0 acc ≡ ((try_account w c acc).0, true)
unchanged_again w c acc same =
    ap (λ c'. try_account w c' acc) (ap (λ r. r.0) same) ∙ same ∙ ap (λ r. (r.0, true)) (sym same)

found_again :
    (w : World) (c : Coordinator) (acc : Account) (p : MailboxProvider) (d : Daemon)
    → map_provider w acc.provider ≡ some p
    → get_daemon c.registry acc.tenant_id acc.id p ≡ some d
    → (try_account w c acc).1 ≡ true
    → try_account w (try_account w c acc).0 acc ≡ ((try_account w c acc).0, true)
unfolding try_account
found_again w c acc p d named found done =
    let c' = (try_account w c acc).0 in
    let dropped = drop_daemon w c (key_of acc) p in
    elim (Option-cases (lookup (key_of acc) c.account_config_hashes)) [
      | inl unhashed ↦ unchanged_again w c acc (rw (try_account, named, found, unhashed) refl)
      | inr (h, hashed) ↦ elim (Bool-cases (h == [] || h == compute_config_hash w acc)) [
        | inl kept ↦ unchanged_again w c acc (rw (try_account, named, found, hashed, kept) refl)
        | inr changed ↦ elim (Bool-cases (w.stops d)) [
          | inl stopped ↦
              launched_again w dropped c' acc p named
                (ground (arith, done, named, found, hashed, changed, stopped))
                (rw (try_account, named, found, hashed, changed, stopped) refl)
                (rw (try_account, named, found, hashed, changed, stopped) refl)
          | inr stuck ↦ ground (arith, done, named, found, hashed, changed, stuck)
        ]
      ]
    ]

-- A `try` block that raises nothing leaves a state in which it changes nothing more.
try_account-again :
    (w : World) (c : Coordinator) (acc : Account)
    → (try_account w c acc).1 ≡ true
    → try_account w (try_account w c acc).0 acc ≡ ((try_account w c acc).0, true)
unfolding try_account
try_account-again w c acc done =
    let c' = (try_account w c acc).0 in
    elim (Option-cases (map_provider w acc.provider)) [
      | inl unknown ↦ ground (arith, done, unknown)
      | inr (p, named) ↦ elim (Option-cases (get_daemon c.registry acc.tenant_id acc.id p)) [
        | inl missing ↦
            launched_again w c c' acc p named (ground (arith, done, named, missing))
              (rw (try_account, named, missing) refl) (rw (try_account, named, missing) refl)
        | inr (d, found) ↦ found_again w c acc p d named found done
      ]
    ]

-- An attempt at an account that may be made and raises nothing: an attempt at the same account in
-- the state after it, at whatever time, changes nothing and raises nothing.
pub reconcile_account-again :
    (w : World) (now later : ℕ) (c : Coordinator) (acc : Account)
    → is_waiting now c (key_of acc) ≡ false
    → (try_account w c acc).1 ≡ true
    → let c' = (reconcile_account w now c acc).0 in reconcile_account w later c' acc ≡ (c', false)
unfolding reconcile_account
reconcile_account-again w now later c acc ready done =
    let c' = (try_account w c acc).0 in
    let again = try_account-again w c acc done in
    let first : (reconcile_account w now c acc).0 ≡ c' = rw (reconcile_account, ready, done) refl in
    rw first (elim (Bool-cases (is_waiting later c' (key_of acc))) [
      | inl waits ↦ rw (reconcile_account, waits) refl
      | inr due ↦ rw (reconcile_account, due, again) refl
    ])
