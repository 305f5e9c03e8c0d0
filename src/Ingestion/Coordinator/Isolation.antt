-- ===== src/Ingestion/Coordinator/Isolation.antt =====
-- What the reconciliation of one account leaves of the others.
use email_analysis_agent.Prelude.{
  ℕ, ◌+◌, ◌*◌, ◌≡◌, refl, ◌∙◌, Bool, true, false, Option, none, some, List, [], ◌∷◌, arith, ◌==◌,
  nat_eq, Option-cases, Bool-cases, inl, inr, ◌⊎◌, ◌||◌, list_eq, All,
}
use email_analysis_agent.Dict.{lookup, put, lookup-put, lookup-remove}
use email_analysis_agent.Text.{Text}
use email_analysis_agent.Ingestion.Models.{MailboxProvider, provider_eq}
use email_analysis_agent.Ingestion.Daemons.{
  DaemonId, daemon_id_eq, AccountKey, account_key_eq, get_daemon,
}
use email_analysis_agent.Ingestion.Daemons.Lookups.{by_id, by_id-register, by_id-unregister}
use email_analysis_agent.Ingestion.Coordinator.{
  Account, key_of, World, Coordinator, map_provider, calculate_backoff_sec, drop_daemon,
  create_and_register_daemon, daemon_of, settle, launch, compute_config_hash, try_account, clean_up,
  note_failure, is_waiting, reconcile_account, reconcile_accounts,
}

-- Two states agree on an account and a provider.
abbrev pub Agree : AccountKey → MailboxProvider → Coordinator → Coordinator → Type 0
Agree k q c c' =
    (by_id c'.registry (k, q) ≡ by_id c.registry (k, q))
    × (lookup k c'.consecutive_failures ≡ lookup k c.consecutive_failures)
    × (lookup k c'.next_retry_time ≡ lookup k c.next_retry_time)
    × (lookup k c'.account_config_hashes ≡ lookup k c.account_config_hashes)

Agree-trans :
    (k : AccountKey) (q : MailboxProvider) (a b c : Coordinator)
    → Agree k q a b
    → Agree k q b c
    → Agree k q a c
Agree-trans k q a b c ab bc = (bc.0 ∙ ab.0, bc.1 ∙ ab.1, bc.2 ∙ ab.2, bc.3 ∙ ab.3)

key_differs :
    (j k : AccountKey) (p q : MailboxProvider)
    → (j == k) ≡ false
    → (let id : DaemonId = (j, p) in let id' : DaemonId = (k, q) in id == id') ≡ false
key_differs j k p q differs = ground (arith, differs)

drop_daemon-Agree :
    (w : World) (c : Coordinator) (j k : AccountKey) (p q : MailboxProvider)
    → (j == k) ≡ false
    → Agree k q c (drop_daemon w c j p)
unfolding drop_daemon
drop_daemon-Agree w c (t, a) k p q differs = (
  by_id-unregister w.lower c.registry t a p (k, q) ∙ rw (key_differs (t, a) k p q differs) refl,
  refl,
  refl,
  refl,
)

create_and_register_daemon-Agree :
    (w : World) (c : Coordinator) (acc : Account) (p q : MailboxProvider) (k : AccountKey)
    → (key_of acc == k) ≡ false
    → Agree k q c (create_and_register_daemon w c (daemon_of acc p))
unfolding create_and_register_daemon daemon_of
create_and_register_daemon-Agree w c acc p q k differs = (
  by_id-register w.lower c.registry (daemon_of acc p) (k, q)
      ∙ rw (key_differs (key_of acc) k p q differs) refl,
  refl,
  refl,
  refl,
)

settle-Agree :
    (c : Coordinator) (j k : AccountKey) (h : Text) (q : MailboxProvider)
    → (j == k) ≡ false
    → Agree k q c (settle c j h)
unfolding settle
settle-Agree c j k h q differs = (
  refl,
  lookup-remove j k c.consecutive_failures ∙ rw differs refl,
  lookup-remove j k c.next_retry_time ∙ rw differs refl,
  lookup-put j k h c.account_config_hashes ∙ rw differs refl,
)

launch-Agree :
    (w : World) (c : Coordinator) (acc : Account) (p q : MailboxProvider) (k : AccountKey)
    → (key_of acc == k) ≡ false
    → Agree k q c (launch w c acc p).0
unfolding launch
launch-Agree w c acc p q k differs =
    let registered = create_and_register_daemon w c (daemon_of acc p) in
    let agree = create_and_register_daemon-Agree w c acc p q k differs in
    let h = compute_config_hash w acc in
    elim (Bool-cases (w.starts (daemon_of acc p))) [
      | inl on ↦ rw on (
          Agree-trans k q c registered (settle registered (key_of acc) h) agree
            (settle-Agree registered (key_of acc) k h q differs))
      | inr off ↦ rw off agree
    ]

-- The state after the `try` block: as before, after a launch, or after a drop and a launch.
pub try_account-cases :
    (w : World) (c : Coordinator) (acc : Account)
    → ((try_account w c acc).0 ≡ c)
      ⊎ ((p : MailboxProvider) × (n : ℕ) × ((try_account w c acc).0
            ≡ record (launch w c acc p).0 { total_daemons_spawned = n }))
      ⊎ ((p : MailboxProvider) × ((try_account w c acc).0
            ≡ (launch w (drop_daemon w c (key_of acc) p) acc p).0))
unfolding try_account
try_account-cases w c acc = elim (Option-cases (map_provider w acc.provider)) [
  | inl unknown ↦ inl (rw (try_account, unknown) refl)
  | inr (p, named) ↦ elim (Option-cases (get_daemon c.registry acc.tenant_id acc.id p)) [
    | inl missing ↦ inr (
        inl
          (p, (try_account w c acc).0.total_daemons_spawned, rw (try_account, named, missing) refl))
    | inr (d, found) ↦ elim (Option-cases (lookup (key_of acc) c.account_config_hashes)) [
      | inl unhashed ↦ inl (rw (try_account, named, found, unhashed) refl)
      | inr (h, hashed) ↦ elim (Bool-cases (h == [] || h == compute_config_hash w acc)) [
        | inl kept ↦ inl (rw (try_account, named, found, hashed, kept) refl)
        | inr changed ↦ elim (Bool-cases (w.stops d)) [
          | inl stopped ↦
              inr (inr (p, rw (try_account, named, found, hashed, changed, stopped) refl))
          | inr stuck ↦ inl (rw (try_account, named, found, hashed, changed, stuck) refl)
        ]
      ]
    ]
  ]
]

try_account-Agree :
    (w : World) (c : Coordinator) (acc : Account) (k : AccountKey) (q : MailboxProvider)
    → (key_of acc == k) ≡ false
    → Agree k q c (try_account w c acc).0
try_account-Agree w c acc k q differs = elim (try_account-cases w c acc) [
  | inl same ↦ rw same (refl, refl, refl, refl)
  | inr (inl (p, n, launched)) ↦ rw launched (launch-Agree w c acc p q k differs)
  | inr (inr (p, launched)) ↦
      let dropped = drop_daemon w c (key_of acc) p in
      rw launched (
        Agree-trans k q c dropped (launch w dropped acc p).0
          (drop_daemon-Agree w c (key_of acc) k p q differs)
          (launch-Agree w dropped acc p q k differs))
]

clean_up-Agree :
    (w : World) (c : Coordinator) (acc : Account) (k : AccountKey) (q : MailboxProvider)
    → (key_of acc == k) ≡ false
    → Agree k q c (clean_up w c acc)
unfolding clean_up
clean_up-Agree w c acc k q differs = elim (Option-cases (map_provider w acc.provider)) [
  | inl unknown ↦ rw (clean_up, unknown) (refl, refl, refl, refl)
  | inr (p, named) ↦ rw (clean_up, named) (drop_daemon-Agree w c (key_of acc) k p q differs)
]

-- The state of the handler's end, from the state after the removal.
noted-Agree :
    (now : ℕ) (c cleaned : Coordinator) (j k : AccountKey) (q : MailboxProvider) (n : ℕ)
    (delay : Option ℕ)
    → (j == k) ≡ false
    → Agree k q c cleaned
    → let counted : Coordinator = record cleaned {
      consecutive_failures = put j n c.consecutive_failures;
    } in
      let (c', _) : Coordinator × Bool = elim delay [
        | none ↦ (counted, true)
        | some backoff ↦ (
          record counted { next_retry_time = put j (now + backoff * 1000000) c.next_retry_time },
          false,
        )
      ] in
      Agree k q c c'
noted-Agree now c cleaned j k q n none differs agree =
    (agree.0, lookup-put j k n c.consecutive_failures ∙ rw differs refl, agree.2, agree.3)
noted-Agree now c cleaned j k q n (some backoff) differs agree = (
  agree.0,
  lookup-put j k n c.consecutive_failures ∙ rw differs refl,
  lookup-put j k (now + backoff * 1000000) c.next_retry_time ∙ rw differs refl,
  agree.3,
)

note_failure-Agree :
    (w : World) (now : ℕ) (c : Coordinator) (acc : Account) (k : AccountKey) (q : MailboxProvider)
    → (key_of acc == k) ≡ false
    → Agree k q c (note_failure w now c acc).0
unfolding note_failure
note_failure-Agree w now c acc k q differs =
    let n : ℕ = elim (lookup (key_of acc) c.consecutive_failures) [ none ↦ 1 | some n ↦ n + 1 ] in
    noted-Agree now c (clean_up w c acc) (key_of acc) k q n (calculate_backoff_sec n) differs
      (clean_up-Agree w c acc k q differs)

reconcile_account-Agree :
    (w : World) (now : ℕ) (c : Coordinator) (acc : Account) (k : AccountKey) (q : MailboxProvider)
    → (key_of acc == k) ≡ false
    → Agree k q c (reconcile_account w now c acc).0
unfolding reconcile_account
reconcile_account-Agree w now c acc k q differs =
    let tried = (try_account w c acc).0 in
    let agree = try_account-Agree w c acc k q differs in
    elim (Bool-cases (is_waiting now c (key_of acc))) [
      | inl waits ↦ rw (reconcile_account, waits) (refl, refl, refl, refl)
      | inr ready ↦ elim (Bool-cases (try_account w c acc).1) [
        | inl succeeded ↦ rw (reconcile_account, ready, succeeded) agree
        | inr failed ↦
            rw (reconcile_account, ready, failed)
              (Agree-trans k q c tried (note_failure w now tried acc).0 agree
                (note_failure-Agree w now tried acc k q differs))
      ]
    ]

-- Whatever the accounts that a sweep goes through and whatever fails on the way: of an account that is
-- not among them, the daemon that is registered under its tenant, its id and a provider, the count of
-- failures, the time of the next attempt and the fingerprint stay as they are. The route by which the
-- notifications of a mailbox find a daemon is not among these.
pub reconcile_accounts-other :
    (w : World) (now : ℕ) (accounts : List Account) (c : Coordinator) (k : AccountKey)
    (q : MailboxProvider)
    → All (λ acc. (key_of acc == k) ≡ false) accounts
    → Agree k q c (reconcile_accounts w now c accounts).0
unfolding reconcile_accounts
reconcile_accounts-other w now [] c k q others = (refl, refl, refl, refl)
reconcile_accounts-other w now (acc ∷ accounts) c k q others =
    let c' = (reconcile_account w now c acc).0 in
    let agree = reconcile_account-Agree w now c acc k q others.0 in
    elim (Bool-cases (reconcile_account w now c acc).1) [
      | inl raised ↦ rw (reconcile_accounts, raised) agree
      | inr fine ↦
          rw (reconcile_accounts, fine)
            (Agree-trans k q c c' (reconcile_accounts w now c' accounts).0 agree
              (reconcile_accounts-other w now accounts c' k q others.1))
    ]
