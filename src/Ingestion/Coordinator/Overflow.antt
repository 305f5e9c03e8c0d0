-- ===== src/Ingestion/Coordinator/Overflow.antt =====
-- The exception that the delay raises after 1024 failures in a row.
use email_analysis_agent.Prelude.{
  ℕ, ◌+◌, ◌≤◌, ◌≡◌, refl, ap, ◌∙◌, true, false, List, ◌∷◌, arith, nat_eq, eq_self,
}
use email_analysis_agent.Dict.{lookup-put}
use email_analysis_agent.Ingestion.Daemons.{AccountKey, account_key_eq}
use email_analysis_agent.Ingestion.Coordinator.{
  Account, key_of, World, Coordinator, drop_daemon, clean_up, try_account, note_failure, is_waiting,
  reconcile_account, reconcile_accounts,
}
use email_analysis_agent.Ingestion.Coordinator.Backoff.{
  failures_of, delay-missing, try_account-failure, failures_of-failure, reconcile_account-noted,
}

note_failure-raises :
    (w : World) (now : ℕ) (c : Coordinator) (acc : Account)
    → 1024 ≤ failures_of c (key_of acc)
    → ((note_failure w now c acc).1 ≡ true)
      × (failures_of (note_failure w now c acc).0 (key_of acc) ≡ failures_of c (key_of acc) + 1)
      × ((note_failure w now c acc).0.next_retry_time ≡ (clean_up w c acc).next_retry_time)
unfolding note_failure
note_failure-raises w now c acc many = ground (
  arith,
  delay-missing (failures_of c (key_of acc) + 1) (omega arith),
  lookup-put (key_of acc) (key_of acc) (failures_of c (key_of acc) + 1) c.consecutive_failures,
  eq_self (key_of acc),
)

clean_up-next_retry_time :
    (w : World) (c : Coordinator) (acc : Account)
    → (clean_up w c acc).next_retry_time ≡ c.next_retry_time
unfolding clean_up drop_daemon
clean_up-next_retry_time w c acc = ground arith

is_waiting-later :
    (now later : ℕ) (c c' : Coordinator) (k : AccountKey)
    → now ≤ later
    → c'.next_retry_time ≡ c.next_retry_time
    → is_waiting now c k ≡ false
    → is_waiting later c' k ≡ false
unfolding is_waiting
is_waiting-later now later c c' k after same ready = ground (arith, after, same, ready)

-- An attempt that may be made and fails after 1024 failures in a row or more: the sweep over the
-- accounts raises there, the accounts after it are not looked at, and the account is as it was for
-- any later sweep: it may be attempted at once, with one failure more.
pub reconcile_accounts-stuck :
    (w : World) (now later : ℕ) (c : Coordinator) (acc : Account) (rest : List Account)
    → is_waiting now c (key_of acc) ≡ false
    → (try_account w c acc).1 ≡ false
    → 1024 ≤ failures_of c (key_of acc)
    → now ≤ later
    → let (c', raised) = reconcile_accounts w now c (acc ∷ rest) in
      (raised ≡ true)
      × (c' ≡ (reconcile_account w now c acc).0)
      × (is_waiting later c' (key_of acc) ≡ false)
      × (failures_of c' (key_of acc) ≡ failures_of c (key_of acc) + 1)
unfolding reconcile_accounts
reconcile_accounts-stuck w now later c acc rest ready failed many after =
    let tried = (try_account w c acc).0 in
    let same = failures_of-failure w c acc (key_of acc) failed in
    let (raised, counted, kept) = note_failure-raises w now tried acc (rw same many) in
    rw (reconcile_account-noted w now c acc ready failed, raised)
      (
        refl,
        refl,
        is_waiting-later now later c (note_failure w now tried acc).0 (key_of acc) after
            (kept ∙ clean_up-next_retry_time w tried acc ∙ (try_account-failure w c acc failed).1)
            ready,
        counted ∙ ap (λ n. n + 1) same,
      )
