-- ===== src/Ingestion/Coordinator/Backoff.antt =====
-- The delays between two attempts at an account.
use email_analysis_agent.Prelude.{
  ℕ, zero, suc, ◌+◌, ◌*◌, ◌^◌, ◌≤◌, ◌<◌, min, ◌≡◌, refl, false, none, some, arith, nat_eq, eq_self,
  ap, ◌∙◌, ◌⊎◌,
}
use native.Mathlib.Nat.{pow-suc}
use email_analysis_agent.Dict.{lookup, lookup-put}
use email_analysis_agent.Ingestion.Daemons.{AccountKey, account_key_eq}
use email_analysis_agent.Ingestion.Coordinator.{
  Account, key_of, World, Coordinator, calculate_backoff_sec, drop_daemon,
  create_and_register_daemon, launch, try_account, note_failure, is_waiting, reconcile_account,
}

pow_pos : (n : ℕ) → 1 ≤ 2 ^ n
pow_pos zero = omega arith
pow_pos (suc n) = omega (arith, pow-suc 2 n, pow_pos n)

abbrev pub failures_of : Coordinator → AccountKey → ℕ
failures_of c k = elim (lookup k c.consecutive_failures) [ none ↦ 0 | some n ↦ n ]

-- Two delays that follow each other, while there is one: they are from ten to 300 seconds, and the
-- second is twice the first or 300 seconds.
pub calculate_backoff_sec-doubles :
    (n delay delay' : ℕ)
    → calculate_backoff_sec (n + 1) ≡ some delay
    → calculate_backoff_sec (n + 2) ≡ some delay'
    → (10 ≤ delay) × (delay ≤ delay') × (delay' ≤ 300) × ((delay' ≡ 2 * delay) ⊎ (delay' ≡ 300))
unfolding calculate_backoff_sec
calculate_backoff_sec-doubles n delay delay' first second = ground (arith, pow_pos n, pow-suc 2 n)

-- There is a delay exactly up to 1024 failures in a row.
pub delay-exists : (n : ℕ) → n ≤ 1024 → (delay : ℕ) × (calculate_backoff_sec n ≡ some delay)
unfolding calculate_backoff_sec
delay-exists zero small = (0, refl)
delay-exists (suc n) small = (min (10 * 2 ^ n) 300, ground arith)

pub delay-missing : (n : ℕ) → 1024 < n → calculate_backoff_sec n ≡ none
unfolding calculate_backoff_sec
delay-missing zero large = absurd (omega arith)
delay-missing (suc n) large = ground arith

-- A `try` block that raises leaves the counts of failures and the times of the next attempts.
pub try_account-failure :
    (w : World) (c : Coordinator) (acc : Account)
    → (try_account w c acc).1 ≡ false
    → ((try_account w c acc).0.consecutive_failures ≡ c.consecutive_failures)
      × ((try_account w c acc).0.next_retry_time ≡ c.next_retry_time)
unfolding try_account launch create_and_register_daemon drop_daemon
try_account-failure w c acc failed = ground (arith, failed)

pub note_failure-waits :
    (w : World) (now : ℕ) (c : Coordinator) (acc : Account) (delay : ℕ)
    → calculate_backoff_sec (failures_of c (key_of acc) + 1) ≡ some delay
    → ((note_failure w now c acc).1 ≡ false)
      × (failures_of (note_failure w now c acc).0 (key_of acc) ≡ failures_of c (key_of acc) + 1)
      × (lookup (key_of acc) (note_failure w now c acc).0.next_retry_time
          ≡ some (now + delay * 1000000))
unfolding note_failure
note_failure-waits w now c acc delay exists = ground (
  arith,
  exists,
  lookup-put (key_of acc) (key_of acc) (failures_of c (key_of acc) + 1) c.consecutive_failures,
  lookup-put (key_of acc) (key_of acc) (now + delay * 1000000) c.next_retry_time,
  eq_self (key_of acc),
)

pub failures_of-failure :
    (w : World) (c : Coordinator) (acc : Account) (k : AccountKey)
    → (try_account w c acc).1 ≡ false
    → failures_of (try_account w c acc).0 k ≡ failures_of c k
failures_of-failure w c acc k failed = rw (failures_of, (try_account-failure w c acc failed).0) refl

pub reconcile_account-noted :
    (w : World) (now : ℕ) (c : Coordinator) (acc : Account)
    → is_waiting now c (key_of acc) ≡ false
    → (try_account w c acc).1 ≡ false
    → reconcile_account w now c acc ≡ note_failure w now (try_account w c acc).0 acc
unfolding reconcile_account
reconcile_account-noted w now c acc ready failed = rw (ready, failed) refl

reconcile_account-skips :
    (w : World) (now retry : ℕ) (c : Coordinator) (acc : Account)
    → lookup (key_of acc) c.next_retry_time ≡ some retry
    → now < retry
    → reconcile_account w now c acc ≡ (c, false)
unfolding reconcile_account is_waiting
reconcile_account-skips w now retry c acc planned early = ground (arith, planned, early)

-- An attempt at an account that may be made and fails, after fewer than 1024 failures in a row:
-- nothing is raised, the failure is counted, and sweeps before the delay for the new count has
-- passed leave the account alone.
pub reconcile_account-waits :
    (w : World) (now later : ℕ) (c : Coordinator) (acc : Account) (delay : ℕ)
    → is_waiting now c (key_of acc) ≡ false
    → (try_account w c acc).1 ≡ false
    → calculate_backoff_sec (failures_of c (key_of acc) + 1) ≡ some delay
    → later < now + delay * 1000000
    → let (c', raised) = reconcile_account w now c acc in
      (raised ≡ false)
      × (failures_of c' (key_of acc) ≡ failures_of c (key_of acc) + 1)
      × (reconcile_account w later c' acc ≡ (c', false))
reconcile_account-waits w now later c acc delay ready failed exists early =
    let same = failures_of-failure w c acc (key_of acc) failed in
    let tried = (try_account w c acc).0 in
    let (fine, counted, planned) = note_failure-waits w now tried acc delay (rw same exists) in
    rw (reconcile_account-noted w now c acc ready failed) (
      fine,
      counted ∙ ap (λ n. n + 1) same,
      reconcile_account-skips w later (now + delay * 1000000) (note_failure w now tried acc).0 acc
          planned early,
    )
