-- ===== src/Ingestion/Coordinator.antt =====
-- `AccountSyncCoordinator` of src/ingestion_gateway/coordinator.py, with the registration of
-- `IngestionGatewayManager.create_and_register_daemon` of src/ingestion_gateway/manager.py. Python's
-- library, the daemons' own starts and stops, and what the repository of accounts answers are
-- arguments; building a daemon raises nothing. Clock readings and delays are in microseconds, and
-- one sweep reads the clock once, as the code does. The sweep holds the lock from start to end.
pub mod Backoff
pub mod Histories
pub mod Isolation
pub mod Overflow
pub mod Removal
pub mod Settled
mod Tests
use email_analysis_agent.Prelude.{
  ℕ, zero, suc, ◌+◌, ◌*◌, ◌^◌, min, Bool, true, false, not, ◌||◌, ◌&&◌, Option, none, some, List,
  [], ◌∷◌, ◌++◌, ltb, leb, ◌==◌, Eq, nat_eq, list_eq, if◌then◌else◌, length, keep_if, map,
}
use email_analysis_agent.Dict.{Dict, lookup, put, remove}
use email_analysis_agent.Dict.Sweep.{member}
use email_analysis_agent.Text.{Text, codes, strip, starts_with}
use email_analysis_agent.Uuid.{Uuid}
use email_analysis_agent.Ingestion.Models.{MailboxProvider, ms_graph, gmail, imap}
use email_analysis_agent.Ingestion.Daemons.{
  Daemon, Daemons, AccountKey, account_key_eq, register, unregister, get_daemon, list_daemons,
}

-- What `account.provider` may be: the enumeration, or something else with its `str`.
pub data ProviderValue : Type 0 where
  known : MailboxProvider → ProviderValue
  shown : Text → ProviderValue

pub record Account : Type 0 where
  pub tenant_id : Uuid
  pub id : Uuid
  pub email_address : Text
  pub provider : ProviderValue
  pub is_active : Bool
  pub access_token : Text
  pub refresh_token : Text

abbrev pub key_of : Account → AccountKey
key_of acc = (acc.tenant_id, acc.id)

-- What the sweep uses of code that is not its own: `str.lower`, `str.upper`, the formatting of a
-- provider, the hexadecimal SHA-256 digest, and whether a daemon's `start` and `stop` return.
pub record World : Type 0 where
  pub lower : Text → Text
  pub upper : Text → Text
  pub format_provider : ProviderValue → Text
  pub sha256 : Text → Text
  pub starts : Daemon → Bool
  pub stops : Daemon → Bool

pub record Coordinator : Type 0 where
  pub registry : Daemons
  pub is_running : Bool
  pub consecutive_failures : Dict AccountKey ℕ
  pub next_retry_time : Dict AccountKey ℕ
  pub account_config_hashes : Dict AccountKey Text
  pub total_sync_cycles : ℕ
  pub total_daemons_spawned : ℕ
  pub total_daemons_terminated : ℕ

-- `word in s`
unfoldable pub contains : Text → Text → Bool
contains word [] = starts_with word []
contains word (c ∷ s) = starts_with word (c ∷ s) || contains word s

-- `_compute_config_hash`
pub compute_config_hash : World → Account → Text
compute_config_hash w acc = w.sha256 (
    w.format_provider acc.provider
    ++ 58 ∷ (acc.email_address ++ 58 ∷ (acc.access_token ++ 58 ∷ acc.refresh_token)))

-- `_map_provider`; a `ValueError` is `none`.
pub map_provider : World → ProviderValue → Option MailboxProvider
unfolding contains
map_provider w (known p) = some p
map_provider w (shown text) =
    let val_str = strip (w.upper text) in
    if contains (codes "GRAPH") val_str
      || contains (codes "MICROSOFT") val_str
      || contains (codes "OFFICE") val_str
    then some ms_graph
    else if contains (codes "GMAIL") val_str || contains (codes "GOOGLE") val_str
    then some gmail
    else if contains (codes "IMAP") val_str
    then some imap
    else none

-- `_calculate_backoff_sec`, in seconds: `2.0 ** n` raises `OverflowError`, the answer `none`, from
-- `n = 1024` on. A product that is no finite float is above the minimum's other side.
pub calculate_backoff_sec : ℕ → Option ℕ
calculate_backoff_sec zero = some 0
calculate_backoff_sec (suc n) = if leb 1024 n then none else some (min (10 * 2 ^ n) 300)

-- The daemon of an account, and its registration.
pub daemon_of : Account → MailboxProvider → Daemon
daemon_of acc p = record {
  tenant_id = acc.tenant_id;
  account_id = acc.id;
  provider = p;
  mailbox_address = acc.email_address;
}

pub create_and_register_daemon : World → Coordinator → Daemon → Coordinator
create_and_register_daemon w c daemon = record c { registry = register w.lower c.registry daemon }

pub drop_daemon : World → Coordinator → AccountKey → MailboxProvider → Coordinator
drop_daemon w c (tenant_id, account_id) p = record c {
  registry = (unregister w.lower c.registry tenant_id account_id p).0;
}

-- The body of the first loop for a daemon without an active account; an exception of its `stop` is
-- swallowed.
pub terminate : World → Coordinator → Daemon → Coordinator
unfolding drop_daemon
terminate w c daemon =
    let daemon_key : AccountKey = (daemon.tenant_id, daemon.account_id) in
    record (drop_daemon w c daemon_key daemon.provider) {
      consecutive_failures = remove daemon_key c.consecutive_failures;
      next_retry_time = remove daemon_key c.next_retry_time;
      account_config_hashes = remove daemon_key c.account_config_hashes;
      total_daemons_terminated = c.total_daemons_terminated + 1;
    }

pub terminate_each : World → List AccountKey → Coordinator → List Daemon → Coordinator
unfolding terminate
terminate_each w active_keys c [] = c
terminate_each w active_keys c (daemon ∷ daemons) =
    let daemon_key : AccountKey = (daemon.tenant_id, daemon.account_id) in
    let c' = if member daemon_key active_keys then c else terminate w c daemon in
    terminate_each w active_keys c' daemons

-- What follows a start that returned.
pub settle : Coordinator → AccountKey → Text → Coordinator
settle c acc_key cfg_hash = record c {
  account_config_hashes = put acc_key cfg_hash c.account_config_hashes;
  consecutive_failures = remove acc_key c.consecutive_failures;
  next_retry_time = remove acc_key c.next_retry_time;
}

-- Registers and starts the account's daemon: the state after it, and whether the start returned.
pub launch : World → Coordinator → Account → MailboxProvider → Coordinator × Bool
unfolding create_and_register_daemon settle daemon_of
launch w c acc p =
    let daemon = daemon_of acc p in
    let registered = create_and_register_daemon w c daemon in
    if w.starts daemon
    then (settle registered (key_of acc) (compute_config_hash w acc), true)
    else (registered, false)

-- The `try` block of the second loop: the state after it, and whether it raised nothing.
pub try_account : World → Coordinator → Account → Coordinator × Bool
unfolding map_provider launch drop_daemon
try_account w c acc = elim (map_provider w acc.provider) [
  | none ↦ (c, false)
  | some p ↦ elim (get_daemon c.registry acc.tenant_id acc.id p) [
    | none ↦
        let (c', started) = launch w c acc p in
        (
          record c' {
            total_daemons_spawned =
                if started then c.total_daemons_spawned + 1 else c.total_daemons_spawned;
          },
          started,
        )
    | some existing_daemon ↦ elim (lookup (key_of acc) c.account_config_hashes) [
      | none ↦ (c, true)
      | some stored_hash ↦
          if stored_hash == [] || stored_hash == compute_config_hash w acc
          then (c, true)
          else if w.stops existing_daemon
          then launch w (drop_daemon w c (key_of acc) p) acc p
          else (c, false)
    ]
  ]
]

-- The removal that the handler of the second loop tries first.
pub clean_up : World → Coordinator → Account → Coordinator
clean_up w c acc = elim (map_provider w acc.provider) [
  | none ↦ c
  | some p ↦ drop_daemon w c (key_of acc) p
]

-- The handler of the second loop: the state after it, and whether it raises itself.
pub note_failure : World → ℕ → Coordinator → Account → Coordinator × Bool
unfolding clean_up calculate_backoff_sec
note_failure w now c acc =
    let current_fails : ℕ = elim (lookup (key_of acc) c.consecutive_failures) [
      | none ↦ 1
      | some n ↦ n + 1
    ] in
    let counted = record (clean_up w c acc) {
      consecutive_failures = put (key_of acc) current_fails c.consecutive_failures;
    } in
    elim (calculate_backoff_sec current_fails) [
      | none ↦ (counted, true)
      | some backoff ↦ (
        record counted {
          next_retry_time = put (key_of acc) (now + backoff * 1000000) c.next_retry_time;
        },
        false,
      )
    ]

-- `acc_key in self._next_retry_time and now < self._next_retry_time[acc_key]`
pub is_waiting : ℕ → Coordinator → AccountKey → Bool
is_waiting now c acc_key = elim (lookup acc_key c.next_retry_time) [
  | none ↦ false
  | some retry ↦ ltb now retry
]

-- The body of the second loop: the state after it, and whether it raises.
pub reconcile_account : World → ℕ → Coordinator → Account → Coordinator × Bool
unfolding is_waiting try_account note_failure
reconcile_account w now c acc =
    let (tried, succeeded) = try_account w c acc in
    if is_waiting now c (key_of acc)
    then (c, false)
    else if succeeded
    then (tried, false)
    else note_failure w now tried acc

pub reconcile_accounts : World → ℕ → Coordinator → List Account → Coordinator × Bool
unfolding reconcile_account
reconcile_accounts w now c [] = (c, false)
reconcile_accounts w now c (acc ∷ accounts) =
    let (c', raised) = reconcile_account w now c acc in
    let rest = reconcile_accounts w now c' accounts in if raised then (c', true) else rest

pub record Summary : Type 0 where
  pub sync_cycles : ℕ
  pub active_accounts : ℕ
  pub active_daemons : ℕ
  pub total_spawned : ℕ
  pub total_terminated : ℕ
  pub backoff_accounts : ℕ

abbrev pub active : Account → Bool
active acc = acc.is_active

pub active_keys : List Account → List AccountKey
active_keys accounts = map key_of (keep_if active accounts)

-- The state after the first loop.
pub without_inactive : World → Coordinator → List Account → Coordinator
unfolding terminate_each active_keys
without_inactive w c all_accounts =
    terminate_each w (active_keys all_accounts) c (list_daemons c.registry none)

-- No summary is an exception that leaves the sweep.
pub reconcile_once : World → ℕ → Coordinator → List Account → Coordinator × Option Summary
unfolding without_inactive reconcile_accounts
reconcile_once w now c all_accounts =
    let active_accounts = keep_if active all_accounts in
    let (c', raised) =
      reconcile_accounts w now (without_inactive w c all_accounts) active_accounts in
    let done = record c' { total_sync_cycles = c'.total_sync_cycles + 1 } in
    if raised then (c', none) else (
      done,
      some record {
        sync_cycles = done.total_sync_cycles;
        active_accounts = length active_accounts;
        active_daemons = length (list_daemons done.registry none);
        total_spawned = done.total_daemons_spawned;
        total_terminated = done.total_daemons_terminated;
        backoff_accounts = length done.next_retry_time;
      },
    )

pub start : Coordinator → Coordinator
start c = record c { is_running = true }

pub stop : Coordinator → Coordinator
stop c = record c { is_running = false }

pub data Health : Type 0 where
  healthy stopped degraded : Health

-- The `status` of `health_check`.
pub health_check : Coordinator → Health
health_check c =
    if not c.is_running
    then stopped
    else elim c.consecutive_failures [ [] ↦ healthy | _ ∷ _ ↦ degraded ]
