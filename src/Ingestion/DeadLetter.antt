-- ===== src/Ingestion/DeadLetter.antt =====
-- The dead-letter queue, src/ingestion_gateway/dead_letter.py, over the in-memory store. Identifiers
-- that `uuid4` makes and the clock reading are arguments. A method that may call the event hook
-- returns the items that the hook is called with; the hook's exceptions are swallowed, so it
-- changes nothing here.
pub mod Retries
mod Tests
use email_analysis_agent.Prelude.{
  ℕ, ◌+◌, Bool, true, false, String, Option, none, some, List, [], ◌∷◌, leb, take, if◌then◌else◌,
}
use email_analysis_agent.Text.{Text}
use email_analysis_agent.Uuid.{Uuid}
use email_analysis_agent.Ingestion.Models.{MailboxProvider, DeadLetterItem}
use email_analysis_agent.Ingestion.Storage
use email_analysis_agent.Ingestion.Storage.{Storage}

pub record DeadLetterQueue : Type 0 where
  pub max_items : ℕ
  pub storage : Storage
  pub has_event_hook : Bool
  pub total_enqueued : ℕ
  pub total_purged : ℕ
  pub total_requeued : ℕ

pub new : ℕ → DeadLetterQueue
new max_items = record {
  max_items = max_items;
  storage = Storage.new max_items;
  has_event_hook = false;
  total_enqueued = 0;
  total_purged = 0;
  total_requeued = 0;
}

pub set_event_hook : DeadLetterQueue → DeadLetterQueue
set_event_hook q = record q { has_event_hook = true }

-- The arguments of `enqueue`.
pub record Failure : Type 0 where
  pub tenant_id : Uuid
  pub account_id : Uuid
  pub provider : MailboxProvider
  pub reason : String
  pub error_message : String
  pub provider_message_id : Option String
  pub raw_payload : Option Text
  pub error_traceback : Option String
  pub correlation_id : Option Uuid

-- `raw_payload[:8192] if raw_payload else None`
pub bounded_payload : Option Text → Option Text
bounded_payload none = none
bounded_payload (some []) = none
bounded_payload (some (c ∷ s)) = some (take 8192 (c ∷ s))

abbrev pub or_else : Option Uuid → Uuid → Uuid
or_else none fresh = fresh
or_else (some given) fresh = given

pub quarantined : Failure → Uuid → Uuid → ℕ → DeadLetterItem
unfolding bounded_payload
quarantined f fresh_id fresh_correlation now = record {
  dead_letter_id = fresh_id;
  tenant_id = f.tenant_id;
  account_id = f.account_id;
  provider = f.provider;
  reason = f.reason;
  provider_message_id = f.provider_message_id;
  raw_payload = bounded_payload f.raw_payload;
  error_message = f.error_message;
  error_traceback = f.error_traceback;
  correlation_id = or_else f.correlation_id fresh_correlation;
  timestamp = now;
  retry_count = 0;
  max_retries = 3;
}

pub record Enqueued : Type 0 where
  pub queue : DeadLetterQueue
  pub item : DeadLetterItem
  pub hook_calls : List DeadLetterItem

pub enqueue : DeadLetterQueue → Failure → Uuid → Uuid → ℕ → Enqueued
unfolding quarantined
enqueue q f fresh_id fresh_correlation now =
    let item = quarantined f fresh_id fresh_correlation now in
    record {
      queue = record q {
        storage = Storage.save q.storage item;
        total_enqueued = q.total_enqueued + 1;
      };
      item = item;
      hook_calls = if q.has_event_hook then item ∷ [] else [];
    }

pub get : DeadLetterQueue → Uuid → Option DeadLetterItem
get q id = Storage.get q.storage id

pub list_items : DeadLetterQueue → Option Uuid → ℕ → List DeadLetterItem
list_items q tenant limit = Storage.list_items q.storage tenant limit

pub purge : DeadLetterQueue → Uuid → DeadLetterQueue × Bool
purge q id =
    let (storage, deleted) = Storage.delete q.storage id in
    (
      record q {
        storage = storage;
        total_purged = if deleted then q.total_purged + 1 else q.total_purged;
      },
      deleted,
    )

pub clear_tenant : DeadLetterQueue → Uuid → DeadLetterQueue × ℕ
clear_tenant q tenant =
    let (storage, cleared) = Storage.clear_tenant q.storage tenant in
    (record q { storage = storage; total_purged = q.total_purged + cleared }, cleared)

pub requeue : DeadLetterQueue → Uuid → ℕ → DeadLetterQueue × Option DeadLetterItem
requeue q id now = elim (Storage.get q.storage id) [
  | none ↦ (q, none)
  | some item ↦
      if leb item.max_retries item.retry_count
      then (q, none)
      else (let updated_item = record item {
        timestamp = now;
        retry_count = item.retry_count + 1;
      } in
          (
            record q {
              storage = Storage.save q.storage updated_item;
              total_requeued = q.total_requeued + 1;
            },
            some updated_item,
          ))
]

pub record Stats : Type 0 where
  pub current_size : ℕ
  pub max_capacity : ℕ
  pub total_enqueued : ℕ
  pub total_purged : ℕ
  pub total_requeued : ℕ

pub get_stats : DeadLetterQueue → Stats
get_stats q = record {
  current_size = Storage.count q.storage none;
  max_capacity = q.max_items;
  total_enqueued = q.total_enqueued;
  total_purged = q.total_purged;
  total_requeued = q.total_requeued;
}
