-- ===== src/Ingestion/DeadLetter/Tests.antt =====
-- The theorem on requeueing at an input that meets its conditions.
use email_analysis_agent.Prelude.{◌≡◌, refl, false, none, some, [], ◌∷◌, nat_eq}
use email_analysis_agent.Text.{codes}
use email_analysis_agent.Dict.{lookup}
use email_analysis_agent.Ingestion.Models.{gmail, DeadLetterItem}
use email_analysis_agent.Ingestion.Storage
use email_analysis_agent.Ingestion.DeadLetter.{DeadLetterQueue, get}

abbrev letter : DeadLetterItem
letter = record {
  dead_letter_id = 10;
  tenant_id = 1;
  account_id = 2;
  provider = gmail;
  reason = "PUBLISH_FAILED";
  provider_message_id = none;
  raw_payload = some (codes "body");
  error_message = "timeout";
  error_traceback = none;
  correlation_id = 4;
  timestamp = 0;
  retry_count = 1;
  max_retries = 3;
}

abbrev queue : DeadLetterQueue
queue = record {
  max_items = 5;
  storage = record { max_items = 5; queue = 10 ∷ []; items = (10, letter) ∷ [] };
  has_event_hook = false;
  total_enqueued = 1;
  total_purged = 0;
  total_requeued = 0;
}

held : get queue 10 ≡ some letter
unfolding get Storage.get lookup
held = refl
