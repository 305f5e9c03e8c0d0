-- ===== src/Ingestion/Models.antt =====
-- The shared types of the gateway: src/ingestion_gateway/models.py, and the quarantined item of
-- src/ingestion_gateway/dead_letter.py.
use email_analysis_agent.Prelude.{ℕ, Bool, true, false, String, Option, ◌≡◌, ◌↔◌, arith, Eq}
use email_analysis_agent.Text.{Text}
use email_analysis_agent.Uuid.{Uuid}

pub data MailboxProvider : Type 0 where
  ms_graph gmail imap : MailboxProvider

pub data DaemonStatus : Type 0 where
  starting running stopped degraded error : DaemonStatus

abbrev pub provider_beq : MailboxProvider → MailboxProvider → Bool
provider_beq ms_graph ms_graph = true
provider_beq gmail gmail = true
provider_beq imap imap = true
provider_beq _ _ = false

pub provider_beq_iff : (a b : MailboxProvider) → (provider_beq a b ≡ true) ↔ (a ≡ b)
provider_beq_iff a b = ground arith

instance abbrev pub provider_eq : Eq MailboxProvider
provider_eq = record { same = provider_beq; same_iff = provider_beq_iff }

pub record DeadLetterItem : Type 0 where
  pub dead_letter_id : Uuid
  pub tenant_id : Uuid
  pub account_id : Uuid
  pub provider : MailboxProvider
  pub reason : String
  pub provider_message_id : Option String
  pub raw_payload : Option Text
  pub error_message : String
  pub error_traceback : Option String
  pub correlation_id : Uuid
  pub timestamp : ℕ
  pub retry_count : ℕ
  pub max_retries : ℕ
