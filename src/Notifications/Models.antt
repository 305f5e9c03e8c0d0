-- ===== src/Notifications/Models.antt =====
-- The types of src/notifications/models.py, less latencies, time stamps and the addresses that only
-- the channels read; and the state of the engine of src/notifications/engine.py.
use email_analysis_agent.Prelude.{ℕ, Bool, true, false, Option, List, ◌≡◌, ◌↔◌, arith, Eq}
use email_analysis_agent.Dict.{Dict}
use email_analysis_agent.Text.{Text}
use email_analysis_agent.Uuid.{Uuid}

pub data ChannelType : Type 0 where
  slack teams webhook email : ChannelType

pub data DeliveryStatus : Type 0 where
  delivered failed rate_limited suppressed skipped : DeliveryStatus

abbrev pub channel_beq : ChannelType → ChannelType → Bool
channel_beq slack slack = true
channel_beq teams teams = true
channel_beq webhook webhook = true
channel_beq email email = true
channel_beq _ _ = false

pub channel_beq_iff : (a b : ChannelType) → (channel_beq a b ≡ true) ↔ (a ≡ b)
channel_beq_iff a b = ground arith

instance abbrev pub channel_eq : Eq ChannelType
channel_eq = record { same = channel_beq; same_iff = channel_beq_iff }

pub record NotificationPayload : Type 0 where
  pub notification_id : Uuid
  pub tenant_id : Text
  pub event_name : Text
  pub title : Text
  pub message : Text
  pub incident_id : Option Text
  pub message_id : Option Text

pub record DeliveryResult : Type 0 where
  pub channel : ChannelType
  pub status : DeliveryStatus
  pub status_code : Option ℕ
  pub error : Option Text
  pub retries_attempted : ℕ

pub record TenantConfig : Type 0 where
  pub tenant_id : Text
  pub enabled_channels : List ChannelType
  pub rate_limit_per_minute : ℕ
  pub threat_dedup_window_sec : ℕ

abbrev pub second : ℕ
second = 1000000

abbrev pub minute : ℕ
minute = 60000000

-- How a call of `send_async` ends: with a result, or with an exception and its text.
pub data Sent : Type 0 where
  returned : DeliveryResult → Sent
  raised : Text → Sent

pub record Channel : Type 0 where
  pub channel_type : ChannelType
  pub send_async : NotificationPayload → TenantConfig → ℕ → Sent

pub record Engine : Type 0 where
  pub max_retries : ℕ
  pub default_rate_limit : ℕ
  pub channels : Dict ChannelType Channel
  pub tenant_configs : Dict Text TenantConfig
  pub rate_limit_records : Dict Text (List ℕ)
  pub dedup_cache : Dict Text ℕ
  pub dispatched_count : ℕ
  pub delivered_count : ℕ
  pub failed_count : ℕ
  pub suppressed_count : ℕ
  pub rate_limited_count : ℕ

pub record Summary : Type 0 where
  pub notification_id : Uuid
  pub tenant_id : Text
  pub event_name : Text
  pub delivered_channels : List ChannelType
  pub failed_channels : List ChannelType
  pub channel_results : Dict ChannelType DeliveryResult
  pub is_suppressed : Bool
