-- ===== src/Notifications/Engine.antt =====
-- `NotificationEngine` of src/notifications/engine.py. Clock readings are arguments, in microseconds.
-- A channel is a parameter: what its `send_async` does at each attempt. `sanitize_payload` is a
-- parameter too, and the pauses between attempts and the measured durations are left out.
pub mod Limits
pub mod Retries
pub mod Repeats
pub mod Windows
pub mod Tallies
mod Tests
use email_analysis_agent.Prelude.{
  ℕ, zero, suc, ◌+◌, ◌*◌, Bool, true, false, not, Option, none, some, List, [], ◌∷◌, ◌++◌, ltb, leb,
  if◌then◌else◌, ◌==◌, Eq, nat_eq, list_eq, length, keep_if,
}
use email_analysis_agent.Dict.{Dict, lookup, put}
use email_analysis_agent.Dict.Sweep.{sweep}
use email_analysis_agent.Text.{Text, codes, decimal}
use email_analysis_agent.Uuid.{Uuid}
use email_analysis_agent.Notifications.Models.{
  second, minute, Sent, returned, raised, Channel, Engine, Summary, ChannelType, slack, teams,
  webhook, email, channel_eq, DeliveryStatus, delivered, failed, rate_limited, suppressed, skipped,
  NotificationPayload, DeliveryResult, TenantConfig,
}

pub register_channel : Engine → Channel → Engine
register_channel e channel = record e { channels = put channel.channel_type channel e.channels }

pub set_tenant_config : Engine → TenantConfig → Engine
set_tenant_config e config = record e {
  tenant_configs = put config.tenant_id config e.tenant_configs;
}

pub get_tenant_config : Engine → Text → TenantConfig
get_tenant_config e tenant_id = elim (lookup tenant_id e.tenant_configs) [
  | none ↦ record {
    tenant_id = tenant_id;
    enabled_channels = slack ∷ teams ∷ webhook ∷ email ∷ [];
    rate_limit_per_minute = e.default_rate_limit;
    threat_dedup_window_sec = 300;
  }
  | some config ↦ config
]

-- The `defaultdict` of time stamps.
pub records_of : Engine → Text → List ℕ
records_of e tenant_id = elim (lookup tenant_id e.rate_limit_records) [
  | none ↦ []
  | some records ↦ records
]

-- The records of a tenant that are less than a minute old.
pub recent : Engine → ℕ → Text → List ℕ
unfolding records_of
recent e now tenant_id = keep_if (λ ts. ltb now (ts + minute)) (records_of e tenant_id)

pub check_rate_limit : Engine → ℕ → Text → ℕ → Engine × Bool
unfolding recent
check_rate_limit e now tenant_id limit =
    let records = recent e now tenant_id in
    if leb limit (length records)
    then (record e { rate_limit_records = put tenant_id records e.rate_limit_records }, false)
    else (
      record e { rate_limit_records = put tenant_id (records ++ now ∷ []) e.rate_limit_records },
      true,
    )

-- `incident_id or message_id`, with nothing for a text that is empty.
pub target_of : Option Text → Option Text → Option Text
target_of (some (c ∷ s)) _ = some (c ∷ s)
target_of _ (some (c ∷ s)) = some (c ∷ s)
target_of _ _ = none

abbrev pub dedup_key : Text → Text → Text → Text
dedup_key tenant_id event_name target_id = tenant_id ++ 58 ∷ (event_name ++ 58 ∷ target_id)

-- The part of `_check_and_update_dedup` after its early returns.
pub update_dedup : Engine → ℕ → Text → ℕ → Engine × Bool
update_dedup e now key window_sec =
    let cache = sweep (λ expiry. leb expiry now) e.dedup_cache in
    let marked = record e { dedup_cache = put key (now + window_sec * second) cache } in
    elim (lookup key cache) [
      | none ↦ (marked, false)
      | some expiry ↦
          if ltb now expiry then (record e { dedup_cache = cache }, true) else (marked, false)
    ]

pub check_and_update_dedup :
    Engine → ℕ → Text → Text → Option Text → Option Text → ℕ → Engine × Bool
unfolding target_of update_dedup
check_and_update_dedup e now tenant_id event_name incident_id message_id window_sec =
    if window_sec == 0 then (e, false) else elim (target_of incident_id message_id) [
      | none ↦ (e, false)
      | some target_id ↦ update_dedup e now (dedup_key tenant_id event_name target_id) window_sec
    ]

-- The statuses that end the attempts.
pub is_final : DeliveryStatus → Bool
is_final delivered = true
is_final skipped = true
is_final _ = false

-- What an attempt leaves in `res` or `last_result`.
pub attempt_result : Channel → NotificationPayload → TenantConfig → ℕ → DeliveryResult
attempt_result channel payload config attempt = elim (channel.send_async payload config attempt) [
  | returned r ↦ record r { retries_attempted = attempt }
  | raised message ↦ record {
    channel = channel.channel_type;
    status = failed;
    status_code = none;
    error = some message;
    retries_attempted = attempt;
  }
]

-- The loop, with the number of attempts that are left and the next one.
pub send_loop :
    Channel → NotificationPayload → TenantConfig → ℕ → ℕ → DeliveryResult → DeliveryResult
unfolding attempt_result is_final
send_loop channel payload config zero attempt last_result = last_result
send_loop channel payload config (suc left) attempt last_result =
    let res = attempt_result channel payload config attempt in
    let rest = send_loop channel payload config left (attempt + 1) res in
    if is_final res.status then res else rest

pub send_with_retries : Engine → Channel → NotificationPayload → TenantConfig → DeliveryResult
unfolding send_loop
send_with_retries e channel payload config =
    send_loop channel payload config (e.max_retries + 1) 0 (record {
      channel = channel.channel_type;
      status = failed;
      status_code = none;
      error = some (codes "Max retries exceeded");
      retries_attempted = e.max_retries;
    })

-- `channels or config.enabled_channels`
pub chosen : Option (List ChannelType) → TenantConfig → List ChannelType
chosen (some (c ∷ cs)) config = c ∷ cs
chosen _ config = config.enabled_channels

pub active_channels : Dict ChannelType Channel → List ChannelType → List Channel
active_channels registered [] = []
active_channels registered (t ∷ ts) =
    let rest = active_channels registered ts in
    elim (lookup t registered) [ none ↦ rest | some channel ↦ channel ∷ rest ]

-- One turn of the loop of step 7.
pub note : Engine × Summary → ChannelType × DeliveryResult → Engine × Summary
note (e, s) (t, r) =
    let noted = record s { channel_results = put t r s.channel_results } in
    elim r.status [
      | delivered ↦ (
        record e { delivered_count = e.delivered_count + 1 },
        record noted { delivered_channels = s.delivered_channels ++ t ∷ [] },
      )
      | failed ↦ (
        record e { failed_count = e.failed_count + 1 },
        record noted { failed_channels = s.failed_channels ++ t ∷ [] },
      )
      | rate_limited ↦ (e, noted)
      | suppressed ↦ (e, noted)
      | skipped ↦ (e, noted)
    ]

pub aggregate : Engine × Summary → List (ChannelType × DeliveryResult) → Engine × Summary
unfolding note
aggregate done [] = done
aggregate done (r ∷ rs) = aggregate (note done r) rs

pub empty_summary : NotificationPayload → Summary
empty_summary payload = record {
  notification_id = payload.notification_id;
  tenant_id = payload.tenant_id;
  event_name = payload.event_name;
  delivered_channels = [];
  failed_channels = [];
  channel_results = [];
  is_suppressed = false;
}

pub limited_results : ℕ → List ChannelType → Dict ChannelType DeliveryResult
limited_results rate_limit [] = []
limited_results rate_limit (t ∷ ts) =
    let r : DeliveryResult = record {
      channel = t;
      status = rate_limited;
      status_code = none;
      error = some (codes "Rate limit of " ++ (decimal rate_limit ++ codes " msgs/min exceeded"));
      retries_attempted = 0;
    } in
    (t, r) ∷ limited_results rate_limit ts

pub send_all :
    Engine → List Channel → NotificationPayload → TenantConfig → List (ChannelType × DeliveryResult)
unfolding send_with_retries
send_all e [] payload config = []
send_all e (c ∷ cs) payload config =
    (c.channel_type, send_with_retries e c payload config) ∷ send_all e cs payload config

-- `config.rate_limit_per_minute or self.default_rate_limit`
pub limit_of : Engine → TenantConfig → ℕ
limit_of e config =
    if config.rate_limit_per_minute == 0 then e.default_rate_limit else config.rate_limit_per_minute

-- `tenant_config or self.get_tenant_config(payload.tenant_id)`
pub config_of : Engine → NotificationPayload → Option TenantConfig → TenantConfig
unfolding get_tenant_config
config_of e payload none = get_tenant_config e payload.tenant_id
config_of e payload (some config) = config

module _ (sanitize : NotificationPayload → NotificationPayload) where
  -- Steps 4 to 7.
  pub deliver :
      Engine → NotificationPayload → Option (List ChannelType) → TenantConfig → Engine × Summary
  unfolding aggregate empty_summary send_all active_channels chosen
  deliver e payload targets config =
      let sanitized = sanitize payload in
      let active = active_channels e.channels (chosen targets config) in
      aggregate (e, empty_summary sanitized) (send_all e active sanitized config)

  -- Step 3, and the rest.
  pub deduplicate :
      Engine → ℕ → NotificationPayload → Option (List ChannelType) → TenantConfig → Engine × Summary
  unfolding check_and_update_dedup deliver
  deduplicate e now payload targets config =
      let (e', duplicate) =
        check_and_update_dedup e now payload.tenant_id payload.event_name payload.incident_id
          payload.message_id config.threat_dedup_window_sec in
      if duplicate
      then (
        record e' { suppressed_count = e'.suppressed_count + 1 },
        record (empty_summary payload) { is_suppressed = true },
      )
      else deliver e' payload targets config

  -- The clock is read twice, for the rate limit and for the deduplication.
  pub dispatch :
      Engine
      → ℕ
      → ℕ
      → NotificationPayload
      → Option (List ChannelType)
      → Option TenantConfig
      → Engine × Summary
  unfolding config_of limit_of check_rate_limit deduplicate limited_results
  dispatch e now now' payload targets tenant_config =
      let counted = record e { dispatched_count = e.dispatched_count + 1 } in
      let config = config_of counted payload tenant_config in
      let (e', allowed) =
        check_rate_limit counted now payload.tenant_id (limit_of counted config) in
      if not allowed
      then (
        record e' { rate_limited_count = e'.rate_limited_count + 1 },
        record (empty_summary payload) {
          failed_channels = chosen targets config;
          channel_results = limited_results (limit_of counted config) (chosen targets config);
        },
      )
      else deduplicate e' now' payload targets config
