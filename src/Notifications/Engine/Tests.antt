-- ===== src/Notifications/Engine/Tests.antt =====
-- The theorems on the notification engine at inputs that meet their conditions.
use email_analysis_agent.Prelude.{ℕ, zero, suc, ◌≡◌, refl, true, false, none, some, [], ◌∷◌, arith}
use email_analysis_agent.Dict.{lookup, put}
use email_analysis_agent.Dict.Sweep.{sweep}
use email_analysis_agent.Text.{codes}
use email_analysis_agent.Notifications.Models.{
  slack, delivered, NotificationPayload, TenantConfig, DeliveryResult, Engine, Channel, Sent,
  returned, raised,
}
use email_analysis_agent.Notifications.Engine.{check_rate_limit, deduplicate, dispatch, target_of}
use email_analysis_agent.Notifications.Engine.Limits.{run}
use email_analysis_agent.Notifications.Engine.Repeats.{
  SameAlert, is_allowed, take_call, repeats-suppressed,
}
use email_analysis_agent.Notifications.Engine.Windows.{Call, run_calls}

abbrev payload : NotificationPayload
payload = record {
  notification_id = 1;
  tenant_id = codes "acme";
  event_name = codes "phish";
  title = codes "Phishing";
  message = codes "Phishing found";
  incident_id = some (codes "i-1");
  message_id = none;
}

abbrev config : TenantConfig
config = record {
  tenant_id = codes "acme";
  enabled_channels = slack ∷ [];
  rate_limit_per_minute = 2;
  threat_dedup_window_sec = 300;
}

abbrev ok : DeliveryResult
ok = record {
  channel = slack;
  status = delivered;
  status_code = some 200;
  error = none;
  retries_attempted = 0;
}

-- Raises at the first attempt, and delivers from then on.
abbrev flaky : ℕ → Sent
flaky zero = raised (codes "timeout")
flaky (suc n) = returned ok

abbrev channel : Channel
channel = record { channel_type = slack; send_async = λ p c attempt. flaky attempt }

abbrev engine : Engine
engine = record {
  max_retries = 3;
  default_rate_limit = 60;
  channels = (slack, channel) ∷ [];
  tenant_configs = [];
  rate_limit_records = [];
  dedup_cache = [];
  dispatched_count = 0;
  delivered_count = 0;
  failed_count = 0;
  suppressed_count = 0;
  rate_limited_count = 0;
}

abbrev unchanged : NotificationPayload → NotificationPayload
unchanged p = p

one_left : (check_rate_limit (run engine (codes "acme") 2 (5 ∷ [])).0 6 (codes "acme") 2).1 ≡ true
unfolding run check_rate_limit lookup put
one_left = refl

same : SameAlert payload payload (codes "i-1")
unfolding target_of
same = record { tenant = refl; event = refl; target_before = refl; target_after = refl }

abbrev call_at : ℕ → Call
call_at t = record {
  limit_time = t;
  dedup_time = t;
  payload = payload;
  targets = none;
  config = some config;
}

let_through :
    (is_allowed unchanged engine (call_at 10) ≡ true)
    × ((take_call unchanged engine (call_at 10)).1.is_suppressed ≡ false)
unfolding check_rate_limit dispatch deduplicate lookup put sweep
let_through = (refl, refl)

repeats-suppressed_example :
    let e' = run_calls unchanged engine (call_at 10 ∷ call_at 20 ∷ []) in
    ((take_call unchanged e' (call_at 30)).1.is_suppressed ≡ is_allowed unchanged e' (call_at 30))
    × ((take_call unchanged e' (call_at 30)).1.delivered_channels ≡ [])
unfolding email_analysis_agent.Notifications.Engine.config_of
repeats-suppressed_example =
    repeats-suppressed unchanged engine (call_at 10) (call_at 30) (call_at 20 ∷ []) (codes "i-1")
      same tt (omega arith) (omega arith) let_through.0 let_through.1
      (omega arith, (omega arith, tt))
