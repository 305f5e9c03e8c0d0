-- ===== src/Notifications/Engine/Tallies.antt =====
-- The counters of the engine against the summaries that it returns.
use email_analysis_agent.Prelude.{
  ℕ, ◌+◌, ◌≡◌, refl, Option, List, [], ◌∷◌, arith, length, length-append,
}
use email_analysis_agent.Text.{Text}
use email_analysis_agent.Notifications.Models.{
  ChannelType, NotificationPayload, TenantConfig, DeliveryResult, Engine, Summary,
}
use email_analysis_agent.Notifications.Engine.{
  note, aggregate, empty_summary, send_all, active_channels, chosen, check_rate_limit,
  check_and_update_dedup, update_dedup, limit_of, config_of, deliver, deduplicate, dispatch,
}

note-tallies :
    (e : Engine) (s : Summary) (t : ChannelType) (r : DeliveryResult)
    → let out = note (e, s) (t, r) in
      (out.0.delivered_count + length s.delivered_channels
        ≡ e.delivered_count + length out.1.delivered_channels)
      × (out.0.failed_count + length s.failed_channels
          ≡ e.failed_count + length out.1.failed_channels)
unfolding note
note-tallies e s t r = ground (
  arith,
  length-append {0} s.delivered_channels (t ∷ []),
  length-append {0} s.failed_channels (t ∷ []),
)

aggregate-tallies :
    (e : Engine) (s : Summary) (rs : List (ChannelType × DeliveryResult))
    → let out = aggregate (e, s) rs in
      (out.0.delivered_count + length s.delivered_channels
        ≡ e.delivered_count + length out.1.delivered_channels)
      × (out.0.failed_count + length s.failed_channels
          ≡ e.failed_count + length out.1.failed_channels)
unfolding aggregate
aggregate-tallies e s [] = (refl, refl)
aggregate-tallies e s ((t, r) ∷ rs) =
    let (e', s') = note (e, s) (t, r) in
    let one = note-tallies e s t r in
    let rest = aggregate-tallies e' s' rs in
    (omega (arith, one.0, rest.0), omega (arith, one.1, rest.1))

check_rate_limit-counts :
    (e : Engine) (now : ℕ) (tenant : Text) (limit : ℕ)
    → let e' = (check_rate_limit e now tenant limit).0 in
      (e'.delivered_count ≡ e.delivered_count) × (e'.failed_count ≡ e.failed_count)
unfolding check_rate_limit
check_rate_limit-counts e now tenant limit = ground arith

check_dedup-counts :
    (e : Engine) (now : ℕ) (t v : Text) (i m : Option Text) (w : ℕ)
    → let e' = (check_and_update_dedup e now t v i m w).0 in
      (e'.delivered_count ≡ e.delivered_count) × (e'.failed_count ≡ e.failed_count)
unfolding check_and_update_dedup update_dedup
check_dedup-counts e now t v i m w = ground arith

module _ (sanitize : NotificationPayload → NotificationPayload) where
  deliver-tallies :
      (e : Engine) (p : NotificationPayload) (targets : Option (List ChannelType))
      (config : TenantConfig)
      → let out = deliver sanitize e p targets config in
        (out.0.delivered_count ≡ e.delivered_count + length out.1.delivered_channels)
        × (out.0.failed_count ≡ e.failed_count + length out.1.failed_channels)
  unfolding deliver empty_summary
  deliver-tallies e p targets config =
      let clean = sanitize p in
      let active = active_channels e.channels (chosen targets config) in
      ground (arith, aggregate-tallies e (empty_summary clean) (send_all e active clean config))

  deduplicate-tallies :
      (e : Engine) (now : ℕ) (p : NotificationPayload) (targets : Option (List ChannelType))
      (config : TenantConfig)
      → let out = deduplicate sanitize e now p targets config in
        (out.0.delivered_count ≡ e.delivered_count + length out.1.delivered_channels)
        × (out.0.failed_count ≡ e.failed_count + length out.1.failed_channels)
  unfolding deduplicate empty_summary
  deduplicate-tallies e now p targets config =
      let e' =
        (check_and_update_dedup e now p.tenant_id p.event_name p.incident_id p.message_id
          config.threat_dedup_window_sec).0 in
      ground (
        arith,
        check_dedup-counts e now p.tenant_id p.event_name p.incident_id p.message_id
            config.threat_dedup_window_sec,
        deliver-tallies e' p targets config,
      )

  -- Every dispatch, whatever its outcome, raises the counter of deliveries by exactly the number of
  -- channels that its summary lists as delivered.
  pub dispatch-tallies :
      (e : Engine) (now now' : ℕ) (p : NotificationPayload) (targets : Option (List ChannelType))
      (given : Option TenantConfig)
      → let out = dispatch sanitize e now now' p targets given in
        out.0.delivered_count ≡ e.delivered_count + length out.1.delivered_channels
  unfolding dispatch empty_summary
  dispatch-tallies e now now' p targets given =
      let counted = record e { dispatched_count = e.dispatched_count + 1 } in
      let config = config_of counted p given in
      let limit = limit_of counted config in
      let e' = (check_rate_limit counted now p.tenant_id limit).0 in
      ground (
        arith,
        check_rate_limit-counts counted now p.tenant_id limit,
        deduplicate-tallies e' now' p targets config,
      )
