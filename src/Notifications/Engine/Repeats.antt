-- ===== src/Notifications/Engine/Repeats.antt =====
-- The deduplication window: what a dispatch suppresses, whatever became of the one before it.
use mathlib.Core.Path.{subst}
use email_analysis_agent.Prelude.{
  ℕ, ◌+◌, ◌*◌, ◌<◌, ◌≡◌, refl, sym, ◌∙◌, false, Option, some, List, [], ◌∷◌, leb, arith, list_eq,
  nat_eq, eq_self, Bool-cases, inl, inr, Bool, true, All,
}
use email_analysis_agent.Dict.{lookup-put}
use email_analysis_agent.Dict.Sweep.{Unique, sweep, lookup-sweep, put-Unique, sweep-Unique}
use email_analysis_agent.Text.{Text}
use email_analysis_agent.Notifications.Models.{
  ChannelType, NotificationPayload, TenantConfig, second, Engine, Summary,
}
use email_analysis_agent.Notifications.Engine.{
  target_of, dedup_key, update_dedup, check_and_update_dedup, empty_summary, send_all,
  active_channels, chosen, deliver, deduplicate, dispatch, config_of,
}
use email_analysis_agent.Notifications.Engine.Windows.{
  Marked, Marked-cache, Call, run_calls, deduplicate-suppressed, limited, limited-cache,
  run_calls-Marked, aggregate-keeps,
}

-- Two notifications that count as repetitions of one another.
pub record SameAlert (p p' : NotificationPayload) (target : Text) : Type 0 where
  pub tenant : p'.tenant_id ≡ p.tenant_id
  pub event : p'.event_name ≡ p.event_name
  pub target_before : target_of p.incident_id p.message_id ≡ some target
  pub target_after : target_of p'.incident_id p'.message_id ≡ some target

update_dedup-marks :
    (e : Engine) (t : ℕ) (key : Text) (window : ℕ)
    → Unique e.dedup_cache
    → (update_dedup e t key window).1 ≡ false
    → Marked (update_dedup e t key window).0 key (t + window * second)
unfolding update_dedup
update_dedup-marks e t key window unique passed =
    let cache = sweep (λ (expiry : ℕ). leb expiry t) e.dedup_cache in
    let once = sweep-Unique (λ (expiry : ℕ). leb expiry t) e.dedup_cache unique in
    record {
      found = ground (arith, passed, eq_self key, lookup-put key key (t + window * second) cache);
      unique = ground (arith, passed, put-Unique key (t + window * second) cache once);
    }

update_dedup-suppresses :
    (e : Engine) (t : ℕ) (key : Text) (window end : ℕ)
    → Marked e key end
    → t < end
    → (update_dedup e t key window).1 ≡ true
unfolding update_dedup
update_dedup-suppresses e t key window end m early =
    ground (
      arith,
      early,
      m.found,
      lookup-sweep (λ (expiry : ℕ). leb expiry t) key e.dedup_cache m.unique,
    )

-- The window of the configuration with which an engine takes a call.
abbrev pub window_of : Engine → Call → ℕ
window_of e c =
    (config_of (record e { dispatched_count = e.dispatched_count + 1 }) c.payload
      c.config).threat_dedup_window_sec

module _ (sanitize : NotificationPayload → NotificationPayload) where
  abbrev pub take_call : Engine → Call → Engine × Summary
  take_call e c = dispatch sanitize e c.limit_time c.dedup_time c.payload c.targets c.config

  -- Whether the rate limit lets a call come to the deduplication.
  abbrev pub is_allowed : Engine → Call → Bool
  is_allowed e c = (limited sanitize e c.limit_time c.payload c.config).1

  first-Marked :
      (e : Engine) (c : Call) (target : Text)
      → target_of c.payload.incident_id c.payload.message_id ≡ some target
      → Unique e.dedup_cache
      → 0 < window_of e c
      → is_allowed e c ≡ true
      → (take_call e c).1.is_suppressed ≡ false
      → Marked
          (take_call e c).0
          (dedup_key c.payload.tenant_id c.payload.event_name target)
          (c.dedup_time + window_of e c * second)
  unfolding dispatch
  first-Marked e c target has_target unique positive allowed passed =
      let counted : Engine = record e { dispatched_count = e.dispatched_count + 1 } in
      let config = config_of counted c.payload c.config in
      let e' = (limited sanitize e c.limit_time c.payload c.config).0 in
      let key = dedup_key c.payload.tenant_id c.payload.event_name target in
      let out =
        deduplicate-suppressed sanitize e' c.dedup_time c.payload c.targets config target has_target
          positive in
      let fresh : Unique e'.dedup_cache =
        rw (limited-cache sanitize e c.limit_time c.payload c.config) unique in
      let updated = (update_dedup e' c.dedup_time key (window_of e c)).0 in
      let through : (update_dedup e' c.dedup_time key (window_of e c)).1 ≡ false =
        ground (arith, out.0, passed, allowed) in
      rw (dispatch, allowed)
        (Marked-cache updated (deduplicate sanitize e' c.dedup_time c.payload c.targets config).0
          key (c.dedup_time + window_of e c * second) out.1
          (update_dedup-marks e' c.dedup_time key (window_of e c) fresh through))

  deduplicate-empty :
      (e : Engine) (t : ℕ) (p : NotificationPayload) (targets : Option (List ChannelType))
      (config : TenantConfig)
      → (deduplicate sanitize e t p targets config).1.is_suppressed ≡ true
      → (deduplicate sanitize e t p targets config).1.delivered_channels ≡ []
  unfolding deduplicate deliver empty_summary
  deduplicate-empty e t p targets config suppressed =
      let e' =
        (check_and_update_dedup e t p.tenant_id p.event_name p.incident_id p.message_id
          config.threat_dedup_window_sec).0 in
      let active = active_channels e'.channels (chosen targets config) in
      ground (
        arith,
        suppressed,
        aggregate-keeps e' (empty_summary (sanitize p)) (send_all e' active (sanitize p) config),
      )

  last-suppressed :
      (e : Engine) (c : Call) (target : Text) (end : ℕ)
      → target_of c.payload.incident_id c.payload.message_id ≡ some target
      → Marked e (dedup_key c.payload.tenant_id c.payload.event_name target) end
      → 0 < window_of e c
      → c.dedup_time < end
      → ((take_call e c).1.is_suppressed ≡ is_allowed e c)
        × ((take_call e c).1.delivered_channels ≡ [])
  unfolding dispatch empty_summary
  last-suppressed e c target end has_target m positive early =
      let counted : Engine = record e { dispatched_count = e.dispatched_count + 1 } in
      let config = config_of counted c.payload c.config in
      let e' = (limited sanitize e c.limit_time c.payload c.config).0 in
      let key = dedup_key c.payload.tenant_id c.payload.event_name target in
      let out =
        deduplicate-suppressed sanitize e' c.dedup_time c.payload c.targets config target has_target
          positive in
      let m' =
        Marked-cache e e' key end (limited-cache sanitize e c.limit_time c.payload c.config) m in
      let stopped : (deduplicate sanitize e' c.dedup_time c.payload c.targets
            config).1.is_suppressed
          ≡ true =
        out.0 ∙ update_dedup-suppresses e' c.dedup_time key (window_of e c) end m' early in
      let nothing = deduplicate-empty e' c.dedup_time c.payload c.targets config stopped in
      elim (Bool-cases (is_allowed e c)) [
        | inl allowed ↦ rw (dispatch, allowed) (stopped, nothing)
        | inr refused ↦ rw (dispatch, refused) (refl, refl)
      ]

  -- After a dispatch that passes the rate limit and is let through, and any further dispatches before
  -- its window ends, suppressed repetitions among them: a repetition of it, of the same tenant, event
  -- and target, that comes before that end is delivered nowhere, and is suppressed exactly if the rate
  -- limit does not refuse it first. Both configurations must have a window, and the cache no key twice.
  pub repeats-suppressed :
      (e : Engine) (first last : Call) (calls : List Call) (target : Text)
      → SameAlert first.payload last.payload target
      → Unique e.dedup_cache
      → 0 < window_of e first
      → 0 < window_of (run_calls sanitize e (first ∷ calls)) last
      → is_allowed e first ≡ true
      → (take_call e first).1.is_suppressed ≡ false
      → All
          (λ (c : Call). c.dedup_time < first.dedup_time + window_of e first * second)
          (last ∷ calls)
      → let e' = run_calls sanitize e (first ∷ calls) in
        ((take_call e' last).1.is_suppressed ≡ is_allowed e' last)
        × ((take_call e' last).1.delivered_channels ≡ [])
  unfolding run_calls
  repeats-suppressed e first last calls target same unique w w' allowed passed early =
      let end = first.dedup_time + window_of e first * second in
      let key = dedup_key first.payload.tenant_id first.payload.event_name target in
      let marked = first-Marked e first target same.target_before unique w allowed passed in
      let later = run_calls-Marked sanitize calls (take_call e first).0 key end marked early.1 in
      let e' = run_calls sanitize (take_call e first).0 calls in
      let same_key : dedup_key last.payload.tenant_id last.payload.event_name target ≡ key =
        rw (same.tenant, same.event) refl in
      last-suppressed e' last target end same.target_after
        (subst (λ k. Marked e' k end) (sym same_key) later) w' early.0
