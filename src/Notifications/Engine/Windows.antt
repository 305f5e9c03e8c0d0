-- ===== src/Notifications/Engine/Windows.antt =====
-- The entries of the deduplication cache: what the calls of `dispatch` leave of one.
use email_analysis_agent.Prelude.{
  ℕ, ◌+◌, ◌*◌, ◌<◌, ◌≡◌, refl, Option, some, List, [], ◌∷◌, leb, arith, list_eq, nat_eq, Bool-cases,
  Option-cases, inl, inr, ◌==◌, Bool, All,
}
use email_analysis_agent.Dict.{lookup, lookup-put}
use email_analysis_agent.Dict.Sweep.{Unique, sweep, lookup-sweep, put-Unique, sweep-Unique}
use email_analysis_agent.Text.{Text}
use email_analysis_agent.Notifications.Models.{
  ChannelType, NotificationPayload, TenantConfig, DeliveryResult, second, Engine, Summary,
}
use email_analysis_agent.Notifications.Engine.{
  target_of, dedup_key, update_dedup, check_and_update_dedup, note, aggregate, empty_summary,
  send_all, active_channels, chosen, deliver, deduplicate, dispatch, check_rate_limit, limit_of,
  config_of,
}

note-keeps :
    (e : Engine) (s : Summary) (t : ChannelType) (r : DeliveryResult)
    → ((note (e, s) (t, r)).0.dedup_cache ≡ e.dedup_cache)
      × ((note (e, s) (t, r)).1.is_suppressed ≡ s.is_suppressed)
unfolding note
note-keeps e s t r = ground arith

pub aggregate-keeps :
    (e : Engine) (s : Summary) (rs : List (ChannelType × DeliveryResult))
    → ((aggregate (e, s) rs).0.dedup_cache ≡ e.dedup_cache)
      × ((aggregate (e, s) rs).1.is_suppressed ≡ s.is_suppressed)
unfolding aggregate
aggregate-keeps e s [] = (refl, refl)
aggregate-keeps e s ((t, r) ∷ rs) =
    let (e', s') = note (e, s) (t, r) in
    ground (arith, note-keeps e s t r, aggregate-keeps e' s' rs)

-- The cache has a key until this moment, and no key twice.
pub record Marked (e : Engine) (key : Text) (end : ℕ) : Type 0 where
  pub found : lookup key e.dedup_cache ≡ some end
  pub unique : Unique e.dedup_cache

update-same :
    (e : Engine) (key' key : Text) (end t window : ℕ)
    → key' ≡ key
    → lookup key (sweep (λ (expiry : ℕ). leb expiry t) e.dedup_cache) ≡ some end
    → Unique (sweep (λ (expiry : ℕ). leb expiry t) e.dedup_cache)
    → t < end
    → Marked (update_dedup e t key' window).0 key end
unfolding update_dedup
update-same e key' key end t window same kept once early =
    let looked : lookup key' (sweep (λ (expiry : ℕ). leb expiry t) e.dedup_cache) ≡ some end =
      rw same kept in
    record {
      found = ground (arith, looked, early, kept);
      unique = ground (arith, looked, early, once);
    }

update_dedup-Marked :
    (e : Engine) (key key' : Text) (end t window : ℕ)
    → Marked e key end
    → t < end
    → Marked (update_dedup e t key' window).0 key end
unfolding update_dedup
update_dedup-Marked e key key' end t window m early =
    let cache = sweep (λ (expiry : ℕ). leb expiry t) e.dedup_cache in
    let kept : lookup key cache ≡ some end = ground (
      arith,
      early,
      m.found,
      lookup-sweep (λ (expiry : ℕ). leb expiry t) key e.dedup_cache m.unique,
    ) in
    let once = sweep-Unique (λ (expiry : ℕ). leb expiry t) e.dedup_cache m.unique in
    let twice = put-Unique key' (t + window * second) cache once in
    elim (Bool-cases (key' == key)) [
      | inl same ↦
          update-same e key' key end t window ((list_eq.same_iff key' key).0 same) kept once early
      | inr other ↦ record {
        found = ground (arith, kept, other, lookup-put key' key (t + window * second) cache);
        unique = ground (arith, once, twice);
      }
    ]

check-Marked :
    (e : Engine) (t : ℕ) (p : NotificationPayload) (window : ℕ) (key : Text) (end : ℕ)
    → Marked e key end
    → t < end
    → Marked
        (check_and_update_dedup e t p.tenant_id p.event_name p.incident_id p.message_id window).0
        key
        end
unfolding check_and_update_dedup
check-Marked e t p window key end m early = elim (Bool-cases (window == 0)) [
  | inl off ↦ rw (check_and_update_dedup, off) m
  | inr on ↦ elim (Option-cases (target_of p.incident_id p.message_id)) [
    | inl nothing ↦ rw (check_and_update_dedup, on, nothing) m
    | inr (target, has_target) ↦
        rw (check_and_update_dedup, on, has_target)
          (update_dedup-Marked e key (dedup_key p.tenant_id p.event_name target) end t window m
            early)
  ]
]

pub Marked-cache :
    (e e' : Engine) (key : Text) (end : ℕ)
    → e'.dedup_cache ≡ e.dedup_cache
    → Marked e key end
    → Marked e' key end
Marked-cache e e' key end same m = record { found = rw same m.found; unique = rw same m.unique }

-- A call of `dispatch`, with the times that it reads.
pub record Call : Type 0 where
  pub limit_time : ℕ
  pub dedup_time : ℕ
  pub payload : NotificationPayload
  pub targets : Option (List ChannelType)
  pub config : Option TenantConfig

unfoldable pub run_calls : (NotificationPayload → NotificationPayload) → Engine → List Call → Engine
run_calls sanitize e [] = e
run_calls sanitize e (c ∷ calls) =
    run_calls sanitize
      (dispatch sanitize e c.limit_time c.dedup_time c.payload c.targets c.config).0 calls

module _ (sanitize : NotificationPayload → NotificationPayload) where
  pub deduplicate-suppressed :
      (e : Engine) (now : ℕ) (p : NotificationPayload) (targets : Option (List ChannelType))
      (config : TenantConfig) (target : Text)
      → target_of p.incident_id p.message_id ≡ some target
      → 0 < config.threat_dedup_window_sec
      → let key = dedup_key p.tenant_id p.event_name target in
        let out = deduplicate sanitize e now p targets config in
        (out.1.is_suppressed ≡ (update_dedup e now key config.threat_dedup_window_sec).1)
        × (out.0.dedup_cache
            ≡ (update_dedup e now key config.threat_dedup_window_sec).0.dedup_cache)
  unfolding deduplicate check_and_update_dedup deliver empty_summary
  deduplicate-suppressed e now p targets config target has_target positive =
      let key = dedup_key p.tenant_id p.event_name target in
      let e' = (update_dedup e now key config.threat_dedup_window_sec).0 in
      let active = active_channels e'.channels (chosen targets config) in
      ground (
        arith,
        has_target,
        aggregate-keeps e' (empty_summary (sanitize p)) (send_all e' active (sanitize p) config),
      )

  deduplicate-cache :
      (e : Engine) (t : ℕ) (p : NotificationPayload) (targets : Option (List ChannelType))
      (config : TenantConfig)
      → (deduplicate sanitize e t p targets config).0.dedup_cache
        ≡ (check_and_update_dedup e t p.tenant_id p.event_name p.incident_id p.message_id
            config.threat_dedup_window_sec).0.dedup_cache
  unfolding deduplicate deliver
  deduplicate-cache e t p targets config =
      let e' =
        (check_and_update_dedup e t p.tenant_id p.event_name p.incident_id p.message_id
          config.threat_dedup_window_sec).0 in
      let active = active_channels e'.channels (chosen targets config) in
      ground (
        arith,
        aggregate-keeps e' (empty_summary (sanitize p)) (send_all e' active (sanitize p) config),
      )

  -- The engine at step 3, and whether the rate limit lets a dispatch come so far.
  abbrev pub limited : Engine → ℕ → NotificationPayload → Option TenantConfig → Engine × Bool
  limited e t p config =
      let counted : Engine = record e { dispatched_count = e.dispatched_count + 1 } in
      check_rate_limit counted t p.tenant_id (limit_of counted (config_of counted p config))

  pub limited-cache :
      (e : Engine) (t : ℕ) (p : NotificationPayload) (config : Option TenantConfig)
      → (limited e t p config).0.dedup_cache ≡ e.dedup_cache
  unfolding check_rate_limit
  limited-cache e t p config = ground arith

  dispatch-Marked :
      (e : Engine) (t t' : ℕ) (p : NotificationPayload) (targets : Option (List ChannelType))
      (config : Option TenantConfig) (key : Text) (end : ℕ)
      → Marked e key end
      → t' < end
      → Marked (dispatch sanitize e t t' p targets config).0 key end
  unfolding dispatch
  dispatch-Marked e t t' p targets config key end m early =
      let counted : Engine = record e { dispatched_count = e.dispatched_count + 1 } in
      let c = config_of counted p config in
      let e' = (limited e t p config).0 in
      let m' = Marked-cache e e' key end (limited-cache e t p config) m in
      elim (Bool-cases (limited e t p config).1) [
        | inl allowed ↦
            rw (dispatch, allowed)
              (Marked-cache
                (check_and_update_dedup e' t' p.tenant_id p.event_name p.incident_id p.message_id
                  c.threat_dedup_window_sec).0
                (deduplicate sanitize e' t' p targets c).0 key end
                (deduplicate-cache e' t' p targets c)
                (check-Marked e' t' p c.threat_dedup_window_sec key end m' early))
        | inr refused ↦ rw (dispatch, refused) record { found = m'.found; unique = m'.unique }
      ]

  pub run_calls-Marked :
      (calls : List Call) (e : Engine) (key : Text) (end : ℕ)
      → Marked e key end
      → All (λ (c : Call). c.dedup_time < end) calls
      → Marked (run_calls sanitize e calls) key end
  unfolding run_calls
  run_calls-Marked [] e key end m early = m
  run_calls-Marked (c ∷ calls) e key end m early =
      run_calls-Marked calls
        (dispatch sanitize e c.limit_time c.dedup_time c.payload c.targets c.config).0 key end
        (dispatch-Marked e c.limit_time c.dedup_time c.payload c.targets c.config key end m early.0)
        early.1
