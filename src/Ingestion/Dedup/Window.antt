-- ===== src/Ingestion/Dedup/Window.antt =====
-- Suppression over a whole run: a message that was let through stays suppressed for its window,
-- whatever the gateway does in between.
use email_analysis_agent.Prelude.{
  ℕ, ◌+◌, ◌*◌, ◌≤◌, ◌<◌, ◌≡◌, ◌≢◌, refl, true, false, Option, none, some, List, [], ◌∷◌, arith,
  list_eq, nat_eq, leb, ◌==◌, All, list_beq_iff, eq_self,
}
use email_analysis_agent.Dict.{lookup, lookup-put, lookup-remove}
use email_analysis_agent.Dict.Sweep.{Unique, lookup-sweep, put-Unique, remove-Unique, sweep-Unique}
use email_analysis_agent.Text.{Text}
use email_analysis_agent.Uuid.{Uuid}
use email_analysis_agent.Ingestion.Dedup.{
  second, Clock, DedupRecord, Engine, effective_ttl, compute_dedup_key, is_duplicate, mark_seen,
  check_and_mark, get_record, is_expired, prune_expired, clear, fresh_record,
}

-- A call of one of the engine's methods.
pub data Call : Type 0 where
  check mark : Uuid → Uuid → Text → Option ℕ → Call
  query fetch : Uuid → Uuid → Text → Call
  prune : Call
  wipe : Option Uuid → Call

abbrev pub IsValid : Engine → Type 0
IsValid s = Unique s.store

-- An entry of `tenant` that lasts until `deadline` at least.
abbrev pub Lasts : Uuid → ℕ → Option (DedupRecord × ℕ) → Type 0
Lasts tenant deadline none = ⊥
Lasts tenant deadline (some entry) = (deadline ≤ entry.1) × (entry.0.tenant_id ≡ tenant)

-- The engine holds such an entry under `key`.
abbrev pub Guards : Text → Uuid → ℕ → Engine → Type 0
Guards key tenant deadline s = Lasts tenant deadline (lookup key s.store)

-- The first tick at which an entry written by this call is expired.
abbrev pub end_of : Engine → Clock → Option ℕ → ℕ
end_of s now ttl = now.time + effective_ttl s ttl * second

module _ (sha256 : Text → Text) where
  pub step : Engine → Clock → Call → Engine
  step s now (check t a m ttl) = (check_and_mark sha256 s now t a m ttl).0
  step s now (mark t a m ttl) = (mark_seen sha256 s now t a m ttl).0
  step s now (query t a m) = (is_duplicate sha256 s now t a m).0
  step s now (fetch t a m) = (get_record sha256 s now t a m).0
  step s now prune = (prune_expired s now).0
  step s now (wipe tenant) = clear s tenant

  pub run : Engine → List (Clock × Call) → Engine
  run s [] = s
  run s ((now, call) ∷ calls) = run (step s now call) calls

  -- Calls that may come before the deadline: no whole wipe, no wipe of the tenant, and no explicit
  -- mark of the same key that ends earlier or is another tenant's.
  abbrev pub Allowed : Text → Uuid → ℕ → ℕ → Clock → Call → Type 0
  Allowed key tenant deadline ttl now (mark t a m shorter) =
      compute_dedup_key sha256 t a m ≡ key
      → (deadline ≤ now.time + elim shorter [ none ↦ ttl | some x ↦ x ] * second) × (t ≡ tenant)
  Allowed key tenant deadline ttl now (wipe none) = ⊥
  Allowed key tenant deadline ttl now (wipe (some t)) = t ≢ tenant
  Allowed key tenant deadline ttl now _ = Unit

  default_ttl-step :
      (s : Engine) (now : Clock) (call : Call)
      → (step s now call).default_ttl_sec ≡ s.default_ttl_sec
  unfolding step check_and_mark mark_seen is_duplicate get_record prune_expired clear
  default_ttl-step s now (wipe none) = refl
  default_ttl-step s now call = ground arith

  pub step-IsValid :
      (s : Engine) (now : Clock) (call : Call) → IsValid s → IsValid (step s now call)
  unfolding step check_and_mark mark_seen is_duplicate get_record prune_expired clear
  step-IsValid s now (check t a m ttl) v = ground (
    arith,
    put-Unique (compute_dedup_key sha256 t a m)
        (
          fresh_record sha256 now (effective_ttl s ttl) t a m,
          now.time + effective_ttl s ttl * second,
        )
        s.store,
  )
  step-IsValid s now (mark t a m ttl) v = put-Unique _ _ s.store v
  step-IsValid s now (query t a m) v =
      ground (arith, remove-Unique (compute_dedup_key sha256 t a m) s.store)
  step-IsValid s now (fetch t a m) v =
      ground (arith, remove-Unique (compute_dedup_key sha256 t a m) s.store)
  step-IsValid s now prune v = sweep-Unique _ s.store v
  step-IsValid s now (wipe none) v = tt
  step-IsValid s now (wipe (some t)) v = sweep-Unique _ s.store v

  module _ (key : Text) (tenant : Uuid) (deadline : ℕ) where
    -- One allowed call before the deadline leaves the guard in place.
    step-Guards :
        (s : Engine) (now : Clock) (call : Call)
        → IsValid s
        → now.time < deadline
        → Allowed key tenant deadline s.default_ttl_sec now call
        → Guards key tenant deadline s
        → Guards key tenant deadline (step s now call)
    unfolding step check_and_mark mark_seen is_duplicate get_record prune_expired clear fresh_record
    step-Guards s now (check t a m ttl) v early ok g =
        let k = compute_dedup_key sha256 t a m in
        let lasts = effective_ttl s ttl in
        let entry = fresh_record sha256 now lasts t a m in
        ground
          (arith, list_beq_iff k key, lookup-put k key (entry, now.time + lasts * second) s.store)
    step-Guards s now (mark t a m ttl) v early ok g =
        let k = compute_dedup_key sha256 t a m in
        let lasts = effective_ttl s ttl in
        let entry = fresh_record sha256 now lasts t a m in
        ground (
          arith,
          list_beq_iff k key,
          lookup-put k key (entry, now.time + lasts * second) s.store,
          ok,
        )
    step-Guards s now (query t a m) v early ok g =
        let k = compute_dedup_key sha256 t a m in
        ground (arith, list_beq_iff k key, lookup-remove k key s.store)
    step-Guards s now (fetch t a m) v early ok g =
        let k = compute_dedup_key sha256 t a m in
        ground (arith, list_beq_iff k key, lookup-remove k key s.store)
    step-Guards s now prune v early ok g =
        ground (arith, lookup-sweep (is_expired now.time) key s.store v)
    step-Guards s now (wipe none) v early ok g = absurd ok
    step-Guards s now (wipe (some t)) v early ok g =
        ground
          (arith, lookup-sweep (λ (entry : DedupRecord × ℕ). entry.0.tenant_id == t) key s.store v)

    abbrev pub AllowedBefore : ℕ → Clock × Call → Type 0
    AllowedBefore ttl (now, call) = (now.time < deadline) × Allowed key tenant deadline ttl now call

    run-Guards :
        (s : Engine) (calls : List (Clock × Call))
        → IsValid s
        → All (AllowedBefore s.default_ttl_sec) calls
        → Guards key tenant deadline s
        → Guards key tenant deadline (run s calls)
    unfolding run
    run-Guards s [] v ok g = g
    run-Guards s ((now, call) ∷ calls) v ok g =
        run-Guards (step s now call) calls (step-IsValid s now call v)
          (rw (default_ttl-step s now call) ok.1) (step-Guards s now call v ok.0.0 ok.0.1 g)

  check-Guards :
      (s : Engine) (now : Clock) (t a : Uuid) (m : Text) (ttl : Option ℕ)
      → (check_and_mark sha256 s now t a m ttl).1 ≡ true
      → Guards
          (compute_dedup_key sha256 t a m)
          t
          (end_of s now ttl)
          (check_and_mark sha256 s now t a m ttl).0
  unfolding check_and_mark fresh_record
  check-Guards s now t a m ttl new =
      let k = compute_dedup_key sha256 t a m in
      let lasts = effective_ttl s ttl in
      let entry = fresh_record sha256 now lasts t a m in
      ground (arith, eq_self k, lookup-put k k (entry, now.time + lasts * second) s.store)

  Guards-check :
      (s : Engine) (later : Clock) (t a : Uuid) (m : Text) (ttl : Option ℕ) (deadline : ℕ)
      → later.time < deadline
      → Guards (compute_dedup_key sha256 t a m) t deadline s
      → (check_and_mark sha256 s later t a m ttl).1 ≡ false
  unfolding check_and_mark
  Guards-check s later t a m ttl deadline early g = ground arith

  -- In an engine in which no key stands twice, a message that `check_and_mark` lets through is
  -- refused by every later `check_and_mark` before its time to live ends, after any calls of the
  -- engine in between, in any order, that come before that end and are allowed: no wipe of
  -- everything or of the message's tenant, and no explicit `mark_seen` of the same key that would
  -- end its window earlier or that is for another tenant.
  pub window-suppresses :
      (s : Engine) (now : Clock) (t a : Uuid) (m : Text) (ttl : Option ℕ)
      (calls : List (Clock × Call)) (later : Clock) (ttl' : Option ℕ)
      → IsValid s
      → (check_and_mark sha256 s now t a m ttl).1 ≡ true
      → All
          (AllowedBefore (compute_dedup_key sha256 t a m) t (end_of s now ttl) s.default_ttl_sec)
          calls
      → later.time < end_of s now ttl
      → (check_and_mark sha256
          (run (check_and_mark sha256 s now t a m ttl).0 calls)
          later
          t
          a
          m
          ttl').1
        ≡ false
  unfolding step
  window-suppresses s now t a m ttl calls later ttl' v new ok early =
      let key = compute_dedup_key sha256 t a m in
      let checked = check t a m ttl in
      let s' = step s now checked in
      Guards-check (run s' calls) later t a m ttl' (end_of s now ttl) early (
        run-Guards key t (end_of s now ttl) s' calls (step-IsValid s now checked v)
          (rw (default_ttl-step s now checked) ok) (check-Guards s now t a m ttl new))

  -- Checked twice in a row, a message that is let through is let through the second time exactly
  -- when the time to live of the first check has ended.
  pub recheck-eq :
      (s : Engine) (now later : Clock) (t a : Uuid) (m : Text) (ttl ttl' : Option ℕ)
      → (check_and_mark sha256 s now t a m ttl).1 ≡ true
      → (check_and_mark sha256 (check_and_mark sha256 s now t a m ttl).0 later t a m ttl').1
        ≡ leb (end_of s now ttl) later.time
  unfolding check_and_mark
  recheck-eq s now later t a m ttl ttl' new =
      let k = compute_dedup_key sha256 t a m in
      let lasts = effective_ttl s ttl in
      let entry = fresh_record sha256 now lasts t a m in
      ground (arith, eq_self k, lookup-put k k (entry, now.time + lasts * second) s.store)
