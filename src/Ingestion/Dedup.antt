-- ===== src/Ingestion/Dedup.antt =====
-- The deduplication engine of src/ingestion_gateway/dedup.py: each method takes the engine and returns
-- it beside the result. Clock readings are arguments, in microseconds; `hashlib.sha256` is the
-- parameter `sha256`.
pub mod Window
pub mod Accounts
pub mod Isolation
mod Tests
use email_analysis_agent.Prelude.{
  ℕ, ◌+◌, ◌*◌, ◌≡◌, Bool, true, false, not, Option, none, some, List, [], ◌∷◌, ◌++◌, ltb, leb,
  if◌then◌else◌, ◌==◌, Eq, nat_eq, list_eq, length,
}
use email_analysis_agent.Dict.{Dict, lookup, put, remove}
use email_analysis_agent.Dict.Sweep.{Unique, sweep, keys_where}
use email_analysis_agent.Text.{Text, strip}
use email_analysis_agent.Uuid
use email_analysis_agent.Uuid.{Uuid}

-- Ticks of the clocks in one second.
abbrev pub second : ℕ
second = 1000000

-- What `time.time()` and `datetime.now(UTC)` return in one call of a method.
pub record Clock : Type 0 where
  pub time : ℕ
  pub utc : ℕ

pub record DedupRecord : Type 0 where
  pub dedup_key : Text
  pub tenant_id : Uuid
  pub account_id : Uuid
  pub provider_message_id : Text
  pub ingested_at : ℕ
  pub expires_at : ℕ

pub record Engine : Type 0 where
  pub default_ttl_sec : ℕ
  pub store : Dict Text (DedupRecord × ℕ)
  pub total_checked : ℕ
  pub total_duplicates : ℕ

pub record Stats : Type 0 where
  pub active_records_count : ℕ
  pub total_checked : ℕ
  pub total_duplicates_suppressed : ℕ
  pub default_ttl_sec : ℕ

pub new : ℕ → Engine
new ttl = record { default_ttl_sec = ttl; store = []; total_checked = 0; total_duplicates = 0 }

-- `ttl_sec if ttl_sec is not None else self.default_ttl_sec`
abbrev pub effective_ttl : Engine → Option ℕ → ℕ
effective_ttl s none = s.default_ttl_sec
effective_ttl s (some ttl) = ttl

-- The text that is hashed: `f"{tenant_id}:{account_id}:{provider_message_id.strip()}"`.
pub raw_seed : Uuid → Uuid → Text → Text
raw_seed tenant account message = Uuid.text tenant ++ 58 ∷ (Uuid.text account ++ 58 ∷ strip message)

module _ (sha256 : Text → Text) where
  unfoldable pub compute_dedup_key : Uuid → Uuid → Text → Text
  unfolding raw_seed
  compute_dedup_key tenant account message = sha256 (raw_seed tenant account message)

  pub fresh_record : Clock → ℕ → Uuid → Uuid → Text → DedupRecord
  fresh_record now ttl tenant account message = record {
    dedup_key = compute_dedup_key tenant account message;
    tenant_id = tenant;
    account_id = account;
    provider_message_id = strip message;
    ingested_at = now.utc;
    expires_at = now.utc + ttl * second;
  }

  pub is_duplicate : Engine → Clock → Uuid → Uuid → Text → Engine × Bool
  is_duplicate s now tenant account message =
      let key = compute_dedup_key tenant account message in
      elim (lookup key s.store) [
        | none ↦ (s, false)
        | some (_, expiry) ↦
            if ltb now.time expiry
            then (s, true)
            else (record s { store = remove key s.store }, false)
      ]

  pub mark_seen : Engine → Clock → Uuid → Uuid → Text → Option ℕ → Engine × Bool
  unfolding fresh_record
  mark_seen s now tenant account message ttl_sec =
      let key = compute_dedup_key tenant account message in
      let ttl = effective_ttl s ttl_sec in
      let entry = fresh_record now ttl tenant account message in
      (record s { store = put key (entry, now.time + ttl * second) s.store }, true)

  pub check_and_mark : Engine → Clock → Uuid → Uuid → Text → Option ℕ → Engine × Bool
  unfolding mark_seen
  check_and_mark s now tenant account message ttl_sec =
      let key = compute_dedup_key tenant account message in
      let ttl = effective_ttl s ttl_sec in
      let counted = record s { total_checked = s.total_checked + 1 } in
      let entry = fresh_record now ttl tenant account message in
      let marked = record counted { store = put key (entry, now.time + ttl * second) s.store } in
      elim (lookup key s.store) [
        | none ↦ (marked, true)
        | some (_, existing_expiry) ↦
            if ltb now.time existing_expiry
            then (record counted { total_duplicates = s.total_duplicates + 1 }, false)
            else (marked, true)
      ]

  pub get_record : Engine → Clock → Uuid → Uuid → Text → Engine × Option DedupRecord
  get_record s now tenant account message =
      let key = compute_dedup_key tenant account message in
      elim (lookup key s.store) [
        | none ↦ (s, none)
        | some (entry, expiry) ↦
            if ltb now.time expiry
            then (s, some entry)
            else (record s { store = remove key s.store }, none)
      ]

abbrev pub is_expired : ℕ → DedupRecord × ℕ → Bool
is_expired now entry = leb entry.1 now

pub prune_expired : Engine → Clock → Engine × ℕ
prune_expired s now = (
  record s { store = sweep (is_expired now.time) s.store },
  length (keys_where (is_expired now.time) s.store),
)

pub clear : Engine → Option Uuid → Engine
clear s none = record s { store = [] }
clear s (some tenant) = record s { store = sweep (λ entry. entry.0.tenant_id == tenant) s.store }

pub get_stats : Engine → Stats
get_stats s = record {
  active_records_count = length s.store;
  total_checked = s.total_checked;
  total_duplicates_suppressed = s.total_duplicates;
  default_ttl_sec = s.default_ttl_sec;
}
