-- ===== src/Ingestion/Dedup/Accounts.antt =====
-- The engine's counters, and what pruning may change.
use email_analysis_agent.Prelude.{
  ℕ, ◌+◌, ◌≤◌, ◌≡◌, not, Option, List, [], ◌∷◌, arith, nat_eq, list_eq, if◌then◌else◌, length,
}
use email_analysis_agent.Dict.Sweep.{lookup-sweep, length-sweep}
use email_analysis_agent.Text.{Text}
use email_analysis_agent.Uuid.{Uuid}
use email_analysis_agent.Ingestion.Dedup.{
  Clock, Engine, compute_dedup_key, is_duplicate, check_and_mark, is_expired, prune_expired,
  get_stats, get_record,
}
use email_analysis_agent.Ingestion.Dedup.Window.{IsValid}

pub record Arrival : Type 0 where
  pub at : Clock
  pub tenant_id : Uuid
  pub account_id : Uuid
  pub message_id : Text
  pub ttl_sec : Option ℕ

module _ (sha256 : Text → Text) where
  -- Checks every arrival in order, and counts those that are let through.
  unfoldable pub check_all : Engine → List Arrival → Engine × ℕ
  check_all s [] = (s, 0)
  check_all s (x ∷ xs) =
      let (s', is_new) =
        check_and_mark sha256 s x.at x.tenant_id x.account_id x.message_id x.ttl_sec in
      let (s'', accepted) = check_all s' xs in (s'', if is_new then accepted + 1 else accepted)

  check-counts :
      (s : Engine) (x : Arrival)
      → let (s', is_new) =
          check_and_mark sha256 s x.at x.tenant_id x.account_id x.message_id x.ttl_sec in
        (s'.total_checked ≡ s.total_checked + 1)
        × (s'.total_duplicates ≡ (if is_new then s.total_duplicates else s.total_duplicates + 1))
  unfolding check_and_mark
  check-counts s x = ground arith

  -- Over any arrivals the counter of checks grows by one for each, and what is let through and what
  -- is counted as a duplicate add up to the arrivals.
  pub check_all-accounts :
      (s : Engine) (xs : List Arrival)
      → ((get_stats (check_all s xs).0).total_checked ≡ s.total_checked + length xs)
        × ((check_all s xs).1 + (get_stats (check_all s xs).0).total_duplicates_suppressed
            ≡ s.total_duplicates + length xs)
  unfolding check_all get_stats
  check_all-accounts s [] = ground arith
  check_all-accounts s (x ∷ xs) =
      let s' = (check_and_mark sha256 s x.at x.tenant_id x.account_id x.message_id x.ttl_sec).0 in
      ground (arith, check-counts s x, check_all-accounts s' xs)

  -- `check_and_mark` answers the negation of what `is_duplicate` answers at the same time.
  pub check-eq-not-is_duplicate :
      (s : Engine) (now : Clock) (t a : Uuid) (m : Text) (ttl : Option ℕ)
      → (check_and_mark sha256 s now t a m ttl).1 ≡ not (is_duplicate sha256 s now t a m).1
  unfolding check_and_mark is_duplicate
  check-eq-not-is_duplicate s now t a m ttl = ground arith

  -- Pruning a store in which no key stands twice reports as many records as it removes, and every
  -- `is_duplicate` and every `get_record` at that time or later answers as it would have without
  -- it.
  pub prune-unobservable :
      (s : Engine) (now later : Clock) (t a : Uuid) (m : Text)
      → IsValid s
      → now.time ≤ later.time
      → (length (prune_expired s now).0.store + (prune_expired s now).1 ≡ length s.store)
        × ((is_duplicate sha256 (prune_expired s now).0 later t a m).1
            ≡ (is_duplicate sha256 s later t a m).1)
        × ((get_record sha256 (prune_expired s now).0 later t a m).1
            ≡ (get_record sha256 s later t a m).1)
  unfolding prune_expired is_duplicate get_record
  prune-unobservable s now later t a m v h =
      let key = compute_dedup_key sha256 t a m in
      ground (
        arith,
        length-sweep (is_expired now.time) s.store v,
        lookup-sweep (is_expired now.time) key s.store v,
      )
