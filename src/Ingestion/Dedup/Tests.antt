-- ===== src/Ingestion/Dedup/Tests.antt =====
-- Runs of the deduplication engine, and the theorems at inputs that meet their conditions. The
-- identity stands for the hash here: it has no collisions.
use email_analysis_agent.Prelude.{ℕ, ◌*◌, ◌≡◌, refl, true, false, none, some, List, [], ◌∷◌, arith}
use email_analysis_agent.Text.{Text, codes, strip}
use email_analysis_agent.Dict.{lookup, put}
use email_analysis_agent.Uuid
use email_analysis_agent.Ingestion.Dedup.{
  second, Clock, Engine, is_duplicate, check_and_mark, compute_dedup_key,
}
use email_analysis_agent.Ingestion.Dedup.Window.{
  Call, check, mark, query, prune, wipe, run, window-suppresses,
}
use email_analysis_agent.Ingestion.Dedup.Accounts.{Arrival, check_all}
use email_analysis_agent.Ingestion.Dedup.Isolation.{compute_dedup_key-injective, check-other}

abbrev hash : Text → Text
hash x = x

abbrev at : ℕ → Clock
at n = record { time = n * second; utc = n * second }

abbrev message : Text
message = codes " <id-1@mail> "

abbrev other : Text
other = codes "<id-2@mail>"

abbrev engine : Engine
engine = record { default_ttl_sec = 60; store = []; total_checked = 0; total_duplicates = 0 }

-- The same identifier with other white space is the same message.
strips : compute_dedup_key hash 1 2 message ≡ compute_dedup_key hash 1 2 (codes "<id-1@mail>")
unfolding compute_dedup_key strip
strips = refl

let_through : (check_and_mark hash engine (at 0) 1 2 message none).1 ≡ true
unfolding check_and_mark lookup
let_through = refl

abbrev calls : List (Clock × Call)
calls =
    (at 1, check 1 2 message none)
    ∷ (at 2, check 1 2 other (some 5))
    ∷ (at 3, query 1 2 message)
    ∷ (at 30, mark 1 2 message (some 60))
    ∷ (at 40, prune)
    ∷ (at 50, wipe (some 9))
    ∷ []

window-suppresses_example :
    (check_and_mark hash
      (run hash (check_and_mark hash engine (at 0) 1 2 message none).0 calls)
      (at 59)
      1
      2
      message
      none).1
    ≡ false
window-suppresses_example =
    window-suppresses hash engine (at 0) 1 2 message none calls (at 59) none tt let_through
      (
        (omega arith, tt),
        (
          (omega arith, tt),
          (
            (omega arith, tt),
            (
              (omega arith, λ same. (omega arith, refl)),
              ((omega arith, tt), ((omega arith, omega arith), tt)),
            ),
          ),
        ),
      )
      (omega arith)

abbrev arrivals : List Arrival
arrivals =
    record { at = at 0; tenant_id = 1; account_id = 2; message_id = message; ttl_sec = none }
    ∷ record { at = at 1; tenant_id = 1; account_id = 2; message_id = message; ttl_sec = none }
    ∷ []

one_accepted : (check_all hash engine arrivals).1 ≡ 1
unfolding check_all check_and_mark lookup put compute_dedup_key Uuid.text strip
one_accepted = refl

abbrev one_entry : Engine
one_entry = record engine {
  store =
      (
        codes "k",
        (
          record {
            dedup_key = codes "k";
            tenant_id = 1;
            account_id = 2;
            provider_message_id = other;
            ingested_at = 0;
            expires_at = 5;
          },
          5,
        ),
      )
      ∷ [];
}

compute_dedup_key-injective_example :
    ◌≡◌ {A = ℕ} 1 1 × ◌≡◌ {A = ℕ} 2 2 × (strip message ≡ strip (codes "<id-1@mail>"))
compute_dedup_key-injective_example =
    compute_dedup_key-injective hash (λ x y same. same) 1 1 2 2 message (codes "<id-1@mail>")
      (omega arith) (omega arith) (omega arith) (omega arith) strips

check-other_example :
    (is_duplicate hash (check_and_mark hash engine (at 0) 1 2 message none).0 (at 1) 3 2 message).1
    ≡ (is_duplicate hash engine (at 1) 3 2 message).1
check-other_example =
    check-other hash (λ x y same. same) engine (at 0) (at 1) 1 3 2 2 message message none
      (omega arith) (omega arith) (omega arith) (omega arith) (λ same. absurd (omega arith))
