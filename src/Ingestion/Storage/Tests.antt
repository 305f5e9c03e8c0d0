-- ===== src/Ingestion/Storage/Tests.antt =====
-- The theorems on the store of dead letters at inputs that meet their conditions.
use email_analysis_agent.Prelude.{ℕ, ◌≡◌, refl, none, some, List, [], ◌∷◌, arith, nat_eq}
use email_analysis_agent.Dict.{has, lookup}
use email_analysis_agent.Dict.Sweep.{Unique}
use email_analysis_agent.Ingestion.Models.{imap, DeadLetterItem}
use email_analysis_agent.Ingestion.Storage.{get}
use email_analysis_agent.Ingestion.Storage.Ring.{Items, ring, IsValid}
use email_analysis_agent.Ingestion.Storage.Eviction.{entries}

abbrev letter : ℕ → DeadLetterItem
letter id = record {
  dead_letter_id = id;
  tenant_id = 1;
  account_id = 2;
  provider = imap;
  reason = "PARSE_ERROR";
  provider_message_id = none;
  raw_payload = none;
  error_message = "bad header";
  error_traceback = none;
  correlation_id = 4;
  timestamp = 0;
  retry_count = 0;
  max_retries = 3;
}

abbrev two : Items
two = (10, letter 10) ∷ (11, letter 11) ∷ []

two-Unique : Unique two
unfolding has
two-Unique = (refl, (refl, tt))

full : IsValid (ring 2 two)
full = record { unique = two-Unique; aligned = refl; bounded = omega arith }

found : get (ring 2 two) 11 ≡ some (letter 11)
unfolding get lookup
found = refl

abbrev three : List DeadLetterItem
three = letter 10 ∷ letter 11 ∷ letter 12 ∷ []

three-Unique : Unique (entries three)
unfolding entries has
three-Unique = (refl, (refl, (refl, tt)))
