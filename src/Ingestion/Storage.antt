-- ===== src/Ingestion/Storage.antt =====
-- The bounded in-memory store of dead letters, src/ingestion_gateway/persistence/in_memory.py: a
-- `deque` of identifiers with `maxlen`, and a `dict` of items.
pub mod Ring
pub mod Removal
pub mod Eviction
pub mod ZeroRoom
mod Tests
use email_analysis_agent.Prelude.{
  ℕ, zero, suc, ◌+◌, Bool, true, false, not, ◌&&◌, Option, none, some, List, [], ◌∷◌, ◌++◌, map,
  ltb, if◌then◌else◌, ◌==◌, Eq, nat_eq, length, take, keep_if,
}
use email_analysis_agent.Dict.{Dict, lookup, has, put, remove}
use email_analysis_agent.Dict.Sweep.{keys_where, sweep}
use email_analysis_agent.Uuid.{Uuid}
use email_analysis_agent.Ingestion.Models.{DeadLetterItem}

pub record Storage : Type 0 where
  pub max_items : ℕ
  pub queue : List Uuid
  pub items : Dict Uuid DeadLetterItem

pub new : ℕ → Storage
new max_items = record { max_items = max_items; queue = []; items = [] }

-- `deque.append` under `maxlen`: a full deque loses its first element.
pub append : ℕ → List Uuid → Uuid → List Uuid
append maxlen [] x = if ltb 0 maxlen then x ∷ [] else []
append maxlen (y ∷ ys) x = if ltb (length (y ∷ ys)) maxlen then y ∷ (ys ++ x ∷ []) else ys ++ x ∷ []

-- `deque.remove`, with its `ValueError` caught: the first occurrence, if there is one.
pub discard : Uuid → List Uuid → List Uuid
discard x [] = []
discard x (y ∷ ys) = if y == x then ys else y ∷ discard x ys

-- The first `if` of `save`: a new item in a full store deletes the oldest item.
pub evict : Storage → Uuid → Dict Uuid DeadLetterItem
evict s new_id =
    if not (has new_id s.items) && (length s.queue == s.max_items)
    then elim s.queue [ [] ↦ s.items | oldest ∷ _ ↦ remove oldest s.items ]
    else s.items

pub save : Storage → DeadLetterItem → Storage
unfolding append evict
save s item =
    let items = evict s item.dead_letter_id in
    record s {
      queue =
          if has item.dead_letter_id items
          then s.queue
          else append s.max_items s.queue item.dead_letter_id;
      items = put item.dead_letter_id item items;
    }

unfoldable pub get : Storage → Uuid → Option DeadLetterItem
get s id = lookup id s.items

pub values : Dict Uuid DeadLetterItem → List DeadLetterItem
values = map (λ entry. entry.1)

pub list_items : Storage → Option Uuid → ℕ → List DeadLetterItem
unfolding values
list_items s none limit = take limit (values s.items)
list_items s (some tenant) limit =
    take limit (keep_if (λ item. item.tenant_id == tenant) (values s.items))

pub delete : Storage → Uuid → Storage × Bool
unfolding discard
delete s id =
    if has id s.items
    then (record s { queue = discard id s.queue; items = remove id s.items }, true)
    else (s, false)

pub discard_all : List Uuid → List Uuid → List Uuid
unfolding discard
discard_all [] queue = queue
discard_all (x ∷ xs) queue = discard_all xs (discard x queue)

pub clear_tenant : Storage → Uuid → Storage × ℕ
unfolding discard_all
clear_tenant s tenant =
    let owned = λ (item : DeadLetterItem). item.tenant_id == tenant in
    let target_ids = keys_where owned s.items in
    (
      record s { queue = discard_all target_ids s.queue; items = sweep owned s.items },
      length target_ids,
    )

pub count : Storage → Option Uuid → ℕ
unfolding values
count s none = length s.items
count s (some tenant) = length (keep_if (λ item. item.tenant_id == tenant) (values s.items))
