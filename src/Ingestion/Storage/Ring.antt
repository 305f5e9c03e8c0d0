-- ===== src/Ingestion/Storage/Ring.antt =====
-- The store is a bounded queue: the deque and the dictionary hold the same identifiers in the same
-- order, never more than `max_items`, and the oldest leaves first.
use email_analysis_agent.Prelude.{
  ℕ, suc, ◌≤◌, ◌<◌, ◌≡◌, refl, ap, true, false, some, List, [], ◌∷◌, ◌++◌, ltb, if◌then◌else◌, ◌==◌,
  nat_eq, length, arith,
}
use email_analysis_agent.Dict.{Dict, has, put, remove, lookup-put, length-put, has-eq-true}
use email_analysis_agent.Dict.Sweep.{Unique, put-Unique, has-put, remove_absent}
use email_analysis_agent.Uuid.{Uuid}
use email_analysis_agent.Ingestion.Models.{DeadLetterItem}
use email_analysis_agent.Ingestion.Storage.{Storage, new, discard, save, get}

abbrev pub Items : Type 0
Items = Dict Uuid DeadLetterItem

abbrev pub keys : Items → List Uuid
keys [] = []
keys ((k, v) ∷ d) = k ∷ keys d

pub record IsValid (s : Storage) : Type 0 where
  pub unique : Unique s.items
  pub aligned : s.queue ≡ keys s.items
  pub bounded : length s.items ≤ s.max_items

pub new-IsValid : (max_items : ℕ) → IsValid (new max_items)
unfolding new
new-IsValid max_items = ground arith

length-keys : (d : Items) → length (keys d) ≡ length d
length-keys [] = refl
length-keys ((k, v) ∷ d) = ap suc (length-keys d)

keys-put :
    (k : Uuid) (v : DeadLetterItem) (d : Items)
    → keys (put k v d) ≡ (if has k d then keys d else keys d ++ k ∷ [])
unfolding put has
keys-put k v [] = refl
keys-put k v ((j, w) ∷ d) = ground (arith, keys-put k v d)

pub put_absent :
    (k : Uuid) (v : DeadLetterItem) (d : Items) → has k d ≡ false → put k v d ≡ d ++ (k, v) ∷ []
unfolding put has
put_absent k v [] h = refl
put_absent k v ((j, w) ∷ d) h = ground (arith, put_absent k v d)

pub keys-remove : (k : Uuid) (d : Items) → Unique d → keys (remove k d) ≡ discard k (keys d)
unfolding remove discard
keys-remove k [] u = refl
keys-remove k ((j, w) ∷ d) u = ground (arith, keys-remove k d, remove_absent k d)

-- The specification: a new item goes to the end, and pushes the first one out of a full store; an
-- item that is there is replaced in its place.
unfoldable pub enqueue : ℕ → DeadLetterItem → Items → Items
enqueue max_items item [] = (item.dead_letter_id, item) ∷ []
enqueue max_items item ((k, v) ∷ d) =
    if has item.dead_letter_id ((k, v) ∷ d)
    then put item.dead_letter_id item ((k, v) ∷ d)
    else if ltb (length ((k, v) ∷ d)) max_items
    then (k, v) ∷ (d ++ (item.dead_letter_id, item) ∷ [])
    else d ++ (item.dead_letter_id, item) ∷ []

-- The store that holds `items`.
abbrev pub ring : ℕ → Items → Storage
ring max_items items = record { max_items = max_items; queue = keys items; items = items }

pub eq-ring : (s : Storage) → IsValid s → s ≡ ring s.max_items s.items
eq-ring s v = ap (λ q. record s { queue = q }) v.aligned

keys-append : (c d : Items) → keys (c ++ d) ≡ keys c ++ keys d
keys-append [] d = refl
keys-append ((k, v) ∷ c) d = ap (◌∷◌ k) (keys-append c d)

keys-enqueue_absent :
    (k : Uuid) (item : DeadLetterItem) (d : Items) → keys (d ++ (k, item) ∷ []) ≡ keys d ++ k ∷ []
keys-enqueue_absent k item d = keys-append d ((k, item) ∷ [])

-- On a store that holds `items`, with no identifier twice, no more than `max_items` of them and
-- `max_items` at least 1, `save` is the bounded queue of the specification.
pub save-ring :
    (max_items : ℕ) (item : DeadLetterItem) (items : Items)
    → Unique items
    → length items ≤ max_items
    → 0 < max_items
    → save (ring max_items items) item ≡ ring max_items (enqueue max_items item items)
unfolding save enqueue has put remove
save-ring m item [] u fits room = ground arith
save-ring m item ((k, w) ∷ d) u fits room =
    let id = item.dead_letter_id in
    ground (
      arith,
      length-keys d,
      keys-put id item d,
      put_absent id item d,
      remove_absent k d,
      keys-enqueue_absent id item d,
    )

pub enqueue-facts :
    (max_items : ℕ) (item : DeadLetterItem) (items : Items)
    → Unique items
    → length items ≤ max_items
    → 0 < max_items
    → Unique (enqueue max_items item items) × (length (enqueue max_items item items) ≤ max_items)
unfolding enqueue has put
enqueue-facts m item [] u fits room = ground arith
enqueue-facts m item ((k, w) ∷ d) u fits room =
    let id = item.dead_letter_id in
    ground (
      arith,
      put_absent id item d,
      put-Unique id item d,
      put-Unique id item ((k, w) ∷ d),
      length-put id item d,
      has-put id k item d,
    )

-- With `max_items` at least 1, saving keeps a well formed store well formed: no identifier twice,
-- the deque in step with the dictionary, and no more than `max_items` items.
pub save-IsValid :
    (s : Storage) (item : DeadLetterItem) → IsValid s → 0 < s.max_items → IsValid (save s item)
save-IsValid s item v room =
    let (unique, bounded) = enqueue-facts s.max_items item s.items v.unique v.bounded room in
    rw (eq-ring s v) (
      rw (save-ring s.max_items item s.items v.unique v.bounded room)
        (record { unique = unique; aligned = refl; bounded = bounded }))

-- Saving an item whose identifier is there replaces that item, and changes no other.
pub get-save_held :
    (s : Storage) (item : DeadLetterItem) (id : Uuid)
    → has item.dead_letter_id s.items ≡ true
    → get (save s item) id ≡ (if item.dead_letter_id == id then some item else get s id)
unfolding get save
get-save_held s item id held = ground (arith, lookup-put item.dead_letter_id id item s.items)

-- Saving again under the identifier of an item that is found replaces it.
pub get-save_found :
    (s : Storage) (old item : DeadLetterItem)
    → get s item.dead_letter_id ≡ some old
    → get (save s item) item.dead_letter_id ≡ some item
unfolding get
get-save_found s old item found =
    let id = item.dead_letter_id in
    ground (arith, get-save_held s item id, has-eq-true id old s.items)
