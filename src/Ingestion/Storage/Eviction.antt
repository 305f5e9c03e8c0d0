-- ===== src/Ingestion/Storage/Eviction.antt =====
-- What a full store forgets: saved one after another, new items leave the last `max_items` of them.
use mathlib.Core.List.{append_assoc, append-nil}
use email_analysis_agent.Prelude.{
  ℕ, zero, suc, ◌-◌, ◌≤◌, ◌<◌, ◌≡◌, refl, ap, sym, ◌∙◌, true, false, List, [], ◌∷◌, ◌++◌,
  if◌then◌else◌, nat_eq, length, length-append, drop, arith, ltb, Bool-cases, inl, inr,
}
use email_analysis_agent.Dict.{has}
use email_analysis_agent.Dict.Sweep.{Unique}
use email_analysis_agent.Uuid.{Uuid}
use email_analysis_agent.Ingestion.Models.{DeadLetterItem}
use email_analysis_agent.Ingestion.Storage.{Storage, new, save}
use email_analysis_agent.Ingestion.Storage.Ring.{Items, ring, enqueue, save-ring, enqueue-facts}

unfoldable pub entries : List DeadLetterItem → Items
entries [] = []
entries (x ∷ xs) = (x.dead_letter_id, x) ∷ entries xs

unfoldable pub save_all : Storage → List DeadLetterItem → Storage
save_all s [] = s
save_all s (x ∷ xs) = save_all (save s x) xs

-- The last `n` entries.
abbrev pub last : ℕ → Items → Items
last n d = drop (length d - n) d

drop-append : (n : ℕ) (d c : Items) → n ≤ length d → drop n (d ++ c) ≡ drop n d ++ c
drop-append zero d c h = refl
drop-append (suc n) [] c h = absurd (omega arith)
drop-append (suc n) (x ∷ d) c h = drop-append n d c (omega arith)

drop-nil : (n : ℕ) → let nothing : Items = [] in drop n nothing ≡ []
drop-nil zero = refl
drop-nil (suc n) = refl

length-drop : (n : ℕ) (d : Items) → length (drop n d) ≡ length d - n
length-drop zero d = omega arith
length-drop (suc n) [] = omega arith
length-drop (suc n) (x ∷ d) = omega (arith, length-drop n d)

drop-drop : (n : ℕ) (d : Items) → drop (suc n) d ≡ drop 1 (drop n d)
drop-drop zero d = refl
drop-drop (suc n) [] = refl
drop-drop (suc n) (x ∷ d) = drop-drop n d

has-drop : (id : Uuid) (n : ℕ) (d : Items) → has id d ≡ false → has id (drop n d) ≡ false
unfolding has
has-drop id zero d h = h
has-drop id (suc n) [] h = refl
has-drop id (suc n) ((k, v) ∷ d) h = has-drop id n d (ground arith)

enqueue_new :
    (m : ℕ) (x : DeadLetterItem) (d : Items)
    → has x.dead_letter_id d ≡ false
    → length d ≤ m
    → 0 < m
    → enqueue m x d ≡ (
        if ltb (length d) m
        then d ++ (x.dead_letter_id, x) ∷ []
        else drop 1 d ++ (x.dead_letter_id, x) ∷ [])
unfolding enqueue
enqueue_new m x [] fresh fits room = ground arith
enqueue_new m x ((k, v) ∷ d) fresh fits room = ground arith

enqueue-last :
    (m : ℕ) (x : DeadLetterItem) (d : Items)
    → has x.dead_letter_id d ≡ false
    → 0 < m
    → enqueue m x (last m d) ≡ last m (d ++ (x.dead_letter_id, x) ∷ [])
enqueue-last m x d fresh room =
    let new_entry : Items = (x.dead_letter_id, x) ∷ [] in
    let n = length d - m in
    let longer = length-append {0} d new_entry in
    rw
      (enqueue_new m x (last m d) (has-drop x.dead_letter_id n d fresh)
        (omega (arith, length-drop n d)) room)
      (elim (Bool-cases (ltb (length (last m d)) m)) [
        | inl roomy ↦
            let short : length d < m = ground (arith, length-drop n d, roomy) in
            let none_gone : n ≡ 0 = omega arith in
            let still_none : length (d ++ new_entry) - m ≡ 0 = omega (arith, longer) in
            rw (roomy, none_gone, still_none)
        | inr full ↦
            let long : m ≤ length d = ground (arith, length-drop n d, full) in
            let one_more : length (d ++ new_entry) - m ≡ suc n = omega (arith, longer) in
            rw (full, one_more)
              (ap (λ c. c ++ new_entry) (sym (drop-drop n d))
                ∙ sym (drop-append (suc n) d new_entry (omega arith)))
      ])

pub has-append_head :
    (d : Items) (x : DeadLetterItem) (rest : Items)
    → Unique (d ++ (x.dead_letter_id, x) ∷ rest)
    → has x.dead_letter_id d ≡ false
unfolding has
has-append_head [] x rest u = refl
has-append_head ((k, v) ∷ d) x rest u = ground (arith, has-append_head d x rest u.1, has-middle d)
  where
    has-middle : (c : Items) → has x.dead_letter_id (c ++ (x.dead_letter_id, x) ∷ rest) ≡ true
    has-middle [] = ground arith
    has-middle ((j, w) ∷ c) = ground (arith, has-middle c)

save_all-from :
    (m : ℕ) (seen : Items) (xs : List DeadLetterItem)
    → 0 < m
    → Unique (last m seen)
    → Unique (seen ++ entries xs)
    → (save_all (ring m (last m seen)) xs).items ≡ last m (seen ++ entries xs)
unfolding save_all entries
save_all-from m seen [] room u whole = ap (last m) (sym (append-nil seen))
save_all-from m seen (x ∷ xs) room u whole =
    let fresh = has-append_head seen x (entries xs) whole in
    let fits : length (last m seen) ≤ m = omega (arith, length-drop (length seen - m) seen) in
    let grown = enqueue-last m x seen fresh room in
    let (unique, _) = enqueue-facts m x (last m seen) u fits room in
    let regroup = append_assoc seen ((x.dead_letter_id, x) ∷ []) (entries xs) in
    ap (λ s. (save_all s xs).items) (save-ring m x (last m seen) u fits room ∙ ap (ring m) grown)
    ∙ (save_all-from m (seen ++ (x.dead_letter_id, x) ∷ []) xs room (rw grown at unique)
          (rw regroup whole)
        ∙ ap (last m) regroup)

-- Items with distinct identifiers, saved one after another in a new store with room for at least
-- one, leave exactly the last `max_items` of them, in the order in which they were saved.
pub save_all-last :
    (max_items : ℕ) (xs : List DeadLetterItem)
    → 0 < max_items
    → Unique (entries xs)
    → (save_all (new max_items) xs).items ≡ last max_items (entries xs)
unfolding new
save_all-last max_items xs room u =
    let nothing : Items = [] in
    let empty = drop-nil (0 - max_items) in
    ap (λ d. (save_all (ring max_items d) xs).items) (sym empty)
    ∙ save_all-from max_items nothing xs room (rw empty tt) u
