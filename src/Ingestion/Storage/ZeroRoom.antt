-- ===== src/Ingestion/Storage/ZeroRoom.antt =====
-- A store whose `max_items` is 0: its deque is always empty, and nothing bounds its dictionary.
use mathlib.Core.List.{append_assoc, append-nil}
use email_analysis_agent.Prelude.{◌≡◌, ap, sym, ◌∙◌, false, List, [], ◌∷◌, ◌++◌, arith, nat_eq}
use email_analysis_agent.Dict.{has}
use email_analysis_agent.Dict.Sweep.{Unique}
use email_analysis_agent.Ingestion.Models.{DeadLetterItem}
use email_analysis_agent.Ingestion.Storage.{Storage, new, save}
use email_analysis_agent.Ingestion.Storage.Ring.{Items, put_absent}
use email_analysis_agent.Ingestion.Storage.Eviction.{entries, save_all, has-append_head}

abbrev roomless : Items → Storage
roomless d = record { max_items = 0; queue = []; items = d }

save-roomless :
    (x : DeadLetterItem) (d : Items)
    → has x.dead_letter_id d ≡ false
    → save (roomless d) x ≡ roomless (d ++ (x.dead_letter_id, x) ∷ [])
unfolding save
save-roomless x d fresh = ground (arith, fresh, put_absent x.dead_letter_id x d fresh)

save_all-roomless :
    (seen : Items) (xs : List DeadLetterItem)
    → Unique (seen ++ entries xs)
    → save_all (roomless seen) xs ≡ roomless (seen ++ entries xs)
unfolding save_all entries
save_all-roomless seen [] whole = ap roomless (sym (append-nil seen))
save_all-roomless seen (x ∷ xs) whole =
    let regroup = append_assoc seen ((x.dead_letter_id, x) ∷ []) (entries xs) in
    ap (λ s. save_all s xs) (save-roomless x seen (has-append_head seen x (entries xs) whole))
    ∙ save_all-roomless (seen ++ (x.dead_letter_id, x) ∷ []) xs (rw regroup whole)
    ∙ ap roomless regroup

-- Items with distinct identifiers, saved one after another in a new store with `max_items` 0, are
-- all kept in the dictionary, and none of them is in the deque.
pub save_all-unbounded :
    (xs : List DeadLetterItem)
    → Unique (entries xs)
    → ((save_all (new 0) xs).items ≡ entries xs) × ((save_all (new 0) xs).queue ≡ [])
unfolding new
save_all-unbounded xs u =
    let whole = save_all-roomless [] xs u in (ap (λ s. s.items) whole, ap (λ s. s.queue) whole)
