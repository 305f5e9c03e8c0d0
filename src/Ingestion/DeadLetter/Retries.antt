-- ===== src/Ingestion/DeadLetter/Retries.antt =====
-- Requeueing is bounded, and the counters account for what the queue holds.
use email_analysis_agent.Prelude.{
  ℕ, ◌+◌, ◌-◌, ◌≡◌, min, true, false, none, some, List, [], ◌∷◌, leb, nat_eq, Bool-cases, inl, inr,
  length, arith,
}
use email_analysis_agent.Uuid.{Uuid}
use email_analysis_agent.Ingestion.Models.{DeadLetterItem}
use email_analysis_agent.Ingestion.Storage.Ring.{get-save_found}
use email_analysis_agent.Ingestion.DeadLetter.{DeadLetterQueue, get, requeue}

-- Requeues the same item once for each clock reading, and counts the calls that return an item.
pub requeue_all : DeadLetterQueue → Uuid → List ℕ → DeadLetterQueue × ℕ
requeue_all q id [] = (q, 0)
requeue_all q id (now ∷ later) =
    let (q', answer) = requeue q id now in
    let (q'', requeued) = requeue_all q' id later in
    (q'', elim answer [ none ↦ requeued | some _ ↦ requeued + 1 ])

module _ (q : DeadLetterQueue) (id now : ℕ) (item : DeadLetterItem)
    (found : get q id ≡ some item) where
  requeue_spent : leb item.max_retries item.retry_count ≡ true → requeue q id now ≡ (q, none)
  unfolding get requeue
  requeue_spent spent = ground arith

  requeue_left :
      item.dead_letter_id ≡ id
      → leb item.max_retries item.retry_count ≡ false
      → let updated = record item { timestamp = now; retry_count = item.retry_count + 1 } in
        ((requeue q id now).1 ≡ some updated)
        × (get (requeue q id now).0 id ≡ some updated)
        × ((requeue q id now).0.total_requeued ≡ q.total_requeued + 1)
  unfolding get requeue
  requeue_left own left =
      let updated = record item { timestamp = now; retry_count = item.retry_count + 1 } in
      ground (arith, get-save_found q.storage item updated)

-- For an item that is found under its own identifier: of any number of attempts to requeue it, as
-- many return it as there are attempts, but no more than the retries that it has left, and the
-- counter of requeued items grows by that number.
pub requeue_all-bounded :
    (q : DeadLetterQueue) (id : Uuid) (times : List ℕ) (item : DeadLetterItem)
    → get q id ≡ some item
    → item.dead_letter_id ≡ id
    → ((requeue_all q id times).1 ≡ min (length times) (item.max_retries - item.retry_count))
      × ((requeue_all q id times).0.total_requeued ≡ q.total_requeued + (requeue_all q id times).1)
unfolding requeue_all
requeue_all-bounded q id [] item found own = omega arith
requeue_all-bounded q id (now ∷ later) item found own =
    elim (Bool-cases (leb item.max_retries item.retry_count)) [
      | inl spent ↦ ground (
        arith,
        requeue_spent q id now item found spent,
        requeue_all-bounded q id later item found own,
      )
      | inr left ↦
          let updated : DeadLetterItem = record item {
            timestamp = now;
            retry_count = item.retry_count + 1;
          } in
          let (answer, kept, counted) = requeue_left q id now item found own left in
          ground (
            arith,
            answer,
            counted,
            requeue_all-bounded (requeue q id now).0 id later updated kept own,
          )
    ]
