-- ===== src/Realtime/Client/Order.antt =====
-- The frames of a client are sent in the order in which they were queued.
use email_analysis_agent.Prelude.{
  ℕ, ◌≡◌, refl, sym, Bool, List, [], ◌∷◌, ◌++◌, if◌then◌else◌, arith,
}
use mathlib.Core.List.{Sublist, append_assoc, append-nil}
use mathlib.Core.List.Sublist
use email_analysis_agent.Text.{Text}
use email_analysis_agent.Realtime.Client.{
  Client, new, is_full, drop_oldest, put_nowait, enqueue_event, send_next, close,
}
use email_analysis_agent.Realtime.Client.Backpressure.{
  Event, queues, sends, closes, Trace, step, run, start,
}

put-Sublist :
    (sent queue accepted : List Text) (frame : Text)
    → Sublist (sent ++ queue) accepted
    → Sublist (sent ++ (queue ++ frame ∷ [])) (accepted ++ frame ∷ [])
put-Sublist sent queue accepted frame ordered =
    rw (sym (append_assoc sent queue (frame ∷ [])))
      (Sublist.append ordered (Sublist.refl (frame ∷ [])))

drop-Sublist :
    (sent rest accepted : List Text) (oldest : Text)
    → Sublist (sent ++ oldest ∷ rest) accepted
    → Sublist (sent ++ rest) accepted
drop-Sublist sent rest accepted oldest ordered =
    Sublist.trans (Sublist.append (Sublist.refl sent) (Sublist.cons oldest (Sublist.refl rest)))
      ordered

send-Sublist :
    (sent rest accepted : List Text) (oldest : Text)
    → Sublist (sent ++ oldest ∷ rest) accepted
    → Sublist ((sent ++ oldest ∷ []) ++ rest) accepted
send-Sublist sent rest accepted oldest ordered = rw (append_assoc sent (oldest ∷ []) rest) ordered

-- What has been sent, followed by what is in the queue, are some of the frames that were queued.
abbrev pub InOrder : Trace → Type 0
InOrder t = Sublist (t.sent ++ t.client.queue) t.accepted

queue-InOrder :
    (sent accepted : List Text) (c : Client) (frame : Text) (queue : List Text)
    → c.queue ≡ queue
    → Sublist (sent ++ queue) accepted
    → Sublist
        (sent ++ (enqueue_event c frame).0.queue)
        (if (enqueue_event c frame).1 then accepted ++ frame ∷ [] else accepted)
unfolding enqueue_event put_nowait drop_oldest is_full
queue-InOrder sent accepted c frame [] empty ordered =
    ground (arith, empty, put-Sublist sent [] accepted frame ordered)
queue-InOrder sent accepted c frame (oldest ∷ rest) first ordered = ground (
  arith,
  first,
  put-Sublist sent (oldest ∷ rest) accepted frame ordered,
  put-Sublist sent rest accepted frame (drop-Sublist sent rest accepted oldest ordered),
  drop-Sublist sent rest accepted oldest ordered,
)

sends-InOrder :
    (sent accepted : List Text) (c : Client) (ok : Bool) (now : ℕ) (queue : List Text)
    → c.queue ≡ queue
    → Sublist (sent ++ queue) accepted
    → Sublist ((sent ++ (send_next c ok now).1) ++ (send_next c ok now).0.queue) accepted
unfolding send_next
sends-InOrder sent accepted c ok now [] empty ordered =
    ground (arith, empty, ordered, append-nil sent)
sends-InOrder sent accepted c ok now (oldest ∷ rest) first ordered = ground (
  arith,
  first,
  append-nil sent,
  ordered,
  send-Sublist sent rest accepted oldest ordered,
  drop-Sublist sent rest accepted oldest ordered,
)

step-InOrder : (t : Trace) (e : Event) → InOrder t → InOrder (step t e)
unfolding step close
step-InOrder t (queues frame) ordered =
    queue-InOrder t.sent t.accepted t.client frame t.client.queue refl ordered
step-InOrder t (sends ok now) ordered =
    sends-InOrder t.sent t.accepted t.client ok now t.client.queue refl ordered
step-InOrder t closes ordered = ordered

run-InOrder_from : (t : Trace) (es : List Event) → InOrder t → InOrder (run t es)
unfolding run
run-InOrder_from t [] ordered = ordered
run-InOrder_from t (e ∷ es) ordered = run-InOrder_from (step t e) es (step-InOrder t e ordered)

-- Whatever happens to a new client, the frames that it has sent, followed by those in its queue, are
-- frames that were queued, each at most as often and in the same order.
pub run-InOrder :
    (connection tenant room now : ℕ) (es : List Event)
    → InOrder (run (start (new connection tenant room now)) es)
unfolding start new
run-InOrder connection tenant room now es =
    run-InOrder_from (start (new connection tenant room now)) es (Sublist.refl [])
