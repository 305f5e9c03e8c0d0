-- ===== src/Realtime/Client/Backpressure.antt =====
-- The queue of a client is bounded, keeps the newest frames in order, and accounts for every frame.
use email_analysis_agent.Prelude.{
  ℕ, ◌+◌, ◌≤◌, ◌<◌, ◌≡◌, Bool, true, not, ◌&&◌, List, [], ◌∷◌, ◌++◌, leb, if◌then◌else◌, length,
  length-append, arith,
}
use email_analysis_agent.Text.{Text}
use email_analysis_agent.Realtime.Client.{
  Client, new, is_full, drop_oldest, put_nowait, enqueue_event, send_next, close,
}

-- What can happen to a client: a frame is queued, the sender has its turn, or the client is closed.
pub data Event : Type 0 where
  queues : Text → Event
  sends : Bool → ℕ → Event
  closes : Event

-- The client, the frames that it has sent, the frames that were queued, and the number of frames that
-- were taken from the queue and not sent.
pub record Trace : Type 0 where
  pub client : Client
  pub sent : List Text
  pub accepted : List Text
  pub lost : ℕ

-- Whether a turn of the sender takes a frame.
pub takes : Client → Bool
takes c = c.is_active && leb 1 (length c.queue)

unfoldable pub step : Trace → Event → Trace
unfolding takes
step t (queues frame) =
    let (c, taken) = enqueue_event t.client frame in
    record t { client = c; accepted = if taken then t.accepted ++ frame ∷ [] else t.accepted }
step t (sends ok now) =
    let (c, frames) = send_next t.client ok now in
    record t {
      client = c;
      sent = t.sent ++ frames;
      lost = if takes t.client && not ok then t.lost + 1 else t.lost;
    }
step t closes = record t { client = close t.client }

unfoldable pub run : Trace → List Event → Trace
unfolding step
run t [] = t
run t (e ∷ es) = run (step t e) es

-- The queue is within its size, and every frame that was queued has been sent, was dropped, was lost
-- or is still in the queue. The client that has lost a frame is not active, and has lost one only.
pub record IsValid (t : Trace) : Type 0 where
  pub room : 0 < t.client.max_queue_size
  pub bounded : length t.client.queue ≤ t.client.max_queue_size
  pub counted : t.client.total_sent ≡ length t.sent
  pub kept :
      length t.accepted
      ≡ t.client.total_sent + t.client.dropped_events + length t.client.queue + t.lost
  pub lost_last : t.lost ≤ (if t.client.is_active then 0 else 1)

step-IsValid : (t : Trace) (e : Event) → IsValid t → IsValid (step t e)
unfolding step takes enqueue_event put_nowait drop_oldest is_full send_next close
step-IsValid t (queues frame) v = ground (
  arith,
  v.room,
  v.bounded,
  v.kept,
  length-append {0} t.client.queue (frame ∷ []),
  length-append {0} t.accepted (frame ∷ []),
)
step-IsValid t (sends ok now) v = ground (
  arith,
  v.room,
  v.bounded,
  v.counted,
  v.kept,
  v.lost_last,
  length-append {0} t.sent (send_next t.client ok now).1,
)
step-IsValid t closes v = ground arith

run-IsValid : (t : Trace) (es : List Event) → IsValid t → IsValid (run t es)
unfolding run
run-IsValid t [] v = v
run-IsValid t (e ∷ es) v = run-IsValid (step t e) es (step-IsValid t e v)

-- The trace of a new client.
unfoldable pub start : Client → Trace
start c = record { client = c; sent = []; accepted = []; lost = 0 }

-- In a new client with room for at least one frame, after any frames, turns of the sender and
-- closings: the queue is within its size, and every frame that was queued has been sent, was
-- dropped, was lost in one failed transmission at most, after which the client is not active, or is
-- still in the queue.
pub run-accounts :
    (connection tenant room now : ℕ) (es : List Event)
    → 0 < room
    → IsValid (run (start (new connection tenant room now)) es)
unfolding start new
run-accounts connection tenant room now es positive =
    run-IsValid (start (new connection tenant room now)) es (ground (arith, positive))

-- A client that is active takes every frame, if its queue is within its size.
pub enqueue-active :
    (c : Client) (frame : Text)
    → c.is_active ≡ true
    → length c.queue ≤ c.max_queue_size
    → (enqueue_event c frame).1 ≡ true
unfolding enqueue_event put_nowait drop_oldest is_full
enqueue-active c frame on fits = ground arith

pub enqueue-keeps :
    (c : Client) (frame : Text)
    → ((enqueue_event c frame).0.connection_id ≡ c.connection_id)
      × ((enqueue_event c frame).0.is_active ≡ c.is_active)
      × ((if c.is_active then (enqueue_event c frame).0 else c) ≡ (enqueue_event c frame).0)
unfolding enqueue_event put_nowait drop_oldest is_full
enqueue-keeps c frame = ground arith
