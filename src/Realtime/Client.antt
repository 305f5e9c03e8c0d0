-- ===== src/Realtime/Client.antt =====
-- `WebSocketClient` of src/realtime/broadcaster.py: a bounded `asyncio.Queue` between the
-- broadcaster and the sender task. Frames are texts, and clock readings, in microseconds, are
-- arguments. The sender task is a step: it sends the first frame of the queue, and the answer of the
-- socket is an argument.
pub mod Backpressure
pub mod Order
mod Tests
use email_analysis_agent.Prelude.{
  ℕ, ◌+◌, Bool, true, false, not, ◌&&◌, String, Option, List, [], ◌∷◌, ◌++◌, ltb, leb,
  if◌then◌else◌, length, nat_beq,
}
use email_analysis_agent.Text.{Text}
use email_analysis_agent.Uuid.{Uuid}

pub record Client : Type 0 where
  pub connection_id : Uuid
  pub tenant_id : Uuid
  pub last_activity : ℕ
  pub queued_events : ℕ
  pub dropped_events : ℕ
  pub total_sent : ℕ
  pub status : String
  pub queue : List Text
  pub max_queue_size : ℕ
  pub has_sender : Bool
  pub is_active : Bool

unfoldable pub new : Uuid → Uuid → ℕ → ℕ → Client
new connection_id tenant_id max_queue_size now = record {
  connection_id = connection_id;
  tenant_id = tenant_id;
  last_activity = now;
  queued_events = 0;
  dropped_events = 0;
  total_sent = 0;
  status = "CONNECTED";
  queue = [];
  max_queue_size = max_queue_size;
  has_sender = false;
  is_active = true;
}

pub start_sender : Client → Client
start_sender c = record c { has_sender = true }

-- `asyncio.Queue.full`: a queue of size 0 is never full.
pub is_full : Client → Bool
is_full c = ltb 0 c.max_queue_size && leb c.max_queue_size (length c.queue)

-- `get_nowait` on a queue that is full: the oldest frame is dropped.
pub drop_oldest : Client → Client
drop_oldest c = elim c.queue [
  | [] ↦ c
  | oldest ∷ rest ↦ record c { queue = rest; dropped_events = c.dropped_events + 1 }
]

-- `put_nowait`, and what the two branches around it record.
pub put_nowait : Client → Text → Client × Bool
unfolding is_full
put_nowait c frame =
    if is_full c then (record c { dropped_events = c.dropped_events + 1 }, false) else (
      record c { queue = c.queue ++ frame ∷ []; queued_events = length (c.queue ++ frame ∷ []) },
      true,
    )

pub enqueue_event : Client → Text → Client × Bool
unfolding drop_oldest put_nowait
enqueue_event c frame =
    if not c.is_active
    then (c, false)
    else if is_full c
    then put_nowait (drop_oldest c) frame
    else put_nowait c frame

-- One turn of `_sender_loop` with a frame in the queue; the frame is sent if the socket accepts it.
pub send_next : Client → Bool → ℕ → Client × List Text
send_next c accepts now = if not c.is_active then (c, []) else (elim c.queue [
  | [] ↦ (c, [])
  | frame ∷ rest ↦
      let taken = record c { queue = rest; queued_events = length rest } in
      if accepts
      then (record taken { total_sent = c.total_sent + 1; last_activity = now }, frame ∷ [])
      else (record taken { is_active = false }, [])
])

pub close : Client → Client
close c = record c { is_active = false; has_sender = false; status = "DISCONNECTED" }
