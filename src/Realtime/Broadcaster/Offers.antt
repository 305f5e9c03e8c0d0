-- ===== src/Realtime/Broadcaster/Offers.antt =====
-- The loop of a broadcast: an active client takes the frame, and the others are stale.
use email_analysis_agent.Prelude.{
  ◌≤◌, ◌≡◌, refl, Bool, List, [], ◌∷◌, if◌then◌else◌, length, keep_if, map, All, arith,
}
use email_analysis_agent.Text.{Text}
use email_analysis_agent.Uuid.{Uuid}
use email_analysis_agent.Realtime.Client.{Client, enqueue_event}
use email_analysis_agent.Realtime.Client.Backpressure.{enqueue-active, enqueue-keeps}
use email_analysis_agent.Realtime.Broadcaster.{offer}

-- A client whose queue is within its size.
abbrev pub Fits : Client → Type 0
Fits c = length c.queue ≤ c.max_queue_size

abbrev pub active : Client → Bool
active c = c.is_active

-- The clients that are not active, and the others with the frame in their queues.
unfoldable pub inactive_ids : List Client → List Uuid
inactive_ids [] = []
inactive_ids (c ∷ cs) =
    let rest = inactive_ids cs in if c.is_active then rest else c.connection_id ∷ rest

unfoldable pub with_frame : Text → Client → Client
with_frame frame c = (enqueue_event c frame).0

unfoldable pub offered : List Client → Text → List Client
unfolding with_frame
offered cs frame = map (with_frame frame) cs

pub offer-facts :
    (cs : List Client) (frame : Text)
    → All Fits cs
    → ((offer cs frame).queued_count ≡ length (keep_if active cs))
      × ((offer cs frame).stale ≡ inactive_ids cs)
      × ((offer cs frame).clients ≡ offered cs frame)
unfolding offer inactive_ids offered with_frame
offer-facts [] frame fits = (refl, refl, refl)
offer-facts (c ∷ cs) frame fits =
    ground (arith, enqueue-active c frame, enqueue-keeps c frame, offer-facts cs frame fits.1)
