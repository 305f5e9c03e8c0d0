-- ===== src/Realtime/Client/Tests.antt =====
-- The theorems on a client at inputs that meet their conditions.
use email_analysis_agent.Prelude.{true, false, List, [], ◌∷◌}
use email_analysis_agent.Text.{codes}
use email_analysis_agent.Realtime.Client.{new}
use email_analysis_agent.Realtime.Client.Backpressure.{Event, queues, sends, closes, run, start}
use email_analysis_agent.Realtime.Client.Order.{InOrder, run-InOrder}

abbrev events : List Event
events =
    queues (codes "a")
    ∷ queues (codes "b")
    ∷ queues (codes "c")
    ∷ sends true 5
    ∷ sends false 6
    ∷ queues (codes "d")
    ∷ closes
    ∷ []

run-InOrder_example : InOrder (run (start (new 1 2 2 0)) events)
run-InOrder_example = run-InOrder 1 2 2 0 events
