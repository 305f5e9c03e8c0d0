-- ===== src/Messaging/Bus/Tests.antt =====
-- The theorems on the bus at inputs that meet their conditions.
use mathlib.Core.List.Permᴰ
use mathlib.Core.List.{Permᴰ}
use email_analysis_agent.Prelude.{◌≡◌, refl, Bool, true, List, [], ◌∷◌, ◌==◌, nat_eq, leb}
use email_analysis_agent.Messaging.Subscriber.{EventType, Handler, get_handlers_for}
use email_analysis_agent.Messaging.Bus.{Event, Bus, new, publish, Turn, starts, ends}
use email_analysis_agent.Messaging.Bus.Deliveries.{
  own_middlewares, Complete, Delivered, publish-delivers,
}

-- The second handler raises; every class is below the classes of smaller numbers.
abbrev raises : Handler → Event → Bool
raises h event = h == 2

abbrev below : EventType → EventType → Bool
below t u = leb u t

abbrev event : Event
event = record { event_type = 5; event_id = 77 }

abbrev two_handlers : Bus
unfolding new
two_handlers = record (new true) { subscriptions = (1, 2 ∷ []) ∷ (5, 3 ∷ []) ∷ [] }

both_run : get_handlers_for below two_handlers.subscriptions 5 ≡ 2 ∷ 3 ∷ []
unfolding get_handlers_for two_handlers
both_run = refl

own : two_handlers.middlewares ≡ own_middlewares
unfolding two_handlers new
own = refl

-- The second handler starts before the first one has ended, and ends before it.
abbrev crossing : List Handler → List Turn
crossing (g ∷ h ∷ hs) = starts g ∷ starts h ∷ ends h ∷ ends g ∷ []
crossing hs = []

crossing-Complete :
    Complete
      (crossing (get_handlers_for below two_handlers.subscriptions 5))
      (get_handlers_for below two_handlers.subscriptions 5)
crossing-Complete = rw both_run (Permᴰ.refl (2 ∷ 3 ∷ []), Permᴰ.swap {l = []} refl refl)

publish-delivers_example :
    Delivered raises two_handlers
      (publish below raises crossing 9 two_handlers event)
      event
      (get_handlers_for below two_handlers.subscriptions 5)
publish-delivers_example =
    publish-delivers below raises crossing 9 two_handlers event own crossing-Complete
