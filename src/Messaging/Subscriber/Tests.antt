-- ===== src/Messaging/Subscriber/Tests.antt =====
-- The theorems on subscriptions at inputs that meet their conditions.
use email_analysis_agent.Prelude.{◌≡◌, refl, false, List, [], ◌∷◌, nat_eq}
use email_analysis_agent.Dict.{lookup}
use email_analysis_agent.Dict.Sweep.{member}
use email_analysis_agent.Messaging.Subscriber.{Subscriptions, handlers_at}
use email_analysis_agent.Messaging.Subscriber.Registered.{Call, subscribes, unsubscribes}

abbrev calls : List Call
calls = subscribes 1 7 ∷ subscribes 1 8 ∷ subscribes 1 7 ∷ unsubscribes 1 8 ∷ subscribes 2 7 ∷ []

abbrev subscriptions : Subscriptions
subscriptions = (1, 8 ∷ []) ∷ []

seven_new : member 7 (handlers_at subscriptions 1) ≡ false
unfolding member handlers_at lookup
seven_new = refl
