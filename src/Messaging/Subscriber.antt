-- ===== src/Messaging/Subscriber.antt =====
-- `EventSubscriber` of src/messaging/subscriber.py. Event classes and handlers are told apart by
-- numbers, and `issubclass` is an argument.
pub mod Registered
mod Tests
use email_analysis_agent.Prelude.{
  ℕ, Bool, true, false, Option, none, some, List, [], ◌∷◌, ◌++◌, ◌==◌, Eq, nat_eq, if◌then◌else◌,
}
use email_analysis_agent.Dict.{Dict, lookup, put}
use email_analysis_agent.Dict.Sweep.{member}

abbrev pub EventType : Type 0
EventType = ℕ

abbrev pub Handler : Type 0
Handler = ℕ

abbrev pub Subscriptions : Type 0
Subscriptions = Dict EventType (List Handler)

-- `_subscriptions.get(event_type, [])`
unfoldable pub handlers_at : Subscriptions → EventType → List Handler
handlers_at s event_type = elim (lookup event_type s) [ none ↦ [] | some handlers ↦ handlers ]

unfoldable pub subscribe : Subscriptions → EventType → Handler → Subscriptions
unfolding handlers_at
subscribe s event_type handler =
    let handlers = handlers_at s event_type in
    put event_type (if member handler handlers then handlers else handlers ++ handler ∷ []) s

-- `list.remove(handler)` for a handler that is there.
unfoldable pub remove_handler : Handler → List Handler → List Handler
remove_handler handler [] = []
remove_handler handler (h ∷ hs) = if h == handler then hs else h ∷ remove_handler handler hs

unfoldable pub unsubscribe : Subscriptions → EventType → Handler → Subscriptions
unfolding remove_handler
unsubscribe s event_type handler = elim (lookup event_type s) [
  | none ↦ s
  | some handlers ↦
      if member handler handlers then put event_type (remove_handler handler handlers) s else s
]

unfoldable pub get_handlers_for :
    (EventType → EventType → Bool) → Subscriptions → EventType → List Handler
get_handlers_for issubclass [] event_type = []
get_handlers_for issubclass ((reg_type, reg_handlers) ∷ s) event_type =
    let rest = get_handlers_for issubclass s event_type in
    if issubclass event_type reg_type then reg_handlers ++ rest else rest
