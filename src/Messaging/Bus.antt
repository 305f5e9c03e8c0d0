-- ===== src/Messaging/Bus.antt =====
-- `EventDispatcher` of src/messaging/dispatcher.py, the middlewares of src/messaging/middleware.py and
-- `InMemoryEventBus` of src/messaging/event_bus.py. Whether a handler raises is an argument. The
-- handlers of an event are gathered: the turns in which they start and end, of one between those of
-- others, are in an order that the event loop chooses, which is an argument too. Handlers leave the
-- bus alone. The hooks for one failure are run in one turn: each writes to a field that the others
-- leave, so it makes no difference where they wait. What a
-- hook raises is swallowed, so a middleware of another class changes nothing here, and neither does
-- logging.
pub mod Deliveries
pub mod Orders
mod Tests
use email_analysis_agent.Prelude.{ℕ, ◌+◌, Bool, true, false, List, [], ◌∷◌, ◌++◌, if◌then◌else◌}
use email_analysis_agent.Messaging.Subscriber
use email_analysis_agent.Messaging.Subscriber.{EventType, Handler, Subscriptions, get_handlers_for}

pub data Middleware : Type 0 where
  logging metrics error_handling : Middleware
  custom : ℕ → Middleware

pub record Event : Type 0 where
  pub event_type : EventType
  pub event_id : ℕ

-- The counters of `MetricsMiddleware`.
pub record Metrics : Type 0 where
  pub published_count : ℕ
  pub dispatched_count : ℕ
  pub error_count : ℕ
  pub total_latency : ℕ

-- The bus, with the invocations and the calls of the dead-letter callback so far.
pub record Bus : Type 0 where
  pub subscriptions : Subscriptions
  pub middlewares : List Middleware
  pub has_dead_letter_callback : Bool
  pub running : Bool
  pub counters : Metrics
  pub invoked : List (Event × Handler)
  pub dead_letters : List (Event × Handler)

unfoldable pub new : Bool → Bus
new has_dead_letter_callback = record {
  subscriptions = [];
  middlewares = logging ∷ metrics ∷ error_handling ∷ [];
  has_dead_letter_callback = has_dead_letter_callback;
  running = false;
  counters = record {
    published_count = 0;
    dispatched_count = 0;
    error_count = 0;
    total_latency = 0;
  };
  invoked = [];
  dead_letters = [];
}

unfoldable pub add_middleware : Bus → Middleware → Bus
add_middleware b mw = record b { middlewares = b.middlewares ++ mw ∷ [] }

unfoldable pub before_dispatch : Bus → Middleware → Bus
before_dispatch b metrics = record b {
  counters = record b.counters { published_count = b.counters.published_count + 1 };
}
before_dispatch b _ = b

unfoldable pub after_dispatch : ℕ → Bus → Middleware → Bus
after_dispatch elapsed b metrics = record b {
  counters = record b.counters {
    dispatched_count = b.counters.dispatched_count + 1;
    total_latency = b.counters.total_latency + elapsed;
  };
}
after_dispatch elapsed b _ = b

unfoldable pub on_error : Event → Handler → Bus → Middleware → Bus
on_error event handler b metrics = record b {
  counters = record b.counters { error_count = b.counters.error_count + 1 };
}
on_error event handler b error_handling =
    if b.has_dead_letter_callback
    then record b { dead_letters = b.dead_letters ++ (event, handler) ∷ [] }
    else b
on_error event handler b _ = b

-- A loop over the middlewares.
unfoldable pub each : (Bus → Middleware → Bus) → Bus → List Middleware → Bus
each hook b [] = b
each hook b (mw ∷ mws) = each hook (hook b mw) mws

-- The parts of `_invoke_handler`: the call of the handler, and its end.
pub data Turn : Type 0 where
  starts ends : Handler → Turn

unfoldable pub invoke_handler : (Handler → Event → Bool) → Event → Bus → Turn → Bus
unfolding on_error each
invoke_handler raises event b (starts handler) = record b {
  invoked = b.invoked ++ (event, handler) ∷ [];
}
invoke_handler raises event b (ends handler) =
    if raises handler event then each (on_error event handler) b b.middlewares else b

-- `asyncio.gather`
unfoldable pub invoke_all : (Handler → Event → Bool) → Event → Bus → List Turn → Bus
unfolding invoke_handler
invoke_all raises event b [] = b
invoke_all raises event b (turn ∷ turns) =
    invoke_all raises event (invoke_handler raises event b turn) turns

unfoldable pub dispatch :
    (Handler → Event → Bool) → (List Handler → List Turn) → ℕ → Bus → Event → List Handler → Bus
unfolding before_dispatch after_dispatch invoke_all each
dispatch raises schedule elapsed b event [] = b
dispatch raises schedule elapsed b event (handler ∷ handlers) =
    let prepared = each before_dispatch b b.middlewares in
    let done = invoke_all raises event prepared (schedule (handler ∷ handlers)) in
    each (after_dispatch elapsed) done b.middlewares

unfoldable pub publish :
    (EventType → EventType → Bool)
    → (Handler → Event → Bool)
    → (List Handler → List Turn)
    → ℕ
    → Bus
    → Event
    → Bus
unfolding dispatch
publish issubclass raises schedule elapsed b event =
    dispatch raises schedule elapsed b event
      (get_handlers_for issubclass b.subscriptions event.event_type)

unfoldable pub subscribe : Bus → EventType → Handler → Bus
subscribe b event_type handler = record b {
  subscriptions = Subscriber.subscribe b.subscriptions event_type handler;
}

unfoldable pub unsubscribe : Bus → EventType → Handler → Bus
unsubscribe b event_type handler = record b {
  subscriptions = Subscriber.unsubscribe b.subscriptions event_type handler;
}

unfoldable pub initialize : Bus → Bus
initialize b = record b { running = true }

unfoldable pub shutdown : Bus → Bus
shutdown b = record b { running = false }

pub data BusStatus : Type 0 where
  healthy unhealthy : BusStatus

unfoldable pub health_check : Bus → BusStatus × Metrics
health_check b = (if b.running then healthy else unhealthy, b.counters)
